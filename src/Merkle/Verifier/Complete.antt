-- ===== src/Merkle/Verifier/Complete.antt =====
-- The audit path that `append` of compact_merkle_tree.py returns is accepted by MerkleVerifier.
use mathlib.Core.List.{reverse, reverse-reverse}
use indy_plenum.Prelude.{
  ℕ, zero, suc, ◌+◌, ◌-◌, ◌*◌, ◌/◌, ◌%◌, ◌≤◌, ◌<◌, ◌≡◌, refl, sym, ◌∙◌, ap, subst, List, [], ◌∷◌,
  map, arith, length, some, none, ◌==◌, ==_iff, inl, inr, Bool-cases, true, false, list_beq_refl,
  leb, nat_eq,
}
use indy_plenum.Merkle.Result.{ok}
use indy_plenum.Merkle.Bits.Laws.{
  total_from, total_from-zero, total_from-even, total_from-odd, total_from-pos,
}
use indy_plenum.Merkle.Hasher.{Bytes, hash_leaf, hash_children, fold_onto}
use indy_plenum.Merkle.Trees.{
  Tree, leaf, node, height, root, IsForest, IsAscending-heights, length-joined,
}
use indy_plenum.Merkle.Compact.{CompactMerkleTree, append, root_hash, computed_root}
use indy_plenum.Merkle.Compact.Forest.{hashes_of, tree_of, carry}
use indy_plenum.Merkle.Compact.Root.{root_of, computed_root-hashes_of}
use indy_plenum.Merkle.Compact.Append.{IsTreeOf, append-tree_of, store_after}
use indy_plenum.Merkle.Verifier.{
  audit_loop, joined_hash, calculate_root_hash_from_audit_path, verify_leaf_inclusion,
}

module _ (digest : Bytes → Bytes) where
  audit_loop-done :
      (fuel : ℕ) (c : Bytes) (n : ℕ) → audit_loop digest (suc fuel) c n 0 [] ≡ ok (c, [])
  unfolding audit_loop
  audit_loop-done fuel c n = refl

  -- The last leaf: at a one among the binary digits of its index, the path gives a hash to its left.
  audit_loop-one :
      (fuel : ℕ) (c a : Bytes) (m n : ℕ) (path : List Bytes)
      → n ≡ 2 * m + 1
      → audit_loop digest (suc fuel) c n n (a ∷ path)
        ≡ audit_loop digest fuel (hash_children digest a c) m m path
  unfolding audit_loop joined_hash
  audit_loop-one fuel c a m n path e =
      let half : n / 2 ≡ m = omega (arith, e) in
      let odd : (n % 2 == 1) ≡ true = ground (arith, e) in rw (half, odd) (ground (arith, e))

  -- At a zero it takes none.
  audit_loop-zero :
      (fuel : ℕ) (c a : Bytes) (m n : ℕ) (path : List Bytes)
      → n ≡ 2 * m
      → 0 < n
      → audit_loop digest (suc fuel) c n n (a ∷ path) ≡ audit_loop digest fuel c m m (a ∷ path)
  unfolding audit_loop
  audit_loop-zero fuel c a m n path e b =
      let half : n / 2 ≡ m = omega (arith, e) in
      let even : (n % 2 == 1) ≡ false = ground (arith, e) in rw (half, even) (ground (arith, e, b))

  audit_loop-forest :
      (j fuel n : ℕ) (f : List Tree) (c : Bytes)
      → IsForest j f
      → n ≡ total_from j (map height f)
      → n < fuel
      → audit_loop digest fuel c n n (map (root digest) f)
        ≡ ok (fold_onto digest c (map (root digest) f), [])
  unfolding fold_onto
  audit_loop-forest j zero n f c p e b = absurd (omega (arith, b))
  audit_loop-forest j (suc fuel) n [] c p e b = rw e (audit_loop-done fuel c 0)
  audit_loop-forest j (suc fuel) n (t ∷ f) c p e b =
      let some_left = total_from-pos j (height t) (map height f) in
      elim (Bool-cases (j == height t)) [
        | inl here ↦
            let same : height t ≡ j = sym ((==_iff _ _).0 here) in
            let rising = IsAscending-heights (suc (height t)) f p.2 in
            let m = total_from (suc j) (map height f) in
            let odd : n ≡ 2 * m + 1 = e ∙ total_from-odd j (height t) (map height f) same rising in
            audit_loop-one fuel c (root digest t) m n (map (root digest) f) odd
            ∙ audit_loop-forest (suc j) fuel m f (hash_children digest (root digest t) c)
                (subst (λ (k : ℕ). IsForest (suc k) f) same p.2) refl (omega (arith, odd, b))
        | inr there ↦
            let higher : suc j ≤ height t = ground (arith, p.0, there) in
            let rising = IsAscending-heights (height t) (t ∷ f) (omega arith, p.1, p.2) in
            let m = total_from (suc j) (map height (t ∷ f)) in
            let even : n ≡ 2 * m =
              e ∙ total_from-even j (height t) (map height (t ∷ f)) higher rising in
            audit_loop-zero fuel c (root digest t) m n (map (root digest) f) even
              (omega (arith, some_left, e))
            ∙ audit_loop-forest (suc j) fuel m (t ∷ f) c (higher, p.1, p.2) refl
                (omega (arith, even, b, some_left, e))
      ]

  root_hash-fresh :
      (t : CompactMerkleTree) (h : Bytes)
      → t.cached_root ≡ none
      → computed_root digest t.hashes ≡ ok h
      → root_hash digest t ≡ ok (h, record t { cached_root = some h })
  unfolding root_hash
  root_hash-fresh t h e e' = rw (e, e')

  -- A carry does not change the root.
  pub root_of-carry :
      (u : Tree) (f : List Tree)
      → root_of digest (carry u f) ≡ fold_onto digest (root digest u) (map (root digest) f)
  unfolding fold_onto root
  root_of-carry u [] = refl
  root_of-carry u (t ∷ f) = elim (Bool-cases (height u == height t)) [
    | inl e ↦ rw e (root_of-carry (node t u) f)
    | inr e ↦ rw e
  ]

  calculate-of_loop :
      (c h : Bytes) (n : ℕ) (path : List Bytes)
      → audit_loop digest (n + 1 + 1) c n n path ≡ ok (h, [])
      → calculate_root_hash_from_audit_path digest c n path (n + 1) ≡ ok h
  unfolding calculate_root_hash_from_audit_path
  calculate-of_loop c h n path e = let last : n + 1 - 1 ≡ n = omega arith in rw (last, e)

  verify-of_calculated :
      (d h : Bytes) (n : ℕ) (path : List Bytes)
      → calculate_root_hash_from_audit_path digest (hash_leaf digest d) n path (n + 1) ≡ ok h
      → verify_leaf_inclusion digest d n path (record { tree_size = n + 1; sha256_root_hash = h })
        ≡ ok true
  unfolding verify_leaf_inclusion
  verify-of_calculated d h n path e =
      let inside : leb (n + 1) n ≡ false = ground arith in rw (inside, e, list_beq_refl h)

  -- A tree that stands for the leaves `ls` takes one more leaf. MerkleVerifier accepts the audit path
  -- that `append` returns, for the new leaf at the index `len(ls)`, against the size and the root hash
  -- of the grown tree, and neither method raises.
  pub append-verify_leaf_inclusion :
      (d : Bytes) (ls : List Bytes) (t : CompactMerkleTree)
      → IsTreeOf digest ls t
      → (path : List Bytes) × (grown : CompactMerkleTree) × (h : Bytes) × (read : CompactMerkleTree)
        × (append digest d t ≡ ok (path, grown))
        × (root_hash digest grown ≡ ok (h, read))
        × (verify_leaf_inclusion digest d
              (length ls)
              path
              (record { tree_size = length ls + 1; sha256_root_hash = h })
            ≡ ok true)
  unfolding root
  append-verify_leaf_inclusion d ls t p =
      let f = p.forest in
      let f' = carry (leaf d) f in
      let n = length ls in
      let appended = append-tree_of digest d f t.cached_root t.hash_store p.shape in
      let grown = tree_of digest f' none (store_after digest d f t.hash_store) in
      let h = root_of digest f' in
      let size : n ≡ total_from 0 (map height f) =
        sym (ap length p.content)
        ∙ length-joined 0 f p.shape
        ∙ sym (total_from-zero (map height f)) in
      let path : reverse (hashes_of digest f) ≡ map (root digest) f =
        reverse-reverse (map (root digest) f) in
      let looped =
        audit_loop-forest 0 (n + 1 + 1) n f (hash_leaf digest d) p.shape size (omega arith) in
      let ended : audit_loop digest (n + 1 + 1) (hash_leaf digest d) n n
            (reverse (hashes_of digest f))
          ≡ ok (h, []) =
        rw path (looped ∙ ap (λ (x : Bytes). ok (x, [])) (sym (root_of-carry (leaf d) f))) in
      (
        reverse (hashes_of digest f),
        grown,
        h,
        record grown { cached_root = some h },
        ap (append digest d) p.is ∙ appended,
        root_hash-fresh grown h refl (computed_root-hashes_of digest f'),
        verify-of_calculated d h n (reverse (hashes_of digest f))
            (calculate-of_loop (hash_leaf digest d) h n (reverse (hashes_of digest f)) ended),
      )
