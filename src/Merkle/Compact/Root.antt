-- ===== src/Merkle/Compact/Root.antt =====
-- The root hash of a CompactMerkleTree and the one that TreeHasher computes from all the leaves.
use mathlib.Core.List.{reverse-reverse, append-nil}
use indy_plenum.Prelude.{ℕ, ◌+◌, ◌≡◌, refl, sym, ◌∙◌, subst, List, [], ◌∷◌, map, arith, length}
use indy_plenum.Merkle.Result.{ok}
use indy_plenum.Merkle.Bits.Laws.{total}
use indy_plenum.Merkle.Hasher.{Bytes, hash_empty, hash_fold, fold_onto, hash_full, hash_full_tree}
use indy_plenum.Merkle.Hasher.Slices.{IsAt, IsAt-whole}
use indy_plenum.Merkle.Hasher.Full.{fold_down, hash_full-down}
use indy_plenum.Merkle.Trees.{
  Tree, height, root, IsForest, joined, IsDescending, joined_down, turn, turn-IsDescending,
  joined_down-turn, length-joined,
}
use indy_plenum.Merkle.Compact.{computed_root}
use indy_plenum.Merkle.Compact.Forest.{hashes_of}

abbrev down_total : List Tree → ℕ
down_total f = total (map height f)

total-turn : (f acc : List Tree) → down_total (turn f acc) ≡ down_total f + down_total acc
total-turn [] acc = omega arith
total-turn (t ∷ f) acc = omega (arith, total-turn f (t ∷ acc))

module _ (digest : Bytes → Bytes) where
  -- The hashes of the trees from the smallest on, each joined to the left of what is there.
  abbrev pub root_of : List Tree → Bytes
  root_of [] = hash_empty digest
  root_of (t ∷ f) = fold_onto digest (root digest t) (map (root digest) f)

  hash_full-turn :
      (all : List Bytes) (n : ℕ) (f : List Tree) (v : Tree) (w : List Tree)
      → IsDescending (turn f (v ∷ w))
      → IsAt all 0 (joined_down (turn f (v ∷ w)))
      → n ≡ down_total (turn f (v ∷ w))
      → (hashes : List Bytes) × (hash_full digest (n + 1) all 0 n
          ≡ ok (fold_onto digest (fold_down digest v w) (map (root digest) f), hashes))
  unfolding fold_onto
  hash_full-turn all n [] v w p at_l e = (
    map (root digest) (v ∷ w),
    hash_full-down digest all v w (n + 1) 0 n p at_l (omega (arith, e)) (omega (arith, e)),
  )
  hash_full-turn all n (t ∷ f) v w p at_l e = hash_full-turn all n f t (v ∷ w) p at_l e

  hash_full_tree-eq :
      (all : List Bytes) (h : Bytes) (hashes : List Bytes)
      → hash_full digest (length all + 1) all 0 (length all) ≡ ok (h, hashes)
      → hash_full_tree digest all ≡ ok h
  unfolding hash_full_tree
  hash_full_tree-eq all h hashes e = rw e

  -- TreeHasher on all the leaves of a forest.
  pub hash_full_tree_lem :
      (f : List Tree) → IsForest 0 f → hash_full_tree digest (joined f) ≡ ok (root_of f)
  unfolding hash_full_tree hash_full
  hash_full_tree_lem [] p = refl
  hash_full_tree_lem (t ∷ f) p =
      let all = joined (t ∷ f) in
      let down = turn-IsDescending 0 (t ∷ f) [] p tt (omega arith) in
      let same : joined_down (turn f (t ∷ [])) ≡ all =
        joined_down-turn (t ∷ f) [] ∙ append-nil all in
      let size : length all ≡ down_total (turn f (t ∷ [])) =
        omega (arith, length-joined 0 (t ∷ f) p, total-turn f (t ∷ [])) in
      let (hashes, e) =
        hash_full-turn all (length all) f t [] down
          (subst (λ (l : List Bytes). IsAt all 0 l) (sym same) (IsAt-whole all)) size in
      hash_full_tree-eq all (root_of (t ∷ f)) hashes e

  computed_root-of_fold :
      (hs : List Bytes) (h : Bytes) → hash_fold digest hs ≡ ok h → computed_root digest hs ≡ ok h
  unfolding computed_root hash_fold
  computed_root-of_fold [] h e = absurd (cc e)
  computed_root-of_fold (x ∷ hs) h e = e

  hash_fold-hashes_of :
      (t : Tree) (f : List Tree)
      → hash_fold digest (hashes_of digest (t ∷ f)) ≡ ok (root_of (t ∷ f))
  unfolding hash_fold
  hash_fold-hashes_of t f = rw (reverse-reverse (map (root digest) (t ∷ f)), hash_fold)

  -- The fold of the hashes that the compact tree keeps.
  pub computed_root-hashes_of :
      (f : List Tree) → computed_root digest (hashes_of digest f) ≡ ok (root_of f)
  unfolding computed_root
  computed_root-hashes_of [] = refl
  computed_root-hashes_of (t ∷ f) =
      computed_root-of_fold (hashes_of digest (t ∷ f)) (root_of (t ∷ f)) (hash_fold-hashes_of t f)
