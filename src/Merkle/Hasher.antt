-- ===== src/Merkle/Hasher.antt =====
-- TreeHasher of ledger/tree_hasher.py. A text of bytes is the list of their numbers; the digest of
-- the hash function, which is `hashlib.sha256` unless another is given, is a parameter.
pub mod Slices
pub mod Full
use mathlib.Core.List.{reverse}
use indy_plenum.Prelude.{
  ℕ, zero, suc, ◌+◌, ◌-◌, ◌*◌, ◌^◌, Bool, true, false, ◌||◌, ◌&&◌, ltb, leb, ◌==◌, if◌then◌else◌,
  Option, none, some, List, [], ◌∷◌, ◌++◌, length, get_elem?,
}
use indy_plenum.Merkle.Result.{
  Result, ok, raised, check, ◌>>=◌, ◌>>◌, index_error, assertion_error, stop_iteration,
}
use indy_plenum.Merkle.Bits.{highest_bit_set}

abbrev pub Bytes : Type 0
Bytes = List ℕ

-- `xs[i]`
abbrev pub item {ℓ} : {A : Type ℓ} → List A → ℕ → Result A
item xs i = elim (get_elem? xs i) [ none ↦ raised index_error | some x ↦ ok x ]

-- `2**((width - 1).bit_length() - 1)`; the method of Python counts the binary digits of a number, as
-- the loop of `highest_bit_set` does.
unfoldable pub split_width : ℕ → ℕ
unfolding highest_bit_set
split_width width = 2 ^ (highest_bit_set (width - 1) - 1)

module _ (digest : Bytes → Bytes) where
  unfoldable pub hash_empty : Bytes
  hash_empty = digest []

  unfoldable pub hash_leaf : Bytes → Bytes
  hash_leaf leaf = digest (0 ∷ leaf)

  unfoldable pub hash_children : Bytes → Bytes → Bytes
  hash_children left right = digest (1 ∷ left ++ right)

  -- Each half is narrower than the whole, so that as many rounds as the range is wide are enough.
  unfoldable pub hash_full : ℕ → List Bytes → ℕ → ℕ → Result (Bytes × List Bytes)
  hash_full zero leaves l_idx r_idx = raised assertion_error
  hash_full (suc fuel) leaves l_idx r_idx =
      let width : ℕ = r_idx - l_idx in
      let split : ℕ = split_width width in
      let joined : Result (Bytes × List Bytes) = (do
        check (ltb split width && leb width (2 * split)) assertion_error
        (l_root, l_hashes) ← hash_full fuel leaves l_idx (l_idx + split)
        check (length l_hashes == 1) assertion_error
        (r_root, r_hashes) ← hash_full fuel leaves (l_idx + split) r_idx
        let root_hash = hash_children l_root r_root
        ok (root_hash, if split * 2 == width then root_hash ∷ [] else l_hashes ++ r_hashes)) in
      if ltb r_idx l_idx || ltb (length leaves) r_idx
      then raised index_error
      else (if width == 0
          then ok (hash_empty, [])
          else (if width == 1
              then (do leaf ← item leaves l_idx; ok (hash_leaf leaf, hash_leaf leaf ∷ []))
              else joined))

  -- The loop of `_hash_fold` over the hashes that are left, the last first.
  unfoldable pub fold_onto : Bytes → List Bytes → Bytes
  fold_onto accum [] = accum
  fold_onto accum (cur ∷ rev_hashes) = fold_onto (hash_children cur accum) rev_hashes

  -- `next` raises StopIteration where there is no hash.
  unfoldable pub hash_fold : List Bytes → Result Bytes
  unfolding fold_onto
  hash_fold hashes = elim (reverse hashes) [
    | [] ↦ raised stop_iteration
    | accum ∷ rev_hashes ↦ ok (fold_onto accum rev_hashes)
  ]

  unfoldable pub hash_full_tree : List Bytes → Result Bytes
  hash_full_tree leaves = do
    (root_hash, _) ← hash_full (length leaves + 1) leaves 0 (length leaves)
    ok root_hash
