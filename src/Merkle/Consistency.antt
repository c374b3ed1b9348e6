-- ===== src/Merkle/Consistency.antt =====
-- `verify_tree_consistency` of ledger/merkle_verifier.py. Tree sizes are natural numbers, so that the
-- test for negative ones does not show; StopIteration is caught and raised as ProofError.
pub mod Sound
pub mod Roots
use indy_plenum.Prelude.{
  ℕ, zero, suc, ◌+◌, ◌-◌, ◌/◌, ◌%◌, Bool, true, false, ltb, ◌==◌, list_beq, nat_eq, if◌then◌else◌,
  List, [], ◌∷◌,
}
use indy_plenum.Merkle.Result.{
  Result, ok, raised, ◌>>=◌, value_error, assertion_error, proof_error, consistency_error,
}
use indy_plenum.Merkle.Hasher.{Bytes, hash_children}

-- The nodes above which both trees are the same: while the node is a right child, one level up.
unfoldable pub skip_common : ℕ → ℕ → ℕ → ℕ × ℕ
skip_common zero node last_node = (node, last_node)
skip_common (suc fuel) node last_node =
    let up = skip_common fuel (node / 2) (last_node / 2) in
    if node % 2 == 1 then up else (node, last_node)

-- `next(p)`
abbrev pub next_hash : List Bytes → Result (Bytes × List Bytes)
next_hash [] = raised proof_error
next_hash (h ∷ hs) = ok (h, hs)

-- The first hash of the two trees, and what is left of the proof.
unfoldable pub first_hash : ℕ → Bytes → List Bytes → Result (Bytes × List Bytes)
first_hash node old_root proof = if node == 0 then ok (old_root, proof) else next_hash proof

-- The hash of the older tree with that of the newer one.
abbrev pub with_old : Bytes → Result Bytes → Result (Bytes × Bytes)
with_old old_hash (ok root) = ok (old_hash, root)
with_old old_hash (raised e) = raised e

-- Whether the newer and the older hash are the roots that were given.
unfoldable pub compared : Bool → Bool → Result Bool
compared new_fits old_fits =
    if new_fits
    then (if old_fits then ok true else raised consistency_error)
    else raised proof_error

module _ (digest : Bytes → Bytes) where
  -- The second loop, over the hashes of the newer tree alone.
  unfoldable pub new_loop : ℕ → ℕ → Bytes → List Bytes → Result Bytes
  new_loop zero last_node new_hash proof =
      if last_node == 0 then ok new_hash else raised assertion_error
  new_loop (suc fuel) last_node new_hash [] =
      if last_node == 0 then ok new_hash else raised proof_error
  new_loop (suc fuel) last_node new_hash (n ∷ proof) =
      let rest = new_loop fuel (last_node / 2) (hash_children digest new_hash n) proof in
      if last_node == 0 then ok new_hash else rest

  -- The first loop; the two loops halve their number in each round, so that as many rounds as there
  -- are leaves are enough. The result is the hash of the older and the one of the newer tree.
  unfoldable pub both_loop : ℕ → ℕ → ℕ → Bytes → Bytes → List Bytes → Result (Bytes × Bytes)
  unfolding new_loop
  both_loop zero node last_node old_hash new_hash proof = raised assertion_error
  both_loop (suc fuel) node last_node old_hash new_hash [] =
      let level = both_loop fuel (node / 2) (last_node / 2) old_hash new_hash [] in
      let ended = with_old old_hash (new_loop (last_node + 1) last_node new_hash []) in
      if node == 0
      then ended
      else (if node % 2 == 1
          then raised proof_error
          else (if ltb node last_node then raised proof_error else level))
  both_loop (suc fuel) node last_node old_hash new_hash (h ∷ proof) =
      let right =
        both_loop fuel (node / 2) (last_node / 2) (hash_children digest h old_hash)
          (hash_children digest h new_hash) proof in
      let left =
        both_loop fuel (node / 2) (last_node / 2) old_hash (hash_children digest new_hash h)
          proof in
      let level = both_loop fuel (node / 2) (last_node / 2) old_hash new_hash (h ∷ proof) in
      let ended = with_old old_hash (new_loop (last_node + 1) last_node new_hash (h ∷ proof)) in
      if node == 0
      then ended
      else (if node % 2 == 1 then right else (if ltb node last_node then left else level))

  -- The two hashes that a proof gives for trees of these sizes, the older one not empty.
  unfoldable pub computed_roots : ℕ → ℕ → Bytes → List Bytes → Result (Bytes × Bytes)
  unfolding both_loop first_hash skip_common
  computed_roots old_size new_size old_root proof =
      let (node, last_node) = skip_common old_size (old_size - 1) (new_size - 1) in
      (do
        (start, rest) ← first_hash node old_root proof
        both_loop (new_size + 1) node last_node start start rest)

  unfoldable pub verify_tree_consistency :
      (old_size new_size : ℕ) (old_root new_root : Bytes) (proof : List Bytes) → Result Bool
  unfolding computed_roots compared
  verify_tree_consistency old_size new_size old_root new_root proof =
      if ltb new_size old_size
      then raised value_error
      else (if old_size == new_size
          then (if list_beq old_root new_root then ok true else raised consistency_error)
          else (if old_size == 0 then ok true else (do
            (old_hash, new_hash) ← computed_roots old_size new_size old_root proof
            compared (list_beq new_hash new_root) (list_beq old_hash old_root))))
