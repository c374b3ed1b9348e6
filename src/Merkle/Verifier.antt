-- ===== src/Merkle/Verifier.antt =====
-- MerkleVerifier of ledger/merkle_verifier.py. Tree sizes and indices are natural numbers, so that
-- the tests for negative ones, which raise ValueError, do not show.
pub mod Complete
pub mod Sound
use indy_plenum.Prelude.{
  ℕ, zero, suc, ◌+◌, ◌-◌, ◌/◌, ◌%◌, Bool, true, false, ◌||◌, ltb, leb, ◌==◌, not, ◌=?◌, list_beq,
  nat_eq, if◌then◌else◌, List, [], ◌∷◌,
}
use indy_plenum.Merkle.Result.{
  Result, ok, raised, ◌>>=◌, ◌>>◌, check, value_error, assertion_error, proof_error,
  consistency_error,
}
use indy_plenum.Merkle.Hasher.{Bytes, hash_leaf, hash_children}

pub record Sth : Type 0 where
  pub tree_size : ℕ
  pub sha256_root_hash : Bytes

-- The last node is halved in each round, so that as many rounds as there are leaves are enough.
unfoldable pub length_loop : ℕ → ℕ → ℕ → ℕ → ℕ
length_loop zero index last_node length = length
length_loop (suc fuel) index last_node length =
    let next : ℕ = if (index % 2 == 1) || ltb index last_node then length + 1 else length in
    let rest = length_loop fuel (index / 2) (last_node / 2) next in
    if ltb 0 last_node then rest else length

unfoldable pub audit_path_length : ℕ → ℕ → ℕ
unfolding length_loop
audit_path_length index tree_size = length_loop tree_size index (tree_size - 1) 0

-- Whether a round takes a hash from the path.
abbrev pub takes : ℕ → ℕ → Bool
takes node_index last_node = (node_index % 2 == 1) || ltb node_index last_node

module _ (digest : Bytes → Bytes) where
  -- The hash of a round that takes `audit_hash` from the path.
  unfoldable pub joined_hash : ℕ → Bytes → Bytes → Bytes
  joined_hash node_index audit_hash calculated_hash =
      if node_index % 2 == 1
      then hash_children digest audit_hash calculated_hash
      else hash_children digest calculated_hash audit_hash

  -- The loop of `_calculate_root_hash_from_audit_path`: the hash, and what is left of the path.
  unfoldable pub audit_loop : ℕ → Bytes → ℕ → ℕ → List Bytes → Result (Bytes × List Bytes)
  unfolding joined_hash
  audit_loop zero calculated_hash node_index last_node audit_path = raised assertion_error
  audit_loop (suc fuel) calculated_hash node_index last_node [] =
      if ltb 0 last_node then raised proof_error else ok (calculated_hash, [])
  audit_loop (suc fuel) calculated_hash node_index last_node (audit_hash ∷ audit_path) =
      let taken =
        audit_loop fuel (joined_hash node_index audit_hash calculated_hash) (node_index / 2)
          (last_node / 2) audit_path in
      let skipped =
        audit_loop fuel calculated_hash (node_index / 2) (last_node / 2)
          (audit_hash ∷ audit_path) in
      if ltb 0 last_node
      then (if takes node_index last_node then taken else skipped)
      else ok (calculated_hash, audit_hash ∷ audit_path)

  unfoldable pub calculate_root_hash_from_audit_path : Bytes → ℕ → List Bytes → ℕ → Result Bytes
  unfolding audit_loop
  calculate_root_hash_from_audit_path leaf_hash node_index audit_path tree_size = do
    (calculated_hash, left_over) ←
        audit_loop (tree_size + 1) leaf_hash node_index (tree_size - 1) audit_path
    elim left_over [ [] ↦ ok calculated_hash | _ ∷ _ ↦ raised proof_error ]

  unfoldable pub verify_leaf_hash_inclusion : Bytes → ℕ → List Bytes → Sth → Result Bool
  unfolding calculate_root_hash_from_audit_path
  verify_leaf_hash_inclusion leaf_hash leaf_index proof sth =
      if leb sth.tree_size leaf_index then raised value_error else (do
        calculated_root_hash ←
            calculate_root_hash_from_audit_path leaf_hash leaf_index proof sth.tree_size
        if list_beq calculated_root_hash sth.sha256_root_hash then ok true else raised proof_error)

  unfoldable pub verify_leaf_inclusion : Bytes → ℕ → List Bytes → Sth → Result Bool
  unfolding verify_leaf_hash_inclusion
  verify_leaf_inclusion leaf leaf_index proof sth =
      verify_leaf_hash_inclusion (hash_leaf digest leaf) leaf_index proof sth
