-- ===== src/Merkle/Tests.antt =====
-- A tree of five leaves under a checksum in place of the hash function.
use indy_plenum.Prelude.{ℕ, ◌+◌, ◌*◌, ◌%◌, arith, ◌≡◌, ◌⊎◌, refl, List, [], ◌∷◌, none, true}
use indy_plenum.Merkle.Result.{ok, raised, proof_error, ◌>>=◌}
use indy_plenum.Merkle.Bits.{
  count_bits_set, is_power_of2, highest_bit_set, lowest_bit_set, has_nth_bit_set,
  highest_power_of2_less_than,
}
use indy_plenum.Merkle.Hasher.{
  Bytes, split_width, hash_full_tree, hash_full, hash_leaf, hash_children,
}
use indy_plenum.Merkle.Trees.{leaf}
use indy_plenum.Merkle.Compact.{
  CompactMerkleTree, new_store, init_tree, append, append_all, root_hash, verify_consistency,
}
use indy_plenum.Merkle.Compact.Forest.{tree_of}
use indy_plenum.Merkle.Compact.Append.{IsTreeOf, tree_of-IsTreeOf, append_all-root_hash}
use indy_plenum.Merkle.Compact.Count.{append_all-verify_consistency}
use indy_plenum.Merkle.Verifier.{Sth, verify_leaf_inclusion, audit_path_length}
use indy_plenum.Merkle.Verifier.Complete.{append-verify_leaf_inclusion}
use indy_plenum.Merkle.Consistency.{verify_tree_consistency}
use indy_plenum.Merkle.Consistency.Roots.{verify_tree_consistency-binds}
use indy_plenum.Merkle.Verifier.Sound.{Collision, verify_leaf_inclusion-binds}

abbrev weigh : ℕ → Bytes → ℕ
weigh acc [] = acc
weigh acc (b ∷ bs) = weigh ((acc * 31 + b + 7) % 256) bs

-- One byte that depends on all the bytes of the text.
abbrev digest : Bytes → Bytes
digest bs = weigh 1 bs ∷ []

abbrev five : List Bytes
five = (1 ∷ []) ∷ (2 ∷ []) ∷ (3 ∷ []) ∷ (4 ∷ []) ∷ (5 ∷ []) ∷ []

append_all-root_hash_example :
    (t : CompactMerkleTree) × (h : Bytes) × (read : CompactMerkleTree) × ((init_tree 0 []
        >>= append_all digest five)
      ≡ ok t)
    × (root_hash digest t ≡ ok (h, read))
    × (hash_full_tree digest five ≡ ok h)
append_all-root_hash_example = append_all-root_hash digest five

append_all-verify_consistency_example :
    (t : CompactMerkleTree) × ((init_tree 0 [] >>= append_all digest five) ≡ ok t)
    × (verify_consistency 5 t ≡ ok true)
append_all-verify_consistency_example = append_all-verify_consistency digest five

abbrev one : CompactMerkleTree
one = tree_of digest (leaf (1 ∷ []) ∷ []) none new_store

one-IsTreeOf : IsTreeOf digest ((1 ∷ []) ∷ []) one
one-IsTreeOf = tree_of-IsTreeOf digest (leaf (1 ∷ []) ∷ []) new_store (omega arith, tt, tt)

append-verify_leaf_inclusion_example :
    (path : List Bytes) × (grown : CompactMerkleTree) × (h : Bytes) × (read : CompactMerkleTree)
    × (append digest (2 ∷ []) one ≡ ok (path, grown))
    × (root_hash digest grown ≡ ok (h, read))
    × (verify_leaf_inclusion digest (2 ∷ []) 1 path (record { tree_size = 2; sha256_root_hash = h })
        ≡ ok true)
append-verify_leaf_inclusion_example =
    append-verify_leaf_inclusion digest (2 ∷ []) ((1 ∷ []) ∷ []) one one-IsTreeOf

abbrev head_of_two : Sth
head_of_two = record {
  tree_size = 2;
  sha256_root_hash = weigh 1 (1 ∷ weigh 1 (0 ∷ 1 ∷ []) ∷ weigh 1 (0 ∷ 2 ∷ []) ∷ []) ∷ [];
}

abbrev path_of_two : List Bytes
path_of_two = (weigh 1 (0 ∷ 1 ∷ []) ∷ []) ∷ []

accepted : verify_leaf_inclusion digest (2 ∷ []) 1 path_of_two head_of_two ≡ ok true
unfolding verify_leaf_inclusion hash_leaf hash_children
accepted = refl

refused : verify_leaf_inclusion digest (3 ∷ []) 1 path_of_two head_of_two ≡ raised proof_error
unfolding verify_leaf_inclusion hash_leaf hash_children
refused = refl

verify_leaf_inclusion-binds_example : (◌≡◌ {A = Bytes} (2 ∷ []) (2 ∷ [])) ⊎ Collision digest
verify_leaf_inclusion-binds_example =
    verify_leaf_inclusion-binds digest 1 (λ a. refl) (2 ∷ []) (2 ∷ []) 1 path_of_two path_of_two
      head_of_two accepted accepted

-- The hash of the first of two leaves is the root of the tree of one leaf.
abbrev root_of_one : Bytes
root_of_one = weigh 1 (0 ∷ 1 ∷ []) ∷ []

abbrev proof_of_two : List Bytes
proof_of_two = (weigh 1 (0 ∷ 2 ∷ []) ∷ []) ∷ []

abbrev root_of_two : Bytes
root_of_two = weigh 1 (1 ∷ weigh 1 (0 ∷ 1 ∷ []) ∷ weigh 1 (0 ∷ 2 ∷ []) ∷ []) ∷ []

consistent : verify_tree_consistency digest 1 2 root_of_one root_of_two proof_of_two ≡ ok true
unfolding verify_tree_consistency hash_children
consistent = refl

inconsistent :
    verify_tree_consistency digest 1 2 root_of_one root_of_two path_of_two ≡ raised proof_error
unfolding verify_tree_consistency hash_children
inconsistent = refl

verify_tree_consistency-binds_example : (root_of_one ≡ root_of_one) ⊎ Collision digest
verify_tree_consistency-binds_example =
    verify_tree_consistency-binds digest 1 (λ a. refl) 1 2 root_of_one root_of_one root_of_two
      proof_of_two proof_of_two (omega arith) (omega arith) refl refl (refl, tt) (refl, tt)
      consistent consistent

bits : (count_bits_set 44 ≡ 3) × (lowest_bit_set 44 ≡ 3) × (highest_bit_set 44 ≡ 6)
unfolding count_bits_set lowest_bit_set highest_bit_set
bits = (refl, refl, refl)

more_bits :
    (is_power_of2 64 ≡ true) × (has_nth_bit_set 44 3 ≡ true) × (highest_power_of2_less_than 44 ≡ 5)
unfolding is_power_of2 count_bits_set has_nth_bit_set highest_power_of2_less_than
more_bits = (refl, refl, refl)

path_length : audit_path_length 4 5 ≡ 1
unfolding audit_path_length
path_length = refl

same_root :
    (hash_full_tree digest five)
    ≡ ((init_tree 0 [] >>= append_all digest five) >>= λ t. root_hash digest t >>= λ r. ok r.0)
unfolding init_tree append_all append root_hash hash_full_tree hash_full hash_leaf hash_children
    count_bits_set lowest_bit_set split_width
same_root = refl
