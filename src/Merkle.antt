-- ===== src/Merkle.antt =====
-- The Merkle tree of a ledger: ledger/tree_hasher.py, ledger/compact_merkle_tree.py,
-- ledger/merkle_verifier.py, ledger/util.py and ledger/hash_stores/memory_hash_store.py.
pub mod Result
pub mod Bits
pub mod Hasher
pub mod Trees
pub mod Compact
pub mod Verifier
pub mod Consistency
pub mod Tests
