-- ===== src/Merkle/Compact.antt =====
-- CompactMerkleTree of ledger/compact_merkle_tree.py over a MemoryHashStore of
-- ledger/hash_stores/memory_hash_store.py. Where a method raises, the state that it leaves is not
-- kept: no caller of the repository goes on with a tree whose update was refused.
pub mod Forest
pub mod Push
pub mod Root
pub mod Append
pub mod Count
use mathlib.Core.List.{reverse}
use indy_plenum.Prelude.{
  ℕ, zero, suc, ◌+◌, ◌-◌, ◌*◌, ◌/◌, ◌^◌, Bool, true, false, ◌||◌, ◌&&◌, ltb, leb, ◌==◌, not,
  if◌then◌else◌, Option, none, some, List, [], ◌∷◌, ◌++◌, map, length, get_last?,
}
use indy_plenum.Merkle.Result.{
  Result, ok, raised, check, ◌>>=◌, ◌>>◌, value_error, index_error, assertion_error,
  consistency_verification_failed,
}
use indy_plenum.Merkle.Bits.{count_bits_set, lowest_bit_set}
use indy_plenum.Merkle.Hasher.{Bytes, hash_empty, hash_children, hash_full, hash_fold}

-- MemoryHashStore: a node is its start, its height and its hash.
pub record HashStore : Type 0 where
  pub leafs : List Bytes
  pub nodes : List (ℕ × ℕ × Bytes)

unfoldable pub write_leaf : Bytes → HashStore → HashStore
write_leaf leaf_hash s = record s { leafs = s.leafs ++ leaf_hash ∷ [] }

unfoldable pub write_node : ℕ × ℕ × Bytes → HashStore → HashStore
write_node node s = record s { nodes = s.nodes ++ node ∷ [] }

-- `reset`, which is also what `__init__` does.
unfoldable pub new_store : HashStore
new_store = record { leafs = []; nodes = [] }

pub record CompactMerkleTree : Type 0 where
  pub tree_size : ℕ
  pub hashes : List Bytes
  -- The height of the smallest subtree, or 0 if there is none.
  pub mintree_height : ℕ
  -- The cached root hash.
  pub cached_root : Option Bytes
  pub hash_store : HashStore

-- `xs[:-1]`
abbrev pub init {ℓ} : {A : Type ℓ} → List A → List A
init [] = []
init (x ∷ []) = []
init (x ∷ y ∷ ys) = x ∷ init (y ∷ ys)

-- `xs[-1]`
abbrev pub last_item {ℓ} : {A : Type ℓ} → List A → Result A
last_item xs = elim (get_last? xs) [ none ↦ raised index_error | some x ↦ ok x ]

-- `1 << (h - 1)`
abbrev pub subtree_size : ℕ → ℕ
subtree_size h = 2 ^ (h - 1)

unfoldable pub update : ℕ → List Bytes → CompactMerkleTree → Result CompactMerkleTree
update tree_size hashes t =
    if length hashes == count_bits_set tree_size
    then ok record t {
      tree_size = tree_size;
      hashes = hashes;
      mintree_height = lowest_bit_set tree_size;
      cached_root = none;
    }
    else raised value_error

abbrev pub blank : CompactMerkleTree
blank = record {
  tree_size = 0;
  hashes = [];
  mintree_height = 0;
  cached_root = none;
  hash_store = new_store;
}

-- `__init__` with a new store; `__copy__` calls it with the size and the hashes of the tree.
unfoldable pub init_tree : ℕ → List Bytes → Result CompactMerkleTree
unfolding update
init_tree tree_size hashes = update tree_size hashes blank

unfoldable pub copy : CompactMerkleTree → Result CompactMerkleTree
unfolding init_tree
copy t = init_tree t.tree_size t.hashes

unfoldable pub load : CompactMerkleTree → CompactMerkleTree → Result CompactMerkleTree
unfolding update
load other t = update other.tree_size other.hashes t

unfoldable pub reset : CompactMerkleTree → Result CompactMerkleTree
unfolding update new_store
reset t = update 0 [] (record t { hash_store = new_store })

abbrev pub leaf_count : CompactMerkleTree → ℕ
leaf_count t = length t.hash_store.leafs

abbrev pub node_count : CompactMerkleTree → ℕ
node_count t = length t.hash_store.nodes

-- `leaf_count` is at least halved in each round.
unfoldable pub expected_loop : ℕ → ℕ → ℕ → ℕ
expected_loop zero leaf_count count = count
expected_loop (suc fuel) leaf_count count =
    let rest = expected_loop fuel (leaf_count / 2) (count + leaf_count / 2) in
    if ltb 1 leaf_count then rest else count

unfoldable pub get_expected_node_count : ℕ → ℕ
unfolding expected_loop
get_expected_node_count leaf_count = expected_loop leaf_count leaf_count 0

unfoldable pub verify_consistency : ℕ → CompactMerkleTree → Result Bool
unfolding get_expected_node_count
verify_consistency expected_leaf_count t =
    if not (expected_leaf_count == leaf_count t)
    then raised consistency_verification_failed
    else (if not (get_expected_node_count (leaf_count t) == node_count t)
        then raised consistency_verification_failed
        else ok true)

unfoldable pub write_leaves : List Bytes → HashStore → HashStore
unfolding write_leaf
write_leaves [] s = s
write_leaves (h ∷ hs) s = write_leaves hs (write_leaf h s)

-- The nodes that a push has made, each with its height, written with the size of the tree.
unfoldable pub write_nodes : ℕ → List (Bytes × ℕ) → HashStore → HashStore
unfolding write_node
write_nodes size [] s = s
write_nodes size ((h, height) ∷ nodes) s = write_nodes size nodes (write_node (size, height, h) s)

module _ (digest : Bytes → Bytes) where
  unfoldable pub computed_root : List Bytes → Result Bytes
  unfolding hash_fold
  computed_root [] = ok (hash_empty digest)
  computed_root (h ∷ hs) = hash_fold digest (h ∷ hs)

  -- The root hash, and the tree with its root hash cached.
  unfoldable pub root_hash : CompactMerkleTree → Result (Bytes × CompactMerkleTree)
  unfolding computed_root
  root_hash t = elim t.cached_root [
    | some h ↦ ok (h, t)
    | none ↦ (do h ← computed_root t.hashes; ok (h, record t { cached_root = some h }))
  ]

  -- `__push_subtree_hash`. Each carry takes a hash away, so that one round more than there are hashes
  -- is enough. A size below that of the subtree cannot stand with a smallest subtree of its height.
  unfoldable pub push_subtree_hash :
      ℕ → ℕ → Bytes → CompactMerkleTree → Result (List (Bytes × ℕ) × CompactMerkleTree)
  unfolding update
  push_subtree_hash zero subtree_h sub_hash t = raised assertion_error
  push_subtree_hash (suc fuel) subtree_h sub_hash t =
      let size : ℕ = subtree_size subtree_h in
      let carried : Result (List (Bytes × ℕ) × CompactMerkleTree) = (do
        check (subtree_h == t.mintree_height) assertion_error
        prev_hash ← last_item t.hashes
        rewound ← update (t.tree_size - size) (init t.hashes) t
        check (ltb t.mintree_height rewound.mintree_height || rewound.mintree_height == 0)
            assertion_error
        let next_hash = hash_children digest prev_hash sub_hash
        (nodes, pushed) ← push_subtree_hash fuel (subtree_h + 1) next_hash rewound
        ok ((next_hash, subtree_h) ∷ nodes, pushed)) in
      if ltb subtree_h t.mintree_height || t.mintree_height == 0
      then (do pushed ← update (t.tree_size + size) (t.hashes ++ sub_hash ∷ []) t; ok ([], pushed))
      else carried

  unfoldable pub push_subtree : List Bytes → CompactMerkleTree → Result CompactMerkleTree
  unfolding hash_full push_subtree_hash write_leaves write_nodes
  push_subtree leaves t = do
    let size = length leaves
    check (count_bits_set size == 1) value_error
    let subtree_h = lowest_bit_set size
    check (not (ltb 0 t.mintree_height && ltb t.mintree_height subtree_h)) value_error
    (root, hashes) ← hash_full digest (size + 1) leaves 0 size
    let written = record t { hash_store = write_leaves hashes t.hash_store }
    (nodes, pushed) ← push_subtree_hash (length t.hashes + 1) subtree_h root written
    ok (record pushed { hash_store = write_nodes pushed.tree_size nodes pushed.hash_store })

  -- The audit path of the new leaf, and the tree with it.
  unfoldable pub append : Bytes → CompactMerkleTree → Result (List Bytes × CompactMerkleTree)
  unfolding push_subtree
  append new_leaf t = do
    let audit_path = reverse t.hashes
    pushed ← push_subtree (new_leaf ∷ []) t
    ok (audit_path, pushed)

  -- A client that appends one leaf after another, as `treeWithAppliedTxns` does.
  unfoldable pub append_all : List Bytes → CompactMerkleTree → Result CompactMerkleTree
  append_all [] t = ok t
  append_all (leaf ∷ leaves) t = do (_, grown) ← append leaf t; append_all leaves grown
