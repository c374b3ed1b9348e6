-- ===== src/Ledger.antt =====
-- The ledger with its uncommitted transactions: plenum/common/ledger.py over ledger/ledger.py. The
-- hash function, the serializers and the text of a hash are parameters. The transaction log is a
-- dictionary from sequence numbers, which are put in ascending order, so that its order is the one of
-- the iterator over integer keys.
pub mod State
pub mod Range
pub mod Commit
pub mod Discard
pub mod Log
pub mod Tests
use indy_plenum.Prelude.{
  ℕ, zero, suc, ◌+◌, ◌-◌, String, Bool, true, false, ltb, leb, ◌==◌, nat_eq, any, if◌then◌else◌,
  Option, none, some, List, [], ◌∷◌, ◌++◌, map, length, get_last?, get_elem?, lookup, insert,
}
use indy_plenum.Merkle.Result.{
  Result, ok, raised, check, ◌>>=◌, ◌>>◌, logic_error, plenum_value_error, index_error,
}
use indy_plenum.Merkle.Hasher.{Bytes, item}
use indy_plenum.Merkle.Compact.{CompactMerkleTree, copy, reset, append, append_all, root_hash}

pub record Txn : Type 0 where
  pub seq_no : Option ℕ
  pub txn_time : Option ℕ
  -- Everything but the metadata, as bytes.
  pub body : Bytes

pub record Codec : Type 0 where
  pub digest : Bytes → Bytes
  -- `serialize_for_tree`
  pub to_tree : Txn → Bytes
  -- `serialize_for_txn_log` and the deserialization of the same serializer.
  pub to_log : Txn → Bytes
  pub from_log : Bytes → Txn
  -- Whether one serializer serves for the log and for the tree.
  pub one_serializer : Bool
  -- `hashToStr`
  pub hash_to_str : Bytes → String

pub record MerkleInfo : Type 0 where
  pub root_hash : String
  pub audit_path : List String

pub record Ledger : Type 0 where
  pub read_only : Bool
  pub tree : CompactMerkleTree
  pub transaction_log : List (ℕ × Bytes)
  pub seq_no : ℕ
  pub uncommitted_txns : List Txn
  pub uncommitted_root_hash : Option Bytes
  pub uncommitted_tree : Option CompactMerkleTree

-- `xs[:n]`, `xs[n:]`
module _ {A : Type 0} where
  abbrev pub take : ℕ → List A → List A
  take zero xs = []
  take (suc n) [] = []
  take (suc n) (x ∷ xs) = x ∷ take n xs

  abbrev pub drop : ℕ → List A → List A
  drop zero xs = xs
  drop (suc n) [] = []
  drop (suc n) (x ∷ xs) = drop n xs

-- The sequence numbers after `size` of `count` transactions, or `size` itself if there are none.
abbrev pub seq_no_range {ℓ} : {A : Type ℓ} → ℕ → ℕ → List A → ℕ × ℕ
seq_no_range size count [] = (size, size)
seq_no_range size count (x ∷ xs) = (size + 1, size + count)

-- `append_txn_metadata` with the parts that are given.
unfoldable pub append_txn_metadata : Option ℕ → Option ℕ → Txn → Txn
append_txn_metadata seq_no txn_time t = record t {
  seq_no = elim seq_no [ none ↦ t.seq_no | some n ↦ some n ];
  txn_time = elim txn_time [ none ↦ t.txn_time | some n ↦ some n ];
}

unfoldable pub append_seq_no : List Txn → ℕ → List Txn
unfolding append_txn_metadata
append_seq_no [] start_seq_no = []
append_seq_no (t ∷ txns) start_seq_no =
    append_txn_metadata (some (start_seq_no + 1)) none t ∷ append_seq_no txns (start_seq_no + 1)

-- The transactions with their metadata; the ledger itself is not changed.
unfoldable pub append_txns_metadata : List Txn → Option ℕ → Ledger → List Txn
unfolding append_seq_no
append_txns_metadata txns txn_time l =
    append_seq_no (map (append_txn_metadata none txn_time) txns)
      (l.seq_no + length l.uncommitted_txns)

abbrev pub is_none : Option ℕ → Bool
is_none none = true
is_none (some n) = false

-- `len(self)` is 0 for a tree without leaves, which is false in `currentTree or self.tree`.
abbrev pub tree_or : Option CompactMerkleTree → CompactMerkleTree → CompactMerkleTree
tree_or none tree = tree
tree_or (some t) tree = if t.tree_size == 0 then tree else t

unfoldable pub uncommitted_size : Ledger → ℕ
uncommitted_size l = l.tree.tree_size + length l.uncommitted_txns

unfoldable pub reset_uncommitted : Ledger → Ledger
reset_uncommitted l = record l {
  uncommitted_txns = [];
  uncommitted_root_hash = none;
  uncommitted_tree = none;
}

module _ (c : Codec) where
  unfoldable pub tree_with_applied_txns :
      List Txn → Option CompactMerkleTree → Ledger → Result CompactMerkleTree
  tree_with_applied_txns txns current_tree l = do
    temp_tree ← copy (tree_or current_tree l.tree)
    append_all c.digest (map c.to_tree txns) temp_tree

  -- The first and the last sequence number of the new transactions.
  unfoldable pub append_txns : List Txn → Ledger → Result ((ℕ × ℕ) × Ledger)
  unfolding tree_with_applied_txns
  append_txns txns l = do
    check (if any (λ (t : Txn). is_none t.seq_no) txns then false else true) plenum_value_error
    let uncommitted_size = l.tree.tree_size + length l.uncommitted_txns
    tree ← tree_with_applied_txns txns l.uncommitted_tree l
    (root, tree') ← root_hash c.digest tree
    ok (
      seq_no_range uncommitted_size (length txns) txns,
      record l {
        uncommitted_tree = some tree';
        uncommitted_root_hash = some root;
        uncommitted_txns = l.uncommitted_txns ++ txns;
      },
    )

  -- `_addToTreeSerialized` and `_build_merkle_proof`: the sequence number and the proof.
  unfoldable pub add_to_tree_serialized : Bytes → Ledger → Result ((ℕ × MerkleInfo) × Ledger)
  add_to_tree_serialized leaf l = do
    (audit_path, tree) ← append c.digest leaf l.tree
    (root, tree') ← root_hash c.digest tree
    ok (
      (
        l.seq_no + 1,
        record { root_hash = c.hash_to_str root; audit_path = map c.hash_to_str audit_path },
      ),
      record l { tree = tree'; seq_no = l.seq_no + 1 },
    )

  -- `add` of ledger/ledger.py
  unfoldable pub add_leaf : Txn → Ledger → Result ((ℕ × MerkleInfo) × Ledger)
  unfolding add_to_tree_serialized
  add_leaf t l =
      add_to_tree_serialized (c.to_tree t)
        (record l { transaction_log = insert (l.seq_no + 1) (c.to_log t) l.transaction_log })

  -- A transaction that has no sequence number is given the next one.
  abbrev pub with_seq_no : Txn → ℕ → Txn
  with_seq_no t seq_no =
      if is_none t.seq_no then append_txn_metadata (some (seq_no + 1)) none t else t

  -- `add` of plenum/common/ledger.py, which drops the sequence number from the proof.
  unfoldable pub add : Txn → Ledger → Result (MerkleInfo × Ledger)
  unfolding add_leaf append_txn_metadata
  add t l = do ((_, info), l') ← add_leaf (with_seq_no t l.seq_no) l; ok (info, l')

  -- The loop of `commitTxns`: each transaction with the proof that it is updated with.
  unfoldable pub add_all : List Txn → Ledger → Result (List (Txn × MerkleInfo) × Ledger)
  unfolding add
  add_all [] l = ok ([], l)
  add_all (t ∷ txns) l = do
    (info, l') ← add t l
    (rest, l'') ← add_all txns l'
    ok ((with_seq_no t l.seq_no, info) ∷ rest, l'')

  -- The ledger that keeps these uncommitted transactions, with their tree and root hash unless there
  -- is none.
  abbrev pub with_remaining : List Txn → Ledger → Ledger
  with_remaining [] l = record l {
    uncommitted_txns = [];
    uncommitted_tree = none;
    uncommitted_root_hash = none;
  }
  with_remaining (t ∷ txns) l = record l { uncommitted_txns = t ∷ txns }

  unfoldable pub commit_txns : ℕ → Ledger → Result (((ℕ × ℕ) × List (Txn × MerkleInfo)) × Ledger)
  unfolding add_all
  commit_txns count l = do
    let committed_size = l.tree.tree_size
    (committed, l') ← add_all (take count l.uncommitted_txns) l
    ok (
      (seq_no_range committed_size count committed, committed),
      with_remaining (drop count l'.uncommitted_txns) l',
    )

  -- What `discardTxns` makes of the transactions that it keeps.
  unfoldable pub with_uncommitted : List Txn → Ledger → Result Ledger
  unfolding tree_with_applied_txns
  with_uncommitted [] l =
      ok record l { uncommitted_txns = []; uncommitted_tree = none; uncommitted_root_hash = none }
  with_uncommitted (t ∷ txns) l = do
    tree ← tree_with_applied_txns (t ∷ txns) none l
    (root, tree') ← root_hash c.digest tree
    ok record l {
      uncommitted_txns = t ∷ txns;
      uncommitted_tree = some tree';
      uncommitted_root_hash = some root;
    }

  unfoldable pub discard_txns : ℕ → Ledger → Result Ledger
  unfolding with_uncommitted
  discard_txns count l =
      if count == 0
      then ok l
      else (if ltb (length l.uncommitted_txns) count
          then raised logic_error
          else with_uncommitted (take (length l.uncommitted_txns - count) l.uncommitted_txns) l)

  -- The property `uncommitted_root_hash`: a hash without bytes is false.
  unfoldable pub current_root_hash : Ledger → Result (Bytes × Ledger)
  current_root_hash l =
      let committed : Result (Bytes × Ledger) = (do
        (root, tree') ← root_hash c.digest l.tree
        ok (root, record l { tree = tree' })) in
      elim l.uncommitted_root_hash [
        | none ↦ committed
        | some [] ↦ committed
        | some (b ∷ bs) ↦ ok (b ∷ bs, l)
      ]

  -- The transaction, or nothing for an entry that is missing or has no bytes.
  unfoldable pub get_by_seq_no : ℕ → Ledger → Option Txn
  get_by_seq_no seq_no l = elim (lookup seq_no l.transaction_log) [
    | none ↦ none
    | some [] ↦ none
    | some (b ∷ bs) ↦ some (c.from_log (b ∷ bs))
  ]

  unfoldable pub get_last_committed_txn : Ledger → Option Txn
  unfolding get_by_seq_no
  get_last_committed_txn l =
      if ltb 0 l.tree.tree_size then get_by_seq_no l.tree.tree_size l else none

  unfoldable pub get_last_txn : Ledger → Option Txn
  unfolding get_last_committed_txn
  get_last_txn l = elim (get_last? l.uncommitted_txns) [
    | some t ↦ some t
    | none ↦ get_last_committed_txn l
  ]

  -- KeyError is an index error here.
  unfoldable pub get_by_seq_no_uncommitted : ℕ → Ledger → Result (Option Txn)
  unfolding get_by_seq_no uncommitted_size
  get_by_seq_no_uncommitted seq_no l =
      if ltb (uncommitted_size l) seq_no
      then raised index_error
      else (if ltb l.tree.tree_size seq_no
          then (do t ← item l.uncommitted_txns (seq_no - l.tree.tree_size - 1); ok (some t))
          else ok (get_by_seq_no seq_no l))

  unfoldable pub recover_entries : List (ℕ × Bytes) → Ledger → Result Ledger
  unfolding add_to_tree_serialized
  recover_entries [] l = ok l
  recover_entries ((_, entry) ∷ entries) l = do
    let serialized = if c.one_serializer then entry else c.to_tree (c.from_log entry)
    (_, l') ← add_to_tree_serialized serialized l
    recover_entries entries l'

  -- The tree of a read-only ledger is not reset.
  unfoldable pub tree_to_fill : Bool → CompactMerkleTree → Result CompactMerkleTree
  tree_to_fill read_only tree = if read_only then ok tree else reset tree

  unfoldable pub recover_tree_from_txn_log : Ledger → Result Ledger
  unfolding recover_entries tree_to_fill
  recover_tree_from_txn_log l = do
    tree ← tree_to_fill l.read_only l.tree
    recover_entries l.transaction_log (record l { tree = tree; seq_no = 0 })
