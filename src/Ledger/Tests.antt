-- ===== src/Ledger/Tests.antt =====
-- A ledger of one committed and two uncommitted transactions, under a checksum in place of the hash
-- function and a serializer that writes the metadata before the bytes of the body.
use indy_plenum.Prelude.{
  ℕ, suc, zero, ◌+◌, ◌*◌, ◌%◌, ◌-◌, ◌<◌, ◌≤◌, ◌≡◌, refl, arith, List, [], ◌∷◌, ◌++◌, Option, none,
  some, get_elem?, map, false,
}
use indy_plenum.Merkle.Result.{ok, raised, index_error, logic_error}
use indy_plenum.Merkle.Hasher.{Bytes}
use indy_plenum.Merkle.Trees.{leaf}
use indy_plenum.Merkle.Compact.{CompactMerkleTree, new_store, root_hash}
use indy_plenum.Merkle.Compact.Forest.{tree_of}
use indy_plenum.Merkle.Compact.Append.{tree_of-IsTreeOf}
use indy_plenum.Ledger.{
  Txn, Codec, MerkleInfo, Ledger, append_txns, commit_txns, discard_txns, current_root_hash, drop,
  take, get_by_seq_no_uncommitted, seq_no_range,
}
use indy_plenum.Ledger.State.{IsLedgerOf, log_of, append_txns-IsLedgerOf}
use indy_plenum.Ledger.Range.{IsRange}
use indy_plenum.Ledger.Commit.{txns_of, commit_txns-IsLedgerOf}
use indy_plenum.Ledger.Discard.{discard_txns-IsLedgerOf, commit_txns-current_root_hash}
use indy_plenum.Ledger.Log.{get_by_seq_no_uncommitted-IsLedgerOf}

abbrev weigh : ℕ → Bytes → ℕ
weigh acc [] = acc
weigh acc (b ∷ bs) = weigh ((acc * 31 + b + 7) % 256) bs

abbrev write_option : Option ℕ → ℕ
write_option none = 0
write_option (some n) = suc n

abbrev read_option : ℕ → Option ℕ
read_option zero = none
read_option (suc n) = some n

abbrev write : Txn → Bytes
write t = write_option t.seq_no ∷ write_option t.txn_time ∷ t.body

abbrev read : Bytes → Txn
read (s ∷ t ∷ body) = record { seq_no = read_option s; txn_time = read_option t; body = body }
read (s ∷ []) = record { seq_no = none; txn_time = none; body = [] }
read [] = record { seq_no = none; txn_time = none; body = [] }

abbrev codec : Codec
codec = record {
  digest = λ bs. weigh 1 bs ∷ [];
  to_tree = write;
  to_log = write;
  from_log = read;
  one_serializer = false;
  hash_to_str = λ h. "hash";
}

read_option-write_option : (o : Option ℕ) → read_option (write_option o) ≡ o
read_option-write_option none = refl
read_option-write_option (some n) = refl

read-write : (t : Txn) → read (write t) ≡ t
read-write t = λ i. record {
  seq_no = read_option-write_option t.seq_no i;
  txn_time = read_option-write_option t.txn_time i;
  body = t.body;
}

abbrev txn : ℕ → Txn
txn n = record { seq_no = some n; txn_time = none; body = n ∷ [] }

abbrev done : List Txn
done = txn 1 ∷ []

abbrev committed_tree : CompactMerkleTree
committed_tree = tree_of codec.digest (leaf (write (txn 1)) ∷ []) none new_store

abbrev ledger : Ledger
ledger = record {
  read_only = false;
  tree = committed_tree;
  transaction_log = log_of 0 (map write done);
  seq_no = 1;
  uncommitted_txns = [];
  uncommitted_root_hash = none;
  uncommitted_tree = none;
}

ledger-IsLedgerOf : IsLedgerOf codec done [] ledger
ledger-IsLedgerOf = record {
  committed =
      tree_of-IsTreeOf codec.digest (leaf (write (txn 1)) ∷ []) new_store (omega arith, tt, tt);
  numbered = refl;
  logged = refl;
  pending_are = refl;
  with_numbers = tt;
  applied = (refl, refl);
}

abbrev pending : List Txn
pending = txn 2 ∷ txn 3 ∷ []

append_txns-IsLedgerOf_example :
    (l' : Ledger) × (append_txns codec pending ledger ≡ ok ((2, 3), l'))
    × IsLedgerOf codec done pending l'
append_txns-IsLedgerOf_example =
    append_txns-IsLedgerOf codec pending done [] ledger ledger-IsLedgerOf (refl, (refl, tt))

appended :
    (l' : Ledger) × (append_txns codec pending ledger ≡ ok ((2, 3), l'))
    × IsLedgerOf codec done pending l'
appended = append_txns-IsLedgerOf codec pending done [] ledger ledger-IsLedgerOf (refl, (refl, tt))

abbrev applied : Ledger
applied = appended.0

applied-IsLedgerOf : IsLedgerOf codec done pending applied
applied-IsLedgerOf = appended.2

commit_txns-IsLedgerOf_example :
    (committed : List (Txn × MerkleInfo)) × (l' : Ledger) × (commit_txns codec 1 applied
      ≡ ok ((seq_no_range 1 1 committed, committed), l'))
    × (txns_of codec committed ≡ take 1 pending)
    × IsLedgerOf codec (done ++ take 1 pending) (drop 1 pending) l'
    × IsRange 1 1 pending (seq_no_range 1 1 committed)
commit_txns-IsLedgerOf_example =
    commit_txns-IsLedgerOf codec 1 done pending applied applied-IsLedgerOf

discard_txns-IsLedgerOf_example :
    (2 < 1 → discard_txns codec 1 applied ≡ raised logic_error)
    × (1 ≤ 2
        → (l' : Ledger) × (discard_txns codec 1 applied ≡ ok l')
          × IsLedgerOf codec done (take (2 - 1) pending) l')
discard_txns-IsLedgerOf_example =
    discard_txns-IsLedgerOf codec 1 done pending applied applied-IsLedgerOf

commit_txns-current_root_hash_example :
    (h : Bytes) × (read : Ledger) × (committed : Ledger) × (tree : CompactMerkleTree)
    × (current_root_hash codec applied ≡ ok (h, read))
    × ((answer : (ℕ × ℕ) × List (Txn × MerkleInfo)) × (commit_txns codec 2 read
          ≡ ok (answer, committed)))
    × (root_hash codec.digest committed.tree ≡ ok (h, tree))
commit_txns-current_root_hash_example =
    commit_txns-current_root_hash codec (λ a. cc) done pending applied applied-IsLedgerOf

get_by_seq_no_uncommitted-IsLedgerOf_example :
    ((i : ℕ) (t : Txn)
      → get_elem? (done ++ pending) i ≡ some t
      → get_by_seq_no_uncommitted codec (i + 1) applied ≡ ok (some t))
    × ((n : ℕ) → 1 + 2 < n → get_by_seq_no_uncommitted codec n applied ≡ raised index_error)
get_by_seq_no_uncommitted-IsLedgerOf_example =
    get_by_seq_no_uncommitted-IsLedgerOf codec read-write (λ t. cc) done pending applied
      applied-IsLedgerOf
