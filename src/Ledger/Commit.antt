-- ===== src/Ledger/Commit.antt =====
-- Committing and discarding the uncommitted transactions of a ledger.
use mathlib.Core.List.{map-append, append-nil, append_assoc}
use indy_plenum.Prelude.{
  ℕ, zero, suc, ◌+◌, ◌≡◌, refl, sym, ◌∙◌, ap, subst, false, ◌==◌, Option, none, some, List, [], ◌∷◌,
  ◌++◌, map, length, arith, All, length-append, length-map, insert, nat_eq,
}
use indy_plenum.Merkle.Result.{ok}
use indy_plenum.Merkle.Hasher.{Bytes, hash_full_tree}
use indy_plenum.Merkle.Compact.{CompactMerkleTree, append, root_hash}
use indy_plenum.Merkle.Compact.Append.{IsTreeOf, append-IsTreeOf, root_hash-IsTreeOf}
use indy_plenum.Ledger.{
  Txn, Codec, MerkleInfo, Ledger, is_none, take, drop, seq_no_range, add, add_all, commit_txns,
  with_remaining,
}
use indy_plenum.Ledger.Range.{IsRange, seq_no_range-IsRange}
use indy_plenum.Ledger.State.{leaves, IsApplied, IsLedgerOf, log_of, tree_size-IsLedgerOf}

-- A key after all those of the log is put at its end.
insert-log_of :
    (key n : ℕ) (v : Bytes) (bs : List Bytes)
    → key ≡ n + length bs + 1
    → insert key v (log_of n bs) ≡ log_of n (bs ++ v ∷ [])
insert-log_of key n v [] e = ap (λ (k : ℕ). (k, v) ∷ []) (omega (arith, e))
insert-log_of key n v (b ∷ bs) e =
    let other : (n + 1 == key) ≡ false = ground (arith, e) in
    rw other (
      ap (λ (d : List (ℕ × Bytes)). (n + 1, b) ∷ d)
        (insert-log_of key (n + 1) v bs (omega (arith, e))))

take-drop : {A : Type 0} (n : ℕ) (xs : List A) → take n xs ++ drop n xs ≡ xs
take-drop zero xs = refl
take-drop (suc n) [] = refl
take-drop (suc n) (x ∷ xs) = ap (λ (l : List _). x ∷ l) (take-drop n xs)

pub All-take : {A : Type 0} (P : A → Type 0) (n : ℕ) (xs : List A) → All P xs → All P (take n xs)
All-take P zero xs a = tt
All-take P (suc n) [] a = tt
All-take P (suc n) (x ∷ xs) a = (a.0, All-take P n xs a.1)

All-drop : {A : Type 0} (P : A → Type 0) (n : ℕ) (xs : List A) → All P xs → All P (drop n xs)
All-drop P zero xs a = a
All-drop P (suc n) [] a = tt
All-drop P (suc n) (x ∷ xs) a = All-drop P n xs a.1

drop-nil : {A : Type 0} (n : ℕ) → drop {A = A} n [] ≡ []
drop-nil zero = refl
drop-nil (suc n) = refl

module _ (c : Codec) where
  abbrev pub IsNumbered : Txn → Type 0
  IsNumbered t = is_none t.seq_no ≡ false

  abbrev after_add : Txn → CompactMerkleTree → Ledger → Ledger
  after_add t tree l = record l {
    transaction_log = insert (l.seq_no + 1) (c.to_log t) l.transaction_log;
    tree = tree;
    seq_no = l.seq_no + 1;
  }

  add-numbered :
      (t : Txn) (l : Ledger) (path : List Bytes) (tree tree' : CompactMerkleTree) (h : Bytes)
      → IsNumbered t
      → append c.digest (c.to_tree t) l.tree ≡ ok (path, tree)
      → root_hash c.digest tree ≡ ok (h, tree')
      → add c t l
        ≡ ok (
          record { root_hash = c.hash_to_str h; audit_path = map c.hash_to_str path },
          after_add t tree' l,
        )
  unfolding add
  add-numbered t l path tree tree' h a e e' = rw (a, e, e')

  -- The receipt names the root hash of all the transactions up to this one.
  add-IsTreeOf :
      (t : Txn) (done : List Txn) (l : Ledger)
      → IsNumbered t
      → IsTreeOf c.digest (leaves c done) l.tree
      → (info : MerkleInfo) × (tree : CompactMerkleTree) × (add c t l
          ≡ ok (info, after_add t tree l))
        × IsTreeOf c.digest (leaves c (done ++ t ∷ [])) tree
  add-IsTreeOf t done l a p =
      let (path, grown, e, q) = append-IsTreeOf c.digest (c.to_tree t) (leaves c done) l.tree p in
      let (h, tree, e', full, q') =
        root_hash-IsTreeOf c.digest (leaves c done ++ c.to_tree t ∷ []) grown q in
      (
        record { root_hash = c.hash_to_str h; audit_path = map c.hash_to_str path },
        tree,
        add-numbered t l path grown tree h a e e',
        subst (λ (ls : List Bytes). IsTreeOf c.digest ls tree)
            (sym (map-append c.to_tree done (t ∷ []))) q',
      )

  abbrev after_all : CompactMerkleTree → List Txn → Ledger → Ledger
  after_all tree done l = record l {
    transaction_log = log_of 0 (map c.to_log done);
    tree = tree;
    seq_no = length done;
  }

  abbrev pub txns_of : List (Txn × MerkleInfo) → List Txn
  txns_of = map (λ (x : Txn × MerkleInfo). x.0)

  logged :
      (t : Txn) (done : List Txn) (l : Ledger)
      → l.seq_no ≡ length done
      → l.transaction_log ≡ log_of 0 (map c.to_log done)
      → insert (l.seq_no + 1) (c.to_log t) l.transaction_log
        ≡ log_of 0 (map c.to_log (done ++ t ∷ []))
  logged t done l n g =
      ap (insert (l.seq_no + 1) (c.to_log t)) g
      ∙ insert-log_of (l.seq_no + 1) 0 (c.to_log t) (map c.to_log done)
          (omega (arith, n, length-map c.to_log done))
      ∙ ap (log_of 0) (sym (map-append c.to_log done (t ∷ [])))

  add_all-IsTreeOf :
      (txns done : List Txn) (l : Ledger)
      → All IsNumbered txns
      → IsTreeOf c.digest (leaves c done) l.tree
      → l.seq_no ≡ length done
      → l.transaction_log ≡ log_of 0 (map c.to_log done)
      → (committed : List (Txn × MerkleInfo)) × (tree : CompactMerkleTree) × (add_all c txns l
          ≡ ok (committed, after_all tree (done ++ txns) l))
        × (txns_of committed ≡ txns)
        × IsTreeOf c.digest (leaves c (done ++ txns)) tree
  unfolding add_all
  add_all-IsTreeOf [] done l a p n g =
      let all : done ≡ done ++ [] = sym (append-nil done) in
      let same : l ≡ after_all l.tree done l =
        λ i. record l { transaction_log = g i; tree = l.tree; seq_no = n i } in
      (
        [],
        l.tree,
        ap (λ (x : Ledger). ok ([], x)) (same ∙ ap (λ (ts : List Txn). after_all l.tree ts l) all),
        refl,
        subst (λ (ts : List Txn). IsTreeOf c.digest (leaves c ts) l.tree) all p,
      )
  add_all-IsTreeOf (t ∷ txns) done l a p n g =
      let (info, tree, e, q) = add-IsTreeOf t done l a.0 p in
      let l1 = after_add t tree l in
      let log : l1.transaction_log ≡ log_of 0 (map c.to_log (done ++ t ∷ [])) =
        logged t done l n g in
      let (rest, tree', e', same, q') =
        add_all-IsTreeOf txns (done ++ t ∷ []) l1 a.1 q
          (omega (arith, n, length-append done (t ∷ []))) log in
      let regroup = append_assoc done (t ∷ []) txns in
      (
        (t, info) ∷ rest,
        tree',
        rw (e, a.0, e')
            (ap (λ (ts : List Txn). ok ((t, info) ∷ rest, after_all tree' ts l)) regroup),
        ap (λ (l : List Txn). t ∷ l) same,
        subst (λ (ts : List Txn). IsTreeOf c.digest (leaves c ts) tree') regroup q',
      )

  IsApplied-moved :
      (done pending done' pending' : List Txn) (current : Option CompactMerkleTree)
      (root : Option Bytes)
      → done ++ pending ≡ done' ++ pending'
      → (pending ≡ [] → pending' ≡ [])
      → IsApplied c done pending current root
      → IsApplied c done' pending' current root
  IsApplied-moved done pending done' pending' none root same ends (no_root, p) = (no_root, ends p)
  IsApplied-moved done pending done' pending' (some t) root same ends p =
      let (h, e, full) = p.1 in
      (
        subst (λ (ts : List Txn). IsTreeOf c.digest (leaves c ts) t) same p.0,
        (h, e, subst (λ (ts : List Txn). hash_full_tree c.digest (leaves c ts) ≡ ok h) same full),
      )

  remaining-IsLedgerOf :
      (done pending : List Txn) (tree : CompactMerkleTree) (l : Ledger)
      → IsTreeOf c.digest (leaves c done) tree
      → All IsNumbered pending
      → IsApplied c done pending l.uncommitted_tree l.uncommitted_root_hash
      → IsLedgerOf c done pending (with_remaining c pending (after_all tree done l))
  remaining-IsLedgerOf done [] tree l p a q = record {
    committed = p;
    numbered = refl;
    logged = refl;
    pending_are = refl;
    with_numbers = a;
    applied = (refl, refl);
  }
  remaining-IsLedgerOf done (t ∷ pending) tree l p a q = record {
    committed = p;
    numbered = refl;
    logged = refl;
    pending_are = refl;
    with_numbers = a;
    applied = q;
  }

  committed_as :
      (n : ℕ) (l : Ledger) (pending : List Txn) (l' : Ledger) (committed : List (Txn × MerkleInfo))
      → l.uncommitted_txns ≡ pending
      → add_all c (take n pending) l ≡ ok (committed, l')
      → l'.uncommitted_txns ≡ l.uncommitted_txns
      → commit_txns c n l
        ≡ ok (
          (seq_no_range l.tree.tree_size n committed, committed),
          with_remaining c (drop n pending) l',
        )
  unfolding commit_txns
  committed_as n l pending l' committed e e' kept =
      let added : add_all c (take n l.uncommitted_txns) l ≡ ok (committed, l') =
        ap (λ (ts : List Txn). add_all c (take n ts) l) e ∙ e' in
      rw added (
        ap
          (λ (ts : List Txn). ok (
            (seq_no_range l.tree.tree_size n committed, committed),
            with_remaining c (drop n ts) l',
          ))
          (kept ∙ e))

  -- `commitTxns(n)` succeeds: the first `n` uncommitted transactions, or all if there are fewer, are now
  -- committed and are what it answers with; the others stay uncommitted, and the tree and the root hash
  -- that were applied stay right for all of them. With them it answers with a pair of numbers. It is the
  -- first and the last sequence number of those that were committed if 0 < n and there are `n` of them,
  -- and the old size twice if there were none. If there were some, but fewer than `n`, the second number
  -- is too high: it is above the last sequence number that was committed.
  pub commit_txns-IsLedgerOf :
      (n : ℕ) (done pending : List Txn) (l : Ledger)
      → IsLedgerOf c done pending l
      → (committed : List (Txn × MerkleInfo)) × (l' : Ledger) × (commit_txns c n l
          ≡ ok ((seq_no_range (length done) n committed, committed), l'))
        × (txns_of committed ≡ take n pending)
        × IsLedgerOf c (done ++ take n pending) (drop n pending) l'
        × IsRange (length done) n pending (seq_no_range (length done) n committed)
  commit_txns-IsLedgerOf n done pending l p =
      let chosen = take n pending in
      let (committed, tree, e, same, q) =
        add_all-IsTreeOf chosen done l (All-take IsNumbered n pending p.with_numbers) p.committed
          p.numbered p.logged in
      let l1 = after_all tree (done ++ chosen) l in
      let regroup : done ++ pending ≡ (done ++ chosen) ++ drop n pending =
        ap (λ (ts : List Txn). done ++ ts) (sym (take-drop n pending))
        ∙ sym (append_assoc done chosen (drop n pending)) in
      (
        committed,
        with_remaining c (drop n pending) l1,
        committed_as n l pending l1 committed p.pending_are e refl
            ∙ ap
                (λ (size : ℕ). ok (
                  (seq_no_range size n committed, committed),
                  with_remaining c (drop n pending) l1,
                ))
                (tree_size-IsLedgerOf c done pending l p),
        same,
        remaining-IsLedgerOf (done ++ chosen) (drop n pending) tree l q
            (All-drop IsNumbered n pending p.with_numbers)
            (IsApplied-moved done pending (done ++ chosen) (drop n pending) l.uncommitted_tree
              l.uncommitted_root_hash regroup (λ none_left. ap (drop n) none_left ∙ drop-nil n)
              p.applied),
        seq_no_range-IsRange (length done) n pending committed
            (sym (length-map (λ (x : Txn × MerkleInfo). x.0) committed) ∙ ap length same),
      )
