-- ===== src/Ledger/State.antt =====
-- What a ledger of plenum/common/ledger.py holds: the committed and the uncommitted transactions.
use indy_plenum.Prelude.{
  ℕ, ◌+◌, ◌≡◌, refl, sym, ◌∙◌, ap, subst, false, ◌==◌, any, Option, none, some, List, [], ◌∷◌, ◌++◌,
  map, length, arith, inl, inr, Bool-cases, All, length-append, length-map,
}
use mathlib.Core.List.{map-append, append-nil, append_assoc}
use indy_plenum.Merkle.Result.{ok}
use indy_plenum.Merkle.Hasher.{Bytes, hash_full_tree}
use indy_plenum.Merkle.Compact.{CompactMerkleTree}
use indy_plenum.Merkle.Compact.Append.{
  IsTreeOf, copy-IsTreeOf, append_all-IsTreeOf, root_hash-IsTreeOf, tree_size-IsTreeOf,
}
use indy_plenum.Ledger.{
  Txn, Codec, Ledger, is_none, tree_or, seq_no_range, tree_with_applied_txns, append_txns,
}

pub length-zero : {A : Type 0} (xs : List A) → length xs ≡ 0 → xs ≡ []
length-zero [] e = refl
length-zero (x ∷ xs) e = absurd (omega (arith, e))

-- The log of entries that follow the sequence number `n`.
abbrev pub log_of : ℕ → List Bytes → List (ℕ × Bytes)
log_of n [] = []
log_of n (entry ∷ entries) = (n + 1, entry) ∷ log_of (n + 1) entries

-- What the ledger has optimistically applied: nothing, or a tree of all the transactions and its root.
module _ (c : Codec) where
  abbrev pub leaves : List Txn → List Bytes
  leaves txns = map c.to_tree txns

  abbrev pub IsApplied : List Txn → List Txn → Option CompactMerkleTree → Option Bytes → Type 0
  IsApplied done pending none root = (root ≡ none) × (pending ≡ [])
  IsApplied done pending (some t) root =
      IsTreeOf c.digest (leaves (done ++ pending)) t
      × ((h : Bytes) × (root ≡ some h)
          × (hash_full_tree c.digest (leaves (done ++ pending)) ≡ ok h))

  pub record IsLedgerOf (done pending : List Txn) (l : Ledger) : Type 0 where
    pub committed : IsTreeOf c.digest (leaves done) l.tree
    pub numbered : l.seq_no ≡ length done
    pub logged : l.transaction_log ≡ log_of 0 (map c.to_log done)
    pub pending_are : l.uncommitted_txns ≡ pending
    pub with_numbers : All (λ (t : Txn). is_none t.seq_no ≡ false) pending
    pub applied : IsApplied done pending l.uncommitted_tree l.uncommitted_root_hash

  pub tree_size-IsLedgerOf :
      (done pending : List Txn) (l : Ledger)
      → IsLedgerOf done pending l
      → l.tree.tree_size ≡ length done
  tree_size-IsLedgerOf done pending l p =
      tree_size-IsTreeOf c.digest (leaves done) l.tree p.committed ∙ length-map c.to_tree done

  -- `currentTree or self.tree`
  tree_or-IsTreeOf :
      (done pending : List Txn) (current : Option CompactMerkleTree) (root : Option Bytes)
      (tree : CompactMerkleTree)
      → IsApplied done pending current root
      → IsTreeOf c.digest (leaves done) tree
      → IsTreeOf c.digest (leaves (done ++ pending)) (tree_or current tree)
  tree_or-IsTreeOf done pending none root tree p q =
      let same : leaves done ≡ leaves (done ++ pending) =
        ap leaves (sym (append-nil done) ∙ ap (λ (ts : List Txn). done ++ ts) (sym p.1)) in
      subst (λ (ls : List Bytes). IsTreeOf c.digest ls tree) same q
  tree_or-IsTreeOf done pending (some t) root tree p q = elim (Bool-cases (t.tree_size == 0)) [
    | inr more ↦ rw more p.0
    | inl empty ↦
        let size : t.tree_size ≡ length (leaves (done ++ pending)) =
          tree_size-IsTreeOf c.digest (leaves (done ++ pending)) t p.0 in
        let size' : t.tree_size ≡ length done + length pending =
          size ∙ length-map c.to_tree (done ++ pending) ∙ length-append done pending in
        let gone : done ≡ [] = length-zero done (ground (arith, size', empty)) in
        let gone' : pending ≡ [] = length-zero pending (ground (arith, size', empty)) in
        let same : leaves done ≡ leaves (done ++ pending) = rw (gone, gone') in
        rw empty (subst (λ (ls : List Bytes). IsTreeOf c.digest ls tree) same q)
  ]

  -- The tree of further transactions, on a copy.
  pub tree_with_applied_txns-IsTreeOf :
      (txns before : List Txn) (current : Option CompactMerkleTree) (l : Ledger)
      → IsTreeOf c.digest (leaves before) (tree_or current l.tree)
      → (t : CompactMerkleTree) × (tree_with_applied_txns c txns current l ≡ ok t)
        × IsTreeOf c.digest (leaves (before ++ txns)) t
  unfolding tree_with_applied_txns
  tree_with_applied_txns-IsTreeOf txns before current l p =
      let (copied, e, q) = copy-IsTreeOf c.digest (leaves before) (tree_or current l.tree) p in
      let (t, e', q') = append_all-IsTreeOf c.digest (leaves txns) (leaves before) copied q in
      (
        t,
        rw (e, e'),
        subst (λ (ls : List Bytes). IsTreeOf c.digest ls t) (sym (map-append c.to_tree before txns))
            q',
      )

  any-none :
      (txns : List Txn)
      → All (λ (t : Txn). is_none t.seq_no ≡ false) txns
      → any (λ (t : Txn). is_none t.seq_no) txns ≡ false
  any-none [] a = refl
  any-none (t ∷ txns) a = rw (a.0) (any-none txns a.1)

  pub All-append :
      (xs ys : List Txn)
      → All (λ (t : Txn). is_none t.seq_no ≡ false) xs
      → All (λ (t : Txn). is_none t.seq_no ≡ false) ys
      → All (λ (t : Txn). is_none t.seq_no ≡ false) (xs ++ ys)
  All-append [] ys a b = b
  All-append (x ∷ xs) ys a b = (a.0, All-append xs ys a.1 b)

  -- `appendTxns` of transactions that all have sequence numbers succeeds on a ledger of `done` and
  -- `pending`: it answers with the range of sequence numbers that follow them, and the ledger is one of
  -- `done` and the longer list of uncommitted transactions, whose tree and root hash it holds.
  pub append_txns-IsLedgerOf :
      (txns done pending : List Txn) (l : Ledger)
      → IsLedgerOf done pending l
      → All (λ (t : Txn). is_none t.seq_no ≡ false) txns
      → (l' : Ledger) × (append_txns c txns l
          ≡ ok (seq_no_range (length done + length pending) (length txns) txns, l'))
        × IsLedgerOf done (pending ++ txns) l'
  unfolding append_txns
  append_txns-IsLedgerOf txns done pending l p a =
      let before =
        tree_or-IsTreeOf done pending l.uncommitted_tree l.uncommitted_root_hash l.tree p.applied
          p.committed in
      let (t, e, q) =
        tree_with_applied_txns-IsTreeOf txns (done ++ pending) l.uncommitted_tree l before in
      let (h, t', e', full, q') =
        root_hash-IsTreeOf c.digest (leaves ((done ++ pending) ++ txns)) t q in
      let size : l.tree.tree_size + length l.uncommitted_txns ≡ length done + length pending =
        omega (arith, tree_size-IsLedgerOf done pending l p, ap length p.pending_are) in
      let regroup : (done ++ pending) ++ txns ≡ done ++ (pending ++ txns) =
        append_assoc done pending txns in
      (
        record l {
          uncommitted_tree = some t';
          uncommitted_root_hash = some h;
          uncommitted_txns = l.uncommitted_txns ++ txns;
        },
        rw (any-none txns a, e, e', size),
        record {
          committed = p.committed;
          numbered = p.numbered;
          logged = p.logged;
          pending_are = ap (λ (ts : List Txn). ts ++ txns) p.pending_are;
          with_numbers = All-append pending txns p.with_numbers a;
          applied = (
            subst (λ (ts : List Txn). IsTreeOf c.digest (leaves ts) t') regroup q',
            (
              h,
              refl,
              subst (λ (ts : List Txn). hash_full_tree c.digest (leaves ts) ≡ ok h) regroup full,
            ),
          );
        },
      )
