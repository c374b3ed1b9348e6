-- ===== src/Ledger/Discard.antt =====
-- Discarding uncommitted transactions of a ledger, and its uncommitted root hash.
use mathlib.Core.List.{append-nil}
use indy_plenum.Prelude.{
  ℕ, ◌-◌, ◌≤◌, ◌<◌, ◌≡◌, ◌≢◌, refl, sym, ◌∙◌, ap, subst, true, false, ltb, ◌==◌, ==_iff, Option,
  none, some, List, [], ◌∷◌, ◌++◌, map, length, arith, inl, inr, Bool-cases, Option-cases, All,
}
use indy_plenum.Merkle.Result.{ok, raised, logic_error}
use indy_plenum.Merkle.Hasher.{
  Bytes, hash_full_tree, hash_empty, hash_leaf, hash_children, fold_onto,
}
use indy_plenum.Merkle.Trees.{Tree, leaf, node, root}
use indy_plenum.Merkle.Compact.{CompactMerkleTree, root_hash}
use indy_plenum.Merkle.Compact.Root.{root_of, hash_full_tree_lem}
use indy_plenum.Merkle.Compact.Append.{IsTreeOf, root_hash-IsTreeOf}
use indy_plenum.Ledger.{
  Txn, Codec, MerkleInfo, Ledger, take, with_uncommitted, discard_txns, current_root_hash,
  commit_txns, seq_no_range,
}
use indy_plenum.Ledger.State.{leaves, IsApplied, IsLedgerOf, tree_with_applied_txns-IsTreeOf}
use indy_plenum.Ledger.Commit.{IsNumbered, All-take, commit_txns-IsLedgerOf}

take-all : {A : Type 0} (xs : List A) → take (length xs) xs ≡ xs
take-all [] = refl
take-all (x ∷ xs) = ap (λ (l : List _). x ∷ l) (take-all xs)

module _ (c : Codec) where
  with_uncommitted-IsLedgerOf :
      (txns done pending : List Txn) (l : Ledger)
      → IsLedgerOf c done pending l
      → All (IsNumbered c) txns
      → (l' : Ledger) × (with_uncommitted c txns l ≡ ok l') × IsLedgerOf c done txns l'
  unfolding with_uncommitted
  with_uncommitted-IsLedgerOf [] done pending l p a = (
    record l { uncommitted_txns = []; uncommitted_tree = none; uncommitted_root_hash = none },
    refl,
    record {
      committed = p.committed;
      numbered = p.numbered;
      logged = p.logged;
      pending_are = refl;
      with_numbers = a;
      applied = (refl, refl);
    },
  )
  with_uncommitted-IsLedgerOf (t ∷ txns) done pending l p a =
      let (tree, e, q) = tree_with_applied_txns-IsTreeOf c (t ∷ txns) done none l p.committed in
      let (h, tree', e', full, q') =
        root_hash-IsTreeOf c.digest (leaves c (done ++ t ∷ txns)) tree q in
      (
        record l {
          uncommitted_txns = t ∷ txns;
          uncommitted_tree = some tree';
          uncommitted_root_hash = some h;
        },
        rw (e, e'),
        record {
          committed = p.committed;
          numbered = p.numbered;
          logged = p.logged;
          pending_are = refl;
          with_numbers = a;
          applied = (q', (h, refl, full));
        },
      )

  -- `discardTxns(n)`: more transactions than there are uncommitted ones are refused with LogicError;
  -- otherwise it succeeds, and the last `n` of them are gone, with the tree and the root hash of those
  -- that are left.
  pub discard_txns-IsLedgerOf :
      (n : ℕ) (done pending : List Txn) (l : Ledger)
      → IsLedgerOf c done pending l
      → (length pending < n → discard_txns c n l ≡ raised logic_error)
        × (n ≤ length pending
            → (l' : Ledger) × (discard_txns c n l ≡ ok l')
              × IsLedgerOf c done (take (length pending - n) pending) l')
  unfolding discard_txns
  discard_txns-IsLedgerOf n done pending l p = (
    λ more.
        let some_named : (n == 0) ≡ false = ground (arith, more) in
        let refused : ltb (length l.uncommitted_txns) n ≡ true =
          ground (arith, more, ap length p.pending_are) in
        rw (some_named, refused),
    λ fits. elim (Bool-cases (n == 0)) [
      | inl e ↦
          let kept : take (length pending - n) pending ≡ pending =
            ap (λ (k : ℕ). take k pending) (omega (arith, (==_iff n 0).0 e)) ∙ take-all pending in
          (l, rw e, subst (λ (ts : List Txn). IsLedgerOf c done ts l) (sym kept) p)
      | inr e ↦
          let allowed : ltb (length l.uncommitted_txns) n ≡ false =
            ground (arith, fits, ap length p.pending_are) in
          let (l', e', q) =
            with_uncommitted-IsLedgerOf (take (length pending - n) pending) done pending l p
              (All-take (IsNumbered c) (length pending - n) pending p.with_numbers) in
          let same : with_uncommitted c (take (length l.uncommitted_txns - n) l.uncommitted_txns) l
              ≡ ok l' =
            ap (λ (ts : List Txn). with_uncommitted c (take (length ts - n) ts) l) p.pending_are
            ∙ e' in
          (l', rw (e, allowed) same, q)
    ],
  )

  current-cached :
      (l : Ledger) (h : Bytes)
      → l.uncommitted_root_hash ≡ some h
      → h ≢ []
      → current_root_hash c l ≡ ok (h, l)
  unfolding current_root_hash
  current-cached l [] e n = absurd (n refl)
  current-cached l (b ∷ bs) e n = ground (arith, e)

  current-committed :
      (l : Ledger) (h : Bytes) (tree : CompactMerkleTree)
      → l.uncommitted_root_hash ≡ none
      → root_hash c.digest l.tree ≡ ok (h, tree)
      → current_root_hash c l ≡ ok (h, record l { tree = tree })
  unfolding current_root_hash
  current-committed l h tree e e' = ground (arith, e, e')

  module _ (nonempty : (a : Bytes) → c.digest a ≢ []) where
    fold_onto-nonempty : (b : Bytes) (hs : List Bytes) → b ≢ [] → fold_onto c.digest b hs ≢ []
    unfolding fold_onto hash_children
    fold_onto-nonempty b [] n e = n e
    fold_onto-nonempty b (h ∷ hs) n e =
        fold_onto-nonempty (hash_children c.digest h b) hs (nonempty (1 ∷ h ++ b)) e

    root-nonempty : (t : Tree) → root c.digest t ≢ []
    unfolding root hash_leaf hash_children
    root-nonempty (leaf d) e = nonempty _ e
    root-nonempty (node l r) e = nonempty _ e

    root_of-nonempty : (f : List Tree) → root_of c.digest f ≢ []
    unfolding hash_empty
    root_of-nonempty [] e = nonempty [] e
    root_of-nonempty (t ∷ f) e =
        fold_onto-nonempty (root c.digest t) (map (root c.digest) f) (root-nonempty t) e

    full_root-nonempty :
        (ls : List Bytes) (t : CompactMerkleTree) (h : Bytes)
        → IsTreeOf c.digest ls t
        → hash_full_tree c.digest ls ≡ ok h
        → h ≢ []
    full_root-nonempty ls t h p e gone =
        let full : hash_full_tree c.digest ls ≡ ok (root_of c.digest p.forest) =
          subst (λ (l : List Bytes). hash_full_tree c.digest l ≡ ok (root_of c.digest p.forest))
            p.content (hash_full_tree_lem c.digest p.forest p.shape) in
        root_of-nonempty p.forest (cc (full, e, gone))

    -- Let no digest be without bytes. The uncommitted root hash of a ledger of `done` and `pending` is
    -- the one that TreeHasher computes from all of their leaves.
    pub current_root_hash-IsLedgerOf :
        (done pending : List Txn) (l : Ledger)
        → IsLedgerOf c done pending l
        → (h : Bytes) × (l' : Ledger) × (current_root_hash c l ≡ ok (h, l'))
          × (hash_full_tree c.digest (leaves c (done ++ pending)) ≡ ok h)
          × IsLedgerOf c done pending l'
    current_root_hash-IsLedgerOf done pending l p = elim (Option-cases l.uncommitted_tree) [
      | inl e ↦
          let (no_root, none_left) =
            subst
              (λ (o : Option CompactMerkleTree). IsApplied c done pending o l.uncommitted_root_hash)
              e p.applied in
          let same : done ++ pending ≡ done =
            ap (λ (ts : List Txn). done ++ ts) none_left ∙ append-nil done in
          let (h, tree, e', full, q) =
            root_hash-IsTreeOf c.digest (leaves c done) l.tree p.committed in
          (
            h,
            record l { tree = tree },
            current-committed l h tree no_root e',
            subst (λ (ts : List Txn). hash_full_tree c.digest (leaves c ts) ≡ ok h) (sym same) full,
            record {
              committed = q;
              numbered = p.numbered;
              logged = p.logged;
              pending_are = p.pending_are;
              with_numbers = p.with_numbers;
              applied = p.applied;
            },
          )
      | inr (t, e) ↦
          let (q, (h, cached, full)) =
            subst
              (λ (o : Option CompactMerkleTree). IsApplied c done pending o l.uncommitted_root_hash)
              e p.applied in
          (
            h,
            l,
            current-cached l h cached (full_root-nonempty (leaves c (done ++ pending)) t h q full),
            full,
            p,
          )
    ]

    -- Let no digest be without bytes. The root hash that a ledger reports with its uncommitted
    -- transactions is the root hash of its tree after `commitTxns` of all of them.
    pub commit_txns-current_root_hash :
        (done pending : List Txn) (l : Ledger)
        → IsLedgerOf c done pending l
        → (h : Bytes) × (read : Ledger) × (committed : Ledger) × (tree : CompactMerkleTree)
          × (current_root_hash c l ≡ ok (h, read))
          × ((answer : (ℕ × ℕ) × List (Txn × MerkleInfo)) × (commit_txns c (length pending) read
                ≡ ok (answer, committed)))
          × (root_hash c.digest committed.tree ≡ ok (h, tree))
    commit_txns-current_root_hash done pending l p =
        let (h, read, e, full, q) = current_root_hash-IsLedgerOf done pending l p in
        let (txns, after, e', same, q', _) =
          commit_txns-IsLedgerOf c (length pending) done pending read q in
        let (h', tree, e'', full', r) =
          root_hash-IsTreeOf c.digest (leaves c (done ++ take (length pending) pending)) after.tree
            q'.committed in
        let all : hash_full_tree c.digest (leaves c (done ++ pending)) ≡ ok h' =
          subst (λ (ts : List Txn). hash_full_tree c.digest (leaves c (done ++ ts)) ≡ ok h')
            (take-all pending) full' in
        let one : h' ≡ h = cc (all, full) in
        (
          h,
          read,
          after,
          tree,
          e,
          ((seq_no_range (length done) (length pending) txns, txns), e'),
          subst (λ (x : Bytes). root_hash c.digest after.tree ≡ ok (x, tree)) one e'',
        )
