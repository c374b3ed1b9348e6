-- ===== src/Ledger/Log.antt =====
-- The transaction log of a ledger: recovery of the tree, and transactions by sequence number.
use indy_plenum.Prelude.{
  ℕ, zero, suc, ◌+◌, ◌-◌, ◌<◌, ◌≡◌, ◌≢◌, refl, sym, ◌∙◌, ap, true, false, ltb, ◌==◌, ==_iff,
  if◌then◌else◌, Option, none, some, List, [], ◌∷◌, ◌++◌, map, length, arith, inl, inr, Bool-cases,
  get_elem?, lookup, nat_eq, length-append,
}
use indy_plenum.Merkle.Result.{ok, raised, index_error}
use indy_plenum.Merkle.Hasher.{Bytes, item}
use indy_plenum.Ledger.{
  Txn, Codec, Ledger, get_by_seq_no, get_by_seq_no_uncommitted, uncommitted_size,
}
use indy_plenum.Ledger.State.{IsLedgerOf, log_of, tree_size-IsLedgerOf}

lookup-log_of :
    (key n i : ℕ) (b : Bytes) (bs : List Bytes)
    → get_elem? bs i ≡ some b
    → key ≡ n + i + 1
    → lookup key (log_of n bs) ≡ some b
lookup-log_of key n i b [] e k = absurd (cc e)
lookup-log_of key n zero b (x ∷ bs) e k =
    let here : (n + 1 == key) ≡ true = (==_iff _ _).1 (omega (arith, k)) in rw here e
lookup-log_of key n (suc i) b (x ∷ bs) e k =
    let there : (n + 1 == key) ≡ false = ground (arith, k) in
    rw there (lookup-log_of key (n + 1) i b bs e (omega (arith, k)))

get_elem?-map :
    {A B : Type 0} (g : A → B) (xs : List A) (i : ℕ) (x : A)
    → get_elem? xs i ≡ some x
    → get_elem? (map g xs) i ≡ some (g x)
get_elem?-map g [] i x e = absurd (cc e)
get_elem?-map g (y ∷ xs) zero x e =
    ap (λ (o : Option _). elim o [ none ↦ none | some z ↦ some (g z) ]) e
get_elem?-map g (y ∷ xs) (suc i) x e = get_elem?-map g xs i x e

get_elem?-append :
    {A : Type 0} (xs ys : List A) (i : ℕ)
    → get_elem? (xs ++ ys) i
      ≡ (if ltb i (length xs) then get_elem? xs i else get_elem? ys (i - length xs))
get_elem?-append [] ys i = let same : i - 0 ≡ i = omega arith in rw same (ground arith)
get_elem?-append (x ∷ xs) ys zero = ground arith
get_elem?-append (x ∷ xs) ys (suc i) =
    let same : suc i - suc (length xs) ≡ i - length xs = omega arith in
    rw same (ground (arith, get_elem?-append xs ys i))

get_elem?-lt : {A : Type 0} (xs : List A) (i : ℕ) (x : A) → get_elem? xs i ≡ some x → i < length xs
get_elem?-lt [] i x e = absurd (cc e)
get_elem?-lt (y ∷ xs) zero x e = omega arith
get_elem?-lt (y ∷ xs) (suc i) x e = omega (arith, get_elem?-lt xs i x e)

module _ (c : Codec) where
  get_by_seq_no-found :
      (n : ℕ) (l : Ledger) (entry : Bytes)
      → lookup n l.transaction_log ≡ some entry
      → entry ≢ []
      → get_by_seq_no c n l ≡ some (c.from_log entry)
  unfolding get_by_seq_no
  get_by_seq_no-found n l [] e more = absurd (more refl)
  get_by_seq_no-found n l (b ∷ bs) e more = rw (e, get_by_seq_no)

module _ (c : Codec) (back : (t : Txn) → c.from_log (c.to_log t) ≡ t) where
  module _ (nonempty : (t : Txn) → c.to_log t ≢ []) where
    get_by_seq_no-IsLedgerOf :
        (done pending : List Txn) (l : Ledger) (i : ℕ) (t : Txn)
        → IsLedgerOf c done pending l
        → get_elem? done i ≡ some t
        → get_by_seq_no c (i + 1) l ≡ some t
    get_by_seq_no-IsLedgerOf done pending l i t p e =
        let found : lookup (i + 1) l.transaction_log ≡ some (c.to_log t) =
          ap (lookup (i + 1)) p.logged
          ∙ lookup-log_of (i + 1) 0 i (c.to_log t) (map c.to_log done)
              (get_elem?-map c.to_log done i t e) (omega arith) in
        get_by_seq_no-found c (i + 1) l (c.to_log t) found (nonempty t) ∙ ap some (back t)

    -- Let also no serialized transaction be without bytes. By sequence number a ledger of `done` and
    -- `pending` gives the transaction that stands there in the two lists together, and refuses a number
    -- above their length.
    pub get_by_seq_no_uncommitted-IsLedgerOf :
        (done pending : List Txn) (l : Ledger)
        → IsLedgerOf c done pending l
        → ((i : ℕ) (t : Txn)
            → get_elem? (done ++ pending) i ≡ some t
            → get_by_seq_no_uncommitted c (i + 1) l ≡ ok (some t))
          × ((n : ℕ)
              → length done + length pending < n
              → get_by_seq_no_uncommitted c n l ≡ raised index_error)
    unfolding get_by_seq_no_uncommitted uncommitted_size
    get_by_seq_no_uncommitted-IsLedgerOf done pending l p =
        let size = tree_size-IsLedgerOf c done pending l p in
        let more : length l.uncommitted_txns ≡ length pending = ap length p.pending_are in
        (
          λ i t e.
              let below = get_elem?-lt (done ++ pending) i t e in
              let inside : ltb (l.tree.tree_size + length l.uncommitted_txns) (i + 1) ≡ false =
                ground (arith, size, more, below, length-append done pending) in
              elim (Bool-cases (ltb i (length done))) [
                | inl old ↦
                    let there : ltb l.tree.tree_size (i + 1) ≡ false = ground (arith, size, old) in
                    let e' : get_elem? done i ≡ some t =
                      rw old at (sym (get_elem?-append done pending i) ∙ e) in
                    rw (inside, there)
                      (ap (λ (o : Option Txn). ok o)
                        (get_by_seq_no-IsLedgerOf done pending l i t p e'))
                | inr new ↦
                    let there : ltb l.tree.tree_size (i + 1) ≡ true = ground (arith, size, new) in
                    let e' : get_elem? pending (i - length done) ≡ some t =
                      rw new at (sym (get_elem?-append done pending i) ∙ e) in
                    let place : i + 1 - l.tree.tree_size - 1 ≡ i - length done =
                      omega (arith, size) in
                    let found : get_elem? l.uncommitted_txns (i + 1 - l.tree.tree_size - 1)
                        ≡ some t =
                      ap (λ (ts : List Txn). get_elem? ts (i + 1 - l.tree.tree_size - 1))
                        p.pending_are
                      ∙ ap (get_elem? pending) place
                      ∙ e' in
                    rw (inside, there, item, found)
              ],
          λ n above.
              let outside : ltb (l.tree.tree_size + length l.uncommitted_txns) n ≡ true =
                ground (arith, size, more, above) in
              rw outside,
        )
