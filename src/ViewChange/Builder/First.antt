-- ===== src/ViewChange/Builder/First.antt =====
-- `_try_find_batch_for_pp_seq_no` finds the first certified batch.
use indy_plenum.Prelude.{
  ℕ, List, [], ◌∷◌, ◌++◌, some, ◌≡◌, refl, sym, ◌∙◌, ◌⊎◌, inl, inr, ap, subst, In, Bool-cases,
  Option-cases, arith, In-append, ◌==◌,
}
use indy_plenum.Quorums.{Quorums}
use indy_plenum.Messages.{BatchId, ViewChange, batch_eq}
use indy_plenum.ViewChange.Builder.{
  is_batch_prepared, is_batch_preprepared, try_find_in, try_find_among,
  try_find_batch_for_pp_seq_no,
}
use indy_plenum.ViewChange.Builder.Certified.{IsCertified, try_find_in_complete, try_find_complete}

-- The batches that the votes prepared, in their order.
abbrev pub all_prepared : List ViewChange → List BatchId
all_prepared [] = []
all_prepared (vc ∷ vcs) = vc.prepared ++ all_prepared vcs

module _ (q : Quorums) (vcs : List ViewChange) (pp_seq_no : ℕ) where
  -- The batch is the first of the list that is certified.
  abbrev pub IsFirst : List BatchId → BatchId → Type 0
  IsFirst [] bid = ⊥
  IsFirst (b ∷ bids) bid =
      ((b ≡ bid) × IsCertified q vcs pp_seq_no b)
      ⊎ ((¬ IsCertified q vcs pp_seq_no b) × IsFirst bids bid)

  IsFirst-append :
      (bids more : List BatchId) (bid : BatchId)
      → ((b : BatchId) → In b bids → ¬ IsCertified q vcs pp_seq_no b)
      → IsFirst more bid
      → IsFirst (bids ++ more) bid
  IsFirst-append [] more bid h f = f
  IsFirst-append (b ∷ bids) more bid h f =
      inr (h b (inl refl), IsFirst-append bids more bid (λ x m. h x (inr m)) f)

  IsFirst-here :
      (bids more : List BatchId) (bid : BatchId) → IsFirst bids bid → IsFirst (bids ++ more) bid
  IsFirst-here [] more bid f = absurd f
  IsFirst-here (b ∷ bids) more bid (inl f) = inl f
  IsFirst-here (b ∷ bids) more bid (inr (n, f)) = inr (n, IsFirst-here bids more bid f)

  IsFirst-unique :
      (bids : List BatchId) (b b' : BatchId) → IsFirst bids b → IsFirst bids b' → b ≡ b'
  IsFirst-unique [] b b' f f' = absurd f
  IsFirst-unique (x ∷ bids) b b' (inl (e, c)) (inl (e', c')) = sym e ∙ e'
  IsFirst-unique (x ∷ bids) b b' (inl (e, c)) (inr (n, f')) = absurd (n c)
  IsFirst-unique (x ∷ bids) b b' (inr (n, f)) (inl (e, c)) = absurd (n c)
  IsFirst-unique (x ∷ bids) b b' (inr (n, f)) (inr (n', f')) = IsFirst-unique bids b b' f f'

  In-IsFirst :
      (bids : List BatchId) (bid : BatchId)
      → IsFirst bids bid
      → In bid bids × IsCertified q vcs pp_seq_no bid
  In-IsFirst [] bid f = absurd f
  In-IsFirst (b ∷ bids) bid (inl (e, c)) = (inl (sym e), subst (IsCertified q vcs pp_seq_no) e c)
  In-IsFirst (b ∷ bids) bid (inr (n, f)) = let (m, c) = In-IsFirst bids bid f in (inr m, c)

  try_find_in-IsFirst :
      (bids : List BatchId) (bid : BatchId)
      → try_find_in q vcs pp_seq_no bids ≡ some bid
      → IsFirst bids bid
  unfolding try_find_in
  try_find_in-IsFirst [] bid h = absurd (cc h)
  try_find_in-IsFirst (b ∷ bids) bid h = elim (Bool-cases (b.pp_seq_no == pp_seq_no)) [
    | inr h1 ↦
        inr ((λ c. let at = c.at_seq_no in ground arith), try_find_in-IsFirst bids bid (rw h1 at h))
    | inl h1 ↦ elim (Bool-cases (is_batch_prepared q b vcs)) [
      | inr h2 ↦ inr ((λ c. cc (h2, c.prepared)), try_find_in-IsFirst bids bid (rw (h1, h2) at h))
      | inl h2 ↦ elim (Bool-cases (is_batch_preprepared q b vcs)) [
        | inr h3 ↦
            inr ((λ c. cc (h3, c.preprepared)), try_find_in-IsFirst bids bid (rw (h1, h2, h3) at h))
        | inl h3 ↦
            let found : some b ≡ some bid = rw (h1, h2, h3) at h in
            inl (cc found, record { at_seq_no = ground arith; prepared = h2; preprepared = h3 })
      ]
    ]
  ]

  try_find_among-IsFirst :
      (rest : List ViewChange) (bid : BatchId)
      → try_find_among q vcs pp_seq_no rest ≡ some bid
      → IsFirst (all_prepared rest) bid
  unfolding try_find_among
  try_find_among-IsFirst [] bid h = absurd (cc h)
  try_find_among-IsFirst (vc ∷ rest) bid h =
      elim (Option-cases (try_find_in q vcs pp_seq_no vc.prepared)) [
        | inl e ↦
            IsFirst-append vc.prepared (all_prepared rest) bid
              (λ b m c. try_find_in_complete q vcs pp_seq_no vc.prepared b m c e)
              (try_find_among-IsFirst rest bid (rw (e, try_find_among) at h))
        | inr (b, e) ↦
            let e' : try_find_in q vcs pp_seq_no vc.prepared ≡ some bid =
              cc (e, rw (e, try_find_among) at h) in
            IsFirst-here vc.prepared (all_prepared rest) bid
              (try_find_in-IsFirst vc.prepared bid e')
      ]

  -- The search finds a batch exactly if it is the first certified one that the votes prepared.
  pub try_find-IsFirst :
      (bid : BatchId)
      → try_find_batch_for_pp_seq_no q vcs pp_seq_no ≡ some bid
      → IsFirst (all_prepared vcs) bid
  unfolding try_find_batch_for_pp_seq_no
  try_find-IsFirst bid h = try_find_among-IsFirst vcs bid h

  In-all_prepared :
      (bid : BatchId) (rest : List ViewChange)
      → In bid (all_prepared rest)
      → (vc : ViewChange) × In vc rest × In bid vc.prepared
  In-all_prepared bid [] m = absurd m
  In-all_prepared bid (vc ∷ rest) m = elim (In-append bid vc.prepared (all_prepared rest) m) [
    | inl here ↦ (vc, inl refl, here)
    | inr there ↦ let (v, mv, mb) = In-all_prepared bid rest there in (v, inr mv, mb)
  ]

  pub IsFirst-try_find :
      (bid : BatchId)
      → IsFirst (all_prepared vcs) bid
      → try_find_batch_for_pp_seq_no q vcs pp_seq_no ≡ some bid
  IsFirst-try_find bid f = elim (Option-cases (try_find_batch_for_pp_seq_no q vcs pp_seq_no)) [
    | inl e ↦
        let (m, c) = In-IsFirst (all_prepared vcs) bid f in
        let (vc, mv, mb) = In-all_prepared bid vcs m in
        absurd (try_find_complete q vcs pp_seq_no vc bid mv mb c e)
    | inr (b, e) ↦ e ∙ ap some (IsFirst-unique (all_prepared vcs) b bid (try_find-IsFirst b e) f)
  ]
