-- ===== src/ViewChange/Builder/Certified.antt =====
-- What a batch that `_try_find_batch_for_pp_seq_no` finds needs.
use indy_plenum.Prelude.{
  ℕ, List, [], ◌∷◌, none, some, true, ◌≡◌, ◌≢◌, refl, sym, ◌⊎◌, inl, inr, subst, In, Bool-cases,
  Option-cases, arith, ◌==◌,
}
use indy_plenum.Quorums.{Quorums}
use indy_plenum.Messages.{BatchId, ViewChange, batch_eq}
use indy_plenum.ViewChange.Builder.{
  is_batch_prepared, is_batch_preprepared, try_find_in, try_find_among,
  try_find_batch_for_pp_seq_no,
}

-- What a batch of a NewView needs: a vote that prepared it, and the two quorums.
pub record IsCertified (q : Quorums) (vcs : List ViewChange) (pp_seq_no : ℕ) (bid : BatchId)
    : Type 0 where
  pub at_seq_no : bid.pp_seq_no ≡ pp_seq_no
  pub prepared : is_batch_prepared q bid vcs ≡ true
  pub preprepared : is_batch_preprepared q bid vcs ≡ true

module _ (q : Quorums) (vcs : List ViewChange) (pp_seq_no : ℕ) where
  try_find_in_step :
      (b : BatchId) (bids : List BatchId) (bid : BatchId)
      → try_find_in q vcs pp_seq_no (b ∷ bids) ≡ some bid
      → ((bid ≡ b) × IsCertified q vcs pp_seq_no b) ⊎ (try_find_in q vcs pp_seq_no bids ≡ some bid)
  unfolding try_find_in
  try_find_in_step b bids bid h = elim (Bool-cases (b.pp_seq_no == pp_seq_no)) [
    | inr h1 ↦ inr (rw h1 at h)
    | inl h1 ↦ elim (Bool-cases (is_batch_prepared q b vcs)) [
      | inr h2 ↦ inr (rw (h1, h2) at h)
      | inl h2 ↦ elim (Bool-cases (is_batch_preprepared q b vcs)) [
        | inr h3 ↦ inr (rw (h1, h2, h3) at h)
        | inl h3 ↦
            let found : some b ≡ some bid = rw (h1, h2, h3) at h in
            inl (cc found, record { at_seq_no = ground arith; prepared = h2; preprepared = h3 })
      ]
    ]
  ]

  try_find_in_sound :
      (bids : List BatchId) (bid : BatchId)
      → try_find_in q vcs pp_seq_no bids ≡ some bid
      → In bid bids × IsCertified q vcs pp_seq_no bid
  try_find_in_sound [] bid h = absurd (unfold try_find_in in cc h)
  try_find_in_sound (b ∷ bids) bid h = elim (try_find_in_step b bids bid h) [
    | inl (e, c) ↦ (inl e, subst (IsCertified q vcs pp_seq_no) (sym e) c)
    | inr h' ↦ let (m, c) = try_find_in_sound bids bid h' in (inr m, c)
  ]

  pub try_find_in_complete :
      (bids : List BatchId) (bid : BatchId)
      → In bid bids
      → IsCertified q vcs pp_seq_no bid
      → try_find_in q vcs pp_seq_no bids ≢ none
  unfolding try_find_in
  try_find_in_complete [] bid m c = absurd m
  try_find_in_complete (b ∷ bids) bid (inl e) c =
      let c' = subst (IsCertified q vcs pp_seq_no) e c in
      let same : (b.pp_seq_no == pp_seq_no) ≡ true = ground (arith, c'.at_seq_no) in
      rw (same, c'.prepared, c'.preprepared) (λ bad. cc)
  try_find_in_complete (b ∷ bids) bid (inr m) c = ground (arith, try_find_in_complete bids bid m c)

  try_find_among_sound :
      (rest : List ViewChange) (bid : BatchId)
      → try_find_among q vcs pp_seq_no rest ≡ some bid
      → (vc : ViewChange) × In vc rest × In bid vc.prepared × IsCertified q vcs pp_seq_no bid
  unfolding try_find_among
  try_find_among_sound [] bid h = absurd (cc h)
  try_find_among_sound (vc ∷ rest) bid h =
      elim (Option-cases (try_find_in q vcs pp_seq_no vc.prepared)) [
        | inl e ↦
            let (v, mv, m, c) = try_find_among_sound rest bid (rw (e, try_find_among) at h) in
            (v, inr mv, m, c)
        | inr (b, e) ↦
            let e' : try_find_in q vcs pp_seq_no vc.prepared ≡ some bid =
              cc (e, rw (e, try_find_among) at h) in
            let (m, c) = try_find_in_sound vc.prepared bid e' in (vc, inl refl, m, c)
      ]

  try_find_among_complete :
      (rest : List ViewChange) (vc : ViewChange) (bid : BatchId)
      → In vc rest
      → In bid vc.prepared
      → IsCertified q vcs pp_seq_no bid
      → try_find_among q vcs pp_seq_no rest ≢ none
  unfolding try_find_among
  try_find_among_complete [] vc bid m mb c h = absurd m
  try_find_among_complete (v ∷ rest) vc bid m mb c h =
      elim (Option-cases (try_find_in q vcs pp_seq_no v.prepared)) [
        | inr (b, e) ↦ absurd (cc (rw (e, try_find_among) at h))
        | inl e ↦ elim m [
          | inl same ↦
              try_find_in_complete v.prepared bid
                (subst (λ (z : ViewChange). In bid z.prepared) same mb) c e
          | inr m' ↦ try_find_among_complete rest vc bid m' mb c (rw (e, try_find_among) at h)
        ]
      ]

  -- A batch that `_try_find_batch_for_pp_seq_no` returns was prepared in one of the votes, and is
  -- certified by both quorums.
  pub try_find_sound :
      (bid : BatchId)
      → try_find_batch_for_pp_seq_no q vcs pp_seq_no ≡ some bid
      → (vc : ViewChange) × In vc vcs × In bid vc.prepared × IsCertified q vcs pp_seq_no bid
  unfolding try_find_batch_for_pp_seq_no
  try_find_sound bid h = try_find_among_sound vcs bid h

  -- Where some vote holds a certified batch, one is found.
  pub try_find_complete :
      (vc : ViewChange) (bid : BatchId)
      → In vc vcs
      → In bid vc.prepared
      → IsCertified q vcs pp_seq_no bid
      → try_find_batch_for_pp_seq_no q vcs pp_seq_no ≢ none
  unfolding try_find_batch_for_pp_seq_no
  try_find_complete vc bid m mb c = try_find_among_complete vcs vc bid m mb c
