-- ===== src/ViewChange/Builder/CheckpointChoice.antt =====
-- What `calc_checkpoint` of `NewViewBuilder` chooses.
use indy_plenum.Prelude.{
  ◌≤◌, List, [], ◌∷◌, Option, none, some, true, ◌≡◌, refl, sym, ◌⊎◌, inl, inr, subst, In, In-append,
  In-append_left, In-append_right, In-of_contains, length, Bool-cases, contains, arith, ltb,
}
use indy_plenum.Quorums.{Quorums, is_reached}
use indy_plenum.Messages.{Checkpoint, ViewChange, checkpoint_eq}
use indy_plenum.ViewChange.Builder.{
  stable_checkpoint_not_higher, have_checkpoint, consider, consider_all, candidates, higher,
  highest, calc_checkpoint,
}

-- A checkpoint that a NewView may start from: a strong quorum of the votes hold no higher stable
-- checkpoint, and a strong quorum of them hold this one.
pub record Qualifies (q : Quorums) (vcs : List ViewChange) (cp : Checkpoint) : Type 0 where
  pub not_higher : is_reached q.strong (length (stable_checkpoint_not_higher q vcs cp)) ≡ true
  pub held : is_reached q.strong (length (have_checkpoint q vcs cp)) ≡ true

module _ (q : Quorums) (vcs : List ViewChange) where
  In-consider :
      (x : Checkpoint) (cps : List Checkpoint) (c : Checkpoint)
      → In x (consider q vcs cps c)
      → In x cps ⊎ ((x ≡ c) × Qualifies q vcs c)
  unfolding consider
  In-consider x cps c m = elim (Bool-cases (contains c cps)) [
    | inl h ↦ inl (rw h at m)
    | inr h ↦
        elim (Bool-cases (is_reached q.strong (length (stable_checkpoint_not_higher q vcs c)))) [
          | inr h1 ↦ inl (rw (h, h1) at m)
          | inl h1 ↦ elim (Bool-cases (is_reached q.strong (length (have_checkpoint q vcs c)))) [
            | inr h2 ↦ inl (rw (h, h1, h2) at m)
            | inl h2 ↦ elim (In-append x cps (c ∷ []) (rw (h, h1, h2) at m)) [
              | inl old ↦ inl old
              | inr (inl e) ↦ inr (e, record { not_higher = h1; held = h2 })
              | inr (inr bad) ↦ absurd bad
            ]
          ]
        ]
  ]

  In-consider_of :
      (x : Checkpoint) (cps : List Checkpoint) (c : Checkpoint)
      → In x cps
      → In x (consider q vcs cps c)
  unfolding consider
  In-consider_of x cps c m = ground (arith, In-append_left x cps (c ∷ []) m)

  In-consider_self :
      (cps : List Checkpoint) (c : Checkpoint) → Qualifies q vcs c → In c (consider q vcs cps c)
  unfolding consider
  In-consider_self cps c good = elim (Bool-cases (contains c cps)) [
    | inl h ↦ rw h (In-of_contains c cps h)
    | inr h ↦ rw (h, good.not_higher, good.held) (In-append_right c cps (c ∷ []) (inl refl))
  ]

  In-consider_all_of :
      (x : Checkpoint) (cps cs : List Checkpoint) → In x cps → In x (consider_all q vcs cps cs)
  unfolding consider_all
  In-consider_all_of x cps [] m = m
  In-consider_all_of x cps (c ∷ cs) m =
      In-consider_all_of x (consider q vcs cps c) cs (In-consider_of x cps c m)

  In-consider_all_new :
      (x : Checkpoint) (cps cs : List Checkpoint)
      → In x cs
      → Qualifies q vcs x
      → In x (consider_all q vcs cps cs)
  unfolding consider_all
  In-consider_all_new x cps [] m good = absurd m
  In-consider_all_new x cps (c ∷ cs) (inl e) good =
      In-consider_all_of x (consider q vcs cps c) cs
        (subst (λ z. In x (consider q vcs cps z)) e (In-consider_self cps x good))
  In-consider_all_new x cps (c ∷ cs) (inr m) good =
      In-consider_all_new x (consider q vcs cps c) cs m good

  In-consider_all :
      (x : Checkpoint) (cps cs : List Checkpoint)
      → In x (consider_all q vcs cps cs)
      → In x cps ⊎ (In x cs × Qualifies q vcs x)
  unfolding consider_all
  In-consider_all x cps [] m = inl m
  In-consider_all x cps (c ∷ cs) m = elim (In-consider_all x (consider q vcs cps c) cs m) [
    | inr (m', good) ↦ inr (inr m', good)
    | inl m' ↦ elim (In-consider x cps c m') [
      | inl old ↦ inl old
      | inr (e, good) ↦ inr (inl e, subst (Qualifies q vcs) (sym e) good)
    ]
  ]

  In-candidates_of :
      (x : Checkpoint) (cps : List Checkpoint) (rest : List ViewChange)
      → In x cps
      → In x (candidates q vcs cps rest)
  unfolding candidates
  In-candidates_of x cps [] m = m
  In-candidates_of x cps (vc ∷ rest) m =
      In-candidates_of x (consider_all q vcs cps vc.checkpoints) rest
        (In-consider_all_of x cps vc.checkpoints m)

  In-candidates_new :
      (x : Checkpoint) (cps : List Checkpoint) (vc : ViewChange) (rest : List ViewChange)
      → In vc rest
      → In x vc.checkpoints
      → Qualifies q vcs x
      → In x (candidates q vcs cps rest)
  unfolding candidates
  In-candidates_new x cps vc [] m mx good = absurd m
  In-candidates_new x cps vc (v ∷ rest) (inl e) mx good =
      In-candidates_of x (consider_all q vcs cps v.checkpoints) rest (
        In-consider_all_new x cps v.checkpoints
          (subst (λ (z : ViewChange). In x z.checkpoints) e mx) good)
  In-candidates_new x cps vc (v ∷ rest) (inr m) mx good =
      In-candidates_new x (consider_all q vcs cps v.checkpoints) vc rest m mx good

  In-candidates :
      (x : Checkpoint) (cps : List Checkpoint) (rest : List ViewChange)
      → In x (candidates q vcs cps rest)
      → In x cps ⊎ ((vc : ViewChange) × In vc rest × In x vc.checkpoints × Qualifies q vcs x)
  unfolding candidates
  In-candidates x cps [] m = inl m
  In-candidates x cps (v ∷ rest) m =
      elim (In-candidates x (consider_all q vcs cps v.checkpoints) rest m) [
        | inr (vc, mv, mx, good) ↦ inr (vc, inr mv, mx, good)
        | inl m' ↦ elim (In-consider_all x cps v.checkpoints m') [
          | inl old ↦ inl old
          | inr (mx, good) ↦ inr (v, inl refl, mx, good)
        ]
      ]

-- The choice is a member, or the one to start from.
highest-In :
    (best : Option Checkpoint) (cps : List Checkpoint) (r : Checkpoint)
    → highest best cps ≡ some r
    → In r cps ⊎ (best ≡ some r)
unfolding highest
highest-In best [] r h = inr h
highest-In none (c ∷ cps) r h = elim (highest-In (some c) cps r h) [
  | inl m ↦ inl (inr m)
  | inr e ↦ inl (inl (cc))
]
highest-In (some b) (c ∷ cps) r h = elim (Bool-cases (ltb b.seq_no_end c.seq_no_end)) [
  | inl t ↦ elim (highest-In (some c) cps r (rw (t, higher) at h)) [
    | inl m ↦ inl (inr m)
    | inr e ↦ inl (inl (cc))
  ]
  | inr t ↦ elim (highest-In (some b) cps r (rw (t, higher) at h)) [
    | inl m ↦ inl (inr m)
    | inr e ↦ inr e
  ]
]

-- From a start with a checkpoint there is a choice, no lower than the start and any member.
highest-some :
    (b : Checkpoint) (cps : List Checkpoint)
    → (r : Checkpoint) × (highest (some b) cps ≡ some r)
      × (b.seq_no_end ≤ r.seq_no_end)
      × ((x : Checkpoint) → In x cps → x.seq_no_end ≤ r.seq_no_end)
unfolding highest
highest-some b [] = (b, refl, omega arith, λ x m. absurd m)
highest-some b (c ∷ cps) = elim (Bool-cases (ltb b.seq_no_end c.seq_no_end)) [
  | inl t ↦
      let (r, e, le, all) = highest-some c cps in
      (r, rw t e, ground arith, λ x m. bound c cps r le all x m)
  | inr t ↦
      let (r, e, le, all) = highest-some b cps in
      (r, rw t e, le, λ x m. bound c cps r (ground arith) all x m)
]
  where
    bound :
        (c : Checkpoint) (cps : List Checkpoint) (r : Checkpoint)
        → c.seq_no_end ≤ r.seq_no_end
        → ((x : Checkpoint) → In x cps → x.seq_no_end ≤ r.seq_no_end)
        → (x : Checkpoint) → (x ≡ c) ⊎ In x cps
        → x.seq_no_end ≤ r.seq_no_end
    bound c cps r le all x (inl e) =
        subst (λ (z : Checkpoint). z.seq_no_end ≤ r.seq_no_end) (sym e) le
    bound c cps r le all x (inr m) = all x m

highest-none :
    (x : Checkpoint) (cps : List Checkpoint)
    → In x cps
    → (r : Checkpoint) × (highest none cps ≡ some r) × (x.seq_no_end ≤ r.seq_no_end)
unfolding highest
highest-none x [] m = absurd m
highest-none x (c ∷ cps) (inl e) =
    let (r, h, le, all) = highest-some c cps in
    (r, h, subst (λ (z : Checkpoint). z.seq_no_end ≤ r.seq_no_end) (sym e) le)
highest-none x (c ∷ cps) (inr m) = let (r, h, le, all) = highest-some c cps in (r, h, all x m)

-- A checkpoint that `calc_checkpoint` returns stands in one of the ViewChange messages, a strong
-- quorum of the messages hold it, and a strong quorum have no higher stable checkpoint.
pub calc_checkpoint_sound :
    (q : Quorums) (vcs : List ViewChange) (cp : Checkpoint)
    → calc_checkpoint q vcs ≡ some cp
    → (vc : ViewChange) × In vc vcs × In cp vc.checkpoints × Qualifies q vcs cp
unfolding calc_checkpoint
calc_checkpoint_sound q vcs cp h = elim (highest-In none (candidates q vcs [] vcs) cp h) [
  | inl m ↦ elim (In-candidates q vcs cp [] vcs m) [ inl bad ↦ absurd bad | inr found ↦ found ]
  | inr e ↦ cc
]

-- If any checkpoint of the ViewChange messages qualifies, `calc_checkpoint` returns one that is at
-- least as high.
pub calc_checkpoint_highest :
    (q : Quorums) (vcs : List ViewChange) (vc : ViewChange) (x : Checkpoint)
    → In vc vcs
    → In x vc.checkpoints
    → Qualifies q vcs x
    → (cp : Checkpoint) × (calc_checkpoint q vcs ≡ some cp) × (x.seq_no_end ≤ cp.seq_no_end)
unfolding calc_checkpoint
calc_checkpoint_highest q vcs vc x m mx good =
    highest-none x (candidates q vcs [] vcs) (In-candidates_new q vcs x [] vc vcs m mx good)
