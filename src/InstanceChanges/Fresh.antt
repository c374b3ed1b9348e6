-- ===== src/InstanceChanges/Fresh.antt =====
-- After `_update_votes` of instance_change_provider.py every vote that is left is in date.
use indy_plenum.Prelude.{
  ℕ, ◌+◌, ◌==◌, ◌≤◌, ◌<◌, ◌≡◌, refl, sym, ◌∙◌, ap, subst, String, Bool, true, false, if◌then◌else◌,
  Option, some, [], ◌∷◌, arith, inl, inr, ◌⊎◌, Bool-cases, Option-cases, In, ==_iff, lookup, nat_eq,
}
use indy_plenum.InstanceChanges.{
  Vote, Votes, Cache, Provider, is_outdated, remove_vote, expire, saved, update_votes,
  update_db_from_cache, votes_or_empty,
}
use indy_plenum.InstanceChanges.Dict.{votes_at, In-remove_vote}

module _ (clock : ℕ → ℕ) where
  -- A reading from the first one on found the vote in date.
  abbrev pub IsFresh : (first past interval : ℕ) → String × Vote → Type 0
  IsFresh first past interval x =
      (k : ℕ) × (first ≤ k) × (k < past) × (clock k ≤ x.1.timestamp + interval)

  later :
      (first past past' interval : ℕ) (x : String × Vote)
      → past ≤ past'
      → IsFresh first past interval x
      → IsFresh first past' interval x
  later first past past' interval x b (k, low, high, e) = (k, low, omega (arith, b, high), e)

  abbrev step_of : ℕ → String → Vote → Provider → Provider
  step_of view_no voter vote p =
      if is_outdated clock p.outdated_ic_interval vote (clock p.readings)
      then record p { readings = p.readings + 1; cache = remove_vote view_no voter p.cache }
      else record p { readings = p.readings + 1 }

  step-interval :
      (view_no : ℕ) (voter : String) (vote : Vote) (p : Provider)
      → ((step_of view_no voter vote p).outdated_ic_interval ≡ p.outdated_ic_interval)
        × ((step_of view_no voter vote p).readings ≡ p.readings + 1)
  step-interval view_no voter vote p =
      elim (Bool-cases (is_outdated clock p.outdated_ic_interval vote (clock p.readings))) [
        | inl t ↦ rw t (refl, refl)
        | inr t ↦ rw t (refl, refl)
      ]

  step-IsFresh :
      (first view_no : ℕ) (voter : String) (vote : Vote) (votes : Votes) (p : Provider)
      → first ≤ p.readings
      → ((x : String × Vote)
          → In x (votes_at view_no p.cache)
          → In x ((voter, vote) ∷ votes) ⊎ IsFresh first p.readings p.outdated_ic_interval x)
      → (x : String × Vote) → In x (votes_at view_no (step_of view_no voter vote p).cache)
      → In x votes ⊎ IsFresh first (p.readings + 1) p.outdated_ic_interval x
  step-IsFresh first view_no voter vote votes p low pending x m =
      elim (Bool-cases (is_outdated clock p.outdated_ic_interval vote (clock p.readings))) [
        | inl t ↦
            let (old, other) = In-remove_vote view_no voter x p.cache (rw t at m) in
            elim (pending x old) [
              | inl (inl same) ↦ absurd (other (ap (λ (y : String × Vote). y.0) same))
              | inl (inr rest) ↦ inl rest
              | inr fresh ↦ inr (
                  later first p.readings (p.readings + 1) p.outdated_ic_interval x (omega arith)
                    fresh)
            ]
        | inr t ↦ elim (pending x (rw t at m)) [
          | inl (inl same) ↦
              let when : x.1.timestamp ≡ vote.timestamp =
                ap (λ (y : String × Vote). y.1.timestamp) same in
              inr (p.readings, low, omega arith, ground (arith, t, when))
          | inl (inr rest) ↦ inl rest
          | inr fresh ↦
              inr (
                later first p.readings (p.readings + 1) p.outdated_ic_interval x (omega arith)
                  fresh)
        ]
      ]

  expire-IsFresh :
      (first view_no : ℕ) (votes : Votes) (p : Provider)
      → first ≤ p.readings
      → ((x : String × Vote)
          → In x (votes_at view_no p.cache)
          → In x votes ⊎ IsFresh first p.readings p.outdated_ic_interval x)
      → (x : String × Vote) → In x (votes_at view_no (expire clock view_no votes p).1.cache)
      → IsFresh first (expire clock view_no votes p).1.readings p.outdated_ic_interval x
  unfolding expire
  expire-IsFresh first view_no [] p low pending x m = elim (pending x m) [
    | inl none_left ↦ absurd none_left
    | inr fresh ↦ fresh
  ]
  expire-IsFresh first view_no ((voter, vote) ∷ votes) p low pending x m =
      let next = step_of view_no voter vote p in
      let (same, more) = step-interval view_no voter vote p in
      subst (λ (i : ℕ). IsFresh first (expire clock view_no votes next).1.readings i x) same
        (expire-IsFresh first view_no votes next (omega (arith, low, more))
          (λ y m'. elim (step-IsFresh first view_no voter vote votes p low pending y m') [
            | inl rest ↦ inl rest
            | inr fresh ↦ inr (
                subst (λ (n : ℕ). IsFresh first n next.outdated_ic_interval y) (sym more)
                  (subst (λ (i : ℕ). IsFresh first (p.readings + 1) i y) (sym same) fresh))
          ])
          x m)

  expire-first :
      (view_no : ℕ) (votes : Votes) (p : Provider) (y : String × Vote)
      → lookup view_no p.cache ≡ some votes
      → In y (votes_at view_no p.cache)
      → In y votes ⊎ IsFresh p.readings p.readings p.outdated_ic_interval y
  expire-first view_no votes p y there m =
      inl (subst (λ (o : Option Votes). In y (votes_or_empty o)) there m)

  saved-cache :
      (view_no : ℕ) (r : Bool × Provider)
      → ((saved clock view_no r).cache ≡ r.1.cache)
        × ((saved clock view_no r).readings ≡ r.1.readings)
  unfolding update_db_from_cache
  saved-cache view_no (true, p) = (refl, refl)
  saved-cache view_no (false, p) = (refl, refl)

  -- Unless votes are never outdated, each vote that `_update_votes` leaves was in date when it was looked
  -- at.
  pub update_votes-IsFresh :
      (view_no : ℕ) (p : Provider) (x : String × Vote)
      → In x (votes_at view_no (update_votes clock view_no p).cache)
      → (p.outdated_ic_interval ≡ 0)
        ⊎ IsFresh p.readings (update_votes clock view_no p).readings p.outdated_ic_interval x
  unfolding update_votes
  update_votes-IsFresh view_no p x m = elim (Bool-cases (p.outdated_ic_interval == 0)) [
    | inl t ↦ inl ((==_iff _ _).0 t)
    | inr t ↦ elim (Option-cases (lookup view_no p.cache)) [
      | inl none_there ↦
          let empty : In x (votes_or_empty (lookup view_no p.cache)) =
            rw (t, none_there, update_votes) at m in
          absurd (rw none_there at empty)
      | inr (votes, there) ↦
          let r = expire clock view_no votes p in
          let m' : In x (votes_at view_no (saved clock view_no r).cache) =
            rw (t, there, update_votes) at m in
          let (same, count) = saved-cache view_no r in
          let pending = λ (y : String × Vote) (n : In y (votes_at view_no p.cache)).
            expire-first view_no votes p y there n in
          let fresh =
            expire-IsFresh p.readings view_no votes p (omega arith) pending x
              (subst (λ (c : Cache). In x (votes_at view_no c)) same m') in
          let result =
            subst (λ (n : ℕ). IsFresh p.readings n p.outdated_ic_interval x) (sym count) fresh in
          inr (rw (t, there, update_votes) result)
    ]
  ]

  -- The interval stays and the clock is only read forward.
  pub record IsForward (p p' : Provider) : Type 0 where
    pub interval : p'.outdated_ic_interval ≡ p.outdated_ic_interval
    pub readings : p.readings ≤ p'.readings

  expire-IsForward :
      (view_no : ℕ) (votes : Votes) (p : Provider) → IsForward p (expire clock view_no votes p).1
  unfolding expire
  expire-IsForward view_no [] p = record { interval = refl; readings = omega arith }
  expire-IsForward view_no ((voter, vote) ∷ votes) p =
      let (same, more) = step-interval view_no voter vote p in
      let q = expire-IsForward view_no votes (step_of view_no voter vote p) in
      record { interval = q.interval ∙ same; readings = omega (arith, more, q.readings) }

  saved-IsForward :
      (view_no : ℕ) (p : Provider) (r : Bool × Provider)
      → IsForward p r.1
      → IsForward p (saved clock view_no r)
  unfolding update_db_from_cache
  saved-IsForward view_no p (true, p') f = record { interval = f.interval; readings = f.readings }
  saved-IsForward view_no p (false, p') f = f

  pub update_votes-IsForward :
      (view_no : ℕ) (p : Provider) → IsForward p (update_votes clock view_no p)
  unfolding update_votes
  update_votes-IsForward view_no p = elim (Bool-cases (p.outdated_ic_interval == 0)) [
    | inl t ↦ rw (t, update_votes) (record { interval = refl; readings = omega arith })
    | inr t ↦ elim (Option-cases (lookup view_no p.cache)) [
      | inl none_there ↦
          rw (t, none_there, update_votes) (record { interval = refl; readings = omega arith })
      | inr (votes, there) ↦
          rw (t, there, update_votes)
            (saved-IsForward view_no p (expire clock view_no votes p)
              (expire-IsForward view_no votes p))
    ]
  ]
