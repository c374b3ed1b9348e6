-- ===== src/Votes/Voters.antt =====
-- What a sequence of votes leads to.
use indy_plenum.Prelude.{
  ℕ, String, List, [], ◌∷◌, none, some, Bool, true, false, ◌&&◌, if◌then◌else◌, ◌≡◌, refl, ◌∙◌, ap,
  inl, inr, Bool-cases, Option-cases, ◌=?◌, string_eq, length, contains, contains-add, add,
  Distinct, Distinct-add, lookup, lookup-insert, leb,
}
use indy_plenum.Votes.{
  Key, pair_eq, ThreePhaseVotes, TrackedMsgs, votes_for, add_msg, has_vote, votes_count,
  has_enough_votes,
}

module _ {M : Type 0} (get_key : M → Key) where
  -- The state after some votes, the last of them first.
  abbrev pub after_votes : List (M × String) → TrackedMsgs get_key
  after_votes [] = []
  after_votes ((msg, voter) ∷ votes) = add_msg get_key msg voter (after_votes votes)

  -- Whether the node is among those that voted with that key.
  abbrev pub voted : Key → String → List (M × String) → Bool
  voted key voter [] = false
  voted key voter ((msg, from) ∷ votes) =
      if get_key msg =? key && from =? voter then true else voted key voter votes

  abbrev voters_at : Key → TrackedMsgs get_key → List String
  voters_at key d = elim (lookup key d) [ some v ↦ v.voters | none ↦ [] ]

  abbrev voted_now : M → String → TrackedMsgs get_key → ThreePhaseVotes get_key
  voted_now msg voter d =
      let v = votes_for get_key msg d in record v { voters = add voter v.voters }

  voters_found :
      (msg : M) (voter : String) (d : TrackedMsgs get_key)
      → (voted_now msg voter d).voters ≡ add voter (voters_at (get_key msg) d)
  voters_found msg voter d = elim (Option-cases (lookup (get_key msg) d)) [
    | inl e ↦ rw (e, voted_now, votes_for, voters_at) refl
    | inr (v, e) ↦ rw (e, voted_now, votes_for, voters_at) refl
  ]

  voters_at-add_msg :
      (key : Key) (msg : M) (voter : String) (d : TrackedMsgs get_key)
      → voters_at key (add_msg get_key msg voter d)
        ≡ (if get_key msg =? key then add voter (voters_at key d) else voters_at key d)
  unfolding add_msg
  voters_at-add_msg key msg voter d = elim (Bool-cases (get_key msg =? key)) [
    | inr t ↦ rw (lookup-insert (get_key msg) key (voted_now msg voter d) d, t, voters_at)
    | inl t ↦
        let same : get_key msg ≡ key = (pair_eq.beq_iff (get_key msg) key).0 t in
        rw (lookup-insert (get_key msg) key (voted_now msg voter d) d, t, voters_at)
          (rw same at (voters_found msg voter d))
  ]

  voters_at-Distinct :
      (key : Key) (votes : List (M × String)) → Distinct (voters_at key (after_votes votes))
  voters_at-Distinct key [] = tt
  voters_at-Distinct key ((msg, voter) ∷ votes) =
      let h = voters_at-Distinct key votes in
      rw (voters_at-add_msg key msg voter (after_votes votes))
        (elim (Bool-cases (get_key msg =? key)) [
          | inl t ↦ rw t (Distinct-add voter (voters_at key (after_votes votes)) h)
          | inr t ↦ rw t h
        ])

  contains-voters_at :
      (key : Key) (voter : String) (votes : List (M × String))
      → contains voter (voters_at key (after_votes votes)) ≡ voted key voter votes
  contains-voters_at key voter [] = refl
  contains-voters_at key voter ((msg, from) ∷ votes) =
      let h = contains-voters_at key voter votes in
      rw (voters_at-add_msg key msg from (after_votes votes))
        (elim (Bool-cases (get_key msg =? key)) [
          | inr t ↦ rw t h
          | inl t ↦ rw (t, contains-add from voter (voters_at key (after_votes votes)), h) refl
        ])

  has_vote-voters_at :
      (msg : M) (voter : String) (d : TrackedMsgs get_key)
      → has_vote get_key msg voter d ≡ contains voter (voters_at (get_key msg) d)
  unfolding has_vote
  has_vote-voters_at msg voter d = elim (Option-cases (lookup (get_key msg) d)) [
    | inl e ↦ rw (e, has_vote, voters_at) refl
    | inr (v, e) ↦ rw (e, has_vote, voters_at) refl
  ]

  votes_count-voters_at :
      (msg : M) (d : TrackedMsgs get_key)
      → votes_count get_key msg d ≡ length (voters_at (get_key msg) d)
  unfolding votes_count
  votes_count-voters_at msg d = elim (Option-cases (lookup (get_key msg) d)) [
    | inl e ↦ rw (e, votes_count, voters_at) refl
    | inr (v, e) ↦ rw (e, votes_count, voters_at) refl
  ]

  -- After any votes, a node has a vote for a message exactly if it voted for one with the same view and
  -- sequence number, and a message has enough votes exactly if the distinct nodes that did so are
  -- enough.
  pub votes_lem :
      (votes : List (M × String)) (msg : M) (count : ℕ)
      → ((voter : String)
          → has_vote get_key msg voter (after_votes votes) ≡ voted (get_key msg) voter votes)
        × ((xs : List String) × Distinct xs
            × ((voter : String) → contains voter xs ≡ voted (get_key msg) voter votes)
            × (has_enough_votes get_key msg count (after_votes votes) ≡ leb count (length xs)))
  unfolding has_enough_votes
  votes_lem votes msg count =
      let d = after_votes votes in
      (
        λ voter. has_vote-voters_at msg voter d ∙ contains-voters_at (get_key msg) voter votes,
        (
          voters_at (get_key msg) d,
          voters_at-Distinct (get_key msg) votes,
          λ voter. contains-voters_at (get_key msg) voter votes,
          ap (leb count) (votes_count-voters_at msg d),
        ),
      )
