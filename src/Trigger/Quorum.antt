-- ===== src/Trigger/Quorum.antt =====
-- A view change is started only by a quorum of votes that are in date.
use indy_plenum.Prelude.{
  ℕ, ◌+◌, ◌≤◌, ◌<◌, ◌≡◌, ◌⊎◌, refl, sym, subst, String, Bool, true, false, ltb, leb, not,
  if◌then◌else◌, Option, none, some, List, [], length, arith, inl, inr, Bool-cases, In, In-append,
  lookup, nat_eq, contains, string_eq,
}
use indy_plenum.Names.{node_name_of}
use indy_plenum.Events.{Event, Suspicion, node_need_view_change}
use indy_plenum.SharedData.{SharedData, is_participating}
use indy_plenum.InstanceChanges.{
  Vote, Votes, Provider, InstanceChange, add_vote, update_votes, update_db_from_cache,
  has_inst_chng_from, has_quorum, reaches, votes_or_empty,
}
use indy_plenum.InstanceChanges.Dict.{votes_at}
use indy_plenum.InstanceChanges.Fresh.{IsFresh, update_votes-IsFresh, update_votes-IsForward}
use indy_plenum.Trigger.{
  Trigger, VoteForViewChange, name_of, can_view_change, try_start_view_change,
  on_verified_instance_change, send_own, proposed_view, process_vote_for_view_change, answer,
  process_instance_change,
}

either : {A : Type 0} (P : A → Type 0) (b : Bool) (x y : A) → P x → P y → P (if b then x else y)
either P true x y p q = p
either P false x y p q = q

module _ (clock : ℕ → ℕ) where
  -- The provider holds a quorum of votes for a view above that of the node, and unless votes are never
  -- outdated, each of them was found in date after the given number of readings of the clock.
  pub record IsBacked (d : SharedData) (first w : ℕ) (p : Provider) : Type 0 where
    pub votes : Votes
    pub held : lookup w p.cache ≡ some votes
    pub enough : d.quorums.view_change.value ≤ length votes
    pub above : d.view_no < w
    pub fresh :
        (x : String × Vote)
        → In x votes
        → (p.outdated_ic_interval ≡ 0) ⊎ IsFresh clock first p.readings p.outdated_ic_interval x

  reaches-some :
      (quorum : ℕ) (o : Option Votes)
      → reaches clock quorum o ≡ true
      → (votes : Votes) × (o ≡ some votes) × (quorum ≤ length votes)
  reaches-some quorum none e = absurd (cc e)
  reaches-some quorum (some votes) e = (votes, refl, ground (arith, e))

  has_quorum-IsBacked :
      (d : SharedData) (w : ℕ) (p : Provider)
      → d.view_no < w
      → (has_quorum clock w d.quorums.view_change.value p).0 ≡ true
      → IsBacked d p.readings w (has_quorum clock w d.quorums.view_change.value p).1
  unfolding has_quorum
  has_quorum-IsBacked d w p above e =
      let p' = update_votes clock w p in
      let (votes, there, enough) = reaches-some d.quorums.view_change.value (lookup w p'.cache) e in
      let forward = update_votes-IsForward clock w p in
      record {
        votes = votes;
        held = there;
        enough = enough;
        above = above;
        fresh = λ x m.
            let m' : In x (votes_at w p'.cache) =
              subst (λ (o : Option Votes). In x (votes_or_empty o)) (sym there) m in
            subst (λ (i : ℕ). (i ≡ 0) ⊎ IsFresh clock p.readings p'.readings i x)
              (sym forward.interval) (update_votes-IsFresh clock w p x m');
      }

  earlier :
      (d : SharedData) (first first' w : ℕ) (p : Provider)
      → first ≤ first'
      → IsBacked d first' w p
      → IsBacked d first w p
  earlier d first first' w p low b = record {
    votes = b.votes;
    held = b.held;
    enough = b.enough;
    above = b.above;
    fresh = λ x m. elim (b.fresh x m) [
      | inl never ↦ inl never
      | inr (k, from, to, e) ↦ inr (k, omega (arith, low, from), to, e)
    ];
  }

  try_start-IsBacked :
      (v w : ℕ) (t : Trigger)
      → In (node_need_view_change w) (try_start_view_change clock v t).0
      → IsBacked t.data' t.instance_changes.readings w
          (try_start_view_change clock v t).1.instance_changes
  unfolding try_start_view_change can_view_change
  try_start-IsBacked v w t m =
      let quorum = t.data'.quorums.view_change.value in
      elim (Bool-cases (has_quorum clock v quorum t.instance_changes).0) [
        | inr e ↦ absurd (rw e at m)
        | inl e ↦ elim (Bool-cases (ltb t.data'.view_no v)) [
          | inr e' ↦ absurd (rw (e, e') at m)
          | inl e' ↦ elim (rw (e, e') at m) [
            | inr none_left ↦ absurd none_left
            | inl same ↦
                let is : v ≡ w = sym (cc same) in
                subst
                  (λ (n : ℕ).
                    IsBacked t.data' t.instance_changes.readings n
                      (has_quorum clock v quorum t.instance_changes).1)
                  is (has_quorum-IsBacked t.data' v t.instance_changes (ground (arith, e')) e)
          ]
        ]
      ]

  -- A request for a view change comes with the votes for it.
  abbrev Asks : Trigger → ℕ → List Event × Trigger → Type 0
  Asks t w r =
      In (node_need_view_change w) r.0
      → IsBacked t.data' t.instance_changes.readings w r.1.instance_changes

  on_verified-IsBacked :
      (msg : InstanceChange) (frm : String) (w : ℕ) (t : Trigger)
      → In (node_need_view_change w) (on_verified_instance_change clock msg frm t).0
      → IsBacked t.data' t.instance_changes.readings w
          (on_verified_instance_change clock msg frm t).1.instance_changes
  unfolding on_verified_instance_change has_inst_chng_from add_vote update_db_from_cache
  on_verified-IsBacked msg frm w t =
      let p = update_votes clock msg.view_no t.instance_changes in
      let added : Trigger = record t { instance_changes = add_vote clock msg frm p } in
      let forward = update_votes-IsForward clock msg.view_no t.instance_changes in
      either (Asks t w) (has_inst_chng_from clock msg.view_no frm t.instance_changes).0
        ([], record t { instance_changes = p })
        (if ltb t.data'.view_no msg.view_no
          then try_start_view_change clock msg.view_no added
          else ([], added))
        (λ none_sent. absurd none_sent)
        (either (Asks t w) (ltb t.data'.view_no msg.view_no)
          (try_start_view_change clock msg.view_no added) ([], added)
          (λ m.
            earlier t.data' t.instance_changes.readings (p.readings + 1) w
              (try_start_view_change clock msg.view_no added).1.instance_changes
              (omega (arith, forward.readings)) (try_start-IsBacked msg.view_no w added m))
          (λ none_sent. absurd none_sent))

  -- What a recorded vote leaves alone.
  record IsNext (t t' : Trigger) : Type 0 where
    same_data : t'.data' ≡ t.data'
    readings : t.instance_changes.readings ≤ t'.instance_changes.readings

  on_verified-IsNext :
      (msg : InstanceChange) (frm : String) (t : Trigger)
      → IsNext t (on_verified_instance_change clock msg frm t).1
  unfolding on_verified_instance_change try_start_view_change can_view_change has_inst_chng_from
      has_quorum add_vote update_db_from_cache
  on_verified-IsNext msg frm t =
      let p = update_votes clock msg.view_no t.instance_changes in
      let forward = update_votes-IsForward clock msg.view_no t.instance_changes in
      let again = update_votes-IsForward clock msg.view_no (add_vote clock msg frm p) in
      elim (Bool-cases (has_inst_chng_from clock msg.view_no frm t.instance_changes).0) [
        | inl e ↦ rw e (record { same_data = refl; readings = forward.readings })
        | inr e ↦ elim (Bool-cases (ltb t.data'.view_no msg.view_no)) [
          | inr e' ↦
              rw (e, e') (record { same_data = refl; readings = omega (arith, forward.readings) })
          | inl e' ↦
              rw (e, e')
                (record {
                  same_data = refl;
                  readings = omega (arith, forward.readings, again.readings);
                })
        ]
      ]

  send_own-IsBacked :
      (v w : ℕ) (suspicion : Suspicion) (t : Trigger)
      → In (node_need_view_change w) (send_own clock v suspicion t).0
      → IsBacked t.data' t.instance_changes.readings w
          (send_own clock v suspicion t).1.instance_changes
  unfolding send_own
  send_own-IsBacked v w suspicion t (inl other) = absurd (cc other)
  send_own-IsBacked v w suspicion t (inr m) =
      on_verified-IsBacked (record { view_no = v; reason = suspicion }) (name_of t) w t m

  answer-IsBacked :
      (msg : InstanceChange) (degraded : Bool) (w : ℕ) (t : Trigger)
      → In (node_need_view_change w) (answer clock msg degraded t).0
      → IsBacked t.data' t.instance_changes.readings w
          (answer clock msg degraded t).1.instance_changes
  unfolding answer has_inst_chng_from
  answer-IsBacked msg degraded w t m =
      let p = update_votes clock msg.view_no t.instance_changes in
      let forward = update_votes-IsForward clock msg.view_no t.instance_changes in
      let t' : Trigger = record t { instance_changes = p } in
      elim (Bool-cases (has_inst_chng_from clock msg.view_no (name_of t) t.instance_changes).0) [
        | inl e ↦ absurd (rw e at m)
        | inr e ↦ elim (Bool-cases (not degraded)) [
          | inl e' ↦ absurd (rw (e, e') at m)
          | inr e' ↦
              rw (e, e')
                (earlier t.data' t.instance_changes.readings p.readings w
                  (send_own clock msg.view_no Suspicion.primary_degraded t').1.instance_changes
                  forward.readings
                  (send_own-IsBacked msg.view_no w Suspicion.primary_degraded t' (rw (e, e') at m)))
        ]
      ]

  -- The votes of the node for another view, and those of others that it records, ask for a view change to
  -- a view `w` only if `w` is above the view of the node and there is a quorum of votes for `w`: in the
  -- state that the handler leaves, or in the one after the vote of the other node was recorded. Unless
  -- votes are never outdated, each of these votes was found in date by a reading of the clock during the
  -- handler.
  pub view_change_needs_quorum :
      (w : ℕ) (t : Trigger)
      → ((msg : VoteForViewChange)
          → In (node_need_view_change w) (process_vote_for_view_change clock msg t).0
          → IsBacked t.data' t.instance_changes.readings w
              (process_vote_for_view_change clock msg t).1.instance_changes)
        × ((msg : InstanceChange) (frm : String) (connecteds : List String) (degraded : Bool)
            → In
                (node_need_view_change w)
                (process_instance_change clock msg frm connecteds degraded t).1
            → IsBacked t.data' t.instance_changes.readings w
                (on_verified_instance_change clock msg (node_name_of frm) t).1.instance_changes
              ⊎ IsBacked t.data' t.instance_changes.readings w
                  (process_instance_change clock msg frm connecteds degraded t).2.instance_changes)
  unfolding process_vote_for_view_change process_instance_change
  view_change_needs_quorum w t = (
    λ msg m. send_own-IsBacked (proposed_view msg t.data') w msg.suspicion t m,
    λ msg frm connecteds degraded m.
        let node = node_name_of frm in
        let t1 = (on_verified_instance_change clock msg node t).1 in
        let next = on_verified-IsNext msg node t in
        elim (Bool-cases (not (contains node connecteds))) [
          | inl e ↦ absurd (rw e at m)
          | inr e ↦ elim (Bool-cases (not (is_participating t.data'))) [
            | inl e' ↦ absurd (rw (e, e') at m)
            | inr e' ↦ elim (Bool-cases (leb msg.view_no t.data'.view_no)) [
              | inl e'' ↦ absurd (rw (e, e', e'') at m)
              | inr e'' ↦
                  elim (In-append (node_need_view_change w)
                    (on_verified_instance_change clock msg node t).0
                    (answer clock msg degraded t1).0 (rw (e, e', e'') at m)) [
                      | inl first ↦ inl (on_verified-IsBacked msg node w t first)
                      | inr second ↦
                          let b =
                            earlier t1.data' t.instance_changes.readings
                              t1.instance_changes.readings w
                              (answer clock msg degraded t1).1.instance_changes next.readings
                              (answer-IsBacked msg degraded w t1 second) in
                          inr (
                            rw (e, e', e'')
                              (subst
                                (λ (d : SharedData).
                                  IsBacked d t.instance_changes.readings w
                                    (answer clock msg degraded t1).1.instance_changes)
                                next.same_data b))
                    ]
            ]
          ]
        ],
  )
