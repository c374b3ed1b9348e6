-- ===== src/Trigger/Start.antt =====
-- The vote that completes a quorum starts the view change.
use indy_plenum.Prelude.{
  ℕ, ◌+◌, ◌≤◌, ◌<◌, ◌==◌, ◌≡◌, refl, sym, ◌∙◌, ap, subst, String, Bool, true, false, leb,
  if◌then◌else◌, Option, none, some, List, [], ◌∷◌, length, arith, inl, inr, Bool-cases, In,
  In-append_left, lookup, insert, keys, nat_eq, contains, string_eq, ◌=?◌, =?_refl, le→leb, lt→ltb,
}
use indy_plenum.Names.{node_name_of}
use indy_plenum.SharedData.{is_participating}
use indy_plenum.Events.{Event, node_need_view_change}
use indy_plenum.InstanceChanges.{
  Vote, Votes, Provider, InstanceChange, add_vote, update_votes, update_db_from_cache,
  has_inst_chng_from, has_quorum, has_voter, reaches, votes_or_empty,
}
use indy_plenum.InstanceChanges.Dict.{votes_at, lookup-add_to_cache}
use indy_plenum.Trigger.{
  Trigger, can_view_change, try_start_view_change, on_verified_instance_change,
  process_instance_change,
}

length-insert_new :
    (voter : String) (vote : Vote) (votes : Votes)
    → contains voter (keys votes) ≡ false
    → length (insert voter vote votes) ≡ length votes + 1
length-insert_new voter vote [] e = omega arith
length-insert_new voter vote ((k, v) ∷ votes) e = elim (Bool-cases (k =? voter)) [
  | inl t ↦ absurd (cc (rw t at e))
  | inr t ↦ rw t (omega (arith, length-insert_new voter vote votes (rw t at e)))
]

module _ (clock : ℕ → ℕ) where
  never_outdated :
      (view_no : ℕ) (p : Provider) → p.outdated_ic_interval ≡ 0 → update_votes clock view_no p ≡ p
  unfolding update_votes
  never_outdated view_no p e =
      let never : (p.outdated_ic_interval == 0) ≡ true = ground (arith, e) in
      rw (never, update_votes)

  no_voter-new :
      (voter : String) (vote : Vote) (o : Option Votes)
      → has_voter voter o ≡ false
      → length (insert voter vote (votes_or_empty o)) ≡ length (votes_or_empty o) + 1
  no_voter-new voter vote none e = omega arith
  no_voter-new voter vote (some votes) e = length-insert_new voter vote votes e

  completed :
      (msg : InstanceChange) (frm : String) (p : Provider) (quorum : ℕ)
      → p.outdated_ic_interval ≡ 0
      → has_voter frm (lookup msg.view_no p.cache) ≡ false
      → quorum ≤ length (votes_at msg.view_no p.cache) + 1
      → (has_quorum clock msg.view_no quorum (add_vote clock msg frm p)).0 ≡ true
  unfolding has_quorum add_vote update_db_from_cache
  completed msg frm p quorum never fresh enough =
      let vote : Vote = record { timestamp = clock p.readings; reason = msg.reason } in
      let added = add_vote clock msg frm p in
      let found : lookup msg.view_no added.cache
          ≡ some (insert frm vote (votes_at msg.view_no p.cache)) =
        lookup-add_to_cache msg.view_no msg.view_no frm vote p.cache
        ∙ ap
            (λ (b : Bool).
              if b
              then some (insert frm vote (votes_at msg.view_no p.cache))
              else lookup msg.view_no p.cache)
            (=?_refl msg.view_no) in
      let longer = no_voter-new frm vote (lookup msg.view_no p.cache) fresh in
      ap (λ (q : Provider). reaches clock quorum (lookup msg.view_no q.cache))
        (never_outdated msg.view_no added never)
      ∙ ap (reaches clock quorum) found
      ∙ le→leb _ _ (omega (arith, longer, enough))

  started :
      (msg : InstanceChange) (frm : String) (t : Trigger)
      → t.instance_changes.outdated_ic_interval ≡ 0
      → has_voter frm (lookup msg.view_no t.instance_changes.cache) ≡ false
      → t.data'.quorums.view_change.value
        ≤ length (votes_at msg.view_no t.instance_changes.cache) + 1
      → t.data'.view_no < msg.view_no
      → (on_verified_instance_change clock msg frm t).0 ≡ node_need_view_change msg.view_no ∷ []
  unfolding on_verified_instance_change has_inst_chng_from try_start_view_change can_view_change
  started msg frm t never fresh enough above =
      let p = t.instance_changes in
      let same = never_outdated msg.view_no p never in
      let quorum = t.data'.quorums.view_change.value in
      let unvoted : has_voter frm (lookup msg.view_no (update_votes clock msg.view_no p).cache)
          ≡ false =
        ap (λ (q : Provider). has_voter frm (lookup msg.view_no q.cache)) same ∙ fresh in
      let higher = lt→ltb t.data'.view_no msg.view_no above in
      let reached : (has_quorum clock msg.view_no quorum
            (add_vote clock msg frm (update_votes clock msg.view_no p))).0
          ≡ true =
        ap (λ (q : Provider). (has_quorum clock msg.view_no quorum (add_vote clock msg frm q)).0)
          same
        ∙ completed msg frm p quorum never fresh enough in
      rw (unvoted, higher, reached)

  -- Let votes never be outdated. A participating node that records an InstanceChange of a connected node
  -- that has not voted for this view, which is above its own, asks for the view change to it at once if
  -- the votes for the view, this one counted, are a quorum.
  pub quorum_starts_view_change :
      (msg : InstanceChange) (frm : String) (connecteds : List String) (degraded : Bool)
      (t : Trigger)
      → t.instance_changes.outdated_ic_interval ≡ 0
      → contains (node_name_of frm) connecteds ≡ true
      → is_participating t.data' ≡ true
      → t.data'.view_no < msg.view_no
      → has_voter (node_name_of frm) (lookup msg.view_no t.instance_changes.cache) ≡ false
      → t.data'.quorums.view_change.value
        ≤ length (votes_at msg.view_no t.instance_changes.cache) + 1
      → In
          (node_need_view_change msg.view_no)
          (process_instance_change clock msg frm connecteds degraded t).1
  unfolding process_instance_change
  quorum_starts_view_change msg frm connecteds degraded t never known active above fresh enough =
      let events = started msg (node_name_of frm) t never fresh enough above in
      let not_old : leb msg.view_no t.data'.view_no ≡ false = ground (arith, above) in
      rw (known, active, not_old)
        (In-append_left (node_need_view_change msg.view_no)
          (on_verified_instance_change clock msg (node_name_of frm) t).0 _
          (subst (λ (es : List Event). In (node_need_view_change msg.view_no) es) (sym events)
            (inl refl)))
