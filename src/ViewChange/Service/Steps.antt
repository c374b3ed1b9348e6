-- ===== src/ViewChange/Service/Steps.antt =====
-- Each handler of `ViewChangeService`, and a change of the pool, keeps the votes good.
use indy_plenum.Prelude.{
  ℕ, String, List, [], ◌∷◌, Option, none, some, Bool, true, false, not, if◌then◌else◌, ◌≡◌, refl,
  subst, inl, inr, Bool-cases, string_eq,
}
use indy_plenum.Quorums.{Quorums}
use indy_plenum.Names.{replica_name_to_node_name}
use indy_plenum.Messages.{ViewChange, ViewChangeAck, NewView}
use indy_plenum.SharedData.{SharedData, is_primary, truthy, set_validators}
use indy_plenum.Verdict.{Code, Verdict, accepted, is_process}
use indy_plenum.Events.{Event}
use indy_plenum.ViewChange.Storages.{
  clear_new_views, update_new_view_quorums, add_view_change_ack, add_new_view,
}
use indy_plenum.ViewChange.Storages.Confirmed.{
  add_view_change-IsWellFormed, add_view_change_ack-IsWellFormed, clear-IsWellFormed,
}
use indy_plenum.ViewChange.Storages.Kept.{update_quorums-IsWellFormed}
use indy_plenum.ViewChange.Storages.Agreement.{clear_new_views-IsSoundBy}
use indy_plenum.ViewChange.Service.{
  VcState, VcStep, validate, clean_on_view_change_start, build_view_change_msg,
}
use indy_plenum.ViewChange.Service.Handlers.{
  with_votes, VcResult, after, returning, send_new_view_if_needed, finish_view_change_if_needed,
  if_stashed, vote_and_ack, process_view_change_message, process_view_change_ack_message,
  process_new_view_message,
}
use indy_plenum.ViewChange.Service.Start.{
  process_need_view_change, enter_view, start_on_master, view_no_or_next,
}
use indy_plenum.ViewChange.Service.Good.{
  HadQuorum, IsGood, IsGoodIf, after-IsGoodIf, with_votes-IsGood, with_new_view-IsGood,
  send_new_view_if_needed-IsGoodIf, finish_view_change_if_needed-IsGoodIf, vote_and_ack-IsGood,
}

module _ (view_change_digest : ViewChange → String) (new_view_digest : NewView → String)
    (pools : List Quorums) where
  -- The state that a result leaves.
  abbrev pub IsGoodResult : VcResult → Type 0
  IsGoodResult none = Unit
  IsGoodResult (some (verdict, (s, events))) =
      IsGood view_change_digest new_view_digest pools s.data'

  returning-IsGoodResult :
      (verdict : Verdict) (r : Option VcStep)
      → IsGoodIf view_change_digest new_view_digest pools r
      → IsGoodResult (returning verdict r)
  returning-IsGoodResult verdict none h = tt
  returning-IsGoodResult verdict (some (s, events)) h = h

  if_stashed-IsGood :
      (verdict : Verdict) (view_no : ℕ) (s : VcState)
      → IsGood view_change_digest new_view_digest pools s.data'
      → IsGood view_change_digest new_view_digest pools
          (if_stashed view_change_digest new_view_digest verdict view_no s).0.data'
  if_stashed-IsGood (Code.discard, reason) view_no s h = h
  if_stashed-IsGood (Code.process, reason) view_no s h = h
  if_stashed-IsGood (Code.stash_view_3pc, reason) view_no s h = h
  if_stashed-IsGood (Code.stash_watermarks, reason) view_no s h = h
  if_stashed-IsGood (Code.stash_catch_up, reason) view_no s h = h
  if_stashed-IsGood (Code.stash_waiting_view_change, reason) view_no s h = h
  if_stashed-IsGood (Code.stash_waiting_first_batch_in_view, reason) view_no s h = h

  pub view_change_message-IsGood :
      (msg : ViewChange) (frm : String) (s : VcState)
      → IsGood view_change_digest new_view_digest pools s.data'
      → IsGoodResult (process_view_change_message view_change_digest new_view_digest msg frm s)
  unfolding process_view_change_message
  view_change_message-IsGood msg frm s h =
      let verdict = validate s.data' msg.view_no in
      let (vca, s') = vote_and_ack view_change_digest new_view_digest msg frm s in
      let h' = vote_and_ack-IsGood view_change_digest new_view_digest pools msg frm s h in
      elim (Bool-cases (is_process (verdict.0))) [
        | inr t ↦ rw (t, process_view_change_message) (if_stashed-IsGood verdict msg.view_no s h)
        | inl t ↦ elim (Bool-cases (truthy (is_primary s'.data'))) [
          | inl u ↦
              rw (t, u, process_view_change_message)
                (returning-IsGoodResult accepted
                  (send_new_view_if_needed view_change_digest new_view_digest s')
                  (send_new_view_if_needed-IsGoodIf view_change_digest new_view_digest pools s' h'))
          | inr u ↦
              let ack : List Event =
                Event.send_view_change_ack vca (replica_name_to_node_name s'.data'.primary_name)
                ∷ [] in
              let r = finish_view_change_if_needed view_change_digest new_view_digest s' in
              rw (t, u, process_view_change_message)
                (returning-IsGoodResult accepted (after ack r) (
                  after-IsGoodIf view_change_digest new_view_digest pools ack r (
                    finish_view_change_if_needed-IsGoodIf view_change_digest new_view_digest pools
                      s' h')))
        ]
      ]

  pub view_change_ack_message-IsGood :
      (msg : ViewChangeAck) (frm : String) (s : VcState)
      → IsGood view_change_digest new_view_digest pools s.data'
      → IsGoodResult (process_view_change_ack_message view_change_digest new_view_digest msg frm s)
  unfolding process_view_change_ack_message
  view_change_ack_message-IsGood msg frm s h =
      let d = s.data' in
      let votes = (add_view_change_ack d.view_change_votes msg frm).1 in
      let s' = with_votes votes s in
      let h' =
        with_votes-IsGood view_change_digest new_view_digest pools s votes h (
          add_view_change_ack-IsWellFormed view_change_digest d.view_change_votes msg frm
            h.voted) in
      elim (Bool-cases (is_process ((validate d msg.view_no).0))) [
        | inr t ↦ rw (t, process_view_change_ack_message) h
        | inl t ↦ elim (Bool-cases (truthy (is_primary d))) [
          | inr u ↦ rw (t, u, process_view_change_ack_message) h
          | inl u ↦
              rw (t, u, process_view_change_ack_message)
                (returning-IsGoodResult accepted
                  (send_new_view_if_needed view_change_digest new_view_digest s')
                  (send_new_view_if_needed-IsGoodIf view_change_digest new_view_digest pools s' h'))
        ]
      ]

  pub new_view_message-IsGood :
      (msg : NewView) (frm : String) (s : VcState)
      → IsGood view_change_digest new_view_digest pools s.data'
      → IsGoodResult (process_new_view_message view_change_digest new_view_digest msg frm s)
  unfolding process_new_view_message
  new_view_message-IsGood msg frm s h =
      let d = s.data' in
      let votes = add_new_view new_view_digest d.new_view_votes msg frm in
      let s' = record s { data' = record d { new_view_votes = votes } } in
      elim (Bool-cases (is_process ((validate d msg.view_no).0))) [
        | inr t ↦ rw (t, process_new_view_message) h
        | inl t ↦
            rw (t, process_new_view_message)
              (returning-IsGoodResult accepted
                (finish_view_change_if_needed view_change_digest new_view_digest s')
                (finish_view_change_if_needed-IsGoodIf view_change_digest new_view_digest pools s'
                  (with_new_view-IsGood view_change_digest new_view_digest pools s msg frm h)))
      ]

  enter_view-IsGood :
      (view_no : ℕ) (s : VcState)
      → IsGood view_change_digest new_view_digest pools s.data'
      → IsGood view_change_digest new_view_digest pools (enter_view view_no s).data'
  unfolding enter_view clean_on_view_change_start clear_new_views
  enter_view-IsGood view_no s h = record {
    voted = clear-IsWellFormed view_change_digest s.data'.view_change_votes;
    tallied = clear_new_views-IsSoundBy new_view_digest (HadQuorum pools) s.data'.new_view_votes;
    current = h.current;
  }

  start_on_master-IsGood :
      (select_master_primary : ℕ → String) (old_primary : Option String) (s : VcState)
      → IsGood view_change_digest new_view_digest pools s.data'
      → IsGood view_change_digest new_view_digest pools
          (start_on_master view_change_digest select_master_primary old_primary s).0.data'
  unfolding start_on_master build_view_change_msg
  start_on_master-IsGood select_master_primary old_primary s h = record {
    voted =
        add_view_change-IsWellFormed view_change_digest s.data'.view_change_votes _ s.data'.name
          h.voted;
    tallied = h.tallied;
    current = h.current;
  }

  either-IsGood :
      (b : Bool) (x y : VcStep)
      → IsGood view_change_digest new_view_digest pools x.0.data'
      → IsGood view_change_digest new_view_digest pools y.0.data'
      → IsGood view_change_digest new_view_digest pools (if b then x else y).0.data'
  either-IsGood true x y h h' = h
  either-IsGood false x y h h' = h'

  pub need_view_change-IsGood :
      (select_master_primary : ℕ → String) (wanted : Option ℕ) (s : VcState)
      → IsGood view_change_digest new_view_digest pools s.data'
      → IsGood view_change_digest new_view_digest pools
          (process_need_view_change view_change_digest select_master_primary wanted s).0.data'
  unfolding process_need_view_change
  need_view_change-IsGood select_master_primary wanted s g =
      let s' = enter_view (view_no_or_next wanted s.data') s in
      let h = enter_view-IsGood (view_no_or_next wanted s.data') s g in
      either-IsGood (not s'.data'.is_master)
        (record s' { data' = record (s'.data') { master_reordered_after_vc = false } }, [])
        (start_on_master view_change_digest select_master_primary s.data'.primary_name s')
        (record { voted = h.voted; tallied = h.tallied; current = h.current })
        (start_on_master-IsGood select_master_primary s.data'.primary_name s' h)

  pub result-IsGood :
      {r : VcResult} {verdict : Verdict} {s : VcState} {events : List Event}
      → r ≡ some (verdict, (s, events))
      → IsGoodResult r
      → IsGood view_change_digest new_view_digest pools s.data'
  result-IsGood e h = subst IsGoodResult e h

  pub set_validators-IsGood :
      (d : SharedData) (validators : List String)
      → IsGood view_change_digest new_view_digest pools d
      → IsGood view_change_digest new_view_digest
          ((set_validators d validators).quorums ∷ pools)
          (set_validators d validators)
  unfolding set_validators update_new_view_quorums
  set_validators-IsGood d validators h = record {
    voted = update_quorums-IsWellFormed view_change_digest d.view_change_votes _ h.voted;
    tallied = record {
      tallies = h.tallied.tallies;
      accepted = λ msg e.
          let (v, found, (q, m, t)) = h.tallied.accepted msg e in (v, found, (q, inr m, t));
    };
    current = inl refl;
  }
