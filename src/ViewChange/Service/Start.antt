-- ===== src/ViewChange/Service/Start.antt =====
-- The beginning of a view change, `process_need_view_change`, and the timer's handler
-- `_propose_view_change_not_complete_in_time`.
use indy_plenum.Prelude.{
  ℕ, ◌+◌, String, List, [], ◌∷◌, ◌++◌, Option, none, some, Bool, true, false, ◌&&◌, not,
  if◌then◌else◌, ◌=?◌, string_eq,
}
use indy_plenum.Names.{generate_name}
use indy_plenum.Messages.{ViewChange}
use indy_plenum.SharedData.{SharedData}
use indy_plenum.Verdict.{Code}
use indy_plenum.Events.{Event, Suspicion}
use indy_plenum.ViewChange.Storages.{add_view_change}
use indy_plenum.ViewChange.Service.{
  VcState, VcStep, clean_on_view_change_start, build_view_change_msg, new_view,
}
use indy_plenum.ViewChange.Service.Handlers.{with_votes}

abbrev pub view_no_or_next : Option ℕ → SharedData → ℕ
view_no_or_next none d = d.view_no + 1
view_no_or_next (some view_no) d = view_no

-- `old_primary and primary_name == old_primary`
abbrev pub is_same_primary : Option String → String → Bool
is_same_primary none primary_name = false
is_same_primary (some old_primary) primary_name =
    not (old_primary =? "") && primary_name =? old_primary

-- The steps up to the branch on `is_master`.
unfoldable pub enter_view : ℕ → VcState → VcState
enter_view view_no s =
    let s' = clean_on_view_change_start s in
    record s' {
      data' = record (s'.data') {
        view_no = view_no;
        waiting_for_new_view = true;
        primary_name = none;
      };
    }

module _ (view_change_digest : ViewChange → String) (select_master_primary : ℕ → String) where
  -- The steps of the master.
  unfoldable pub start_on_master : (old_primary : Option String) → VcState → VcStep
  start_on_master old_primary s =
      let d = s.data' in
      let primary_name = generate_name (select_master_primary d.view_no) d.inst_id in
      let chosen = record s { data' = record d { primary_name = some primary_name } } in
      let (vc, built) = build_view_change_msg chosen in
      let votes = (add_view_change view_change_digest built.data'.view_change_votes vc d.name).1 in
      let proposed : List Event =
        if is_same_primary old_primary primary_name
        then Event.vote_for_view_change Suspicion.incorrect_new_primary ∷ []
        else [] in
      (
        record (with_votes votes built) { stashed_vc_msgs = [] },
        proposed
            ++ Event.view_change_started d.view_no
              ∷ Event.send_view_change vc
              ∷ Event.process_all_stashed Code.stash_waiting_view_change
              ∷ Event.stop_timer
              ∷ Event.start_timer
              ∷ [],
      )

  unfoldable pub process_need_view_change : Option ℕ → VcState → VcStep
  process_need_view_change wanted s =
      let s' = enter_view (view_no_or_next wanted s.data') s in
      if not s'.data'.is_master
      then (record s' { data' = record (s'.data') { master_reordered_after_vc = false } }, [])
      else start_on_master s.data'.primary_name s'

unfoldable pub propose_view_change_not_complete_in_time : VcState → VcStep
propose_view_change_not_complete_in_time s =
    let asked : List Event = elim (new_view s.data') [
      | none ↦ Event.missing_new_view s.data'.view_no s.data'.inst_id ∷ []
      | some _ ↦ []
    ] in
    (s, Event.vote_for_view_change Suspicion.instance_change_timeout ∷ asked)
