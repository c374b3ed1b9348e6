-- ===== src/Trigger.antt =====
-- ViewChangeTriggerService of plenum/server/consensus/view_change_trigger_service.py: a node votes for
-- another view, and starts its view change when enough nodes vote for one view. The nodes that are
-- connected and the verdict on the master's performance are parameters of a call.
pub mod Quorum
pub mod Start
pub mod Tests
use indy_plenum.Prelude.{
  ℕ, ◌+◌, String, Bool, true, false, ltb, leb, not, ◌&&◌, if◌then◌else◌, Option, none, some, List,
  [], ◌∷◌, ◌++◌, contains, string_eq,
}
use indy_plenum.Names.{node_name_of}
use indy_plenum.Verdict.{Verdict, refuse, accepted, Code, Reason}
use indy_plenum.Events.{Event, Suspicion, send_instance_change, node_need_view_change}
use indy_plenum.SharedData.{SharedData, is_participating}
use indy_plenum.InstanceChanges.{
  Provider, InstanceChange, add_vote, has_inst_chng_from, has_quorum, remove_view,
}

pub record Trigger : Type 0 where
  pub data' : SharedData
  pub instance_changes : Provider

abbrev pub name_of : Trigger → String
name_of t = node_name_of t.data'.name

pub record VoteForViewChange : Type 0 where
  pub suspicion : Suspicion
  pub view_no : Option ℕ

abbrev pub is_sigs_not_updated : Suspicion → Bool
is_sigs_not_updated Suspicion.state_sigs_are_not_updated = true
is_sigs_not_updated _ = false

unfoldable pub proposed_view : VoteForViewChange → SharedData → ℕ
proposed_view msg d = elim msg.view_no [
  | some view_no ↦ view_no
  | none ↦
      if not (is_sigs_not_updated msg.suspicion)
      then d.view_no + 1
      else (if not d.waiting_for_new_view then d.view_no + 1 else d.view_no)
]

module _ (clock : ℕ → ℕ) where
  unfoldable pub can_view_change : ℕ → Trigger → Bool × Trigger
  unfolding has_quorum
  can_view_change proposed_view_no t =
      let (reached, p) =
        has_quorum clock proposed_view_no t.data'.quorums.view_change.value t.instance_changes in
      (
        if not reached then false else ltb t.data'.view_no proposed_view_no,
        record t { instance_changes = p },
      )

  unfoldable pub try_start_view_change : ℕ → Trigger → List Event × Trigger
  unfolding can_view_change
  try_start_view_change proposed_view_no t =
      let (can, t') = can_view_change proposed_view_no t in
      (if can then node_need_view_change proposed_view_no ∷ [] else [], t')

  unfoldable pub on_verified_instance_change :
      InstanceChange → String → Trigger → List Event × Trigger
  unfolding try_start_view_change has_inst_chng_from add_vote
  on_verified_instance_change msg frm t =
      let (voted, p) = has_inst_chng_from clock msg.view_no frm t.instance_changes in
      let added : Trigger = record t { instance_changes = add_vote clock msg frm p } in
      if voted
      then ([], record t { instance_changes = p })
      else (if ltb t.data'.view_no msg.view_no
          then try_start_view_change msg.view_no added
          else ([], added))

  unfoldable pub send_own : ℕ → Suspicion → Trigger → List Event × Trigger
  unfolding on_verified_instance_change
  send_own view_no suspicion t =
      let msg : InstanceChange = record { view_no = view_no; reason = suspicion } in
      let (events, t') = on_verified_instance_change msg (name_of t) t in
      (send_instance_change view_no suspicion ∷ events, t')

  unfoldable pub process_vote_for_view_change : VoteForViewChange → Trigger → List Event × Trigger
  unfolding send_own proposed_view
  process_vote_for_view_change msg t = send_own (proposed_view msg t.data') msg.suspicion t

  -- The answer to an InstanceChange that is recorded.
  unfoldable pub answer : InstanceChange → Bool → Trigger → List Event × Trigger
  unfolding send_own has_inst_chng_from
  answer msg degraded t =
      let (voted, p) = has_inst_chng_from clock msg.view_no (name_of t) t.instance_changes in
      let t' : Trigger = record t { instance_changes = p } in
      if voted
      then ([], t')
      else (if not degraded then ([], t') else send_own msg.view_no Suspicion.primary_degraded t')

  -- `process_instance_change`: the verdict (None stands for the acceptance), the events, the state.
  unfoldable pub process_instance_change :
      InstanceChange
      → String
      → (connecteds : List String) → (degraded : Bool) → Trigger
      → Verdict × List Event × Trigger
  unfolding on_verified_instance_change answer
  process_instance_change msg frm connecteds degraded t =
      let node = node_name_of frm in
      let (recorded, t') = on_verified_instance_change msg node t in
      let (answered, t'') = answer msg degraded t' in
      if not (contains node connecteds)
      then ((Code.discard, none), [], t)
      else (if not (is_participating t.data')
          then (refuse Code.stash_catch_up Reason.catching_up, [], t)
          else (if leb msg.view_no t.data'.view_no
              then ((Code.discard, none), [], t)
              else (accepted, recorded ++ answered, t'')))

unfoldable pub process_new_view_accepted : Trigger → Trigger
unfolding remove_view
process_new_view_accepted t = record t {
  instance_changes = remove_view t.data'.view_no t.instance_changes;
}
