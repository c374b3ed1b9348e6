-- ===== src/Events.antt =====
-- What the services send: the messages of plenum/common/messages/internal_messages.py on the internal
-- bus, network messages, and calls of the timer and of the stashing router. The services return them
-- in the order in which the code makes the calls.
use indy_plenum.Prelude.{ℕ, String, List, Option}
use indy_plenum.Messages.{BatchId, Checkpoint, ViewChange, ViewChangeAck, NewView}
use indy_plenum.Verdict.{Code}

-- The suspicions of plenum/server/suspicion_codes.py that the view change services vote for.
pub data Suspicion : Type 0 where
  primary_degraded instance_change_timeout state_sigs_are_not_updated : Suspicion
  new_view_invalid_checkpoints new_view_invalid_batches incorrect_new_primary : Suspicion
  other_suspicion : ℕ → Suspicion

pub record NewViewAccepted : Type 0 where
  pub view_no : ℕ
  pub view_changes : List (String × String)
  pub checkpoint : Checkpoint
  pub batches : List BatchId

pub data Event : Type 0 where
  send_checkpoint : Checkpoint → Event
  send_view_change : ViewChange → Event
  send_view_change_ack : ViewChangeAck → Option String → Event
  send_new_view : NewView → Event
  send_instance_change : (view_no : ℕ) → Suspicion → Event
  need_master_catchup : Event
  need_backup_catchup : (inst_id : ℕ) → (caught_up_till_3pc : ℕ × ℕ) → Event
  checkpoint_stabilized : (last_stable_3pc : ℕ × ℕ) → Event
  new_view_accepted : NewViewAccepted → Event
  new_view_checkpoints_applied : NewViewAccepted → Event
  catchup_checkpoints_applied : (last_caught_up_3pc master_last_ordered : ℕ × ℕ) → Event
  view_change_started : (view_no : ℕ) → Event
  node_need_view_change : (view_no : ℕ) → Event
  vote_for_view_change : Suspicion → Event
  missing_new_view : (view_no inst_id : ℕ) → Event
  missing_view_change : (key : String × String) → (inst_id : ℕ) → Event
  process_all_stashed : Code → Event
  stop_timer start_timer : Event
