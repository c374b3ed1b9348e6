-- ===== src/Checkpoints/Tests.antt =====
-- A replica of a pool of four, with a checkpoint every 100 batches and a log of 300.
use indy_plenum.Prelude.{[], ◌∷◌, true, some, ◌≡◌, refl, string_eq}
use indy_plenum.Quorums.{quorums, get_max_failures, is_reached}
use indy_plenum.Messages.{Checkpoint, checkpoint_eq}
use indy_plenum.Startable.{Mode}
use indy_plenum.SharedData.{shared_data, is_participating}
use indy_plenum.Events.{NewViewAccepted}
use indy_plenum.Checkpoints.Validator.{validate}
use indy_plenum.Checkpoints.Service.{
  AuditLedger, CheckpointState, checkpoint_key, have_own_checkpoint, mark_checkpoint_stable,
  try_to_stabilize_checkpoint, have_quorum_on_received_checkpoint,
}
use indy_plenum.Checkpoints.Handlers.{process_checkpoint, start_catchup_if_needed}

abbrev audit : AuditLedger
audit = record {
  txns = record { view_no = 0; pp_seq_no = 250 } ∷ record { view_no = 0; pp_seq_no = 200 } ∷ [];
  root = λ n. "root";
}

abbrev own : Checkpoint
own = record { inst_id = 0; view_no = 0; seq_no_start = 0; seq_no_end = 100; digest = some "a" }

abbrev replica : CheckpointState
replica = record {
  data' = record (shared_data "Alpha:0" ("Alpha" ∷ "Beta" ∷ "Gamma" ∷ "Delta" ∷ []) 0 true 300) {
    node_mode = Mode.participating;
    checkpoints = own ∷ [];
  };
  received_checkpoints = (checkpoint_key own, "Beta" ∷ []) ∷ [];
}

abbrev new_view : NewViewAccepted
new_view = record { view_no = 1; view_changes = []; checkpoint = own; batches = [] }

-- The second vote reaches the quorum, and the node has the checkpoint.
second_vote-stabilizes :
    (process_checkpoint 100 300 audit own "Gamma" replica).1.0.data'.stable_checkpoint ≡ 100
unfolding process_checkpoint shared_data validate is_participating quorums get_max_failures
    is_reached have_own_checkpoint mark_checkpoint_stable start_catchup_if_needed
    try_to_stabilize_checkpoint have_quorum_on_received_checkpoint
second_vote-stabilizes = refl
