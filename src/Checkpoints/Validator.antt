-- ===== src/Checkpoints/Validator.antt =====
-- `CheckpointMsgValidator` of plenum/server/consensus/checkpoint_service_msg_validator.py. A
-- Checkpoint always has its instance number, so the test for `None` has no counterpart.
use indy_plenum.Prelude.{Bool, not, if◌then◌else◌, ◌==◌, ltb, leb}
use indy_plenum.Messages.{Checkpoint}
use indy_plenum.SharedData.{SharedData, is_participating}
use indy_plenum.Verdict.{Code, Reason, Verdict, refuse, accepted}

unfoldable pub is_pp_seq_no_stable : SharedData → Checkpoint → Bool
is_pp_seq_no_stable d msg = leb msg.seq_no_end d.stable_checkpoint

unfoldable pub validate : SharedData → Checkpoint → Verdict
unfolding is_pp_seq_no_stable is_participating
validate d msg =
    if not (msg.inst_id == d.inst_id)
    then refuse Code.discard Reason.incorrect_instance
    else if is_pp_seq_no_stable d msg
    then refuse Code.discard Reason.already_stable
    else if ltb msg.view_no d.view_no
    then refuse Code.discard Reason.old_view
    else if d.waiting_for_new_view
    then refuse Code.stash_view_3pc Reason.waiting_for_new_view
    else if not (is_participating d)
    then refuse Code.stash_catch_up Reason.catching_up
    else accepted
