-- ===== src/Ordering/Validator.antt =====
-- plenum/server/consensus/ordering_service_msg_validator.py. The message schemas give every 3PC
-- message its numbers, so the tests for `None` of `pp_seq_no` have no counterpart; an instance number
-- may be missing, as the code allows.
pub mod Decision
mod Tests
use indy_plenum.Prelude.{
  ℕ, ◌+◌, Option, none, some, Bool, true, false, ◌&&◌, not, if◌then◌else◌, ◌==◌, ltb, leb,
  is_nonneg,
}
use indy_plenum.Keys.{compare_3pc_keys}
use indy_plenum.SharedData.{SharedData, is_participating}
use indy_plenum.Verdict.{Code, Reason, Verdict, refuse, accepted, is_process}

-- What the validator reads of a PrePrepare, a Prepare or a Commit.
pub record ThreePcKey : Type 0 where
  pub inst_id : Option ℕ
  pub view_no : ℕ
  pub pp_seq_no : ℕ

pub data Message : Type 0 where
  pre_prepare prepare commit : ThreePcKey → Message
  new_view_checkpoints_applied : (view_no : ℕ) → Message
  old_view_pre_prepare_request old_view_pre_prepare_reply : (inst_id : Option ℕ) → Message
  other : Message

module _ (data' : SharedData) where
  unfoldable pub has_already_ordered : ℕ → ℕ → Bool
  unfolding compare_3pc_keys
  has_already_ordered view_no pp_seq_no =
      is_nonneg (compare_3pc_keys (view_no, pp_seq_no) data'.last_ordered_3pc)

  -- `inst_id is None or inst_id != self._data.inst_id`
  abbrev pub wrong_instance : Option ℕ → Bool
  wrong_instance none = true
  wrong_instance (some inst_id) = not (inst_id == data'.inst_id)

  unfoldable pub validate_base : ℕ → Verdict
  unfolding is_participating
  validate_base view_no =
      if ltb view_no data'.view_no
      then refuse Code.discard Reason.old_view
      else if ltb data'.view_no view_no
      then refuse Code.stash_view_3pc Reason.future_view
      else if not (is_participating data')
      then refuse Code.stash_catch_up Reason.catching_up
      else accepted

  -- The checks of `_validate_3pc` behind `_validate_base`.
  unfoldable pub validate_3pc_stash : ℕ → ℕ → Verdict
  unfolding has_already_ordered
  validate_3pc_stash view_no pp_seq_no =
      if data'.waiting_for_new_view
      then refuse Code.stash_view_3pc Reason.waiting_for_new_view
      else if ltb data'.high_watermark pp_seq_no
      then refuse Code.stash_watermarks Reason.outside_watermarks
      else if has_already_ordered view_no pp_seq_no && ltb data'.prev_view_prepare_cert pp_seq_no
      then refuse Code.discard Reason.already_ordered
      else if ltb 0 view_no
          && (ltb (data'.prev_view_prepare_cert + 1) pp_seq_no
              && ltb data'.last_ordered_3pc.1 (data'.prev_view_prepare_cert + 1))
      then refuse Code.stash_waiting_first_batch_in_view Reason.waiting_first_batch_in_view
      else accepted

  unfoldable pub validate_3pc : ThreePcKey → Verdict
  unfolding validate_base validate_3pc_stash
  validate_3pc msg =
      if wrong_instance msg.inst_id
      then refuse Code.discard Reason.incorrect_instance
      else if msg.pp_seq_no == 0
      then refuse Code.discard Reason.incorrect_pp_seq_no
      else if leb msg.pp_seq_no data'.low_watermark
      then refuse Code.discard Reason.already_ordered
      else if not (is_process (validate_base msg.view_no).0)
      then validate_base msg.view_no
      else validate_3pc_stash msg.view_no msg.pp_seq_no

  unfoldable pub validate_old_view_request : Option ℕ → Verdict
  unfolding is_participating
  validate_old_view_request inst_id =
      if wrong_instance inst_id
      then refuse Code.discard Reason.incorrect_instance
      else if not data'.is_master
      then refuse Code.discard Reason.non_master
      else if not (is_participating data')
      then refuse Code.stash_catch_up Reason.catching_up
      else accepted

  unfoldable pub validate_old_view_reply : Option ℕ → Verdict
  unfolding is_participating
  validate_old_view_reply inst_id =
      if wrong_instance inst_id
      then refuse Code.discard Reason.incorrect_instance
      else if not data'.is_master
      then refuse Code.discard Reason.non_master
      else if data'.waiting_for_new_view
      then refuse Code.stash_view_3pc Reason.waiting_for_new_view
      else if not (is_participating data')
      then refuse Code.stash_catch_up Reason.catching_up
      else accepted

  -- `none` is the LogicError of an unknown message type.
  unfoldable pub validate : Message → Option Verdict
  unfolding validate_3pc validate_base validate_old_view_request validate_old_view_reply
  validate (pre_prepare msg) = some (validate_3pc msg)
  validate (prepare msg) = some (validate_3pc msg)
  validate (commit msg) = some (validate_3pc msg)
  validate (new_view_checkpoints_applied view_no) = some (validate_base view_no)
  validate (old_view_pre_prepare_request inst_id) = some (validate_old_view_request inst_id)
  validate (old_view_pre_prepare_reply inst_id) = some (validate_old_view_reply inst_id)
  validate other = none
