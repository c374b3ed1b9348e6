-- ===== src/Verdict.antt =====
-- The codes and the reasons that the validators return: plenum/server/replica_validator_enums.py and
-- `DISCARD`, `PROCESS` of plenum/common/stashing_router.py.
use indy_plenum.Prelude.{Option, none, some, Bool, true, false}

pub data Code : Type 0 where
  discard process stash_view_3pc stash_watermarks stash_catch_up : Code
  stash_waiting_view_change stash_waiting_first_batch_in_view : Code

pub data Reason : Type 0 where
  incorrect_instance incorrect_pp_seq_no outside_watermarks future_view old_view catching_up :
      Reason
  already_ordered already_stable waiting_for_new_view waiting_first_batch_in_view non_master :
      Reason
  view_change_finished : Reason

abbrev pub Verdict : Type 0
Verdict = Code × Option Reason

abbrev pub refuse : Code → Reason → Verdict
refuse code reason = (code, some reason)

abbrev pub accepted : Verdict
accepted = (Code.process, none)

-- `result != PROCESS` is tested by a match on the code.
abbrev pub is_process : Code → Bool
is_process Code.process = true
is_process _ = false
