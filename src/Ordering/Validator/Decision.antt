-- ===== src/Ordering/Validator/Decision.antt =====
-- When the validator lets a 3PC message through, and when it only postpones it.
use indy_plenum.Prelude.{◌+◌, ◌≤◌, ◌<◌, some, true, false, ◌≡◌, ◌≢◌, ◌↔◌, ◌⊎◌, arith}
use indy_plenum.SharedData.{SharedData, is_participating}
use indy_plenum.Keys.{compare_3pc_keys}
use indy_plenum.Verdict.{accepted}
use indy_plenum.Ordering.Validator.{ThreePcKey, validate_3pc}

-- The conditions under which a 3PC message may be processed, independent of the order of the checks.
pub record IsAdmissible (d : SharedData) (msg : ThreePcKey) : Type 0 where
  pub instance' : msg.inst_id ≡ some d.inst_id
  pub view : msg.view_no ≡ d.view_no
  pub participating : is_participating d ≡ true
  pub not_waiting : d.waiting_for_new_view ≡ false
  pub above_low : d.low_watermark < msg.pp_seq_no
  pub below_high : msg.pp_seq_no ≤ d.high_watermark
  pub not_ordered :
      (d.last_ordered_3pc.1 < msg.pp_seq_no) ⊎ (msg.pp_seq_no ≤ d.prev_view_prepare_cert)
  pub first_batch :
      (msg.view_no ≡ 0)
      ⊎ (msg.pp_seq_no ≤ d.prev_view_prepare_cert + 1)
      ⊎ (d.prev_view_prepare_cert + 1 ≤ d.last_ordered_3pc.1)

validate_3pc-IsAdmissible :
    (d : SharedData) (msg : ThreePcKey) → IsAdmissible d msg → validate_3pc d msg ≡ accepted
unfolding validate_3pc compare_3pc_keys
validate_3pc-IsAdmissible d msg h = ground arith

IsAdmissible-of :
    (d : SharedData) (msg : ThreePcKey) → validate_3pc d msg ≡ accepted → IsAdmissible d msg
unfolding validate_3pc compare_3pc_keys
IsAdmissible-of d msg h = ground arith

-- A 3PC message is processed exactly if it is of this instance and of the current view, the node
-- participates and waits for no NewView, the number lies between the watermarks, it is not ordered
-- yet or is ordered again after a view change, and no first batch of the view is awaited before it.
pub validate_3pc_iff :
    (d : SharedData) (msg : ThreePcKey) → (validate_3pc d msg ≡ accepted) ↔ IsAdmissible d msg
validate_3pc_iff d msg = (IsAdmissible-of d msg, validate_3pc-IsAdmissible d msg)

-- A 3PC message that is of no use any more: of another instance, not above the low watermark, of an
-- old view, or ordered already and not to be ordered again.
abbrev pub IsStale : SharedData → ThreePcKey → Type 0
IsStale d msg =
    (msg.inst_id ≢ some d.inst_id)
    ⊎ (msg.pp_seq_no ≤ d.low_watermark)
    ⊎ (msg.view_no < d.view_no)
    ⊎ ((msg.view_no ≡ d.view_no)
        × (is_participating d ≡ true)
        × (d.waiting_for_new_view ≡ false)
        × (msg.pp_seq_no ≤ d.high_watermark)
        × (msg.pp_seq_no ≤ d.last_ordered_3pc.1)
        × (d.prev_view_prepare_cert < msg.pp_seq_no))
