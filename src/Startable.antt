-- ===== src/Startable.antt =====
-- plenum/common/startable.py: the modes of a node by their numbers, and its statuses.
use indy_plenum.Prelude.{ℕ, Bool, true, false, leb, Option, none, some}

pub data Mode : Type 0 where
  starting discovering discovered syncing synced participating : Mode

abbrev pub mode_value : Mode → ℕ
mode_value Mode.starting = 100
mode_value Mode.discovering = 200
mode_value Mode.discovered = 300
mode_value Mode.syncing = 400
mode_value Mode.synced = 410
mode_value Mode.participating = 500

unfoldable pub is_done_syncing : Option Mode → Bool
is_done_syncing none = false
is_done_syncing (some mode) = leb (mode_value Mode.synced) (mode_value mode)

pub data Status : Type 0 where
  stopped starting started_hungry started stopping : Status

-- `node_status in Status.ready()`
unfoldable pub is_ready_status : Status → Bool
is_ready_status Status.started_hungry = true
is_ready_status Status.started = true
is_ready_status _ = false
