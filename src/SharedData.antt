-- ===== src/SharedData.antt =====
-- `ConsensusSharedData` of plenum/server/consensus/consensus_shared_data.py: the state that the
-- ordering, checkpoint and view change services of a replica share. Not here are the collections that
-- only the 3PC part of the ordering service uses (`requests`, `sent_preprepares`, `prepares`,
-- `commits`, `requested_pre_prepares`, `last_batch_timestamp` and two legacy fields).
use indy_plenum.Prelude.{
  ℕ, ◌+◌, String, List, [], Option, none, some, Bool, true, false, if◌then◌else◌, ◌==◌, ltb, ◌=?◌,
  string_eq, length, get_last?, insort,
}
use indy_plenum.Quorums.{Quorums, quorums}
use indy_plenum.Messages.{BatchId, Checkpoint}
use indy_plenum.Startable.{Mode, Status, is_done_syncing, is_ready_status, mode_value}
use indy_plenum.ViewChange.Storages.{
  NewViewStore, VotesForView, update_quorums, update_new_view_quorums,
}

pub record SharedData : Type 0 where
  pub name : String
  pub inst_id : ℕ
  pub view_no : ℕ
  pub waiting_for_new_view : Bool
  pub is_master : Bool
  pub last_ordered_3pc : ℕ × ℕ
  pub primary_name : Option String
  pub stable_checkpoint : ℕ
  pub checkpoints : List Checkpoint
  pub preprepared : List BatchId
  pub prepared : List BatchId
  pub validators : List String
  pub quorums : Quorums
  pub new_view_votes : NewViewStore
  pub view_change_votes : VotesForView
  pub low_watermark : ℕ
  pub log_size : ℕ
  pub high_watermark : ℕ
  pub pp_seq_no : ℕ
  pub node_mode : Mode
  pub node_status : Status
  pub prev_view_prepare_cert : ℕ
  pub master_reordered_after_vc : Bool

-- The order of `SortedListWithKey(key=lambda checkpoint: checkpoint.seqNoEnd)`.
abbrev pub checkpoint_lt : Checkpoint → Checkpoint → Bool
checkpoint_lt a b = ltb a.seq_no_end b.seq_no_end

abbrev pub initial_checkpoint_of : ℕ → Checkpoint
initial_checkpoint_of inst_id = record {
  inst_id = inst_id;
  view_no = 0;
  seq_no_start = 0;
  seq_no_end = 0;
  digest = none;
}

-- `__init__`. The quorums that `set_validators` computes are those of the storages too.
unfoldable pub shared_data :
    (name : String) (validators : List String) (inst_id : ℕ) (is_master : Bool) (log_size : ℕ)
    → SharedData
unfolding quorums
shared_data name validators inst_id is_master log_size =
    let q = quorums (length validators) in
    record {
      name = name;
      inst_id = inst_id;
      view_no = 0;
      waiting_for_new_view = false;
      is_master = is_master;
      last_ordered_3pc = (0, 0);
      primary_name = none;
      stable_checkpoint = 0;
      checkpoints = insort checkpoint_lt (initial_checkpoint_of inst_id) [];
      preprepared = [];
      prepared = [];
      validators = validators;
      quorums = q;
      new_view_votes = record { votes = []; quorums = q; new_view = none };
      view_change_votes = record { votes = []; quorums = q };
      low_watermark = 0;
      log_size = log_size;
      high_watermark = 0 + log_size;
      pp_seq_no = 0;
      node_mode = Mode.starting;
      node_status = Status.starting;
      prev_view_prepare_cert = 0;
      master_reordered_after_vc = true;
    }

unfoldable pub set_validators : SharedData → List String → SharedData
unfolding quorums update_quorums update_new_view_quorums
set_validators d validators =
    let q = if d.quorums.n == length validators then d.quorums else quorums (length validators) in
    record d {
      validators = validators;
      quorums = q;
      view_change_votes = update_quorums d.view_change_votes q;
      new_view_votes = update_new_view_quorums d.new_view_votes q;
    }

-- `None` where the primary is not known.
unfoldable pub is_primary : SharedData → Option Bool
is_primary d = elim d.primary_name [
  | none ↦ none
  | some primary_name ↦ some (primary_name =? d.name)
]

-- The property as a condition: `None` counts as false.
abbrev pub truthy : Option Bool → Bool
truthy none = false
truthy (some b) = b

unfoldable pub is_participating : SharedData → Bool
is_participating d = mode_value d.node_mode == mode_value Mode.participating

unfoldable pub is_synced : SharedData → Bool
unfolding is_done_syncing
is_synced d = is_done_syncing (some d.node_mode)

unfoldable pub is_ready : SharedData → Bool
unfolding is_ready_status
is_ready d = is_ready_status d.node_status

unfoldable pub total_nodes : SharedData → ℕ
total_nodes d = length d.validators

abbrev pub initial_checkpoint : SharedData → Checkpoint
initial_checkpoint d = initial_checkpoint_of d.inst_id

unfoldable pub last_checkpoint : SharedData → Option Checkpoint
last_checkpoint d = get_last? d.checkpoints
