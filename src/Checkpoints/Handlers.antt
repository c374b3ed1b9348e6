-- ===== src/Checkpoints/Handlers.antt =====
-- The message handlers of `CheckpointService` (plenum/server/consensus/checkpoint_service.py), over the
-- parts that Checkpoints/Service.antt models.
use mathlib.Core.List.{reverse}
use indy_plenum.Prelude.{
  ℕ, ◌*◌, ◌/◌, ◌%◌, ◌^◌, ◌-◌, String, List, [], ◌∷◌, Option, none, some, Bool, true, false, ◌&&◌,
  not, if◌then◌else◌, ◌==◌, ltb, leb, is_pos, string_eq, contains, add, length, select, insert,
  keys, insort, sorted, get_last?,
}
use indy_plenum.Quorums.{is_reached}
use indy_plenum.Keys.{compare_3pc_keys}
use indy_plenum.Messages.{Checkpoint, BatchId, checkpoint_eq}
use indy_plenum.SharedData.{checkpoint_lt, initial_checkpoint, is_primary, truthy}
use indy_plenum.Verdict.{Verdict, is_process}
use indy_plenum.Events.{Event, NewViewAccepted}
use indy_plenum.Checkpoints.Validator.{validate}
use indy_plenum.Checkpoints.Service.{
  CheckpointKey, key_eq, AuditLedger, CheckpointState, Step, ◌▸◌, checkpoint_key,
  have_own_checkpoint, votes_of, is_below_3pc_key, set_watermarks, mark_checkpoint_stable,
  try_to_stabilize_checkpoint,
}

abbrev pub stashed_checkpoints_before_catchup : ℕ
stashed_checkpoints_before_catchup = 1

-- `sys.maxsize` of a 64-bit Python
abbrev maxsize : ℕ
maxsize = 2 ^ 63 - 1

unfoldable pub unknown_stabilized_checkpoints : CheckpointState → List CheckpointKey
unfolding is_reached have_own_checkpoint is_below_3pc_key
unknown_stabilized_checkpoints s =
    select
      (λ key.
        is_reached s.data'.quorums.checkpoint (length (votes_of key s.received_checkpoints))
        && (not (have_own_checkpoint key s.data')
            && not (is_below_3pc_key key s.data'.last_ordered_3pc)))
      (keys s.received_checkpoints)

-- The key of the sort in `_start_catchup_if_needed`.
abbrev key_lt : CheckpointKey → CheckpointKey → Bool
key_lt a b =
    if ltb a.view_no b.view_no
    then true
    else if ltb b.view_no a.view_no
    then false
    else ltb a.pp_seq_no b.pp_seq_no

-- `_reset_checkpoints`
unfoldable pub reset_checkpoints : CheckpointState → CheckpointState
reset_checkpoints s = record s {
  data' = record (s.data') { checkpoints = initial_checkpoint s.data' ∷ [] };
}

-- `_remove_received_checkpoints` with no key
unfoldable pub remove_all_received : CheckpointState → CheckpointState
remove_all_received s = record s { received_checkpoints = [] }

module _ (chk_freq log_size : ℕ) (audit : AuditLedger) where
  unfoldable pub caught_up_till_3pc : ℕ × ℕ → CheckpointState → Step
  caught_up_till_3pc till s =
      mark_checkpoint_stable chk_freq log_size audit (till.1 / chk_freq * chk_freq) s

  -- With more unknown keys than the limit there is a last one, so the case `none` is not met.
  pub adjust_backup : Option CheckpointKey → CheckpointState → Step
  adjust_backup none s = (s, [])
  adjust_backup (some last_key) s =
      let key_3pc : ℕ × ℕ = (s.data'.view_no, last_key.pp_seq_no) in
      (s, Event.need_backup_catchup s.data'.inst_id key_3pc ∷ []) ▸ caught_up_till_3pc key_3pc

  unfoldable pub start_catchup_if_needed : CheckpointKey → CheckpointState → Step
  start_catchup_if_needed key s =
      let unknown = unknown_stabilized_checkpoints s in
      if have_own_checkpoint key s.data'
      then (s, [])
      else if leb (length unknown) stashed_checkpoints_before_catchup
      then (s, [])
      else if s.data'.is_master
      then (if not (truthy (is_primary s.data'))
          then (s, Event.need_master_catchup ∷ [])
          else (s, []))
      else adjust_backup (get_last? (sorted key_lt unknown)) s

  -- The verdict is `none` where the handler returns `None`, after it processed the message.
  unfoldable pub process_checkpoint : Checkpoint → String → CheckpointState → Option Verdict × Step
  process_checkpoint msg sender s =
      let verdict = validate s.data' msg in
      let key = checkpoint_key msg in
      if not (is_process verdict.0) then (some verdict, (s, [])) else (
        none,
        (
          record s {
            received_checkpoints =
                insert key (add sender (votes_of key s.received_checkpoints))
                  s.received_checkpoints;
          },
          [],
        )
            ▸ try_to_stabilize_checkpoint chk_freq log_size audit key
            ▸ start_catchup_if_needed key,
      )

  unfoldable pub do_checkpoint : ℕ → ℕ → Option String → CheckpointState → Step
  do_checkpoint pp_seq_no view_no audit_txn_root_hash s =
      let checkpoint : Checkpoint = record {
        inst_id = s.data'.inst_id;
        view_no = view_no;
        seq_no_start = 0;
        seq_no_end = pp_seq_no;
        digest = audit_txn_root_hash;
      } in
      (
        record s {
          data' = record (s.data') {
            checkpoints = insort checkpoint_lt checkpoint s.data'.checkpoints;
          };
        },
        Event.send_checkpoint checkpoint ∷ [],
      )

  unfoldable pub add_to_checkpoint : ℕ → ℕ → Option String → CheckpointState → Step
  add_to_checkpoint pp_seq_no view_no audit_txn_root_hash s =
      let key : CheckpointKey = record {
        view_no = view_no;
        pp_seq_no = pp_seq_no;
        digest = audit_txn_root_hash;
      } in
      if not (pp_seq_no % chk_freq == 0)
      then (s, [])
      else do_checkpoint pp_seq_no view_no audit_txn_root_hash s
        ▸ try_to_stabilize_checkpoint chk_freq log_size audit key

  -- The loop of `process_ordered` over the reversed list; `none` is its LogicError.
  pub ordered_loop : (pp_seq_no : ℕ) → Option String → List BatchId → CheckpointState → Option Step
  ordered_loop pp_seq_no root [] s = none
  ordered_loop pp_seq_no root (batch_id ∷ rest) s =
      let later = ordered_loop pp_seq_no root rest s in
      if batch_id.pp_seq_no == pp_seq_no
      then some (add_to_checkpoint batch_id.pp_seq_no batch_id.view_no root s)
      else later

  unfoldable pub process_ordered :
      (pp_seq_no : ℕ) → (audit_txn_root_hash : Option String) → CheckpointState → Option Step
  process_ordered pp_seq_no audit_txn_root_hash s =
      ordered_loop pp_seq_no audit_txn_root_hash (reverse s.data'.preprepared) s

  unfoldable pub update_watermark_from_3pc : CheckpointState → Step
  update_watermark_from_3pc s =
      if s.data'.last_ordered_3pc.0 == s.data'.view_no
      then set_watermarks chk_freq log_size audit s.data'.last_ordered_3pc.1 none s
      else (s, [])

  unfoldable pub process_backup_setup_last_ordered : (inst_id : ℕ) → CheckpointState → Step
  process_backup_setup_last_ordered inst_id s =
      if not (inst_id == s.data'.inst_id) then (s, []) else update_watermark_from_3pc s

  unfoldable pub catchup_clear_for_backup : CheckpointState → Step
  catchup_clear_for_backup s =
      set_watermarks chk_freq log_size audit 0 (some maxsize)
        (remove_all_received (reset_checkpoints s))

  -- What a backup replica resets when the view change is over.
  pub backup_new_view : CheckpointState → Step
  backup_new_view s =
      (record s { data' = record (s.data') { waiting_for_new_view = false; pp_seq_no = 0 } }, [])
      ▸ set_watermarks chk_freq log_size audit 0 none
      ▸ λ s'.
          let s'' = reset_checkpoints s' in
          (
            remove_all_received
                (record s'' { data' = record (s''.data') { stable_checkpoint = 0 } }),
            [],
          )

  unfoldable pub process_new_view_accepted : NewViewAccepted → CheckpointState → Step
  process_new_view_accepted msg s =
      let cp = msg.checkpoint in
      let applied : CheckpointState → Step =
        λ s'. (s', Event.new_view_checkpoints_applied msg ∷ []) in
      if s.data'.is_master
      then (if not (contains cp s.data'.checkpoints)
          then (s, [])
          else mark_checkpoint_stable chk_freq log_size audit cp.seq_no_end s
            ▸ set_watermarks chk_freq log_size audit cp.seq_no_end none
            ▸ applied)
      else backup_new_view s ▸ applied

  unfoldable pub process_catchup_finished :
      (last_caught_up_3pc master_last_ordered : ℕ × ℕ) → CheckpointState → Step
  process_catchup_finished last_caught_up_3pc master_last_ordered s =
      let moved =
        if is_pos (compare_3pc_keys master_last_ordered last_caught_up_3pc)
        then (if s.data'.is_master
            then caught_up_till_3pc last_caught_up_3pc s
            else if not (truthy (is_primary s.data'))
            then catchup_clear_for_backup s
            else (s, []))
        else (s, []) in
      moved ▸ λ s'.
      (s', Event.catchup_checkpoints_applied last_caught_up_3pc master_last_ordered ∷ [])
