-- ===== src/Checkpoints/Stable.antt =====
-- What it means that a checkpoint is stable, and which handlers make one stable.
use native.Mathlib.Nat.{div-mul-le_self, lt-div-mul-add, mul-mod_left}
use indy_plenum.Prelude.{
  contains_of_In, not_contains, ℕ, ◌+◌, ◌*◌, ◌/◌, ◌%◌, ◌≤◌, ◌<◌, String, List, [], none, Bool, true,
  not, ◌≡◌, refl, inl, inr, In, In-select, In-select_of, In-insort_self, Bool-cases, length, ◌==◌,
  ltb, arith, insort, exists_of_count, length-select,
}
use indy_plenum.Keys.{compare_3pc_keys}
use indy_plenum.Messages.{Checkpoint, checkpoint_eq}
use indy_plenum.SharedData.{SharedData, checkpoint_lt}
use indy_plenum.Events.{NewViewAccepted}
use indy_plenum.Checkpoints.Service.{
  CheckpointKey, key_eq, AuditLedger, CheckpointState, checkpoints_at, is_below_3pc_key,
  set_watermarks, mark_checkpoint_stable, stable_checkpoints, with_checkpoint_at,
  create_checkpoint_from_audit_ledger, remove_received_till,
}
use indy_plenum.Checkpoints.Handlers.{caught_up_till_3pc, process_new_view_accepted}

-- The state right after the number p became stable: the watermarks are p and p + LOG_SIZE, the own
-- checkpoints start with p, and the votes for p and below are gone.
pub record IsStableAt (log_size p : ℕ) (s : CheckpointState) : Type 0 where
  pub stable : s.data'.stable_checkpoint ≡ p
  pub low : s.data'.low_watermark ≡ p
  pub high : s.data'.high_watermark ≡ p + log_size
  pub held : (cp : Checkpoint) × In cp s.data'.checkpoints × (cp.seq_no_end ≡ p)
  pub none_below : (cp : Checkpoint) → In cp s.data'.checkpoints → p ≤ cp.seq_no_end
  pub votes_above :
      (key : CheckpointKey) (votes : List String)
      → In (key, votes) s.received_checkpoints
      → p < key.pp_seq_no

module _ (chk_freq log_size : ℕ) (audit : AuditLedger) where
  -- The own checkpoints then hold one at the number.
  held_at :
      (p : ℕ) (d : SharedData)
      → (cp : Checkpoint) × In cp (stable_checkpoints chk_freq log_size audit p d)
        × (cp.seq_no_end ≡ p)
  unfolding stable_checkpoints
  held_at p d =
      let keep = λ (cp : Checkpoint). not (ltb cp.seq_no_end p) in
      let at = λ (cp : Checkpoint). cp.seq_no_end == p in
      let made = create_checkpoint_from_audit_ledger chk_freq log_size audit p d in
      elim (Bool-cases (length (checkpoints_at p d.checkpoints) == 0)) [
        | inl t ↦ (
          made,
          rw t (
              In-select_of keep made (insort checkpoint_lt made d.checkpoints) (ground arith)
                (In-insort_self checkpoint_lt made d.checkpoints)),
          refl,
        )
        | inr t ↦
            let (cp, m, e) =
              exists_of_count at d.checkpoints (ground (arith, length-select at d.checkpoints)) in
            (cp, rw t (In-select_of keep cp d.checkpoints (ground arith) m), ground arith)
      ]

  none_below_at :
      (p : ℕ) (d : SharedData) (cp : Checkpoint)
      → In cp (stable_checkpoints chk_freq log_size audit p d)
      → p ≤ cp.seq_no_end
  unfolding stable_checkpoints
  none_below_at p d cp m =
      let keep = λ (cp : Checkpoint). not (ltb cp.seq_no_end p) in
      let (h, _) = In-select keep cp (with_checkpoint_at chk_freq log_size audit p d) m in
      ground arith

  abbrev above : ℕ → CheckpointState → CheckpointKey × List String → Bool
  above p s (key, votes) = not (is_below_3pc_key key (s.data'.view_no, p))

  votes_above_at :
      (p : ℕ) (s : CheckpointState) (key : CheckpointKey) (votes : List String)
      → In (key, votes) (remove_received_till (s.data'.view_no, p) s).received_checkpoints
      → p < key.pp_seq_no
  unfolding remove_received_till compare_3pc_keys
  votes_above_at p s key votes m =
      let (h, _) = In-select (above p s) (key, votes) s.received_checkpoints m in ground arith

  -- Whatever the state was, after `_mark_checkpoint_stable` the number is stable.
  pub mark_checkpoint_stable-IsStableAt :
      (p : ℕ) (s : CheckpointState)
      → IsStableAt log_size p (mark_checkpoint_stable chk_freq log_size audit p s).0
  unfolding mark_checkpoint_stable
  mark_checkpoint_stable-IsStableAt p s = record {
    stable = refl;
    low = refl;
    high = refl;
    held = held_at p s.data';
    none_below = none_below_at p s.data';
    votes_above = λ key votes m. votes_above_at p s key votes m;
  }

  IsStableAt-set_watermarks :
      (p : ℕ) (s : CheckpointState)
      → IsStableAt log_size p s
      → IsStableAt log_size p (set_watermarks chk_freq log_size audit p none s).0
  unfolding set_watermarks
  IsStableAt-set_watermarks p s h = record {
    stable = h.stable;
    low = refl;
    high = refl;
    held = h.held;
    none_below = h.none_below;
    votes_above = h.votes_above;
  }

  -- After a catch-up the last multiple of `CHK_FREQ` that was caught up with is stable.
  pub caught_up_till_3pc-IsStableAt :
      (till : ℕ × ℕ) (s : CheckpointState)
      → 0 < chk_freq
      → (p : ℕ) × IsStableAt log_size p (caught_up_till_3pc chk_freq log_size audit till s).0
        × (p % chk_freq ≡ 0)
        × (p ≤ till.1)
        × (till.1 < p + chk_freq)
  unfolding caught_up_till_3pc
  caught_up_till_3pc-IsStableAt till s h = (
    till.1 / chk_freq * chk_freq,
    mark_checkpoint_stable-IsStableAt (till.1 / chk_freq * chk_freq) s,
    mul-mod_left (till.1 / chk_freq) chk_freq,
    div-mul-le_self till.1 chk_freq,
    lt-div-mul-add h,
  )

  -- On the master an accepted NewView makes its checkpoint stable, if the node holds that checkpoint;
  -- otherwise nothing changes and nothing is sent.
  pub process_new_view_accepted_master :
      (msg : NewViewAccepted) (s : CheckpointState)
      → s.data'.is_master ≡ true
      → (In msg.checkpoint s.data'.checkpoints
          → IsStableAt log_size msg.checkpoint.seq_no_end
              (process_new_view_accepted chk_freq log_size audit msg s).0)
        × (¬ In msg.checkpoint s.data'.checkpoints
            → process_new_view_accepted chk_freq log_size audit msg s ≡ (s, []))
  unfolding process_new_view_accepted
  process_new_view_accepted_master msg s master = (
    λ m.
        let p = msg.checkpoint.seq_no_end in
        let (s', _) = mark_checkpoint_stable chk_freq log_size audit p s in
        simp (master, contains_of_In msg.checkpoint s.data'.checkpoints m)
          (IsStableAt-set_watermarks p s' (mark_checkpoint_stable-IsStableAt p s)),
    λ n. simp (master, not_contains msg.checkpoint s.data'.checkpoints n),
  )
