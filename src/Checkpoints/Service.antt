-- ===== src/Checkpoints/Service.antt =====
-- `CheckpointService` of plenum/server/consensus/checkpoint_service.py. The values `CHK_FREQ` and
-- `LOG_SIZE` of the configuration and the audit ledger are parameters. A handler returns the new state
-- and what it sent. `process_all_stashed` is an event: the router feeds the stashed messages to the
-- handlers again, each as a step of its own.
use indy_plenum.Prelude.{
  ℕ, suc, ◌+◌, String, List, [], ◌∷◌, ◌++◌, Option, none, some, Bool, true, ◌&&◌, not,
  if◌then◌else◌, ◌==◌, ltb, is_nonneg, Eq, string_eq, option_beq, option_beq_iff, ◌↔◌, ◌≡◌, any,
  length, select, lookup, insert, insort, arith, refl,
}
use indy_plenum.Quorums.{is_reached}
use indy_plenum.Keys.{compare_3pc_keys}
use indy_plenum.Messages.{Checkpoint, checkpoint_eq}
use indy_plenum.SharedData.{SharedData, checkpoint_lt}
use indy_plenum.Verdict.{Code}
use indy_plenum.Events.{Event}

pub record CheckpointKey : Type 0 where
  pub view_no : ℕ
  pub pp_seq_no : ℕ
  pub digest : Option String

abbrev pub key_beq : CheckpointKey → CheckpointKey → Bool
key_beq a b = a.view_no == b.view_no && (a.pp_seq_no == b.pp_seq_no && option_beq a.digest b.digest)

pub key_beq_iff : (a b : CheckpointKey) → (key_beq a b ≡ true) ↔ (a ≡ b)
key_beq_iff a b = (
  λ h. ground (arith, (option_beq_iff a.digest b.digest).0),
  λ h. rw h (ground (arith, (option_beq_iff b.digest b.digest).1 refl)),
)

instance abbrev pub key_eq : Eq CheckpointKey
key_eq = record { beq = key_beq; beq_iff = key_beq_iff }

-- What the service reads of a transaction of the audit ledger.
pub record AuditTxn : Type 0 where
  pub view_no : ℕ
  pub pp_seq_no : ℕ

-- The transactions, the newest first, and the text of the root of the tree over the oldest n.
pub record AuditLedger : Type 0 where
  pub txns : List AuditTxn
  pub root : ℕ → String

pub record CheckpointState : Type 0 where
  pub data' : SharedData
  pub received_checkpoints : List (CheckpointKey × List String)

abbrev pub Step : Type 0
Step = CheckpointState × List Event

-- One handler's part after another.
infixl 20 ◌▸◌
abbrev pub ◌▸◌ : Step → (CheckpointState → Step) → Step
step ▸ next = let (s, sent) = step in let (s', more) = next s in (s', sent ++ more)

abbrev pub checkpoint_key : Checkpoint → CheckpointKey
checkpoint_key c = record { view_no = c.view_no; pp_seq_no = c.seq_no_end; digest = c.digest }

-- `irange_key(min_key=pp_seq_no, max_key=pp_seq_no)`
abbrev pub checkpoints_at : ℕ → List Checkpoint → List Checkpoint
checkpoints_at pp_seq_no = select (λ cp. cp.seq_no_end == pp_seq_no)

unfoldable pub have_own_checkpoint : CheckpointKey → SharedData → Bool
have_own_checkpoint key d =
    any (λ cp. cp.view_no == key.view_no && option_beq cp.digest key.digest)
      (checkpoints_at key.pp_seq_no d.checkpoints)

abbrev pub votes_of : CheckpointKey → List (CheckpointKey × List String) → List String
votes_of key received = elim (lookup key received) [ some votes ↦ votes | none ↦ [] ]

-- The read of `_received_checkpoints[key]` adds a missing key.
unfoldable pub have_quorum_on_received_checkpoint :
    CheckpointKey → CheckpointState → Bool × CheckpointState
unfolding is_reached
have_quorum_on_received_checkpoint key s = (
  is_reached s.data'.quorums.checkpoint (length (votes_of key s.received_checkpoints)),
  elim (lookup key s.received_checkpoints) [
    | some votes ↦ s
    | none ↦ record s { received_checkpoints = insert key [] s.received_checkpoints }
  ],
)

unfoldable pub is_below_3pc_key : CheckpointKey → ℕ × ℕ → Bool
unfolding compare_3pc_keys
is_below_3pc_key cp key = is_nonneg (compare_3pc_keys (cp.view_no, cp.pp_seq_no) key)

unfoldable pub remove_received_till : ℕ × ℕ → CheckpointState → CheckpointState
unfolding is_below_3pc_key
remove_received_till till s = record s {
  received_checkpoints =
      select (λ (key, votes). not (is_below_3pc_key key till)) s.received_checkpoints;
}

module _ (chk_freq log_size : ℕ) (audit : AuditLedger) where
  unfoldable pub set_watermarks : ℕ → Option ℕ → CheckpointState → Step
  set_watermarks low_watermark high_watermark s = (
    record {
      data' = record (s.data') {
        low_watermark = low_watermark;
        high_watermark = elim high_watermark [ none ↦ low_watermark + log_size | some high ↦ high ];
      };
      received_checkpoints = s.received_checkpoints;
    },
    Event.process_all_stashed Code.stash_watermarks ∷ [],
  )

  -- The loop of `_audit_txn_by_pp_seq_no`: the transaction that was read last, and its number, which
  -- is 0 if none has the `pp_seq_no`.
  pub audit_txn_by : ℕ → Option AuditTxn → List AuditTxn → Option AuditTxn × ℕ
  audit_txn_by pp_seq_no txn [] = (txn, 0)
  audit_txn_by pp_seq_no txn (t ∷ older) =
      let rest = audit_txn_by pp_seq_no (some t) older in
      if t.pp_seq_no == pp_seq_no then (some t, suc (length older)) else rest

  unfoldable pub create_checkpoint_from_audit_ledger : ℕ → SharedData → Checkpoint
  unfolding audit_txn_by
  create_checkpoint_from_audit_ledger pp_seq_no d =
      let (txn, seq_no) = audit_txn_by pp_seq_no none audit.txns in
      record {
        inst_id = d.inst_id;
        view_no = elim txn [ none ↦ d.view_no | some t ↦ t.view_no ];
        seq_no_start = 0;
        seq_no_end = pp_seq_no;
        digest = if seq_no == 0 then none else some (audit.root seq_no);
      }

  -- The own checkpoints with one at the number that becomes stable.
  unfoldable pub with_checkpoint_at : ℕ → SharedData → List Checkpoint
  unfolding create_checkpoint_from_audit_ledger
  with_checkpoint_at pp_seq_no d =
      if length (checkpoints_at pp_seq_no d.checkpoints) == 0
      then insort checkpoint_lt (create_checkpoint_from_audit_ledger pp_seq_no d) d.checkpoints
      else d.checkpoints

  -- They are what is left when the loop has removed those below the number.
  unfoldable pub stable_checkpoints : ℕ → SharedData → List Checkpoint
  unfolding with_checkpoint_at
  stable_checkpoints pp_seq_no d =
      select (λ cp. not (ltb cp.seq_no_end pp_seq_no)) (with_checkpoint_at pp_seq_no d)

  unfoldable pub mark_checkpoint_stable : ℕ → CheckpointState → Step
  unfolding stable_checkpoints set_watermarks remove_received_till
  mark_checkpoint_stable pp_seq_no s =
      (
        record s {
          data' = record (s.data') {
            stable_checkpoint = pp_seq_no;
            checkpoints = stable_checkpoints pp_seq_no s.data';
          };
        },
        [],
      )
      ▸ set_watermarks pp_seq_no none
      ▸ λ s'. (
        remove_received_till (s'.data'.view_no, pp_seq_no) s',
        Event.checkpoint_stabilized (s'.data'.view_no, pp_seq_no) ∷ [],
      )

  unfoldable pub try_to_stabilize_checkpoint : CheckpointKey → CheckpointState → Step
  try_to_stabilize_checkpoint key s =
      let (quorum, s') = have_quorum_on_received_checkpoint key s in
      if not quorum
      then (s', [])
      else if not (have_own_checkpoint key s'.data')
      then (s', [])
      else mark_checkpoint_stable key.pp_seq_no s'
