-- ===== src/Messages.antt =====
-- The messages of plenum/common/messages/node_messages.py that the modelled services exchange, and
-- plenum/server/consensus/batch_id.py. A digest or a Merkle root is the text that stands for it. Two
-- messages are equal if their fields are; a `BatchID` is a named tuple, compared as Python's tuples.
use indy_plenum.Prelude.{
  ℕ, String, List, Option, Bool, true, false, ◌≡◌, ◌↔◌, Eq, ◌=?◌, ◌==◌, ltb, if◌then◌else◌,
  string_lt, option_beq, option_beq_iff, string_eq, arith, refl, ◌&&◌, =?_refl,
}

pub record BatchId : Type 0 where
  pub view_no : ℕ
  pub pp_view_no : ℕ
  pub pp_seq_no : ℕ
  pub pp_digest : String

abbrev pub batch_beq : BatchId → BatchId → Bool
batch_beq a b =
    a.view_no == b.view_no
    && (a.pp_view_no == b.pp_view_no && (a.pp_seq_no == b.pp_seq_no && a.pp_digest =? b.pp_digest))

pub batch_beq_iff : (a b : BatchId) → (batch_beq a b ≡ true) ↔ (a ≡ b)
batch_beq_iff a b = (
  λ h. ground (arith, (string_eq.beq_iff a.pp_digest b.pp_digest).0),
  λ h. rw h (ground (arith, =?_refl b.pp_digest)),
)

instance abbrev pub batch_eq : Eq BatchId
batch_eq = record { beq = batch_beq; beq_iff = batch_beq_iff }

-- `a < b` on the tuples (view_no, pp_view_no, pp_seq_no, pp_digest)
unfoldable pub batch_lt : BatchId → BatchId → Bool
batch_lt a b =
    if ltb a.view_no b.view_no
    then true
    else if ltb b.view_no a.view_no
    then false
    else if ltb a.pp_view_no b.pp_view_no
    then true
    else if ltb b.pp_view_no a.pp_view_no
    then false
    else if ltb a.pp_seq_no b.pp_seq_no
    then true
    else if ltb b.pp_seq_no a.pp_seq_no
    then false
    else string_lt a.pp_digest b.pp_digest

pub record Checkpoint : Type 0 where
  pub inst_id : ℕ
  pub view_no : ℕ
  pub seq_no_start : ℕ
  pub seq_no_end : ℕ
  pub digest : Option String

abbrev pub checkpoint_beq : Checkpoint → Checkpoint → Bool
checkpoint_beq a b =
    a.inst_id == b.inst_id
    && (a.view_no == b.view_no
        && (a.seq_no_start == b.seq_no_start
            && (a.seq_no_end == b.seq_no_end && option_beq a.digest b.digest)))

pub checkpoint_beq_iff : (a b : Checkpoint) → (checkpoint_beq a b ≡ true) ↔ (a ≡ b)
checkpoint_beq_iff a b = (
  λ h. ground (arith, (option_beq_iff a.digest b.digest).0),
  λ h. rw h (ground (arith, (option_beq_iff b.digest b.digest).1 refl)),
)

instance abbrev pub checkpoint_eq : Eq Checkpoint
checkpoint_eq = record { beq = checkpoint_beq; beq_iff = checkpoint_beq_iff }

pub record ViewChange : Type 0 where
  pub view_no : ℕ
  pub stable_checkpoint : ℕ
  pub prepared : List BatchId
  pub preprepared : List BatchId
  pub checkpoints : List Checkpoint

pub record ViewChangeAck : Type 0 where
  pub view_no : ℕ
  pub name : String
  pub digest : String

-- `primary` is there only in a NewView that was requested from other nodes.
pub record NewView : Type 0 where
  pub view_no : ℕ
  pub view_changes : List (String × String)
  pub checkpoint : Checkpoint
  pub batches : List BatchId
  pub primary : Option String
