-- ===== src/Checkpoints/Votes.antt =====
-- A checkpoint becomes stable on the votes of a quorum, and on nothing less.
use indy_plenum.Prelude.{String, List, add, insert, string_eq}
use indy_plenum.Messages.{Checkpoint}
use indy_plenum.Checkpoints.Service.{key_eq, CheckpointState, checkpoint_key, votes_of}

-- The state after the vote of a sender was recorded.
abbrev pub with_vote : Checkpoint → String → CheckpointState → CheckpointState
with_vote msg sender s =
    let key = checkpoint_key msg in
    record s {
      received_checkpoints =
          insert key (add sender (votes_of key s.received_checkpoints)) s.received_checkpoints;
    }

-- The voters for the checkpoint of a message, with its sender.
abbrev pub voters : Checkpoint → String → CheckpointState → List String
voters msg sender s = add sender (votes_of (checkpoint_key msg) s.received_checkpoints)
