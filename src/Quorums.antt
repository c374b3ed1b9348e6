-- ===== src/Quorums.antt =====
-- plenum/server/quorums.py and `getMaxFailures`, `getNoInstances` of plenum/common/util.py.
-- Where the source can compute -1 (no node at all), the quorum here is 0: `is_reached` tells them
-- apart for no count of messages. The float division of `getMaxFailures` is exact below 2 ^ 53.
pub mod Bounds
pub mod Intersection
mod Tests
use indy_plenum.Prelude.{ℕ, ◌+◌, ◌-◌, ◌/◌, Bool, leb, if◌then◌else◌}

unfoldable pub get_max_failures : ℕ → ℕ
get_max_failures node_count = if leb 4 node_count then (node_count - 1) / 3 else 0

unfoldable pub get_no_instances : ℕ → ℕ
unfolding get_max_failures
get_no_instances node_count = get_max_failures node_count + 1

pub record Quorum : Type 0 where
  pub value : ℕ

unfoldable pub is_reached : Quorum → ℕ → Bool
is_reached q msg_count = leb q.value msg_count

abbrev quorum : ℕ → Quorum
quorum value = record { value = value }

pub record Quorums : Type 0 where
  pub n : ℕ
  pub f : ℕ
  pub weak : Quorum
  pub strong : Quorum
  pub propagate : Quorum
  pub prepare : Quorum
  pub commit : Quorum
  pub reply : Quorum
  pub view_change : Quorum
  pub election : Quorum
  pub view_change_ack : Quorum
  pub view_change_done : Quorum
  pub same_consistency_proof : Quorum
  pub consistency_proof : Quorum
  pub ledger_status : Quorum
  pub ledger_status_last_3pc : Quorum
  pub checkpoint : Quorum
  pub timestamp : Quorum
  pub bls_signatures : Quorum
  pub observer_data : Quorum
  pub backup_instance_faulty : Quorum

-- `Quorums(n)`
unfoldable pub quorums : ℕ → Quorums
quorums n =
    let f = get_max_failures n in
    record {
      n = n;
      f = f;
      weak = quorum (f + 1);
      strong = quorum (n - f);
      propagate = quorum (f + 1);
      prepare = quorum (n - f - 1);
      commit = quorum (n - f);
      reply = quorum (f + 1);
      view_change = quorum (n - f);
      election = quorum (n - f);
      view_change_ack = quorum (n - f - 1);
      view_change_done = quorum (n - f);
      same_consistency_proof = quorum (f + 1);
      consistency_proof = quorum (f + 1);
      ledger_status = quorum (n - f - 1);
      ledger_status_last_3pc = quorum (f + 1);
      checkpoint = quorum (n - f - 1);
      timestamp = quorum (f + 1);
      bls_signatures = quorum (n - f);
      observer_data = quorum (f + 1);
      backup_instance_faulty = quorum (f + 1);
    }
