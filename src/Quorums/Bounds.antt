-- ===== src/Quorums/Bounds.antt =====
-- How many faulty nodes the quorums of plenum/server/quorums.py tolerate.
use indy_plenum.Prelude.{ℕ, ◌+◌, ◌-◌, ◌*◌, ◌≤◌, ◌≡◌, true, leb, arith}
use indy_plenum.Quorums.{Quorum, Quorums, quorums, is_reached, get_max_failures}

-- In a pool of at least one node `get_max_failures` is the largest number of faulty nodes f for
-- which 3f + 1 nodes are no more than the pool has.
pub get_max_failures_bounds :
    (n : ℕ) → 1 ≤ n → (3 * get_max_failures n + 1 ≤ n) × (n ≤ 3 * get_max_failures n + 3)
unfolding get_max_failures
get_max_failures_bounds n h = ground arith

-- What `quorums` promises for the values that the protocol waits for.
pub record IsLive (q : Quorums) (available : ℕ) : Type 0 where
  pub weak : is_reached q.weak available ≡ true
  pub strong : is_reached q.strong available ≡ true
  pub propagate : is_reached q.propagate available ≡ true
  pub prepare : is_reached q.prepare available ≡ true
  pub commit : is_reached q.commit available ≡ true
  pub reply : is_reached q.reply available ≡ true
  pub view_change : is_reached q.view_change available ≡ true
  pub election : is_reached q.election available ≡ true
  pub view_change_ack : is_reached q.view_change_ack available ≡ true
  pub view_change_done : is_reached q.view_change_done available ≡ true
  pub same_consistency_proof : is_reached q.same_consistency_proof available ≡ true
  pub consistency_proof : is_reached q.consistency_proof available ≡ true
  pub ledger_status : is_reached q.ledger_status available ≡ true
  pub ledger_status_last_3pc : is_reached q.ledger_status_last_3pc available ≡ true
  pub checkpoint : is_reached q.checkpoint available ≡ true
  pub timestamp : is_reached q.timestamp available ≡ true
  pub bls_signatures : is_reached q.bls_signatures available ≡ true
  pub observer_data : is_reached q.observer_data available ≡ true
  pub backup_instance_faulty : is_reached q.backup_instance_faulty available ≡ true

-- In a pool of n ≥ 1 nodes every quorum is reached by the messages of n - f nodes.
pub quorums-IsLive : (n : ℕ) → 1 ≤ n → IsLive (quorums n) (n - get_max_failures n)
unfolding quorums is_reached
quorums-IsLive n h =
    let b = get_max_failures_bounds n h in
    let f = get_max_failures n in
    let small : leb (f + 1) (n - f) ≡ true = ground (arith, b) in
    let exact : leb (n - f) (n - f) ≡ true = ground arith in
    let one_less : leb (n - f - 1) (n - f) ≡ true = ground arith in
    record {
      weak = small;
      strong = exact;
      propagate = small;
      prepare = one_less;
      commit = exact;
      reply = small;
      view_change = exact;
      election = exact;
      view_change_ack = one_less;
      view_change_done = exact;
      same_consistency_proof = small;
      consistency_proof = small;
      ledger_status = one_less;
      ledger_status_last_3pc = small;
      checkpoint = one_less;
      timestamp = small;
      bls_signatures = exact;
      observer_data = small;
      backup_instance_faulty = small;
    }

-- More messages reach what fewer reach.
pub is_reached_mono : (q : Quorum) (a b : ℕ) → a ≤ b → is_reached q a ≡ true → is_reached q b ≡ true
unfolding is_reached
is_reached_mono q a b h r = ground arith
