-- ===== src/ViewChange/Builder/Tests.antt =====
-- Inputs for `NewViewBuilder`: a pool of four nodes. In view 1 the batch 1 of view 0 was prepared
-- again, and the batch 2 not yet, when the view change to view 2 began.
use indy_plenum.Prelude.{
  ℕ, suc, zero, ◌+◌, List, [], ◌∷◌, some, none, ◌≡◌, ◌≤◌, ◌↔◌, In, ◌==◌, if◌then◌else◌, refl, inl,
  inr, arith, sorted,
}
use indy_plenum.Quorums.{quorums, get_max_failures, is_reached}
use indy_plenum.Messages.{BatchId, Checkpoint, ViewChange, batch_lt}
use indy_plenum.ViewChange.Builder.{calc_checkpoint, calc_batches, try_find_batch_for_pp_seq_no}
use indy_plenum.ViewChange.Builder.CheckpointChoice.{
  Qualifies, calc_checkpoint_sound, calc_checkpoint_highest,
}
use indy_plenum.ViewChange.Builder.Certified.{try_find_complete, IsCertified}
use indy_plenum.ViewChange.Builder.First.{try_find-IsFirst}
use indy_plenum.ViewChange.Builder.BatchChoice.{IsRun, calc_batches_iff}
use indy_plenum.ViewChange.Builder.Order.{batches_out_of_order, votes_order_decides}

abbrev start : Checkpoint
start = record { inst_id = 0; view_no = 0; seq_no_start = 0; seq_no_end = 0; digest = none }

abbrev first : BatchId
first = record { view_no = 1; pp_view_no = 0; pp_seq_no = 1; pp_digest = "a" }

abbrev second : BatchId
second = record { view_no = 0; pp_view_no = 0; pp_seq_no = 2; pp_digest = "b" }

abbrev vote : ViewChange
vote = record {
  view_no = 2;
  stable_checkpoint = 0;
  prepared = second ∷ first ∷ [];
  preprepared = second ∷ first ∷ [];
  checkpoints = start ∷ [];
}

abbrev votes : List ViewChange
votes = vote ∷ vote ∷ vote ∷ []

builder : Unit {0}
unfolding calc_checkpoint calc_batches try_find_batch_for_pp_seq_no quorums get_max_failures
builder = tt

calc_checkpoint-votes : calc_checkpoint (quorums 4) votes ≡ some start
unfolding builder
calc_checkpoint-votes = refl

-- Two votes are too few for any checkpoint.
calc_checkpoint-few : calc_checkpoint (quorums 4) (vote ∷ vote ∷ []) ≡ none
unfolding builder
calc_checkpoint-few = refl

start-Qualifies : Qualifies (quorums 4) votes start
unfolding builder is_reached
start-Qualifies = record { not_higher = refl; held = refl }

votes-IsRun : IsRun (quorums 4) votes 300 1 (first ∷ second ∷ [])
unfolding builder
votes-IsRun = record {
  found = (
    try_find-IsFirst (quorums 4) votes 1 first refl,
    (try_find-IsFirst (quorums 4) votes 2 second refl, tt),
  );
  within = omega arith;
  complete = inr (record {
    none_certified = λ vc bid m mb c. try_find_complete (quorums 4) votes 3 vc bid m mb c refl;
    null_batch = refl;
  });
}

calc_checkpoint_sound_example :
    (vc : ViewChange) × In vc votes × In start vc.checkpoints × Qualifies (quorums 4) votes start
calc_checkpoint_sound_example = calc_checkpoint_sound (quorums 4) votes start calc_checkpoint-votes

calc_checkpoint_highest_example :
    (cp : Checkpoint) × (calc_checkpoint (quorums 4) votes ≡ some cp) × (0 ≤ cp.seq_no_end)
calc_checkpoint_highest_example =
    calc_checkpoint_highest (quorums 4) votes vote start (inl refl) (inl refl) start-Qualifies

calc_batches_iff_example :
    (calc_batches (quorums 4) 300 start votes ≡ some (second ∷ first ∷ [])) ↔ (
      (bids : List BatchId) × (second ∷ first ∷ [] ≡ sorted batch_lt bids)
      × IsRun (quorums 4) votes 300 (start.seq_no_end + 1) bids)
calc_batches_iff_example = calc_batches_iff (quorums 4) 300 start votes (second ∷ first ∷ [])

batches_out_of_order_example : calc_batches (quorums 4) 300 start votes ≡ some (second ∷ first ∷ [])
batches_out_of_order_example =
    batches_out_of_order (quorums 4) 300 start votes first second votes-IsRun (omega arith)

abbrev chosen : ℕ → BatchId
chosen s = if s == 1 then first else second

-- In view 0 the batch was prepared by all four nodes. In view 1 only one of them has prepared it again
-- when the next view change begins.
abbrev in_view : ℕ → BatchId
in_view v = record { view_no = v; pp_view_no = 0; pp_seq_no = 1; pp_digest = "a" }

abbrev prepared_in : ℕ → ViewChange
prepared_in v = record {
  view_no = 2;
  stable_checkpoint = 0;
  prepared = in_view v ∷ [];
  preprepared = in_view 1 ∷ [];
  checkpoints = start ∷ [];
}

abbrev others : List ViewChange
others = prepared_in 0 ∷ prepared_in 0 ∷ []

in_view-IsCertified :
    (v : ℕ) → v ≤ 1 → IsCertified (quorums 4) (prepared_in 0 ∷ prepared_in 1 ∷ others) 1 (in_view v)
unfolding builder is_reached
in_view-IsCertified zero h = record { at_seq_no = refl; prepared = refl; preprepared = refl }
in_view-IsCertified (suc zero) h = record { at_seq_no = refl; prepared = refl; preprepared = refl }
in_view-IsCertified (suc (suc v)) h = absurd (omega arith)

votes_order_decides_example :
    (try_find_batch_for_pp_seq_no (quorums 4) (prepared_in 0 ∷ prepared_in 1 ∷ others) 1
      ≡ some (in_view 0))
    × (try_find_batch_for_pp_seq_no (quorums 4) (prepared_in 1 ∷ prepared_in 0 ∷ others) 1
        ≡ some (in_view 1))
votes_order_decides_example =
    votes_order_decides (quorums 4) (prepared_in 0) (prepared_in 1) others 1 (in_view 0) (in_view 1)
      [] [] refl refl (in_view-IsCertified 0 (omega arith)) (in_view-IsCertified 1 (omega arith))
