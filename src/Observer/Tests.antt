-- ===== src/Observer/Tests.antt =====
-- An observer of a pool with one faulty node, which has applied the batches up to number 5.
use indy_plenum.Prelude.{◌≡◌, refl, some, [], ◌∷◌}
use indy_plenum.Quorums.{Quorum, is_reached}
use indy_plenum.Observer.{
  Batch, Policy, apply_data, process_stashed_messages, can_apply, can_process, add_batch,
  do_apply_data, next_batch, next_seq_no, can_apply_quorumed, most_common_freq, occurrences,
  same_dump,
}
use indy_plenum.Observer.Sequence.{Follows, apply_data-Follows}

abbrev two : Quorum
two = record { value = 2 }

abbrev six : Batch
six = record { seq_no_start = 6; seq_no_end = 6; content = "six" }

abbrev seven : Batch
seven = record { seq_no_start = 7; seq_no_end = 8; content = "seven" }

abbrev forged : Batch
forged = record { seq_no_start = 7; seq_no_end = 8; content = "forged" }

-- Alpha has sent 6; for 7 a faulty node came before two honest ones.
abbrev waiting : Policy
waiting = record {
  last_applied_seq_no = some 5;
  batches =
      (6, ("Alpha", six) ∷ [])
      ∷ (7, ("Faulty", forged) ∷ ("Alpha", seven) ∷ ("Beta", seven) ∷ [])
      ∷ [];
  batch_seq_no = 6 ∷ 7 ∷ [];
}

abbrev done : Policy
done = record { last_applied_seq_no = some 8; batches = []; batch_seq_no = [] }

-- Two equal batches are there for 7, and the one that a single node has sent is applied.
forged_is_applied : apply_data two "BATCH" six "Beta" waiting ≡ some (done, six ∷ forged ∷ [])
unfolding apply_data process_stashed_messages can_apply can_process add_batch do_apply_data
    next_batch next_seq_no can_apply_quorumed most_common_freq occurrences same_dump is_reached
forged_is_applied = refl

apply_data-Follows_example : Follows (some 5) (six ∷ forged ∷ []) (some 8)
apply_data-Follows_example =
    apply_data-Follows two "BATCH" six "Beta" waiting done (six ∷ forged ∷ []) forged_is_applied
