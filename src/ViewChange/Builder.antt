-- ===== src/ViewChange/Builder.antt =====
-- `NewViewBuilder` of plenum/server/consensus/view_change_service.py: the checkpoint and the batches
-- that a NewView must name, computed from the ViewChange messages. The parameters are the fields
-- `quorums` and `log_size` of the shared data, and the list `vcs` of the methods.
pub mod CheckpointChoice
pub mod Certified
pub mod First
pub mod BatchChoice
pub mod Survival
pub mod Order
mod Tests
use mathlib.Core.Option
use indy_plenum.Prelude.{
  ℕ, zero, suc, ◌+◌, String, List, [], ◌∷◌, ◌++◌, Option, none, some, Bool, true, false, ◌&&◌, not,
  if◌then◌else◌, ◌==◌, ltb, leb, ◌=?◌, string_eq, contains, add, length, count, select, sorted,
}
use indy_plenum.Quorums.{Quorums, is_reached}
use indy_plenum.Messages.{BatchId, Checkpoint, ViewChange, batch_lt, batch_eq, checkpoint_eq}

module _ (q : Quorums) (vcs : List ViewChange) where
  abbrev pub stable_checkpoint_not_higher : Checkpoint → List ViewChange
  stable_checkpoint_not_higher cp = select (λ vc. leb vc.stable_checkpoint cp.seq_no_end) vcs

  abbrev pub have_checkpoint : Checkpoint → List ViewChange
  have_checkpoint cp = select (λ vc. contains cp vc.checkpoints) vcs

  -- One round of the inner loop of `calc_checkpoint`; each `continue` keeps the list.
  pub consider : List Checkpoint → Checkpoint → List Checkpoint
  unfolding is_reached
  consider checkpoints cur_cp =
      if contains cur_cp checkpoints
      then checkpoints
      else if not (is_reached q.strong (length (stable_checkpoint_not_higher cur_cp)))
      then checkpoints
      else if not (is_reached q.strong (length (have_checkpoint cur_cp)))
      then checkpoints
      else checkpoints ++ cur_cp ∷ []

  pub consider_all : List Checkpoint → List Checkpoint → List Checkpoint
  unfolding consider
  consider_all checkpoints [] = checkpoints
  consider_all checkpoints (cur_cp ∷ rest) = consider_all (consider checkpoints cur_cp) rest

  pub candidates : List Checkpoint → List ViewChange → List Checkpoint
  unfolding consider_all
  candidates checkpoints [] = checkpoints
  candidates checkpoints (cur_vc ∷ rest) =
      candidates (consider_all checkpoints cur_vc.checkpoints) rest

-- The second loop of `calc_checkpoint`.
pub higher : Option Checkpoint → Checkpoint → Option Checkpoint
higher none cp = some cp
higher (some best) cp = if ltb best.seq_no_end cp.seq_no_end then some cp else some best

pub highest : Option Checkpoint → List Checkpoint → Option Checkpoint
unfolding higher
highest highest_cp [] = highest_cp
highest highest_cp (cp ∷ cps) = highest (higher highest_cp cp) cps

unfoldable pub calc_checkpoint : Quorums → List ViewChange → Option Checkpoint
unfolding candidates highest
calc_checkpoint q vcs = highest none (candidates q vcs [] vcs)

-- The loop in `check` of `_is_batch_prepared`.
pub no_conflict : BatchId → List BatchId → Bool
no_conflict bid [] = true
no_conflict bid (some_bid ∷ prepared) =
    let rest = no_conflict bid prepared in
    if not (some_bid.pp_seq_no == bid.pp_seq_no)
    then rest
    else if ltb bid.view_no some_bid.view_no
    then false
    else if leb bid.view_no some_bid.view_no && not (some_bid.pp_digest =? bid.pp_digest)
    then false
    else if leb bid.view_no some_bid.view_no && not (some_bid.pp_view_no == bid.pp_view_no)
    then false
    else rest

pub prepared_check : BatchId → ViewChange → Bool
unfolding no_conflict
prepared_check bid vc =
    if leb bid.pp_seq_no vc.stable_checkpoint then false else no_conflict bid vc.prepared

unfoldable pub is_batch_prepared : Quorums → BatchId → List ViewChange → Bool
unfolding is_reached prepared_check
is_batch_prepared q bid vcs = is_reached q.strong (count (prepared_check bid) vcs)

-- The loop in `check` of `_is_batch_preprepared`.
pub is_preprepared_in : BatchId → List BatchId → Bool
is_preprepared_in bid [] = false
is_preprepared_in bid (some_bid ∷ preprepared) =
    let rest = is_preprepared_in bid preprepared in
    if not (some_bid.pp_seq_no == bid.pp_seq_no)
    then rest
    else if not (some_bid.pp_view_no == bid.pp_view_no)
    then rest
    else if not (some_bid.pp_digest =? bid.pp_digest)
    then rest
    else if leb bid.view_no some_bid.view_no
    then true
    else rest

unfoldable pub is_batch_preprepared : Quorums → BatchId → List ViewChange → Bool
unfolding is_reached is_preprepared_in
is_batch_preprepared q bid vcs =
    is_reached q.weak (count (λ vc. is_preprepared_in bid vc.preprepared) vcs)

-- The loop in `check` of `_check_null_batch`.
pub nothing_at : ℕ → List BatchId → Bool
nothing_at pp_seq_no [] = true
nothing_at pp_seq_no (some_bid ∷ prepared) =
    if some_bid.pp_seq_no == pp_seq_no then false else nothing_at pp_seq_no prepared

pub null_check : ℕ → ViewChange → Bool
unfolding nothing_at
null_check pp_seq_no vc =
    if leb pp_seq_no vc.stable_checkpoint then false else nothing_at pp_seq_no vc.prepared

unfoldable pub check_null_batch : Quorums → List ViewChange → ℕ → Bool
unfolding is_reached null_check
check_null_batch q vcs pp_seq_no = is_reached q.strong (count (null_check pp_seq_no) vcs)

module _ (q : Quorums) (vcs : List ViewChange) where
  -- The inner loop of `_try_find_batch_for_pp_seq_no`, over `vc.prepared`.
  pub try_find_in : ℕ → List BatchId → Option BatchId
  unfolding is_batch_prepared is_batch_preprepared
  try_find_in pp_seq_no [] = none
  try_find_in pp_seq_no (bid ∷ prepared) =
      let rest = try_find_in pp_seq_no prepared in
      if not (bid.pp_seq_no == pp_seq_no)
      then rest
      else if not (is_batch_prepared q bid vcs)
      then rest
      else if not (is_batch_preprepared q bid vcs)
      then rest
      else some bid

  pub try_find_among : ℕ → List ViewChange → Option BatchId
  unfolding try_find_in
  try_find_among pp_seq_no [] = none
  try_find_among pp_seq_no (vc ∷ rest) = elim (try_find_in pp_seq_no vc.prepared) [
    | some bid ↦ some bid
    | none ↦ try_find_among pp_seq_no rest
  ]

  unfoldable pub try_find_batch_for_pp_seq_no : ℕ → Option BatchId
  unfolding try_find_among
  try_find_batch_for_pp_seq_no pp_seq_no = try_find_among pp_seq_no vcs

  -- The `while` loop of `calc_batches`. Each round that goes on adds one to `pp_seq_no`, so the
  -- test `pp_seq_no <= cp.seqNoEnd + log_size` allows `log_size` rounds, on which this recurs.
  pub collect : (rounds pp_seq_no : ℕ) → List BatchId → Option (List BatchId)
  unfolding try_find_batch_for_pp_seq_no check_null_batch
  collect zero pp_seq_no batches = some batches
  collect (suc rounds) pp_seq_no batches = elim (try_find_batch_for_pp_seq_no pp_seq_no) [
    | some bid ↦ collect rounds (pp_seq_no + 1) (add bid batches)
    | none ↦ if check_null_batch q vcs pp_seq_no then some batches else none
  ]

unfoldable pub calc_batches :
    Quorums → (log_size : ℕ) → Checkpoint → List ViewChange → Option (List BatchId)
unfolding collect batch_lt
calc_batches q log_size cp vcs =
    Option.map (sorted batch_lt) (collect q vcs log_size (cp.seq_no_end + 1) [])
