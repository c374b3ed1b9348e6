-- ===== src/ViewChange/Builder/Order.antt =====
-- `sorted(batches)` in `calc_batches` orders the tuples, so the view number comes first.
use indy_plenum.Prelude.{
  ℕ, ◌+◌, ◌<◌, List, [], ◌∷◌, some, true, ◌≡◌, refl, arith, sorted, Bool, count, subst, sym, ◌==◌,
}
use indy_plenum.Quorums.{Quorums, is_reached}
use indy_plenum.Messages.{BatchId, Checkpoint, ViewChange, batch_lt}
use indy_plenum.ViewChange.Builder.{
  calc_batches, is_batch_prepared, is_batch_preprepared, prepared_check, is_preprepared_in,
  try_find_batch_for_pp_seq_no, try_find_among, try_find_in,
}
use indy_plenum.ViewChange.Builder.Certified.{IsCertified}
use indy_plenum.ViewChange.Builder.BatchChoice.{IsRun, calc_batches_iff}

sorted_two : (b b' : BatchId) → b'.view_no < b.view_no → b' ∷ b ∷ [] ≡ sorted batch_lt (b ∷ b' ∷ [])
unfolding batch_lt
sorted_two b b' h = ground arith

-- Where the batches to order again are b and then b', and b' was last prepared in an earlier view
-- than b, `calc_batches` returns b' before b, although b' has the higher `pp_seq_no`.
pub batches_out_of_order :
    (q : Quorums) (log_size : ℕ) (cp : Checkpoint) (vcs : List ViewChange) (b b' : BatchId)
    → IsRun q vcs log_size (cp.seq_no_end + 1) (b ∷ b' ∷ [])
    → b'.view_no < b.view_no
    → calc_batches q log_size cp vcs ≡ some (b' ∷ b ∷ [])
batches_out_of_order q log_size cp vcs b b' run h =
    (calc_batches_iff q log_size cp vcs (b' ∷ b ∷ [])).1 (b ∷ b' ∷ [], sorted_two b b' h, run)

count-swap :
    {A : Type 0} (p : A → Bool) (x y : A) (xs : List A)
    → count p (x ∷ y ∷ xs) ≡ count p (y ∷ x ∷ xs)
count-swap p x y xs = ground arith

IsCertified-swap :
    (q : Quorums) (x y : ViewChange) (vcs : List ViewChange) (s : ℕ) (bid : BatchId)
    → IsCertified q (x ∷ y ∷ vcs) s bid
    → IsCertified q (y ∷ x ∷ vcs) s bid
unfolding is_batch_prepared is_batch_preprepared
IsCertified-swap q x y vcs s bid c = record {
  at_seq_no = c.at_seq_no;
  prepared =
      subst (λ n. is_reached q.strong n ≡ true) (count-swap (prepared_check bid) x y vcs)
        c.prepared;
  preprepared =
      subst (λ n. is_reached q.weak n ≡ true)
        (count-swap (λ vc. is_preprepared_in bid vc.preprepared) x y vcs) c.preprepared;
}

found_first :
    (q : Quorums) (vcs : List ViewChange) (s : ℕ) (b : BatchId) (bids : List BatchId)
    → IsCertified q vcs s b
    → try_find_in q vcs s (b ∷ bids) ≡ some b
unfolding try_find_in
found_first q vcs s b bids c =
    let same : (b.pp_seq_no == s) ≡ true = ground (arith, c.at_seq_no) in
    rw (same, c.prepared, c.preprepared) refl

-- A certified batch that the first vote lists first is the one that is found.
try_find_first :
    (q : Quorums) (vc : ViewChange) (vcs : List ViewChange) (s : ℕ) (b : BatchId)
    (bids : List BatchId)
    → vc.prepared ≡ b ∷ bids
    → IsCertified q (vc ∷ vcs) s b
    → try_find_batch_for_pp_seq_no q (vc ∷ vcs) s ≡ some b
unfolding try_find_batch_for_pp_seq_no try_find_among try_find_in
try_find_first q vc vcs s b bids e c =
    let found =
      subst (λ bs. try_find_in q (vc ∷ vcs) s bs ≡ some b) (sym e)
        (found_first q (vc ∷ vcs) s b bids c) in
    rw (found, try_find_among) refl

-- Where two batches are certified for one number by the same votes, and the first vote lists the
-- one batch first and the second vote the other, `_try_find_batch_for_pp_seq_no` finds the first
-- vote's batch, and the other one after the two votes are exchanged.
pub votes_order_decides :
    (q : Quorums) (x y : ViewChange) (vcs : List ViewChange) (s : ℕ) (b b' : BatchId)
    (bids bids' : List BatchId)
    → x.prepared ≡ b ∷ bids
    → y.prepared ≡ b' ∷ bids'
    → IsCertified q (x ∷ y ∷ vcs) s b
    → IsCertified q (x ∷ y ∷ vcs) s b'
    → (try_find_batch_for_pp_seq_no q (x ∷ y ∷ vcs) s ≡ some b)
      × (try_find_batch_for_pp_seq_no q (y ∷ x ∷ vcs) s ≡ some b')
votes_order_decides q x y vcs s b b' bids bids' e e' c c' = (
  try_find_first q x (y ∷ vcs) s b bids e c,
  try_find_first q y (x ∷ vcs) s b' bids' e' (IsCertified-swap q x y vcs s b' c'),
)
