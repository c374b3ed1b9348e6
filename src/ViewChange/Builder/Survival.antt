-- ===== src/ViewChange/Builder/Survival.antt =====
-- Why a view change loses no batch that could have been ordered: f + 1 votes that prepared a batch
-- meet every strong quorum of `NewViewBuilder`.
use indy_plenum.Prelude.{
  ℕ, ◌≤◌, ◌<◌, List, [], ◌∷◌, Bool, true, false, ◌≡◌, sym, inl, inr, subst, In, contains,
  In-of_contains, length, Bool-cases, arith, count, count-both, exists_of_count, ◌&&◌, string_eq,
}
use indy_plenum.Quorums.{quorums, is_reached}
use indy_plenum.Messages.{BatchId, ViewChange, batch_eq}
use indy_plenum.ViewChange.Builder.{
  no_conflict, prepared_check, is_batch_prepared, nothing_at, null_check, check_null_batch,
}
use indy_plenum.ViewChange.Builder.Certified.{IsCertified}

-- `bid` is in the prepared batches of this vote.
abbrev pub has_prepared : BatchId → ViewChange → Bool
has_prepared bid vc = contains bid vc.prepared

nothing_at_no :
    (bid : BatchId) (bids : List BatchId) → In bid bids → nothing_at bid.pp_seq_no bids ≡ false
unfolding nothing_at
nothing_at_no bid [] m = absurd m
nothing_at_no bid (b ∷ bids) (inl e) = let e' : b.pp_seq_no ≡ bid.pp_seq_no = cc e in ground arith
nothing_at_no bid (b ∷ bids) (inr m) = ground (arith, nothing_at_no bid bids m)

-- `b` does not lose against `a`: it is of a later view, or of the same and the same batch.
pub record Outranks (b a : BatchId) : Type 0 where
  pub view : a.view_no ≤ b.view_no
  pub same_digest : a.view_no ≡ b.view_no → a.pp_digest ≡ b.pp_digest
  pub same_pp_view : a.view_no ≡ b.view_no → a.pp_view_no ≡ b.pp_view_no

no_conflict_rank :
    (a b : BatchId) (bids : List BatchId)
    → In a bids
    → a.pp_seq_no ≡ b.pp_seq_no
    → no_conflict b bids ≡ true
    → Outranks b a
unfolding no_conflict
no_conflict_rank a b [] m e h = absurd m
no_conflict_rank a b (x ∷ bids) (inl same) e h =
    subst (Outranks b) (sym same) (head x (cc (same, e)) h)
  where
    head :
        (x : BatchId) → x.pp_seq_no ≡ b.pp_seq_no → no_conflict b (x ∷ bids) ≡ true → Outranks b x
    head x ex h = record {
      view = ground arith;
      same_digest = λ v. ground (arith, (string_eq.beq_iff x.pp_digest b.pp_digest).0);
      same_pp_view = λ v. ground arith;
    }
no_conflict_rank a b (x ∷ bids) (inr m) e h = no_conflict_rank a b bids m e (ground arith)

-- f + 1 of the votes prepared this batch.
abbrev pub IsPreparedBy : ℕ → List ViewChange → BatchId → Type 0
IsPreparedBy n vcs bid = is_reached (quorums n).weak (count (has_prepared bid) vcs) ≡ true

module _ (n : ℕ) (vcs : List ViewChange) (few : length vcs ≤ n) where
  strong_meets_prepared :
      (bid : BatchId) (p : ViewChange → Bool)
      → IsPreparedBy n vcs bid
      → is_reached (quorums n).strong (count p vcs) ≡ true
      → (vc : ViewChange) × In bid vc.prepared × (p vc ≡ true)
  unfolding quorums is_reached
  strong_meets_prepared bid p held strong =
      let both = λ (vc : ViewChange). has_prepared bid vc && p vc in
      let many : 0 < count both vcs = ground (arith, count-both (has_prepared bid) p vcs) in
      let (vc, m, t) = exists_of_count both vcs many in
      (vc, In-of_contains bid vc.prepared (ground arith), ground arith)

  -- A number at which f + 1 votes prepared a batch is not taken for a null batch.
  pub not_null_of_prepared :
      (bid : BatchId)
      → IsPreparedBy n vcs bid
      → check_null_batch (quorums n) vcs bid.pp_seq_no ≡ false
  unfolding check_null_batch
  not_null_of_prepared bid held =
      elim (Bool-cases (check_null_batch (quorums n) vcs bid.pp_seq_no)) [
        | inr e ↦ e
        | inl e ↦
            let (vc, m, t) = strong_meets_prepared bid (null_check bid.pp_seq_no) held e in
            let clash = nothing_at_no bid vc.prepared m in ground arith
      ]

  -- Whatever batch is certified at that number, it does not lose against the prepared one.
  pub certified-Outranks :
      (a b : BatchId)
      → IsPreparedBy n vcs a
      → IsCertified (quorums n) vcs a.pp_seq_no b
      → Outranks b a
  unfolding is_batch_prepared
  certified-Outranks a b held c =
      let (vc, m, t) = strong_meets_prepared a (prepared_check b) held c.prepared in
      no_conflict_rank a b vc.prepared m (sym c.at_seq_no) (unfold prepared_check in ground arith)
