-- ===== src/ViewChange/Builder/BatchChoice.antt =====
-- What `calc_batches` of `NewViewBuilder` returns.
use mathlib.Core.Option
use indy_plenum.Prelude.{
  ℕ, zero, suc, ◌+◌, ◌≤◌, ◌<◌, List, [], ◌∷◌, ◌++◌, Option, none, some, true, ◌≡◌, ◌↔◌, refl, sym,
  ◌∙◌, ◌⊎◌, inl, inr, ap, subst, In, All, contains, add, In-of_contains, length, Bool-cases,
  Option-cases, arith, All-In, sorted,
}
use mathlib.Core.List.{append-nil, append_assoc}
use indy_plenum.Quorums.{Quorums}
use indy_plenum.Messages.{BatchId, Checkpoint, ViewChange, batch_lt, batch_eq}
use indy_plenum.ViewChange.Builder.{
  try_find_batch_for_pp_seq_no, check_null_batch, collect, calc_batches,
}
use indy_plenum.ViewChange.Builder.Certified.{IsCertified, try_find_sound, try_find_complete}
use indy_plenum.ViewChange.Builder.First.{all_prepared, IsFirst, try_find-IsFirst, IsFirst-try_find}

-- The certified batches at the numbers from `pp_seq_no` on, the first one of the votes at each.
abbrev pub Found : Quorums → List ViewChange → ℕ → List BatchId → Type 0
Found q vcs pp_seq_no [] = Unit
Found q vcs pp_seq_no (bid ∷ bids) =
    IsFirst q vcs pp_seq_no (all_prepared vcs) bid × Found q vcs (pp_seq_no + 1) bids

-- No vote prepared a batch that is certified at `pp_seq_no`, and a strong quorum of the votes prepared
-- none there at all.
pub record IsNull (q : Quorums) (vcs : List ViewChange) (pp_seq_no : ℕ) : Type 0 where
  pub none_certified :
      (vc : ViewChange) (bid : BatchId)
      → In vc vcs
      → In bid vc.prepared
      → ¬ IsCertified q vcs pp_seq_no bid
  pub null_batch : check_null_batch q vcs pp_seq_no ≡ true

pub not_found :
    (q : Quorums) (vcs : List ViewChange) (pp_seq_no : ℕ)
    → IsNull q vcs pp_seq_no
    → try_find_batch_for_pp_seq_no q vcs pp_seq_no ≡ none
not_found q vcs pp_seq_no k = elim (Option-cases (try_find_batch_for_pp_seq_no q vcs pp_seq_no)) [
  | inl e ↦ e
  | inr (b, e) ↦
      let (vc, m, mb, c) = try_find_sound q vcs pp_seq_no b e in
      absurd (k.none_certified vc b m mb c)
]

module _ (q : Quorums) (vcs : List ViewChange) where
  -- Numbers that were found before `pp_seq_no` are below it, so nothing is added twice.
  abbrev AllBelow : ℕ → List BatchId → Type 0
  AllBelow pp_seq_no = All (λ (b : BatchId). b.pp_seq_no < pp_seq_no)

  AllBelow-append :
      (n : ℕ) (bids : List BatchId) (b : BatchId)
      → b.pp_seq_no ≡ n
      → AllBelow n bids
      → AllBelow (n + 1) (bids ++ b ∷ [])
  AllBelow-append n [] b e h = (omega arith, tt)
  AllBelow-append n (x ∷ xs) b e h = (omega arith, AllBelow-append n xs b e h.1)

  add-eq-append :
      (n : ℕ) (bids : List BatchId) (b : BatchId)
      → b.pp_seq_no ≡ n
      → AllBelow n bids
      → add b bids ≡ bids ++ b ∷ []
  add-eq-append n bids b e h = elim (Bool-cases (contains b bids)) [
    | inr new ↦ rw new
    | inl old ↦
        let low = All-In (λ (x : BatchId). x.pp_seq_no < n) b bids h (In-of_contains b bids old) in
        absurd (omega arith)
  ]

  AllBelow_step :
      (n : ℕ) (b : BatchId) → try_find_batch_for_pp_seq_no q vcs n ≡ some b → b.pp_seq_no ≡ n
  AllBelow_step n b e = (try_find_sound q vcs n b e).3.at_seq_no

  -- The loop returns what it started with and the batches found from `pp_seq_no` on. It ends after
  -- its last round or at a number for which no batch is needed.
  collect_sound :
      (rounds pp_seq_no : ℕ) (acc out : List BatchId)
      → AllBelow pp_seq_no acc
      → collect q vcs rounds pp_seq_no acc ≡ some out
      → (bids : List BatchId) × (out ≡ acc ++ bids)
        × Found q vcs pp_seq_no bids
        × (length bids ≤ rounds)
        × ((length bids ≡ rounds) ⊎ IsNull q vcs (pp_seq_no + length bids))
  unfolding collect
  collect_sound zero n acc out low h =
      ([], cc (h, append-nil acc), tt, omega arith, inl (omega arith))
  collect_sound (suc rounds) n acc out low h =
      elim (Option-cases (try_find_batch_for_pp_seq_no q vcs n)) [
        | inl e ↦ elim (Bool-cases (check_null_batch q vcs n)) [
          | inl t ↦
              let here : n ≡ n + length {A = BatchId} [] = omega arith in
              (
                [],
                cc (append-nil acc, rw (e, collect, t) at h),
                tt,
                omega arith,
                inr (
                    subst (IsNull q vcs) here (record {
                      none_certified = λ vc bid m mb c. try_find_complete q vcs n vc bid m mb c e;
                      null_batch = t;
                    })),
              )
          | inr t ↦ absurd (cc (rw (e, collect, t) at h))
        ]
        | inr (b, e) ↦
            let at = AllBelow_step n b e in
            let grown = add-eq-append n acc b at low in
            let (bids, eq, found, le, end) =
              collect_sound rounds (n + 1) (acc ++ b ∷ []) out (AllBelow-append n acc b at low)
                (rw (e, collect, grown) at h) in
            (
              b ∷ bids,
              eq ∙ append_assoc acc (b ∷ []) bids,
              (try_find-IsFirst q vcs n b e, found),
              omega arith,
              elim end [
                | inl l ↦ inl (omega arith)
                | inr k ↦ inr (subst (IsNull q vcs) (omega arith) k)
              ],
            )
      ]

  collect_complete :
      (rounds pp_seq_no : ℕ) (acc bids : List BatchId)
      → AllBelow pp_seq_no acc
      → Found q vcs pp_seq_no bids
      → length bids ≤ rounds
      → (length bids ≡ rounds) ⊎ IsNull q vcs (pp_seq_no + length bids)
      → collect q vcs rounds pp_seq_no acc ≡ some (acc ++ bids)
  unfolding collect
  collect_complete zero n acc [] low found le end = rw (append-nil acc)
  collect_complete zero n acc (b ∷ bids) low found le end = absurd (omega arith)
  collect_complete (suc rounds) n acc [] low found le (inl bad) = absurd (omega arith)
  collect_complete (suc rounds) n acc [] low found le (inr k) =
      let here : n + length {A = BatchId} [] ≡ n = omega arith in
      let k' = subst (IsNull q vcs) here k in
      rw (not_found q vcs n k', collect, k'.null_batch, append-nil acc)
  collect_complete (suc rounds) n acc (b ∷ bids) low (first, found) le end =
      let e = IsFirst-try_find q vcs n b first in
      let at = AllBelow_step n b e in
      let end' : (length bids ≡ rounds) ⊎ IsNull q vcs (n + 1 + length bids) = elim end [
        | inl l ↦ inl (omega arith)
        | inr k ↦ inr (subst (IsNull q vcs) (omega arith) k)
      ] in
      rw (e, collect, add-eq-append n acc b at low)
        (collect_complete rounds (n + 1) (acc ++ b ∷ []) bids (AllBelow-append n acc b at low) found
            (omega arith) end'
          ∙ ap some (append_assoc acc (b ∷ []) bids))

-- A reference description of the batches: found one after another from `pp_seq_no` on, `rounds` of
-- them at most, and fewer only where the next number is null.
pub record IsRun (q : Quorums) (vcs : List ViewChange) (rounds pp_seq_no : ℕ) (bids : List BatchId)
    : Type 0 where
  pub found : Found q vcs pp_seq_no bids
  pub within : length bids ≤ rounds
  pub complete : (length bids ≡ rounds) ⊎ IsNull q vcs (pp_seq_no + length bids)

map-some_eq :
    {A : Type 0} (f : List A → List A) (o : Option (List A)) {out : List A}
    → Option.map f o ≡ some out
    → (xs : List A) × (o ≡ some xs) × (out ≡ f xs)
map-some_eq f none h = absurd (cc h)
map-some_eq f (some xs) h = (xs, refl, cc h)

-- `calc_batches` returns a list exactly when that is the sorted list of a run. A run has for each
-- number after the checkpoint's, without a gap, the first batch that the votes prepared and that is
-- certified there: it has this number, a strong quorum of votes does not contradict it and a weak
-- quorum preprepared it. The run has `log_size` batches, or ends before the first number at which no
-- batch of the votes is certified and of which a strong quorum of votes prepared none.
pub calc_batches_iff :
    (q : Quorums) (log_size : ℕ) (cp : Checkpoint) (vcs : List ViewChange) (out : List BatchId)
    → (calc_batches q log_size cp vcs ≡ some out) ↔ (
        (bids : List BatchId) × (out ≡ sorted batch_lt bids)
        × IsRun q vcs log_size (cp.seq_no_end + 1) bids)
unfolding calc_batches
calc_batches_iff q log_size cp vcs out = (
  λ h.
      let (xs, e, eq) =
        map-some_eq (sorted batch_lt) (collect q vcs log_size (cp.seq_no_end + 1) []) h in
      let (bids, same, found, le, end) =
        collect_sound q vcs log_size (cp.seq_no_end + 1) [] xs tt e in
      (bids, eq ∙ ap (sorted batch_lt) same, record { found = found; within = le; complete = end }),
  λ (bids, eq, run).
      rw
        (collect_complete q vcs log_size (cp.seq_no_end + 1) [] bids tt run.found run.within
          run.complete)
        (ap some (sym eq)),
)
