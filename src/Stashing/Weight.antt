-- ===== src/Stashing/Weight.antt =====
-- Messages that satisfy a test, counted in the queues of the router and among the outcomes.
use indy_plenum.Prelude.{
  ℕ, ◌+◌, ◌≡◌, ◌∙◌, String, Bool, true, false, if◌then◌else◌, Option, none, some, List, [], ◌∷◌,
  ◌++◌, count, lookup, insert, ℤ, ◌=?◌, insort, arith, inl, inr, Bool-cases, Option-cases,
}
use indy_plenum.Stashing.{
  int_eq, Stash, unsorted_stash, sorted_stash, stashed, push, Outcome, processed, discarded,
  dropped, unstashed, Router, queue_or_new, found_or_new, keep, stash, settle, react, process_code,
  discard_code,
}

abbrev pub one_if : Bool → ℕ
one_if b = if b then 1 else 0

abbrev pub message_of : {M : Type 0} → Outcome M → M
message_of (processed m) = m
message_of (discarded m reason) = m
message_of (dropped m code) = m
message_of (unstashed m) = m

module _ {M : Type 0} (p : M → Bool) where
  count-append : (xs ys : List M) → count p (xs ++ ys) ≡ count p xs + count p ys
  count-append [] ys = omega arith
  count-append (x ∷ xs) ys = omega (arith, count-append xs ys)

  count-insort :
      (before : M → M → Bool) (m : M) (ms : List M)
      → count p (insort before m ms) ≡ count p ms + one_if (p m)
  count-insort before m [] = omega arith
  count-insort before m (x ∷ ms) = ground (arith, count-insort before m ms)

  abbrev pub held : List (ℤ × Stash M) → ℕ
  held [] = 0
  held ((code, q) ∷ d) = count p (stashed q) + held d

  abbrev pub gone : List (Outcome M) → ℕ
  gone [] = 0
  gone (o ∷ os) = one_if (p (message_of o)) + gone os

  gone-append :
      (os : List (Outcome M)) (o : Outcome M)
      → gone (os ++ o ∷ []) ≡ gone os + one_if (p (message_of o))
  gone-append [] o = omega arith
  gone-append (x ∷ os) o = omega (arith, gone-append os o)

  -- A push either adds the message or leaves the stash as it is.
  count-push :
      (m : M) (q : Stash M)
      → count p (stashed (push m q).1) + (if (push m q).0 then 0 else one_if (p m))
        ≡ count p (stashed q) + one_if (p m)
  unfolding push
  count-push m (unsorted_stash limit ms) = ground (arith, count-append ms (m ∷ []))
  count-push m (sorted_stash limit before ms) = ground (arith, count-insort before m ms)

  pub held-insert :
      (code : ℤ) (q q' : Stash M) (d : List (ℤ × Stash M))
      → lookup code d ≡ some q
      → held (insert code q' d) + count p (stashed q) ≡ held d + count p (stashed q')
  held-insert code q q' [] h = absurd (cc h)
  held-insert code q q' ((c, x) ∷ d) h = elim (Bool-cases (c =? code)) [
    | inl t ↦ let same : x ≡ q = cc (rw t at h) in rw (t, same) (omega arith)
    | inr t ↦ rw t (omega (arith, held-insert code q q' d (rw t at h)))
  ]

  pub held-insert_new :
      (code : ℤ) (q : Stash M) (d : List (ℤ × Stash M))
      → lookup code d ≡ none
      → held (insert code q d) ≡ held d + count p (stashed q)
  held-insert_new code q [] h = omega arith
  held-insert_new code q ((c, x) ∷ d) h = elim (Bool-cases (c =? code)) [
    | inl t ↦ absurd (cc (rw t at h))
    | inr t ↦ rw t (omega (arith, held-insert_new code q d (rw t at h)))
  ]

  module _ {S : Type 0} where
    -- All messages that the router holds or has let go.
    abbrev pub weight : Router M S → ℕ
    weight r = held r.queues + gone r.outcomes

    held-queue_or_new :
        (code : ℤ) (q' : Stash M) (r : Router M S)
        → held (insert code q' r.queues) + count p (stashed (queue_or_new code r))
          ≡ held r.queues + count p (stashed q')
    unfolding found_or_new
    held-queue_or_new code q' r = elim (Option-cases (lookup code r.queues)) [
      | inl e ↦ rw (e, found_or_new) (omega (arith, held-insert_new code q' r.queues e))
      | inr (q, e) ↦ rw (e, found_or_new) (held-insert code q q' r.queues e)
    ]

    pub weight-settle :
        (o : Outcome M) (r : Router M S)
        → weight (settle o r) ≡ weight r + one_if (p (message_of o))
    unfolding settle
    weight-settle o r = omega (arith, gone-append r.outcomes o)

    weight-keep :
        (code : ℤ) (m : M) (pushed : Bool × Stash M) (r : Router M S)
        → count p (stashed pushed.1) + (if pushed.0 then 0 else one_if (p m))
          ≡ count p (stashed (queue_or_new code r)) + one_if (p m)
        → weight (keep code m pushed r) ≡ weight r + one_if (p m)
    unfolding keep
    weight-keep code m (true, q) r e = omega (arith, held-queue_or_new code q r, e)
    weight-keep code m (false, q) r e =
        weight-settle (dropped m code) (record r { queues = insert code q r.queues })
        ∙ omega (arith, held-queue_or_new code q r, e)

    weight-stash :
        (code : ℤ) (m : M) (r : Router M S) → weight (stash code m r) ≡ weight r + one_if (p m)
    unfolding stash
    weight-stash code m r =
        weight-keep code m (push m (queue_or_new code r)) r (count-push m (queue_or_new code r))

    pub weight-react :
        (answer : Option (ℤ × String)) (m : M) (r : Router M S)
        → weight (react answer m r).1 ≡ weight r + one_if (p m)
    unfolding react
    weight-react none m r = weight-settle (processed m) r
    weight-react (some (code, reason)) m r = elim (Bool-cases (code =? process_code)) [
      | inl t ↦ rw t (weight-settle (processed m) r)
      | inr t ↦ elim (Bool-cases (code =? discard_code)) [
        | inl t' ↦ rw (t, t') (weight-settle (discarded m reason) r)
        | inr t' ↦ rw (t, t') (weight-stash code m r)
      ]
    ]
