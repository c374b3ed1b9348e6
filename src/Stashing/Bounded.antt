-- ===== src/Stashing/Bounded.antt =====
-- The queues of the router stay within its limit.
use indy_plenum.Prelude.{
  ℕ, ◌+◌, ◌≤◌, ◌≡◌, subst, String, Bool, true, false, leb, Option, none, some, List, [], ◌∷◌,
  length, lookup, insert, insort, ℤ, ◌=?◌, arith, inl, inr, Option-cases, Bool-cases, length-append,
}
use indy_plenum.Stashing.{
  int_eq, Stash, unsorted_stash, sorted_stash, stashed, with_stashed, limit_of, push, Outcome,
  processed, discarded, Router, settle, set_sorted_stasher, found_or_new, queue_or_new, keep, stash,
  react, process_code, discard_code,
}

module _ {M : Type 0} where
  -- The queue has the limit of the router and holds no more messages than that.
  abbrev pub IsWithin : ℕ → Stash M → Type 0
  IsWithin limit q = (limit_of q ≡ limit) × (length (stashed q) ≤ limit)

  abbrev pub AllWithin : ℕ → List (ℤ × Stash M) → Type 0
  AllWithin limit [] = Unit
  AllWithin limit ((code, q) ∷ d) = IsWithin limit q × AllWithin limit d

  length-insort :
      (before : M → M → Bool) (m : M) (ms : List M) → length (insort before m ms) ≡ length ms + 1
  length-insort before m [] = omega arith
  length-insort before m (x ∷ ms) = ground (arith, length-insort before m ms)

  push-IsWithin : (limit : ℕ) (m : M) (q : Stash M) → IsWithin limit q → IsWithin limit (push m q).1
  unfolding push
  push-IsWithin limit m (unsorted_stash n ms) w = elim (Bool-cases (leb n (length ms))) [
    | inl e ↦ rw e w
    | inr e ↦ rw e (w.0, ground (arith, w.0, w.1, e, length-append ms (m ∷ [])))
  ]
  push-IsWithin limit m (sorted_stash n before ms) w = elim (Bool-cases (leb n (length ms))) [
    | inl e ↦ rw e w
    | inr e ↦ rw e (w.0, ground (arith, w.0, w.1, e, length-insort before m ms))
  ]

  insert-AllWithin :
      (limit : ℕ) (code : ℤ) (q : Stash M) (d : List (ℤ × Stash M))
      → IsWithin limit q
      → AllWithin limit d
      → AllWithin limit (insert code q d)
  insert-AllWithin limit code q [] w a = (w, tt)
  insert-AllWithin limit code q ((c, x) ∷ d) w a = elim (Bool-cases (c =? code)) [
    | inl t ↦ rw t (w, a.1)
    | inr t ↦ rw t (a.0, insert-AllWithin limit code q d w a.1)
  ]

  lookup-AllWithin :
      (limit : ℕ) (code : ℤ) (q : Stash M) (d : List (ℤ × Stash M))
      → AllWithin limit d
      → lookup code d ≡ some q
      → IsWithin limit q
  lookup-AllWithin limit code q [] a e = absurd (cc e)
  lookup-AllWithin limit code q ((c, x) ∷ d) a e = elim (Bool-cases (c =? code)) [
    | inl t ↦ let same : x ≡ q = cc (rw t at e) in subst (IsWithin limit) same a.0
    | inr t ↦ lookup-AllWithin limit code q d a.1 (rw t at e)
  ]

  with_stashed-IsWithin :
      (limit : ℕ) (ms : List M) (q : Stash M)
      → IsWithin limit q
      → length ms ≤ limit
      → IsWithin limit (with_stashed ms q)
  with_stashed-IsWithin limit ms (unsorted_stash n xs) w b = (w.0, b)
  with_stashed-IsWithin limit ms (sorted_stash n before xs) w b = (w.0, b)

  module _ {S : Type 0} where
    pub record IsBounded (limit : ℕ) (r : Router M S) : Type 0 where
      pub same_limit : r.limit ≡ limit
      pub within : AllWithin limit r.queues

    pub set_sorted_stasher-IsBounded :
        (limit : ℕ) (code : ℤ) (before : M → M → Bool) (r : Router M S)
        → IsBounded limit r
        → IsBounded limit (set_sorted_stasher code before r)
    unfolding set_sorted_stasher
    set_sorted_stasher-IsBounded limit code before r b = record {
      same_limit = b.same_limit;
      within =
          insert-AllWithin limit code (sorted_stash r.limit before []) r.queues
            (b.same_limit, omega arith) b.within;
    }

    queue_or_new-IsWithin :
        (limit : ℕ) (code : ℤ) (r : Router M S)
        → IsBounded limit r
        → IsWithin limit (queue_or_new code r)
    unfolding found_or_new
    queue_or_new-IsWithin limit code r b = elim (Option-cases (lookup code r.queues)) [
      | inl e ↦ rw (e, found_or_new) (b.same_limit, omega arith)
      | inr (q, e) ↦ rw (e, found_or_new) (lookup-AllWithin limit code q r.queues b.within e)
    ]

    pub settle-IsBounded :
        (limit : ℕ) (o : Outcome M) (r : Router M S)
        → IsBounded limit r
        → IsBounded limit (settle o r)
    unfolding settle
    settle-IsBounded limit o r b = record { same_limit = b.same_limit; within = b.within }

    keep-IsBounded :
        (limit : ℕ) (code : ℤ) (m : M) (pushed : Bool × Stash M) (r : Router M S)
        → IsWithin limit pushed.1
        → IsBounded limit r
        → IsBounded limit (keep code m pushed r)
    unfolding keep settle
    keep-IsBounded limit code m (true, q) r w b = record {
      same_limit = b.same_limit;
      within = insert-AllWithin limit code q r.queues w b.within;
    }
    keep-IsBounded limit code m (false, q) r w b = record {
      same_limit = b.same_limit;
      within = insert-AllWithin limit code q r.queues w b.within;
    }

    stash-IsBounded :
        (limit : ℕ) (code : ℤ) (m : M) (r : Router M S)
        → IsBounded limit r
        → IsBounded limit (stash code m r)
    unfolding stash
    stash-IsBounded limit code m r b =
        keep-IsBounded limit code m (push m (queue_or_new code r)) r
          (push-IsWithin limit m (queue_or_new code r) (queue_or_new-IsWithin limit code r b)) b

    pub react-IsBounded :
        (limit : ℕ) (answer : Option (ℤ × String)) (m : M) (r : Router M S)
        → IsBounded limit r
        → IsBounded limit (react answer m r).1
    unfolding react
    react-IsBounded limit none m r b = settle-IsBounded limit (processed m) r b
    react-IsBounded limit (some (code, reason)) m r b = elim (Bool-cases (code =? process_code)) [
      | inl t ↦ rw t (settle-IsBounded limit (processed m) r b)
      | inr t ↦ elim (Bool-cases (code =? discard_code)) [
        | inl t' ↦ rw (t, t') (settle-IsBounded limit (discarded m reason) r b)
        | inr t' ↦ rw (t, t') (stash-IsBounded limit code m r b)
      ]
    ]

    pub taken-IsBounded :
        (limit : ℕ) (code : ℤ) (q : Stash M) (ms : List M) (r : Router M S)
        → lookup code r.queues ≡ some q
        → length ms ≤ length (stashed q)
        → IsBounded limit r
        → IsBounded limit (record r { queues = insert code (with_stashed ms q) r.queues })
    taken-IsBounded limit code q ms r e short b =
        let w = lookup-AllWithin limit code q r.queues b.within e in
        record {
          same_limit = b.same_limit;
          within =
              insert-AllWithin limit code (with_stashed ms q) r.queues
                (with_stashed-IsWithin limit ms q w (omega (arith, short, w.1))) b.within;
        }
