-- ===== src/Stashing/Tests.antt =====
-- Messages that are numbers: the handlers process those up to the state, keep even ones above it under
-- the code 1 and discard the others.
use indy_plenum.Prelude.{
  ℕ, ◌+◌, ◌%◌, ◌≡◌, refl, ap, String, length, ltb, leb, ◌==◌, if◌then◌else◌, Option, none, some, [],
  ◌∷◌, insert, ℤ, pos, arith,
}
use indy_plenum.Stashing.{
  int_eq, Stash, sorted_stash, stashed, with_stashed, processed, unstashed, Router, Handler,
  set_sorted_stasher, settle, process, process_all_stashed, process_stashed_until_first_restash,
  stash_size, discard_code, stash, react, push, found_or_new,
}
use indy_plenum.Stashing.Bounded.{IsBounded}
use indy_plenum.Stashing.Loop.{IsCalm, stashed_messages_end, unstash_handler_takes_one}

abbrev answer_to : ℕ → ℕ → Option (ℤ × String)
answer_to m s =
    if leb m s
    then none
    else (if m % 2 == 0 then some (pos 1, "later") else some (discard_code, "odd"))

abbrev handler : Handler ℕ ℕ
handler m r = some (answer_to m r.state, r)

handler-IsCalm : IsCalm 3 handler
handler-IsCalm m r b = (
  answer_to m r.state,
  r,
  refl,
  b,
  λ code q q' e e'.
      let same : q ≡ q' = cc (e, e') in
      omega (arith, ap (λ (x : Stash ℕ). length (stashed x)) same),
)

abbrev handler_of : ℕ → Option (Handler ℕ ℕ)
handler_of m = some handler

abbrev waiting : Stash ℕ
waiting = sorted_stash 3 ltb (2 ∷ 4 ∷ 8 ∷ [])

abbrev router : Router ℕ ℕ
router = record {
  limit = 3;
  queues = (pos 1, waiting) ∷ [];
  state = 5;
  outcomes = processed 1 ∷ [];
}

router-IsBounded : IsBounded 3 router
router-IsBounded = record { same_limit = refl; within = ((refl, omega arith), tt) }

-- A handler that calls the router again, as one does that moves the watermarks.
abbrev no_answer : Option (Router ℕ ℕ) → Option (Option (ℤ × String) × Router ℕ ℕ)
no_answer none = none
no_answer (some r) = some (none, r)

abbrev re_entrant : Handler ℕ ℕ
re_entrant m r = no_answer (process_all_stashed handler_of none (some (pos 1)) r)

abbrev re_entrant_of : ℕ → Option (Handler ℕ ℕ)
re_entrant_of m = some re_entrant

stashed_messages_end_example :
    ((r' : Router ℕ ℕ) × (process_all_stashed handler_of none none router ≡ some r')
      × IsBounded 3 r')
    × ((r' : Router ℕ ℕ) × (process_stashed_until_first_restash handler_of none none router
          ≡ some (some r'))
        × IsBounded 3 r')
stashed_messages_end_example =
    stashed_messages_end 3 handler_of none (λ m. (handler, refl, handler-IsCalm)) none router
      router-IsBounded

unstash_handler_takes_one_example :
    process_stashed_until_first_restash handler_of (some (λ m s. m + s)) (some (pos 1)) router
    ≡ some (
        some (
          settle (unstashed 2) (record router {
            queues = insert (pos 1) (with_stashed (4 ∷ 8 ∷ []) waiting) router.queues;
            state = 7;
          })))
unstash_handler_takes_one_example =
    unstash_handler_takes_one handler_of handler (λ m s. m + s) (pos 1) router waiting 2
      (4 ∷ 8 ∷ []) refl refl refl

-- The first two are processed, the third is stashed again.
until_restash :
    process_stashed_until_first_restash handler_of none none router
    ≡ some (
        some (record {
          limit = 3;
          queues = (pos 1, sorted_stash 3 ltb (8 ∷ [])) ∷ [];
          state = 5;
          outcomes = processed 1 ∷ processed 2 ∷ processed 4 ∷ [];
        }))
unfolding process_stashed_until_first_restash process stash stash_size react push found_or_new
until_restash = refl

sizes_of_new : stash_size (some (pos 1)) (set_sorted_stasher (pos 2) ltb router) ≡ 3
unfolding stash_size set_sorted_stasher
sizes_of_new = refl
