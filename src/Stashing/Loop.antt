-- ===== src/Stashing/Loop.antt =====
-- The loops over stashed messages end, with the queues within the limit.
use indy_plenum.Prelude.{
  ℕ, zero, suc, ◌≤◌, ◌≡◌, refl, sym, ◌∙◌, ap, String, Bool, true, false, Option, none, some, List,
  [], ◌∷◌, length, lookup, insert, lookup-insert_self, keys, sorted, ℤ, ◌=?◌, arith, inl, inr,
  Option-cases, Bool-cases,
}
use indy_plenum.Stashing.{
  int_eq, int_lt, Stash, stashed, with_stashed, pop, Router, Handler, unstashed, settle, react,
  process, unstash, resolve_and_process, process_messages, process_all_stashed_with,
  process_all_codes, process_all_stashed, until_loop, until_first_restash_with, until_each,
  process_stashed_until_first_restash, stash_size, process_code, discard_code,
}
use indy_plenum.Stashing.Kept.{List-cases, stashed-with_stashed}
use indy_plenum.Stashing.Bounded.{IsBounded, react-IsBounded, settle-IsBounded, taken-IsBounded}

abbrev size_of : {M : Type 0} → Option (Stash M) → ℕ
size_of none = 0
size_of (some q) = length (stashed q)

module _ {M S : Type 0} where
  react-true :
      (answer : Option (ℤ × String)) (m : M) (r : Router M S)
      → (react answer m r).0 ≡ true
      → (react answer m r).1.queues ≡ r.queues
  unfolding react settle
  react-true none m r e = refl
  react-true (some (code, reason)) m r e = elim (Bool-cases (code =? process_code)) [
    | inl t ↦ rw t
    | inr t ↦ elim (Bool-cases (code =? discard_code)) [
      | inl t' ↦ rw (t, t')
      | inr t' ↦ absurd (cc (rw (t, t') at e))
    ]
  ]

  -- No queue is longer in the second router than in the first.
  abbrev pub NoLonger : Router M S → Router M S → Type 0
  NoLonger r r' =
      (code : ℤ) (q q' : Stash M)
      → lookup code r.queues ≡ some q
      → lookup code r'.queues ≡ some q'
      → length (stashed q') ≤ length (stashed q)

  -- The handler raises no exception, and what it does with the router leaves the queues within the limit
  -- and none of them longer.
  abbrev pub IsCalm : ℕ → Handler M S → Type 0
  IsCalm limit handler =
      (m : M) (r : Router M S)
      → IsBounded limit r
      → (answer : Option (ℤ × String)) × (r' : Router M S) × (handler m r ≡ some (answer, r'))
        × IsBounded limit r'
        × NoLonger r r'

  react-NoLonger :
      (answer : Option (ℤ × String)) (m : M) (r r1 : Router M S)
      → NoLonger r r1
      → (react answer m r1).0 ≡ true
      → NoLonger r (react answer m r1).1
  react-NoLonger answer m r r1 shorter done = λ code q q' e e'.
      shorter code q q' e (ap (lookup code) (sym (react-true answer m r1 done)) ∙ e')

  unstash_total :
      (limit : ℕ) (u : Option (M → S → S)) (handler : Handler M S)
      → IsCalm limit handler
      → (m : M) (r : Router M S) → IsBounded limit r
      → (done : Bool) × (r' : Router M S) × (unstash u handler m r ≡ some (done, r'))
        × IsBounded limit r'
        × (done ≡ true → NoLonger r r')
  unfolding unstash process
  unstash_total limit none handler calm m r b =
      let (answer, r1, e, b1, shorter) = calm m r b in
      (
        (react answer m r1).0,
        (react answer m r1).1,
        rw (e, process),
        react-IsBounded limit answer m r1 b1,
        react-NoLonger answer m r r1 shorter,
      )
  unstash_total limit (some give) handler calm m r b =
      let moved : Router M S = record r { state = give m r.state } in
      (
        false,
        settle (unstashed m) moved,
        refl,
        settle-IsBounded limit (unstashed m) moved
            (record { same_limit = b.same_limit; within = b.within }),
        (λ bad. absurd (cc bad)),
      )

  module _ (limit : ℕ) (handler_of : M → Option (Handler M S)) (u : Option (M → S → S))
      (subscribed : (m : M)
        → (handler : Handler M S) × (handler_of m ≡ some handler) × IsCalm limit handler) where
    resolve_total :
        (m : M) (r : Router M S)
        → IsBounded limit r
        → (done : Bool) × (r' : Router M S) × (resolve_and_process handler_of u m r
            ≡ some (done, r'))
          × IsBounded limit r'
          × (done ≡ true → NoLonger r r')
    unfolding resolve_and_process
    resolve_total m r b =
        let (handler, there, calm) = subscribed m in
        let (done, r', e, b', shorter) = unstash_total limit u handler calm m r b in
        (done, r', rw (there, resolve_and_process) e, b', shorter)

    process_messages_total :
        (ms : List M) (r : Router M S)
        → IsBounded limit r
        → (r' : Router M S) × (process_messages handler_of u ms r ≡ some r') × IsBounded limit r'
    unfolding process_messages
    process_messages_total [] r b = (r, refl, b)
    process_messages_total (m ∷ ms) r b =
        let (done, r1, e, b1, _) = resolve_total m r b in
        let (r', e', b') = process_messages_total ms r1 b1 in (r', rw (e, process_messages) e', b')

    all_with_total :
        (code : ℤ) (r : Router M S)
        → IsBounded limit r
        → (r' : Router M S) × (process_all_stashed_with handler_of u code r ≡ some r')
          × IsBounded limit r'
    unfolding process_all_stashed_with
    all_with_total code r b = elim (Option-cases (lookup code r.queues)) [
      | inl none_there ↦ (r, rw (none_there, process_all_stashed_with), b)
      | inr (q, there) ↦
          let (r', e, b') =
            process_messages_total (stashed q) _
              (taken-IsBounded limit code q [] r there (omega arith) b) in
          (r', rw (there, process_all_stashed_with) e, b')
    ]

    all_codes_total :
        (codes : List ℤ) (r : Router M S)
        → IsBounded limit r
        → (r' : Router M S) × (process_all_codes handler_of u codes r ≡ some r')
          × IsBounded limit r'
    unfolding process_all_codes
    all_codes_total [] r b = (r, refl, b)
    all_codes_total (code ∷ codes) r b =
        let (r1, e, b1) = all_with_total code r b in
        let (r', e', b') = all_codes_total codes r1 b1 in (r', rw (e, process_all_codes) e', b')

    until_loop_total :
        (fuel : ℕ) (code : ℤ) (r : Router M S)
        → IsBounded limit r
        → ((q : Stash M) → lookup code r.queues ≡ some q → length (stashed q) ≤ fuel)
        → (r' : Router M S) × (until_loop handler_of u fuel code r ≡ some (some r'))
          × IsBounded limit r'
    unfolding until_loop
    until_loop_total zero code r b short = elim (Option-cases (lookup code r.queues)) [
      | inl none_there ↦ (r, rw (none_there, until_loop), b)
      | inr (q, there) ↦ elim (List-cases (stashed q)) [
        | inl empty ↦ (r, rw (there, empty, until_loop), b)
        | inr (m, ms, more) ↦ absurd (omega (arith, short q there, ap length more))
      ]
    ]
    until_loop_total (suc fuel) code r b short = elim (Option-cases (lookup code r.queues)) [
      | inl none_there ↦ (r, rw (none_there, until_loop), b)
      | inr (q, there) ↦ elim (List-cases (stashed q)) [
        | inl empty ↦ (r, rw (there, empty, until_loop, pop), b)
        | inr (m, ms, more) ↦
            let popped : Router M S = record r {
              queues = insert code (with_stashed ms q) r.queues;
            } in
            let size : length (stashed q) ≡ suc (length ms) = ap length more in
            let fewer = taken-IsBounded limit code q ms r there (omega (arith, size)) b in
            popped_total fuel code r q m ms there more (resolve_total m popped fewer)
              (λ r1 b1 shorter. until_loop_total fuel code r1 b1 (λ q1 there1. omega (
                arith,
                short q there,
                size,
                shorter code (with_stashed ms q) q1
                    (lookup-insert_self code (with_stashed ms q) r.queues) there1,
                ap length (stashed-with_stashed ms q),
              )))
      ]
    ]
      where
        popped_total :
            (fuel : ℕ) (code : ℤ) (r : Router M S) (q : Stash M) (m : M) (ms : List M)
            → lookup code r.queues ≡ some q
            → stashed q ≡ m ∷ ms
            → ((done : Bool) × (r1 : Router M S) × (resolve_and_process handler_of u m
                    (record r { queues = insert code (with_stashed ms q) r.queues })
                  ≡ some (done, r1))
                × IsBounded limit r1
                × (done ≡ true
                    → NoLonger (record r { queues = insert code (with_stashed ms q) r.queues }) r1))
            → ((r1 : Router M S)
                → IsBounded limit r1
                → NoLonger (record r { queues = insert code (with_stashed ms q) r.queues }) r1
                → (r' : Router M S) × (until_loop handler_of u fuel code r1 ≡ some (some r'))
                  × IsBounded limit r')
            → (r' : Router M S) × (until_loop handler_of u (suc fuel) code r ≡ some (some r'))
              × IsBounded limit r'
        popped_total fuel code r q m ms there more (true, r1, e, b1, shorter) rest =
            let (r', e', b') = rest r1 b1 (shorter refl) in
            (r', rw (there, more, until_loop, pop, e) e', b')
        popped_total fuel code r q m ms there more (false, r1, e, b1, same) rest =
            (r1, rw (there, more, until_loop, pop, e), b1)

    until_first_total :
        (code : ℤ) (r : Router M S)
        → IsBounded limit r
        → (r' : Router M S) × (until_first_restash_with handler_of u code r ≡ some (some r'))
          × IsBounded limit r'
    unfolding until_first_restash_with stash_size
    until_first_total code r b =
        until_loop_total (stash_size (some code) r) code r b
          (λ q there. omega (arith, ap size_of (sym there)))

    until_each_total :
        (codes : List ℤ) (r : Router M S)
        → IsBounded limit r
        → (r' : Router M S) × (until_each handler_of u codes r ≡ some (some r'))
          × IsBounded limit r'
    unfolding until_each
    until_each_total [] r b = (r, refl, b)
    until_each_total (code ∷ codes) r b =
        let (r1, e, b1) = until_first_total code r b in
        let (r', e', b') = until_each_total codes r1 b1 in (r', rw (e, until_each) e', b')

    -- Let every message have a handler that raises no exception and that, if it calls the router, leaves
    -- the queues within the limit and none longer, and let the handler of unstashed messages leave the
    -- router alone. Let the queues be within the limit of the router. Then
    -- `process_all_stashed` and `process_stashed_until_first_restash`, of one code or of all codes, end
    -- without an exception, the rounds of the loop of the second being enough, and leave the queues
    -- within the limit.
    pub stashed_messages_end :
        (code : Option ℤ) (r : Router M S)
        → IsBounded limit r
        → ((r' : Router M S) × (process_all_stashed handler_of u code r ≡ some r')
            × IsBounded limit r')
          × ((r' : Router M S) × (process_stashed_until_first_restash handler_of u code r
                ≡ some (some r'))
              × IsBounded limit r')
    unfolding process_all_stashed process_stashed_until_first_restash
    stashed_messages_end none r b =
        let codes = sorted int_lt (keys r.queues) in
        (all_codes_total codes r b, until_each_total codes r b)
    stashed_messages_end (some code) r b = (all_with_total code r b, until_first_total code r b)

-- With a handler of unstashed messages the loop that should go on until a message is stashed again takes
-- the first message of the queue only, whatever became of it: `_unstash` returns None then.
pub unstash_handler_takes_one :
    {M S : Type 0} (handler_of : M → Option (Handler M S)) (handler : Handler M S)
    (give : M → S → S) (code : ℤ) (r : Router M S) (q : Stash M) (m : M) (ms : List M)
    → handler_of m ≡ some handler
    → lookup code r.queues ≡ some q
    → stashed q ≡ m ∷ ms
    → process_stashed_until_first_restash handler_of (some give) (some code) r
      ≡ some (
          some (
            settle (unstashed m) (record r {
              queues = insert code (with_stashed ms q) r.queues;
              state = give m r.state;
            })))
unfolding process_stashed_until_first_restash until_first_restash_with stash_size
unstash_handler_takes_one handler_of handler give code r q m ms subscribed there more =
    let some_left : stash_size (some code) r ≡ suc (length ms) =
      ap size_of there ∙ ap length more in
    let took : until_loop handler_of (some give) (suc (length ms)) code r
        ≡ some (
            some (
              settle (unstashed m) (record r {
                queues = insert code (with_stashed ms q) r.queues;
                state = give m r.state;
              }))) =
      rw (there, more, until_loop, pop, resolve_and_process, subscribed, unstash) refl in
    ap (λ (fuel : ℕ). until_loop handler_of (some give) fuel code r) some_left ∙ took
