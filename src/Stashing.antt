-- ===== src/Stashing.antt =====
-- The router that keeps messages for later: plenum/common/stashing_router.py. A message stands for the
-- tuple of a message and its arguments. The handlers and the handler of unstashed messages are
-- parameters. A handler works on the router with the state of the service, so that it can stash or
-- process stashed messages itself; it gives `none` where it raises an exception. The handler of unstashed
-- messages, which moves a message to the inbox of the replica, works on the state alone.
pub mod Weight
pub mod Kept
pub mod Bounded
pub mod Loop
pub mod Tests
use indy_plenum.Prelude.{
  ℕ, zero, suc, ◌+◌, ◌==◌, ==_iff, String, Bool, true, false, ltb, leb, if◌then◌else◌, Option, none,
  some, List, [], ◌∷◌, ◌++◌, length, lookup, insert, keys, Eq, ◌=?◌, insort, sorted, ℤ, pos, negsuc,
  ◌≡◌, ◌↔◌, ap, refl,
}

abbrev pub int_beq : ℤ → ℤ → Bool
int_beq (pos a) (pos b) = a == b
int_beq (pos a) (negsuc b) = false
int_beq (negsuc a) (pos b) = false
int_beq (negsuc a) (negsuc b) = a == b

pub int_beq_iff : (a b : ℤ) → (int_beq a b ≡ true) ↔ (a ≡ b)
int_beq_iff (pos a) (pos b) = (λ h. ap pos ((==_iff a b).0 h), λ h. (==_iff a b).1 (cc h))
int_beq_iff (pos a) (negsuc b) = (λ h. cc, λ h. cc)
int_beq_iff (negsuc a) (pos b) = (λ h. cc, λ h. cc)
int_beq_iff (negsuc a) (negsuc b) = (λ h. ap negsuc ((==_iff a b).0 h), λ h. (==_iff a b).1 (cc h))

instance abbrev pub int_eq : Eq ℤ
int_eq = record { beq = int_beq; beq_iff = int_beq_iff }

abbrev pub int_lt : ℤ → ℤ → Bool
int_lt (pos a) (pos b) = ltb a b
int_lt (pos a) (negsuc b) = false
int_lt (negsuc a) (pos b) = true
int_lt (negsuc a) (negsuc b) = ltb b a

abbrev pub discard_code : ℤ
discard_code = negsuc 0

abbrev pub process_code : ℤ
process_code = pos 0

-- UnsortedStash and SortedStash: the limit and the messages; a sorted stash tests whether the key of one
-- message is below that of another.
pub data Stash (M : Type 0) : Type 0 where
  unsorted_stash : ℕ → List M → Stash M
  sorted_stash : ℕ → (M → M → Bool) → List M → Stash M

abbrev pub stashed : {M : Type 0} → Stash M → List M
stashed (unsorted_stash limit ms) = ms
stashed (sorted_stash limit before ms) = ms

abbrev pub limit_of : {M : Type 0} → Stash M → ℕ
limit_of (unsorted_stash limit ms) = limit
limit_of (sorted_stash limit before ms) = limit

unfoldable pub push : {M : Type 0} → M → Stash M → Bool × Stash M
push m (unsorted_stash limit ms) =
    if leb limit (length ms)
    then (false, unsorted_stash limit ms)
    else (true, unsorted_stash limit (ms ++ m ∷ []))
push m (sorted_stash limit before ms) =
    if leb limit (length ms)
    then (false, sorted_stash limit before ms)
    else (true, sorted_stash limit before (insort before m ms))

-- The stash with other messages: what `pop` and `pop_all` leave.
abbrev pub with_stashed : {M : Type 0} → List M → Stash M → Stash M
with_stashed ms (unsorted_stash limit _) = unsorted_stash limit ms
with_stashed ms (sorted_stash limit before _) = sorted_stash limit before ms

-- `pop(0)` raises IndexError on an empty stash.
unfoldable pub pop : {M : Type 0} → Stash M → Option (M × Stash M)
pop q = elim (stashed q) [ [] ↦ none | m ∷ ms ↦ some (m, with_stashed ms q) ]

unfoldable pub pop_all : {M : Type 0} → Stash M → List M × Stash M
pop_all q = (stashed q, with_stashed [] q)

unfoldable pub found_or_new : {M : Type 0} → ℕ → Option (Stash M) → Stash M
found_or_new limit none = unsorted_stash limit []
found_or_new limit (some q) = q

-- How a message left the router.
pub data Outcome (M : Type 0) : Type 0 where
  processed : M → Outcome M
  discarded : M → String → Outcome M
  -- The queue was full.
  dropped : M → ℤ → Outcome M
  -- Given to the handler of unstashed messages.
  unstashed : M → Outcome M

-- The router, the state that the handlers work on, and what became of the messages so far.
pub record Router (M S : Type 0) : Type 0 where
  pub limit : ℕ
  pub queues : List (ℤ × Stash M)
  pub state : S
  pub outcomes : List (Outcome M)

abbrev pub Handler : Type 0 → Type 0 → Type 0
Handler M S = M → Router M S → Option (Option (ℤ × String) × Router M S)

-- `sum(len(q) for q in self._queues.values())`
abbrev pub sizes : {M : Type 0} → List (ℤ × Stash M) → ℕ
sizes [] = 0
sizes ((code, q) ∷ d) = length (stashed q) + sizes d

module _ {M S : Type 0} where
  unfoldable pub set_sorted_stasher : ℤ → (M → M → Bool) → Router M S → Router M S
  set_sorted_stasher code before r = record r {
    queues = insert code (sorted_stash r.limit before []) r.queues;
  }

  unfoldable pub settle : Outcome M → Router M S → Router M S
  settle o r = record r { outcomes = r.outcomes ++ o ∷ [] }

  -- `setdefault(code, UnsortedStash(self._limit))`
  abbrev pub queue_or_new : ℤ → Router M S → Stash M
  queue_or_new code r = found_or_new r.limit (lookup code r.queues)

  -- The router after a push to the queue of a code, which is refused by a full queue.
  unfoldable pub keep : ℤ → M → Bool × Stash M → Router M S → Router M S
  unfolding settle
  keep code m (true, q) r = record r { queues = insert code q r.queues }
  keep code m (false, q) r = settle (dropped m code) (record r { queues = insert code q r.queues })

  unfoldable pub stash : ℤ → M → Router M S → Router M S
  unfolding keep
  stash code m r = keep code m (push m (queue_or_new code r)) r

  -- What `_process` does with the answer of a handler; false says that the message was stashed.
  unfoldable pub react : Option (ℤ × String) → M → Router M S → Bool × Router M S
  unfolding stash settle
  react none m r = (true, settle (processed m) r)
  react (some (code, reason)) m r =
      if code =? process_code
      then (true, settle (processed m) r)
      else (if code =? discard_code
          then (true, settle (discarded m reason) r)
          else (false, stash code m r))

  unfoldable pub process : Handler M S → M → Router M S → Option (Bool × Router M S)
  unfolding react
  process handler m r = elim (handler m r) [
    | none ↦ none
    | some (result, r') ↦ some (react result m r')
  ]

  unfoldable pub stash_size : Option ℤ → Router M S → ℕ
  stash_size none r = sizes r.queues
  stash_size (some code) r = elim (lookup code r.queues) [ none ↦ 0 | some q ↦ length (stashed q) ]

  -- `_unstash`, which gives None, that is false, after a handler of unstashed messages.
  unfoldable pub unstash :
      Option (M → S → S) → Handler M S → M → Router M S → Option (Bool × Router M S)
  unfolding process settle
  unstash none handler m r = process handler m r
  unstash (some give) handler m r =
      some (false, settle (unstashed m) (record r { state = give m r.state }))

  module _ (handler_of : M → Option (Handler M S)) (unstash_handler : Option (M → S → S)) where
    -- LogicError where no handler is subscribed.
    unfoldable pub resolve_and_process : M → Router M S → Option (Bool × Router M S)
    unfolding unstash
    resolve_and_process m r = elim (handler_of m) [
      | none ↦ none
      | some handler ↦ unstash unstash_handler handler m r
    ]

    unfoldable pub process_messages : List M → Router M S → Option (Router M S)
    unfolding resolve_and_process
    process_messages [] r = some r
    process_messages (m ∷ ms) r = elim (resolve_and_process m r) [
      | none ↦ none
      | some (_, r') ↦ process_messages ms r'
    ]

    unfoldable pub process_all_stashed_with : ℤ → Router M S → Option (Router M S)
    unfolding process_messages pop_all
    process_all_stashed_with code r = elim (lookup code r.queues) [
      | none ↦ some r
      | some q ↦
          let (ms, q') = pop_all q in
          process_messages ms (record r { queues = insert code q' r.queues })
    ]

    unfoldable pub process_all_codes : List ℤ → Router M S → Option (Router M S)
    unfolding process_all_stashed_with
    process_all_codes [] r = some r
    process_all_codes (code ∷ codes) r = elim (process_all_stashed_with code r) [
      | none ↦ none
      | some r' ↦ process_all_codes codes r'
    ]

    unfoldable pub process_all_stashed : Option ℤ → Router M S → Option (Router M S)
    unfolding process_all_codes
    process_all_stashed none r = process_all_codes (sorted int_lt (keys r.queues)) r
    process_all_stashed (some code) r = process_all_stashed_with code r

    -- The loop of `process_stashed_until_first_restash`. Each round takes a message from the queue. As
    -- many rounds as the queue is long are enough, unless a handler puts messages into this queue itself.
    -- The outer `none` is an exception, the inner one means that the rounds ran out.
    unfoldable pub until_loop : ℕ → ℤ → Router M S → Option (Option (Router M S))
    unfolding resolve_and_process pop
    until_loop zero code r = elim (lookup code r.queues) [
      | none ↦ some (some r)
      | some q ↦ elim (stashed q) [ [] ↦ some (some r) | _ ∷ _ ↦ some none ]
    ]
    until_loop (suc fuel) code r = elim (lookup code r.queues) [
      | none ↦ some (some r)
      | some q ↦ elim (pop q) [
        | none ↦ some (some r)
        | some (m, q') ↦
            elim (resolve_and_process m (record r { queues = insert code q' r.queues })) [
              | none ↦ none
              | some (done, r') ↦ elim done [
                | false ↦ some (some r')
                | true ↦ until_loop fuel code r'
              ]
            ]
      ]
    ]

    unfoldable pub until_first_restash_with : ℤ → Router M S → Option (Option (Router M S))
    unfolding until_loop
    until_first_restash_with code r = until_loop (stash_size (some code) r) code r

    unfoldable pub until_each : List ℤ → Router M S → Option (Option (Router M S))
    unfolding until_first_restash_with
    until_each [] r = some (some r)
    until_each (code ∷ codes) r = elim (until_first_restash_with code r) [
      | none ↦ none
      | some none ↦ some none
      | some (some r') ↦ until_each codes r'
    ]

    unfoldable pub process_stashed_until_first_restash :
        Option ℤ → Router M S → Option (Option (Router M S))
    unfolding until_each
    process_stashed_until_first_restash none r = until_each (sorted int_lt (keys r.queues)) r
    process_stashed_until_first_restash (some code) r = until_first_restash_with code r
