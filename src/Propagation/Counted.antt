-- ===== src/Propagation/Counted.antt =====
-- `finalised_count` counts the finalised requests.
use indy_plenum.Prelude.{
  ℕ, ◌-◌, String, List, Option, none, some, Bool, true, ◌≡◌, refl, sym, ◌∙◌, ap, subst, arith, inl,
  inr, Bool-cases, Option-cases, ◌=?◌, string_eq, lookup, insert, lookup-insert, keys, Distinct,
  Distinct-keys-insert, ◌&&◌, ◌==◌, lookup-insert_self,
}
use indy_plenum.Propagation.{
  Sender, sender_eq, Request, ReqState, req_state, Requests, is_some, put, add_request,
  ordered_by_replica, mark_as_forwarded, add_propagate, set_finalised, drop_state, clean,
  mark_as_executed, free, force_free,
}
use indy_plenum.Propagation.Dict.{
  one_if, held, held-insert_new, held-insert, held-remove, Distinct-keys-remove, lookup-remove,
}

abbrev finalised : ReqState → Bool
finalised state = is_some state.finalised

-- The keys are distinct, a state is stored under the key of its request, and `finalised_count` is the
-- number of finalised states.
pub record IsCounted (r : Requests) : Type 0 where
  pub distinct : Distinct (keys r.items)
  pub named :
      (key : String) (state : ReqState)
      → lookup key r.items ≡ some state
      → state.request.digest ≡ key
  pub counted : r.finalised_count ≡ held finalised r.items

named-insert :
    (key : String) (state : ReqState) (d : List (String × ReqState))
    → ((k : String) (s : ReqState) → lookup k d ≡ some s → s.request.digest ≡ k)
    → state.request.digest ≡ key
    → (k : String) (s : ReqState) → lookup k (insert key state d) ≡ some s
    → s.request.digest ≡ k
named-insert key state d h e k s f = elim (Bool-cases (key =? k)) [
  | inl t ↦
      let same : state ≡ s = cc (rw (lookup-insert key k state d, t) at f) in
      sym (ap (λ (x : ReqState). x.request.digest) same) ∙ e ∙ (string_eq.beq_iff key k).0 t
  | inr t ↦ h k s (rw (lookup-insert key k state d, t) at f)
]

-- A state replaced by one that is finalised or not as it was.
put-IsCounted :
    (key : String) (state old : ReqState) (r : Requests)
    → IsCounted r
    → lookup key r.items ≡ some old
    → state.request ≡ old.request
    → state.finalised ≡ old.finalised
    → IsCounted (put key state r)
put-IsCounted key state old r h e same fin = record {
  distinct = Distinct-keys-insert key state r.items h.distinct;
  named =
      named-insert key state r.items h.named
        (ap (λ (q : Request). q.digest) same ∙ h.named key old e);
  counted =
      let moved = held-insert finalised key state old r.items e in
      let flag = ap (λ (o : Option Request). one_if (is_some o)) fin in
      omega (arith, h.counted, moved, flag);
}

add_request-IsCounted :
    (req : Request) (r : Requests)
    → IsCounted r
    → IsCounted (add_request req r).1
      × (lookup req.digest (add_request req r).1.items ≡ some (add_request req r).0)
unfolding add_request
add_request-IsCounted req r h = elim (Option-cases (lookup req.digest r.items)) [
  | inr (state, e) ↦ rw (e, add_request) (h, e)
  | inl e ↦
      rw (e, add_request)
        (
          record {
            distinct = Distinct-keys-insert req.digest (req_state req) r.items h.distinct;
            named = named-insert req.digest (req_state req) r.items h.named refl;
            counted =
                omega (
                  arith,
                  h.counted,
                  held-insert_new finalised req.digest (req_state req) r.items e,
                );
          },
          lookup-insert_self req.digest (req_state req) r.items,
        )
]

add_propagate-IsCounted :
    (req : Request) (sender : Sender) (r : Requests)
    → IsCounted r
    → IsCounted (add_propagate req sender r)
unfolding add_propagate
add_propagate-IsCounted req sender r h =
    let (h', e) = add_request-IsCounted req r h in
    let (state, r') = add_request req r in
    put-IsCounted req.digest (record state { propagates = insert sender req state.propagates })
      state r' h' e refl refl

drop_state-IsCounted :
    (key : String) (state : ReqState) (r : Requests)
    → IsCounted r
    → lookup key r.items ≡ some state
    → IsCounted (drop_state key state r)
unfolding drop_state
drop_state-IsCounted key state r h e = record {
  distinct = Distinct-keys-remove finalised key r.items h.distinct;
  named = λ k s f. h.named k s ((lookup-remove key k s r.items f).0);
  counted =
      let gone = held-remove finalised key state r.items h.distinct e in
      elim (Bool-cases (is_some state.finalised)) [
        | inl t ↦ rw t (omega (arith, h.counted, gone, ap one_if t))
        | inr t ↦ rw t (omega (arith, h.counted, gone, ap one_if t))
      ];
}

clean-IsCounted :
    (key : String) (state old : ReqState) (r : Requests)
    → IsCounted r
    → lookup key r.items ≡ some old
    → state.request ≡ old.request
    → state.finalised ≡ old.finalised
    → IsCounted (clean key state r)
unfolding clean
clean-IsCounted key state old r h e same fin =
    let h' = put-IsCounted key state old r h e same fin in
    let own : state.request.digest ≡ key =
      ap (λ (q : Request). q.digest) same ∙ h.named key old e in
    elim (Bool-cases (state.executed && state.forwarded_to == 0)) [
      | inl t ↦ rw t (
          drop_state-IsCounted state.request.digest state (put key state r) h' (
            subst (λ k. lookup k (insert key state r.items) ≡ some state) (sym own)
              (lookup-insert_self key state r.items)))
      | inr t ↦ rw t h'
    ]

-- Of an operation that may raise.
abbrev pub IsCountedIf : Option Requests → Type 0
IsCountedIf none = Unit
IsCountedIf (some r) = IsCounted r

set_finalised-IsCounted :
    (req : Request) (r : Requests) → IsCounted r → IsCountedIf (set_finalised req r)
unfolding set_finalised
set_finalised-IsCounted req r h = elim (Option-cases (lookup req.digest r.items)) [
  | inl e ↦ rw (e, set_finalised) tt
  | inr (state, e) ↦
      let done = record state { finalised = some req } in
      let moved = held-insert finalised req.digest done state r.items e in
      rw (e, set_finalised)
        (record {
          distinct = Distinct-keys-insert req.digest done r.items h.distinct;
          named = named-insert req.digest done r.items h.named (h.named req.digest state e);
          counted = elim (Bool-cases (is_some state.finalised)) [
            | inl t ↦ rw t (omega (arith, h.counted, moved, ap one_if t))
            | inr t ↦ rw t (omega (arith, h.counted, moved, ap one_if t))
          ];
        })
]

mark_as_forwarded-IsCounted :
    (req : Request) (to : ℕ) (r : Requests) → IsCounted r → IsCountedIf (mark_as_forwarded req to r)
unfolding mark_as_forwarded
mark_as_forwarded-IsCounted req to r h = elim (Option-cases (lookup req.digest r.items)) [
  | inl e ↦ rw (e, mark_as_forwarded) tt
  | inr (state, e) ↦
      rw (e, mark_as_forwarded)
        (put-IsCounted req.digest
          (record state { forwarded = true; forwarded_to = to; unordered_by_replicas_num = to })
          state r h e refl refl)
]

mark_as_executed-IsCounted :
    (req : Request) (r : Requests) → IsCounted r → IsCountedIf (mark_as_executed req r)
unfolding mark_as_executed
mark_as_executed-IsCounted req r h = elim (Option-cases (lookup req.digest r.items)) [
  | inl e ↦ rw (e, mark_as_executed) tt
  | inr (state, e) ↦
      rw (e, mark_as_executed)
        (clean-IsCounted req.digest (record state { executed = true }) state r h e refl refl)
]

ordered_by_replica-IsCounted :
    (key : String) (r : Requests) → IsCounted r → IsCounted (ordered_by_replica key r)
unfolding ordered_by_replica
ordered_by_replica-IsCounted key r h = elim (Option-cases (lookup key r.items)) [
  | inl e ↦ rw (e, ordered_by_replica) h
  | inr (state, e) ↦
      rw (e, ordered_by_replica)
        (put-IsCounted key
          (record state { unordered_by_replicas_num = state.unordered_by_replicas_num - 1 }) state r
          h e refl refl)
]

free-IsCounted : (key : String) (r : Requests) → IsCounted r → IsCounted (free key r)
unfolding free
free-IsCounted key r h = elim (Option-cases (lookup key r.items)) [
  | inl e ↦ rw (e, free) h
  | inr (state, e) ↦
      rw (e, free)
        (clean-IsCounted key (record state { forwarded_to = state.forwarded_to - 1 }) state r h e
          refl refl)
]

force_free-IsCounted : (key : String) (r : Requests) → IsCounted r → IsCounted (force_free key r)
unfolding force_free
force_free-IsCounted key r h = elim (Option-cases (lookup key r.items)) [
  | inl e ↦ rw (e, force_free) h
  | inr (state, e) ↦ rw (e, force_free) (drop_state-IsCounted key state r h e)
]

-- Every operation on the requests, where it does not raise a KeyError, keeps the keys distinct, the
-- states under the keys of their requests, and `finalised_count` the number of finalised states.
pub requests-IsCounted :
    (req : Request) (key : String) (sender : Sender) (to : ℕ) (r : Requests)
    → IsCounted r
    → IsCounted (add_request req r).1
      × IsCounted (add_propagate req sender r)
      × IsCounted (ordered_by_replica key r)
      × IsCounted (free key r)
      × IsCounted (force_free key r)
      × IsCountedIf (mark_as_forwarded req to r)
      × IsCountedIf (mark_as_executed req r)
      × IsCountedIf (set_finalised req r)
requests-IsCounted req key sender to r h = (
  (add_request-IsCounted req r h).0,
  add_propagate-IsCounted req sender r h,
  ordered_by_replica-IsCounted key r h,
  free-IsCounted key r h,
  force_free-IsCounted key r h,
  mark_as_forwarded-IsCounted req to r h,
  mark_as_executed-IsCounted req r h,
  set_finalised-IsCounted req r h,
)
