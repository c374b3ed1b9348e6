-- ===== src/Observer/Sequence.antt =====
-- The batches that an observer applies, one after another.
use indy_plenum.Prelude.{
  ℕ, zero, suc, ◌+◌, ◌==◌, ==_iff, ◌<◌, ◌≡◌, refl, sym, ap, subst, ◌⊎◌, String, Bool-cases, true,
  false, Option, Option-cases, none, some, List, [], ◌∷◌, length, lookup, inl, inr, nat_eq,
  string_eq, ◌=?◌, arith,
}
use indy_plenum.Quorums.{Quorum}
use indy_plenum.Observer.{
  Batch, Policy, number_or_zero, can_process, add_batch, next_seq_no, can_apply, do_apply_data,
  next_batch, and_before, process_stashed_messages, apply_data,
}

-- Each batch starts right after the end of the one before it, if one was applied before.
abbrev pub Follows : Option ℕ → List Batch → Option ℕ → Type 0
Follows last [] last' = last ≡ last'
Follows last (b ∷ bs) last' =
    (0 < number_or_zero last → b.seq_no_start ≡ number_or_zero last + 1)
    × Follows (some b.seq_no_end) bs last'

next_seq_no_lem :
    (s : Policy)
    → 0 < number_or_zero s.last_applied_seq_no
    → next_seq_no s ≡ some (number_or_zero s.last_applied_seq_no + 1)
unfolding next_seq_no
next_seq_no_lem s more =
    let t : (number_or_zero s.last_applied_seq_no == 0) ≡ false = ground arith in rw t refl

can_apply-next :
    (quorum : Quorum) (b : Batch) (s : Policy)
    → can_apply quorum b s ≡ some true
    → 0 < number_or_zero s.last_applied_seq_no
    → b.seq_no_start ≡ number_or_zero s.last_applied_seq_no + 1
unfolding can_apply
can_apply-next quorum b s e more =
    let next = number_or_zero s.last_applied_seq_no + 1 in
    elim (Bool-cases (b.seq_no_start == next)) [
      | inl u ↦ (==_iff b.seq_no_start next).0 u
      | inr u ↦ absurd (cc (rw (can_apply, next_seq_no_lem s more, u) at e))
    ]

List-cases :
    {A : Type 0} → (xs : List A) → (xs ≡ []) ⊎ ((x : A) × (rest : List A) × (xs ≡ x ∷ rest))
List-cases [] = inl refl
List-cases (x ∷ rest) = inr (x, rest, refl)

do_apply_data-last :
    (b : Batch) (s s' : Policy)
    → do_apply_data b s ≡ some s'
    → s'.last_applied_seq_no ≡ some b.seq_no_end
unfolding do_apply_data
do_apply_data-last b s s' e = elim (Option-cases (lookup b.seq_no_start s.batches)) [
  | inl t ↦ absurd (cc (rw (do_apply_data, t) at e))
  | inr (votes, t) ↦ elim (List-cases s.batch_seq_no) [
    | inl h ↦ absurd (cc (rw (do_apply_data, t, h) at e))
    | inr (n, rest, h) ↦ ap (λ (o : Option ℕ). o) (sym (last_of (rw (do_apply_data, t, h) at e)))
  ]
]
  where
    last_or : Option Policy → Option ℕ
    last_or none = none
    last_or (some p) = p.last_applied_seq_no

    last_of : {p q : Policy} → some p ≡ some q → p.last_applied_seq_no ≡ q.last_applied_seq_no
    last_of e = ap last_or e

-- What a call hands to the node follows what was applied before.
abbrev FollowsIn : Option ℕ → Option (Policy × List Batch) → Type 0
FollowsIn last none = Unit
FollowsIn last (some (s', applied)) = Follows last applied s'.last_applied_seq_no

and_before-FollowsIn :
    (b : Batch) (s t : Policy) (r : Option (Policy × List Batch))
    → (0 < number_or_zero s.last_applied_seq_no
        → b.seq_no_start ≡ number_or_zero s.last_applied_seq_no + 1)
    → t.last_applied_seq_no ≡ some b.seq_no_end
    → FollowsIn t.last_applied_seq_no r
    → FollowsIn s.last_applied_seq_no (and_before b r)
and_before-FollowsIn b s t none next last rest = tt
and_before-FollowsIn b s t (some (s2, more)) next last rest =
    (next, subst (λ o. Follows o more s2.last_applied_seq_no) last rest)

-- A batch that passes `can_apply`, with what is applied after it.
applied-FollowsIn :
    (quorum : Quorum) (b : Batch) (s t : Policy) (r : Option (Policy × List Batch))
    → can_apply quorum b s ≡ some true
    → do_apply_data b s ≡ some t
    → FollowsIn t.last_applied_seq_no r
    → FollowsIn s.last_applied_seq_no (and_before b r)
applied-FollowsIn quorum b s t r applies done =
    and_before-FollowsIn b s t r (can_apply-next quorum b s applies) (do_apply_data-last b s t done)

process_stashed_messages-FollowsIn :
    (fuel : ℕ) (quorum : Quorum) (s : Policy)
    → FollowsIn s.last_applied_seq_no (process_stashed_messages fuel quorum s)
unfolding process_stashed_messages
process_stashed_messages-FollowsIn zero quorum s = refl
process_stashed_messages-FollowsIn (suc fuel) quorum s = elim (List-cases s.batches) [
  | inl t1 ↦ rw (process_stashed_messages, t1) refl
  | inr (v, vs, t1) ↦ elim (List-cases s.batch_seq_no) [
    | inl t2 ↦ rw (process_stashed_messages, t1, t2) refl
    | inr (n, ns, t2) ↦ elim (Option-cases (next_batch s)) [
      | inl t3 ↦ rw (process_stashed_messages, t1, t2, t3) tt
      | inr (b, t3) ↦ elim (Option-cases (can_apply quorum b s)) [
        | inl t4 ↦ rw (process_stashed_messages, t1, t2, t3, t4) tt
        | inr (false, t4) ↦ rw (process_stashed_messages, t1, t2, t3, t4) refl
        | inr (true, t4) ↦ elim (Option-cases (do_apply_data b s)) [
          | inl t5 ↦ rw (process_stashed_messages, t1, t2, t3, t4, t5) tt
          | inr (s', t5) ↦
              rw (process_stashed_messages, t1, t2, t3, t4, t5)
                (applied-FollowsIn quorum b s s' (process_stashed_messages fuel quorum s') t4 t5
                  (process_stashed_messages-FollowsIn fuel quorum s'))
        ]
      ]
    ]
  ]
]

apply_data-FollowsIn :
    (quorum : Quorum) (msg_type : String) (b : Batch) (sender : String) (s : Policy)
    → FollowsIn s.last_applied_seq_no (apply_data quorum msg_type b sender s)
unfolding apply_data add_batch
apply_data-FollowsIn quorum msg_type b sender s = elim (Bool-cases (msg_type =? "BATCH")) [
  | inr t1 ↦ rw (apply_data, t1) tt
  | inl t1 ↦ elim (Bool-cases (can_process b s)) [
    | inr t2 ↦ rw (apply_data, t1, t2) refl
    | inl t2 ↦
        let added = add_batch b sender s in
        elim (Option-cases (can_apply quorum b added)) [
          | inl t3 ↦ rw (apply_data, t1, t2, t3) tt
          | inr (false, t3) ↦ rw (apply_data, t1, t2, t3) refl
          | inr (true, t3) ↦ elim (Option-cases (do_apply_data b added)) [
            | inl t4 ↦ rw (apply_data, t1, t2, t3, t4) tt
            | inr (s', t4) ↦
                rw (apply_data, t1, t2, t3, t4)
                  (applied-FollowsIn quorum b added s'
                    (process_stashed_messages (length s'.batch_seq_no) quorum s') t3 t4
                    (process_stashed_messages-FollowsIn (length s'.batch_seq_no) quorum s'))
          ]
        ]
  ]
]

-- The batches that a call of `apply_data` hands to the node, stashed ones included, come one right
-- after another: the first one starts after the end of the last batch applied before, if there is
-- one, each other one after the end of the one before it, and the end of the last is what is kept.
pub apply_data-Follows :
    (quorum : Quorum) (msg_type : String) (b : Batch) (sender : String) (s s' : Policy)
    (applied : List Batch)
    → apply_data quorum msg_type b sender s ≡ some (s', applied)
    → Follows s.last_applied_seq_no applied s'.last_applied_seq_no
apply_data-Follows quorum msg_type b sender s s' applied e =
    subst (FollowsIn s.last_applied_seq_no) e (apply_data-FollowsIn quorum msg_type b sender s)
