-- ===== src/Ordered/Tracker.antt =====
-- `OrderedTracker` is a set of pairs of a view and a number.
use indy_plenum.Prelude.{
  ℕ, List, [], ◌∷◌, none, true, false, ◌&&◌, if◌then◌else◌, ltb, ◌==◌, ◌≡◌, refl, ◌∙◌, ap, arith,
  Bool-cases, Option-cases, inl, inr, nat_eq, ◌=?◌, lookup, insert, lookup-insert,
}
use indy_plenum.Ordered.{
  Interval, holds, add_item, Batches, batches_of, is_ordered, add_ordered, clear_below_view,
}
use indy_plenum.Ordered.Intervals.{IsApart, add_item-IsApart, holds-add_item}

-- The intervals of each view lie apart.
abbrev pub IsTracker : Batches → Type 0
IsTracker batches = (view_no : ℕ) → IsApart (batches_of view_no batches)

batches_of-insert :
    (v view_no : ℕ) (il : List Interval) (batches : Batches)
    → batches_of v (insert view_no il batches) ≡ (if view_no =? v then il else batches_of v batches)
batches_of-insert v view_no il batches = elim (Bool-cases (view_no =? v)) [
  | inl t ↦ rw (lookup-insert view_no v il batches, batches_of, t)
  | inr t ↦ rw (lookup-insert view_no v il batches, batches_of, t)
]

add_ordered-IsTracker :
    (view_no pp_seq_no : ℕ) (batches : Batches)
    → IsTracker batches
    → IsTracker (add_ordered view_no pp_seq_no batches)
unfolding add_ordered
add_ordered-IsTracker view_no pp_seq_no batches h v =
    rw (batches_of-insert v view_no (add_item pp_seq_no (batches_of view_no batches)) batches)
      (elim (Bool-cases (view_no =? v)) [
        | inl t ↦ rw t (add_item-IsApart pp_seq_no (batches_of view_no batches) (h view_no))
        | inr t ↦ rw t (h v)
      ])

-- Adding a batch keeps the tracker's intervals apart, and then it has that batch and what it had.
pub add_ordered_lem :
    (view_no pp_seq_no v n : ℕ) (batches : Batches)
    → IsTracker batches
    → IsTracker (add_ordered view_no pp_seq_no batches)
      × ((is_ordered (v, n) (add_ordered view_no pp_seq_no batches)).0
          ≡ (if view_no == v && n == pp_seq_no then true else (is_ordered (v, n) batches).0))
unfolding add_ordered is_ordered
add_ordered_lem view_no pp_seq_no v n batches h = (
  add_ordered-IsTracker view_no pp_seq_no batches h,
  rw (batches_of-insert v view_no (add_item pp_seq_no (batches_of view_no batches)) batches)
      (elim (Bool-cases (view_no == v)) [
        | inl t ↦
            let same : view_no ≡ v = ground arith in
            rw t
              (holds-add_item n pp_seq_no (batches_of view_no batches) (h view_no) ∙ rw same refl)
        | inr t ↦ rw t refl
      ]),
)

lookup-clear :
    (view_no v : ℕ) (batches : Batches)
    → lookup v (clear_below_view view_no batches)
      ≡ (if ltb v view_no then none else lookup v batches)
unfolding clear_below_view
lookup-clear view_no v [] = ground arith
lookup-clear view_no v ((w, il) ∷ batches) = ground (arith, lookup-clear view_no v batches)

batches_of-clear :
    (view_no v : ℕ) (batches : Batches)
    → batches_of v (clear_below_view view_no batches)
      ≡ (if ltb v view_no then [] else batches_of v batches)
batches_of-clear view_no v batches = elim (Bool-cases (ltb v view_no)) [
  | inl t ↦ rw (lookup-clear view_no v batches, batches_of, t)
  | inr t ↦ rw (lookup-clear view_no v batches, batches_of, t)
]

-- The read of a view that is not there adds an empty list.
batches_of-read :
    (v w n : ℕ) (batches : Batches)
    → batches_of v (is_ordered (w, n) batches).1 ≡ batches_of v batches
unfolding is_ordered
batches_of-read v w n batches = elim (Option-cases (lookup w batches)) [
  | inr (il, e) ↦ rw (e, is_ordered) refl
  | inl e ↦
      rw (e, is_ordered, batches_of-insert v w [] batches)
        (elim (Bool-cases (w =? v)) [
          | inr t ↦ rw t refl
          | inl t ↦
              let same : w ≡ v = (nat_eq.beq_iff w v).0 t in
              let gone : lookup v batches ≡ none = rw same at e in rw (t, gone, batches_of) refl
        ])
]

-- `clear_below_view` forgets the batches of lower views and keeps the others, and a read that adds its
-- view changes nothing that can be read.
pub clear_below_view_lem :
    (view_no v n w m : ℕ) (batches : Batches)
    → ((is_ordered (v, n) (clear_below_view view_no batches)).0
        ≡ (if ltb v view_no then false else (is_ordered (v, n) batches).0))
      × ((is_ordered (v, n) (is_ordered (w, m) batches).1).0 ≡ (is_ordered (v, n) batches).0)
unfolding is_ordered holds
clear_below_view_lem view_no v n w m batches = (
  rw (batches_of-clear view_no v batches)
      (elim (Bool-cases (ltb v view_no)) [ inl t ↦ rw t refl | inr t ↦ rw t refl ]),
  ap (holds n) (batches_of-read v w m batches),
)
