-- ===== src/Ordered.antt =====
-- Which batches are ordered already: `IntervalList` and `OrderedTracker` of
-- plenum/server/replica_helper.py. An interval is a pair of its first and its last number. The code
-- compares with `lo - 1`, the model `item + 1` with `lo`; `remove(next)` and `index(next)` look for the
-- first interval equal to `next`, which is `next` itself, as the intervals of a list lie apart.
pub mod Intervals
pub mod Canonical
pub mod Tracker
mod Tests
use indy_plenum.Prelude.{
  ℕ, ◌+◌, ◌-◌, List, [], ◌∷◌, Option, none, some, Bool, true, false, ◌&&◌, not, if◌then◌else◌, ◌==◌,
  ltb, leb, nat_eq, lookup, insert, select,
}

abbrev pub Interval : Type 0
Interval = ℕ × ℕ

-- `__contains__`
pub holds : ℕ → List Interval → Bool
holds item [] = false
holds item ((lo, hi) ∷ intervals) =
    if leb lo item && leb item hi then true else holds item intervals

-- The loop of `add` over the pairs of neighbours, and what follows it.
pub add_after : ℕ → Interval → List Interval → List Interval
add_after item (lo, hi) [] =
    if item == hi + 1 then (lo, hi + 1) ∷ [] else (lo, hi) ∷ (item, item) ∷ []
add_after item (lo, hi) ((lo', hi') ∷ rest) =
    let later = add_after item (lo', hi') rest in
    if item == hi + 1
    then (if hi + 1 + 1 == lo' then (lo, hi') ∷ rest else (lo, hi + 1) ∷ (lo', hi') ∷ rest)
    else if ltb (hi + 1) item && ltb (item + 1) lo'
    then (lo, hi) ∷ (item, item) ∷ (lo', hi') ∷ rest
    else if item + 1 == lo'
    then (lo, hi) ∷ (item, hi') ∷ rest
    else if leb lo' item && leb item hi'
    then (lo, hi) ∷ (lo', hi') ∷ rest
    else (lo, hi) ∷ later

unfoldable pub add_item : ℕ → List Interval → List Interval
unfolding add_after
add_item item [] = (item, item) ∷ []
add_item item ((lo, hi) ∷ rest) =
    if ltb (item + 1) lo
    then (item, item) ∷ (lo, hi) ∷ rest
    else if item + 1 == lo
    then (item, hi) ∷ rest
    else if leb lo item && leb item hi
    then (lo, hi) ∷ rest
    else add_after item (lo, hi) rest

-- `OrderedTracker`: the intervals of each view.
abbrev pub Batches : Type 0
Batches = List (ℕ × List Interval)

abbrev pub batches_of : ℕ → Batches → List Interval
batches_of view_no batches = elim (lookup view_no batches) [ some il ↦ il | none ↦ [] ]

-- The read adds the view.
unfoldable pub is_ordered : ℕ × ℕ → Batches → Bool × Batches
unfolding holds
is_ordered (view_no, pp_seq_no) batches = (
  holds pp_seq_no (batches_of view_no batches),
  elim (lookup view_no batches) [ some il ↦ batches | none ↦ insert view_no [] batches ],
)

unfoldable pub add_ordered : ℕ → ℕ → Batches → Batches
add_ordered view_no pp_seq_no batches =
    insert view_no (add_item pp_seq_no (batches_of view_no batches)) batches

unfoldable pub clear_below_view : ℕ → Batches → Batches
clear_below_view view_no = select (λ (v, il). not (ltb v view_no))
