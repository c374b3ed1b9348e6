-- ===== src/Ordered/Tests.antt =====
-- Numbers that come out of order.
use indy_plenum.Prelude.{
  List, [], ◌∷◌, true, ◌&&◌, if◌then◌else◌, ◌==◌, ◌≡◌, refl, arith, Bool-cases, inl, inr,
}
use indy_plenum.Ordered.{Interval, add_item, add_after, Batches, is_ordered, add_ordered}
use indy_plenum.Ordered.Intervals.{IsApart}
use indy_plenum.Ordered.Tracker.{IsTracker, add_ordered_lem}

abbrev some_intervals : List Interval
some_intervals = (1, 2) ∷ (4, 4) ∷ (8, 9) ∷ []

-- The 3 joins the first two intervals.
add_three : add_item 3 some_intervals ≡ (1, 4) ∷ (8, 9) ∷ []
unfolding add_item add_after
add_three = refl

some_intervals-IsApart : IsApart some_intervals
some_intervals-IsApart =
    (omega arith, omega arith, (omega arith, omega arith, (omega arith, omega arith, tt)))

abbrev batches : Batches
batches = (0, some_intervals) ∷ (1, (1, 3) ∷ []) ∷ []

batches-IsTracker : IsTracker batches
batches-IsTracker v = elim (Bool-cases (0 == v)) [
  | inl t ↦ rw t some_intervals-IsApart
  | inr t ↦ elim (Bool-cases (1 == v)) [
    | inl u ↦ rw (t, u) (omega arith, omega arith, tt)
    | inr u ↦ rw (t, u) tt
  ]
]

add_ordered_lem_example :
    IsTracker (add_ordered 1 4 batches)
    × ((is_ordered (1, 2) (add_ordered 1 4 batches)).0
        ≡ (if 1 == 1 && 2 == 4 then true else (is_ordered (1, 2) batches).0))
add_ordered_lem_example = add_ordered_lem 1 4 1 2 batches batches-IsTracker
