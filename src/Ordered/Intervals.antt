-- ===== src/Ordered/Intervals.antt =====
-- `IntervalList` is a set of numbers.
use indy_plenum.Prelude.{
  ℕ, ◌+◌, ◌≤◌, ◌<◌, List, [], ◌∷◌, Bool, true, false, ◌&&◌, if◌then◌else◌, ◌==◌, ltb, leb, ◌≡◌,
  arith, Bool-cases, inl, inr,
}
use indy_plenum.Ordered.{Interval, holds, add_after, add_item}

-- The intervals are in order from `below` on, none is empty, and between two of them a number is missing.
abbrev pub IsAbove : ℕ → List Interval → Type 0
IsAbove below [] = Unit
IsAbove below ((lo, hi) ∷ rest) = (below ≤ lo) × (lo ≤ hi) × IsAbove (hi + 2) rest

abbrev pub IsApart : List Interval → Type 0
IsApart intervals = IsAbove 0 intervals

-- `y` is in the interval.
abbrev within : ℕ → ℕ → ℕ → Bool
within lo hi y = leb lo y && leb y hi

holds-add_after :
    (y item : ℕ) (lo hi : ℕ) (rest : List Interval)
    → lo ≤ hi
    → IsAbove (hi + 2) rest
    → hi < item
    → holds y (add_after item (lo, hi) rest)
      ≡ (if y == item then true else holds y ((lo, hi) ∷ rest))
unfolding holds add_after
holds-add_after y item lo hi [] a h above = elim (Bool-cases (item == hi + 1)) [
  | inl t ↦ rw t (ground arith)
  | inr t ↦ rw t (ground arith)
]
holds-add_after y item lo hi ((lo', hi') ∷ rest) a (b, c, h) above =
    elim (Bool-cases (item == hi + 1)) [
      | inl t ↦ elim (Bool-cases (hi + 1 + 1 == lo')) [
        | inl u ↦ rw (t, u) (extend_both a c t u)
        | inr u ↦ rw (t, u) (extend a t)
      ]
      | inr t ↦ elim (Bool-cases (ltb (hi + 1) item && ltb (item + 1) lo')) [
        | inl u ↦ rw (t, u) between
        | inr u ↦ elim (Bool-cases (item + 1 == lo')) [
          | inl v ↦ rw (t, u, v) (begin_earlier c v)
          | inr v ↦ elim (Bool-cases (leb lo' item && leb item hi')) [
            | inl w ↦ rw (t, u, v, w) (known w)
            | inr w ↦
                rw (t, u, v, w)
                  (skip (holds-add_after y item lo' hi' rest c h (beyond above b t u v w)))
          ]
        ]
      ]
    ]
  where
    extend_both :
        lo ≤ hi
        → lo' ≤ hi'
        → (item == hi + 1) ≡ true
        → (hi + 1 + 1 == lo') ≡ true
        → (if within lo hi' y then true else holds y rest) ≡ (
            if y == item
            then true
            else if within lo hi y
            then true
            else if within lo' hi' y
            then true
            else holds y rest)
    extend_both a c t u = ground arith

    extend :
        lo ≤ hi
        → (item == hi + 1) ≡ true
        → (if within lo (hi + 1) y then true else if within lo' hi' y then true else holds y rest)
          ≡ (if y == item
              then true
              else if within lo hi y
              then true
              else if within lo' hi' y
              then true
              else holds y rest)
    extend a t = ground arith

    between :
        (if within lo hi y
          then true
          else if within item item y
          then true
          else if within lo' hi' y
          then true
          else holds y rest)
        ≡ (if y == item
            then true
            else if within lo hi y
            then true
            else if within lo' hi' y
            then true
            else holds y rest)
    between = ground arith

    begin_earlier :
        lo' ≤ hi'
        → (item + 1 == lo') ≡ true
        → (if within lo hi y then true else if within item hi' y then true else holds y rest) ≡ (
            if y == item
            then true
            else if within lo hi y
            then true
            else if within lo' hi' y
            then true
            else holds y rest)
    begin_earlier c v = ground arith

    known :
        within lo' hi' item ≡ true
        → (if within lo hi y then true else if within lo' hi' y then true else holds y rest) ≡ (
            if y == item
            then true
            else if within lo hi y
            then true
            else if within lo' hi' y
            then true
            else holds y rest)
    known w = ground arith

    skip :
        {b : Bool}
        → b ≡ (if y == item then true else if within lo' hi' y then true else holds y rest)
        → (if within lo hi y then true else b) ≡ (
            if y == item
            then true
            else if within lo hi y
            then true
            else if within lo' hi' y
            then true
            else holds y rest)
    skip e = ground arith

    beyond :
        hi < item
        → hi + 2 ≤ lo'
        → (item == hi + 1) ≡ false
        → (ltb (hi + 1) item && ltb (item + 1) lo') ≡ false
        → (item + 1 == lo') ≡ false
        → (leb lo' item && leb item hi') ≡ false
        → hi' < item
    beyond above b t u v w = ground arith

-- After `add` the list holds what it held, and the new number.
pub holds-add_item :
    (y item : ℕ) (intervals : List Interval)
    → IsApart intervals
    → holds y (add_item item intervals) ≡ (if y == item then true else holds y intervals)
unfolding holds add_item
holds-add_item y item [] h = ground arith
holds-add_item y item ((lo, hi) ∷ rest) (_, c, h) = elim (Bool-cases (ltb (item + 1) lo)) [
  | inl t ↦ rw t before
  | inr t ↦ elim (Bool-cases (item + 1 == lo)) [
    | inl u ↦ rw (t, u) (begin_earlier c u)
    | inr u ↦ elim (Bool-cases (leb lo item && leb item hi)) [
      | inl v ↦ rw (t, u, v) (known v)
      | inr v ↦ rw (t, u, v) (holds-add_after y item lo hi rest c h (beyond t u v))
    ]
  ]
]
  where
    before :
        (if within item item y then true else if within lo hi y then true else holds y rest)
        ≡ (if y == item then true else if within lo hi y then true else holds y rest)
    before = ground arith

    begin_earlier :
        lo ≤ hi
        → (item + 1 == lo) ≡ true
        → (if within item hi y then true else holds y rest)
          ≡ (if y == item then true else if within lo hi y then true else holds y rest)
    begin_earlier c u = ground arith

    known :
        within lo hi item ≡ true
        → (if within lo hi y then true else holds y rest)
          ≡ (if y == item then true else if within lo hi y then true else holds y rest)
    known v = ground arith

    beyond :
        ltb (item + 1) lo ≡ false → (item + 1 == lo) ≡ false → within lo hi item ≡ false → hi < item
    beyond t u v = ground arith

add_after-IsAbove :
    (item below lo hi : ℕ) (rest : List Interval)
    → below ≤ lo
    → lo ≤ hi
    → IsAbove (hi + 2) rest
    → hi < item
    → IsAbove below (add_after item (lo, hi) rest)
unfolding add_after
add_after-IsAbove item below lo hi [] l a h above = elim (Bool-cases (item == hi + 1)) [
  | inl t ↦ rw t (l, omega arith, tt)
  | inr t ↦ rw t (l, a, (ground arith, omega arith, tt))
]
add_after-IsAbove item below lo hi ((lo', hi') ∷ rest) l a (b, c, h) above =
    elim (Bool-cases (item == hi + 1)) [
      | inl t ↦ elim (Bool-cases (hi + 1 + 1 == lo')) [
        | inl u ↦ rw (t, u) (l, omega arith, h)
        | inr u ↦ rw (t, u) (l, omega arith, (ground arith, c, h))
      ]
      | inr t ↦ elim (Bool-cases (ltb (hi + 1) item && ltb (item + 1) lo')) [
        | inl u ↦ rw (t, u) (l, a, (ground arith, omega arith, (ground arith, c, h)))
        | inr u ↦ elim (Bool-cases (item + 1 == lo')) [
          | inl v ↦ rw (t, u, v) (l, a, (ground arith, ground arith, h))
          | inr v ↦ elim (Bool-cases (leb lo' item && leb item hi')) [
            | inl w ↦ rw (t, u, v, w) (l, a, (b, c, h))
            | inr w ↦
                rw (t, u, v, w)
                  (l, a, add_after-IsAbove item (hi + 2) lo' hi' rest b c h (ground arith))
          ]
        ]
      ]
    ]

-- `add` keeps the intervals in order, apart from each other and not empty.
pub add_item-IsApart :
    (item : ℕ) (intervals : List Interval) → IsApart intervals → IsApart (add_item item intervals)
unfolding add_item
add_item-IsApart item [] h = (omega arith, omega arith, tt)
add_item-IsApart item ((lo, hi) ∷ rest) (z, a, h) = elim (Bool-cases (ltb (item + 1) lo)) [
  | inl t ↦ rw t (omega arith, omega arith, (ground arith, a, h))
  | inr t ↦ elim (Bool-cases (item + 1 == lo)) [
    | inl u ↦ rw (t, u) (omega arith, ground arith, h)
    | inr u ↦ elim (Bool-cases (leb lo item && leb item hi)) [
      | inl v ↦ rw (t, u, v) (z, a, h)
      | inr v ↦ rw (t, u, v) (add_after-IsAbove item 0 lo hi rest z a h (ground arith))
    ]
  ]
]
