-- ===== src/Ordered/Canonical.antt =====
-- `IntervalList.__eq__` compares the intervals, and so the sets.
use indy_plenum.Prelude.{
  ℕ, ◌+◌, ◌≤◌, ◌<◌, List, [], ◌∷◌, true, false, ◌&&◌, ltb, leb, ◌≡◌, refl, sym, ◌∙◌, ap, subst,
  arith, Bool-cases, inl, inr,
}
use indy_plenum.Ordered.{Interval, holds}
use indy_plenum.Ordered.Intervals.{IsAbove, IsApart}

-- The numbers below the bound are not held.
pub holds-IsAbove :
    (y below : ℕ) (intervals : List Interval)
    → IsAbove below intervals
    → y < below
    → holds y intervals ≡ false
unfolding holds
holds-IsAbove y below [] h lt = refl
holds-IsAbove y below ((lo, hi) ∷ rest) (l, a, h) lt =
    let out : (leb lo y && leb y hi) ≡ false = ground arith in
    rw out (holds-IsAbove y (hi + 2) rest h (omega arith))

holds-first : (lo hi : ℕ) (rest : List Interval) → lo ≤ hi → holds lo ((lo, hi) ∷ rest) ≡ true
unfolding holds
holds-first lo hi rest a = ground arith

holds-last :
    (y lo hi : ℕ) (rest : List Interval) → lo ≤ y → y ≤ hi → holds y ((lo, hi) ∷ rest) ≡ true
unfolding holds
holds-last y lo hi rest l u = ground arith

holds-rest :
    (y lo hi : ℕ) (rest : List Interval) → hi < y → holds y ((lo, hi) ∷ rest) ≡ holds y rest
unfolding holds
holds-rest y lo hi rest l = ground arith

holds-nil : (y : ℕ) → holds y [] ≡ false
unfolding holds
holds-nil y = refl

not_earlier :
    (lo hi lo' hi' : ℕ) (xs ys : List Interval)
    → lo ≤ hi
    → IsAbove lo' ((lo', hi') ∷ ys)
    → holds lo ((lo, hi) ∷ xs) ≡ holds lo ((lo', hi') ∷ ys)
    → lo' ≤ lo
not_earlier lo hi lo' hi' xs ys a h same = elim (Bool-cases (ltb lo lo')) [
  | inl t ↦ absurd (
      cc (
        sym (holds-first lo hi xs a)
        ∙ same
        ∙ holds-IsAbove lo lo' ((lo', hi') ∷ ys) h (ground arith)))
  | inr t ↦ ground arith
]

not_longer :
    (lo hi lo' hi' : ℕ) (xs ys : List Interval)
    → lo' ≤ hi + 1
    → IsAbove (hi + 2) xs
    → holds (hi + 1) ((lo, hi) ∷ xs) ≡ holds (hi + 1) ((lo', hi') ∷ ys)
    → hi' ≤ hi
not_longer lo hi lo' hi' xs ys l h same = elim (Bool-cases (ltb hi hi')) [
  | inl t ↦ absurd (
      cc (
        sym (holds-last (hi + 1) lo' hi' ys l (ground arith))
        ∙ sym same
        ∙ holds-rest (hi + 1) lo hi xs (omega arith)
        ∙ holds-IsAbove (hi + 1) (hi + 2) xs h (omega arith)))
  | inr t ↦ ground arith
]

same_rest :
    (lo hi : ℕ) (xs ys : List Interval)
    → IsAbove (hi + 2) xs
    → IsAbove (hi + 2) ys
    → ((y : ℕ) → holds y ((lo, hi) ∷ xs) ≡ holds y ((lo, hi) ∷ ys))
    → (y : ℕ) → holds y xs ≡ holds y ys
same_rest lo hi xs ys hx hy same y = elim (Bool-cases (ltb hi y)) [
  | inl t ↦
      sym (holds-rest y lo hi xs (ground arith)) ∙ same y ∙ holds-rest y lo hi ys (ground arith)
  | inr t ↦
      holds-IsAbove y (hi + 2) xs hx (ground arith)
      ∙ sym (holds-IsAbove y (hi + 2) ys hy (ground arith))
]

same_above :
    (below : ℕ) (xs ys : List Interval)
    → IsAbove below xs
    → IsAbove below ys
    → ((y : ℕ) → holds y xs ≡ holds y ys)
    → xs ≡ ys
same_above below [] [] hx hy same = refl
same_above below [] ((lo, hi) ∷ ys) hx hy same =
    absurd (cc (sym (holds-nil lo) ∙ same lo ∙ holds-first lo hi ys hy.1))
same_above below ((lo, hi) ∷ xs) [] hx hy same =
    absurd (cc (sym (holds-nil lo) ∙ sym (same lo) ∙ holds-first lo hi xs hx.1))
same_above below ((lo, hi) ∷ xs) ((lo', hi') ∷ ys) (l, a, hx) (l', a', hy) same =
    let p = not_earlier lo hi lo' hi' xs ys a (omega arith, a', hy) (same lo) in
    let p' = not_earlier lo' hi' lo hi ys xs a' (omega arith, a, hx) (sym (same lo')) in
    let q = not_longer lo hi lo' hi' xs ys (omega arith) hx (same (hi + 1)) in
    let q' = not_longer lo' hi' lo hi ys xs (omega arith) hy (sym (same (hi' + 1))) in
    let lows : lo ≡ lo' = omega arith in
    let highs : hi ≡ hi' = omega arith in
    let pair : Path Interval (lo', hi') (lo, hi) = cc in
    let hy' = subst (λ z. IsAbove (z + 2) ys) (sym highs) hy in
    let tails =
      same_above (hi + 2) xs ys hx hy' (
        same_rest lo hi xs ys hx hy'
          (λ y. same y ∙ ap (λ (i : Interval). holds y (i ∷ ys)) pair)) in
    cc

-- Two lists of intervals that lie apart and hold the same numbers are equal.
pub same_members :
    (xs ys : List Interval)
    → IsApart xs
    → IsApart ys
    → ((y : ℕ) → holds y xs ≡ holds y ys)
    → xs ≡ ys
same_members xs ys hx hy same = same_above 0 xs ys hx hy same
