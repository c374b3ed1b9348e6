-- ===== src/Prelude/Sorting.antt =====
-- Python's `sorted` and the sorted list of `sortedcontainers`: stable insertion by a test `before`.
use Prim.Native.String.{String}
use Prim.Native.Char.{code}
use mathlib.Core.Path.{◌≡◌, refl, sym, subst}
use mathlib.Core.Logic.{◌⊎◌, inl, inr}
use mathlib.Core.Bool.{Bool, true, false}
use mathlib.Core.List.{List, [], ◌∷◌}
use native.Mathlib.Omega.{arith}
use Prim.Native.Nat.{◌+◌}
use indy_plenum.Prelude.Tests.{if◌then◌else◌, ltb, Bool-cases}
use indy_plenum.Prelude.Lists.{length, In}

-- Python's `s < t` on texts, by code points.
pub string_lt : String → String → Bool
string_lt String.[] String.[] = false
string_lt String.[] (String.◌∷◌ d t) = true
string_lt (String.◌∷◌ c s) String.[] = false
string_lt (String.◌∷◌ c s) (String.◌∷◌ d t) =
    if ltb (code c) (code d) then true else if ltb (code d) (code c) then false else string_lt s t

-- `lt y x` says that y must stand before x; equal elements keep their order.
module _ {A : Type 0} (lt : A → A → Bool) where
  abbrev pub insort : A → List A → List A
  insort a [] = a ∷ []
  insort a (x ∷ xs) = if lt a x then a ∷ x ∷ xs else x ∷ insort a xs

  -- `sorted(xs)`
  abbrev pub sort_into : List A → List A → List A
  sort_into acc [] = acc
  sort_into acc (x ∷ xs) = sort_into (insort x acc) xs

  abbrev pub sorted : List A → List A
  sorted xs = sort_into [] xs

  pub In-insort_self : (a : A) (xs : List A) → In a (insort a xs)
  In-insort_self a [] = inl refl
  In-insort_self a (x ∷ xs) = elim (Bool-cases (lt a x)) [
    | inl h ↦ rw h (inl refl)
    | inr h ↦ rw h (inr (In-insort_self a xs))
  ]

  pub In-insort_of : (a b : A) (xs : List A) → In b xs → In b (insort a xs)
  In-insort_of a b [] m = absurd m
  In-insort_of a b (x ∷ xs) m = elim (Bool-cases (lt a x)) [
    | inl h ↦ rw h (inr m)
    | inr h ↦ rw h (elim m [ inl e ↦ inl e | inr m' ↦ inr (In-insort_of a b xs m') ])
  ]

  pub In-insort : (a b : A) (xs : List A) → In b (insort a xs) → (b ≡ a) ⊎ In b xs
  In-insort a b [] (inl e) = inl e
  In-insort a b [] (inr m) = absurd m
  In-insort a b (x ∷ xs) m = elim (Bool-cases (lt a x)) [
    | inl h ↦ let m' = rw h at m in m'
    | inr h ↦ elim (rw h at m) [
      | inl e ↦ inr (inl e)
      | inr m' ↦ elim (In-insort a b xs m') [ inl e ↦ inl e | inr k ↦ inr (inr k) ]
    ]
  ]

  pub In-sort_into : (b : A) (acc xs : List A) → In b (sort_into acc xs) → In b acc ⊎ In b xs
  In-sort_into b acc [] m = inl m
  In-sort_into b acc (x ∷ xs) m = elim (In-sort_into b (insort x acc) xs m) [
    | inl l ↦ elim (In-insort x b acc l) [ inl e ↦ inr (inl e) | inr k ↦ inl k ]
    | inr r ↦ inr (inr r)
  ]

  pub In-sort_into_of : (b : A) (acc xs : List A) → In b acc ⊎ In b xs → In b (sort_into acc xs)
  In-sort_into_of b acc [] (inl m) = m
  In-sort_into_of b acc [] (inr m) = absurd m
  In-sort_into_of b acc (x ∷ xs) (inl m) =
      In-sort_into_of b (insort x acc) xs (inl (In-insort_of x b acc m))
  In-sort_into_of b acc (x ∷ xs) (inr (inl e)) =
      In-sort_into_of b (insort x acc) xs
        (inl (subst (λ z. In z (insort x acc)) (sym e) (In-insort_self x acc)))
  In-sort_into_of b acc (x ∷ xs) (inr (inr m)) = In-sort_into_of b (insort x acc) xs (inr m)

  pub In-sorted : (b : A) (xs : List A) → In b (sorted xs) → In b xs
  In-sorted b xs m = elim (In-sort_into b [] xs m) [ inl l ↦ absurd l | inr r ↦ r ]

  pub In-sorted_of : (b : A) (xs : List A) → In b xs → In b (sorted xs)
  In-sorted_of b xs m = In-sort_into_of b [] xs (inr m)

  length-insort : (a : A) (xs : List A) → length (insort a xs) ≡ length xs + 1
  length-insort a [] = omega arith
  length-insort a (x ∷ xs) = ground (arith, length-insort a xs)

  length-sort_into : (acc xs : List A) → length (sort_into acc xs) ≡ length acc + length xs
  length-sort_into acc [] = omega arith
  length-sort_into acc (x ∷ xs) =
      omega (arith, length-sort_into (insort x acc) xs, length-insort x acc)

  pub length-sorted : (xs : List A) → length (sorted xs) ≡ length xs
  length-sorted xs = omega (arith, length-sort_into [] xs)
