-- ===== src/Primaries/Cycle.antt =====
-- Going around a list of distinct nodes.
use native.Mathlib.Nat.{mod-lt, mod-add-mod, mod-eq-sub-mod, mod-eq_of_lt}
use indy_plenum.Prelude.{
  ℕ, zero, suc, ◌+◌, ◌-◌, ◌%◌, ◌≤◌, ◌<◌, String, List, [], ◌∷◌, some, false, ◌==◌, ltb, ◌≡◌, ◌⊎◌,
  refl, sym, ◌∙◌, ap, subst, arith, inl, inr, Bool-cases, length, get_elem?, In, Distinct,
}
use indy_plenum.Primaries.{at}

pub get_in : (xs : List String) (i : ℕ) → i < length xs → (a : String) × (get_elem? xs i ≡ some a)
get_in [] i h = absurd (omega arith)
get_in (x ∷ xs) zero h = (x, refl)
get_in (x ∷ xs) (suc i) h = get_in xs i (omega arith)

In-get : (xs : List String) (i : ℕ) (a : String) → get_elem? xs i ≡ some a → In a xs
In-get [] i a h = absurd (cc h)
In-get (x ∷ xs) zero a h = inl (cc)
In-get (x ∷ xs) (suc i) a h = inr (In-get xs i a h)

get_unique :
    (xs : List String) (i j : ℕ) (a : String)
    → Distinct xs
    → get_elem? xs i ≡ some a
    → get_elem? xs j ≡ some a
    → i ≡ j
get_unique [] i j a d h h' = absurd (cc h)
get_unique (x ∷ xs) zero zero a d h h' = refl
get_unique (x ∷ xs) zero (suc j) a d h h' =
    let same : a ≡ x = cc in absurd (d.0 (subst (λ z. In z xs) same (In-get xs j a h')))
get_unique (x ∷ xs) (suc i) zero a d h h' =
    let same : a ≡ x = cc in absurd (d.0 (subst (λ z. In z xs) same (In-get xs i a h)))
get_unique (x ∷ xs) (suc i) (suc j) a d h h' = ap suc (get_unique xs i j a d.1 h h')

-- Where the index goes, less than one turn on.
turn :
    (v i n : ℕ)
    → i < n
    → (((v + i) % n ≡ v % n + i) × (v % n + i < n))
      ⊎ (((v + i) % n ≡ v % n + i - n) × (n ≤ v % n + i))
turn v i n h =
    let lt : v % n < n = mod-lt v (omega arith) in
    let same : (v % n + i) % n ≡ (v + i) % n = mod-add-mod v n i in
    elim (Bool-cases (ltb (v % n + i) n)) [
      | inl t ↦ inl (sym same ∙ mod-eq_of_lt (ground arith), ground arith)
      | inr t ↦
          inr (sym same ∙ mod-eq-sub-mod (ground arith) ∙ mod-eq_of_lt (ground arith), ground arith)
    ]

turn_unique : (v i j n : ℕ) → i < n → j < n → (v + i) % n ≡ (v + j) % n → i ≡ j
turn_unique v i j n h h' same =
    let lt : v % n < n = mod-lt v (omega arith) in
    elim (turn v i n h) [
      | inl (a, b) ↦ elim (turn v j n h') [
        | inl (c, d) ↦ omega (arith, a, b, c, d, same)
        | inr (c, d) ↦ omega (arith, a, b, c, d, same, lt)
      ]
      | inr (a, b) ↦ elim (turn v j n h') [
        | inl (c, d) ↦ omega (arith, a, b, c, d, same, lt)
        | inr (c, d) ↦ omega (arith, a, b, c, d, same)
      ]
    ]

at-get :
    (validators : List String) (k : ℕ)
    → 0 < length validators
    → at validators k ≡ get_elem? validators (k % length validators)
unfolding at
at-get validators k h = let full : (length validators == 0) ≡ false = ground arith in rw full refl

pub at-some :
    (validators : List String) (k : ℕ)
    → 0 < length validators
    → (a : String) × (at validators k ≡ some a)
at-some validators k h =
    let (a, e) = get_in validators (k % length validators) (mod-lt k h) in
    (a, at-get validators k h ∙ e)

-- Less than a turn apart, distinct nodes differ.
pub at_unique :
    (validators : List String) (v i j : ℕ) (a : String)
    → Distinct validators
    → i < length validators
    → j < length validators
    → at validators (v + i) ≡ some a
    → at validators (v + j) ≡ some a
    → i ≡ j
at_unique validators v i j a d h h' e e' =
    let n = length validators in
    turn_unique v i j n h h' (
      get_unique validators ((v + i) % n) ((v + j) % n) a d
        (sym (at-get validators (v + i) (omega arith)) ∙ e)
        (sym (at-get validators (v + j) (omega arith)) ∙ e'))
