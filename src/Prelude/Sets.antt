-- ===== src/Prelude/Sets.antt =====
-- Decidable equality as an interface, Python's sets and dictionaries as lists in insertion order.
use Prim.Native.String.{String}
use Prim.Native.Nat.{ℕ, ◌+◌, ◌≤◌}
use mathlib.Core.Path.{◌≡◌, refl, sym, ap, ap₂, subst}
use mathlib.Core.Logic.{◌↔◌, inl, inr}
use mathlib.Core.Bool.{Bool, true, false}
use mathlib.Core.List.{List, [], ◌∷◌, ◌++◌}
use mathlib.Core.Option.{Option, none, some}
use native.Mathlib.Omega.{arith}
use text.Mathlib.Text.{◌==◌ as string_beq}
use text.Mathlib.TextEquality.{eq_iff}
use indy_plenum.Prelude.Tests.{if◌then◌else◌, Bool-cases, ◌==◌, ==_iff}
use indy_plenum.Prelude.Lists.{length, count, select, In, length-append, In-append, In-select}

pub record Eq (A : Type 0) : Type 0 where
  pub beq : A → A → Bool
  pub beq_iff : (a b : A) → (beq a b ≡ true) ↔ (a ≡ b)

infix 50 ◌=?◌
abbrev pub ◌=?◌ : {A : Type 0} ⦃e : Eq A⦄ → A → A → Bool
◌=?◌ ⦃e⦄ = e.beq

instance abbrev pub nat_eq : Eq ℕ
nat_eq = record { beq = ◌==◌; beq_iff = ==_iff }

instance abbrev pub string_eq : Eq String
string_eq = record { beq = string_beq; beq_iff = eq_iff }

module _ {A : Type 0} ⦃e : Eq A⦄ where
  abbrev pub option_beq : Option A → Option A → Bool
  option_beq none none = true
  option_beq none (some b) = false
  option_beq (some a) none = false
  option_beq (some a) (some b) = a =? b

  pub option_beq_iff : (a b : Option A) → (option_beq a b ≡ true) ↔ (a ≡ b)
  option_beq_iff none none = (λ h. refl, λ h. refl)
  option_beq_iff none (some b) = (λ h. cc, λ h. cc)
  option_beq_iff (some a) none = (λ h. cc, λ h. cc)
  option_beq_iff (some a) (some b) =
      (λ h. ap some ((e.beq_iff a b).0 h), λ h. (e.beq_iff a b).1 (cc))

  instance abbrev pub option_eq : Eq (Option A)
  option_eq = record { beq = option_beq; beq_iff = option_beq_iff }

  pub =?_refl : (a : A) → (a =? a) ≡ true
  =?_refl a = (e.beq_iff a a).1 refl

  -- `xs == ys`
  abbrev pub list_beq : List A → List A → Bool
  list_beq [] [] = true
  list_beq [] (y ∷ ys) = false
  list_beq (x ∷ xs) [] = false
  list_beq (x ∷ xs) (y ∷ ys) = if x =? y then list_beq xs ys else false

  pub list_beq→eq : (xs ys : List A) → list_beq xs ys ≡ true → xs ≡ ys
  list_beq→eq [] [] h = refl
  list_beq→eq [] (y ∷ ys) h = cc
  list_beq→eq (x ∷ xs) [] h = cc
  list_beq→eq (x ∷ xs) (y ∷ ys) h = elim (Bool-cases (x =? y)) [
    | inl t ↦ ap₂ ◌∷◌ ((e.beq_iff x y).0 t) (list_beq→eq xs ys (rw t at h))
    | inr t ↦ absurd (cc (rw t at h))
  ]

  pub list_beq_refl : (xs : List A) → list_beq xs xs ≡ true
  list_beq_refl [] = refl
  list_beq_refl (x ∷ xs) = rw (=?_refl x) (list_beq_refl xs)

  -- `a in xs`
  abbrev pub contains : A → List A → Bool
  contains a [] = false
  contains a (x ∷ xs) = if x =? a then true else contains a xs

  -- `xs.add(a)` of a set.
  abbrev pub add : A → List A → List A
  add a xs = if contains a xs then xs else xs ++ a ∷ []

  pub In-of_contains : (a : A) (xs : List A) → contains a xs ≡ true → In a xs
  In-of_contains a [] h = cc
  In-of_contains a (x ∷ xs) h = elim (Bool-cases (x =? a)) [
    | inl p ↦ inl (sym ((e.beq_iff x a).0 p))
    | inr p ↦ inr (In-of_contains a xs (ground arith))
  ]

  pub contains_of_In : (a : A) (xs : List A) → In a xs → contains a xs ≡ true
  contains_of_In a [] m = absurd m
  contains_of_In a (x ∷ xs) (inl p) = rw ((e.beq_iff x a).1 (sym p))
  contains_of_In a (x ∷ xs) (inr m) = ground (arith, contains_of_In a xs m)

  pub contains-append :
      (a : A) (xs ys : List A)
      → contains a (xs ++ ys) ≡ (if contains a xs then true else contains a ys)
  contains-append a [] ys = refl
  contains-append a (x ∷ xs) ys = ground (arith, contains-append a xs ys)

  pub contains-add :
      (a b : A) (xs : List A) → contains b (add a xs) ≡ (if a =? b then true else contains b xs)
  contains-add a b xs = elim (Bool-cases (contains a xs)) [
    | inl h ↦ elim (Bool-cases (a =? b)) [
      | inl p ↦ rw (h, p) (subst (λ x. contains x xs ≡ true) ((e.beq_iff a b).0 p) h)
      | inr p ↦ rw (h, p)
    ]
    | inr h ↦ rw (h, contains-append b xs (a ∷ [])) (ground arith)
  ]

  pub length-add :
      (a : A) (xs : List A)
      → length (add a xs) ≡ (if contains a xs then length xs else length xs + 1)
  length-add a xs = ground (arith, length-append xs (a ∷ []))

  pub In-add_self : (a : A) (xs : List A) → In a (add a xs)
  In-add_self a xs = In-of_contains a (add a xs) (rw (contains-add a a xs, =?_refl a))

-- No element stands twice.
abbrev pub Distinct : {A : Type 0} → List A → Type 0
Distinct [] = Unit
Distinct (x ∷ xs) = (¬ In x xs) × Distinct xs

module _ {A : Type 0} where
  Distinct-append_one : (a : A) (xs : List A) → Distinct xs → ¬ In a xs → Distinct (xs ++ a ∷ [])
  Distinct-append_one a [] d n = (λ m. m, tt)
  Distinct-append_one a (x ∷ xs) d n = (
    λ m. elim (In-append x xs (a ∷ []) m) [
      | inl old ↦ d.0 old
      | inr (inl p) ↦ n (inl (sym p))
      | inr (inr none_left) ↦ none_left
    ],
    Distinct-append_one a xs d.1 (λ m. n (inr m)),
  )

  pub Distinct-select : (p : A → Bool) (xs : List A) → Distinct xs → Distinct (select p xs)
  Distinct-select p [] d = tt
  Distinct-select p (x ∷ xs) d = elim (Bool-cases (p x)) [
    | inl h ↦ rw h ((λ m. d.0 (In-select p x xs m).1), Distinct-select p xs d.1)
    | inr h ↦ rw h (Distinct-select p xs d.1)
  ]

module _ {A : Type 0} ⦃e : Eq A⦄ where
  pub Distinct-add : (a : A) (xs : List A) → Distinct xs → Distinct (add a xs)
  Distinct-add a xs d = elim (Bool-cases (contains a xs)) [
    | inl h ↦ rw h d
    | inr h ↦ rw h (Distinct-append_one a xs d (λ m. cc (h, contains_of_In a xs m)))
  ]

  pub not_contains : (a : A) (xs : List A) → ¬ In a xs → contains a xs ≡ false
  not_contains a xs n = elim (Bool-cases (contains a xs)) [
    | inl h ↦ absurd (n (In-of_contains a xs h))
    | inr h ↦ h
  ]

  count_mono :
      (p q : A → Bool) (ys : List A) → ((y : A) → p y ≡ true → q y ≡ true) → count p ys ≤ count q ys
  count_mono p q [] h = omega arith
  count_mono p q (y ∷ ys) h = ground (arith, count_mono p q ys h, h y)

  count_one_more :
      (p q : A → Bool) (a : A) (ys : List A)
      → In a ys
      → p a ≡ false
      → q a ≡ true
      → ((y : A) → p y ≡ true → q y ≡ true)
      → count p ys + 1 ≤ count q ys
  count_one_more p q a [] m pa qa h = absurd m
  count_one_more p q a (y ∷ ys) (inl eq) pa qa h =
      let py : p y ≡ false = subst (λ z. p z ≡ false) eq pa in
      let qy : q y ≡ true = subst (λ z. q z ≡ true) eq qa in
      rw (py, qy) (omega (arith, count_mono p q ys h))
  count_one_more p q a (y ∷ ys) (inr m) pa qa h =
      ground (arith, count_one_more p q a ys m pa qa h, h y)

  -- A set of some members of a list is no larger than the number of members that it holds.
  pub length-le-count :
      (xs ys : List A)
      → Distinct xs
      → ((a : A) → In a xs → In a ys)
      → length xs ≤ count (λ y. contains y xs) ys
  length-le-count [] ys d sub = omega arith
  length-le-count (x ∷ xs) ys d sub =
      let rest = length-le-count xs ys d.1 (λ a m. sub a (inr m)) in
      let one_more =
        count_one_more (λ y. contains y xs) (λ y. contains y (x ∷ xs)) x ys (sub x (inl refl))
          (not_contains x xs d.0) (rw (=?_refl x)) (λ y h. ground arith) in
      omega (arith, rest, one_more)

=?_trans : {K : Type 0} ⦃e : Eq K⦄ (i j k : K) → (i =? j) ≡ true → (i =? k) ≡ (j =? k)
=?_trans ⦃e⦄ i j k h = rw ((e.beq_iff i j).0 h)

-- A dictionary as the list of its items in insertion order.
module _ {K V : Type 0} ⦃e : Eq K⦄ where
  -- `d.get(k)`
  abbrev pub lookup : K → List (K × V) → Option V
  lookup k [] = none
  lookup k ((j, v) ∷ d) = if j =? k then some v else lookup k d

  -- `d[k] = v`
  abbrev pub insert : K → V → List (K × V) → List (K × V)
  insert k v [] = (k, v) ∷ []
  insert k v ((j, w) ∷ d) = if j =? k then (j, v) ∷ d else (j, w) ∷ insert k v d

  pub lookup-insert :
      (k j : K) (v : V) (d : List (K × V))
      → lookup j (insert k v d) ≡ (if k =? j then some v else lookup j d)
  lookup-insert k j v [] = refl
  lookup-insert k j v ((i, w) ∷ d) = elim (Bool-cases (i =? k)) [
    | inl h ↦ rw (h, =?_trans i k j h) (ground arith)
    | inr h ↦
        rw (h, lookup-insert k j v d)
          (elim (Bool-cases (i =? j)) [
            | inl h' ↦ rw h' (elim (Bool-cases (k =? j)) [
              | inl h'' ↦ cc (h, h', h'', (e.beq_iff k j).0 h'', (e.beq_iff i j).0 h', =?_refl j)
              | inr h'' ↦ rw h''
            ])
            | inr h' ↦ rw h'
          ])
  ]

  pub lookup-insert_self : (k : K) (v : V) (d : List (K × V)) → lookup k (insert k v d) ≡ some v
  lookup-insert_self k v d = rw (lookup-insert k k v d, =?_refl k)
