-- ===== src/Propagation/Dict.antt =====
-- Counting the values of a dictionary.
use indy_plenum.Prelude.{
  ℕ, ◌+◌, String, List, [], ◌∷◌, none, some, Bool, false, if◌then◌else◌, ◌≡◌, refl, sym, ◌∙◌, subst,
  arith, inl, inr, Bool-cases, ◌=?◌, string_eq, lookup, insert, count, keys, In, Distinct,
}
use indy_plenum.Propagation.{remove}

abbrev pub one_if : Bool → ℕ
one_if b = if b then 1 else 0

module _ {V : Type 0} (p : V → Bool) where
  abbrev pub held : List (String × V) → ℕ
  held = count (λ (k, v). p v)

  pub held-insert_new :
      (key : String) (v : V) (d : List (String × V))
      → lookup key d ≡ none
      → held (insert key v d) ≡ held d + one_if (p v)
  held-insert_new key v [] h = ground arith
  held-insert_new key v ((k, w) ∷ d) h = elim (Bool-cases (k =? key)) [
    | inl t ↦ absurd (cc (rw t at h))
    | inr t ↦ rw t (ground (arith, held-insert_new key v d (rw t at h)))
  ]

  pub held-insert :
      (key : String) (v w : V) (d : List (String × V))
      → lookup key d ≡ some w
      → held (insert key v d) + one_if (p w) ≡ held d + one_if (p v)
  held-insert key v w [] h = absurd (cc h)
  held-insert key v w ((k, u) ∷ d) h = elim (Bool-cases (k =? key)) [
    | inl t ↦ let same : u ≡ w = cc (rw t at h) in rw (t, same) (ground arith)
    | inr t ↦ rw t (ground (arith, held-insert key v w d (rw t at h)))
  ]

  held-remove_gone :
      (key : String) (d : List (String × V)) → lookup key d ≡ none → held (remove key d) ≡ held d
  held-remove_gone key [] h = refl
  held-remove_gone key ((k, u) ∷ d) h = elim (Bool-cases (k =? key)) [
    | inl t ↦ absurd (cc (rw t at h))
    | inr t ↦ rw t (ground (arith, held-remove_gone key d (rw t at h)))
  ]

  lookup-none : (key : String) (d : List (String × V)) → ¬ In key (keys d) → lookup key d ≡ none
  lookup-none key [] n = refl
  lookup-none key ((k, u) ∷ d) n = elim (Bool-cases (k =? key)) [
    | inl t ↦ absurd (n (inl (sym ((string_eq.beq_iff k key).0 t))))
    | inr t ↦ rw t (lookup-none key d (λ m. n (inr m)))
  ]

  pub held-remove :
      (key : String) (w : V) (d : List (String × V))
      → Distinct (keys d)
      → lookup key d ≡ some w
      → held (remove key d) + one_if (p w) ≡ held d
  held-remove key w [] n h = absurd (cc h)
  held-remove key w ((k, u) ∷ d) n h = elim (Bool-cases (k =? key)) [
    | inl t ↦
        let same : u ≡ w = cc (rw t at h) in
        let is : k ≡ key = (string_eq.beq_iff k key).0 t in
        let gone = lookup-none key d (subst (λ z. ¬ In z (keys d)) is n.0) in
        rw (t, same) (ground (arith, held-remove_gone key d gone))
    | inr t ↦ rw t (ground (arith, held-remove key w d n.1 (rw t at h)))
  ]

  In-keys-remove :
      (k key : String) (d : List (String × V)) → In k (keys (remove key d)) → In k (keys d)
  In-keys-remove k key [] m = m
  In-keys-remove k key ((j, u) ∷ d) m = elim (Bool-cases (j =? key)) [
    | inl t ↦ inr (In-keys-remove k key d (rw t at m))
    | inr t ↦ elim (rw t at m) [ inl e ↦ inl e | inr m' ↦ inr (In-keys-remove k key d m') ]
  ]

  pub Distinct-keys-remove :
      (key : String) (d : List (String × V)) → Distinct (keys d) → Distinct (keys (remove key d))
  Distinct-keys-remove key [] n = n
  Distinct-keys-remove key ((j, u) ∷ d) n = elim (Bool-cases (j =? key)) [
    | inl t ↦ rw t (Distinct-keys-remove key d n.1)
    | inr t ↦ rw t ((λ m. n.0 (In-keys-remove j key d m)), Distinct-keys-remove key d n.1)
  ]

pub lookup-remove :
    {V : Type 0} (key k : String) (s : V) (d : List (String × V))
    → lookup k (remove key d) ≡ some s
    → (lookup k d ≡ some s) × ((key =? k) ≡ false)
lookup-remove key k s [] h = absurd (cc h)
lookup-remove key k s ((j, u) ∷ d) h = elim (Bool-cases (j =? key)) [
  | inl t ↦
      let (found, other) = lookup-remove key k s d (rw t at h) in
      let is : j ≡ key = (string_eq.beq_iff j key).0 t in
      let apart : (j =? k) ≡ false = rw is other in (rw apart found, other)
  | inr t ↦ elim (Bool-cases (j =? k)) [
    | inl v ↦
        let is : j ≡ k = (string_eq.beq_iff j k).0 v in
        let mine : some u ≡ some s = rw (t, v) at h in
        (
          rw v mine,
          elim (Bool-cases (key =? k)) [
            | inr w ↦ w
            | inl w ↦ absurd (
                cc (sym t ∙ (string_eq.beq_iff j key).1 (is ∙ sym ((string_eq.beq_iff key k).0 w))))
          ],
        )
    | inr v ↦ let (found, other) = lookup-remove key k s d (rw (t, v) at h) in (rw v found, other)
  ]
]
