-- ===== src/Prelude/Dicts.antt =====
-- Laws of dictionaries whose keys are distinct, as those of a Python `dict` are.
use mathlib.Core.Path.{◌≡◌, sym, ap, subst}
use mathlib.Core.Logic.{◌⊎◌, inl, inr}
use mathlib.Core.List.{List, [], ◌∷◌}
use mathlib.Core.Option.{some}
use indy_plenum.Prelude.Tests.{Bool-cases}
use indy_plenum.Prelude.Lists.{In}
use indy_plenum.Prelude.Sets.{Eq, ◌=?◌, Distinct, lookup, insert}

module _ {K V : Type 0} where
  -- `d.keys()`
  abbrev pub keys : List (K × V) → List K
  keys [] = []
  keys ((k, v) ∷ d) = k ∷ keys d

module _ {K V : Type 0} ⦃e : Eq K⦄ where
  In-keys-insert :
      (k j : K) (v : V) (d : List (K × V)) → In k (keys (insert j v d)) → (k ≡ j) ⊎ In k (keys d)
  In-keys-insert k j v [] (inl p) = inl p
  In-keys-insert k j v [] (inr m) = absurd m
  In-keys-insert k j v ((i, w) ∷ d) m = elim (Bool-cases (i =? j)) [
    | inl h ↦ inr (rw h at m)
    | inr h ↦ elim (rw h at m) [
      | inl p ↦ inr (inl p)
      | inr m' ↦ elim (In-keys-insert k j v d m') [ inl p ↦ inl p | inr old ↦ inr (inr old) ]
    ]
  ]

  pub Distinct-keys-insert :
      (j : K) (v : V) (d : List (K × V)) → Distinct (keys d) → Distinct (keys (insert j v d))
  Distinct-keys-insert j v [] h = (λ m. m, tt)
  Distinct-keys-insert j v ((i, w) ∷ d) h = elim (Bool-cases (i =? j)) [
    | inl t ↦ rw t h
    | inr t ↦ rw t (
      λ m. elim (In-keys-insert i j v d m) [
        | inl p ↦ absurd (cc (t, (e.beq_iff i j).1 p))
        | inr old ↦ h.0 old
      ],
      Distinct-keys-insert j v d h.1,
    )
  ]

  pub In-of_lookup : (k : K) (v : V) (d : List (K × V)) → lookup k d ≡ some v → In k (keys d)
  In-of_lookup k v [] h = absurd (cc h)
  In-of_lookup k v ((i, w) ∷ d) h = elim (Bool-cases (i =? k)) [
    | inl t ↦ inl (sym ((e.beq_iff i k).0 t))
    | inr t ↦ inr (In-of_lookup k v d (rw t at h))
  ]

  pub In-keys : (k : K) (v : V) (d : List (K × V)) → In (k, v) d → In k (keys d)
  In-keys k v [] m = absurd m
  In-keys k v ((i, w) ∷ d) (inl p) = inl (ap (λ (x : K × V). x.0) p)
  In-keys k v ((i, w) ∷ d) (inr m) = inr (In-keys k v d m)

  pub lookup_of_In :
      (k : K) (v : V) (d : List (K × V)) → Distinct (keys d) → In (k, v) d → lookup k d ≡ some v
  lookup_of_In k v [] h m = absurd m
  lookup_of_In k v ((i, w) ∷ d) h (inl p) =
      let pk : k ≡ i = ap (λ (x : K × V). x.0) p in
      let pv : v ≡ w = ap (λ (x : K × V). x.1) p in
      rw ((e.beq_iff i k).1 (sym pk)) (ap some (sym pv))
  lookup_of_In k v ((i, w) ∷ d) h (inr m) = elim (Bool-cases (i =? k)) [
    | inl t ↦
        absurd (h.0 (subst (λ z. In z (keys d)) (sym ((e.beq_iff i k).0 t)) (In-keys k v d m)))
    | inr t ↦ rw t (lookup_of_In k v d h.1 m)
  ]
