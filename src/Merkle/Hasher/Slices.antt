-- ===== src/Merkle/Hasher/Slices.antt =====
-- A range of a list that holds the elements of another.
use indy_plenum.Prelude.{
  ℕ, suc, zero, ◌+◌, ◌≤◌, ◌≡◌, refl, subst, some, List, [], ◌∷◌, ◌++◌, arith, length, get_elem?,
}

module _ {A : Type 0} where
  abbrev pub IsAt : List A → ℕ → List A → Type 0
  IsAt xs i [] = i ≤ length xs
  IsAt xs i (d ∷ ds) = (get_elem? xs i ≡ some d) × IsAt xs (i + 1) ds

  get_elem?-le : (xs : List A) (i : ℕ) (d : A) → get_elem? xs i ≡ some d → i + 1 ≤ length xs
  get_elem?-le [] i d h = absurd (cc h)
  get_elem?-le (x ∷ xs) zero d h = omega arith
  get_elem?-le (x ∷ xs) (suc i) d h = omega (arith, get_elem?-le xs i d h)

  pub IsAt-le : (xs : List A) (i : ℕ) (ds : List A) → IsAt xs i ds → i + length ds ≤ length xs
  IsAt-le xs i [] p = omega arith
  IsAt-le xs i (d ∷ ds) p = omega (arith, IsAt-le xs (i + 1) ds p.1)

  pub IsAt-left : (xs : List A) (i : ℕ) (ds es : List A) → IsAt xs i (ds ++ es) → IsAt xs i ds
  IsAt-left xs i [] es p = omega (arith, IsAt-le xs i es p)
  IsAt-left xs i (d ∷ ds) es p = (p.0, IsAt-left xs (i + 1) ds es p.1)

  pub IsAt-right :
      (xs : List A) (i : ℕ) (ds es : List A) → IsAt xs i (ds ++ es) → IsAt xs (i + length ds) es
  IsAt-right xs i [] es p =
      let same : i ≡ i + 0 = omega arith in subst (λ (n : ℕ). IsAt xs n es) same p
  IsAt-right xs i (d ∷ ds) es p =
      let same : i + 1 + length ds ≡ i + suc (length ds) = omega arith in
      subst (λ (n : ℕ). IsAt xs n es) same (IsAt-right xs (i + 1) ds es p.1)

  IsAt-later : (x : A) (xs : List A) (i : ℕ) (ds : List A) → IsAt xs i ds → IsAt (x ∷ xs) (suc i) ds
  IsAt-later x xs i [] p = omega arith
  IsAt-later x xs i (d ∷ ds) p =
      let same : suc (i + 1) ≡ suc i + 1 = omega arith in
      (p.0, subst (λ (n : ℕ). IsAt (x ∷ xs) n ds) same (IsAt-later x xs (i + 1) ds p.1))

  pub IsAt-whole : (xs : List A) → IsAt xs 0 xs
  IsAt-whole [] = omega arith
  IsAt-whole (x ∷ xs) =
      let same : suc 0 ≡ 0 + 1 = omega arith in
      (refl, subst (λ (n : ℕ). IsAt (x ∷ xs) n xs) same (IsAt-later x xs 0 xs (IsAt-whole xs)))
