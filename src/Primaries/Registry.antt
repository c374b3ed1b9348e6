-- ===== src/Primaries/Registry.antt =====
-- The registry that the master's primary is chosen from.
use indy_plenum.Prelude.{
  ℕ, zero, suc, ◌≤◌, ◌<◌, String, List, none, some, ◌≡◌, arith, inl, inr, nat_eq, lookup,
  Option-cases, Bool-cases, ◌==◌, ◌∙◌,
}
use indy_plenum.Primaries.{registry_for}

-- The registry is that of the last view up to the given one that has one. It is missing exactly if
-- none of these views has one.
pub registry_for-last :
    (node_reg : List (ℕ × List String)) (view_no : ℕ)
    → ((reg : List String)
        → registry_for node_reg view_no ≡ some reg
        → (v : ℕ) × (v ≤ view_no)
          × (lookup v node_reg ≡ some reg)
          × ((w : ℕ) → v < w → w ≤ view_no → lookup w node_reg ≡ none))
      × (registry_for node_reg view_no ≡ none → (w : ℕ) → w ≤ view_no → lookup w node_reg ≡ none)
unfolding registry_for
registry_for-last node_reg zero = (
  λ reg e. (0, omega arith, e, λ w l u. absurd (omega arith)),
  λ e w u. let first : w ≡ 0 = omega arith in rw first e,
)
registry_for-last node_reg (suc view_no) =
    let (found, missing) = registry_for-last node_reg view_no in
    elim (Option-cases (lookup (suc view_no) node_reg)) [
      | inr (own, e) ↦ (
        λ reg f. (
          suc view_no,
          omega arith,
          e ∙ rw (e, registry_for) at f,
          λ w l u. absurd (omega arith),
        ),
        λ f w u. absurd (cc (rw (e, registry_for) at f)),
      )
      | inl e ↦ (
        λ reg f.
            let (v, l, is, none_later) = found reg (rw (e, registry_for) at f) in
            (
              v,
              omega arith,
              is,
              λ w a u. elim (Bool-cases (w == suc view_no)) [
                | inl t ↦ let last : w ≡ suc view_no = ground arith in rw last e
                | inr t ↦ none_later w a (ground arith)
              ],
            ),
        λ f w u. elim (Bool-cases (w == suc view_no)) [
          | inl t ↦ let last : w ≡ suc view_no = ground arith in rw last e
          | inr t ↦ missing (rw (e, registry_for) at f) w (ground arith)
        ],
      )
    ]
