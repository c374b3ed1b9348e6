-- ===== src/Primaries/Tests.antt =====
-- A pool of seven nodes, in view 5.
use indy_plenum.Prelude.{
  ℕ, ◌+◌, ◌-◌, ◌/◌, String, List, [], ◌∷◌, some, ◌≡◌, refl, arith, Distinct, contains,
  contains_of_In, In, string_eq, length, nat_eq, false,
}
use indy_plenum.Primaries.{at, select_primaries, round_robin, select_master_primary}
use indy_plenum.Primaries.RoundRobin.{IsCycle, select_primaries-IsCycle}

abbrev nodes : List String
nodes = "N1" ∷ "N2" ∷ "N3" ∷ "N4" ∷ "N5" ∷ "N6" ∷ "N7" ∷ []

fresh : (a : String) (xs : List String) → contains a xs ≡ false → ¬ In a xs
fresh a xs h = λ m. cc (h, contains_of_In a xs m)

nodes-Distinct : Distinct nodes
nodes-Distinct = (
  fresh "N1" ("N2" ∷ "N3" ∷ "N4" ∷ "N5" ∷ "N6" ∷ "N7" ∷ []) refl,
  (
    fresh "N2" ("N3" ∷ "N4" ∷ "N5" ∷ "N6" ∷ "N7" ∷ []) refl,
    (
      fresh "N3" ("N4" ∷ "N5" ∷ "N6" ∷ "N7" ∷ []) refl,
      (
        fresh "N4" ("N5" ∷ "N6" ∷ "N7" ∷ []) refl,
        (
          fresh "N5" ("N6" ∷ "N7" ∷ []) refl,
          (fresh "N6" ("N7" ∷ []) refl, (fresh "N7" [] refl, tt)),
        ),
      ),
    ),
  ),
)

around-the-end : select_primaries 2 nodes 5 ≡ some ("N6" ∷ "N7" ∷ "N1" ∷ [])
unfolding select_primaries round_robin select_master_primary at
around-the-end = refl

select_primaries-IsCycle_example :
    (primaries : List String) × (select_primaries 2 nodes 5 ≡ some primaries)
    × (length primaries ≡ (length nodes - 1) / 3 + 1)
    × IsCycle 5 nodes primaries
    × Distinct primaries
select_primaries-IsCycle_example =
    select_primaries-IsCycle 2 nodes 5 nodes-Distinct (omega arith) (omega arith)

abbrev node_reg : List (ℕ × List String)
node_reg = (0, nodes) ∷ (2, "N1" ∷ []) ∷ []
