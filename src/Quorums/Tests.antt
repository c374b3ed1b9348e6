-- ===== src/Quorums/Tests.antt =====
-- Pools of four and of seven nodes.
use indy_plenum.Prelude.{
  ℕ, List, [], ◌∷◌, false, ◌≡◌, refl, arith, inr, In, Distinct, contains, nat_eq,
}
use indy_plenum.Quorums.{get_max_failures, get_no_instances, quorums, is_reached}
use indy_plenum.Quorums.Intersection.{strong_quorums_intersect}

runs : Unit {0}
unfolding quorums get_max_failures is_reached get_no_instances
runs = tt

instances-seven : get_no_instances 7 ≡ 3
unfolding runs
instances-seven = refl

abbrev nodes : List ℕ
nodes = 1 ∷ 2 ∷ 3 ∷ 4 ∷ []

abbrev early : List ℕ
early = 1 ∷ 2 ∷ 3 ∷ []

abbrev late : List ℕ
late = 2 ∷ 3 ∷ 4 ∷ []

nodes-Distinct : Distinct nodes
nodes-Distinct = (λ m. ground arith, (λ m. ground arith, (λ m. ground arith, (λ m. m, tt))))

early-Distinct : Distinct early
early-Distinct = (λ m. ground arith, (λ m. ground arith, (λ m. m, tt)))

late-Distinct : Distinct late
late-Distinct = (λ m. ground arith, (λ m. ground arith, (λ m. m, tt)))

early-In : (a : ℕ) → In a early → In a nodes
early-In a m = ground arith

late-In : (a : ℕ) → In a late → In a nodes
late-In a m = inr m

abbrev pair : List ℕ
pair = 1 ∷ 4 ∷ []

pair-Distinct : Distinct pair
pair-Distinct = (λ m. ground arith, (λ m. m, tt))

pair-In : (a : ℕ) → In a pair → In a nodes
pair-In a m = ground arith

strong_quorums_intersect_example : (a : ℕ) × In a early × In a late × (contains a (2 ∷ []) ≡ false)
unfolding runs
strong_quorums_intersect_example =
    strong_quorums_intersect nodes early late (2 ∷ []) (omega arith) nodes-Distinct early-Distinct
      late-Distinct early-In late-In (omega arith) refl refl
