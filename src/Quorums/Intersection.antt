-- ===== src/Quorums/Intersection.antt =====
-- Why the quorums are safe: they intersect in nodes that are not faulty.
use indy_plenum.Prelude.{
  ◌+◌, ◌≤◌, ◌<◌, ◌≡◌, false, ◌&&◌, List, [], true, Eq, Distinct, In, length, count, select,
  contains, In-of_contains, In-select, Distinct-select, length-le-count, length-select, count-both,
  count-le-length, exists_of_count, arith, not, count-not,
}
use indy_plenum.Quorums.{quorums, is_reached}
use indy_plenum.Quorums.Bounds.{get_max_failures_bounds}

module _ {A : Type 0} ⦃e : Eq A⦄ where
  -- Only members of `faulty` are counted as such among distinct nodes.
  count-le-length_of_Distinct :
      (faulty nodes : List A)
      → Distinct nodes
      → count (λ a. contains a faulty) nodes ≤ length faulty
  count-le-length_of_Distinct faulty nodes d =
      let p = λ (a : A). contains a faulty in
      let sub : (a : A) → In a (select p nodes) → In a faulty =
        λ a m. In-of_contains a faulty (In-select p a nodes m).0 in
      omega (
        arith,
        length-select p nodes,
        length-le-count (select p nodes) faulty (Distinct-select p nodes d) sub,
        count-le-length (λ y. contains y (select p nodes)) faulty,
      )

  -- Two sets of more than n + k members in all share a member outside any k nodes.
  shared_member :
      (nodes xs ys faulty : List A)
      → Distinct nodes
      → Distinct xs
      → Distinct ys
      → ((a : A) → In a xs → In a nodes)
      → ((a : A) → In a ys → In a nodes)
      → length nodes + length faulty < length xs + length ys
      → (a : A) × In a xs × In a ys × (contains a faulty ≡ false)
  shared_member nodes xs ys faulty dn dx dy sx sy h =
      let p = λ (a : A). contains a xs in
      let q = λ (a : A). contains a ys in
      let pq = λ (a : A). p a && q a in
      let good = λ (a : A). not (contains a faulty) in
      let many : 0 < count (λ a. pq a && good a) nodes = omega (
        arith,
        count-both p q nodes,
        count-both pq good nodes,
        count-not (λ a. contains a faulty) nodes,
        count-le-length_of_Distinct faulty nodes dn,
        length-le-count xs nodes dx sx,
        length-le-count ys nodes dy sy,
      ) in
      let (a, m, t) = exists_of_count (λ a. pq a && good a) nodes many in
      (a, In-of_contains a xs (ground arith), In-of_contains a ys (ground arith), ground arith)

  -- Two sets of distinct nodes of the pool that each reach the strong quorum share a node outside
  -- any `faulty` nodes, as long as these are at most f.
  pub strong_quorums_intersect :
      (nodes xs ys faulty : List A)
      → 1 ≤ length nodes
      → Distinct nodes
      → Distinct xs
      → Distinct ys
      → ((a : A) → In a xs → In a nodes)
      → ((a : A) → In a ys → In a nodes)
      → length faulty ≤ (quorums (length nodes)).f
      → is_reached (quorums (length nodes)).strong (length xs) ≡ true
      → is_reached (quorums (length nodes)).strong (length ys) ≡ true
      → (a : A) × In a xs × In a ys × (contains a faulty ≡ false)
  unfolding quorums is_reached
  strong_quorums_intersect nodes xs ys faulty h dn dx dy sx sy few qx qy =
      shared_member nodes xs ys faulty dn dx dy sx sy
        (ground (arith, get_max_failures_bounds (length nodes) h))

  -- A strong quorum and a weak quorum of distinct nodes of the pool share a node.
  pub strong_meets_weak :
      (nodes xs ys : List A)
      → 1 ≤ length nodes
      → Distinct nodes
      → Distinct xs
      → Distinct ys
      → ((a : A) → In a xs → In a nodes)
      → ((a : A) → In a ys → In a nodes)
      → is_reached (quorums (length nodes)).strong (length xs) ≡ true
      → is_reached (quorums (length nodes)).weak (length ys) ≡ true
      → (a : A) × In a xs × In a ys
  unfolding quorums is_reached
  strong_meets_weak nodes xs ys h dn dx dy sx sy qx qy =
      let (a, mx, my, _) =
        shared_member nodes xs ys [] dn dx dy sx sy
          (ground (arith, get_max_failures_bounds (length nodes) h)) in
      (a, mx, my)

  -- A set of distinct nodes that reaches the weak quorum has a node outside any f faulty ones.
  pub weak_quorum_correct :
      (nodes xs faulty : List A)
      → Distinct nodes
      → Distinct xs
      → ((a : A) → In a xs → In a nodes)
      → length faulty ≤ (quorums (length nodes)).f
      → is_reached (quorums (length nodes)).weak (length xs) ≡ true
      → (a : A) × In a xs × (contains a faulty ≡ false)
  unfolding quorums is_reached
  weak_quorum_correct nodes xs faulty dn dx sx few qx =
      let (a, m, _, ok) =
        shared_member nodes xs nodes faulty dn dx dn sx (λ a m. m) (ground arith) in
      (a, m, ok)
