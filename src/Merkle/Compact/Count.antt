-- ===== src/Merkle/Compact/Count.antt =====
-- The leaves and nodes that `append` of compact_merkle_tree.py writes to the hash store.
use indy_plenum.Prelude.{
  ℕ, zero, suc, ◌+◌, ◌*◌, ◌/◌, ◌≤◌, ◌≡◌, refl, sym, ◌∙◌, ap, subst, List, [], ◌∷◌, map, arith,
  length, length-append, none, ◌==◌, ==_iff, inl, inr, Bool-cases, true,
}
use indy_plenum.Merkle.Result.{ok, ◌>>=◌}
use indy_plenum.Merkle.Bits.Laws.{
  total, total_from, total_from-zero, total_from-even, total_from-odd,
}
use indy_plenum.Merkle.Hasher.{Bytes, hash_leaf}
use indy_plenum.Merkle.Trees.{Tree, leaf, node, height, IsForest, IsAscending-heights}
use indy_plenum.Merkle.Compact.{
  CompactMerkleTree, HashStore, new_store, init_tree, append_all, write_leaf, write_node,
  write_nodes, expected_loop, get_expected_node_count, verify_consistency,
}
use indy_plenum.Merkle.Compact.Forest.{tree_of, carry, made, carry-IsForest}
use indy_plenum.Merkle.Compact.Push.{total-carry}
use indy_plenum.Merkle.Compact.Append.{append-tree_of, store_after, init_tree-tree_of}

expected_loop_lem :
    (f g n c d : ℕ) → n ≤ f → n ≤ g → expected_loop f n c + d ≡ expected_loop g n d + c
unfolding expected_loop
expected_loop_lem zero zero n c d p q = omega arith
expected_loop_lem zero (suc g) n c d p q = ground arith
expected_loop_lem (suc f) zero n c d p q = ground arith
expected_loop_lem (suc f) (suc g) n c d p q =
    ground (arith, expected_loop_lem f g (n / 2) (c + n / 2) (d + n / 2))

-- One round of the loop, whatever the fuel.
get_expected_node_count-half :
    (n : ℕ) → get_expected_node_count n ≡ n / 2 + get_expected_node_count (n / 2)
unfolding get_expected_node_count expected_loop
get_expected_node_count-half zero = omega arith
get_expected_node_count-half (suc n) = ground (
  arith,
  expected_loop_lem n (suc n / 2) (suc n / 2) (0 + suc n / 2) 0 (omega arith) (omega arith),
)

made_count-below : (a : ℕ) → get_expected_node_count (2 * a + 1) ≡ get_expected_node_count (2 * a)
made_count-below a =
    let low : 2 * a / 2 ≡ a = omega arith in
    let high : (2 * a + 1) / 2 ≡ a = omega arith in
    get_expected_node_count-half (2 * a + 1)
    ∙ rw (high) (sym (rw low at (get_expected_node_count-half (2 * a))))

made_count-carry :
    (a made_after : ℕ)
    → get_expected_node_count (a + 1) ≡ get_expected_node_count a + made_after
    → get_expected_node_count (2 * a + 1 + 1) ≡ get_expected_node_count (2 * a + 1) + suc made_after
made_count-carry a n e =
    let low : (2 * a + 1) / 2 ≡ a = omega arith in
    let high : (2 * a + 1 + 1) / 2 ≡ a + 1 = omega arith in
    let one = rw low at (get_expected_node_count-half (2 * a + 1)) in
    let two = rw high at (get_expected_node_count-half (2 * a + 1 + 1)) in
    omega (arith, one, two, e)

module _ (digest : Bytes → Bytes) where
  abbrev heights : List Tree → List ℕ
  heights = map height

  -- A push makes as many nodes as the new number of leaves has more.
  length-made :
      (u : Tree) (f : List Tree)
      → IsForest (height u) f
      → get_expected_node_count (total_from (height u) (heights f) + 1)
        ≡ get_expected_node_count (total_from (height u) (heights f)) + length (made digest u f)
  unfolding get_expected_node_count expected_loop
  length-made u [] p = omega arith
  length-made u (t ∷ f) p = elim (Bool-cases (height u == height t)) [
    | inl e ↦
        let same : height t ≡ height u = sym ((==_iff _ _).0 e) in
        let rising = IsAscending-heights (suc (height t)) f p.2 in
        let odd = total_from-odd (height u) (height t) (heights f) same rising in
        let rest = length-made (node t u) f p.2 in
        let rest' =
          subst
            (λ (k : ℕ).
              get_expected_node_count (total_from (suc k) (heights f) + 1)
              ≡ get_expected_node_count (total_from (suc k) (heights f))
                + length (made digest (node t u) f))
            same rest in
        rw (e, odd) (made_count-carry (total_from (suc (height u)) (heights f)) _ rest')
    | inr e ↦
        let higher : suc (height u) ≤ height t = ground (arith, p.0, e) in
        let rising = IsAscending-heights (height t) (t ∷ f) (omega arith, p.1, p.2) in
        let even = total_from-even (height u) (height t) (heights (t ∷ f)) higher rising in
        rw (e, even)
          (made_count-below (total_from (suc (height u)) (heights (t ∷ f))) ∙ omega arith)
  ]

  length-write_nodes :
      (size : ℕ) (nodes : List (Bytes × ℕ)) (s : HashStore)
      → ((write_nodes size nodes s).leafs ≡ s.leafs)
        × (length (write_nodes size nodes s).nodes ≡ length s.nodes + length nodes)
  unfolding write_nodes
  length-write_nodes size [] s = (refl, omega arith)
  length-write_nodes size ((h, k) ∷ nodes) s =
      let (same, more) = length-write_nodes size nodes (write_node (size, k, h) s) in
      (same, omega (arith, more, length-append s.nodes ((size, k, h) ∷ [])))

  -- The store holds one leaf for each leaf of the tree, and the nodes that are expected for them.
  pub record IsCounted (f : List Tree) (s : HashStore) : Type 0 where
    pub leafs : length s.leafs ≡ total (heights f)
    pub nodes : length s.nodes ≡ get_expected_node_count (total (heights f))

  store_after-IsCounted :
      (d : Bytes) (f : List Tree) (s : HashStore)
      → IsForest 0 f
      → IsCounted f s
      → IsCounted (carry (leaf d) f) (store_after digest d f s)
  unfolding write_leaf
  store_after-IsCounted d f s p c =
      let more = total-carry (leaf d) f in
      let s' = write_leaf (hash_leaf digest d) s in
      let made_here = made digest (leaf d) f in
      let (same, grown) = length-write_nodes (total (heights (carry (leaf d) f))) made_here s' in
      let from = total_from-zero (heights f) in
      let expected = rw from at (length-made (leaf d) f p) in
      record {
        leafs =
            ap length same
            ∙ omega (arith, more, c.leafs, length-append s.leafs (hash_leaf digest d ∷ []));
        nodes = grown ∙ omega (arith, c.nodes, expected, ap get_expected_node_count more);
      }

  append_all-IsCounted :
      (more : List Bytes) (f : List Tree) (s : HashStore)
      → IsForest 0 f
      → IsCounted f s
      → (f' : List Tree) × (s' : HashStore) × (append_all digest more (tree_of digest f none s)
          ≡ ok (tree_of digest f' none s'))
        × (total (heights f') ≡ total (heights f) + length more)
        × IsCounted f' s'
  unfolding append_all
  append_all-IsCounted [] f s p c = (f, s, refl, omega arith, c)
  append_all-IsCounted (d ∷ more) f s p c =
      let f1 = carry (leaf d) f in
      let s1 = store_after digest d f s in
      let (f', s', e, size, c') =
        append_all-IsCounted more f1 s1 (carry-IsForest 0 (leaf d) f p tt (omega arith))
          (store_after-IsCounted d f s p c) in
      (
        f',
        s',
        rw (append-tree_of digest d f none s p) e,
        omega (arith, size, total-carry (leaf d) f),
        c',
      )

  verify_consistency_lem :
      (f : List Tree) (s : HashStore) (n : ℕ)
      → IsCounted f s
      → total (heights f) ≡ n
      → verify_consistency n (tree_of digest f none s) ≡ ok true
  unfolding verify_consistency
  verify_consistency_lem f s n c e =
      let counted : (n == length s.leafs) ≡ true = (==_iff _ _).1 (omega (arith, c.leafs, e)) in
      let expected : (get_expected_node_count (length s.leafs) == length s.nodes) ≡ true =
        (==_iff _ _).1 (ap get_expected_node_count c.leafs ∙ sym c.nodes) in
      rw (counted, expected)

  new_store-IsCounted : IsCounted [] new_store
  unfolding new_store get_expected_node_count
  new_store-IsCounted = record { leafs = refl; nodes = refl }

  -- From a new tree, `append` of any leaves succeeds, and the hash store that it fills passes the
  -- consistency check for their number: a leaf for each, and as many nodes as the loop of
  -- `get_expected_node_count` finds.
  pub append_all-verify_consistency :
      (leaves : List Bytes)
      → (t : CompactMerkleTree) × ((init_tree 0 [] >>= append_all digest leaves) ≡ ok t)
        × (verify_consistency (length leaves) t ≡ ok true)
  append_all-verify_consistency leaves =
      let (f, s, e, size, c) = append_all-IsCounted leaves [] new_store tt new_store-IsCounted in
      (
        tree_of digest f none s,
        rw (init_tree-tree_of digest [] tt) e,
        verify_consistency_lem f s (length leaves) c (omega (arith, size)),
      )
