-- ===== src/Merkle/Compact/Push.antt =====
-- `__push_subtree_hash` of compact_merkle_tree.py is a carry into a forest.
use native.Mathlib.Nat.{pow-suc}
use mathlib.Core.List.{append_assoc}
use indy_plenum.Prelude.{
  ℕ, zero, suc, ◌+◌, ◌-◌, ◌^◌, ◌<◌, ◌≡◌, refl, sym, ◌∙◌, ap, subst, List, [], ◌∷◌, ◌++◌, map, arith,
  length, ◌==◌, ltb, ◌||◌, none, Option, inl, inr, Bool-cases, ==_iff, true, false,
}
use indy_plenum.Merkle.Result.{ok}
use indy_plenum.Merkle.Bits.Laws.{total}
use indy_plenum.Merkle.Hasher.{Bytes}
use indy_plenum.Merkle.Trees.{Tree, node, height, leaves, IsPerfect, root, IsForest, joined}
use indy_plenum.Merkle.Compact.{
  CompactMerkleTree, HashStore, init, last_item, update, push_subtree_hash,
}
use indy_plenum.Merkle.Compact.Forest.{
  hashes_of, tree_of, carry, made, update_lem, hashes_of-cons, mintree_height-cons,
  mintree_height-grows, init-append, get_last?-append,
}

pub joined-carry : (u : Tree) (f : List Tree) → joined (carry u f) ≡ joined f ++ leaves u
joined-carry u [] = refl
joined-carry u (t ∷ f) = elim (Bool-cases (height u == height t)) [
  | inl e ↦ rw e (joined-carry (node t u) f ∙ sym (append_assoc (joined f) (leaves t) (leaves u)))
  | inr e ↦ rw e
]

pub total-carry :
    (u : Tree) (f : List Tree)
    → total (map height (carry u f)) ≡ total (map height f) + 2 ^ height u
total-carry u [] = omega arith
total-carry u (t ∷ f) = elim (Bool-cases (height u == height t)) [
  | inl e ↦ rw e (
      omega (
        arith,
        total-carry (node t u) f,
        pow-suc 2 (height t),
        ap (λ (k : ℕ). 2 ^ k) ((==_iff _ _).0 e),
      ))
  | inr e ↦ rw e (omega arith)
]

module _ (digest : Bytes → Bytes) where
  last_item-hashes_of :
      (t : Tree) (f : List Tree) → last_item (hashes_of digest (t ∷ f)) ≡ ok (root digest t)
  last_item-hashes_of t f =
      rw (
        hashes_of-cons digest t f,
        last_item,
        get_last?-append (hashes_of digest f) (root digest t),
      )

  init-hashes_of : (t : Tree) (f : List Tree) → init (hashes_of digest (t ∷ f)) ≡ hashes_of digest f
  init-hashes_of t f =
      rw (hashes_of-cons digest t f) (init-append (hashes_of digest f) (root digest t))

  -- No carry: the subtree stands below all the others.
  push_subtree_hash-below :
      (fuel : ℕ) (u : Tree) (f : List Tree) (t pushed : CompactMerkleTree)
      → (ltb (suc (height u)) t.mintree_height || t.mintree_height == 0) ≡ true
      → update (t.tree_size + 2 ^ height u) (t.hashes ++ root digest u ∷ []) t ≡ ok pushed
      → push_subtree_hash digest (suc fuel) (suc (height u)) (root digest u) t ≡ ok ([], pushed)
  unfolding push_subtree_hash
  push_subtree_hash-below fuel u f t pushed below updated =
      let size : suc (height u) - 1 ≡ height u = omega arith in rw (below, size, updated)

  -- A carry: the smallest subtree is taken away, and joined with the new one.
  push_subtree_hash-carry :
      (fuel : ℕ) (u v : Tree) (t rewound pushed : CompactMerkleTree) (nodes : List (Bytes × ℕ))
      → t.mintree_height ≡ suc (height u)
      → last_item t.hashes ≡ ok (root digest v)
      → update (t.tree_size - 2 ^ height u) (init t.hashes) t ≡ ok rewound
      → (ltb (suc (height u)) rewound.mintree_height || rewound.mintree_height == 0) ≡ true
      → push_subtree_hash digest fuel (suc (height u) + 1) (root digest (node v u)) rewound
        ≡ ok (nodes, pushed)
      → push_subtree_hash digest (suc fuel) (suc (height u)) (root digest u) t
        ≡ ok ((root digest (node v u), suc (height u)) ∷ nodes, pushed)
  unfolding push_subtree_hash root
  push_subtree_hash-carry fuel u v t rewound pushed nodes at_h last updated grows rest =
      let size : suc (height u) - 1 ≡ height u = omega arith in
      let here : (suc (height u) == t.mintree_height) ≡ true = (==_iff _ _).1 (sym at_h) in
      let not_below : (ltb (suc (height u)) t.mintree_height || t.mintree_height == 0) ≡ false =
        ground (arith, at_h) in
      let grown : (ltb t.mintree_height rewound.mintree_height || rewound.mintree_height == 0)
          ≡ true =
        subst (λ (n : ℕ). (ltb n rewound.mintree_height || rewound.mintree_height == 0) ≡ true)
          (sym at_h) grows in
      rw (not_below, here, last, size, updated, grown, rest)

  pub push_subtree_hash_lem :
      (fuel : ℕ) (u : Tree) (f : List Tree) (cache : Option Bytes) (store : HashStore)
      → IsForest (height u) f
      → IsPerfect u
      → length f < fuel
      → push_subtree_hash digest fuel
          (suc (height u))
          (root digest u)
          (tree_of digest f cache store)
        ≡ ok (made digest u f, tree_of digest (carry u f) none store)
  push_subtree_hash_lem zero u f cache store p q b = absurd (omega arith)
  push_subtree_hash_lem (suc fuel) u [] cache store p q b =
      push_subtree_hash-below fuel u [] (tree_of digest [] cache store)
        (tree_of digest (u ∷ []) none store) (mintree_height-grows (suc (height u)) [] tt)
        (update_lem digest 0 _ _ (u ∷ []) (tree_of digest [] cache store) (omega arith, q, tt)
          (omega arith) refl)
  push_subtree_hash_lem (suc fuel) u (t ∷ f) cache store p q b =
      let lowest = mintree_height-cons (height u) t f p in
      let now = tree_of digest (t ∷ f) cache store in
      elim (Bool-cases (height u == height t)) [
        | inr e ↦
            let below : (ltb (suc (height u)) now.mintree_height || now.mintree_height == 0)
                ≡ true =
              rw lowest (ground (arith, p.0, e)) in
            rw e (
              push_subtree_hash-below fuel u (t ∷ f) now (tree_of digest (u ∷ t ∷ f) none store)
                below
                (update_lem digest 0 _ _ (u ∷ t ∷ f) now
                  (omega arith, q, (ground (arith, p.0, e), p.1, p.2)) (omega arith)
                  (sym (hashes_of-cons digest u (t ∷ f)))))
        | inl e ↦
            let same : height t ≡ height u = sym ((==_iff _ _).0 e) in
            let rewound = tree_of digest f none store in
            let rest =
              push_subtree_hash_lem fuel (node t u) f none store p.2 (same, p.1, q) (omega arith) in
            let next : suc (height (node t u)) ≡ suc (height u) + 1 = omega (arith, same) in
            rw e (
              push_subtree_hash-carry fuel u t now rewound
                (tree_of digest (carry (node t u) f) none store) (made digest (node t u) f)
                (lowest ∙ ap suc same) (last_item-hashes_of t f)
                (update_lem digest (suc (height t)) _ _ f now p.2
                  (omega (arith, ap (λ (k : ℕ). 2 ^ k) same)) (init-hashes_of t f))
                (subst
                  (λ (k : ℕ).
                    (ltb (suc k) rewound.mintree_height || rewound.mintree_height == 0) ≡ true)
                  same (mintree_height-grows (suc (height t)) f p.2))
                (subst
                  (λ (k : ℕ).
                    push_subtree_hash digest fuel k (root digest (node t u)) rewound
                    ≡ ok (made digest (node t u) f, tree_of digest (carry (node t u) f) none store))
                  next rest))
      ]
