-- ===== src/Merkle/Consistency/Sound.antt =====
-- The loops of `verify_tree_consistency` bind the hashes they start from, short of a collision.
use indy_plenum.Prelude.{
  ℕ, zero, suc, ◌+◌, ◌/◌, ◌%◌, ◌≡◌, sym, ◌∙◌, List, [], ◌∷◌, ◌++◌, length, ◌==◌, ltb, inl, inr, ◌⊎◌,
  Bool-cases, All,
}
use indy_plenum.Merkle.Result.{Result, ok, raised}
use indy_plenum.Merkle.Hasher.{Bytes, hash_children}
use indy_plenum.Merkle.Verifier.Sound.{Collision, hash_children-binds}
use indy_plenum.Merkle.Consistency.{new_loop, both_loop, with_old}

-- Hashes of one width.
abbrev pub AreHashes : ℕ → List Bytes → Type 0
AreHashes width = All (λ (h : Bytes). length h ≡ width)

module _ (digest : Bytes → Bytes) (width : ℕ)
    (fixed : (a : Bytes) → length (digest a) ≡ width) where
  length-hash_children : (a b : Bytes) → length (hash_children digest a b) ≡ width
  unfolding hash_children
  length-hash_children a b = fixed (1 ∷ a ++ b)

  new_loop-binds :
      (fuel last : ℕ) (a b root : Bytes) (proof proof' : List Bytes)
      → length a ≡ width
      → length b ≡ width
      → new_loop digest fuel last a proof ≡ ok root
      → new_loop digest fuel last b proof' ≡ ok root
      → (a ≡ b) ⊎ Collision digest
  unfolding new_loop
  new_loop-binds zero last a b root proof proof' la lb e e' = elim (Bool-cases (last == 0)) [
    | inl t ↦ inl (cc (rw t at e, rw t at e'))
    | inr t ↦ absurd (cc (rw t at e))
  ]
  new_loop-binds (suc fuel) last a b root [] [] la lb e e' = elim (Bool-cases (last == 0)) [
    | inl t ↦ inl (cc (rw t at e, rw t at e'))
    | inr t ↦ absurd (cc (rw t at e))
  ]
  new_loop-binds (suc fuel) last a b root [] (h ∷ proof') la lb e e' =
      elim (Bool-cases (last == 0)) [
        | inl t ↦ inl (cc (rw t at e, rw t at e'))
        | inr t ↦ absurd (cc (rw t at e))
      ]
  new_loop-binds (suc fuel) last a b root (h ∷ proof) [] la lb e e' =
      elim (Bool-cases (last == 0)) [
        | inl t ↦ inl (cc (rw t at e, rw t at e'))
        | inr t ↦ absurd (cc (rw t at e'))
      ]
  new_loop-binds (suc fuel) last a b root (g ∷ proof) (h ∷ proof') la lb e e' =
      elim (Bool-cases (last == 0)) [
        | inl t ↦ inl (cc (rw t at e, rw t at e'))
        | inr t ↦
            elim (new_loop-binds fuel (last / 2) (hash_children digest a g)
              (hash_children digest b h) root proof proof' (length-hash_children a g)
              (length-hash_children b h) (rw t at e) (rw t at e')) [
                | inr found ↦ inr found
                | inl same ↦ elim (hash_children-binds digest a g b h (la ∙ sym lb) same) [
                  | inl both ↦ inl both.0
                  | inr found ↦ inr found
                ]
              ]
      ]

  -- What two runs of the loops to one new root have in common.
  abbrev pub Linked : (a b old old' root_a root_b : Bytes) → Type 0
  Linked a b old old' root_a root_b = (a ≡ b) × (old ≡ old' → root_a ≡ root_b)

  ended-binds :
      (fuel last : ℕ) (old old' a b old_a old_b root : Bytes) (proof proof' : List Bytes)
      → length a ≡ width
      → length b ≡ width
      → with_old old (new_loop digest fuel last a proof) ≡ ok (old_a, root)
      → with_old old' (new_loop digest fuel last b proof') ≡ ok (old_b, root)
      → Linked a b old old' old_a old_b ⊎ Collision digest
  ended-binds fuel last old old' a b old_a old_b root proof proof' la lb e e' =
      let (e1, o1) = ended_parts (new_loop digest fuel last a proof) old old_a root e in
      let (e2, o2) = ended_parts (new_loop digest fuel last b proof') old' old_b root e' in
      elim (new_loop-binds fuel last a b root proof proof' la lb e1 e2) [
        | inl same ↦ inl (same, λ is. cc (o1, o2, is))
        | inr found ↦ inr found
      ]
    where
      ended_parts :
          (r : Result Bytes) (kept old_r root_r : Bytes)
          → with_old kept r ≡ ok (old_r, root_r)
          → (r ≡ ok root_r) × (kept ≡ old_r)
      ended_parts (ok x) kept old_r root_r q = (cc q, cc q)
      ended_parts (raised x) kept old_r root_r q = absurd (cc q)

  right_step :
      (g h old old' a b old_a old_b : Bytes)
      → length g ≡ length h
      → Linked
          (hash_children digest g a)
          (hash_children digest h b)
          (hash_children digest g old)
          (hash_children digest h old')
          old_a
          old_b
        ⊎ Collision digest
      → Linked a b old old' old_a old_b ⊎ Collision digest
  right_step g h old old' a b old_a old_b l (inr found) = inr found
  right_step g h old old' a b old_a old_b l (inl (same, olds)) =
      elim (hash_children-binds digest g a h b l same) [
        | inr found ↦ inr found
        | inl (siblings, below) ↦ inl (below, λ is. olds (cc (siblings, is)))
      ]

  left_step :
      (g h old old' a b old_a old_b : Bytes)
      → length a ≡ length b
      → Linked (hash_children digest a g) (hash_children digest b h) old old' old_a old_b
        ⊎ Collision digest
      → Linked a b old old' old_a old_b ⊎ Collision digest
  left_step g h old old' a b old_a old_b l (inr found) = inr found
  left_step g h old old' a b old_a old_b l (inl (same, olds)) =
      elim (hash_children-binds digest a g b h l same) [
        | inr found ↦ inr found
        | inl (below, siblings) ↦ inl (below, olds)
      ]

  pub both_loop-binds :
      (fuel node last : ℕ) (old old' a b old_a old_b root : Bytes) (proof proof' : List Bytes)
      → length a ≡ width
      → length b ≡ width
      → AreHashes width proof
      → AreHashes width proof'
      → both_loop digest fuel node last old a proof ≡ ok (old_a, root)
      → both_loop digest fuel node last old' b proof' ≡ ok (old_b, root)
      → Linked a b old old' old_a old_b ⊎ Collision digest
  unfolding both_loop
  both_loop-binds zero node last old old' a b old_a old_b root proof proof' la lb lp lp' e e' =
      absurd (cc e)
  both_loop-binds (suc fuel) node last old old' a b old_a old_b root [] [] la lb lp lp' e e' =
      elim (Bool-cases (node == 0)) [
        | inl t ↦
            ended-binds (last + 1) last old old' a b old_a old_b root [] [] la lb (rw t at e)
              (rw t at e')
        | inr t ↦ elim (Bool-cases (node % 2 == 1)) [
          | inl odd ↦ absurd (cc (rw (t, odd) at e))
          | inr even ↦ elim (Bool-cases (ltb node last)) [
            | inl below ↦ absurd (cc (rw (t, even, below) at e))
            | inr level ↦
                both_loop-binds fuel (node / 2) (last / 2) old old' a b old_a old_b root [] [] la lb
                  lp lp' (rw (t, even, level) at e) (rw (t, even, level) at e')
          ]
        ]
      ]
  both_loop-binds (suc fuel) node last old old' a b old_a old_b root [] (h ∷ hs) la lb lp lp' e e' =
      elim (Bool-cases (node == 0)) [
        | inl t ↦
            ended-binds (last + 1) last old old' a b old_a old_b root [] (h ∷ hs) la lb (rw t at e)
              (rw t at e')
        | inr t ↦ elim (Bool-cases (node % 2 == 1)) [
          | inl odd ↦ absurd (cc (rw (t, odd) at e))
          | inr even ↦ elim (Bool-cases (ltb node last)) [
            | inl below ↦ absurd (cc (rw (t, even, below) at e))
            | inr level ↦
                both_loop-binds fuel (node / 2) (last / 2) old old' a b old_a old_b root [] (h ∷ hs)
                  la lb lp lp' (rw (t, even, level) at e) (rw (t, even, level) at e')
          ]
        ]
      ]
  both_loop-binds (suc fuel) node last old old' a b old_a old_b root (g ∷ gs) [] la lb lp lp' e e' =
      elim (Bool-cases (node == 0)) [
        | inl t ↦
            ended-binds (last + 1) last old old' a b old_a old_b root (g ∷ gs) [] la lb (rw t at e)
              (rw t at e')
        | inr t ↦ elim (Bool-cases (node % 2 == 1)) [
          | inl odd ↦ absurd (cc (rw (t, odd) at e'))
          | inr even ↦ elim (Bool-cases (ltb node last)) [
            | inl below ↦ absurd (cc (rw (t, even, below) at e'))
            | inr level ↦
                both_loop-binds fuel (node / 2) (last / 2) old old' a b old_a old_b root (g ∷ gs) []
                  la lb lp lp' (rw (t, even, level) at e) (rw (t, even, level) at e')
          ]
        ]
      ]
  both_loop-binds (suc fuel) node last old old' a b old_a old_b root (g ∷ gs) (h ∷ hs) la lb lp lp'
        e e' =
      elim (Bool-cases (node == 0)) [
        | inl t ↦
            ended-binds (last + 1) last old old' a b old_a old_b root (g ∷ gs) (h ∷ hs) la lb
              (rw t at e) (rw t at e')
        | inr t ↦ elim (Bool-cases (node % 2 == 1)) [
          | inl odd ↦ right_step g h old old' a b old_a old_b (lp.0 ∙ sym lp'.0) (
              both_loop-binds fuel (node / 2) (last / 2) (hash_children digest g old)
                (hash_children digest h old') (hash_children digest g a) (hash_children digest h b)
                old_a old_b root gs hs (length-hash_children g a) (length-hash_children h b) lp.1
                lp'.1 (rw (t, odd) at e) (rw (t, odd) at e'))
          | inr even ↦ elim (Bool-cases (ltb node last)) [
            | inl below ↦ left_step g h old old' a b old_a old_b (la ∙ sym lb) (
                both_loop-binds fuel (node / 2) (last / 2) old old' (hash_children digest a g)
                  (hash_children digest b h) old_a old_b root gs hs (length-hash_children a g)
                  (length-hash_children b h) lp.1 lp'.1 (rw (t, even, below) at e)
                  (rw (t, even, below) at e'))
            | inr level ↦
                both_loop-binds fuel (node / 2) (last / 2) old old' a b old_a old_b root (g ∷ gs)
                  (h ∷ hs) la lb lp lp' (rw (t, even, level) at e) (rw (t, even, level) at e')
          ]
        ]
      ]
