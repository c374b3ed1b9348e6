-- ===== src/Merkle/Consistency/Roots.antt =====
-- An accepted consistency proof binds the root of the older tree, short of a collision of hashes.
use indy_plenum.Prelude.{
  ℕ, ◌+◌, ◌-◌, ◌<◌, ◌≡◌, List, [], ◌∷◌, arith, length, ◌==◌, ltb, inl, inr, ◌⊎◌, Bool-cases, true,
  false, list_beq, list_beq→eq, nat_eq,
}
use indy_plenum.Merkle.Result.{Result, ok, raised, ◌>>=◌}
use indy_plenum.Merkle.Hasher.{Bytes}
use indy_plenum.Merkle.Verifier.Sound.{Collision}
use indy_plenum.Merkle.Consistency.{
  both_loop, first_hash, skip_common, computed_roots, compared, verify_tree_consistency,
}
use indy_plenum.Merkle.Consistency.Sound.{AreHashes, Linked, both_loop-binds}

module _ (digest : Bytes → Bytes) (width : ℕ)
    (fixed : (a : Bytes) → length (digest a) ≡ width) where
  -- The loops, from the first hash of the proof or the root of the older tree on.
  unfoldable started :
      (fuel node last : ℕ) (old_root : Bytes) (proof : List Bytes) → Result (Bytes × Bytes)
  unfolding both_loop first_hash
  started fuel node last old_root proof =
      first_hash node old_root proof >>= λ p. both_loop digest fuel node last p.0 p.0 p.1

  common_start :
      (a b root_a root_b : Bytes)
      → Linked digest width fixed a b a b root_a root_b ⊎ Collision digest
      → ((a ≡ b) × (root_a ≡ root_b)) ⊎ Collision digest
  common_start a b root_a root_b (inl (same, olds)) = inl (same, olds same)
  common_start a b root_a root_b (inr found) = inr found

  started-binds :
      (fuel node last : ℕ) (r r' root : Bytes) (proof proof' : List Bytes)
      → length r ≡ width
      → length r' ≡ width
      → AreHashes width proof
      → AreHashes width proof'
      → started fuel node last r proof ≡ ok (r, root)
      → started fuel node last r' proof' ≡ ok (r', root)
      → (r ≡ r') ⊎ Collision digest
  unfolding first_hash started
  started-binds fuel node last r r' root [] [] lr lr' lp lp' e e' = elim (Bool-cases (node == 0)) [
    | inl t ↦
        elim (both_loop-binds digest width fixed fuel node last r r' r r' r r' root [] [] lr lr' lp
          lp' (rw t at e) (rw t at e')) [ inl linked ↦ inl linked.0 | inr found ↦ inr found ]
    | inr t ↦ absurd (cc (rw t at e))
  ]
  started-binds fuel node last r r' root [] (h ∷ hs) lr lr' lp lp' e e' =
      elim (Bool-cases (node == 0)) [
        | inl t ↦
            elim (both_loop-binds digest width fixed fuel node last r r' r r' r r' root [] (h ∷ hs)
              lr lr' lp lp' (rw t at e) (rw t at e')) [
                | inl linked ↦ inl linked.0
                | inr found ↦ inr found
              ]
        | inr t ↦ absurd (cc (rw t at e))
      ]
  started-binds fuel node last r r' root (g ∷ gs) [] lr lr' lp lp' e e' =
      elim (Bool-cases (node == 0)) [
        | inl t ↦
            elim (both_loop-binds digest width fixed fuel node last r r' r r' r r' root (g ∷ gs) []
              lr lr' lp lp' (rw t at e) (rw t at e')) [
                | inl linked ↦ inl linked.0
                | inr found ↦ inr found
              ]
        | inr t ↦ absurd (cc (rw t at e'))
      ]
  started-binds fuel node last r r' root (g ∷ gs) (h ∷ hs) lr lr' lp lp' e e' =
      elim (Bool-cases (node == 0)) [
        | inl t ↦
            elim (both_loop-binds digest width fixed fuel node last r r' r r' r r' root (g ∷ gs)
              (h ∷ hs) lr lr' lp lp' (rw t at e) (rw t at e')) [
                | inl linked ↦ inl linked.0
                | inr found ↦ inr found
              ]
        | inr t ↦
            elim (common_start g h r r' (
              both_loop-binds digest width fixed fuel node last g h g h r r' root gs hs lp.0 lp'.0
                lp.1 lp'.1 (rw t at e) (rw t at e'))) [
                  | inl both ↦ inl both.1
                  | inr found ↦ inr found
                ]
      ]

  compared_roots :
      (roots : Result (Bytes × Bytes)) (r root : Bytes)
      → (roots >>= λ p. compared (list_beq p.1 root) (list_beq p.0 r)) ≡ ok true
      → roots ≡ ok (r, root)
  unfolding compared
  compared_roots (raised x) r root e = absurd (cc e)
  compared_roots (ok (old, new)) r root e = elim (Bool-cases (list_beq new root)) [
    | inr t ↦ absurd (cc (rw t at e))
    | inl t ↦ elim (Bool-cases (list_beq old r)) [
      | inr u ↦ absurd (cc (rw (t, u) at e))
      | inl u ↦ cc (list_beq→eq new root t, list_beq→eq old r u)
    ]
  ]

  accepted_roots :
      (old_size new_size : ℕ) (r root : Bytes) (proof : List Bytes)
      → 0 < old_size
      → old_size < new_size
      → verify_tree_consistency digest old_size new_size r root proof ≡ ok true
      → computed_roots digest old_size new_size r proof ≡ ok (r, root)
  unfolding verify_tree_consistency
  accepted_roots old_size new_size r root proof some_old more e =
      let t1 : ltb new_size old_size ≡ false = ground arith in
      let t2 : (old_size == new_size) ≡ false = ground arith in
      let t3 : (old_size == 0) ≡ false = ground arith in
      compared_roots (computed_roots digest old_size new_size r proof) r root (rw (t1, t2, t3) at e)

  -- Let the hash function give hashes of one width, and let the older tree be neither empty nor as
  -- large as the newer one. Two roots of that width that are both accepted for the older tree against
  -- one root of the newer tree, each with a proof of hashes of that width, are the same, or two
  -- different texts with the same hash are given.
  pub verify_tree_consistency-binds :
      (old_size new_size : ℕ) (r r' root : Bytes) (proof proof' : List Bytes)
      → 0 < old_size
      → old_size < new_size
      → length r ≡ width
      → length r' ≡ width
      → AreHashes width proof
      → AreHashes width proof'
      → verify_tree_consistency digest old_size new_size r root proof ≡ ok true
      → verify_tree_consistency digest old_size new_size r' root proof' ≡ ok true
      → (r ≡ r') ⊎ Collision digest
  unfolding computed_roots started
  verify_tree_consistency-binds old_size new_size r r' root proof proof' some_old more lr lr' lp lp'
        e e' =
      let (node, last) = skip_common old_size (old_size - 1) (new_size - 1) in
      started-binds (new_size + 1) node last r r' root proof proof' lr lr' lp lp'
        (accepted_roots old_size new_size r root proof some_old more e)
        (accepted_roots old_size new_size r' root proof' some_old more e')
