-- ===== src/Merkle/Verifier/Sound.antt =====
-- What an accepted audit path proves: MerkleVerifier binds the leaf, short of a collision of hashes.
use indy_plenum.Prelude.{
  ℕ, zero, suc, ◌+◌, ◌-◌, ◌/◌, ◌%◌, ◌≡◌, ◌≢◌, refl, sym, ◌∙◌, ap, List, [], ◌∷◌, ◌++◌, arith,
  length, length-append, ◌==◌, ltb, leb, inl, inr, ◌⊎◌, Bool-cases, true, false, list_beq,
  list_beq→eq, list_beq_refl, nat_eq, if◌then◌else◌,
}
use indy_plenum.Merkle.Result.{Result, ok, raised, ◌>>=◌, proof_error}
use indy_plenum.Merkle.Hasher.{Bytes, hash_leaf, hash_children}
use indy_plenum.Merkle.Verifier.{
  audit_loop, joined_hash, takes, calculate_root_hash_from_audit_path, verify_leaf_hash_inclusion,
  verify_leaf_inclusion, Sth,
}

append_cancel_left : (a b c d : Bytes) → length a ≡ length b → a ++ c ≡ b ++ d → a ≡ b
append_cancel_left [] [] c d l e = refl
append_cancel_left [] (y ∷ b) c d l e = absurd (omega (arith, l))
append_cancel_left (x ∷ a) [] c d l e = absurd (omega (arith, l))
append_cancel_left (x ∷ a) (y ∷ b) c d l e =
    let rest : a ≡ b = append_cancel_left a b c d (omega (arith, l)) (cc e) in cc (e, rest)

append_cancel : (a c d : Bytes) → a ++ c ≡ a ++ d → c ≡ d
append_cancel [] c d e = e
append_cancel (x ∷ a) c d e = append_cancel a c d (cc e)

append_cancel_right : (a b c d : Bytes) → length c ≡ length d → a ++ c ≡ b ++ d → c ≡ d
append_cancel_right [] [] c d l e = e
append_cancel_right [] (y ∷ b) c d l e = absurd (omega (arith, l, ap length e, length-append b d))
append_cancel_right (x ∷ a) [] c d l e = absurd (omega (arith, l, ap length e, length-append a c))
append_cancel_right (x ∷ a) (y ∷ b) c d l e = append_cancel_right a b c d l (cc e)

compared-inversion :
    (r : Result Bytes) (root : Bytes)
    → (r >>= λ h. if list_beq h root then ok true else raised proof_error) ≡ ok true
    → r ≡ ok root
compared-inversion (raised x) root e = absurd (cc e)
compared-inversion (ok h) root e = elim (Bool-cases (list_beq h root)) [
  | inl t ↦ ap ok (list_beq→eq h root t)
  | inr t ↦ absurd (cc (rw t at e))
]

module _ (digest : Bytes → Bytes) where
  -- Two texts that the hash function does not tell apart.
  abbrev pub Collision : Type 0
  Collision = (a : Bytes) × (b : Bytes) × (a ≢ b) × (digest a ≡ digest b)

  digest-binds : (a b : Bytes) → digest a ≡ digest b → (a ≡ b) ⊎ Collision
  digest-binds a b e = elim (Bool-cases (list_beq a b)) [
    | inl t ↦ inl (list_beq→eq a b t)
    | inr t ↦ inr (a, b, (λ same. cc (t, same, list_beq_refl b)), e)
  ]

  -- The two children of a hash, if the first of them has a known length.
  pub hash_children-binds :
      (a b c d : Bytes)
      → length a ≡ length c
      → hash_children digest a b ≡ hash_children digest c d
      → ((a ≡ c) × (b ≡ d)) ⊎ Collision
  unfolding hash_children
  hash_children-binds a b c d l e = elim (digest-binds (1 ∷ a ++ b) (1 ∷ c ++ d) e) [
    | inr found ↦ inr found
    | inl same ↦
        let joined : a ++ b ≡ c ++ d = cc same in
        let first : a ≡ c = append_cancel_left a c b d l joined in
        let joined' : a ++ b ≡ a ++ d = joined ∙ ap (λ (x : Bytes). x ++ d) (sym first) in
        inl (first, append_cancel a b d joined')
  ]

  module _ (width : ℕ) (fixed : (a : Bytes) → length (digest a) ≡ width) where
    joined_hash-binds :
        (n : ℕ) (a b c d : Bytes)
        → length c ≡ length d
        → joined_hash digest n a c ≡ joined_hash digest n b d
        → (c ≡ d) ⊎ Collision
    unfolding joined_hash hash_children
    joined_hash-binds n a b c d l e = elim (Bool-cases (n % 2 == 1)) [
      | inl t ↦ elim (digest-binds (1 ∷ a ++ c) (1 ∷ b ++ d) (rw t at e)) [
        | inl same ↦ inl (append_cancel_right (1 ∷ a) (1 ∷ b) c d l same)
        | inr found ↦ inr found
      ]
      | inr t ↦ elim (digest-binds (1 ∷ c ++ a) (1 ∷ d ++ b) (rw t at e)) [
        | inl same ↦ inl (append_cancel_left c d a b l (cc same))
        | inr found ↦ inr found
      ]
    ]

    length-joined_hash : (n : ℕ) (a c : Bytes) → length (joined_hash digest n a c) ≡ width
    unfolding joined_hash hash_children
    length-joined_hash n a c = elim (Bool-cases (n % 2 == 1)) [
      | inl t ↦ rw t (fixed (1 ∷ a ++ c))
      | inr t ↦ rw t (fixed (1 ∷ c ++ a))
    ]

    audit_loop-ended :
        (fuel n last : ℕ) (d h : Bytes) (path left : List Bytes)
        → ltb 0 last ≡ false
        → audit_loop digest (suc fuel) d n last path ≡ ok (h, left)
        → d ≡ h
    unfolding audit_loop
    audit_loop-ended fuel n last d h [] left done e = cc (rw done at e)
    audit_loop-ended fuel n last d h (a ∷ path) left done e = cc (rw done at e)

    audit_loop-binds :
        (fuel n last : ℕ) (c d h : Bytes) (path path' left left' : List Bytes)
        → length c ≡ length d
        → audit_loop digest fuel c n last path ≡ ok (h, left)
        → audit_loop digest fuel d n last path' ≡ ok (h, left')
        → (c ≡ d) ⊎ Collision
    unfolding audit_loop
    audit_loop-binds zero n last c d h path path' left left' l e e' = absurd (cc e)
    audit_loop-binds (suc fuel) n last c d h [] path' left left' l e e' =
        elim (Bool-cases (ltb 0 last)) [
          | inl more ↦ absurd (cc (rw more at e))
          | inr done ↦ inl (cc (rw done at e, audit_loop-ended fuel n last d h path' left' done e'))
        ]
    audit_loop-binds (suc fuel) n last c d h (a ∷ path) [] left left' l e e' =
        elim (Bool-cases (ltb 0 last)) [
          | inl more ↦ absurd (cc (rw more at e'))
          | inr done ↦ inl (cc (rw done at e, rw done at e'))
        ]
    audit_loop-binds (suc fuel) n last c d h (a ∷ path) (b ∷ path') left left' l e e' =
        elim (Bool-cases (ltb 0 last)) [
          | inr done ↦ inl (cc (rw done at e, rw done at e'))
          | inl more ↦ elim (Bool-cases (takes n last)) [
            | inl t ↦
                elim (audit_loop-binds fuel (n / 2) (last / 2) (joined_hash digest n a c)
                  (joined_hash digest n b d) h path path' left left'
                  (length-joined_hash n a c ∙ sym (length-joined_hash n b d)) (rw (more, t) at e)
                  (rw (more, t) at e')) [
                    | inl same ↦ joined_hash-binds n a b c d l same
                    | inr found ↦ inr found
                  ]
            | inr t ↦
                audit_loop-binds fuel (n / 2) (last / 2) c d h (a ∷ path) (b ∷ path') left left' l
                  (rw (more, t) at e) (rw (more, t) at e')
          ]
        ]

    calculate-inversion :
        (c h : Bytes) (n size : ℕ) (path : List Bytes)
        → calculate_root_hash_from_audit_path digest c n path size ≡ ok h
        → audit_loop digest (size + 1) c n (size - 1) path ≡ ok (h, [])
    unfolding calculate_root_hash_from_audit_path
    calculate-inversion c h n size path e = ground (arith, e)

    verify-inversion :
        (c : Bytes) (n : ℕ) (path : List Bytes) (sth : Sth)
        → verify_leaf_hash_inclusion digest c n path sth ≡ ok true
        → calculate_root_hash_from_audit_path digest c n path sth.tree_size
          ≡ ok sth.sha256_root_hash
    unfolding verify_leaf_hash_inclusion
    verify-inversion c n path sth e = elim (Bool-cases (leb sth.tree_size n)) [
      | inl outside ↦ absurd (cc (rw outside at e))
      | inr inside ↦
          compared-inversion (calculate_root_hash_from_audit_path digest c n path sth.tree_size)
            sth.sha256_root_hash (rw inside at e)
    ]

    -- Let the hash function give digests of one length. If MerkleVerifier accepts two leaves at one
    -- index against one signed tree head, with whatever audit paths, then the leaves are the same or
    -- two different texts with one digest are at hand.
    pub verify_leaf_inclusion-binds :
        (leaf leaf' : Bytes) (n : ℕ) (path path' : List Bytes) (sth : Sth)
        → verify_leaf_inclusion digest leaf n path sth ≡ ok true
        → verify_leaf_inclusion digest leaf' n path' sth ≡ ok true
        → (leaf ≡ leaf') ⊎ Collision
    unfolding verify_leaf_inclusion hash_leaf
    verify_leaf_inclusion-binds leaf leaf' n path path' sth e e' =
        let h = sth.sha256_root_hash in
        let size = sth.tree_size in
        let c = hash_leaf digest leaf in
        let c' = hash_leaf digest leaf' in
        let looped = calculate-inversion c h n size path (verify-inversion c n path sth e) in
        let looped' = calculate-inversion c' h n size path' (verify-inversion c' n path' sth e') in
        elim (audit_loop-binds (size + 1) n (size - 1) c c' h path path' [] []
          (fixed (0 ∷ leaf) ∙ sym (fixed (0 ∷ leaf'))) looped looped') [
            | inr found ↦ inr found
            | inl same ↦ elim (digest-binds (0 ∷ leaf) (0 ∷ leaf') same) [
              | inl texts ↦ inl (cc texts)
              | inr found ↦ inr found
            ]
          ]
