-- ===== src/InstanceChanges/Dict.antt =====
-- Laws of the dictionaries of votes, by what is found under a key.
use indy_plenum.Prelude.{
  ℕ, ◌≡◌, ◌≢◌, sym, ◌∙◌, ap, subst, String, false, if◌then◌else◌, Option, none, some, List, [], ◌∷◌,
  inl, inr, Bool-cases, In, Eq, ◌=?◌, =?_refl, nat_eq, string_eq, lookup, lookup-insert, insert,
  keys, Distinct, contains_of_In,
}
use indy_plenum.InstanceChanges.{
  Vote, Votes, Cache, delete, votes_or_empty, add_to_cache, put_votes, has_voter, remove_vote,
  stored,
}

module _ {K V : Type 0} ⦃e : Eq K⦄ where
  pub lookup-delete :
      (k j : K) (d : List (K × V)) → lookup j (delete k d) ≡ (if k =? j then none else lookup j d)
  lookup-delete k j [] = elim (Bool-cases (k =? j)) [ inl t ↦ rw t | inr t ↦ rw t ]
  lookup-delete k j ((i, v) ∷ d) = elim (Bool-cases (i =? k)) [
    | inl t ↦
        let is : i ≡ k = (e.beq_iff i k).0 t in
        rw (t, lookup-delete k j d, is)
          (elim (Bool-cases (k =? j)) [ inl t' ↦ rw t' | inr t' ↦ rw t' ])
    | inr t ↦ elim (Bool-cases (i =? j)) [
      | inl t' ↦
          let is : i ≡ j = (e.beq_iff i j).0 t' in
          let other : (k =? j) ≡ false = elim (Bool-cases (k =? j)) [
            | inr n ↦ n
            | inl y ↦ absurd (cc (t, (e.beq_iff i k).1 (is ∙ sym ((e.beq_iff k j).0 y))))
          ] in
          rw (t, t', other)
      | inr t' ↦ rw (t, t', lookup-delete k j d)
    ]
  ]

  pub In-delete : (k : K) (x : K × V) (d : List (K × V)) → In x (delete k d) → In x d × (x.0 ≢ k)
  In-delete k x [] m = absurd m
  In-delete k x ((i, v) ∷ d) m = elim (Bool-cases (i =? k)) [
    | inl t ↦ let (old, other) = In-delete k x d (rw t at m) in (inr old, other)
    | inr t ↦ elim (rw t at m) [
      | inl same ↦
          (inl same, λ is. cc (t, (e.beq_iff i k).1 (sym (ap (λ (y : K × V). y.0) same) ∙ is)))
      | inr m' ↦ let (old, other) = In-delete k x d m' in (inr old, other)
    ]
  ]

  In-keys-delete : (j k : K) (d : List (K × V)) → In j (keys (delete k d)) → In j (keys d)
  In-keys-delete j k [] m = m
  In-keys-delete j k ((i, v) ∷ d) m = elim (Bool-cases (i =? k)) [
    | inl t ↦ inr (In-keys-delete j k d (rw t at m))
    | inr t ↦ elim (rw t at m) [ inl same ↦ inl same | inr m' ↦ inr (In-keys-delete j k d m') ]
  ]

  pub Distinct-keys-delete :
      (k : K) (d : List (K × V)) → Distinct (keys d) → Distinct (keys (delete k d))
  Distinct-keys-delete k [] n = n
  Distinct-keys-delete k ((i, v) ∷ d) n = elim (Bool-cases (i =? k)) [
    | inl t ↦ rw t (Distinct-keys-delete k d n.1)
    | inr t ↦ rw t ((λ m. n.0 (In-keys-delete i k d m)), Distinct-keys-delete k d n.1)
  ]

  pub In-keys_of : (x : K × V) (d : List (K × V)) → In x d → In x.0 (keys d)
  In-keys_of x [] m = absurd m
  In-keys_of x ((i, v) ∷ d) (inl same) = inl (ap (λ (y : K × V). y.0) same)
  In-keys_of x ((i, v) ∷ d) (inr m) = inr (In-keys_of x d m)

abbrev pub nonempty : Votes → Option Votes
nonempty [] = none
nonempty (v ∷ votes) = some (v ∷ votes)

pub lookup-put_votes :
    (view_no j : ℕ) (votes : Votes) (cache : Cache)
    → lookup j (put_votes view_no votes cache)
      ≡ (if view_no =? j then nonempty votes else lookup j cache)
lookup-put_votes view_no j [] cache = lookup-delete view_no j cache
lookup-put_votes view_no j (v ∷ votes) cache = lookup-insert view_no j (v ∷ votes) cache

pub lookup-stored :
    (view_no j : ℕ) (o : Option Votes) (db : Cache)
    → lookup j (stored view_no o db)
      ≡ (if view_no =? j then nonempty (votes_or_empty o) else lookup j db)
lookup-stored view_no j none db = lookup-delete view_no j db
lookup-stored view_no j (some []) db = lookup-delete view_no j db
lookup-stored view_no j (some (v ∷ votes)) db = lookup-insert view_no j (v ∷ votes) db

pub lookup-add_to_cache :
    (view_no j : ℕ) (voter : String) (vote : Vote) (cache : Cache)
    → lookup j (add_to_cache view_no voter vote cache) ≡ (
        if view_no =? j
        then some (insert voter vote (votes_or_empty (lookup view_no cache)))
        else lookup j cache)
unfolding add_to_cache
lookup-add_to_cache view_no j voter vote cache = lookup-insert view_no j _ cache

-- What is left of the votes of a view.
abbrev pub votes_at : ℕ → Cache → Votes
votes_at view_no cache = votes_or_empty (lookup view_no cache)

votes_at-put_votes :
    (view_no : ℕ) (votes : Votes) (cache : Cache)
    → votes_at view_no (put_votes view_no votes cache) ≡ votes
votes_at-put_votes view_no [] cache =
    rw (lookup-put_votes view_no view_no [] cache, =?_refl view_no)
votes_at-put_votes view_no (v ∷ votes) cache =
    rw (lookup-put_votes view_no view_no (v ∷ votes) cache, =?_refl view_no)

-- After a removal the other voters' votes are left.
pub In-remove_vote :
    (view_no : ℕ) (voter : String) (x : String × Vote) (cache : Cache)
    → In x (votes_at view_no (remove_vote view_no voter cache))
    → In x (votes_at view_no cache) × (x.0 ≢ voter)
unfolding remove_vote
In-remove_vote view_no voter x cache m =
    elim (Bool-cases (has_voter voter (lookup view_no cache))) [
      | inl t ↦
          let left : In x (delete voter (votes_at view_no cache)) =
            subst (λ (vs : Votes). In x vs)
              (votes_at-put_votes view_no (delete voter (votes_at view_no cache)) cache)
              (rw t at m) in
          In-delete voter x (votes_at view_no cache) left
      | inr t ↦
          let old : In x (votes_at view_no cache) = rw t at m in
          (old, λ is. no_voter (lookup view_no cache) t is old)
    ]
  where
    no_voter :
        (o : Option Votes) → has_voter voter o ≡ false → x.0 ≡ voter → In x (votes_or_empty o) → ⊥
    no_voter none t is m' = m'
    no_voter (some votes) t is m' = cc (
      t,
      contains_of_In voter (keys votes)
          (subst (λ (k : String). In k (keys votes)) is (In-keys_of x votes m')),
    )
