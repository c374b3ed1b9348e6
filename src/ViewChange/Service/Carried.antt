-- ===== src/ViewChange/Service/Carried.antt =====
-- What a ViewChange message carries: `_build_view_change_msg`.
use indy_plenum.Prelude.{
  ℕ, List, [], ◌∷◌, none, some, false, not, ◌≡◌, ◌⊎◌, ◌=?◌, nat_eq, string_eq, In, In-append_left,
  In-append_right, In-select_of, In-sorted_of, lookup, insert, lookup-insert, lookup-insert_self,
  Bool-cases, refl, ap, sym, subst, ◌∙◌, select, inl, inr,
}
use indy_plenum.Messages.{BatchId, batch_lt}
use indy_plenum.ViewChange.Service.{
  VcState, build_view_change_msg, merge_prepared, merge_preprepared, pretenders, values, flatten,
}

In-values : {V : Type 0} (k : ℕ) (v : V) (d : List (ℕ × V)) → lookup k d ≡ some v → In v (values d)
In-values k v [] h = cc
In-values k v ((j, w) ∷ d) h = elim (Bool-cases (j =? k)) [
  | inl t ↦ let h' = rw t at h in inl (cc)
  | inr t ↦ inr (In-values k v d (rw t at h))
]

In-flatten :
    {A : Type 0} (a : A) (xs : List A) (xss : List (List A))
    → In a xs
    → In xs xss
    → In a (flatten xss)
In-flatten a xs [] m n = absurd n
In-flatten a xs (ys ∷ xss) m (inl e) = In-append_left a ys (flatten xss) (subst (In a) e m)
In-flatten a xs (ys ∷ xss) m (inr n) = In-append_right a ys (flatten xss) (In-flatten a xs xss m n)

-- The batch `v` at the number `k`, or one of `prepared` at that number.
abbrev Newest : ℕ → BatchId → List BatchId → BatchId → Type 0
Newest k v prepared b = (b.pp_seq_no ≡ k) × ((b ≡ v) ⊎ In b prepared)

merge_prepared_kept :
    (k : ℕ) (v : BatchId) (old : List (ℕ × BatchId)) (prepared : List BatchId)
    → lookup k old ≡ some v
    → v.pp_seq_no ≡ k
    → (b : BatchId) × (lookup k (merge_prepared old prepared) ≡ some b) × Newest k v prepared b
unfolding merge_prepared
merge_prepared_kept k v old [] h p = (v, h, (p, inl refl))
merge_prepared_kept k v old (b ∷ prepared) h p = elim (Bool-cases (b.pp_seq_no =? k)) [
  | inl t ↦
      let is = (nat_eq.beq_iff b.pp_seq_no k).0 t in
      let (b', found, (at, m)) =
        merge_prepared_kept k b (insert b.pp_seq_no b old) prepared
          (rw (lookup-insert b.pp_seq_no k b old, t) refl) is in
      (b', found, (at, elim m [ inl e ↦ inr (inl e) | inr n ↦ inr (inr n) ]))
  | inr t ↦
      let (b', found, (at, m)) =
        merge_prepared_kept k v (insert b.pp_seq_no b old) prepared
          (rw (lookup-insert b.pp_seq_no k b old, t) h) p in
      (b', found, (at, elim m [ inl e ↦ inl e | inr n ↦ inr (inr n) ]))
]

merge_prepared_found :
    (b : BatchId) (old : List (ℕ × BatchId)) (prepared : List BatchId)
    → In b prepared
    → (b' : BatchId) × (lookup b.pp_seq_no (merge_prepared old prepared) ≡ some b')
      × (b'.pp_seq_no ≡ b.pp_seq_no)
      × In b' prepared
unfolding merge_prepared
merge_prepared_found b old [] m = absurd m
merge_prepared_found b old (c ∷ prepared) (inl e) =
    let (b', found, (at, m)) =
      merge_prepared_kept b.pp_seq_no c (insert c.pp_seq_no c old) prepared
        (rw e (lookup-insert_self c.pp_seq_no c old)) (cc) in
    (b', found, at, m)
merge_prepared_found b old (c ∷ prepared) (inr m) =
    let (b', found, at, n) = merge_prepared_found b (insert c.pp_seq_no c old) prepared m in
    (b', found, at, inr n)

-- The ViewChange message has, at the number of each batch that is prepared in the replica, one of
-- the batches of that number that are prepared in the replica.
pub vc_msg_carries_prepared :
    (s : VcState) (b : BatchId)
    → In b s.data'.prepared
    → (b' : BatchId) × In b' (build_view_change_msg s).0.prepared
      × (b'.pp_seq_no ≡ b.pp_seq_no)
      × In b' s.data'.prepared
unfolding build_view_change_msg
vc_msg_carries_prepared s b m =
    let (b', found, at, n) = merge_prepared_found b s.old_prepared s.data'.prepared m in
    let all = merge_prepared s.old_prepared s.data'.prepared in
    (b', In-sorted_of batch_lt b' (values all) (In-values b.pp_seq_no b' all found), at, n)

-- A dictionary that has, at the number of a batch, one with the batch's digest.
abbrev HasDigest : BatchId → List (ℕ × List BatchId) → Type 0
HasDigest b old =
    (bids : List BatchId) × (lookup b.pp_seq_no old ≡ some bids)
    × ((b' : BatchId) × In b' bids × (b'.pp_seq_no ≡ b.pp_seq_no) × (b'.pp_digest ≡ b.pp_digest))

HasDigest-insert_same :
    (b c : BatchId) (old : List (ℕ × List BatchId))
    → c.pp_seq_no ≡ b.pp_seq_no
    → c.pp_digest ≡ b.pp_digest
    → HasDigest b (insert c.pp_seq_no (pretenders c old) old)
HasDigest-insert_same b c old p q =
    let known : List BatchId = elim (lookup c.pp_seq_no old) [ some bids ↦ bids | none ↦ [] ] in
    (
      pretenders c old,
      rw (sym p) (lookup-insert_self c.pp_seq_no (pretenders c old) old),
      (
        c,
        In-append_right c (select (λ bid. not (bid.pp_digest =? c.pp_digest)) known) (c ∷ [])
            (inl refl),
        p,
        q,
      ),
    )

In-pretenders :
    (b c : BatchId) (bids : List BatchId) (old : List (ℕ × List BatchId))
    → lookup c.pp_seq_no old ≡ some bids
    → In b bids
    → (b.pp_digest =? c.pp_digest) ≡ false
    → In b (pretenders c old)
In-pretenders b c bids old found m differ = rw found (
    In-append_left b (select (λ bid. not (bid.pp_digest =? c.pp_digest)) bids) (c ∷ [])
      (In-select_of (λ bid. not (bid.pp_digest =? c.pp_digest)) b bids (ap not differ) m))

HasDigest-insert :
    (b c : BatchId) (old : List (ℕ × List BatchId))
    → HasDigest b old
    → HasDigest b (insert c.pp_seq_no (pretenders c old) old)
HasDigest-insert b c old (bids, found, (b', m, at, same)) =
    elim (Bool-cases (c.pp_seq_no =? b.pp_seq_no)) [
      | inr t ↦ (
        bids,
        rw (lookup-insert c.pp_seq_no b.pp_seq_no (pretenders c old) old, t) found,
        (b', m, at, same),
      )
      | inl t ↦
          let is = (nat_eq.beq_iff c.pp_seq_no b.pp_seq_no).0 t in
          elim (Bool-cases (b'.pp_digest =? c.pp_digest)) [
            | inl u ↦
                HasDigest-insert_same b c old is
                  (sym ((string_eq.beq_iff b'.pp_digest c.pp_digest).0 u) ∙ same)
            | inr u ↦ (
              pretenders c old,
              rw (sym is) (lookup-insert_self c.pp_seq_no (pretenders c old) old),
              (b', In-pretenders b' c bids old (rw is found) m u, at, same),
            )
          ]
    ]

merge_preprepared_kept :
    (b : BatchId) (old : List (ℕ × List BatchId)) (preprepared : List BatchId)
    → HasDigest b old
    → HasDigest b (merge_preprepared old preprepared)
unfolding merge_preprepared
merge_preprepared_kept b old [] h = h
merge_preprepared_kept b old (c ∷ preprepared) h =
    merge_preprepared_kept b (insert c.pp_seq_no (pretenders c old) old) preprepared
      (HasDigest-insert b c old h)

merge_preprepared_found :
    (b : BatchId) (old : List (ℕ × List BatchId)) (preprepared : List BatchId)
    → In b preprepared
    → HasDigest b (merge_preprepared old preprepared)
unfolding merge_preprepared
merge_preprepared_found b old [] m = absurd m
merge_preprepared_found b old (c ∷ preprepared) (inl e) =
    merge_preprepared_kept b (insert c.pp_seq_no (pretenders c old) old) preprepared
      (HasDigest-insert_same b c old (cc) (cc))
merge_preprepared_found b old (c ∷ preprepared) (inr m) =
    merge_preprepared_found b (insert c.pp_seq_no (pretenders c old) old) preprepared m

-- The ViewChange message has, for each batch that is preprepared in the replica, a batch with the
-- same number and digest among its preprepared ones.
pub vc_msg_carries_preprepared :
    (s : VcState) (b : BatchId)
    → In b s.data'.preprepared
    → (b' : BatchId) × In b' (build_view_change_msg s).0.preprepared
      × (b'.pp_seq_no ≡ b.pp_seq_no)
      × (b'.pp_digest ≡ b.pp_digest)
unfolding build_view_change_msg
vc_msg_carries_preprepared s b m =
    let all = merge_preprepared s.old_preprepared s.data'.preprepared in
    let (bids, found, (b', n, at, same)) =
      merge_preprepared_found b s.old_preprepared s.data'.preprepared m in
    (
      b',
      In-sorted_of batch_lt b' (flatten (values all))
          (In-flatten b' bids (values all) n (In-values b.pp_seq_no bids all found)),
      at,
      same,
    )
