-- ===== src/InstanceChanges/Stored.antt =====
-- What the operations of instance_change_provider.py keep: a vote per node, and the database.
use indy_plenum.Prelude.{
  ℕ, ◌+◌, ◌==◌, ◌≡◌, ◌≢◌, refl, sym, ◌∙◌, ap, subst, String, Bool, true, false, ltb, if◌then◌else◌,
  Option, none, some, List, [], ◌∷◌, inl, inr, Bool-cases, Option-cases, lookup, insert, keys,
  Distinct, Distinct-keys-insert, nat_eq, string_eq, ◌=?◌, sorted,
}
use indy_plenum.InstanceChanges.{
  Vote, Votes, Cache, Provider, InstanceChange, is_outdated, delete, has_voter, put_votes,
  add_to_cache, remove_vote, stored, stored_in, deleted_in, expire, saved, update_votes,
  update_db_from_cache, votes_or_empty, add_vote, remove_views, remove_view, has_view,
  has_inst_chng_from, has_quorum,
}
use indy_plenum.InstanceChanges.Dict.{
  nonempty, votes_at, lookup-delete, lookup-put_votes, lookup-stored, lookup-add_to_cache,
  Distinct-keys-delete,
}

-- A view in the cache has votes, one of each voter.
abbrev pub IsTally : Option Votes → Type 0
IsTally none = Unit
IsTally (some votes) = Distinct (keys votes) × (votes ≢ [])

abbrev pub IsCache : Cache → Type 0
IsCache cache = (view_no : ℕ) → IsTally (lookup view_no cache)

abbrev pub Mirrors : Option Cache → Cache → Type 0
Mirrors none cache = Unit
Mirrors (some db) cache = (view_no : ℕ) → lookup view_no db ≡ lookup view_no cache

-- Each node has one vote for a view, and the database, if there is one, holds the votes of the cache.
pub record IsStored (p : Provider) : Type 0 where
  pub tallies : IsCache p.cache
  pub mirrored : Mirrors p.node_status_db p.cache

either : {A : Type 0} (P : A → Type 0) (b : Bool) (x y : A) → P x → P y → P (if b then x else y)
either P true x y p q = p
either P false x y p q = q

IsTally-nonempty : (votes : Votes) → Distinct (keys votes) → IsTally (nonempty votes)
IsTally-nonempty [] d = tt
IsTally-nonempty (v ∷ votes) d = (d, λ e. cc e)

Distinct-votes : (o : Option Votes) → IsTally o → Distinct (keys (votes_or_empty o))
Distinct-votes none t = tt
Distinct-votes (some votes) t = t.0

remove_vote-IsCache :
    (view_no : ℕ) (voter : String) (cache : Cache)
    → IsCache cache
    → IsCache (remove_vote view_no voter cache)
unfolding remove_vote
remove_vote-IsCache view_no voter cache c j =
    elim (Bool-cases (has_voter voter (lookup view_no cache))) [
      | inr t ↦ rw t (c j)
      | inl t ↦
          let left = delete voter (votes_at view_no cache) in
          let there : IsTally (lookup j (put_votes view_no left cache)) =
            subst IsTally (sym (lookup-put_votes view_no j left cache)) (
              either IsTally (view_no =? j) (nonempty left) (lookup j cache)
                (IsTally-nonempty left (
                  Distinct-keys-delete voter (votes_at view_no cache)
                    (Distinct-votes (lookup view_no cache) (c view_no))))
                (c j)) in
          rw t there
    ]

remove_vote-other :
    (view_no j : ℕ) (voter : String) (cache : Cache)
    → (view_no =? j) ≡ false
    → lookup j (remove_vote view_no voter cache) ≡ lookup j cache
unfolding remove_vote
remove_vote-other view_no j voter cache other =
    elim (Bool-cases (has_voter voter (lookup view_no cache))) [
      | inr t ↦ rw t
      | inl t ↦
          let left = delete voter (votes_at view_no cache) in
          rw t (
            lookup-put_votes view_no j left cache
            ∙ ap (λ (b : Bool). if b then nonempty left else lookup j cache) other)
    ]

insert-nonempty : (voter : String) (vote : Vote) (votes : Votes) → insert voter vote votes ≢ []
insert-nonempty voter vote [] e = cc e
insert-nonempty voter vote ((k, v) ∷ votes) e = elim (Bool-cases (k =? voter)) [
  | inl t ↦ cc (rw t at e)
  | inr t ↦ cc (rw t at e)
]

add_to_cache-IsCache :
    (view_no : ℕ) (voter : String) (vote : Vote) (cache : Cache)
    → IsCache cache
    → IsCache (add_to_cache view_no voter vote cache)
add_to_cache-IsCache view_no voter vote cache c j =
    let votes = votes_at view_no cache in
    subst IsTally (sym (lookup-add_to_cache view_no j voter vote cache)) (
      either IsTally (view_no =? j) (some (insert voter vote votes)) (lookup j cache)
        (
          Distinct-keys-insert voter vote votes (Distinct-votes (lookup view_no cache) (c view_no)),
          insert-nonempty voter vote votes,
        )
        (c j))

delete-IsCache : (view_no : ℕ) (cache : Cache) → IsCache cache → IsCache (delete view_no cache)
delete-IsCache view_no cache c j =
    subst IsTally (sym (lookup-delete view_no j cache))
      (either IsTally (view_no =? j) none (lookup j cache) tt (c j))

-- The database is right for all views but one.
abbrev MirrorsBut : ℕ → Option Cache → Cache → Type 0
MirrorsBut view_no none cache = Unit
MirrorsBut view_no (some db) cache = (j : ℕ) → (view_no =? j) ≡ false → lookup j db ≡ lookup j cache

but_of :
    (view_no : ℕ) (o : Option Cache) (cache : Cache) → Mirrors o cache → MirrorsBut view_no o cache
but_of view_no none cache m = tt
but_of view_no (some db) cache m = λ j other. m j

nonempty-of_tally : (o : Option Votes) → IsTally o → nonempty (votes_or_empty o) ≡ o
nonempty-of_tally none t = refl
nonempty-of_tally (some []) t = absurd (t.1 refl)
nonempty-of_tally (some (v ∷ votes)) t = refl

stored_in-Mirrors :
    (view_no : ℕ) (o : Option Cache) (cache : Cache)
    → IsCache cache
    → MirrorsBut view_no o cache
    → Mirrors (stored_in view_no (lookup view_no cache) o) cache
stored_in-Mirrors view_no none cache c m = tt
stored_in-Mirrors view_no (some db) cache c m = λ j.
    let now = lookup-stored view_no j (lookup view_no cache) db in
    elim (Bool-cases (view_no =? j)) [
      | inl t ↦
          let is : view_no ≡ j = (nat_eq.beq_iff view_no j).0 t in
          let here : lookup j (stored view_no (lookup view_no cache) db)
              ≡ nonempty (votes_or_empty (lookup view_no cache)) =
            rw t at now in
          here
          ∙ nonempty-of_tally (lookup view_no cache) (c view_no)
          ∙ ap (λ (n : ℕ). lookup n cache) is
      | inr t ↦
          let there : lookup j (stored view_no (lookup view_no cache) db) ≡ lookup j db =
            rw t at now in
          there ∙ m j t
    ]

-- Writing the votes of that view makes the database right.
update_db-IsStored :
    (view_no : ℕ) (p : Provider)
    → IsCache p.cache
    → MirrorsBut view_no p.node_status_db p.cache
    → IsStored (update_db_from_cache view_no p)
unfolding update_db_from_cache
update_db-IsStored view_no p c m = record {
  tallies = c;
  mirrored = stored_in-Mirrors view_no p.node_status_db p.cache c m;
}

moved-MirrorsBut :
    (view_no : ℕ) (o : Option Cache) (cache cache' : Cache)
    → ((j : ℕ) → (view_no =? j) ≡ false → lookup j cache' ≡ lookup j cache)
    → MirrorsBut view_no o cache
    → MirrorsBut view_no o cache'
moved-MirrorsBut view_no none cache cache' same m = tt
moved-MirrorsBut view_no (some db) cache cache' same m = λ j other. m j other ∙ sym (same j other)

module _ (clock : ℕ → ℕ) where
  pub add_vote-IsStored :
      (msg : InstanceChange) (voter : String) (p : Provider)
      → IsStored p
      → IsStored (add_vote clock msg voter p)
  unfolding add_vote
  add_vote-IsStored msg voter p s =
      let vote : Vote = record { timestamp = clock p.readings; reason = msg.reason } in
      let cache = add_to_cache msg.view_no voter vote p.cache in
      update_db-IsStored msg.view_no (record p { cache = cache; readings = p.readings + 1 })
        (add_to_cache-IsCache msg.view_no voter vote p.cache s.tallies)
        (moved-MirrorsBut msg.view_no p.node_status_db p.cache cache
          (λ j other.
            lookup-add_to_cache msg.view_no j voter vote p.cache
            ∙ ap
                (λ (b : Bool).
                  if b
                  then some (insert voter vote (votes_at msg.view_no p.cache))
                  else lookup j p.cache)
                other)
          (but_of msg.view_no p.node_status_db p.cache s.mirrored))

  -- The loop of `_update_votes`: what it leaves, and that it changed nothing if it removed nothing.
  record IsExpired (view_no : ℕ) (p : Provider) (r : Bool × Provider) : Type 0 where
    tallies : IsCache r.1.cache
    others : (j : ℕ) → (view_no =? j) ≡ false → lookup j r.1.cache ≡ lookup j p.cache
    same_db : r.1.node_status_db ≡ p.node_status_db
    unchanged : r.0 ≡ false → r.1.cache ≡ p.cache

  expire-IsExpired :
      (view_no : ℕ) (votes : Votes) (p : Provider)
      → IsCache p.cache
      → IsExpired view_no p (expire clock view_no votes p)
  unfolding expire
  expire-IsExpired view_no [] p c = record {
    tallies = c;
    others = λ j other. refl;
    same_db = refl;
    unchanged = λ e. refl;
  }
  expire-IsExpired view_no ((voter, vote) ∷ votes) p c =
      elim (Bool-cases (is_outdated clock p.outdated_ic_interval vote (clock p.readings))) [
        | inl t ↦
            let gone = remove_vote view_no voter p.cache in
            let next : Provider = record p { readings = p.readings + 1; cache = gone } in
            let q =
              expire-IsExpired view_no votes next (remove_vote-IsCache view_no voter p.cache c) in
            rw t (record {
              tallies = q.tallies;
              others =
                  λ j other. q.others j other ∙ remove_vote-other view_no j voter p.cache other;
              same_db = q.same_db;
              unchanged = λ e. absurd (cc e);
            })
        | inr t ↦
            let q = expire-IsExpired view_no votes (record p { readings = p.readings + 1 }) c in
            rw t (record {
              tallies = q.tallies;
              others = q.others;
              same_db = q.same_db;
              unchanged = q.unchanged;
            })
      ]

  saved-IsStored :
      (view_no : ℕ) (p : Provider) (r : Bool × Provider)
      → IsStored p
      → IsExpired view_no p r
      → IsStored (saved clock view_no r)
  saved-IsStored view_no p (true, p') s q = update_db-IsStored view_no p' q.tallies (
      moved-MirrorsBut view_no p'.node_status_db p.cache p'.cache q.others (
        subst (λ (o : Option Cache). MirrorsBut view_no o p.cache) (sym q.same_db)
          (but_of view_no p.node_status_db p.cache s.mirrored)))
  saved-IsStored view_no p (false, p') s q = record {
    tallies = q.tallies;
    mirrored =
        subst (λ (o : Option Cache). Mirrors o p'.cache) (sym q.same_db)
          (subst (λ (k : Cache). Mirrors p.node_status_db k) (sym (q.unchanged refl)) s.mirrored);
  }

  pub update_votes-IsStored :
      (view_no : ℕ) (p : Provider) → IsStored p → IsStored (update_votes clock view_no p)
  unfolding update_votes
  update_votes-IsStored view_no p s = elim (Bool-cases (p.outdated_ic_interval == 0)) [
    | inl t ↦ rw (t, update_votes) s
    | inr t ↦ elim (Option-cases (lookup view_no p.cache)) [
      | inl none_there ↦ rw (t, none_there, update_votes) s
      | inr (votes, there) ↦
          rw (t, there, update_votes)
            (saved-IsStored view_no p (expire clock view_no votes p) s
              (expire-IsExpired view_no votes p s.tallies))
    ]
  ]

deleted_in-Mirrors :
    (view_no : ℕ) (o : Option Cache) (cache : Cache)
    → Mirrors o cache
    → Mirrors (deleted_in view_no o) (delete view_no cache)
deleted_in-Mirrors view_no none cache m = tt
deleted_in-Mirrors view_no (some db) cache m = λ j.
    lookup-delete view_no j db
    ∙ ap (λ (x : Option Votes). if view_no =? j then none else x) (m j)
    ∙ sym (lookup-delete view_no j cache)

remove_views-IsStored :
    (view_to_remove : ℕ) (view_nos : List ℕ) (p : Provider)
    → IsStored p
    → IsStored (remove_views view_to_remove view_nos p)
unfolding remove_views
remove_views-IsStored view_to_remove [] p s = s
remove_views-IsStored view_to_remove (view_no ∷ view_nos) p s =
    elim (Bool-cases (ltb view_to_remove view_no)) [
      | inl t ↦ rw t s
      | inr t ↦ rw t (
          remove_views-IsStored view_to_remove view_nos _ (record {
            tallies = delete-IsCache view_no p.cache s.tallies;
            mirrored = deleted_in-Mirrors view_no p.node_status_db p.cache s.mirrored;
          }))
    ]

-- Every operation of InstanceChangeProvider keeps one vote per node for a view, no view without votes,
-- and a database, if there is one, with the same votes as the cache.
pub operations-IsStored :
    (clock : ℕ → ℕ) (p : Provider)
    → IsStored p
    → ((msg : InstanceChange) (voter : String) → IsStored (add_vote clock msg voter p))
      × ((view_no : ℕ) → IsStored (has_view clock view_no p).1)
      × ((view_no : ℕ) (voter : String) → IsStored (has_inst_chng_from clock view_no voter p).1)
      × ((view_no quorum : ℕ) → IsStored (has_quorum clock view_no quorum p).1)
      × ((view_to_remove : ℕ) → IsStored (remove_view view_to_remove p))
unfolding has_view has_inst_chng_from has_quorum remove_view
operations-IsStored clock p s = (
  λ msg voter. add_vote-IsStored clock msg voter p s,
  λ view_no. update_votes-IsStored clock view_no p s,
  λ view_no voter. update_votes-IsStored clock view_no p s,
  λ view_no quorum. update_votes-IsStored clock view_no p s,
  λ view_to_remove. remove_views-IsStored view_to_remove (sorted ltb (keys p.cache)) p s,
)
