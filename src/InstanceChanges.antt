-- ===== src/InstanceChanges.antt =====
-- Votes for a view change: InstanceChangeCache and InstanceChangeProvider of
-- plenum/server/view_change/instance_change_provider.py. The clock is a parameter, which gives the time
-- of each reading; a state counts the readings. Times are numbers of one unit. The database of the node
-- status is a dictionary from view numbers to votes, by the keys that `generate_db_key` makes of them.
pub mod Dict
pub mod Fresh
pub mod Stored
use indy_plenum.Prelude.{
  ℕ, ◌+◌, ◌==◌, String, Bool, true, false, ltb, leb, not, if◌then◌else◌, Option, none, some, List,
  [], ◌∷◌, length, lookup, insert, keys, contains, Eq, ◌=?◌, nat_eq, string_eq, sorted,
}
use indy_plenum.Events.{Suspicion}

pub record Vote : Type 0 where
  pub timestamp : ℕ
  pub reason : Suspicion

pub record InstanceChange : Type 0 where
  pub view_no : ℕ
  pub reason : Suspicion

abbrev pub Votes : Type 0
Votes = List (String × Vote)

abbrev pub Cache : Type 0
Cache = List (ℕ × Votes)

-- `del d[k]`, which does nothing here where the key is missing.
abbrev pub delete : {K V : Type 0} ⦃e : Eq K⦄ → K → List (K × V) → List (K × V)
delete k [] = []
delete k ((j, v) ∷ d) = if j =? k then delete k d else (j, v) ∷ delete k d

abbrev pub votes_or_empty : Option Votes → Votes
votes_or_empty none = []
votes_or_empty (some votes) = votes

-- `add` of the cache.
unfoldable pub add_to_cache : ℕ → String → Vote → Cache → Cache
add_to_cache view_no voter vote cache =
    insert view_no (insert voter vote (votes_or_empty (lookup view_no cache))) cache

-- A view without votes is deleted.
abbrev pub put_votes : ℕ → Votes → Cache → Cache
put_votes view_no [] cache = delete view_no cache
put_votes view_no (v ∷ votes) cache = insert view_no (v ∷ votes) cache

abbrev pub has_voter : String → Option Votes → Bool
has_voter voter none = false
has_voter voter (some votes) = contains voter (keys votes)

unfoldable pub remove_vote : ℕ → String → Cache → Cache
remove_vote view_no voter cache =
    if not (has_voter voter (lookup view_no cache))
    then cache
    else put_votes view_no (delete voter (votes_or_empty (lookup view_no cache))) cache

pub record Provider : Type 0 where
  pub outdated_ic_interval : ℕ
  pub cache : Cache
  pub node_status_db : Option Cache
  -- How often the clock was read.
  pub readings : ℕ

abbrev pub stored : ℕ → Option Votes → Cache → Cache
stored view_no none db = delete view_no db
stored view_no (some []) db = delete view_no db
stored view_no (some (v ∷ votes)) db = insert view_no (v ∷ votes) db

-- Without a database nothing is stored.
abbrev pub stored_in : ℕ → Option Votes → Option Cache → Option Cache
stored_in view_no votes none = none
stored_in view_no votes (some db) = some (stored view_no votes db)

abbrev pub deleted_in : ℕ → Option Cache → Option Cache
deleted_in view_no none = none
deleted_in view_no (some db) = some (delete view_no db)

unfoldable pub update_db_from_cache : ℕ → Provider → Provider
update_db_from_cache view_no p = record p {
  node_status_db = stored_in view_no (lookup view_no p.cache) p.node_status_db;
}

module _ (clock : ℕ → ℕ) where
  -- `vote.timestamp < now - self._outdated_ic_interval`
  abbrev pub is_outdated : ℕ → Vote → ℕ → Bool
  is_outdated interval vote now = ltb (vote.timestamp + interval) now

  -- The loop of `_update_votes` over a copy of the votes: whether a vote was removed, and the state.
  unfoldable pub expire : ℕ → Votes → Provider → Bool × Provider
  unfolding remove_vote
  expire view_no [] p = (false, p)
  expire view_no ((voter, vote) ∷ votes) p =
      let now : ℕ = clock p.readings in
      let outdated : Bool = is_outdated p.outdated_ic_interval vote now in
      let read : Provider = record p { readings = p.readings + 1 } in
      let next : Provider =
        if outdated then record read { cache = remove_vote view_no voter p.cache } else read in
      let (removed, p') = expire view_no votes next in (if outdated then true else removed, p')

  abbrev pub saved : ℕ → Bool × Provider → Provider
  saved view_no (true, p) = update_db_from_cache view_no p
  saved view_no (false, p) = p

  unfoldable pub update_votes : ℕ → Provider → Provider
  unfolding expire update_db_from_cache
  update_votes view_no p =
      if p.outdated_ic_interval == 0 then p else elim (lookup view_no p.cache) [
        | none ↦ p
        | some votes ↦ saved view_no (expire view_no votes p)
      ]

  unfoldable pub add_vote : InstanceChange → String → Provider → Provider
  unfolding add_to_cache update_db_from_cache
  add_vote msg voter p =
      let vote : Vote = record { timestamp = clock p.readings; reason = msg.reason } in
      update_db_from_cache msg.view_no (record p {
        cache = add_to_cache msg.view_no voter vote p.cache;
        readings = p.readings + 1;
      })

  unfoldable pub has_view : ℕ → Provider → Bool × Provider
  unfolding update_votes
  has_view view_no p = let p' = update_votes view_no p in (contains view_no (keys p'.cache), p')

  unfoldable pub has_inst_chng_from : ℕ → String → Provider → Bool × Provider
  unfolding update_votes
  has_inst_chng_from view_no voter p =
      let p' = update_votes view_no p in (has_voter voter (lookup view_no p'.cache), p')

  abbrev pub reaches : ℕ → Option Votes → Bool
  reaches quorum none = false
  reaches quorum (some votes) = leb quorum (length votes)

  unfoldable pub has_quorum : ℕ → ℕ → Provider → Bool × Provider
  unfolding update_votes
  has_quorum view_no quorum p =
      let p' = update_votes view_no p in (reaches quorum (lookup view_no p'.cache), p')

-- The loop of `remove_view` over the sorted view numbers, which stops at the first one above.
unfoldable pub remove_views : ℕ → List ℕ → Provider → Provider
remove_views view_to_remove [] p = p
remove_views view_to_remove (view_no ∷ view_nos) p =
    let rest = remove_views view_to_remove view_nos (record p {
      cache = delete view_no p.cache;
      node_status_db = deleted_in view_no p.node_status_db;
    }) in
    if ltb view_to_remove view_no then p else rest

unfoldable pub remove_view : ℕ → Provider → Provider
unfolding remove_views
remove_view view_to_remove p = remove_views view_to_remove (sorted ltb (keys p.cache)) p
