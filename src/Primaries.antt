-- ===== src/Primaries.antt =====
-- The selection of primaries: plenum/server/consensus/primary_selector.py. The node registries of
-- `NodeRegHandler` are parameters. `none` is an exception: an empty list of nodes, or no registry.
pub mod Cycle
pub mod RoundRobin
pub mod Registry
mod Tests
use indy_plenum.Prelude.{
  ℕ, zero, suc, ◌+◌, ◌-◌, ◌/◌, ◌%◌, String, List, [], ◌∷◌, ◌++◌, Option, none, some, Bool, not,
  if◌then◌else◌, ◌==◌, leb, ltb, ◌=?◌, nat_eq, string_eq, length, get_elem?, lookup,
}

-- `validators[index % len(validators)]`
unfoldable pub at : List String → ℕ → Option String
at validators index =
    if length validators == 0 then none else get_elem? validators (index % length validators)

unfoldable pub select_master_primary : List String → (view_no : ℕ) → Option String
select_master_primary validators view_no = at validators view_no

-- The `while` loop of `select_backup_primaries_round_robin`, for at most `rounds` rounds: `none` where
-- they are too few, too. RoundRobin.antt gives a number that is enough.
unfoldable pub round_robin :
    (rounds : ℕ) (view_no : ℕ)
    → List String
    → (count : ℕ) → (master_primary : String) → (i : ℕ) → List String
    → Option (List String)
round_robin zero view_no validators count master_primary i primaries =
    if not (ltb (length primaries) count) then some primaries else none
round_robin (suc rounds) view_no validators count master_primary i primaries =
    if not (ltb (length primaries) count)
    then some primaries
    else elim (at validators (view_no + i)) [
      | none ↦ none
      | some backup_primary ↦ round_robin rounds view_no validators count master_primary (i + 1) (
          if not (backup_primary =? master_primary)
          then primaries ++ backup_primary ∷ []
          else primaries)
    ]

unfoldable pub select_primaries : (rounds : ℕ) → List String → (view_no : ℕ) → Option (List String)
unfolding select_master_primary
select_primaries rounds validators view_no = elim (select_master_primary validators view_no) [
  | none ↦ none
  | some master_primary ↦
      elim (round_robin rounds view_no validators ((length validators - 1) / 3) master_primary 1
        []) [ none ↦ none | some backups ↦ some (master_primary ∷ backups) ]
]

-- The loop of `_do_select_master_primary`: the registry of the view, or of the last one before that has
-- one.
pub registry_for : List (ℕ × List String) → ℕ → Option (List String)
registry_for node_reg zero = lookup 0 node_reg
registry_for node_reg (suc view_no) = elim (lookup (suc view_no) node_reg) [
  | some reg ↦ some reg
  | none ↦ registry_for node_reg view_no
]

unfoldable pub do_select_master_primary : (view_no : ℕ) → List (ℕ × List String) → Option String
unfolding registry_for
do_select_master_primary view_no node_reg =
    elim (registry_for node_reg (if ltb 1 view_no then view_no - 1 else 0)) [
      | none ↦ none
      | some reg ↦ at reg view_no
    ]

-- `select_primaries` of the selector over the node registries: the master's primary by the uncommitted
-- registries, the others by the nodes that are active now.
unfoldable pub select_primaries_by_registry :
    (rounds : ℕ) (uncommitted : List (ℕ × List String)) (active : List String) (view_no : ℕ)
    → Option (List String)
unfolding do_select_master_primary round_robin
select_primaries_by_registry rounds uncommitted active view_no =
    elim (do_select_master_primary view_no uncommitted) [
      | none ↦ none
      | some master_primary ↦
          elim (round_robin rounds view_no active ((length active - 1) / 3) master_primary 1 []) [
            | none ↦ none
            | some backups ↦ some (master_primary ∷ backups)
          ]
    ]
