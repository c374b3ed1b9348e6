-- ===== src/ViewChange/Storages.antt =====
-- plenum/server/consensus/view_change_storages.py. The digests are SHA-256 sums of the JSON texts of
-- the messages: functions `view_change_digest` and `new_view_digest` that are parameters. A read of
-- a `defaultdict` adds the missing key, and so do these operations; each returns the new storage.
pub mod Confirmed
pub mod Kept
pub mod Agreement
mod Tests
use mathlib.Core.Option
use indy_plenum.Prelude.{
  ℕ, zero, suc, String, List, [], ◌∷◌, ◌++◌, Option, none, some, Bool, true, false, ◌&&◌, not,
  if◌then◌else◌, ◌==◌, ltb, ◌=?◌, string_eq, option_beq, contains, add, length, select, lookup,
  insert, map,
}
use indy_plenum.Quorums.{Quorums, is_reached}
use indy_plenum.Names.{node_name_of, replica_name_to_node_name}
use indy_plenum.Messages.{ViewChange, ViewChangeAck, NewView}

-- `ViewChangeVotesForNode`
pub record VotesForNode : Type 0 where
  pub view_change : Option ViewChange
  pub digest : Option String
  pub quorums : Quorums
  pub acks : List (String × List String)

abbrev pub no_votes : Quorums → VotesForNode
no_votes quorums = record { view_change = none; digest = none; quorums = quorums; acks = [] }

-- The value of `acks[digest]`, and the dictionary after it was read.
abbrev pub acks_of : String → List (String × List String) → List String
acks_of digest acks = elim (lookup digest acks) [ some froms ↦ froms | none ↦ [] ]

abbrev pub read_acks : String → List (String × List String) → List (String × List String)
read_acks digest acks = elim (lookup digest acks) [ some _ ↦ acks | none ↦ insert digest [] acks ]

unfoldable pub is_confirmed : VotesForNode → Bool × VotesForNode
unfolding is_reached
is_confirmed v = elim v.digest [
  | none ↦ (false, v)
  | some digest ↦ (
    is_reached v.quorums.view_change_ack (length (acks_of digest v.acks)),
    record v { acks = read_acks digest v.acks },
  )
]

-- The digests with a weak quorum of acknowledgements.
pub supported : Quorums → List (String × List String) → List String
unfolding is_reached
supported quorums [] = []
supported quorums ((digest, froms) ∷ acks) =
    if is_reached quorums.weak (length froms)
    then digest ∷ supported quorums acks
    else supported quorums acks

pub judge : Option String → List String → Bool
judge digest [] = true
judge none (d ∷ []) = true
judge (some digest) (d ∷ []) = digest =? d
judge digest (d ∷ d' ∷ ds) = false

pub validate_acks : VotesForNode → Bool
unfolding supported judge
validate_acks v = judge v.digest (supported v.quorums v.acks)

module _ (view_change_digest : ViewChange → String) where
  -- `ViewChangeVotesForNode.add_view_change`
  unfoldable pub node_add_view_change : VotesForNode → ViewChange → Bool × VotesForNode
  unfolding validate_acks
  node_add_view_change v msg = elim v.view_change [
    | none ↦
        let v' = record v { view_change = some msg; digest = some (view_change_digest msg) } in
        (validate_acks v', v')
    | some _ ↦ (option_beq v.digest (some (view_change_digest msg)), v)
  ]

-- `ViewChangeVotesForNode.add_view_change_ack`
unfoldable pub node_add_ack : VotesForNode → ViewChangeAck → String → Bool × VotesForNode
unfolding validate_acks
node_add_ack v msg frm =
    let v' = record v { acks = insert msg.digest (add frm (acks_of msg.digest v.acks)) v.acks } in
    (validate_acks v', v')

-- `ViewChangeVotesForView`
pub record VotesForView : Type 0 where
  pub votes : List (String × VotesForNode)
  pub quorums : Quorums

-- `_get_vote`: the vote of a node, and the storage that holds it from now on.
unfoldable pub get_vote : VotesForView → String → VotesForNode × VotesForView
get_vote s frm = elim (lookup frm s.votes) [
  | some v ↦ (v, s)
  | none ↦ (no_votes s.quorums, record s { votes = insert frm (no_votes s.quorums) s.votes })
]

-- The items of `_votes` after `is_confirmed` was read of each, and the confirmed ones.
pub confirm_all :
    List (String × VotesForNode) → List (String × String) × List (String × VotesForNode)
unfolding is_confirmed
confirm_all [] = ([], [])
confirm_all ((frm, v) ∷ votes) =
    let (more, votes') = confirm_all votes in
    let (confirmed, v') = is_confirmed v in
    let found : List (String × String) = elim v.digest [
      | some digest ↦ if confirmed then (frm, digest) ∷ more else more
      | none ↦ more
    ] in
    (found, (frm, v') ∷ votes')

unfoldable pub confirmed_votes : VotesForView → List (String × String) × VotesForView
unfolding confirm_all
confirmed_votes s = let (found, votes) = confirm_all s.votes in (found, record s { votes = votes })

module _ (view_change_digest : ViewChange → String) where
  abbrev pub if_digest_is : String → Option ViewChange → Option ViewChange
  if_digest_is digest none = none
  if_digest_is digest (some vc) = if view_change_digest vc =? digest then some vc else none

  unfoldable pub get_view_change : VotesForView → String → String → Option ViewChange × VotesForView
  unfolding get_vote
  get_view_change s frm digest =
      let (v, s') = get_vote s frm in (if_digest_is digest v.view_change, s')

  unfoldable pub add_view_change : VotesForView → ViewChange → String → Bool × VotesForView
  unfolding get_vote node_name_of node_add_view_change
  add_view_change s msg frm =
      let name = node_name_of frm in
      let (v, s') = get_vote s name in
      let (good, v') = node_add_view_change view_change_digest v msg in
      (good, record s' { votes = insert name v' s'.votes })

unfoldable pub add_view_change_ack : VotesForView → ViewChangeAck → String → Bool × VotesForView
unfolding get_vote node_name_of node_add_ack
add_view_change_ack s msg frm =
    let (v, s') = get_vote s msg.name in
    let (good, v') = node_add_ack v msg (node_name_of frm) in
    (good, record s' { votes = insert msg.name v' s'.votes })

unfoldable pub clear : VotesForView → VotesForView
clear s = record s { votes = [] }

unfoldable pub update_items : Quorums → List (String × VotesForNode) → List (String × VotesForNode)
update_items quorums = map (λ (frm, v). (frm, record v { quorums = quorums }))

unfoldable pub update_quorums : VotesForView → Quorums → VotesForView
unfolding update_items
update_quorums s quorums = record { votes = update_items quorums s.votes; quorums = quorums }

-- `NewViewVotes`
pub record NewViewVotes : Type 0 where
  pub view_no : ℕ
  pub msg : NewView
  pub voted_nodes : List String

unfoldable pub add_vote : NewViewVotes → String → NewViewVotes
add_vote v frm =
    if contains frm v.voted_nodes then v else record v { voted_nodes = v.voted_nodes ++ frm ∷ [] }

-- `NewViewVotesForView`
pub record NewViewStore : Type 0 where
  pub votes : List (String × NewViewVotes)
  pub quorums : Quorums
  pub new_view : Option NewView

abbrev pub names_primary : Option String → List String → Bool
names_primary none voted_nodes = false
names_primary (some primary_name) voted_nodes = contains primary_name voted_nodes

abbrev is_requested : NewView → Bool
is_requested msg = elim msg.primary [ some _ ↦ true | none ↦ false ]

-- The loop of `get_new_view`.
unfoldable pub from_primary : Option String → List (String × NewViewVotes) → Option NewView
from_primary primary_name [] = none
from_primary primary_name ((digest, nv_votes) ∷ votes) =
    let rest = from_primary primary_name votes in
    if length nv_votes.voted_nodes == 1
      && (names_primary primary_name nv_votes.voted_nodes && not (is_requested nv_votes.msg))
    then some nv_votes.msg
    else rest

unfoldable pub get_new_view : NewViewStore → Option String → Option NewView
unfolding from_primary replica_name_to_node_name
get_new_view s primary_name = elim s.new_view [
  | some msg ↦ some msg
  | none ↦ from_primary (replica_name_to_node_name primary_name) s.votes
]

unfoldable pub clear_new_views : NewViewStore → NewViewStore
clear_new_views s = record s { votes = []; new_view = none }

unfoldable pub update_new_view_quorums : NewViewStore → Quorums → NewViewStore
update_new_view_quorums s quorums = record s { quorums = quorums }

-- `setdefault(digest, NewViewVotes(msg))`
abbrev pub votes_or_new : String → NewView → List (String × NewViewVotes) → NewViewVotes
votes_or_new digest msg votes = elim (lookup digest votes) [
  | some v ↦ v
  | none ↦ record { view_no = msg.view_no; msg = msg; voted_nodes = [] }
]

module _ (new_view_digest : NewView → String) where
  unfoldable pub add_new_view : NewViewStore → NewView → String → NewViewStore
  unfolding node_name_of add_vote is_reached
  add_new_view s msg frm =
      let digest = new_view_digest msg in
      let v = add_vote (votes_or_new digest msg s.votes) (node_name_of frm) in
      let votes = insert digest v s.votes in
      if is_reached s.quorums.strong (length v.voted_nodes)
      then record s { votes = votes; new_view = some msg }
      else record s { votes = votes }
