-- ===== src/ViewChange/Service.antt =====
-- `ViewChangeService` of plenum/server/consensus/view_change_service.py. Parameters are the digests of
-- the messages and the selector's `select_master_primary`. The reasons of a refusal are named here and
-- texts there. `none` is an AttributeError of the code, on a value that is `None`; a handler returns
-- the new state and what it sent, in order.
pub mod Handlers
pub mod Acceptance
pub mod Start
pub mod Started
pub mod Good
pub mod Steps
pub mod Reachable
pub mod Carried
mod Tests
use mathlib.Core.List.{flat_map}
use indy_plenum.Prelude.{
  ℕ, zero, suc, ◌+◌, String, List, [], ◌∷◌, ◌++◌, Option, none, some, Bool, true, false, ◌&&◌, not,
  if◌then◌else◌, ◌==◌, ltb, leb, ◌=?◌, nat_eq, string_eq, contains, length, select, lookup, insert,
  sorted, map, list_beq, get_last?, string_lt,
}
use indy_plenum.Quorums.{is_reached}
use indy_plenum.Names.{node_name_of, replica_name_to_node_name, generate_name}
use indy_plenum.Messages.{
  BatchId, Checkpoint, ViewChange, ViewChangeAck, NewView, batch_lt, batch_eq, checkpoint_eq,
}
use indy_plenum.SharedData.{SharedData, is_primary, truthy, is_participating}
use indy_plenum.Verdict.{Code, Reason, Verdict, refuse, accepted, is_process}
use indy_plenum.Events.{Event, Suspicion, NewViewAccepted}
use indy_plenum.ViewChange.Builder.{calc_checkpoint, calc_batches}
use indy_plenum.ViewChange.Storages.{
  VotesForView, get_view_change, confirmed_votes, add_view_change, add_view_change_ack, clear,
  get_new_view, clear_new_views, add_new_view,
}

pub record VcState : Type 0 where
  pub data' : SharedData
  pub last_completed_view_no : ℕ
  pub old_prepared : List (ℕ × BatchId)
  pub old_preprepared : List (ℕ × List BatchId)
  pub stashed_vc_msgs : List (ℕ × ℕ)

abbrev pub VcStep : Type 0
VcStep = VcState × List Event

-- `_clear_old_batches`
pub clear_old_batches {ℓ} : {V : Type ℓ} → ℕ → List (ℕ × V) → List (ℕ × V)
clear_old_batches stable_checkpoint =
    select (λ (pp_seq_no, v). not (leb pp_seq_no stable_checkpoint))

unfoldable pub clean_on_view_change_start : VcState → VcState
unfolding clear_old_batches clear clear_new_views
clean_on_view_change_start s =
    let d = s.data' in
    record s {
      data' = record d {
        view_change_votes = clear d.view_change_votes;
        new_view_votes = clear_new_views d.new_view_votes;
      };
      old_prepared = clear_old_batches d.stable_checkpoint s.old_prepared;
      old_preprepared = clear_old_batches d.stable_checkpoint s.old_preprepared;
    }

-- The two loops of `_build_view_change_msg`.
pub merge_prepared : List (ℕ × BatchId) → List BatchId → List (ℕ × BatchId)
merge_prepared old [] = old
merge_prepared old (batch_id ∷ prepared) =
    merge_prepared (insert batch_id.pp_seq_no batch_id old) prepared

abbrev pub pretenders : BatchId → List (ℕ × List BatchId) → List BatchId
pretenders new_bid old =
    let known : List BatchId = elim (lookup new_bid.pp_seq_no old) [
      | some bids ↦ bids
      | none ↦ []
    ] in
    select (λ bid. not (bid.pp_digest =? new_bid.pp_digest)) known ++ new_bid ∷ []

pub merge_preprepared : List (ℕ × List BatchId) → List BatchId → List (ℕ × List BatchId)
merge_preprepared old [] = old
merge_preprepared old (new_bid ∷ preprepared) =
    merge_preprepared (insert new_bid.pp_seq_no (pretenders new_bid old) old) preprepared

abbrev pub values : {V : Type 0} → List (ℕ × V) → List V
values [] = []
values ((k, v) ∷ d) = v ∷ values d

abbrev pub flatten : {A : Type 0} → List (List A) → List A
flatten [] = []
flatten (xs ∷ xss) = xs ++ flatten xss

unfoldable pub build_view_change_msg : VcState → ViewChange × VcState
unfolding merge_prepared merge_preprepared batch_lt
build_view_change_msg s =
    let d = s.data' in
    let old_prepared = merge_prepared s.old_prepared d.prepared in
    let old_preprepared = merge_preprepared s.old_preprepared d.preprepared in
    (
      record {
        view_no = d.view_no;
        stable_checkpoint = d.stable_checkpoint;
        prepared = sorted batch_lt (values old_prepared);
        preprepared = sorted batch_lt (flatten (values old_preprepared));
        checkpoints = d.checkpoints;
      },
      record s { old_prepared = old_prepared; old_preprepared = old_preprepared },
    )

-- `_validate`, of the `viewNo` of a message.
unfoldable pub validate : SharedData → ℕ → Verdict
unfolding is_participating
validate d view_no =
    if not d.is_master
    then refuse Code.discard Reason.non_master
    else if ltb view_no d.view_no
    then refuse Code.discard Reason.old_view
    else if view_no == d.view_no && not d.waiting_for_new_view
    then refuse Code.discard Reason.view_change_finished
    else if not (is_participating d)
    then refuse Code.stash_catch_up Reason.catching_up
    else if ltb d.view_no view_no
    then refuse Code.stash_waiting_view_change Reason.future_view
    else accepted

-- The property `new_view` of the shared data.
abbrev pub new_view : SharedData → Option NewView
new_view d = get_new_view d.new_view_votes d.primary_name

-- The number up to which the new view orders the batches of the old ones again.
abbrev pub prepare_cert : NewView → ℕ
prepare_cert nv = elim (get_last? nv.batches) [
  | some bid ↦ bid.pp_seq_no
  | none ↦ nv.checkpoint.seq_no_end
]

abbrev pub primary_of : NewView → SharedData → Option String
primary_of nv d = elim nv.primary [
  | some primary ↦ some (generate_name primary d.inst_id)
  | none ↦ d.primary_name
]

-- `_finish_view_change` with the NewView that the property returns.
unfoldable pub finish_with : NewView → VcState → VcStep
finish_with nv s = (
  record s {
    data' = record (s.data') {
      waiting_for_new_view = false;
      prev_view_prepare_cert = prepare_cert nv;
      primary_name = primary_of nv s.data';
    };
    last_completed_view_no = s.data'.view_no;
  },
  Event.stop_timer
      ∷ Event.new_view_accepted (record {
        view_no = nv.view_no;
        view_changes = nv.view_changes;
        checkpoint = nv.checkpoint;
        batches = nv.batches;
      })
      ∷ [],
)

unfoldable pub finish_view_change : VcState → Option VcStep
finish_view_change s = elim (new_view s.data') [ some nv ↦ some (finish_with nv s) | none ↦ none ]

pub data Gathered : Type 0 where
  all : List ViewChange → Gathered
  missing : String × String → Gathered

abbrev pub also : ViewChange → Gathered → Gathered
also vc (all vcs) = all (vc ∷ vcs)
also vc (missing key) = missing key

module _ (view_change_digest : ViewChange → String) where
  -- The messages for some votes, or the first vote whose message is not there.
  pub gather : VotesForView → List (String × String) → Gathered × VotesForView
  unfolding get_view_change
  gather votes [] = (all [], votes)
  gather votes ((name, digest) ∷ rest) =
      let (vc, votes') = get_view_change view_change_digest votes name digest in
      let (more, votes'') = gather votes' rest in
      elim vc [ some msg ↦ (also msg more, votes'') | none ↦ (missing (name, digest), votes') ]
