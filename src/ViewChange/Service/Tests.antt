-- ===== src/ViewChange/Service/Tests.antt =====
-- A pool of four nodes changes to view 1, whose primary is Beta. Three nodes have voted, and each vote
-- has two acknowledgements.
use indy_plenum.Prelude.{
  String, List, [], ◌∷◌, Option, none, some, true, ◌≡◌, In, refl, inl, map, contains, length,
}
use indy_plenum.Quorums.{Quorums, is_reached, get_max_failures}
use indy_plenum.Names.{generate_name, node_name_of, replica_name_to_node_name}
use indy_plenum.Messages.{BatchId, ViewChange, ViewChangeAck, NewView, checkpoint_eq, batch_lt}
use indy_plenum.Startable.{Mode}
use indy_plenum.SharedData.{shared_data, set_validators, is_participating, is_primary}
use indy_plenum.Verdict.{accepted}
use indy_plenum.Events.{Event}
use indy_plenum.ViewChange.Storages.{
  VotesForView, confirmed_votes, add_view_change, add_view_change_ack, get_new_view, add_new_view,
  get_view_change,
}
use indy_plenum.ViewChange.Service.{
  VcState, VcStep, validate, new_view, build_view_change_msg, gather, clean_on_view_change_start,
  finish_view_change, finish_with,
}
use indy_plenum.ViewChange.Service.Handlers.{
  VcResult, process_view_change_message, process_view_change_ack_message, send_new_view_if_needed,
  finish_view_change_if_needed, by_name, check_new_view, send_new_view, announce,
}
use indy_plenum.ViewChange.Service.Acceptance.{
  IsJustified, accepted_new_view-IsJustified, sent_new_view-IsJustified,
}
use indy_plenum.ViewChange.Service.Start.{process_need_view_change, enter_view, start_on_master}
use indy_plenum.ViewChange.Builder.{calc_checkpoint, calc_batches}
use indy_plenum.ViewChange.Service.Started.{IsStarted, process_need_view_change-IsStarted}
use indy_plenum.ViewChange.Service.Reachable.{
  Reachable, initial, need_view_change, view_change, view_change_ack, Reachable-confirmed_votes,
}
use indy_plenum.ViewChange.Service.Carried.{vc_msg_carries_preprepared}

abbrev nodes : List String
nodes = "Alpha" ∷ "Beta" ∷ "Gamma" ∷ "Delta" ∷ []

abbrev more_nodes : List String
more_nodes = "Alpha" ∷ "Beta" ∷ "Gamma" ∷ "Delta" ∷ "Epsilon" ∷ "Zeta" ∷ "Eta" ∷ []

abbrev vc_digest : ViewChange → String
vc_digest vc = "d"

abbrev nv_digest : NewView → String
nv_digest nv = "n"

abbrev batch : BatchId
batch = record { view_no = 0; pp_view_no = 0; pp_seq_no = 1; pp_digest = "a" }

-- Beta, in view 0, with one batch prepared.
abbrev beta : VcState
beta = record {
  data' = record (shared_data "Beta:0" nodes 0 true 300) {
    node_mode = Mode.participating;
    preprepared = batch ∷ [];
    prepared = batch ∷ [];
  };
  last_completed_view_no = 0;
  old_prepared = [];
  old_preprepared = [];
  stashed_vc_msgs = [];
}

runs : Unit {0}
unfolding process_view_change_message process_view_change_ack_message is_primary get_view_change
    replica_name_to_node_name generate_name process_need_view_change shared_data
    build_view_change_msg send_new_view_if_needed finish_view_change_if_needed is_participating
    validate get_new_view gather add_view_change add_view_change_ack enter_view
    clean_on_view_change_start start_on_master check_new_view calc_checkpoint calc_batches
    get_max_failures finish_view_change finish_with is_reached confirmed_votes send_new_view
    announce add_new_view node_name_of batch_lt
runs = tt

vc_msg_carries_preprepared_example :
    (b' : BatchId) × In b' (build_view_change_msg beta).0.preprepared
    × (b'.pp_seq_no ≡ batch.pp_seq_no)
    × (b'.pp_digest ≡ batch.pp_digest)
vc_msg_carries_preprepared_example = vc_msg_carries_preprepared beta batch (inl refl)

abbrev started : VcStep
started = process_need_view_change vc_digest (λ view_no. "Beta") none beta

process_need_view_change-IsStarted_example : IsStarted "Beta:0" 1 "Beta:0" started.0 started.1
unfolding runs
process_need_view_change-IsStarted_example =
    process_need_view_change-IsStarted vc_digest (λ view_no. "Beta") none beta refl

-- The votes of Beta, Alpha and Gamma with the acknowledgements of two others each.
abbrev voted : ViewChange → VotesForView → VotesForView
voted vc votes =
    let add = λ (frm : String) (v : VotesForView). (add_view_change vc_digest v vc frm).1 in
    let ack = λ (name frm : String) (v : VotesForView).
      (add_view_change_ack v (record { view_no = 1; name = name; digest = "d" }) frm).1 in
    ack "Gamma" "Alpha" (
      ack "Gamma" "Beta" (
        add "Gamma:0" (
          ack "Alpha" "Gamma"
            (ack "Alpha" "Beta" (add "Alpha:0" (ack "Beta" "Gamma" (ack "Beta" "Alpha" votes)))))))

abbrev vote : ViewChange
vote = (build_view_change_msg started.0).0

abbrev before : VcState
before = record (started.0) {
  data' = record (started.0.data') {
    view_change_votes = voted vote started.0.data'.view_change_votes;
  };
}

abbrev or_not : Option VcStep → VcStep
or_not none = (beta, [])
or_not (some step) = step

abbrev sent : VcStep
sent = or_not (send_new_view_if_needed vc_digest nv_digest before)

sent_new_view-IsJustified_example :
    (nv : NewView) × (vcs : List ViewChange) × In (Event.send_new_view nv) sent.1
    × (let confirmed = (confirmed_votes before.data'.view_change_votes).0 in
        (is_reached before.data'.quorums.view_change (length confirmed) ≡ true)
        × (nv.view_changes ≡ by_name confirmed)
        × (map vc_digest vcs ≡ map (λ key. key.1) confirmed))
    × (contains nv.checkpoint before.data'.checkpoints ≡ true)
    × IsJustified before nv vcs
unfolding runs
sent_new_view-IsJustified_example =
    sent_new_view-IsJustified vc_digest nv_digest before sent.0 sent.1 refl refl refl

-- Gamma's view of the same votes, with the NewView that Beta sent.
abbrev proposal : NewView
proposal = record {
  view_no = 1;
  view_changes = ("Alpha", "d") ∷ ("Beta", "d") ∷ ("Gamma", "d") ∷ [];
  checkpoint = record { inst_id = 0; view_no = 0; seq_no_start = 0; seq_no_end = 0; digest = none };
  batches = batch ∷ [];
  primary = none;
}

abbrev with_proposal : VcState
with_proposal = record before {
  data' = record (before.data') {
    name = "Gamma:0";
    new_view_votes = record (before.data'.new_view_votes) { new_view = some proposal };
  };
}

abbrev finished : VcStep
finished = or_not (finish_view_change_if_needed vc_digest nv_digest with_proposal)

accepted_new_view-IsJustified_example :
    (nv : NewView) × (vcs : List ViewChange) × (new_view with_proposal.data' ≡ some nv)
    × (map vc_digest vcs ≡ map (λ key. key.1) nv.view_changes)
    × IsJustified with_proposal nv vcs
unfolding runs
accepted_new_view-IsJustified_example =
    accepted_new_view-IsJustified vc_digest nv_digest with_proposal finished.0 finished.1 refl refl
      refl

-- The primary Beta gets the ViewChange of Alpha, and an acknowledgement of it by Gamma.
abbrev step_of : VcResult → VcStep
step_of none = (beta, [])
step_of (some (verdict, step)) = step

abbrev one_ack : VcState
one_ack = (step_of (process_view_change_message vc_digest nv_digest vote "Alpha:0" started.0)).0

abbrev alpha_ack : ViewChangeAck
alpha_ack = record { view_no = 1; name = "Alpha"; digest = "d" }

abbrev two_acks : VcState
two_acks =
    (step_of (process_view_change_ack_message vc_digest nv_digest alpha_ack "Gamma:0" one_ack)).0

-- The quorums of a pool of four, and then of seven.
abbrev pools : List Quorums
pools = beta.data'.new_view_votes.quorums ∷ []

abbrev grown : VcState
grown = record two_acks { data' = set_validators two_acks.data' more_nodes }

abbrev more_pools : List Quorums
more_pools = grown.data'.quorums ∷ pools

started-Reachable : Reachable vc_digest nv_digest (λ view_no. "Beta") pools started.0
unfolding shared_data
started-Reachable = need_view_change none (initial refl refl refl)

one_ack-Reachable : Reachable vc_digest nv_digest (λ view_no. "Beta") pools one_ack
unfolding runs
one_ack-Reachable =
    view_change {verdict = accepted}
      {events = (step_of
        (process_view_change_message vc_digest nv_digest vote "Alpha:0" started.0)).1}
      vote "Alpha:0" started-Reachable refl

two_acks-Reachable : Reachable vc_digest nv_digest (λ view_no. "Beta") pools two_acks
unfolding runs
two_acks-Reachable =
    view_change_ack {verdict = accepted}
      {events = (step_of
        (process_view_change_ack_message vc_digest nv_digest alpha_ack "Gamma:0" one_ack)).1}
      alpha_ack "Gamma:0" one_ack-Reachable refl

Reachable-confirmed_votes_example :
    (vc : ViewChange) × ((get_view_change vc_digest
        (confirmed_votes two_acks.data'.view_change_votes).1
        "Alpha"
        "d").0
      ≡ some vc)
    × (vc_digest vc ≡ "d")
unfolding runs
Reachable-confirmed_votes_example =
    Reachable-confirmed_votes vc_digest nv_digest (λ view_no. "Beta") pools two_acks "Alpha" "d"
      two_acks-Reachable (inl refl)
