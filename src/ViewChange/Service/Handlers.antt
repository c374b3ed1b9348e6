-- ===== src/ViewChange/Service/Handlers.antt =====
-- The handlers of `ViewChangeService`. The bus delivers at once: what a handler does after
-- `process_all_stashed` or a message on the internal bus does not read what the receivers change.
use indy_plenum.Prelude.{
  ℕ, ◌+◌, String, List, [], ◌∷◌, ◌++◌, Option, none, some, Bool, false, ◌&&◌, not, if◌then◌else◌,
  nat_eq, string_eq, contains, length, lookup, insert, sorted, list_beq, option_beq, string_lt,
}
use indy_plenum.Quorums.{is_reached}
use indy_plenum.Names.{node_name_of, replica_name_to_node_name}
use indy_plenum.Messages.{
  BatchId, Checkpoint, ViewChange, ViewChangeAck, NewView, batch_eq, checkpoint_eq,
}
use indy_plenum.SharedData.{is_primary, truthy}
use indy_plenum.Verdict.{Code, Verdict, accepted, is_process}
use indy_plenum.Events.{Event, Suspicion}
use indy_plenum.ViewChange.Builder.{calc_checkpoint, calc_batches}
use indy_plenum.ViewChange.Storages.{
  VotesForView, confirmed_votes, add_view_change, add_view_change_ack, add_new_view,
}
use indy_plenum.ViewChange.Service.{
  VcState, VcStep, validate, new_view, finish_view_change, all, missing, gather,
}

abbrev pub with_votes : VotesForView → VcState → VcState
with_votes votes s = record s { data' = record (s.data') { view_change_votes = votes } }

-- What a handler returns to the router, with what it did.
abbrev pub VcResult : Type 0
VcResult = Option (Verdict × VcStep)

abbrev pub after : List Event → Option VcStep → Option VcStep
after sent none = none
after sent (some (s, events)) = some (s, sent ++ events)

abbrev pub returning : Verdict → Option VcStep → VcResult
returning verdict none = none
returning verdict (some step) = some (verdict, step)

-- `sorted(confirmed_votes, key=itemgetter(0))`
abbrev pub by_name : List (String × String) → List (String × String)
by_name = sorted (λ a b. string_lt (a.0) (b.0))

-- `cp is None or cp != new_view.checkpoint`, and `batches != new_view.batches`.
abbrev pub same_checkpoint : Option Checkpoint → NewView → Bool
same_checkpoint cp nv = option_beq cp (some nv.checkpoint)

abbrev pub same_batches : Option (List BatchId) → NewView → Bool
same_batches none nv = false
same_batches (some batches) nv = list_beq batches nv.batches

abbrev pub propose_view_change : Suspicion → VcState → VcStep
propose_view_change suspicion s = (s, Event.vote_for_view_change suspicion ∷ [])

-- The part of `_finish_view_change_if_needed` after its loop.
unfoldable pub check_new_view : NewView → List ViewChange → VcState → Option VcStep
check_new_view nv vcs s =
    let q = s.data'.quorums in
    elim (calc_checkpoint q vcs) [
      | none ↦ some (propose_view_change Suspicion.new_view_invalid_checkpoints s)
      | some cp ↦
          if not (same_checkpoint (some cp) nv)
          then some (propose_view_change Suspicion.new_view_invalid_checkpoints s)
          else if not (same_batches (calc_batches q s.data'.log_size cp vcs) nv)
          then some (propose_view_change Suspicion.new_view_invalid_batches s)
          else finish_view_change s
    ]

module _ (view_change_digest : ViewChange → String) (new_view_digest : NewView → String) where
  -- The end of `_send_new_view_if_needed`, with the NewView made.
  unfoldable pub announce : NewView → VcState → Option VcStep
  announce nv s =
      let d = s.data' in
      let votes = add_new_view new_view_digest d.new_view_votes nv d.name in
      after (Event.send_new_view nv ∷ [])
        (finish_view_change (record s { data' = record d { new_view_votes = votes } }))

  unfoldable pub send_new_view : List (String × String) → List ViewChange → VcState → Option VcStep
  send_new_view confirmed vcs s =
      let d = s.data' in
      elim (calc_checkpoint d.quorums vcs) [
        | none ↦ some (s, [])
        | some cp ↦ elim (calc_batches d.quorums d.log_size cp vcs) [
          | none ↦ some (s, [])
          | some batches ↦
              if not (contains cp d.checkpoints)
              then some (s, [])
              else announce
                  (record {
                    view_no = d.view_no;
                    view_changes = by_name confirmed;
                    checkpoint = cp;
                    batches = batches;
                    primary = none;
                  })
                  s
        ]
      ]

  unfoldable pub send_new_view_if_needed : VcState → Option VcStep
  send_new_view_if_needed s =
      let (confirmed, votes) = confirmed_votes s.data'.view_change_votes in
      if not (is_reached s.data'.quorums.view_change (length confirmed))
      then some (with_votes votes s, [])
      else let (found, votes') = gather view_change_digest votes confirmed in
        elim found [
          | all vcs ↦ send_new_view confirmed vcs (with_votes votes' s)
          | missing _ ↦ none
        ]

  unfoldable pub finish_view_change_if_needed : VcState → Option VcStep
  finish_view_change_if_needed s = elim (new_view s.data') [
    | none ↦ some (s, [])
    | some nv ↦
        let (found, votes) = gather view_change_digest s.data'.view_change_votes nv.view_changes in
        elim found [
          | all vcs ↦ check_new_view nv vcs (with_votes votes s)
          | missing key ↦
              some (with_votes votes s, Event.missing_view_change key s.data'.inst_id ∷ [])
        ]
  ]

  -- The count of `_stashed_vc_msgs` after one more message for that view.
  abbrev pub stashed_count : ℕ → List (ℕ × ℕ) → ℕ
  stashed_count view_no stashed = elim (lookup view_no stashed) [ some n ↦ n + 1 | none ↦ 0 + 1 ]

  abbrev pub stash_vc_msg : ℕ → VcState → VcStep
  stash_vc_msg view_no s =
      let n = stashed_count view_no s.stashed_vc_msgs in
      (
        record s { stashed_vc_msgs = insert view_no n s.stashed_vc_msgs },
        if is_reached s.data'.quorums.view_change n && not s.data'.waiting_for_new_view
            then Event.node_need_view_change view_no ∷ []
            else [],
      )

  abbrev pub if_stashed : Verdict → ℕ → VcState → VcStep
  if_stashed (Code.stash_waiting_view_change, reason) view_no s = stash_vc_msg view_no s
  if_stashed (_, reason) view_no s = (s, [])

  abbrev pub vote_and_ack : ViewChange → String → VcState → ViewChangeAck × VcState
  vote_and_ack msg frm s =
      let d = s.data' in
      let vca : ViewChangeAck = record {
        view_no = msg.view_no;
        name = node_name_of frm;
        digest = view_change_digest msg;
      } in
      let votes = (add_view_change view_change_digest d.view_change_votes msg frm).1 in
      (vca, with_votes ((add_view_change_ack votes vca (node_name_of d.name)).1) s)

  unfoldable pub process_view_change_message : ViewChange → String → VcState → VcResult
  process_view_change_message msg frm s =
      let verdict = validate s.data' msg.view_no in
      if not (is_process (verdict.0))
      then some (verdict, if_stashed verdict msg.view_no s)
      else let (vca, s') = vote_and_ack msg frm s in
        if truthy (is_primary s'.data')
        then returning accepted (send_new_view_if_needed s')
        else returning accepted (
            after
              (Event.send_view_change_ack vca (replica_name_to_node_name s'.data'.primary_name)
                ∷ [])
              (finish_view_change_if_needed s'))

  unfoldable pub process_view_change_ack_message : ViewChangeAck → String → VcState → VcResult
  process_view_change_ack_message msg frm s =
      let d = s.data' in
      let verdict = validate d msg.view_no in
      if not (is_process (verdict.0))
      then some (verdict, (s, []))
      else if not (truthy (is_primary d))
      then some (accepted, (s, []))
      else returning accepted (
          send_new_view_if_needed
            (with_votes ((add_view_change_ack d.view_change_votes msg frm).1) s))

  unfoldable pub process_new_view_message : NewView → String → VcState → VcResult
  process_new_view_message msg frm s =
      let d = s.data' in
      let verdict = validate d msg.view_no in
      if not (is_process (verdict.0))
      then some (verdict, (s, []))
      else let votes = add_new_view new_view_digest d.new_view_votes msg frm in
        returning accepted
          (finish_view_change_if_needed (record s { data' = record d { new_view_votes = votes } }))
