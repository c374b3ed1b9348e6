-- ===== src/ViewChange/Service/Reachable.antt =====
-- The states of a `ViewChangeService` that its handlers lead to, with the quorums that it has had.
use indy_plenum.Prelude.{
  ℕ, String, List, [], ◌∷◌, Option, none, some, ◌≡◌, sym, refl, subst, inl, ◌∙◌, lookup, keys,
  Distinct, string_eq, In,
}
use indy_plenum.Quorums.{Quorums}
use indy_plenum.Messages.{ViewChange, ViewChangeAck, NewView}
use indy_plenum.SharedData.{SharedData, set_validators}
use indy_plenum.Verdict.{Verdict}
use indy_plenum.Events.{Event}
use indy_plenum.ViewChange.Storages.{NewViewStore, VotesForNode, confirmed_votes, get_view_change}
use indy_plenum.ViewChange.Storages.Confirmed.{
  IsWellFormed, get_view_change-IsWellFormed, confirmed_votes_available,
}
use indy_plenum.ViewChange.Storages.Agreement.{IsSoundBy}
use indy_plenum.ViewChange.Service.{VcState}
use indy_plenum.ViewChange.Service.Handlers.{
  with_votes, process_view_change_message, process_view_change_ack_message,
  process_new_view_message,
}
use indy_plenum.ViewChange.Service.Start.{process_need_view_change}
use indy_plenum.ViewChange.Service.Good.{HadQuorum, IsGood, with_votes-IsGood}
use indy_plenum.ViewChange.Service.Steps.{
  result-IsGood, view_change_message-IsGood, view_change_ack_message-IsGood,
  new_view_message-IsGood, need_view_change-IsGood, set_validators-IsGood,
}

module _ (view_change_digest : ViewChange → String) (new_view_digest : NewView → String) where
  -- The states that a new replica gets into, each with the quorums that it has had, the latest first: by
  -- the handlers, by a change of the pool, by the requests of other nodes for a ViewChange, and by what the
  -- other services do to the rest of the shared data.
  pub data Reachable (select_master_primary : ℕ → String) : List Quorums → VcState → Type 0 where
    initial :
        {s : VcState}
        → s.data'.view_change_votes.votes ≡ []
        → s.data'.new_view_votes.votes ≡ []
        → s.data'.new_view_votes.new_view ≡ none
        → Reachable select_master_primary (s.data'.new_view_votes.quorums ∷ []) s
    need_view_change :
        {pools : List Quorums} {s : VcState} (wanted : Option ℕ)
        → Reachable select_master_primary pools s
        → Reachable select_master_primary pools
            (process_need_view_change view_change_digest select_master_primary wanted s).0
    view_change :
        {pools : List Quorums} {s s' : VcState} {verdict : Verdict} {events : List Event}
        (msg : ViewChange) (frm : String)
        → Reachable select_master_primary pools s
        → process_view_change_message view_change_digest new_view_digest msg frm s
          ≡ some (verdict, (s', events))
        → Reachable select_master_primary pools s'
    view_change_ack :
        {pools : List Quorums} {s s' : VcState} {verdict : Verdict} {events : List Event}
        (msg : ViewChangeAck) (frm : String)
        → Reachable select_master_primary pools s
        → process_view_change_ack_message view_change_digest new_view_digest msg frm s
          ≡ some (verdict, (s', events))
        → Reachable select_master_primary pools s'
    new_view_message :
        {pools : List Quorums} {s s' : VcState} {verdict : Verdict} {events : List Event}
        (msg : NewView) (frm : String)
        → Reachable select_master_primary pools s
        → process_new_view_message view_change_digest new_view_digest msg frm s
          ≡ some (verdict, (s', events))
        → Reachable select_master_primary pools s'
    -- The pool has changed; the quorums of both storages change with it.
    validators_changed :
        {pools : List Quorums} {s : VcState} (validators : List String)
        → Reachable select_master_primary pools s
        → Reachable select_master_primary
            ((set_validators s.data' validators).quorums ∷ pools)
            (record s { data' = set_validators s.data' validators })
    -- `_get_reply` of `ViewChangeHandler`: another node asks for a ViewChange, whose read adds the key.
    view_change_requested :
        {pools : List Quorums} {s : VcState} (name digest : String)
        → Reachable select_master_primary pools s
        → Reachable select_master_primary pools (
            with_votes
              (get_view_change view_change_digest s.data'.view_change_votes name digest).1
              s)
    elsewhere :
        {pools : List Quorums} {s : VcState} (d : SharedData)
        → Reachable select_master_primary pools s
        → d.view_change_votes ≡ s.data'.view_change_votes
        → d.new_view_votes ≡ s.data'.new_view_votes
        → Reachable select_master_primary pools (record s { data' = d })

  initial-IsGood :
      (d : SharedData)
      → d.view_change_votes.votes ≡ []
      → d.new_view_votes.votes ≡ []
      → d.new_view_votes.new_view ≡ none
      → IsGood view_change_digest new_view_digest (d.new_view_votes.quorums ∷ []) d
  initial-IsGood d v n a = record {
    voted = record {
      distinct = subst (λ (x : List (String × VotesForNode)). Distinct (keys x)) (sym v) tt;
      votes = λ frm w e. absurd (cc (subst (λ x. lookup frm x ≡ some w) v e));
    };
    tallied = record {
      tallies = λ digest w e. absurd (cc (subst (λ x. lookup digest x ≡ some w) n e));
      accepted = λ msg e. absurd (cc (sym a ∙ e));
    };
    current = inl refl;
  }

  Reachable-IsGood_only :
      (select_master_primary : ℕ → String) (pools : List Quorums) (s : VcState)
      → Reachable select_master_primary pools s
      → IsGood view_change_digest new_view_digest pools s.data'
  Reachable-IsGood_only select pools s (initial v n a) = initial-IsGood s.data' v n a
  Reachable-IsGood_only select pools s (need_view_change {s = s₀} wanted h) =
      need_view_change-IsGood view_change_digest new_view_digest pools select wanted s₀
        (Reachable-IsGood_only select pools s₀ h)
  Reachable-IsGood_only select pools s (view_change {s = s₀} msg frm h e) =
      result-IsGood view_change_digest new_view_digest pools e (
        view_change_message-IsGood view_change_digest new_view_digest pools msg frm s₀
          (Reachable-IsGood_only select pools s₀ h))
  Reachable-IsGood_only select pools s (view_change_ack {s = s₀} msg frm h e) =
      result-IsGood view_change_digest new_view_digest pools e (
        view_change_ack_message-IsGood view_change_digest new_view_digest pools msg frm s₀
          (Reachable-IsGood_only select pools s₀ h))
  Reachable-IsGood_only select pools s (new_view_message {s = s₀} msg frm h e) =
      result-IsGood view_change_digest new_view_digest pools e (
        new_view_message-IsGood view_change_digest new_view_digest pools msg frm s₀
          (Reachable-IsGood_only select pools s₀ h))
  Reachable-IsGood_only select _ s (validators_changed {pools = old} {s = s₀} validators h) =
      set_validators-IsGood view_change_digest new_view_digest old s₀.data' validators
        (Reachable-IsGood_only select old s₀ h)
  Reachable-IsGood_only select pools s (view_change_requested {s = s₀} name digest h) =
      let good = Reachable-IsGood_only select pools s₀ h in
      let votes = (get_view_change view_change_digest s₀.data'.view_change_votes name digest).1 in
      with_votes-IsGood view_change_digest new_view_digest pools s₀ votes good (
        get_view_change-IsWellFormed view_change_digest s₀.data'.view_change_votes name digest
          good.voted)
  Reachable-IsGood_only select pools s (elsewhere {s = s₀} d h v n) =
      let good = Reachable-IsGood_only select pools s₀ h in
      record {
        voted = subst (IsWellFormed view_change_digest) (sym v) good.voted;
        tallied = subst (IsSoundBy new_view_digest (HadQuorum pools)) (sym n) good.tallied;
        current = subst (λ (x : NewViewStore). In x.quorums pools) (sym n) good.current;
      }

  -- In every reachable state, also after the pool has changed, each confirmed vote is that of a
  -- ViewChange with the vote's digest which the storage returns for it.
  pub Reachable-confirmed_votes :
      (select_master_primary : ℕ → String) (pools : List Quorums) (s : VcState)
      (frm digest : String)
      → Reachable select_master_primary pools s
      → In (frm, digest) (confirmed_votes s.data'.view_change_votes).0
      → (vc : ViewChange) × ((get_view_change view_change_digest
            (confirmed_votes s.data'.view_change_votes).1
            frm
            digest).0
          ≡ some vc)
        × (view_change_digest vc ≡ digest)
  Reachable-confirmed_votes select pools s frm digest h m =
      let good = Reachable-IsGood_only select pools s h in
      let (vc, found, named, _, _, _, _) =
        confirmed_votes_available view_change_digest s.data'.view_change_votes frm digest good.voted
          m in
      (vc, found, named)
