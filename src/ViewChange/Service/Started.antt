-- ===== src/ViewChange/Service/Started.antt =====
-- What `process_need_view_change` has done when it returns.
use indy_plenum.Prelude.{
  ℕ, String, List, [], ◌∷◌, Option, none, some, true, false, not, if◌then◌else◌, ◌≡◌, In,
  In-append_right, refl, inl, inr, ap, ◌∙◌, sym, subst, keys, string_eq, =?_refl,
}
use indy_plenum.Names.{node_name_of, generate_name}
use indy_plenum.Quorums.{Quorums}
use indy_plenum.Messages.{ViewChange}
use indy_plenum.Events.{Event, Suspicion}
use indy_plenum.ViewChange.Storages.{
  get_vote, add_view_change, node_add_view_change, clear, clear_new_views, get_new_view,
  from_primary,
}
use indy_plenum.ViewChange.Service.{
  VcState, VcStep, clean_on_view_change_start, build_view_change_msg, new_view,
}
use indy_plenum.ViewChange.Service.Start.{
  view_no_or_next, is_same_primary, enter_view, start_on_master, process_need_view_change,
}

-- The state and the messages of a master whose view change to `view_no` has begun.
pub record IsStarted (name : String) (view_no : ℕ) (primary_name : String) (s : VcState)
    (events : List Event) : Type 0 where
  pub in_view : s.data'.view_no ≡ view_no
  pub waits : s.data'.waiting_for_new_view ≡ true
  pub has_primary : s.data'.primary_name ≡ some primary_name
  pub no_new_view : new_view s.data' ≡ none
  pub voters : keys s.data'.view_change_votes.votes ≡ node_name_of name ∷ []
  pub own_vote :
      (vc : ViewChange) × In (Event.send_view_change vc) events
      × ((get_vote s.data'.view_change_votes (node_name_of name)).0.view_change ≡ some vc)
      × (vc.view_no ≡ view_no)
      × (vc.stable_checkpoint ≡ s.data'.stable_checkpoint)
      × (vc.checkpoints ≡ s.data'.checkpoints)

-- The storage after the first vote.
first_vote :
    (view_change_digest : ViewChange → String) (q : Quorums) (vc : ViewChange) (name : String)
    → (let votes =
          (add_view_change view_change_digest (record { votes = []; quorums = q }) vc name).1 in
        (keys votes.votes ≡ node_name_of name ∷ [])
        × ((get_vote votes (node_name_of name)).0.view_change ≡ some vc))
unfolding add_view_change get_vote node_add_view_change
first_vote view_change_digest q vc name =
    rw (=?_refl (node_name_of name)) (refl, rw (=?_refl (node_name_of name), get_vote) refl)

start_on_master-IsStarted :
    (view_change_digest : ViewChange → String) (select_master_primary : ℕ → String) (view_no : ℕ)
    (old_primary : Option String) (s : VcState)
    → (let (s', events) =
          start_on_master view_change_digest select_master_primary old_primary
            (enter_view view_no s) in
        IsStarted s.data'.name view_no
          (generate_name (select_master_primary view_no) s.data'.inst_id)
          s'
          events)
unfolding start_on_master enter_view build_view_change_msg clean_on_view_change_start
    add_view_change node_add_view_change get_vote get_new_view from_primary clear clear_new_views
start_on_master-IsStarted view_change_digest select_master_primary view_no old_primary s = record {
  in_view = refl;
  waits = refl;
  has_primary = refl;
  no_new_view = refl;
  voters =
      (first_vote view_change_digest s.data'.view_change_votes.quorums
        (build_view_change_msg (enter_view view_no s)).0 s.data'.name).0;
  own_vote =
      let vc = (build_view_change_msg (enter_view view_no s)).0 in
      let proposed : List Event =
        if is_same_primary old_primary
          (generate_name (select_master_primary view_no) s.data'.inst_id)
        then Event.vote_for_view_change Suspicion.incorrect_new_primary ∷ []
        else [] in
      (
        vc,
        In-append_right (Event.send_view_change vc) proposed _ (inr (inl refl)),
        (first_vote view_change_digest s.data'.view_change_votes.quorums vc s.data'.name).1,
        refl,
        refl,
        refl,
      );
}

enter_view-is_master :
    (view_no : ℕ) (s : VcState) → (enter_view view_no s).data'.is_master ≡ s.data'.is_master
unfolding enter_view clean_on_view_change_start
enter_view-is_master view_no s = refl

process_need_view_change-master :
    (view_change_digest : ViewChange → String) (select_master_primary : ℕ → String)
    (wanted : Option ℕ) (s : VcState)
    → s.data'.is_master ≡ true
    → process_need_view_change view_change_digest select_master_primary wanted s
      ≡ start_on_master view_change_digest select_master_primary s.data'.primary_name
          (enter_view (view_no_or_next wanted s.data') s)
unfolding process_need_view_change
process_need_view_change-master view_change_digest select_master_primary wanted s master =
    ap
      (λ b.
        if not b
        then (
          record (enter_view (view_no_or_next wanted s.data') s) {
            data' = record ((enter_view (view_no_or_next wanted s.data') s).data') {
              master_reordered_after_vc = false;
            };
          },
          [],
        )
        else start_on_master view_change_digest select_master_primary s.data'.primary_name
            (enter_view (view_no_or_next wanted s.data') s))
      (enter_view-is_master (view_no_or_next wanted s.data') s ∙ master)

-- A master that is told to change the view, to a given one or to the next, is then in that view, waits
-- for a NewView, has the selected primary, has forgotten the NewViews and the votes of earlier views, and
-- has sent and counted its own vote for that view, with its stable checkpoint and its checkpoints.
pub process_need_view_change-IsStarted :
    (view_change_digest : ViewChange → String) (select_master_primary : ℕ → String)
    (wanted : Option ℕ) (s : VcState)
    → s.data'.is_master ≡ true
    → (let view_no = view_no_or_next wanted s.data' in
        let (s', events) =
          process_need_view_change view_change_digest select_master_primary wanted s in
        IsStarted s.data'.name view_no
          (generate_name (select_master_primary view_no) s.data'.inst_id)
          s'
          events)
process_need_view_change-IsStarted view_change_digest select_master_primary wanted s master =
    let view_no = view_no_or_next wanted s.data' in
    subst
      (λ (r : VcStep).
        IsStarted s.data'.name view_no
          (generate_name (select_master_primary view_no) s.data'.inst_id) (r.0) (r.1))
      (sym
        (process_need_view_change-master view_change_digest select_master_primary wanted s master))
      (start_on_master-IsStarted view_change_digest select_master_primary view_no
        s.data'.primary_name s)
