-- ===== src/ViewChange/Service/Acceptance.antt =====
-- When `ViewChangeService` finishes a view change.
use mathlib.Core.Path.{ap₂}
use indy_plenum.Prelude.{
  ℕ, String, List, [], ◌∷◌, Option, none, some, true, false, ◌≡◌, ◌⊎◌, string_eq, ◌↔◌, contains,
  length, map, list_beq→eq, option_beq_iff, arith, Bool-cases, Option-cases, refl, ap, subst, sym,
  ◌∙◌, inl, inr, In,
}
use indy_plenum.Quorums.{is_reached}
use indy_plenum.Messages.{BatchId, ViewChange, NewView, batch_eq, checkpoint_eq}
use indy_plenum.SharedData.{SharedData, is_participating}
use indy_plenum.Verdict.{Code}
use indy_plenum.Events.{Event}
use indy_plenum.ViewChange.Builder.{calc_checkpoint, calc_batches}
use indy_plenum.ViewChange.Storages.{
  VotesForView, get_vote, get_view_change, confirmed_votes, add_new_view,
}
use indy_plenum.ViewChange.Service.{
  VcState, VcStep, validate, new_view, finish_view_change, Gathered, all, missing, gather, also,
}
use indy_plenum.ViewChange.Service.Handlers.{
  with_votes, same_checkpoint, same_batches, check_new_view, send_new_view, announce, by_name,
  send_new_view_if_needed, finish_view_change_if_needed, after,
}

-- A message is processed exactly if the replica is the master's, takes part in the pool, and waits
-- for the NewView of the message's view.
pub validate_iff :
    (d : SharedData) (view_no : ℕ)
    → ((validate d view_no).0 ≡ Code.process) ↔ (
        (d.is_master ≡ true)
        × (view_no ≡ d.view_no)
        × (d.waiting_for_new_view ≡ true)
        × (is_participating d ≡ true))
unfolding validate
validate_iff d view_no = (λ h. ground arith, λ h. ground arith)

same_batches→eq :
    (batches : Option (List BatchId)) (nv : NewView)
    → same_batches batches nv ≡ true
    → batches ≡ some nv.batches
same_batches→eq none nv h = cc
same_batches→eq (some batches) nv h = ap some (list_beq→eq batches nv.batches h)

-- A step that leaves the replica waiting does not end its view change.
still_waiting :
    {A : Type 0} (s s' : VcState) (events events' : List Event)
    → Path (Option VcStep) (some (s, events)) (some (s', events'))
    → s.data'.waiting_for_new_view ≡ true
    → s'.data'.waiting_for_new_view ≡ false
    → A
still_waiting s s' events events' h waits done =
    let same = ap (λ r. elim r [ some step ↦ step.0.data'.waiting_for_new_view | none ↦ true ]) h in
    absurd (cc (sym waits ∙ same ∙ done))

-- The NewView that the votes `vcs` justify.
pub record IsJustified (s : VcState) (nv : NewView) (vcs : List ViewChange) : Type 0 where
  pub checkpoint_agrees : calc_checkpoint s.data'.quorums vcs ≡ some nv.checkpoint
  pub batches_agree :
      calc_batches s.data'.quorums s.data'.log_size nv.checkpoint vcs ≡ some nv.batches

check_new_view-IsJustified :
    (nv : NewView) (vcs : List ViewChange) (s s' : VcState) (events : List Event)
    → check_new_view nv vcs s ≡ some (s', events)
    → s.data'.waiting_for_new_view ≡ true
    → s'.data'.waiting_for_new_view ≡ false
    → IsJustified s nv vcs
unfolding check_new_view
check_new_view-IsJustified nv vcs s s' events h waits done =
    elim (Option-cases (calc_checkpoint s.data'.quorums vcs)) [
      | inl e ↦ absurd (cc (rw (e, check_new_view) at h))
      | inr (cp, e) ↦
          let h' = rw (e, check_new_view) at h in
          elim (Bool-cases (same_checkpoint (some cp) nv)) [
            | inr t ↦ absurd (cc (rw t at h'))
            | inl t ↦
                elim (Bool-cases
                  (same_batches (calc_batches s.data'.quorums s.data'.log_size cp vcs) nv)) [
                    | inr u ↦ absurd (cc (rw (t, u) at h'))
                    | inl u ↦
                        let same = (option_beq_iff (some cp) (some nv.checkpoint)).0 t in
                        let cp_is = ap (λ c. elim c [ some c' ↦ c' | none ↦ cp ]) same in
                        record {
                          checkpoint_agrees = e ∙ same;
                          batches_agree = rw (sym cp_is) (
                              same_batches→eq (calc_batches s.data'.quorums s.data'.log_size cp vcs)
                                nv u);
                        }
                  ]
          ]
    ]

module _ (view_change_digest : ViewChange → String) where
  digest_of_get :
      (votes : VotesForView) (name digest : String) (vc : ViewChange)
      → (get_view_change view_change_digest votes name digest).0 ≡ some vc
      → view_change_digest vc ≡ digest
  unfolding get_view_change
  digest_of_get votes name digest vc h = elim (Option-cases ((get_vote votes name).0.view_change)) [
    | inl e ↦ absurd (cc (rw e at h))
    | inr (msg, e) ↦
        let h' = rw e at h in ground (arith, (string_eq.beq_iff (view_change_digest msg) digest).0)
  ]

  also-all :
      (vc : ViewChange) (more : Gathered) (vcs : List ViewChange)
      → also vc more ≡ all vcs
      → (rest : List ViewChange) × (more ≡ all rest) × (vcs ≡ vc ∷ rest)
  also-all vc (all rest) vcs h = (rest, refl, cc)
  also-all vc (missing key) vcs h = cc

  gather_digests :
      (keys : List (String × String)) (votes : VotesForView) (vcs : List ViewChange)
      → (gather view_change_digest votes keys).0 ≡ all vcs
      → map view_change_digest vcs ≡ map (λ key. key.1) keys
  unfolding gather
  gather_digests [] votes vcs h = cc
  gather_digests ((name, digest) ∷ keys) votes vcs h =
      elim (Option-cases ((get_view_change view_change_digest votes name digest).0)) [
        | inl e ↦ absurd (cc (rw (e, gather) at h))
        | inr (vc, e) ↦
            let votes' = (get_view_change view_change_digest votes name digest).1 in
            let (rest, more, is) =
              also-all vc ((gather view_change_digest votes' keys).0) vcs (rw (e, gather) at h) in
            rw is (
              ap₂ ◌∷◌ (digest_of_get votes name digest vc e) (gather_digests keys votes' rest more))
      ]

  Gathered-cases :
      (g : Gathered)
      → ((key : String × String) × (g ≡ missing key)) ⊎ ((vcs : List ViewChange) × (g ≡ all vcs))
  Gathered-cases (all vcs) = inr (vcs, refl)
  Gathered-cases (missing key) = inl (key, refl)

module _ (view_change_digest : ViewChange → String) (new_view_digest : NewView → String) where
  -- A replica that ends its view change in `_finish_view_change_if_needed` has a NewView from
  -- `new_view`, for each vote that it names a ViewChange with the vote's digest, and has computed
  -- from these the checkpoint and the batches of the NewView itself.
  pub accepted_new_view-IsJustified :
      (s s' : VcState) (events : List Event)
      → finish_view_change_if_needed view_change_digest new_view_digest s ≡ some (s', events)
      → s.data'.waiting_for_new_view ≡ true
      → s'.data'.waiting_for_new_view ≡ false
      → (nv : NewView) × (vcs : List ViewChange) × (new_view s.data' ≡ some nv)
        × (map view_change_digest vcs ≡ map (λ key. key.1) nv.view_changes)
        × IsJustified s nv vcs
  unfolding finish_view_change_if_needed
  accepted_new_view-IsJustified s s' events h waits done = elim (Option-cases (new_view s.data')) [
    | inl e ↦ absurd (cc (rw (e, finish_view_change_if_needed) at h))
    | inr (nv, e) ↦
        let votes = s.data'.view_change_votes in
        let (found, votes') = gather view_change_digest votes nv.view_changes in
        elim (Gathered-cases view_change_digest found) [
          | inl (key, m) ↦
              still_waiting (with_votes votes' s) s'
                (Event.missing_view_change key s.data'.inst_id ∷ []) events
                (rw (e, m, finish_view_change_if_needed) at h) waits done
          | inr (vcs, m) ↦
              let sure =
                check_new_view-IsJustified nv vcs (with_votes votes' s) s' events
                  (rw (e, m, finish_view_change_if_needed) at h) waits done in
              (
                nv,
                vcs,
                e,
                gather_digests view_change_digest nv.view_changes votes vcs m,
                record {
                  checkpoint_agrees = sure.checkpoint_agrees;
                  batches_agree = sure.batches_agree;
                },
              )
        ]
  ]

  after_sends :
      (e : Event) (r : Option VcStep) (s' : VcState) (events : List Event)
      → after (e ∷ []) r ≡ some (s', events)
      → In e events
  after_sends e none s' events h = cc
  after_sends e (some (s, more)) s' events h =
      subst (In e) (ap (λ r. elim r [ some step ↦ step.1 | none ↦ [] ]) h) (inl refl)

  announce_sends :
      (nv : NewView) (s s' : VcState) (events : List Event)
      → announce view_change_digest new_view_digest nv s ≡ some (s', events)
      → In (Event.send_new_view nv) events
  unfolding announce
  announce_sends nv s s' events h =
      let d = s.data' in
      let votes = add_new_view new_view_digest d.new_view_votes nv d.name in
      after_sends (Event.send_new_view nv)
        (finish_view_change (record s { data' = record d { new_view_votes = votes } })) s' events h

  sent_by :
      (confirmed : List (String × String)) (vcs : List ViewChange) (s s' : VcState)
      (events : List Event)
      → send_new_view view_change_digest new_view_digest confirmed vcs s ≡ some (s', events)
      → s.data'.waiting_for_new_view ≡ true
      → s'.data'.waiting_for_new_view ≡ false
      → (nv : NewView) × In (Event.send_new_view nv) events
        × (nv.view_changes ≡ by_name confirmed)
        × (contains nv.checkpoint s.data'.checkpoints ≡ true)
        × IsJustified s nv vcs
  unfolding send_new_view
  sent_by confirmed vcs s s' events h waits done =
      let d = s.data' in
      elim (Option-cases (calc_checkpoint d.quorums vcs)) [
        | inl e ↦ still_waiting s s' [] events (rw (e, send_new_view) at h) waits done
        | inr (cp, e) ↦ elim (Option-cases (calc_batches d.quorums d.log_size cp vcs)) [
          | inl f ↦ still_waiting s s' [] events (rw (e, f, send_new_view) at h) waits done
          | inr (batches, f) ↦ elim (Bool-cases (contains cp d.checkpoints)) [
            | inr t ↦ still_waiting s s' [] events (rw (e, f, t, send_new_view) at h) waits done
            | inl t ↦
                let nv : NewView = record {
                  view_no = d.view_no;
                  view_changes = by_name confirmed;
                  checkpoint = cp;
                  batches = batches;
                  primary = none;
                } in
                (
                  nv,
                  announce_sends nv s s' events (rw (e, f, t, send_new_view) at h),
                  refl,
                  t,
                  record { checkpoint_agrees = e; batches_agree = f },
                )
          ]
        ]
      ]

  -- A primary that ends its view change by its own NewView has confirmed votes of a view change quorum
  -- (n - f), holds a ViewChange with the digest of each, and sends a NewView that names these votes, with
  -- the checkpoint and the batches that it computed from them, of which it has the checkpoint.
  pub sent_new_view-IsJustified :
      (s s' : VcState) (events : List Event)
      → send_new_view_if_needed view_change_digest new_view_digest s ≡ some (s', events)
      → s.data'.waiting_for_new_view ≡ true
      → s'.data'.waiting_for_new_view ≡ false
      → (nv : NewView) × (vcs : List ViewChange) × In (Event.send_new_view nv) events
        × (let confirmed = (confirmed_votes s.data'.view_change_votes).0 in
            (is_reached s.data'.quorums.view_change (length confirmed) ≡ true)
            × (nv.view_changes ≡ by_name confirmed)
            × (map view_change_digest vcs ≡ map (λ key. key.1) confirmed))
        × (contains nv.checkpoint s.data'.checkpoints ≡ true)
        × IsJustified s nv vcs
  unfolding send_new_view_if_needed
  sent_new_view-IsJustified s s' events h waits done =
      let (confirmed, votes) = confirmed_votes s.data'.view_change_votes in
      elim (Bool-cases (is_reached s.data'.quorums.view_change (length confirmed))) [
        | inr t ↦
            still_waiting (with_votes votes s) s' [] events (rw (t, send_new_view_if_needed) at h)
              waits done
        | inl t ↦
            let (found, votes') = gather view_change_digest votes confirmed in
            elim (Gathered-cases view_change_digest found) [
              | inl (key, m) ↦ absurd (cc (rw (t, m, send_new_view_if_needed) at h))
              | inr (vcs, m) ↦
                  let (nv, sent, named, held, sure) =
                    sent_by confirmed vcs (with_votes votes' s) s' events
                      (rw (t, m, send_new_view_if_needed) at h) waits done in
                  (
                    nv,
                    vcs,
                    sent,
                    (t, named, gather_digests view_change_digest confirmed votes vcs m),
                    held,
                    record {
                      checkpoint_agrees = sure.checkpoint_agrees;
                      batches_agree = sure.batches_agree;
                    },
                  )
            ]
      ]
