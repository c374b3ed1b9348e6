-- ===== src/ViewChange/Service/Good.antt =====
-- What the handlers of `ViewChangeService` keep of the votes.
use indy_plenum.Prelude.{
  ℕ, ◌≤◌, ◌≡◌, true, sym, subst, In, String, List, [], ◌∷◌, Option, none, some, inl, inr,
  Bool-cases, Option-cases, length, contains,
}
use indy_plenum.Quorums.{Quorums, is_reached}
use indy_plenum.Quorums.Bounds.{is_reached_mono}
use indy_plenum.Names.{node_name_of}
use indy_plenum.Messages.{ViewChange, ViewChangeAck, NewView, checkpoint_eq}
use indy_plenum.SharedData.{SharedData}
use indy_plenum.Events.{Event}
use indy_plenum.ViewChange.Builder.{calc_checkpoint, calc_batches}
use indy_plenum.ViewChange.Storages.{
  VotesForView, get_view_change, confirmed_votes, add_view_change, add_view_change_ack,
  add_new_view,
}
use indy_plenum.ViewChange.Storages.Confirmed.{
  IsWellFormed, get_view_change-IsWellFormed, add_view_change-IsWellFormed,
  add_view_change_ack-IsWellFormed,
}
use indy_plenum.ViewChange.Storages.Kept.{confirmed_votes-IsWellFormed}
use indy_plenum.ViewChange.Storages.Agreement.{
  IsSoundBy, add_new_view-IsSoundBy, quorums-add_new_view,
}
use indy_plenum.ViewChange.Service.{
  VcState, VcStep, new_view, finish_view_change, finish_with, gather, Gathered, all, missing,
}
use indy_plenum.ViewChange.Service.Handlers.{
  with_votes, after, same_checkpoint, same_batches, check_new_view, announce, send_new_view,
  send_new_view_if_needed, finish_view_change_if_needed, vote_and_ack,
}

-- So many votes are a strong quorum of one of these pools.
abbrev pub HadQuorum : List Quorums → ℕ → Type 0
HadQuorum pools n = (q : Quorums) × In q pools × (is_reached q.strong n ≡ true)

HadQuorum-mono : (pools : List Quorums) (m n : ℕ) → m ≤ n → HadQuorum pools m → HadQuorum pools n
HadQuorum-mono pools m n le (q, held, t) = (q, held, is_reached_mono q.strong m n le t)

module _ (view_change_digest : ViewChange → String) (new_view_digest : NewView → String)
    (pools : List Quorums) where
  -- The votes are well formed, and an accepted NewView has its votes; `pools` are the quorums that the
  -- replica has had, with those of now.
  pub record IsGood (d : SharedData) : Type 0 where
    pub voted : IsWellFormed view_change_digest d.view_change_votes
    pub tallied : IsSoundBy new_view_digest (HadQuorum pools) d.new_view_votes
    pub current : In d.new_view_votes.quorums pools

  abbrev pub IsGoodIf : Option VcStep → Type 0
  IsGoodIf none = Unit
  IsGoodIf (some (s, events)) = IsGood s.data'

  pub after-IsGoodIf :
      (events : List Event) (r : Option VcStep) → IsGoodIf r → IsGoodIf (after events r)
  after-IsGoodIf events none h = tt
  after-IsGoodIf events (some (s, more)) h = h

  pub with_votes-IsGood :
      (s : VcState) (votes : VotesForView)
      → IsGood s.data'
      → IsWellFormed view_change_digest votes
      → IsGood (with_votes votes s).data'
  with_votes-IsGood s votes h w = record { voted = w; tallied = h.tallied; current = h.current }

  pub with_new_view-IsGood :
      (s : VcState) (nv : NewView) (frm : String)
      → IsGood s.data'
      → IsGood (record (s.data') {
        new_view_votes = add_new_view new_view_digest s.data'.new_view_votes nv frm;
      })
  with_new_view-IsGood s nv frm h = record {
    voted = h.voted;
    tallied =
        add_new_view-IsSoundBy new_view_digest (HadQuorum pools) (HadQuorum-mono pools)
          s.data'.new_view_votes nv frm (λ n t. (s.data'.new_view_votes.quorums, h.current, t))
          h.tallied;
    current =
        subst (λ q. In q pools)
          (sym (quorums-add_new_view new_view_digest s.data'.new_view_votes nv frm)) h.current;
  }

  finish_view_change-IsGoodIf : (s : VcState) → IsGood s.data' → IsGoodIf (finish_view_change s)
  unfolding finish_view_change finish_with
  finish_view_change-IsGoodIf s h = elim (Option-cases (new_view s.data')) [
    | inl e ↦ rw (e, finish_view_change) tt
    | inr (nv, e) ↦
        rw (e, finish_view_change)
          (record { voted = h.voted; tallied = h.tallied; current = h.current })
  ]

  check_new_view-IsGoodIf :
      (nv : NewView) (vcs : List ViewChange) (s : VcState)
      → IsGood s.data'
      → IsGoodIf (check_new_view nv vcs s)
  unfolding check_new_view
  check_new_view-IsGoodIf nv vcs s h =
      let d = s.data' in
      elim (Option-cases (calc_checkpoint d.quorums vcs)) [
        | inl e ↦ rw (e, check_new_view) h
        | inr (cp, e) ↦ elim (Bool-cases (same_checkpoint (some cp) nv)) [
          | inr t ↦ rw (e, t, check_new_view) h
          | inl t ↦ elim (Bool-cases (same_batches (calc_batches d.quorums d.log_size cp vcs) nv)) [
            | inr u ↦ rw (e, t, u, check_new_view) h
            | inl u ↦ rw (e, t, u, check_new_view) (finish_view_change-IsGoodIf s h)
          ]
        ]
      ]

  announce-IsGoodIf :
      (nv : NewView) (s : VcState)
      → IsGood s.data'
      → IsGoodIf (announce view_change_digest new_view_digest nv s)
  unfolding announce
  announce-IsGoodIf nv s h =
      let d = s.data' in
      let s' = record s {
        data' = record d {
          new_view_votes = add_new_view new_view_digest d.new_view_votes nv d.name;
        };
      } in
      after-IsGoodIf (Event.send_new_view nv ∷ []) (finish_view_change s')
        (finish_view_change-IsGoodIf s' (with_new_view-IsGood s nv d.name h))

  send_new_view-IsGoodIf :
      (confirmed : List (String × String)) (vcs : List ViewChange) (s : VcState)
      → IsGood s.data'
      → IsGoodIf (send_new_view view_change_digest new_view_digest confirmed vcs s)
  unfolding send_new_view
  send_new_view-IsGoodIf confirmed vcs s h =
      let d = s.data' in
      elim (Option-cases (calc_checkpoint d.quorums vcs)) [
        | inl e ↦ rw (e, send_new_view) h
        | inr (cp, e) ↦ elim (Option-cases (calc_batches d.quorums d.log_size cp vcs)) [
          | inl f ↦ rw (e, f, send_new_view) h
          | inr (batches, f) ↦ elim (Bool-cases (contains cp d.checkpoints)) [
            | inr t ↦ rw (e, f, t, send_new_view) h
            | inl t ↦ rw (e, f, t, send_new_view) (announce-IsGoodIf _ s h)
          ]
        ]
      ]

  gather-IsWellFormed :
      (keys : List (String × String)) (votes : VotesForView)
      → IsWellFormed view_change_digest votes
      → IsWellFormed view_change_digest (gather view_change_digest votes keys).1
  unfolding gather
  gather-IsWellFormed [] votes h = h
  gather-IsWellFormed ((name, digest) ∷ keys) votes h =
      let votes' = (get_view_change view_change_digest votes name digest).1 in
      let h' : IsWellFormed view_change_digest votes' =
        get_view_change-IsWellFormed view_change_digest votes name digest h in
      elim (Option-cases ((get_view_change view_change_digest votes name digest).0)) [
        | inl e ↦ rw (e, gather) h'
        | inr (vc, e) ↦ rw (e, gather) (gather-IsWellFormed keys votes' h')
      ]

  Gathered-IsGoodIf :
      (g : Gathered) (k : List ViewChange → Option VcStep) (m : String × String → Option VcStep)
      → ((vcs : List ViewChange) → IsGoodIf (k vcs))
      → ((key : String × String) → IsGoodIf (m key))
      → IsGoodIf (elim g [ all vcs ↦ k vcs | missing key ↦ m key ])
  Gathered-IsGoodIf (all vcs) k m h h' = h vcs
  Gathered-IsGoodIf (missing key) k m h h' = h' key

  pub send_new_view_if_needed-IsGoodIf :
      (s : VcState)
      → IsGood s.data'
      → IsGoodIf (send_new_view_if_needed view_change_digest new_view_digest s)
  unfolding send_new_view_if_needed
  send_new_view_if_needed-IsGoodIf s h =
      let (confirmed, votes) = confirmed_votes s.data'.view_change_votes in
      let w : IsWellFormed view_change_digest votes =
        confirmed_votes-IsWellFormed view_change_digest s.data'.view_change_votes h.voted in
      elim (Bool-cases (is_reached s.data'.quorums.view_change (length confirmed))) [
        | inr t ↦ rw (t, send_new_view_if_needed) (with_votes-IsGood s votes h w)
        | inl t ↦
            let (found, votes') = gather view_change_digest votes confirmed in
            let s' = with_votes votes' s in
            let h' = with_votes-IsGood s votes' h (gather-IsWellFormed confirmed votes w) in
            rw (t, send_new_view_if_needed)
              (Gathered-IsGoodIf found
                (λ vcs. send_new_view view_change_digest new_view_digest confirmed vcs s')
                (λ key. none) (λ vcs. send_new_view-IsGoodIf confirmed vcs s' h') (λ key. tt))
      ]

  pub finish_view_change_if_needed-IsGoodIf :
      (s : VcState)
      → IsGood s.data'
      → IsGoodIf (finish_view_change_if_needed view_change_digest new_view_digest s)
  unfolding finish_view_change_if_needed
  finish_view_change_if_needed-IsGoodIf s h = elim (Option-cases (new_view s.data')) [
    | inl e ↦ rw (e, finish_view_change_if_needed) h
    | inr (nv, e) ↦
        let (found, votes) = gather view_change_digest s.data'.view_change_votes nv.view_changes in
        let s' = with_votes votes s in
        let h' : IsGood s'.data' =
          with_votes-IsGood s votes h
            (gather-IsWellFormed nv.view_changes s.data'.view_change_votes h.voted) in
        rw (e, finish_view_change_if_needed)
          (Gathered-IsGoodIf found (λ vcs. check_new_view nv vcs s')
            (λ key. some (s', Event.missing_view_change key s.data'.inst_id ∷ []))
            (λ vcs. check_new_view-IsGoodIf nv vcs s' h') (λ key. h'))
  ]

  pub vote_and_ack-IsGood :
      (msg : ViewChange) (frm : String) (s : VcState)
      → IsGood s.data'
      → IsGood (vote_and_ack view_change_digest new_view_digest msg frm s).1.data'
  vote_and_ack-IsGood msg frm s h =
      let d = s.data' in
      let votes = (add_view_change view_change_digest d.view_change_votes msg frm).1 in
      let vca : ViewChangeAck = record {
        view_no = msg.view_no;
        name = node_name_of frm;
        digest = view_change_digest msg;
      } in
      with_votes-IsGood s ((add_view_change_ack votes vca (node_name_of d.name)).1) h (
        add_view_change_ack-IsWellFormed view_change_digest votes vca (node_name_of d.name)
          (add_view_change-IsWellFormed view_change_digest d.view_change_votes msg frm h.voted))
