-- ===== src/ViewChange/Storages/Confirmed.antt =====
-- The stored votes are well formed, and every confirmed vote has its ViewChange message.
use mathlib.Core.Option
use indy_plenum.Prelude.{
  String, List, [], ◌∷◌, some, true, ◌≡◌, refl, sym, ◌∙◌, ap, subst, inl, inr, ◌⊎◌, if◌then◌else◌,
  Bool-cases, Option-cases, In, Distinct, keys, lookup, insert, lookup-insert, Distinct-keys-insert,
  lookup_of_In, add, Distinct-add, string_eq, ◌=?◌, =?_refl, arith, length,
}
use indy_plenum.Quorums.{Quorums, is_reached}
use indy_plenum.Names.{node_name_of}
use indy_plenum.Messages.{ViewChange, ViewChangeAck}
use indy_plenum.ViewChange.Storages.{
  VotesForNode, VotesForView, no_votes, acks_of, is_confirmed, node_add_view_change, node_add_ack,
  get_vote, confirm_all, confirmed_votes, get_view_change, add_view_change, add_view_change_ack,
  clear,
}

pub acks_of-insert :
    (d k : String) (froms : List String) (acks : List (String × List String))
    → acks_of d (insert k froms acks) ≡ (if k =? d then froms else acks_of d acks)
acks_of-insert d k froms acks = elim (Bool-cases (k =? d)) [
  | inl t ↦ rw (lookup-insert k d froms acks, acks_of, t)
  | inr t ↦ rw (lookup-insert k d froms acks, acks_of, t)
]

module _ (view_change_digest : ViewChange → String) where
  -- The digest of a vote is that of its message, and no node acknowledged a digest twice.
  pub record IsVote (v : VotesForNode) : Type 0 where
    pub named : v.digest ≡ Option.map view_change_digest v.view_change
    pub distinct : (d : String) → Distinct (acks_of d v.acks)

  pub record IsWellFormed (s : VotesForView) : Type 0 where
    pub distinct : Distinct (keys s.votes)
    pub votes : (frm : String) (v : VotesForNode) → lookup frm s.votes ≡ some v → IsVote v

  node_add_view_change-IsVote :
      (v : VotesForNode) (msg : ViewChange)
      → IsVote v
      → IsVote (node_add_view_change view_change_digest v msg).1
  unfolding node_add_view_change
  node_add_view_change-IsVote v msg h = elim (Option-cases v.view_change) [
    | inl e ↦ record {
      named = ground (arith, h.named);
      distinct = λ d. ground (arith, h.distinct d);
    }
    | inr (old, e) ↦ record {
      named = ground (arith, h.named);
      distinct = λ d. ground (arith, h.distinct d);
    }
  ]

  node_add_ack-IsVote :
      (v : VotesForNode) (msg : ViewChangeAck) (frm : String)
      → IsVote v
      → IsVote (node_add_ack v msg frm).1
  unfolding node_add_ack
  node_add_ack-IsVote v msg frm h = record {
    named = h.named;
    distinct = λ d.
        rw (acks_of-insert d msg.digest (add frm (acks_of msg.digest v.acks)) v.acks)
          (elim (Bool-cases (msg.digest =? d)) [
            | inl t ↦ rw t (Distinct-add frm (acks_of msg.digest v.acks) (h.distinct msg.digest))
            | inr t ↦ rw t (h.distinct d)
          ]);
  }

  -- Once a vote is stored it is never replaced: a second ViewChange of the node changes nothing.
  node_add_view_change_keeps :
      (v : VotesForNode) (old msg : ViewChange)
      → v.view_change ≡ some old
      → (node_add_view_change view_change_digest v msg).1 ≡ v
  unfolding node_add_view_change
  node_add_view_change_keeps v old msg h = ground arith

  -- Storing a well-formed vote under any name.
  put_vote :
      (s : VotesForView) (name : String) (v : VotesForNode)
      → IsWellFormed s
      → IsVote v
      → IsWellFormed (record s { votes = insert name v s.votes })
  put_vote s name v h hv = record {
    distinct = Distinct-keys-insert name v s.votes h.distinct;
    votes = λ frm w e. elim (Bool-cases (name =? frm)) [
      | inl t ↦
          let same : v ≡ w = cc (rw (lookup-insert name frm v s.votes, t) at e) in
          subst IsVote same hv
      | inr t ↦ h.votes frm w (rw (lookup-insert name frm v s.votes, t) at e)
    ];
  }

  fresh : (q : Quorums) → IsVote (no_votes q)
  fresh q = record { named = refl; distinct = λ d. tt }

  get_vote-IsWellFormed :
      (s : VotesForView) (frm : String)
      → IsWellFormed s
      → IsWellFormed (get_vote s frm).1 × IsVote (get_vote s frm).0
  unfolding get_vote
  get_vote-IsWellFormed s frm h = elim (Option-cases (lookup frm s.votes)) [
    | inl e ↦
        rw (e, get_vote) (put_vote s frm (no_votes s.quorums) h (fresh s.quorums), fresh s.quorums)
    | inr (v, e) ↦ rw (e, get_vote) (h, h.votes frm v e)
  ]

  pub get_view_change-IsWellFormed :
      (s : VotesForView) (frm digest : String)
      → IsWellFormed s
      → IsWellFormed (get_view_change view_change_digest s frm digest).1
  unfolding get_view_change
  get_view_change-IsWellFormed s frm digest h = (get_vote-IsWellFormed s frm h).0

  pub add_view_change-IsWellFormed :
      (s : VotesForView) (msg : ViewChange) (frm : String)
      → IsWellFormed s
      → IsWellFormed (add_view_change view_change_digest s msg frm).1
  unfolding add_view_change
  add_view_change-IsWellFormed s msg frm h =
      let (h', v) = get_vote-IsWellFormed s (node_name_of frm) h in
      put_vote (get_vote s (node_name_of frm)).1 (node_name_of frm)
        (node_add_view_change view_change_digest (get_vote s (node_name_of frm)).0 msg).1 h'
        (node_add_view_change-IsVote (get_vote s (node_name_of frm)).0 msg v)

  pub add_view_change_ack-IsWellFormed :
      (s : VotesForView) (msg : ViewChangeAck) (frm : String)
      → IsWellFormed s
      → IsWellFormed (add_view_change_ack s msg frm).1
  unfolding add_view_change_ack node_add_ack
  add_view_change_ack-IsWellFormed s msg frm h =
      let (h', v) = get_vote-IsWellFormed s msg.name h in
      put_vote (get_vote s msg.name).1 msg.name
        (node_add_ack (get_vote s msg.name).0 msg (node_name_of frm)).1 h'
        (node_add_ack-IsVote (get_vote s msg.name).0 msg (node_name_of frm) v)

  pub clear-IsWellFormed : (s : VotesForView) → IsWellFormed (clear s)
  unfolding clear
  clear-IsWellFormed s = record { distinct = tt; votes = λ frm v e. absurd (cc e) }

unfoldable pub after_read : VotesForNode → VotesForNode
unfolding is_confirmed
after_read v = (is_confirmed v).1

pub keys-confirm_all : (d : List (String × VotesForNode)) → keys (confirm_all d).1 ≡ keys d
unfolding confirm_all
keys-confirm_all [] = refl
keys-confirm_all ((frm, v) ∷ d) = ap (λ ks. frm ∷ ks) (keys-confirm_all d)

pub lookup-confirm_all :
    (frm : String) (d : List (String × VotesForNode))
    → lookup frm (confirm_all d).1 ≡ Option.map after_read (lookup frm d)
unfolding confirm_all after_read
lookup-confirm_all frm [] = refl
lookup-confirm_all frm ((j, v) ∷ d) = elim (Bool-cases (j =? frm)) [
  | inl t ↦ rw t
  | inr t ↦ rw t (lookup-confirm_all frm d)
]

-- What a confirmed vote of a node rests on.
pub record IsBacked (v : VotesForNode) (digest : String) : Type 0 where
  pub named : v.digest ≡ some digest
  pub enough : is_reached v.quorums.view_change_ack (length (acks_of digest v.acks)) ≡ true

is_confirmed-some :
    (v : VotesForNode) (digest : String)
    → v.digest ≡ some digest
    → (is_confirmed v).0 ≡ is_reached v.quorums.view_change_ack (length (acks_of digest v.acks))
unfolding is_confirmed
is_confirmed-some v digest e = rw (e, is_confirmed)

pub view_change-after_read : (v : VotesForNode) → (after_read v).view_change ≡ v.view_change
unfolding after_read
view_change-after_read v = ground arith

confirm_step :
    (frm : String) (v : VotesForNode) (d : List (String × VotesForNode)) (x : String × String)
    → In x (confirm_all ((frm, v) ∷ d)).0
    → ((x.0 ≡ frm) × IsBacked v x.1) ⊎ In x (confirm_all d).0
unfolding confirm_all
confirm_step frm v d x m = elim (Option-cases v.digest) [
  | inl e ↦ inr (rw (e, confirm_all) at m)
  | inr (digest, e) ↦
      elim (Bool-cases (is_reached v.quorums.view_change_ack (length (acks_of digest v.acks)))) [
        | inl t ↦ elim (rw (e, confirm_all, is_confirmed-some v digest e, t) at m) [
          | inl same ↦
              let backed : IsBacked v digest = record { named = e; enough = t } in
              inl (
                ap (λ (y : String × String). y.0) same,
                subst (λ (y : String × String). IsBacked v y.1) (sym same) backed,
              )
          | inr m' ↦ inr m'
        ]
        | inr t ↦ inr (rw (e, confirm_all, is_confirmed-some v digest e, t) at m)
      ]
]

confirmed-IsBacked :
    (frm digest : String) (d : List (String × VotesForNode))
    → In (frm, digest) (confirm_all d).0
    → (v : VotesForNode) × In (frm, v) d × IsBacked v digest
confirmed-IsBacked frm digest [] m = absurd (unfold confirm_all in m)
confirmed-IsBacked frm digest ((j, w) ∷ d) m = elim (confirm_step j w d (frm, digest) m) [
  | inl (same, backed) ↦ (w, inl (ap (λ (k : String). (k, w)) same), backed)
  | inr m' ↦ let (v, mv, backed) = confirmed-IsBacked frm digest d m' in (v, inr mv, backed)
]

-- In a well-formed storage every vote that `confirmed_votes` returns is backed by distinct
-- acknowledgements that reach the quorum, and the storage then returns a ViewChange with that
-- digest for it.
pub confirmed_votes_available :
    (view_change_digest : ViewChange → String) (s : VotesForView) (frm digest : String)
    → IsWellFormed view_change_digest s
    → In (frm, digest) (confirmed_votes s).0
    → (vc : ViewChange) × ((get_view_change view_change_digest (confirmed_votes s).1 frm digest).0
        ≡ some vc)
      × (view_change_digest vc ≡ digest)
      × (v : VotesForNode) × (lookup frm s.votes ≡ some v)
      × Distinct (acks_of digest v.acks)
      × IsBacked v digest
unfolding confirmed_votes get_view_change get_vote
confirmed_votes_available view_change_digest s frm digest h m =
    let (v, mv, backed) = confirmed-IsBacked frm digest s.votes m in
    let found = lookup_of_In frm v s.votes h.distinct mv in
    let after : lookup frm (confirm_all s.votes).1 ≡ some (after_read v) =
      lookup-confirm_all frm s.votes ∙ ap (Option.map after_read) found in
    let good = h.votes frm v found in
    elim (Option-cases v.view_change) [
      | inl e ↦ absurd (cc (e, good.named, backed.named))
      | inr (vc, e) ↦
          let digests : view_change_digest vc ≡ digest = cc (e, good.named, backed.named) in
          let kept : (after_read v).view_change ≡ some vc = view_change-after_read v ∙ e in
          (
            vc,
            rw (after, get_vote, kept) (rw (digests, =?_refl digest)),
            digests,
            v,
            found,
            good.distinct digest,
            backed,
          )
    ]
