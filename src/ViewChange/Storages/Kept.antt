-- ===== src/ViewChange/Storages/Kept.antt =====
-- Every operation of the storage of ViewChange votes keeps it well formed.
use mathlib.Core.Option
use indy_plenum.Prelude.{
  String, List, [], ◌∷◌, some, ◌≡◌, refl, sym, ◌∙◌, ap, subst, inl, inr, Bool-cases, Option-cases,
  Distinct, keys, lookup, ◌=?◌, string_eq, arith,
}
use indy_plenum.Quorums.{Quorums}
use indy_plenum.Messages.{ViewChange, ViewChangeAck}
use indy_plenum.ViewChange.Storages.{
  VotesForNode, VotesForView, acks_of, read_acks, is_confirmed, confirmed_votes, get_view_change,
  add_view_change, add_view_change_ack, clear, update_items, update_quorums,
}
use indy_plenum.ViewChange.Storages.Confirmed.{
  IsVote, IsWellFormed, acks_of-insert, after_read, keys-confirm_all, lookup-confirm_all,
  view_change-after_read, get_view_change-IsWellFormed, add_view_change-IsWellFormed,
  add_view_change_ack-IsWellFormed, clear-IsWellFormed,
}

acks_of-read :
    (d digest : String) (acks : List (String × List String))
    → Distinct (acks_of d acks)
    → Distinct (acks_of d (read_acks digest acks))
acks_of-read d digest acks h = elim (Option-cases (lookup digest acks)) [
  | inr (froms, e) ↦ rw (e, read_acks) h
  | inl e ↦
      rw (e, read_acks, acks_of-insert d digest [] acks)
        (elim (Bool-cases (digest =? d)) [ inl t ↦ rw t tt | inr t ↦ rw t h ])
]

digest-after_read : (v : VotesForNode) → (after_read v).digest ≡ v.digest
unfolding after_read is_confirmed
digest-after_read v = ground arith

acks-after_read :
    (v : VotesForNode) (d : String)
    → Distinct (acks_of d v.acks)
    → Distinct (acks_of d (after_read v).acks)
unfolding after_read is_confirmed
acks-after_read v d h = elim (Option-cases v.digest) [
  | inl e ↦ rw (e, after_read, is_confirmed) h
  | inr (digest, e) ↦ rw (e, after_read, is_confirmed) (acks_of-read d digest v.acks h)
]

keys-update_items :
    (q : Quorums) (votes : List (String × VotesForNode)) → keys (update_items q votes) ≡ keys votes
unfolding update_items
keys-update_items q [] = refl
keys-update_items q ((frm, v) ∷ votes) = ap (λ ks. frm ∷ ks) (keys-update_items q votes)

lookup-update_items :
    (frm : String) (q : Quorums) (votes : List (String × VotesForNode)) (v : VotesForNode)
    → lookup frm (update_items q votes) ≡ some v
    → (w : VotesForNode) × (lookup frm votes ≡ some w) × (record w { quorums = q } ≡ v)
unfolding update_items
lookup-update_items frm q [] v e = absurd (cc e)
lookup-update_items frm q ((name, w) ∷ votes) v e = elim (Bool-cases (name =? frm)) [
  | inl t ↦ (w, rw t refl, cc (rw t at e))
  | inr t ↦
      let (w', found, same) = lookup-update_items frm q votes v (rw t at e) in
      (w', rw t found, same)
]

module _ (view_change_digest : ViewChange → String) where
  pub update_quorums-IsWellFormed :
      (s : VotesForView) (q : Quorums)
      → IsWellFormed view_change_digest s
      → IsWellFormed view_change_digest (update_quorums s q)
  unfolding update_quorums
  update_quorums-IsWellFormed s q h = record {
    distinct = subst Distinct (sym (keys-update_items q s.votes)) h.distinct;
    votes = λ frm v e.
        let (w, found, same) = lookup-update_items frm q s.votes v e in
        let vote = h.votes frm w found in
        subst (IsVote view_change_digest) same
          (record { named = vote.named; distinct = vote.distinct });
  }

  after_read-IsVote :
      (v : VotesForNode) → IsVote view_change_digest v → IsVote view_change_digest (after_read v)
  after_read-IsVote v h = record {
    named =
        digest-after_read v
        ∙ h.named
        ∙ ap (Option.map view_change_digest) (sym (view_change-after_read v));
    distinct = λ d. acks-after_read v d (h.distinct d);
  }

  pub confirmed_votes-IsWellFormed :
      (s : VotesForView)
      → IsWellFormed view_change_digest s
      → IsWellFormed view_change_digest (confirmed_votes s).1
  unfolding confirmed_votes
  confirmed_votes-IsWellFormed s h = record {
    distinct = subst Distinct (sym (keys-confirm_all s.votes)) h.distinct;
    votes = λ frm v e.
        let e' = sym (lookup-confirm_all frm s.votes) ∙ e in
        elim (Option-cases (lookup frm s.votes)) [
          | inl f ↦ absurd (cc (rw f at e'))
          | inr (w, f) ↦
              let same : after_read w ≡ v = cc (rw f at e') in
              subst (IsVote view_change_digest) same (after_read-IsVote w (h.votes frm w f))
        ];
  }

  -- In a well-formed storage each node has one vote, its digest is that of its message, and each
  -- digest is acknowledged at most once by a node. Adding a ViewChange or an acknowledgement,
  -- `get_view_change`, `confirmed_votes` and `clear` keep the storage well formed.
  pub operations-IsWellFormed :
      (s : VotesForView) (msg : ViewChange) (ack : ViewChangeAck) (frm digest : String)
      → IsWellFormed view_change_digest s
      → IsWellFormed view_change_digest (add_view_change view_change_digest s msg frm).1
        × IsWellFormed view_change_digest (add_view_change_ack s ack frm).1
        × IsWellFormed view_change_digest (get_view_change view_change_digest s frm digest).1
        × IsWellFormed view_change_digest (confirmed_votes s).1
        × IsWellFormed view_change_digest (clear s)
  operations-IsWellFormed s msg ack frm digest h = (
    add_view_change-IsWellFormed view_change_digest s msg frm h,
    add_view_change_ack-IsWellFormed view_change_digest s ack frm h,
    get_view_change-IsWellFormed view_change_digest s frm digest h,
    confirmed_votes-IsWellFormed s h,
    clear-IsWellFormed view_change_digest s,
  )
