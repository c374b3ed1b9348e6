-- ===== src/Propagation/Tests.antt =====
-- A request that two of four nodes propagated.
use indy_plenum.Prelude.{
  ◌<◌, String, [], ◌∷◌, none, some, true, false, ◌≡◌, refl, sym, ap, ◌∙◌, Bool-cases, ◌=?◌, inl,
  inr, In, Distinct, keys, contains_of_In, string_eq,
}
use indy_plenum.Quorums.{Quorum, is_reached}
use indy_plenum.Propagation.{
  text, bytes, sender_eq, text_only, Request, ReqState, req_state, Requests,
  state_with_acceptable_quorum, acceptable, add_request, add_propagate, ordered_by_replica, free,
  force_free, mark_as_forwarded, mark_as_executed, set_finalised,
}
use indy_plenum.Propagation.Counted.{IsCounted, IsCountedIf, requests-IsCounted}
use indy_plenum.Propagation.Backed.{sent, state_with_acceptable_quorum_lem}

abbrev request : Request
request = record { digest = "d"; body = "b" }

abbrev two : Quorum
two = record { value = 2 }

abbrev state : ReqState
state = record (req_state request) {
  propagates = (text "Alpha", request) ∷ (bytes "Alpha", request) ∷ (text "Beta", request) ∷ [];
}

abbrev unnamed : ReqState
unnamed = record (req_state request) {
  propagates = (text "Alpha", request) ∷ (bytes "Alpha", request) ∷ [];
}

found : state_with_acceptable_quorum state two ≡ some request
unfolding state_with_acceptable_quorum acceptable text_only is_reached
found = refl

-- A name that is not a text does not count.
not_found : state_with_acceptable_quorum unnamed two ≡ none
unfolding state_with_acceptable_quorum acceptable text_only is_reached
not_found = refl

senders-Distinct : Distinct (keys state.propagates)
senders-Distinct = (
  (λ m. absurd (cc (contains_of_In (text "Alpha") (bytes "Alpha" ∷ text "Beta" ∷ []) m))),
  ((λ m. absurd (cc (contains_of_In (bytes "Alpha") (text "Beta" ∷ []) m))), ((λ m. m), tt)),
)

state_with_acceptable_quorum_lem_example :
    ((req : Request)
      → state_with_acceptable_quorum state two ≡ some req
      → ((sender : String) × In (text sender, req) state.propagates)
        × (is_reached two (sent req.digest (text_only state.propagates)) ≡ true))
    × (state_with_acceptable_quorum state two ≡ none
        → (d : String) → 0 < sent d (text_only state.propagates)
        → is_reached two (sent d (text_only state.propagates)) ≡ false)
state_with_acceptable_quorum_lem_example =
    state_with_acceptable_quorum_lem state two senders-Distinct

abbrev requests : Requests
requests = record { items = ("d", state) ∷ []; finalised_count = 0 }

requests-known : IsCounted requests
requests-known = record {
  distinct = (λ m. m, tt);
  named = λ key s e. elim (Bool-cases ("d" =? key)) [
    | inl t ↦
        let same : state ≡ s = cc (rw t at e) in
        sym (ap (λ (x : ReqState). x.request.digest) same) ∙ (string_eq.beq_iff "d" key).0 t
    | inr t ↦ absurd (cc (rw t at e))
  ];
  counted = refl;
}

requests-IsCounted_example :
    IsCounted (add_request request requests).1
    × IsCounted (add_propagate request (text "Gamma") requests)
    × IsCounted (ordered_by_replica "d" requests)
    × IsCounted (free "d" requests)
    × IsCounted (force_free "d" requests)
    × IsCountedIf (mark_as_forwarded request 2 requests)
    × IsCountedIf (mark_as_executed request requests)
    × IsCountedIf (set_finalised request requests)
requests-IsCounted_example = requests-IsCounted request "d" (text "Gamma") 2 requests requests-known
