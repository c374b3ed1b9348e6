-- ===== src/Propagation.antt =====
-- The propagation of requests: `ReqState`, `Requests` and `Propagator` of plenum/server/propagator.py.
-- The key of a request is its digest. The times of a state are left out. `forwardedTo` and
-- `unordered_by_replicas_num` are only set, decreased and tested for `<= 0`, for which numbers that
-- stop at 0 serve. `none` is a KeyError.
pub mod Dict
pub mod Counted
pub mod Backed
mod Tests
use indy_plenum.Prelude.{
  ℕ, zero, suc, ◌+◌, ◌-◌, String, List, [], ◌∷◌, ◌++◌, Option, none, some, Bool, true, false, ◌&&◌,
  not, if◌then◌else◌, ◌==◌, ◌=?◌, Eq, string_eq, ◌≡◌, ◌↔◌, ap, length, select, lookup, insert, add,
}
use indy_plenum.Quorums.{Quorum, is_reached}

-- `key` and `digest` are both this digest; `body` is the rest.
pub record Request : Type 0 where
  pub digest : String
  pub body : String

-- The name of the node that a propagate came from, as text or as bytes.
pub data Sender : Type 0 where
  text : String → Sender
  bytes : String → Sender

abbrev pub sender_beq : Sender → Sender → Bool
sender_beq (text a) (text b) = a =? b
sender_beq (text a) (bytes b) = false
sender_beq (bytes a) (text b) = false
sender_beq (bytes a) (bytes b) = a =? b

pub sender_beq_iff : (a b : Sender) → (sender_beq a b ≡ true) ↔ (a ≡ b)
sender_beq_iff (text a) (text b) =
    (λ h. ap text ((string_eq.beq_iff a b).0 h), λ h. (string_eq.beq_iff a b).1 (cc h))
sender_beq_iff (text a) (bytes b) = (λ h. cc, λ h. cc)
sender_beq_iff (bytes a) (text b) = (λ h. cc, λ h. cc)
sender_beq_iff (bytes a) (bytes b) =
    (λ h. ap bytes ((string_eq.beq_iff a b).0 h), λ h. (string_eq.beq_iff a b).1 (cc h))

instance abbrev pub sender_eq : Eq Sender
sender_eq = record { beq = sender_beq; beq_iff = sender_beq_iff }

pub record ReqState : Type 0 where
  pub request : Request
  pub forwarded : Bool
  pub forwarded_to : ℕ
  pub propagates : List (Sender × Request)
  pub finalised : Option Request
  pub executed : Bool
  pub unordered_by_replicas_num : ℕ

abbrev pub req_state : Request → ReqState
req_state request = record {
  request = request;
  forwarded = false;
  forwarded_to = 0;
  propagates = [];
  finalised = none;
  executed = false;
  unordered_by_replicas_num = 0;
}

abbrev pub is_some : {A : Type 0} → Option A → Bool
is_some none = false
is_some (some a) = true

-- `digests[digest]` of the `defaultdict`
abbrev pub senders_of : String → List (String × List String) → List String
senders_of digest digests = elim (lookup digest digests) [ some froms ↦ froms | none ↦ [] ]

-- The loop of `ReqState.req_with_acceptable_quorum`.
pub acceptable : Quorum → List (String × List String) → List (String × Request) → Option Request
unfolding is_reached
acceptable q digests [] = none
acceptable q digests ((sender, req) ∷ propagates) =
    let froms = add sender (senders_of req.digest digests) in
    let rest = acceptable q (insert req.digest froms digests) propagates in
    if is_reached q (length froms) then some req else rest

-- The `filter` of that loop: a propagate whose sender's name is not a text does not count.
pub text_only : List (Sender × Request) → List (String × Request)
text_only [] = []
text_only ((text sender, req) ∷ propagates) = (sender, req) ∷ text_only propagates
text_only ((bytes sender, req) ∷ propagates) = text_only propagates

unfoldable pub state_with_acceptable_quorum : ReqState → Quorum → Option Request
unfolding text_only acceptable
state_with_acceptable_quorum state q = acceptable q [] (text_only state.propagates)

pub record Requests : Type 0 where
  pub items : List (String × ReqState)
  pub finalised_count : ℕ

-- `pop(key, None)`
abbrev pub remove : {V : Type 0} → String → List (String × V) → List (String × V)
remove key = select (λ (k, v). not (k =? key))

abbrev pub put : String → ReqState → Requests → Requests
put key state r = record r { items = insert key state r.items }

unfoldable pub add_request : Request → Requests → ReqState × Requests
add_request req r = elim (lookup req.digest r.items) [
  | some state ↦ (state, r)
  | none ↦ (req_state req, put req.digest (req_state req) r)
]

unfoldable pub forwarded : Request → Requests → Option Bool
forwarded req r = elim (lookup req.digest r.items) [
  | none ↦ none
  | some state ↦ some state.forwarded
]

unfoldable pub ordered_by_replica : String → Requests → Requests
ordered_by_replica key r = elim (lookup key r.items) [
  | none ↦ r
  | some state ↦
      put key (record state { unordered_by_replicas_num = state.unordered_by_replicas_num - 1 }) r
]

unfoldable pub mark_as_forwarded : Request → ℕ → Requests → Option Requests
mark_as_forwarded req to r = elim (lookup req.digest r.items) [
  | none ↦ none
  | some state ↦ some (
      put req.digest
        (record state { forwarded = true; forwarded_to = to; unordered_by_replicas_num = to }) r)
]

unfoldable pub add_propagate : Request → Sender → Requests → Requests
unfolding add_request
add_propagate req sender r =
    let (state, r') = add_request req r in
    put req.digest (record state { propagates = insert sender req state.propagates }) r'

unfoldable pub votes : Request → Requests → ℕ
votes req r = elim (lookup req.digest r.items) [ none ↦ 0 | some state ↦ length state.propagates ]

unfoldable pub req_with_acceptable_quorum : Request → Quorum → Requests → Option (Option Request)
unfolding state_with_acceptable_quorum
req_with_acceptable_quorum req q r = elim (lookup req.digest r.items) [
  | none ↦ none
  | some state ↦ some (state_with_acceptable_quorum state q)
]

unfoldable pub set_finalised : Request → Requests → Option Requests
set_finalised req r = elim (lookup req.digest r.items) [
  | none ↦ none
  | some state ↦ some (record {
    items = insert req.digest (record state { finalised = some req }) r.items;
    finalised_count = if is_some state.finalised then r.finalised_count else r.finalised_count + 1;
  })
]

-- `finalised_count -= 1`, if the state is finalised, and `pop`.
unfoldable pub drop_state : String → ReqState → Requests → Requests
drop_state key state r = record {
  items = remove key r.items;
  finalised_count = if is_some state.finalised then r.finalised_count - 1 else r.finalised_count;
}

-- `_clean`, of a state that the dictionary holds under the key.
unfoldable pub clean : String → ReqState → Requests → Requests
unfolding drop_state
clean key state r =
    if state.executed && state.forwarded_to == 0
    then drop_state state.request.digest state (put key state r)
    else put key state r

unfoldable pub mark_as_executed : Request → Requests → Option Requests
unfolding clean
mark_as_executed req r = elim (lookup req.digest r.items) [
  | none ↦ none
  | some state ↦ some (clean req.digest (record state { executed = true }) r)
]

unfoldable pub free : String → Requests → Requests
unfolding clean
free key r = elim (lookup key r.items) [
  | none ↦ r
  | some state ↦ clean key (record state { forwarded_to = state.forwarded_to - 1 }) r
]

unfoldable pub force_free : String → Requests → Requests
unfolding drop_state
force_free key r = elim (lookup key r.items) [ none ↦ r | some state ↦ drop_state key state r ]

unfoldable pub has_propagated : Request → Sender → Requests → Bool
has_propagated req sender r = elim (lookup req.digest r.items) [
  | none ↦ false
  | some state ↦ is_some (lookup sender state.propagates)
]

unfoldable pub is_finalised : String → Requests → Bool
is_finalised key r = elim (lookup key r.items) [
  | none ↦ false
  | some state ↦ is_some state.finalised
]

pub data NotForwarded : Type 0 where
  already_forwarded not_finalised : NotForwarded

-- `Propagator.canForward`: the requests after it, and the reason why not.
unfoldable pub can_forward : Quorum → Request → Requests → Option (Option NotForwarded × Requests)
unfolding forwarded votes req_with_acceptable_quorum set_finalised is_reached
can_forward q request r = elim (forwarded request r) [
  | none ↦ none
  | some true ↦ some (some already_forwarded, r)
  | some false ↦
      if not (is_reached q (votes request r))
      then some (some not_finalised, r)
      else elim (req_with_acceptable_quorum request q r) [
        | none ↦ none
        | some none ↦ some (some not_finalised, r)
        | some (some req) ↦ elim (set_finalised req r) [ none ↦ none | some r' ↦ some (none, r') ]
      ]
]
