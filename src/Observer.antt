-- ===== src/Observer.antt =====
-- ObserverSyncPolicyEachBatch of plenum/server/observer/observer_sync_policy_each_batch.py. A batch is
-- its two sequence numbers with the text of all else that it holds. The heap of sequence numbers is a
-- sorted list, and the batches handed to the node are the second result of a call, in their order.
-- `none` is an exception.
pub mod Sequence
pub mod Tests
use indy_plenum.Prelude.{
  ℕ, zero, suc, ◌+◌, ◌==◌, String, Bool, true, false, ltb, leb, not, ◌&&◌, if◌then◌else◌, Option,
  none, some, List, [], ◌∷◌, map, length, lookup, insert, Eq, ◌=?◌, nat_eq, string_eq, insort,
}
use indy_plenum.InstanceChanges.{delete}
use indy_plenum.Quorums.{Quorum, is_reached}

pub record Batch : Type 0 where
  pub seq_no_start : ℕ
  pub seq_no_end : ℕ
  pub content : String

pub record Policy : Type 0 where
  pub last_applied_seq_no : Option ℕ
  pub batches : List (ℕ × List (String × Batch))
  pub batch_seq_no : List ℕ

-- None and 0 are both taken for no number.
abbrev pub number_or_zero : Option ℕ → ℕ
number_or_zero none = 0
number_or_zero (some n) = n

unfoldable pub can_process : Batch → Policy → Bool
can_process b s =
    let last = number_or_zero s.last_applied_seq_no in
    if last == 0 then true else not (leb b.seq_no_start last)

abbrev pub votes_or_empty : Option (List (String × Batch)) → List (String × Batch)
votes_or_empty none = []
votes_or_empty (some votes) = votes

abbrev pub has_votes : Option (List (String × Batch)) → Bool
has_votes none = false
has_votes (some votes) = true

unfoldable pub add_batch : Batch → String → Policy → Policy
add_batch b sender s =
    let found = lookup b.seq_no_start s.batches in
    record s {
      batches = insert b.seq_no_start (insert sender b (votes_or_empty found)) s.batches;
      batch_seq_no =
          if has_votes found then s.batch_seq_no else insort ltb b.seq_no_start s.batch_seq_no;
    }

-- Whether `json.dumps` gives the same text for both.
unfoldable pub same_dump : Batch → Batch → Bool
same_dump a b =
    a.seq_no_start == b.seq_no_start && a.seq_no_end == b.seq_no_end && a.content =? b.content

pub occurrences : Batch → List Batch → ℕ
occurrences b [] = 0
occurrences b (x ∷ xs) = let n = occurrences b xs in if same_dump b x then n + 1 else n

-- The frequency that `mostCommonElement` returns.
pub most_common_freq : List Batch → List Batch → ℕ
most_common_freq all [] = 0
most_common_freq all (x ∷ xs) =
    let m = most_common_freq all xs in let n = occurrences x all in if ltb m n then n else m

unfoldable pub can_apply_quorumed : Quorum → List (String × Batch) → Bool
can_apply_quorumed quorum votes =
    let messages = map (λ (v : String × Batch). v.1) votes in
    is_reached quorum (length votes) && is_reached quorum (most_common_freq messages messages)

abbrev pub head_of : List ℕ → Option ℕ
head_of [] = none
head_of (n ∷ ns) = some n

unfoldable pub next_seq_no : Policy → Option ℕ
next_seq_no s =
    let last = number_or_zero s.last_applied_seq_no in
    if last == 0 then head_of s.batch_seq_no else some (last + 1)

unfoldable pub can_apply : Quorum → Batch → Policy → Option Bool
unfolding next_seq_no
can_apply quorum b s = elim (next_seq_no s) [
  | none ↦ none
  | some next ↦
      if b.seq_no_start == next
      then elim (lookup b.seq_no_start s.batches) [
        | none ↦ none
        | some votes ↦ some (can_apply_quorumed quorum votes)
      ]
      else some false
]

-- `heappop` takes the lowest number, whatever the number of the batch.
unfoldable pub do_apply_data : Batch → Policy → Option Policy
do_apply_data b s = elim (lookup b.seq_no_start s.batches) [
  | none ↦ none
  | some votes ↦ elim s.batch_seq_no [
    | [] ↦ none
    | _ ∷ rest ↦ some (record {
      last_applied_seq_no = some b.seq_no_end;
      batches = delete b.seq_no_start s.batches;
      batch_seq_no = rest;
    })
  ]
]

-- The batch that came first for the lowest number.
unfoldable pub next_batch : Policy → Option Batch
next_batch s = elim (head_of s.batch_seq_no) [
  | none ↦ none
  | some n ↦ elim (lookup n s.batches) [
    | none ↦ none
    | some votes ↦ elim votes [ [] ↦ none | first ∷ _ ↦ some first.1 ]
  ]
]

abbrev pub and_before : Batch → Option (Policy × List Batch) → Option (Policy × List Batch)
and_before b none = none
and_before b (some (s, applied)) = some (s, b ∷ applied)

-- Each round that goes on takes one number from the heap, and the loop ends when it is empty.
unfoldable pub process_stashed_messages : ℕ → Quorum → Policy → Option (Policy × List Batch)
unfolding next_batch can_apply do_apply_data
process_stashed_messages zero quorum s = some (s, [])
process_stashed_messages (suc fuel) quorum s = elim s.batches [
  | [] ↦ some (s, [])
  | _ ∷ _ ↦ elim s.batch_seq_no [
    | [] ↦ some (s, [])
    | _ ∷ _ ↦ elim (next_batch s) [
      | none ↦ none
      | some b ↦ elim (can_apply quorum b s) [
        | none ↦ none
        | some applies ↦ elim applies [
          | false ↦ some (s, [])
          | true ↦ elim (do_apply_data b s) [
            | none ↦ none
            | some s' ↦ and_before b (process_stashed_messages fuel quorum s')
          ]
        ]
      ]
    ]
  ]
]

unfoldable pub apply_data :
    Quorum → (msg_type : String) → Batch → String → Policy → Option (Policy × List Batch)
unfolding process_stashed_messages can_process add_batch
apply_data quorum msg_type b sender s =
    if not (msg_type =? "BATCH")
    then none
    else (if not (can_process b s)
        then some (s, [])
        else (let added = add_batch b sender s in
            elim (can_apply quorum b added) [
              | none ↦ none
              | some applies ↦ elim applies [
                | false ↦ some (added, [])
                | true ↦ elim (do_apply_data b added) [
                  | none ↦ none
                  | some s' ↦
                      and_before b (process_stashed_messages (length s'.batch_seq_no) quorum s')
                ]
              ]
            ]))
