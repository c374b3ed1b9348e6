-- ===== src/Trigger/Tests.antt =====
-- A pool of four nodes: two have voted for the view 1, and the third vote arrives.
use indy_plenum.Prelude.{
  ℕ, ◌+◌, ◌≡◌, ◌⊎◌, refl, String, Bool, true, false, none, some, List, [], ◌∷◌, In, arith, inl, inr,
  Distinct, ◌==◌, contains_of_In, nat_eq, string_eq, Bool-cases,
}
use indy_plenum.Names.{node_name_of}
use indy_plenum.Startable.{Mode}
use indy_plenum.Quorums.{quorums, get_max_failures}
use indy_plenum.Events.{Suspicion, send_instance_change, node_need_view_change}
use indy_plenum.SharedData.{SharedData, shared_data, is_participating}
use indy_plenum.InstanceChanges.{
  Vote, Cache, Provider, InstanceChange, add_vote, has_view, has_inst_chng_from, has_quorum,
  remove_view,
}
use indy_plenum.InstanceChanges.Stored.{IsStored, operations-IsStored}
use indy_plenum.Trigger.{
  Trigger, VoteForViewChange, process_vote_for_view_change, process_instance_change,
  process_new_view_accepted, on_verified_instance_change, answer,
}
use indy_plenum.Trigger.Quorum.{IsBacked, view_change_needs_quorum}
use indy_plenum.Trigger.Start.{quorum_starts_view_change}

abbrev clock : ℕ → ℕ
clock n = 10 + n

abbrev vote : Vote
vote = record { timestamp = 9; reason = Suspicion.primary_degraded }

abbrev cache : Cache
cache = (1, ("Beta", vote) ∷ ("Gamma", vote) ∷ []) ∷ []

abbrev provider : Provider
provider = record {
  outdated_ic_interval = 0;
  cache = cache;
  node_status_db = some cache;
  readings = 0;
}

abbrev nodes : List String
nodes = "Alpha" ∷ "Beta" ∷ "Gamma" ∷ "Delta" ∷ []

abbrev shared : SharedData
shared = record (shared_data "Alpha:0" nodes 0 true 300) { node_mode = Mode.participating }

abbrev trigger : Trigger
trigger = record { data' = shared; instance_changes = provider }

abbrev msg : InstanceChange
msg = record { view_no = 1; reason = Suspicion.primary_degraded }

unlike : Distinct {A = String} ("Beta" ∷ "Gamma" ∷ [])
unlike = ((λ m. absurd (cc (contains_of_In "Beta" ("Gamma" ∷ []) m))), ((λ m. m), tt))

provider-IsStored : IsStored provider
provider-IsStored = record {
  tallies = λ view_no. elim (Bool-cases (1 == view_no)) [
    | inl t ↦ rw t (unlike, λ e. cc e)
    | inr t ↦ rw t tt
  ];
  mirrored = λ view_no. refl;
}

operations-IsStored_example :
    ((m : InstanceChange) (voter : String) → IsStored (add_vote clock m voter provider))
    × ((view_no : ℕ) → IsStored (has_view clock view_no provider).1)
    × ((view_no : ℕ) (voter : String)
        → IsStored (has_inst_chng_from clock view_no voter provider).1)
    × ((view_no quorum : ℕ) → IsStored (has_quorum clock view_no quorum provider).1)
    × ((view_to_remove : ℕ) → IsStored (remove_view view_to_remove provider))
operations-IsStored_example = operations-IsStored clock provider provider-IsStored

delta_sends :
    (process_instance_change clock msg "Delta" nodes false trigger).1 ≡ node_need_view_change 1 ∷ []
unfolding process_instance_change on_verified_instance_change has_inst_chng_from shared_data quorums
    get_max_failures answer node_name_of is_participating
delta_sends = refl

quorum_starts_view_change_example :
    In (node_need_view_change 1) (process_instance_change clock msg "Delta" nodes false trigger).1
unfolding shared_data quorums get_max_failures is_participating node_name_of
quorum_starts_view_change_example =
    quorum_starts_view_change clock msg "Delta" nodes false trigger refl refl refl (omega arith)
      refl (omega arith)

view_change_needs_quorum_example :
    ((m : VoteForViewChange)
      → In (node_need_view_change 1) (process_vote_for_view_change clock m trigger).0
      → IsBacked clock trigger.data' 0 1
          (process_vote_for_view_change clock m trigger).1.instance_changes)
    × ((m : InstanceChange) (frm : String) (connecteds : List String) (degraded : Bool)
        → In
            (node_need_view_change 1)
            (process_instance_change clock m frm connecteds degraded trigger).1
        → IsBacked clock trigger.data' 0 1
            (on_verified_instance_change clock m (node_name_of frm) trigger).1.instance_changes
          ⊎ IsBacked clock trigger.data' 0 1
              (process_instance_change clock m frm connecteds degraded trigger).2.instance_changes)
view_change_needs_quorum_example = view_change_needs_quorum clock 1 trigger

-- The node's own vote, which is the third one.
own_vote :
    (process_vote_for_view_change clock
      (record { suspicion = Suspicion.primary_degraded; view_no = none })
      trigger).0
    ≡ send_instance_change 1 Suspicion.primary_degraded ∷ node_need_view_change 1 ∷ []
unfolding process_vote_for_view_change on_verified_instance_change has_inst_chng_from shared_data
    quorums get_max_failures node_name_of
own_vote = refl

-- The votes for the view that the node is in are removed.
forgotten :
    (process_new_view_accepted
      (record trigger { data' = record shared { view_no = 1 } })).instance_changes.cache
    ≡ []
unfolding process_new_view_accepted
forgotten = refl
