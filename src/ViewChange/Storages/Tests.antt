-- ===== src/ViewChange/Storages/Tests.antt =====
-- A pool of four nodes, in which three send the same NewView.
use indy_plenum.Prelude.{
  true, String, List, [], ◌∷◌, none, some, false, ◌≡◌, refl, arith, inl, inr, In, Distinct,
  contains, contains_of_In, string_eq, nat_eq, ◌=?◌, Bool-cases, lookup, sym, ◌∙◌,
}
use indy_plenum.Quorums.{quorums, get_max_failures, is_reached}
use indy_plenum.Names.{node_name_of}
use indy_plenum.Messages.{ViewChange, ViewChangeAck, NewView}
use indy_plenum.ViewChange.Storages.{
  VotesForView, confirmed_votes, get_view_change, add_view_change, add_view_change_ack, clear,
  NewViewVotes, NewViewStore, add_new_view, clear_new_views,
}
use indy_plenum.ViewChange.Storages.Confirmed.{
  IsWellFormed, add_view_change-IsWellFormed, add_view_change_ack-IsWellFormed, clear-IsWellFormed,
}
use indy_plenum.ViewChange.Storages.Agreement.{
  IsSound, add_new_view-IsSound, clear_new_views-IsSoundBy, accepted_new_views_agree,
}

abbrev nodes : List String
nodes = "Alpha" ∷ "Beta" ∷ "Gamma" ∷ "Delta" ∷ []

runs : Unit {0}
unfolding quorums get_max_failures is_reached add_new_view clear_new_views clear add_view_change
    add_view_change_ack confirmed_votes get_view_change node_name_of
runs = tt

fresh : (a : String) (xs : List String) → contains a xs ≡ false → ¬ In a xs
fresh a xs h = λ m. cc (h, contains_of_In a xs m)

nodes-Distinct : Distinct nodes
nodes-Distinct = (
  fresh "Alpha" ("Beta" ∷ "Gamma" ∷ "Delta" ∷ []) refl,
  (
    fresh "Beta" ("Gamma" ∷ "Delta" ∷ []) refl,
    (fresh "Gamma" ("Delta" ∷ []) refl, (fresh "Delta" [] refl, tt)),
  ),
)

abbrev vc_digest : ViewChange → String
vc_digest vc = "d"

abbrev nv_digest : NewView → String
nv_digest nv = "n"

abbrev proposal : NewView
proposal = record {
  view_no = 1;
  view_changes = [];
  checkpoint = record { inst_id = 0; view_no = 0; seq_no_start = 0; seq_no_end = 0; digest = none };
  batches = [];
  primary = some "Beta";
}

abbrev empty : NewViewStore
empty = clear_new_views (record { votes = []; quorums = quorums 4; new_view = none })

abbrev put : String → NewViewStore → NewViewStore
put frm s = add_new_view nv_digest s proposal frm

abbrev store : NewViewStore
store = put "Gamma" (put "Beta" (put "Alpha" empty))

store-IsSound : IsSound nv_digest store
unfolding clear_new_views
store-IsSound = add_new_view-IsSound nv_digest (put "Beta" (put "Alpha" empty)) proposal "Gamma" (
    add_new_view-IsSound nv_digest (put "Alpha" empty) proposal "Beta" (
      add_new_view-IsSound nv_digest empty proposal "Alpha" (
        clear_new_views-IsSoundBy nv_digest (λ n. is_reached empty.quorums.strong n ≡ true)
          (record { votes = []; quorums = quorums 4; new_view = none }))))

abbrev tally : NewViewVotes
tally = record { view_no = 1; msg = proposal; voted_nodes = "Alpha" ∷ "Beta" ∷ "Gamma" ∷ [] }

store_votes :
    (d : String) (v : NewViewVotes) → lookup d store.votes ≡ some v → (d ≡ "n") × (v ≡ tally)
unfolding runs
store_votes d v h = elim (Bool-cases ("n" =? d)) [
  | inl t ↦ let h' = rw t at h in (sym ((string_eq.beq_iff "n" d).0 t), cc)
  | inr t ↦ absurd (cc (rw t at h))
]

In-pool :
    (d : String) (v : NewViewVotes) (x : String)
    → lookup d store.votes ≡ some v
    → In x v.voted_nodes
    → In x nodes
In-pool d v x h m =
    let m' : In x tally.voted_nodes = rw ((store_votes d v h).1) at m in ground arith

accepted_new_views_agree_example : nv_digest proposal ≡ nv_digest proposal
unfolding runs
accepted_new_views_agree_example =
    accepted_new_views_agree nv_digest nodes ("Delta" ∷ []) store store proposal proposal
      (omega arith) nodes-Distinct (omega arith) store-IsSound store-IsSound refl refl In-pool
      In-pool (λ d d' v v' x h h' m m' ok. (store_votes d v h).0 ∙ sym ((store_votes d' v' h').0))
      refl refl

abbrev q4 : VotesForView
q4 = clear (record { votes = []; quorums = quorums 4 })

abbrev message : ViewChange
message = record {
  view_no = 1;
  stable_checkpoint = 0;
  prepared = [];
  preprepared = [];
  checkpoints = [];
}

abbrev ack : ViewChangeAck
ack = record { view_no = 1; name = "Alpha"; digest = "d" }

-- The vote of Alpha, acknowledged by Beta and Gamma.
abbrev voted : VotesForView
voted =
    (add_view_change_ack
      ((add_view_change_ack ((add_view_change vc_digest q4 message "Alpha:0").1) ack "Beta").1) ack
      "Gamma").1

voted-IsWellFormed : IsWellFormed vc_digest voted
voted-IsWellFormed =
    let one =
      add_view_change-IsWellFormed vc_digest q4 message "Alpha:0"
        (clear-IsWellFormed vc_digest (record { votes = []; quorums = quorums 4 })) in
    let s1 = (add_view_change vc_digest q4 message "Alpha:0").1 in
    add_view_change_ack-IsWellFormed vc_digest ((add_view_change_ack s1 ack "Beta").1) ack "Gamma"
      (add_view_change_ack-IsWellFormed vc_digest s1 ack "Beta" one)
