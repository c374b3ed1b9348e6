-- ===== src/Ordering/Validator/Tests.antt =====
-- A replica of a pool of four that ordered five batches of view 0.
use indy_plenum.Prelude.{ℕ, [], ◌∷◌, some, true, ◌≡◌, ◌↔◌, refl}
use indy_plenum.Startable.{Mode}
use indy_plenum.SharedData.{SharedData, shared_data, is_participating}
use indy_plenum.Keys.{compare_3pc_keys}
use indy_plenum.Verdict.{Code, Reason, refuse, accepted}
use indy_plenum.Ordering.Validator.{ThreePcKey, validate_3pc}
use indy_plenum.Ordering.Validator.Decision.{IsAdmissible, validate_3pc_iff}

abbrev replica : SharedData
replica = record (shared_data "Alpha:0" ("Alpha" ∷ "Beta" ∷ "Gamma" ∷ "Delta" ∷ []) 0 true 300) {
  node_mode = Mode.participating;
  last_ordered_3pc = (0, 5);
}

abbrev key : ℕ → ℕ → ThreePcKey
key view_no pp_seq_no = record { inst_id = some 0; view_no = view_no; pp_seq_no = pp_seq_no }

next-accepted : validate_3pc replica (key 0 6) ≡ accepted
unfolding validate_3pc shared_data is_participating compare_3pc_keys
next-accepted = refl

next_view-stashed : validate_3pc replica (key 1 6) ≡ refuse Code.stash_view_3pc Reason.future_view
unfolding validate_3pc shared_data is_participating compare_3pc_keys
next_view-stashed = refl

validate_3pc_iff_example :
    (validate_3pc replica (key 0 6) ≡ accepted) ↔ IsAdmissible replica (key 0 6)
validate_3pc_iff_example = validate_3pc_iff replica (key 0 6)
