-- ===== src/Votes.antt =====
-- The votes of the 3PC phases: plenum/server/models.py. `Prepares` and `Commits` differ in their
-- messages only, of which they read the view number and the sequence number.
pub mod Voters
mod Tests
use indy_plenum.Prelude.{
  ℕ, String, List, [], ◌∷◌, Option, none, some, Bool, true, false, ◌&&◌, ◌≡◌, ◌↔◌, Eq, ◌==◌, leb,
  string_eq, arith, length, contains, add, lookup, insert, refl,
}

abbrev pub Key : Type 0
Key = ℕ × ℕ

abbrev pub pair_beq : Key → Key → Bool
pair_beq (a, b) (c, d) = a == c && b == d

pub pair_beq_iff : (a b : Key) → (pair_beq a b ≡ true) ↔ (a ≡ b)
pair_beq_iff (a, b) (c, d) = (
  λ h. let e : a ≡ c = ground arith in let f : b ≡ d = ground arith in cc,
  λ h. let e : a ≡ c = cc in let f : b ≡ d = cc in rw (e, f) (ground arith),
)

instance abbrev pub pair_eq : Eq Key
pair_eq = record { beq = pair_beq; beq_iff = pair_beq_iff }

module _ {M : Type 0} (get_key : M → Key) where
  pub record ThreePhaseVotes : Type 0 where
    pub voters : List String
    pub msg : M

  abbrev pub TrackedMsgs : Type 0
  TrackedMsgs = List (Key × ThreePhaseVotes)

  abbrev pub new_vote_msg : M → ThreePhaseVotes
  new_vote_msg msg = record { voters = []; msg = msg }

  -- The votes that `_add_msg` finds or makes.
  abbrev pub votes_for : M → TrackedMsgs → ThreePhaseVotes
  votes_for msg d = elim (lookup (get_key msg) d) [ some v ↦ v | none ↦ new_vote_msg msg ]

  unfoldable pub add_msg : M → String → TrackedMsgs → TrackedMsgs
  add_msg msg voter d =
      let v = votes_for msg d in insert (get_key msg) (record v { voters = add voter v.voters }) d

  unfoldable pub has_msg : M → TrackedMsgs → Bool
  has_msg msg d = elim (lookup (get_key msg) d) [ some v ↦ true | none ↦ false ]

  unfoldable pub has_vote : M → String → TrackedMsgs → Bool
  has_vote msg voter d = elim (lookup (get_key msg) d) [
    | some v ↦ contains voter v.voters
    | none ↦ false
  ]

  unfoldable pub votes_count : M → TrackedMsgs → ℕ
  votes_count msg d = elim (lookup (get_key msg) d) [ some v ↦ length v.voters | none ↦ 0 ]

  unfoldable pub has_enough_votes : M → ℕ → TrackedMsgs → Bool
  unfolding votes_count
  has_enough_votes msg count d = leb count (votes_count msg d)
