-- ===== src/Votes/Tests.antt =====
-- Three votes for a batch, two of them by one node, and one for another batch.
use indy_plenum.Prelude.{
  String, List, [], ◌∷◌, ◌≡◌, refl, Distinct, contains, string_eq, length, leb,
}
use indy_plenum.Votes.{Key, add_msg, has_vote, votes_count, has_enough_votes}
use indy_plenum.Votes.Voters.{after_votes, voted, votes_lem}

abbrev own_key : Key → Key
own_key key = key

abbrev votes : List (Key × String)
votes = ((0, 1), "Alpha") ∷ ((0, 1), "Beta") ∷ ((0, 2), "Gamma") ∷ ((0, 1), "Alpha") ∷ []

two_voters : votes_count own_key (0, 1) (after_votes own_key votes) ≡ 2
unfolding votes_count add_msg
two_voters = refl

votes_lem_example :
    ((voter : String)
      → has_vote own_key (0, 1) voter (after_votes own_key votes)
        ≡ voted own_key (0, 1) voter votes)
    × ((xs : List String) × Distinct xs
        × ((voter : String) → contains voter xs ≡ voted own_key (0, 1) voter votes)
        × (has_enough_votes own_key (0, 1) 2 (after_votes own_key votes) ≡ leb 2 (length xs)))
votes_lem_example = votes_lem own_key votes (0, 1) 2
