-- ===== src/Voting/Ballot/Box.antt =====
-- The ballot box is a finite map from ids to ballots that only grows.
use trust_the_people.Prelude.{
  ℕ, suc, ◌≡◌, refl, sym, ap, ◌∙◌, ◌⊎◌, inl, inr, true, false, none, some, [], ◌∷◌, ◌++◌, arith,
  ◌==◌, if◌then◌else◌, Bool-cases, length, get_elem?, length-append,
}
use trust_the_people.Result.{text, invalid_ballot, ok, err}
use trust_the_people.Map
use trust_the_people.Map.{Map}
use trust_the_people.Voting.Ballot.{
  CastBallot, BallotBox, new_box, add_ballot, get_ballot, contains_ballot, ballot_count,
}
use trust_the_people.Voting.Indexed.{
  lookup, at_place, IsIndexed, empty-IsIndexed, snoc-IsIndexed, lookup-snoc,
}

abbrev pub id_of : CastBallot → ℕ
id_of b = b.ballot_id

pub record IsBox (box : BallotBox) : Type 0 where
  pub indexed : IsIndexed id_of box.ballots box.ballot_index

get_ballot-lookup :
    (box : BallotBox) (k : ℕ) → get_ballot box k ≡ lookup id_of box.ballots box.ballot_index k
unfolding get_ballot
get_ballot-lookup box k =
    elim (Map.get box.ballot_index k)
      as (λ o.
        elim o [ none ↦ none | some i ↦ get_elem? box.ballots i ] ≡ at_place id_of box.ballots o) [
          | none ↦ refl
          | some i ↦ refl
        ]

pub new_box-IsBox : IsBox new_box
unfolding new_box
new_box-IsBox = record { indexed = empty-IsIndexed id_of }

added : BallotBox → CastBallot → BallotBox
added box b = record {
  ballots = box.ballots ++ b ∷ [];
  ballot_index = Map.insert box.ballot_index b.ballot_id (length box.ballots);
}

-- A ballot is added exactly if its id is new. The box then holds one ballot more, finds it under its id
-- and all others as before, and stays well formed; an id that is there is refused.
pub add_ballot-get_ballot :
    (box : BallotBox) (b : CastBallot)
    → IsBox box
    → ((contains_ballot box b.ballot_id ≡ true)
        × (add_ballot box b ≡ err (invalid_ballot (text "Ballot already exists"))))
      ⊎ ((contains_ballot box b.ballot_id ≡ false)
          × (box' : BallotBox) × (add_ballot box b ≡ ok box')
          × IsBox box'
          × (ballot_count box' ≡ suc (ballot_count box))
          × ((k : ℕ) → get_ballot box' k ≡ (if k == b.ballot_id then some b else get_ballot box k)))
unfolding add_ballot contains_ballot ballot_count added
add_ballot-get_ballot box b h = elim (Bool-cases (Map.contains_key box.ballot_index b.ballot_id)) [
  | inl old ↦ inl (old, rw old refl)
  | inr new ↦ inr (
    new,
    added box b,
    rw new refl,
    record { indexed = snoc-IsIndexed id_of box.ballots box.ballot_index h.indexed b new },
    omega (arith, length-append box.ballots (b ∷ [])),
    λ k.
        get_ballot-lookup (added box b) k
        ∙ lookup-snoc id_of box.ballots box.ballot_index h.indexed b new k
        ∙ ap (λ o. if k == b.ballot_id then some b else o) (sym (get_ballot-lookup box k)),
  )
]
