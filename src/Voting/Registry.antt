-- ===== src/Voting/Registry.antt =====
-- crates/voting/src/voter.rs: `VoterRegistry`. A write through `get_voter_mut` is `update_voter`.
pub mod Lookup
pub mod OneVote
use trust_the_people.Prelude.{
  ℕ, ◌+◌, Bool, false, not, Option, none, some, List, [], ◌∷◌, ◌++◌, length, get_elem?, filter, set,
}
use trust_the_people.Result.{
  ◌>>=◌, ◌>>◌, text, invalid_input, voter_not_eligible, Result, ok, err, reject_if,
}
use trust_the_people.Map
use trust_the_people.Map.{Map}
use trust_the_people.Voting.Voter
use trust_the_people.Voting.Voter.{Voter, VoterStatus, status_eq}

pub record VoterRegistry : Type 0 where
  pub voters : List Voter
  pub voter_index : Map ℕ

unfoldable pub new : VoterRegistry
new = record { voters = []; voter_index = Map.empty }

unfoldable pub register_voter : VoterRegistry → Voter → Result VoterRegistry
register_voter r v = do
  reject_if (Map.contains_key r.voter_index v.id)
      (invalid_input (text "Voter already exists in registry"))
  ok (record {
    voters = r.voters ++ v ∷ [];
    voter_index = Map.insert r.voter_index v.id (length r.voters);
  })

unfoldable pub get_voter : VoterRegistry → ℕ → Option Voter
get_voter r voter_id = elim (Map.get r.voter_index voter_id) [
  | none ↦ none
  | some index ↦ get_elem? r.voters index
]

-- `*registry.get_voter_mut(voter_id)? = f(..)`, nothing for a missing voter.
unfoldable pub update_voter : VoterRegistry → ℕ → (Voter → Voter) → Option VoterRegistry
update_voter r voter_id f = elim (Map.get r.voter_index voter_id) [
  | none ↦ none
  | some index ↦ elim (get_elem? r.voters index) [
    | none ↦ none
    | some v ↦ some (record r { voters = set r.voters index (f v) })
  ]
]

unfoldable pub is_registered : VoterRegistry → ℕ → Bool
unfolding get_voter
is_registered r voter_id = elim (get_voter r voter_id) [
  | none ↦ false
  | some v ↦ Voter.is_registered v
]

unfoldable pub is_eligible : VoterRegistry → ℕ → ℕ → Bool
unfolding get_voter
is_eligible r voter_id election_id = elim (get_voter r voter_id) [
  | none ↦ false
  | some v ↦ Voter.is_eligible v election_id
]

unfoldable pub mark_voted : VoterRegistry → ℕ → ℕ → Result VoterRegistry
unfolding get_voter update_voter
mark_voted r voter_id election_id = elim (get_voter r voter_id) [
  | none ↦ err (voter_not_eligible (text "Voter not found"))
  | some v ↦ do
    v' ← Voter.mark_voted v election_id
    ok (elim (update_voter r voter_id (λ old. v')) [ none ↦ r | some r' ↦ r' ])
]

unfoldable pub voter_count : VoterRegistry → ℕ
voter_count r = length r.voters

unfoldable pub registered_count : VoterRegistry → ℕ
registered_count r = length (filter Voter.is_registered r.voters)

unfoldable pub voters_by_status : VoterRegistry → VoterStatus → List Voter
voters_by_status r s = filter (λ v. status_eq v.status s) r.voters
