-- ===== src/Voting/Ballot.antt =====
-- crates/voting/src/ballot.rs: ballots, the builder, cast ballots and the ballot box.
-- `serialize` is bincode's encoding of a ballot; ids, the clock and the randomness that is drawn are
-- arguments.
pub mod Building
pub mod Box
pub mod Signing
use trust_the_people.Prelude.{
  ℕ, ◌+◌, String, Bool, not, Option, none, some, List, [], ◌∷◌, ◌++◌, ltb, leb, ◌==◌, length,
  is_empty, get_elem?, filter,
}
use trust_the_people.Result.{◌>>=◌, ◌>>◌, fmt, text, invalid_ballot, Result, ok, err, reject_if}
use trust_the_people.Bytes.{as_bytes, be_bytes}
use trust_the_people.Map
use trust_the_people.Map.{Map}
use trust_the_people.Crypto
use trust_the_people.Crypto.{
  Primitives, KeyPair, EncryptedData, to_bytes, hash_blake2b_multiple, encrypt, commit,
}

pub data BallotType : Type 0 where
  single_choice : BallotType
  multiple_choice : ℕ → BallotType
  ranked_choice : ℕ → BallotType
  approval : BallotType
  write_in : BallotType

pub record BallotChoice : Type 0 where
  pub candidate_id : String
  pub rank : Option ℕ
  pub write_in_name : Option String

pub record Ballot : Type 0 where
  pub ballot_id : ℕ
  pub election_id : ℕ
  pub ballot_type : BallotType
  pub choices : List BallotChoice
  pub timestamp : ℕ
  pub version : ℕ

pub record CastBallot : Type 0 where
  pub ballot_id : ℕ
  pub election_id : ℕ
  pub voter_id : ℕ
  pub encrypted_ballot : EncryptedData
  pub ballot_commitment : List ℕ
  pub voter_signature : ℕ
  pub cast_at : ℕ
  pub transaction_id : Option ℕ

pub record BallotBox : Type 0 where
  pub ballots : List CastBallot
  pub ballot_index : Map ℕ

pub record BallotBuilder : Type 0 where
  pub election_id : ℕ
  pub ballot_type : BallotType
  pub choices : List BallotChoice

-- `Ballot::new`, at the id that is drawn and the time.
unfoldable pub new_ballot : ℕ → ℕ → ℕ → BallotType → Ballot
new_ballot ballot_id now election_id ballot_type = record {
  ballot_id = ballot_id;
  election_id = election_id;
  ballot_type = ballot_type;
  choices = [];
  timestamp = now;
  version = 1;
}

-- The guards of `Ballot::add_choice`.
unfoldable pub has_room : BallotType → List BallotChoice → Result (Unit {0})
has_room single_choice choices =
    reject_if (not (is_empty choices))
      (invalid_ballot (text "Single choice ballot can only have one choice"))
has_room (multiple_choice max_choices) choices =
    reject_if (leb max_choices (length choices))
      (invalid_ballot (fmt "Cannot exceed {} choices" (max_choices ∷ [])))
has_room (ranked_choice max_ranks) choices =
    reject_if (leb max_ranks (length choices))
      (invalid_ballot (fmt "Cannot exceed {} ranks" (max_ranks ∷ [])))
has_room approval choices = ok tt
has_room write_in choices = ok tt

unfoldable pub add_choice : Ballot → BallotChoice → Result Ballot
unfolding has_room
add_choice b choice = do
  has_room b.ballot_type b.choices
  ok (record b { choices = b.choices ++ choice ∷ [] })

-- The loop over the ranks, from the index `i`.
unfoldable pub validate_ranks : ℕ → List BallotChoice → Result (Unit {0})
validate_ranks i [] = ok tt
validate_ranks i (choice ∷ choices) = elim choice.rank [
  | none ↦ err (invalid_ballot (text "Ranked choice ballot must have ranks"))
  | some rank ↦ do
    reject_if (not (rank == i + 1)) (invalid_ballot (text "Ranks must be sequential"))
    validate_ranks (i + 1) choices
]

-- The `match` of `Ballot::validate`.
unfoldable pub validate_type : BallotType → List BallotChoice → Result (Unit {0})
unfolding validate_ranks
validate_type single_choice choices =
    reject_if (not (length choices == 1))
      (invalid_ballot (text "Single choice ballot must have exactly one choice"))
validate_type (multiple_choice max_choices) choices =
    reject_if (ltb max_choices (length choices))
      (invalid_ballot (fmt "Too many choices: {} (max {})" (length choices ∷ max_choices ∷ [])))
validate_type (ranked_choice max_ranks) choices = do
  reject_if (ltb max_ranks (length choices)) (invalid_ballot (text "Too many ranks"))
  validate_ranks 0 choices
validate_type approval choices = ok tt
validate_type write_in choices = ok tt

unfoldable pub validate : Ballot → Result (Unit {0})
unfolding validate_type
validate b = do
  reject_if (is_empty b.choices) (invalid_ballot (text "Ballot must have at least one choice"))
  validate_type b.ballot_type b.choices

unfoldable pub new_choice : String → BallotChoice
new_choice candidate_id = record { candidate_id = candidate_id; rank = none; write_in_name = none }

unfoldable pub with_rank : String → ℕ → BallotChoice
with_rank candidate_id rank = record {
  candidate_id = candidate_id;
  rank = some rank;
  write_in_name = none;
}

unfoldable pub write_in_choice : String → BallotChoice
write_in_choice name = record { candidate_id = "write_in"; rank = none; write_in_name = some name }

unfoldable pub new_builder : ℕ → BallotType → BallotBuilder
new_builder election_id ballot_type = record {
  election_id = election_id;
  ballot_type = ballot_type;
  choices = [];
}

unfoldable pub add_builder_choice : BallotBuilder → String → BallotBuilder
unfolding new_choice
add_builder_choice b candidate_id = record b { choices = b.choices ++ new_choice candidate_id ∷ [] }

unfoldable pub add_ranked_choice : BallotBuilder → String → ℕ → BallotBuilder
unfolding with_rank
add_ranked_choice b candidate_id rank = record b {
  choices = b.choices ++ with_rank candidate_id rank ∷ [];
}

unfoldable pub add_write_in : BallotBuilder → String → BallotBuilder
unfolding write_in_choice
add_write_in b name = record b { choices = b.choices ++ write_in_choice name ∷ [] }

-- The loop of `BallotBuilder::build`.
unfoldable pub add_choices : Ballot → List BallotChoice → Result Ballot
unfolding add_choice
add_choices b [] = ok b
add_choices b (choice ∷ choices) = do b' ← add_choice b choice; add_choices b' choices

unfoldable pub build : BallotBuilder → ℕ → ℕ → Result Ballot
unfolding add_choices new_ballot validate
build builder ballot_id now = do
  b ← add_choices (new_ballot ballot_id now builder.election_id builder.ballot_type) builder.choices
  validate b
  ok b

unfoldable pub set_transaction_id : CastBallot → ℕ → CastBallot
set_transaction_id b tx_id = record b { transaction_id = some tx_id }

unfoldable pub new_box : BallotBox
new_box = record { ballots = []; ballot_index = Map.empty }

unfoldable pub add_ballot : BallotBox → CastBallot → Result BallotBox
add_ballot box b = do
  reject_if (Map.contains_key box.ballot_index b.ballot_id)
      (invalid_ballot (text "Ballot already exists"))
  ok (record {
    ballots = box.ballots ++ b ∷ [];
    ballot_index = Map.insert box.ballot_index b.ballot_id (length box.ballots);
  })

unfoldable pub get_ballot : BallotBox → ℕ → Option CastBallot
get_ballot box ballot_id = elim (Map.get box.ballot_index ballot_id) [
  | none ↦ none
  | some index ↦ get_elem? box.ballots index
]

unfoldable pub ballot_count : BallotBox → ℕ
ballot_count box = length box.ballots

unfoldable pub ballots_for_election : BallotBox → ℕ → List CastBallot
ballots_for_election box election_id = filter (λ b. b.election_id == election_id) box.ballots

unfoldable pub contains_ballot : BallotBox → ℕ → Bool
contains_ballot box ballot_id = Map.contains_key box.ballot_index ballot_id

module _ (c : Primitives) where
  -- `CastBallot::compute_message`; an election id has 16 bytes.
  unfoldable pub ballot_message : ℕ → ℕ → ℕ → EncryptedData → List ℕ → List ℕ
  ballot_message ballot_id election_id voter_id encrypted_ballot ballot_commitment = as_bytes (
      hash_blake2b_multiple c (
        as_bytes ballot_id
        ∷ be_bytes 16 election_id
        ∷ as_bytes voter_id
        ∷ to_bytes encrypted_ballot
        ∷ ballot_commitment
        ∷ []))

  unfoldable pub create :
      (Ballot → List ℕ) → Ballot → ℕ → ℕ → KeyPair → ℕ → List ℕ → ℕ → Result CastBallot
  unfolding ballot_message
  create serialize b voter_id election_key voter_keypair nonce randomness now = do
    let ballot_data = serialize b
    encrypted_ballot ← encrypt c nonce ballot_data election_key
    let commitment = (commit c ballot_data randomness).value
    signature ←
        Crypto.sign c
          (ballot_message b.ballot_id b.election_id voter_id encrypted_ballot commitment)
          voter_keypair
    ok (record {
      ballot_id = b.ballot_id;
      election_id = b.election_id;
      voter_id = voter_id;
      encrypted_ballot = encrypted_ballot;
      ballot_commitment = commitment;
      voter_signature = signature;
      cast_at = now;
      transaction_id = none;
    })

  unfoldable pub verify_cast : CastBallot → ℕ → Result (Unit {0})
  unfolding ballot_message
  verify_cast b voter_public_key =
      Crypto.verify c
        (ballot_message b.ballot_id b.election_id b.voter_id b.encrypted_ballot b.ballot_commitment)
        b.voter_signature voter_public_key
