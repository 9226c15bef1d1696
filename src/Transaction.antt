-- ===== src/Transaction.antt =====
-- crates/blockchain-core/src/transaction.rs: transactions, their ids and their validation.
-- `serialize` is `bincode::serialize` at `TransactionType`. It writes into a vector, which does not
-- fail for these types, so the `expect` on its result is left out. The clock and the random nonce are
-- arguments.
pub mod Validation
pub mod Identity
use trust_the_people.Prelude.{
  ℕ, ◌+◌, ◌*◌, String, Bool, true, false, not, Option, none, some, List, [], ◌∷◌, ◌++◌, ltb, leb,
  ◌==◌, length, is_empty,
}
use trust_the_people.Result.{
  ◌>>=◌, ◌>>◌, text, invalid_transaction, invalid_vote, Result, reject_if,
}
use Prim.Native.String
use trust_the_people.Bytes.{u64_bytes}
use trust_the_people.Digest.{hash_data}

pub record Candidate : Type 0 where
  pub id : String
  pub name : String
  pub party : Option String
  pub metadata : Option String

pub record ValidatorMetadata : Type 0 where
  pub name : String
  pub organization : Option String
  pub contact : Option String

-- A signature is the number that its 64 bytes spell, and an election id that of its 16 bytes.
pub record VoteTransaction : Type 0 where
  pub election_id : ℕ
  pub encrypted_vote : List ℕ
  pub validity_proof : Option (List ℕ)
  pub voter_signature : ℕ

pub record ValidatorRegistration : Type 0 where
  pub validator_key : ℕ
  pub metadata : ValidatorMetadata
  pub authorizing_signature : ℕ

pub record ValidatorRemoval : Type 0 where
  pub validator_key : ℕ
  pub reason : String
  pub authorizing_signature : ℕ

pub record ElectionCreation : Type 0 where
  pub election_id : ℕ
  pub name : String
  pub description : String
  pub candidates : List Candidate
  pub start_time : ℕ
  pub end_time : ℕ
  pub authority_signature : ℕ

pub record ElectionClosure : Type 0 where
  pub election_id : ℕ
  pub results : List ℕ
  pub authority_signature : ℕ

pub data TransactionType : Type 0 where
  vote : VoteTransaction → TransactionType
  validator_registration : ValidatorRegistration → TransactionType
  validator_removal : ValidatorRemoval → TransactionType
  election_creation : ElectionCreation → TransactionType
  election_closure : ElectionClosure → TransactionType

pub record Transaction : Type 0 where
  pub id : ℕ
  pub tx_type : TransactionType
  pub timestamp : ℕ
  pub nonce : ℕ

-- `String::is_empty`
abbrev pub is_empty_string : String → Bool
is_empty_string String.[] = true
is_empty_string (String.◌∷◌ c s) = false

unfoldable pub is_vote : Transaction → Bool
is_vote tx = elim tx.tx_type [ vote v ↦ true | _ ↦ false ]

unfoldable pub get_election_id : Transaction → Option ℕ
get_election_id tx = elim tx.tx_type [
  | vote v ↦ some v.election_id
  | election_creation c ↦ some c.election_id
  | election_closure c ↦ some c.election_id
  | _ ↦ none
]

unfoldable pub transaction_type_name : Transaction → String
transaction_type_name tx = elim tx.tx_type [
  | vote v ↦ "Vote"
  | validator_registration r ↦ "ValidatorRegistration"
  | validator_removal r ↦ "ValidatorRemoval"
  | election_creation c ↦ "ElectionCreation"
  | election_closure c ↦ "ElectionClosure"
]

abbrev pub max_vote_size : ℕ
max_vote_size = 1024 * 1024

unfoldable pub validate_vote : VoteTransaction → Result (Unit {0})
validate_vote v = do
  reject_if (is_empty v.encrypted_vote) (invalid_vote (text "Vote data is empty"))
  reject_if (ltb max_vote_size (length v.encrypted_vote))
      (invalid_vote (text "Vote data too large"))

unfoldable pub validate_validator_registration : ValidatorRegistration → Result (Unit {0})
validate_validator_registration r =
    reject_if (is_empty_string r.metadata.name)
      (invalid_transaction (text "Validator name cannot be empty"))

unfoldable pub validate_validator_removal : ValidatorRemoval → Result (Unit {0})
validate_validator_removal r =
    reject_if (is_empty_string r.reason)
      (invalid_transaction (text "Removal reason cannot be empty"))

unfoldable pub validate_election_creation : ElectionCreation → Result (Unit {0})
validate_election_creation c = do
  reject_if (is_empty_string c.name) (invalid_transaction (text "Election name cannot be empty"))
  reject_if (is_empty c.candidates)
      (invalid_transaction (text "Election must have at least one candidate"))
  reject_if (leb c.end_time c.start_time)
      (invalid_transaction (text "Election end time must be after start time"))

unfoldable pub validate_election_closure : ElectionClosure → Result (Unit {0})
validate_election_closure c =
    reject_if (is_empty c.results) (invalid_transaction (text "Election results cannot be empty"))

unfoldable pub validate_type : TransactionType → Result (Unit {0})
unfolding validate_vote validate_validator_registration validate_validator_removal
    validate_election_creation validate_election_closure
validate_type (vote v) = validate_vote v
validate_type (validator_registration r) = validate_validator_registration r
validate_type (validator_removal r) = validate_validator_removal r
validate_type (election_creation c) = validate_election_creation c
validate_type (election_closure c) = validate_election_closure c

module _ (serialize : TransactionType → List ℕ) where
  unfoldable pub serialize_for_hashing : Transaction → List ℕ
  serialize_for_hashing tx = u64_bytes tx.timestamp ++ (u64_bytes tx.nonce ++ serialize tx.tx_type)

module _ (blake2b : List ℕ → ℕ) (serialize : TransactionType → List ℕ) where
  unfoldable pub calculate_id : Transaction → ℕ
  calculate_id tx = hash_data blake2b (serialize_for_hashing serialize tx)

  unfoldable pub new_with_params : TransactionType → ℕ → ℕ → Transaction
  new_with_params tx_type timestamp nonce =
      let tx : Transaction = record {
        id = 0;
        tx_type = tx_type;
        timestamp = timestamp;
        nonce = nonce;
      } in
      record tx { id = calculate_id tx }

  -- `new`, at the time and the nonce that it draws.
  unfoldable pub new : TransactionType → ℕ → ℕ → Transaction
  new tx_type current_timestamp generate_nonce =
      let tx : Transaction = record {
        id = 0;
        tx_type = tx_type;
        timestamp = current_timestamp;
        nonce = generate_nonce;
      } in
      record tx { id = calculate_id tx }

  unfoldable pub validate : Transaction → Result (Unit {0})
  validate tx = do
    reject_if (not (tx.id == calculate_id tx))
        (invalid_transaction (text "Transaction ID mismatch"))
    validate_type tx.tx_type
