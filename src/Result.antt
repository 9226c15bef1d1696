-- ===== src/Result.antt =====
-- crates/common/src/errors.rs: `VotingError` and its `Result`. A Rust panic (an `expect`, an index
-- out of range, a division by zero) is the third outcome `panic`.
use trust_the_people.Prelude.{ℕ, String, List, [], Bool, true, false, ◌≡◌, refl}

-- A message: the text of the source, and the values that `format!` puts into it.
pub data Message : Type 0 where
  fmt : String → List ℕ → Message

abbrev pub text : String → Message
text s = fmt s []

-- The values of the errors that foreign crates make are their messages here; a hash or an id in a
-- message stands for its hexadecimal text.
pub data VotingError : Type 0 where
  invalid_block : Message → VotingError
  invalid_block_hash : ℕ → ℕ → VotingError
  invalid_previous_hash : Message → VotingError
  block_height_mismatch : ℕ → ℕ → VotingError
  genesis_error : Message → VotingError
  invalid_transaction : Message → VotingError
  invalid_signature : VotingError
  duplicate_transaction : ℕ → VotingError
  invalid_vote : Message → VotingError
  crypto_error : Message → VotingError
  key_generation_error : Message → VotingError
  signature_verification_failed : VotingError
  hash_error : Message → VotingError
  invalid_public_key : VotingError
  invalid_private_key : VotingError
  storage_error : Message → VotingError
  database_error : Message → VotingError
  serialization_error : Message → VotingError
  deserialization_error : Message → VotingError
  block_not_found : Message → VotingError
  transaction_not_found : Message → VotingError
  network_error : Message → VotingError
  peer_connection_error : Message → VotingError
  sync_error : Message → VotingError
  invalid_message : Message → VotingError
  peer_timeout : Message → VotingError
  consensus_error : Message → VotingError
  invalid_validator : Message → VotingError
  insufficient_validators : VotingError
  finality_not_reached : VotingError
  node_not_initialized : VotingError
  config_error : Message → VotingError
  node_already_running : VotingError
  node_not_running : VotingError
  voter_not_eligible : Message → VotingError
  election_not_found : Message → VotingError
  election_not_active : VotingError
  election_closed : VotingError
  already_voted : VotingError
  invalid_ballot : Message → VotingError
  invalid_candidate : Message → VotingError
  rpc_error : Message → VotingError
  invalid_rpc_request : Message → VotingError
  rpc_timeout : VotingError
  internal_error : Message → VotingError
  not_implemented : Message → VotingError
  invalid_input : Message → VotingError
  operation_failed : Message → VotingError
  permission_denied : Message → VotingError
  io_error : Message → VotingError
  parse_error : Message → VotingError
  invalid_hex : Message → VotingError
  insufficient_data : Message → VotingError
  configuration_error : Message → VotingError

pub data Result {ℓ} (A : Type ℓ) : Type ℓ where
  ok : A → Result A
  err : VotingError → Result A
  panic : Result A

-- `if bad { return Err(e); }`
abbrev pub reject_if : Bool → VotingError → Result (Unit {0})
reject_if true e = err e
reject_if false e = ok tt

pub reject_if-ok : (b : Bool) (e : VotingError) → reject_if b e ≡ ok tt → b ≡ false
reject_if-ok true e h = cc
reject_if-ok false e h = refl

-- The `?` operator, before a value and before statements alone.
infixl 5 ◌>>=◌ ◌>>◌
abbrev pub ◌>>=◌ {ℓ κ} : {A : Type ℓ} {B : Type κ} → Result A → (A → Result B) → Result B
panic >>= next = panic
err reason >>= next = err reason
ok value >>= next = next value

-- Code after a `?` is reached with a value.
pub >>=-eq-ok {ℓ κ} :
    {A : Type ℓ} {B : Type κ} (r : Result A) (next : A → Result B) {y : B}
    → (r >>= next) ≡ ok y
    → (value : A) × (r ≡ ok value) × (next value ≡ ok y)
>>=-eq-ok panic next h = cc
>>=-eq-ok (err reason) next h = cc
>>=-eq-ok (ok value) next h = (value, refl, h)

abbrev pub ◌>>◌ {ℓ} : {B : Type ℓ} → Result (Unit {0}) → Result B → Result B
check >> rest = check >>= λ done. rest

pub >>-eq-ok {ℓ} :
    {B : Type ℓ} (check : Result (Unit {0})) (rest : Result B) {y : B}
    → (check >> rest) ≡ ok y
    → (check ≡ ok tt) × (rest ≡ ok y)
>>-eq-ok panic rest h = cc
>>-eq-ok (err reason) rest h = cc
>>-eq-ok (ok tt) rest h = (refl, h)
