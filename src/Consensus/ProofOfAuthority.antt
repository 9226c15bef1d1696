-- ===== src/Consensus/ProofOfAuthority.antt =====
-- crates/blockchain-core/src/consensus/proof_of_authority.rs. The time of a call is an argument.
pub mod Turns
pub mod Timing
pub mod Quorum
pub mod Rivalry
use trust_the_people.Prelude.{
  ℕ, ◌+◌, ◌*◌, ◌/◌, ◌%◌, ◌^◌, Bool, true, false, not, ◌||◌, [], ◌∷◌, ltb, leb, ◌==◌, if◌then◌else◌,
  length, sort,
}
use trust_the_people.Result.{
  ◌>>=◌, ◌>>◌, fmt, text, consensus_error, invalid_validator, Result, ok, err, panic, reject_if,
}
use trust_the_people.Merkle.{index}
use trust_the_people.Block.{Block, signature_count}
use trust_the_people.Consensus.ValidatorSet
use trust_the_people.Consensus.ValidatorSet.{ValidatorSet}

pub record ProofOfAuthority : Type 0 where
  pub validator_set : ValidatorSet
  pub block_time : ℕ
  pub current_round : ℕ

unfoldable pub new : ValidatorSet → ProofOfAuthority
new s = record { validator_set = s; block_time = 5; current_round = 0 }

unfoldable pub with_block_time : ValidatorSet → ℕ → ProofOfAuthority
with_block_time s block_time = record {
  validator_set = s;
  block_time = block_time;
  current_round = 0;
}

-- `a / b` and `a % b`, which panic at a divisor of 0.
unfoldable pub div_or_panic : ℕ → ℕ → Result ℕ
div_or_panic a b = if b == 0 then panic else ok (a / b)

unfoldable pub mod_or_panic : ℕ → ℕ → Result ℕ
mod_or_panic a b = if b == 0 then panic else ok (a % b)

-- The validator at place `turn` of the sorted validators, counted round and round.
unfoldable pub sorted_turn : ValidatorSet → ℕ → Result ℕ
unfolding mod_or_panic
sorted_turn s turn = do
  i ← mod_or_panic turn (length (sort s.validators))
  index (sort s.validators) i

unfoldable pub get_block_producer : ProofOfAuthority → ℕ → Result ℕ
get_block_producer p block_height = do
  reject_if (ValidatorSet.validator_count p.validator_set == 0)
      (consensus_error (text "No validators available"))
  sorted_turn p.validator_set block_height

unfoldable pub get_validator_at_time : ProofOfAuthority → ℕ → Result ℕ
unfolding div_or_panic
get_validator_at_time p timestamp = do
  reject_if (ValidatorSet.validator_count p.validator_set == 0)
      (consensus_error (text "No validators available"))
  round ← div_or_panic timestamp p.block_time
  sorted_turn p.validator_set round

unfoldable pub is_validator_turn_by_height : ProofOfAuthority → ℕ → ℕ → Result Bool
is_validator_turn_by_height p validator block_height = do
  expected ← get_block_producer p block_height
  ok (expected == validator)

unfoldable pub is_validator_turn : ProofOfAuthority → ℕ → ℕ → Result Bool
is_validator_turn p validator timestamp = do
  expected ← get_validator_at_time p timestamp
  ok (expected == validator)

-- In a release build the end of a slot wraps at 2 ^ 64.
unfoldable pub get_validator_time_slot : ProofOfAuthority → ℕ → Result (ℕ × ℕ)
unfolding div_or_panic
get_validator_time_slot p timestamp = do
  round ← div_or_panic timestamp p.block_time
  ok (round * p.block_time, (round * p.block_time + p.block_time) % 2 ^ 64)

unfoldable pub validate_block_timing : ProofOfAuthority → Block → Result (Unit {0})
unfolding get_validator_time_slot
validate_block_timing p b = do
  slot ← get_validator_time_slot p b.header.timestamp
  reject_if (ltb b.header.timestamp slot.0 || leb slot.1 b.header.timestamp) (
      consensus_error (
        fmt "Block timestamp {} is outside validator time slot [{}, {})"
          (b.header.timestamp ∷ slot.0 ∷ slot.1 ∷ [])))

unfoldable pub is_validator : ProofOfAuthority → ℕ → Bool
is_validator p validator = ValidatorSet.is_validator p.validator_set validator

-- `if !turn { let expected = …?; return Err(…); }`
unfoldable pub reject_wrong_turn : ProofOfAuthority → Block → Bool → Result (Unit {0})
reject_wrong_turn p b true = ok tt
reject_wrong_turn p b false = do
  expected ← get_block_producer p b.header.height
  err (
      consensus_error
        (fmt "Wrong validator turn. Expected {}, got {}" (expected ∷ b.header.validator ∷ [])))

unfoldable pub validate_block : ProofOfAuthority → Block → Result (Unit {0})
unfolding is_validator_turn_by_height reject_wrong_turn
validate_block p b = do
  reject_if (not (ValidatorSet.is_validator p.validator_set b.header.validator))
      (invalid_validator (fmt "Validator {} is not authorized" (b.header.validator ∷ [])))
  turn ← is_validator_turn_by_height p b.header.validator b.header.height
  reject_wrong_turn p b turn
  validate_block_timing p b

unfoldable pub can_produce_block : ℕ → ProofOfAuthority → ℕ → Result Bool
unfolding is_validator_turn
can_produce_block current_time p validator =
    if ValidatorSet.is_validator p.validator_set validator
    then is_validator_turn p validator current_time
    else ok false

unfoldable pub get_current_validator : ℕ → ProofOfAuthority → Result ℕ
get_current_validator current_time p = get_validator_at_time p current_time

unfoldable pub required_signatures : ProofOfAuthority → ℕ
required_signatures p = ValidatorSet.validator_count p.validator_set * 2 / 3 + 1

unfoldable pub is_finalized : ProofOfAuthority → Block → Bool
unfolding required_signatures
is_finalized p b = leb (required_signatures p) (signature_count b)
