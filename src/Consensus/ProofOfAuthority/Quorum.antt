-- ===== src/Consensus/ProofOfAuthority/Quorum.antt =====
-- How many signatures make a block final.
use trust_the_people.Prelude.{
  ℕ, zero, suc, ◌+◌, ◌-◌, ◌*◌, ◌/◌, ◌%◌, ◌≤◌, ◌<◌, ◌≡◌, ◌≢◌, true, [], ◌∷◌, arith, le→leb,
  length-append,
}
use trust_the_people.Block.{Block, ValidatorSignature, signature_count, add_signature}
use trust_the_people.Consensus.ValidatorSet
use trust_the_people.Consensus.ValidatorSet.{ValidatorSet}
use trust_the_people.Consensus.ProofOfAuthority.{
  ProofOfAuthority, required_signatures, is_finalized,
}

-- The required number is more than two thirds of the validators, by at most one, and with a validator
-- at all it does not pass their number; any two quorums share more than a third of the validators.
pub required_signatures-quorum :
    (p : ProofOfAuthority)
    → let n = ValidatorSet.validator_count p.validator_set in
      let q = required_signatures p in
      (2 * n < 3 * q) × (3 * q ≤ 2 * n + 3) × (0 < n → q ≤ n) × (n < 3 * (2 * q - n))
unfolding required_signatures
required_signatures-quorum p = omega arith

-- The least number that is at least two thirds of `n`.
abbrev pub ceil_two_thirds : ℕ → ℕ
ceil_two_thirds n = (2 * n + 2) / 3

-- The required number is the rounded-up two thirds of the validators, and one more than that exactly
-- when three divides their number.
pub required_signatures-ceil :
    (p : ProofOfAuthority)
    → let n = ValidatorSet.validator_count p.validator_set in
      (n % 3 ≡ 0 → required_signatures p ≡ ceil_two_thirds n + 1)
      × (n % 3 ≢ 0 → required_signatures p ≡ ceil_two_thirds n)
unfolding required_signatures
required_signatures-ceil p = (λ h. omega arith, λ h. omega arith)

pub repeat_signature : ℕ → Block → ℕ → ℕ → Block
repeat_signature zero b validator signature = b
repeat_signature (suc n) b validator signature =
    add_signature (repeat_signature n b validator signature) validator signature

length-repeat_signature :
    (n : ℕ) (b : Block) (validator signature : ℕ)
    → signature_count (repeat_signature n b validator signature) ≡ signature_count b + n
unfolding repeat_signature signature_count add_signature
length-repeat_signature zero b validator signature = omega arith
length-repeat_signature (suc n) b validator signature =
    let s = repeat_signature n b validator signature in
    let item : ValidatorSignature = record { validator = validator; signature = signature } in
    omega (
      arith,
      length-append s.signatures (item ∷ []),
      length-repeat_signature n b validator signature,
    )

-- `is_finalized` counts entries and not signers: one key, a validator or not, whose signature is
-- appended as often as signatures are required, makes any block final.
pub is_finalized-repeat_signature :
    (p : ProofOfAuthority) (b : Block) (validator signature : ℕ)
    → is_finalized p (repeat_signature (required_signatures p) b validator signature) ≡ true
unfolding is_finalized
is_finalized-repeat_signature p b validator signature =
    let n = length-repeat_signature (required_signatures p) b validator signature in
    le→leb (required_signatures p) _ (omega arith)
