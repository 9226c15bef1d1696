-- ===== src/Consensus/Engine.antt =====
-- crates/blockchain-core/src/consensus/mod.rs. The mechanism is the only one there is, proof of
-- authority, with a validator set of its own.
pub mod Divergence
use trust_the_people.Prelude.{ℕ, Bool, not, List, [], ◌∷◌, is_empty}
use trust_the_people.Result.{
  ◌>>=◌, ◌>>◌, fmt, text, consensus_error, invalid_validator, Result, ok, reject_if,
}
use trust_the_people.Float.{Float64}
use trust_the_people.Block.{Block, ValidatorSignature}
use trust_the_people.Consensus.ValidatorSet
use trust_the_people.Consensus.ValidatorSet.{ValidatorSet}
use trust_the_people.Consensus.ProofOfAuthority
use trust_the_people.Consensus.ProofOfAuthority.{ProofOfAuthority}
use trust_the_people.Consensus.Finality
use trust_the_people.Consensus.Finality.{FinalityTracker, FinalityStatus}

pub record ConsensusEngine (F : Type 0) : Type 0 where
  pub mechanism : ProofOfAuthority
  pub validator_set : ValidatorSet
  pub finality_tracker : FinalityTracker F

-- `for sig in &block.signatures { if !self.validator_set.is_validator(&sig.validator) { return Err(…); } }`
unfoldable pub validate_signers : ValidatorSet → List ValidatorSignature → Result (Unit {0})
validate_signers s [] = ok tt
validate_signers s (sig ∷ sigs) = do
  reject_if (not (ValidatorSet.is_validator s sig.validator))
      (invalid_validator (fmt "Unknown validator signature: {}" (sig.validator ∷ [])))
  validate_signers s sigs

module _ (f : Float64) where
  open f use {F}

  unfoldable pub new_poa : ℕ → List ℕ → F → Result (ConsensusEngine F)
  new_poa now validators finality_threshold = do
    reject_if (is_empty validators) (consensus_error (text "Validator set cannot be empty"))
    let set = ValidatorSet.new now validators
    ok (record {
      mechanism = ProofOfAuthority.new set;
      validator_set = set;
      finality_tracker = Finality.new f finality_threshold;
    })

  unfoldable pub check_finality :
      ℕ → ConsensusEngine F → Block → Result (ConsensusEngine F × FinalityStatus)
  check_finality now e b =
      let (t, status) =
        Finality.check_finality f now e.finality_tracker b
          (ValidatorSet.validator_count e.validator_set) in
      ok (record e { finality_tracker = t }, status)

module _ {F : Type 0} where
  unfoldable pub validate_block : ConsensusEngine F → Block → Result (Unit {0})
  unfolding validate_signers
  validate_block e b = do
    ProofOfAuthority.validate_block e.mechanism b
    reject_if (not (ValidatorSet.is_validator e.validator_set b.header.validator))
        (invalid_validator (fmt "Unknown validator: {}" (b.header.validator ∷ [])))
    validate_signers e.validator_set b.signatures

  unfoldable pub add_validator : ℕ → ConsensusEngine F → ℕ → Result (ConsensusEngine F)
  add_validator now e validator = do
    set ← ValidatorSet.add_validator now e.validator_set validator
    ok (record e { validator_set = set })

  unfoldable pub remove_validator : ConsensusEngine F → ℕ → Result (ConsensusEngine F)
  remove_validator e validator = do
    set ← ValidatorSet.remove_validator e.validator_set validator
    ok (record e { validator_set = set })

  unfoldable pub get_current_validator : ℕ → ConsensusEngine F → Result ℕ
  get_current_validator now e = ProofOfAuthority.get_current_validator now e.mechanism

  unfoldable pub can_produce_block : ℕ → ConsensusEngine F → ℕ → Result Bool
  can_produce_block now e validator = ProofOfAuthority.can_produce_block now e.mechanism validator

  unfoldable pub required_signatures : ConsensusEngine F → ℕ
  required_signatures e = ProofOfAuthority.required_signatures e.mechanism
