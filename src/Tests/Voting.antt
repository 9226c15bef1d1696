-- ===== src/Tests/Voting.antt =====
-- The theorems of the consensus at concrete inputs: three validators, one of them leaving.
use trust_the_people.Prelude.{
  ℕ, ◌+◌, ◌≤◌, ◌<◌, ◌≡◌, refl, ◌≢◌, ◌↔◌, true, false, some, [], ◌∷◌, arith, length, contains, sort,
}
use trust_the_people.Result.{ok}
use mathlib.Core.List.{Permᴰ}
use trust_the_people.Map
use trust_the_people.Set
use trust_the_people.Block.{Block}
use trust_the_people.Tests.Data.{hundredths}
use trust_the_people.Consensus.ValidatorSet
use trust_the_people.Consensus.ValidatorSet.{ValidatorSet}
use trust_the_people.Consensus.ValidatorSet.Consistency
use trust_the_people.Consensus.ValidatorSet.Consistency.{IsConsistent}
use trust_the_people.Consensus.ProofOfAuthority
use trust_the_people.Consensus.ProofOfAuthority.{ProofOfAuthority}
use trust_the_people.Consensus.ProofOfAuthority.Turns.{
  get_block_producer-turn, get_block_producer-perm,
}
use trust_the_people.Consensus.ProofOfAuthority.Timing.{validate_block_iff}
use trust_the_people.Consensus.ProofOfAuthority.Rivalry.{can_produce_block-rejected}
use trust_the_people.Consensus.ProofOfAuthority.Quorum.{
  repeat_signature, is_finalized-repeat_signature,
}
use trust_the_people.Consensus.Finality
use trust_the_people.Consensus.Finality.{FinalityTracker, FinalityInfo, finalized, pending}
use trust_the_people.Consensus.Finality.Progress
use trust_the_people.Consensus.Finality.Progress.{
  signers, check_finality-status, check_finality-signers,
}

abbrev three : ProofOfAuthority
three = ProofOfAuthority.new (ValidatorSet.new 1000 (3 ∷ 5 ∷ 9 ∷ []))

abbrev shuffled : ProofOfAuthority
shuffled = ProofOfAuthority.new (ValidatorSet.new 1000 (5 ∷ 3 ∷ 9 ∷ []))

abbrev block_at : ℕ → ℕ → Block
block_at height validator = record {
  header = record {
    height = height;
    timestamp = 1003;
    previous_hash = 0;
    transactions_root = 0;
    hash = 77;
    validator = validator;
    transaction_count = 0;
  };
  transactions = [];
  signatures =
      record { validator = 3; signature = 1 } ∷ record { validator = 5; signature = 2 } ∷ [];
}

get_block_producer-turn_example :
    (k : ℕ) × (k < ValidatorSet.validator_count three.validator_set)
    × (ProofOfAuthority.get_block_producer three (4 + k) ≡ ok 9)
unfolding ProofOfAuthority.new ValidatorSet.new
get_block_producer-turn_example = get_block_producer-turn three 4 9 refl

get_block_producer-perm_example :
    ProofOfAuthority.get_block_producer three 7 ≡ ProofOfAuthority.get_block_producer shuffled 7
unfolding ProofOfAuthority.new ValidatorSet.new
get_block_producer-perm_example = get_block_producer-perm three shuffled 7 ∣ Permᴰ.swap refl refl ∣₁

validate_block_iff_example : (ProofOfAuthority.validate_block three (block_at 4 5) ≡ ok tt) ↔ (
    (ValidatorSet.is_validator three.validator_set 5 ≡ true)
    × (ProofOfAuthority.get_block_producer three 4 ≡ ok 5))
unfolding ProofOfAuthority.new ValidatorSet.new
validate_block_iff_example = validate_block_iff three (block_at 4 5) (omega arith) (omega arith)

can_produce_block-rejected_example : ProofOfAuthority.validate_block three (block_at 4 9) ≢ ok tt
unfolding ProofOfAuthority.new ValidatorSet.new ProofOfAuthority.can_produce_block
    ProofOfAuthority.get_validator_at_time ValidatorSet.is_validator ValidatorSet.validator_count
    Set.set_insert ProofOfAuthority.sorted_turn sort
can_produce_block-rejected_example =
    can_produce_block-rejected three (block_at 4 9) 1000 (refl, (refl, (refl, tt))) refl
      (omega arith)

is_finalized-repeat_signature_example :
    ProofOfAuthority.is_finalized three
      (repeat_signature (ProofOfAuthority.required_signatures three) (block_at 4 5) 666 0)
    ≡ true
is_finalized-repeat_signature_example = is_finalized-repeat_signature three (block_at 4 5) 666 0

run-IsConsistent_example : IsConsistent (
    Consistency.run (ValidatorSet.new 1000 (3 ∷ 5 ∷ 3 ∷ [])) (
      Consistency.add 1001 9
      ∷ Consistency.remove 3
      ∷ Consistency.remove 3
      ∷ Consistency.produced 5
      ∷ []))
run-IsConsistent_example = Consistency.run-IsConsistent 1000 (3 ∷ 5 ∷ 3 ∷ []) (
    Consistency.add 1001 9
    ∷ Consistency.remove 3
    ∷ Consistency.remove 3
    ∷ Consistency.produced 5
    ∷ [])

abbrev tracker : FinalityTracker ℕ
tracker = Finality.new hundredths 67

check_finality-signers_example :
    ((h : ℕ) (info : FinalityInfo)
      → Map.get (Finality.check_finality hundredths 1004 tracker (block_at 4 5) 2).0.finality_map h
        ≡ some info
      → Progress.IsEntry hundredths h info)
    × (Finality.is_finalized tracker 77 ≡ false
        → Finality.is_finalized
            (Finality.check_finality hundredths 1004 tracker (block_at 4 5) 2).0
            77
          ≡ true
        → (info : FinalityInfo) × (Map.get
              (Finality.check_finality hundredths 1004 tracker (block_at 4 5) 2).0.finality_map
              77
            ≡ some info)
          × (Finality.calculate_required_signatures hundredths tracker 2 ≤ length info.signatures)
          × ((v : ℕ)
              → contains (signers (block_at 4 5).signatures) v ≡ true
              → contains info.signatures v ≡ true))
unfolding Finality.new Map.empty Map.get
check_finality-signers_example =
    check_finality-signers hundredths 1004 tracker (block_at 4 5) 2 (λ h info e. absurd (cc e))
