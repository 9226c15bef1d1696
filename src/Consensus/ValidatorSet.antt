-- ===== src/Consensus/ValidatorSet.antt =====
-- crates/blockchain-core/src/consensus/validator_set.rs. The time of a call is an argument.
pub mod Consistency
use trust_the_people.Prelude.{
  ℕ, ◌+◌, ◌-◌, ◌%◌, ◌^◌, Bool, true, false, not, Option, none, some, List, [], ◌∷◌, ◌++◌, map, ◌==◌,
  length, get_elem?, filter, contains, sum,
}
use trust_the_people.Result.{
  ◌>>=◌, ◌>>◌, fmt, consensus_error, invalid_validator, Result, ok, err, reject_if,
}
use trust_the_people.Map
use trust_the_people.Map.{Map}
use trust_the_people.Set.{set_insert, set_remove}

pub record ValidatorInfo : Type 0 where
  pub public_key : ℕ
  pub added_at : ℕ
  pub blocks_produced : ℕ
  pub blocks_validated : ℕ
  pub is_active : Bool

pub record ValidatorSet : Type 0 where
  pub validators : List ℕ
  pub validator_map : Map ValidatorInfo
  pub validator_set : List ℕ

pub record ValidatorSetStats : Type 0 where
  pub total_validators : ℕ
  pub active_validators : ℕ
  pub inactive_validators : ℕ
  pub total_blocks_produced : ℕ
  pub total_blocks_validated : ℕ

-- The information of a validator that joins.
unfoldable pub new_info : ℕ → ℕ → ValidatorInfo
new_info now validator = record {
  public_key = validator;
  added_at = now;
  blocks_produced = 0;
  blocks_validated = 0;
  is_active = true;
}

-- The loop of `new`: the map and the set, filled from the list.
unfoldable pub fill_map : ℕ → Map ValidatorInfo → List ℕ → Map ValidatorInfo
unfolding new_info
fill_map now m [] = m
fill_map now m (v ∷ vs) = fill_map now (Map.insert m v (new_info now v)) vs

unfoldable pub fill_set : List ℕ → List ℕ → List ℕ
fill_set s [] = s
fill_set s (v ∷ vs) = fill_set (set_insert s v) vs

unfoldable pub new : ℕ → List ℕ → ValidatorSet
unfolding fill_map fill_set
new now validators = record {
  validators = validators;
  validator_map = fill_map now Map.empty validators;
  validator_set = fill_set [] validators;
}

unfoldable pub empty : ValidatorSet
empty = record { validators = []; validator_map = Map.empty; validator_set = [] }

unfoldable pub is_validator : ValidatorSet → ℕ → Bool
is_validator s validator = contains s.validator_set validator

unfoldable pub validator_count : ValidatorSet → ℕ
validator_count s = length s.validators

unfoldable pub get_validator_by_index : ValidatorSet → ℕ → Option ℕ
get_validator_by_index s i = get_elem? s.validators i

unfoldable pub get_validator_info : ValidatorSet → ℕ → Option ValidatorInfo
get_validator_info s validator = Map.get s.validator_map validator

unfoldable pub add_validator : ℕ → ValidatorSet → ℕ → Result ValidatorSet
unfolding new_info
add_validator now s validator = do
  reject_if (is_validator s validator)
      (consensus_error (fmt "Validator {} already exists" (validator ∷ [])))
  ok (record {
    validators = s.validators ++ validator ∷ [];
    validator_map = Map.insert s.validator_map validator (new_info now validator);
    validator_set = set_insert s.validator_set validator;
  })

unfoldable pub remove_validator : ValidatorSet → ℕ → Result ValidatorSet
remove_validator s validator = do
  reject_if (not (is_validator s validator))
      (invalid_validator (fmt "Validator {} not found" (validator ∷ [])))
  ok (record {
    validators = filter (λ v. not (v == validator)) s.validators;
    validator_map = Map.remove s.validator_map validator;
    validator_set = set_remove s.validator_set validator;
  })

-- A write through `get_validator_info_mut`.
unfoldable pub update_info :
    ValidatorSet → ℕ → (ValidatorInfo → ValidatorInfo) → Result ValidatorSet
update_info s validator change = elim (get_validator_info s validator) [
  | none ↦ err (invalid_validator (fmt "Validator {} not found" (validator ∷ [])))
  | some info ↦ ok (record s { validator_map = Map.insert s.validator_map validator (change info) })
]

-- `n += 1` at a `u64` in a release build.
abbrev pub bump_u64 : ℕ → ℕ
bump_u64 n = (n + 1) % 2 ^ 64

unfoldable pub record_block_produced : ValidatorSet → ℕ → Result ValidatorSet
unfolding update_info
record_block_produced s validator =
    update_info s validator
      (λ info. record info { blocks_produced = bump_u64 info.blocks_produced })

unfoldable pub record_block_validated : ValidatorSet → ℕ → Result ValidatorSet
unfolding update_info
record_block_validated s validator =
    update_info s validator
      (λ info. record info { blocks_validated = bump_u64 info.blocks_validated })

unfoldable pub set_validator_active : ValidatorSet → ℕ → Bool → Result ValidatorSet
unfolding update_info
set_validator_active s validator active =
    update_info s validator (λ info. record info { is_active = active })

unfoldable pub is_active : ValidatorSet → ℕ → Bool
is_active s validator = elim (Map.get s.validator_map validator) [
  | none ↦ false
  | some info ↦ info.is_active
]

unfoldable pub active_validators : ValidatorSet → List ℕ
active_validators s = filter (is_active s) s.validators

unfoldable pub active_validator_count : ValidatorSet → ℕ
active_validator_count s = length (active_validators s)

-- Sums of `u64` counters wrap in a release build.
unfoldable pub total_blocks_produced : ValidatorSet → ℕ
total_blocks_produced s = sum (map (λ i. i.blocks_produced) (Map.values s.validator_map)) % 2 ^ 64

unfoldable pub total_blocks_validated : ValidatorSet → ℕ
total_blocks_validated s = sum (map (λ i. i.blocks_validated) (Map.values s.validator_map)) % 2 ^ 64

unfoldable pub get_stats : ValidatorSet → ValidatorSetStats
get_stats s = record {
  total_validators = validator_count s;
  active_validators = active_validator_count s;
  inactive_validators = validator_count s - active_validator_count s;
  total_blocks_produced = total_blocks_produced s;
  total_blocks_validated = total_blocks_validated s;
}
