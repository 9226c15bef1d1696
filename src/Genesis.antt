-- ===== src/Genesis.antt =====
-- crates/blockchain-core/src/genesis.rs: the genesis configuration, its builder and its block.
-- Reading and writing of JSON files is left out.
pub mod Creation
use trust_the_people.Prelude.{
  ℕ, zero, suc, ◌+◌, ◌-◌, ◌*◌, ◌/◌, ◌%◌, String, ◌||◌, Option, none, some, List, [], ◌∷◌, ◌++◌, ltb,
  ◌==◌, if◌then◌else◌, is_empty,
}
use trust_the_people.Result.{◌>>=◌, ◌>>◌, text, genesis_error, Result, ok, err, reject_if}
use Prim.Native.String.{◌++◌ as str_append}
use trust_the_people.Digest.{zero_hash}
use trust_the_people.Float.{Float64}
use trust_the_people.Transaction
use trust_the_people.Transaction.{
  Transaction, TransactionType, validator_registration, is_empty_string,
}
use trust_the_people.Block
use trust_the_people.Block.{Block, BlockHeader}

pub record GenesisConfig (F : Type 0) : Type 0 where
  pub block_time : ℕ
  pub consensus_threshold : F
  pub max_block_size : ℕ
  pub max_transactions_per_block : ℕ

pub record GenesisBlock (F : Type 0) : Type 0 where
  pub validators : List ℕ
  pub timestamp : ℕ
  pub chain_id : String
  pub network_name : String
  pub config : GenesisConfig F

pub record GenesisBuilder (F : Type 0) : Type 0 where
  pub validators : List ℕ
  pub timestamp : Option ℕ
  pub chain_id : Option String
  pub network_name : Option String
  pub config : GenesisConfig F

unfoldable pub digit : ℕ → String
digit n =
    if n == 0
    then "0"
    else if n == 1
    then "1"
    else if n == 2
    then "2"
    else if n == 3
    then "3"
    else if n == 4
    then "4"
    else if n == 5
    then "5"
    else if n == 6
    then "6"
    else if n == 7
    then "7"
    else if n == 8
    then "8"
    else "9"

-- `{}` of a number: its decimal digits. Its own value is fuel enough for the digits of a number.
unfoldable pub show_digits : ℕ → ℕ → String
unfolding digit
show_digits zero n = digit (n % 10)
show_digits (suc fuel) n =
    let rest = str_append (show_digits fuel (n / 10)) (digit (n % 10)) in
    if ltb n 10 then digit n else rest

unfoldable pub show : ℕ → String
unfolding show_digits
show n = show_digits n n

module _ (f : Float64) where
  open f use {F}

  unfoldable pub default_config : GenesisConfig F
  default_config = record {
    block_time = 5;
    consensus_threshold = f.decimal 67 2;
    max_block_size = 1024 * 1024;
    max_transactions_per_block = 1000;
  }

  unfoldable pub new : List ℕ → ℕ → GenesisBlock F
  unfolding default_config
  new validators timestamp = record {
    validators = validators;
    timestamp = timestamp;
    chain_id = "voting-chain-1";
    network_name = "Voting Network Mainnet";
    config = default_config;
  }

  unfoldable pub validate : GenesisBlock F → Result (Unit {0})
  validate g = do
    reject_if (is_empty g.validators) (genesis_error (text "Must have at least one validator"))
    reject_if (is_empty_string g.chain_id) (genesis_error (text "Chain ID cannot be empty"))
    reject_if (is_empty_string g.network_name) (genesis_error (text "Network name cannot be empty"))
    reject_if (g.config.block_time == 0) (genesis_error (text "Block time must be greater than 0"))
    reject_if
        (f.le g.config.consensus_threshold (f.decimal 0 1)
          || f.lt (f.decimal 10 1) g.config.consensus_threshold)
        (genesis_error (text "Consensus threshold must be between 0 and 1"))
    reject_if (g.config.max_block_size == 0)
        (genesis_error (text "Max block size must be greater than 0"))
    reject_if (g.config.max_transactions_per_block == 0)
        (genesis_error (text "Max transactions per block must be greater than 0"))

  unfoldable pub builder : GenesisBuilder F
  unfolding default_config
  builder = record {
    validators = [];
    timestamp = none;
    chain_id = none;
    network_name = none;
    config = default_config;
  }

  -- `build`, at the time of the call.
  unfoldable pub build : ℕ → GenesisBuilder F → GenesisBlock F
  build current_timestamp b = record {
    validators = b.validators;
    timestamp = elim b.timestamp [ none ↦ current_timestamp | some t ↦ t ];
    chain_id = elim b.chain_id [ none ↦ "voting-chain-1" | some s ↦ s ];
    network_name = elim b.network_name [ none ↦ "Voting Network" | some s ↦ s ];
    config = b.config;
  }

module _ {F : Type 0} where
  unfoldable pub add_validator : GenesisBuilder F → ℕ → GenesisBuilder F
  add_validator b validator = record b { validators = b.validators ++ validator ∷ [] }

  unfoldable pub add_validators : GenesisBuilder F → List ℕ → GenesisBuilder F
  add_validators b validators = record b { validators = b.validators ++ validators }

  unfoldable pub timestamp : GenesisBuilder F → ℕ → GenesisBuilder F
  timestamp b t = record b { timestamp = some t }

  unfoldable pub chain_id : GenesisBuilder F → String → GenesisBuilder F
  chain_id b s = record b { chain_id = some s }

  unfoldable pub network_name : GenesisBuilder F → String → GenesisBuilder F
  network_name b s = record b { network_name = some s }

  unfoldable pub block_time : GenesisBuilder F → ℕ → GenesisBuilder F
  block_time b seconds = record b { config = record b.config { block_time = seconds } }

  unfoldable pub consensus_threshold : GenesisBuilder F → F → GenesisBuilder F
  consensus_threshold b t = record b { config = record b.config { consensus_threshold = t } }

  unfoldable pub max_block_size : GenesisBuilder F → ℕ → GenesisBuilder F
  max_block_size b bytes = record b { config = record b.config { max_block_size = bytes } }

  unfoldable pub max_transactions_per_block : GenesisBuilder F → ℕ → GenesisBuilder F
  max_transactions_per_block b count = record b {
    config = record b.config { max_transactions_per_block = count };
  }

module _ (blake2b : List ℕ → ℕ) (serialize : TransactionType → List ℕ) where
  -- The registration of the validator at place `i`.
  unfoldable pub registration : ℕ → ℕ → ℕ → Transaction
  unfolding show
  registration genesis_timestamp i validator_key =
      Transaction.new_with_params blake2b serialize
        (validator_registration (record {
          validator_key = validator_key;
          metadata = record {
            name = str_append "Genesis Validator " (show (i + 1));
            organization = some "Genesis";
            contact = none;
          };
          authorizing_signature = 0;
        }))
        genesis_timestamp i

  -- The loop over the validators, from place `i` on.
  unfoldable pub registrations : ℕ → ℕ → List ℕ → List Transaction
  registrations genesis_timestamp i [] = []
  registrations genesis_timestamp i (v ∷ vs) =
      registration genesis_timestamp i v ∷ registrations genesis_timestamp (i + 1) vs

  -- The timestamp of a block set anew, and its hash with it.
  unfoldable pub override_timestamp : ℕ → Block → Block
  override_timestamp t b =
      let header : BlockHeader = record b.header { timestamp = t } in
      record b { header = record header { hash = Block.calculate_hash blake2b header } }

  module _ {F : Type 0} where
    -- `create_block`, at the time of the call.
    unfoldable pub create_block : ℕ → GenesisBlock F → Result Block
    unfolding registrations override_timestamp
    create_block current_timestamp g = elim g.validators [
      | [] ↦ err (genesis_error (text "Genesis must have at least one validator"))
      | v ∷ vs ↦ do
        let transactions = registrations g.timestamp 0 (v ∷ vs)
        block ← Block.new blake2b current_timestamp 0 zero_hash transactions v
        ok (override_timestamp g.timestamp block)
    ]

    unfoldable pub calculate_hash : ℕ → GenesisBlock F → Result ℕ
    unfolding create_block
    calculate_hash current_timestamp g = do
      block ← create_block current_timestamp g
      ok (block.header.hash)
