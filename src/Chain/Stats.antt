-- ===== src/Chain/Stats.antt =====
-- crates/blockchain-core/src/chain.rs: the statistics of a chain, and the two queries for validators
-- that answer with nothing. A `u64` cast to `f64` is `of_usize`, since `usize` has 64 bits.
use trust_the_people.Prelude.{
  ℕ, ◌+◌, ◌≡◌, refl, ap, String, Bool, Option, none, some, List, [], arith, length, last?,
  last?-get_elem?, ltb, if◌then◌else◌,
}
use trust_the_people.Result.{Result, ok, panic, ◌>>=◌}
use trust_the_people.Float.{Float64}
use trust_the_people.Transaction.{TransactionType}
use trust_the_people.Block.{Block}
use trust_the_people.Chain.{Blockchain, latest_block, transaction_count, get_block_by_height}
use trust_the_people.Chain.Invariant.{IsWellFormed}
use trust_the_people.Chain.Lookup.{by_height, latest_of}

pub record ValidatorInfo : Type 0 where
  pub address : ℕ
  pub public_key : ℕ
  pub stake : ℕ
  pub is_active : Bool
  pub registered_at_height : ℕ
  pub blocks_produced : ℕ
  pub last_block_height : Option ℕ

pub record ValidatorSet : Type 0 where
  pub validators : List ValidatorInfo

unfoldable pub get_validator_set_at_height : Blockchain → ℕ → Result ValidatorSet
get_validator_set_at_height c height = ok (record { validators = [] })

unfoldable pub get_validator_by_address : Blockchain → String → Option ValidatorInfo
get_validator_by_address c address = none

pub record BlockchainStats (F : Type 0) : Type 0 where
  pub height : ℕ
  pub total_blocks : ℕ
  pub total_transactions : ℕ
  pub avg_tx_per_block : F
  pub genesis_hash : ℕ
  pub latest_block_hash : ℕ
  pub latest_block_timestamp : ℕ

module _ (f : Float64) where
  open f use {F}

  unfoldable pub stats_of : Blockchain → Block → BlockchainStats F
  stats_of c latest =
      let total_blocks = length c.blocks in
      let total_transactions = transaction_count c in
      record {
        height = c.height;
        total_blocks = total_blocks;
        total_transactions = total_transactions;
        avg_tx_per_block =
            if ltb 0 total_blocks
            then f.div (f.of_usize total_transactions) (f.of_usize total_blocks)
            else f.decimal 0 0;
        genesis_hash = c.genesis_hash;
        latest_block_hash = latest.header.hash;
        latest_block_timestamp = latest.header.timestamp;
      }

  unfoldable pub get_stats : Blockchain → Result (BlockchainStats F)
  unfolding stats_of
  get_stats c = latest_block c >>= λ latest. ok (stats_of c latest)

get_stats_of :
    (f : Float64) (c : Blockchain) (b : Block)
    → last? c.blocks ≡ some b
    → get_stats f c ≡ ok (stats_of f c b)
unfolding get_stats latest_block
get_stats_of f c b e =
    ap (λ o. elim o [ none ↦ panic | some x ↦ ok x ] >>= λ x. ok (stats_of f c x)) e

module _ (blake2b : List ℕ → ℕ) (serialize : TransactionType → List ℕ) (c : Blockchain)
    (w : IsWellFormed blake2b serialize c) where
  -- The statistics of a well-formed chain are given without a panic: one block more than its height,
  -- and the hash and timestamp of the block that is found at its height.
  pub get_stats-latest :
      (f : Float64)
      → (s : BlockchainStats f.F) × (b : Block) × (get_stats f c ≡ ok s)
        × (s.total_blocks ≡ s.height + 1)
        × (get_block_by_height c s.height ≡ ok (some b))
        × (s.latest_block_hash ≡ b.header.hash)
        × (s.latest_block_timestamp ≡ b.header.timestamp)
  unfolding stats_of
  get_stats-latest f =
      let (b, e) = latest_of blake2b serialize c w in
      let at = last?-get_elem? c.blocks b c.height e w.length_height in
      let found = by_height blake2b serialize c w c.height b at in
      (stats_of f c b, b, get_stats_of f c b e, omega (arith, w.length_height), found, refl, refl)
