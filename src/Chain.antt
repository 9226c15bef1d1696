-- ===== src/Chain.antt =====
-- crates/blockchain-core/src/chain.rs: the chain of blocks with its two indices.
-- A block height that the source casts to `usize` is used as it is: both have 64 bits.
pub mod Indices
pub mod Extension
pub mod Invariant
pub mod Reachable
pub mod Lookup
pub mod Stats
pub mod Pruning
pub mod History
pub mod Repetition
use trust_the_people.Prelude.{
  ℕ, zero, suc, ◌+◌, ◌-◌, Bool, not, ◌||◌, Option, none, some, List, [], ◌∷◌, ◌++◌, ltb, leb, ◌==◌,
  if◌then◌else◌, length, last?, find, filter, flat_map,
}
use trust_the_people.Result.{
  fmt, text, invalid_block, genesis_error, duplicate_transaction, block_not_found, Result, ok, err,
  panic, ◌>>=◌, ◌>>◌, reject_if,
}
use trust_the_people.Digest.{zero_hash}
use trust_the_people.Map
use trust_the_people.Map.{Map}
use trust_the_people.Merkle.{index}
use trust_the_people.Transaction.{Transaction, TransactionType}
use trust_the_people.Block
use trust_the_people.Block.{Block}
use trust_the_people.Genesis
use trust_the_people.Genesis.{GenesisBlock}

pub record Blockchain : Type 0 where
  pub blocks : List Block
  pub hash_to_height : Map ℕ
  pub tx_to_block : Map ℕ
  pub height : ℕ
  pub genesis_hash : ℕ

-- `for tx in … { tx_to_block.insert(tx.id, height); }`
unfoldable pub index_transactions : Map ℕ → List Transaction → ℕ → Map ℕ
index_transactions m [] height = m
index_transactions m (tx ∷ txs) height = index_transactions (Map.insert m tx.id height) txs height

-- `for tx in … { tx_to_block.remove(&tx.id); }`
unfoldable pub unindex_transactions : Map ℕ → List Transaction → Map ℕ
unindex_transactions m [] = m
unindex_transactions m (tx ∷ txs) = unindex_transactions (Map.remove m tx.id) txs

-- `blocks.last().expect(…)`
unfoldable pub latest_block : Blockchain → Result Block
latest_block c = elim (last? c.blocks) [ none ↦ panic | some b ↦ ok b ]

unfoldable pub get_block_by_height : Blockchain → ℕ → Result (Option Block)
get_block_by_height c height =
    if leb height c.height then (index c.blocks height >>= λ block. ok (some block)) else ok none

unfoldable pub get_block_by_hash : Blockchain → ℕ → Result (Option Block)
get_block_by_hash c hash = elim (Map.get c.hash_to_height hash) [
  | none ↦ ok none
  | some height ↦ get_block_by_height c height
]

unfoldable pub get_transaction : Blockchain → ℕ → Result (Option Transaction)
get_transaction c tx_id = elim (Map.get c.tx_to_block tx_id) [
  | none ↦ ok none
  | some height ↦ do
    block ← get_block_by_height c height
    ok (elim block [ none ↦ none | some b ↦ Block.get_transaction b tx_id ])
]

unfoldable pub get_transaction_block_height : Blockchain → ℕ → Option ℕ
get_transaction_block_height c tx_id = Map.get c.tx_to_block tx_id

unfoldable pub contains_transaction : Blockchain → ℕ → Bool
contains_transaction c tx_id = Map.contains_key c.tx_to_block tx_id

-- `for tx in &block.transactions { if self.contains_transaction(&tx.id) { return Err(…); } }`
unfoldable pub reject_duplicates : Blockchain → List Transaction → Result (Unit {0})
reject_duplicates c [] = ok tt
reject_duplicates c (tx ∷ txs) = do
  reject_if (contains_transaction c tx.id) (duplicate_transaction tx.id)
  reject_duplicates c txs

-- What `add_block` writes once its checks have passed.
unfoldable pub append_block : Blockchain → Block → Blockchain
append_block c b = record {
  blocks = c.blocks ++ b ∷ [];
  hash_to_height = Map.insert c.hash_to_height b.header.hash b.header.height;
  tx_to_block = index_transactions c.tx_to_block b.transactions b.header.height;
  height = b.header.height;
  genesis_hash = c.genesis_hash;
}

abbrev pub take : ℕ → List Block → List Block
take zero bs = []
take (suc n) [] = []
take (suc n) (b ∷ bs) = b ∷ take n bs

abbrev pub drop : ℕ → List Block → List Block
drop zero bs = bs
drop (suc n) [] = []
drop (suc n) (b ∷ bs) = drop n bs

-- The slice `blocks[start..=end]`, where `start ≤ end`.
unfoldable pub get_blocks_range : Blockchain → ℕ → ℕ → Result (List Block)
get_blocks_range c start end =
    if ltb end start || ltb c.height end
    then ok []
    else if leb (length c.blocks) end
    then panic
    else ok (take (end + 1 - start) (drop start c.blocks))

unfoldable pub get_blocks_by_validator : Blockchain → ℕ → List Block
get_blocks_by_validator c validator = filter (λ b. b.header.validator == validator) c.blocks

unfoldable pub get_all_transactions : Blockchain → List Transaction
get_all_transactions c = flat_map (λ b. b.transactions) c.blocks

unfoldable pub get_transactions_in_range : Blockchain → ℕ → ℕ → Result (List Transaction)
unfolding get_blocks_range
get_transactions_in_range c start end = do
  blocks ← get_blocks_range c start end
  ok (flat_map (λ b. b.transactions) blocks)

unfoldable pub transaction_count : Blockchain → ℕ
transaction_count c = Map.len c.tx_to_block

unfoldable pub validator_count : Blockchain → ℕ
validator_count c = 0

unfoldable pub active_validator_count : Blockchain → ℕ
active_validator_count c = 0

unfoldable pub active_election_count : Blockchain → ℕ
active_election_count c = 0

-- One round of the loop of `prune_old_blocks`, over the indices and the blocks still to visit; the
-- result holds the blocks kept, the two indices and the number of blocks pruned.
pub record Pruned : Type 0 where
  pub kept : List Block
  pub hashes : Map ℕ
  pub txs : Map ℕ
  pub count : ℕ

unfoldable pub prune_loop : ℕ → Map ℕ → Map ℕ → List Block → Pruned
prune_loop before hashes txs [] = record { kept = []; hashes = hashes; txs = txs; count = 0 }
prune_loop before hashes txs (b ∷ bs) =
    let keep : Pruned =
      let r = prune_loop before hashes txs bs in
      record { kept = b ∷ r.kept; hashes = r.hashes; txs = r.txs; count = r.count } in
    let dropped : Pruned =
      let r =
        prune_loop before (Map.remove hashes b.header.hash)
          (unindex_transactions txs b.transactions) bs in
      record { kept = r.kept; hashes = r.hashes; txs = r.txs; count = r.count + 1 } in
    if leb before b.header.timestamp then keep else dropped

-- The chain after pruning, and the number of blocks pruned.
unfoldable pub prune_old_blocks : Blockchain → ℕ → Result (Blockchain × ℕ)
prune_old_blocks c before_timestamp = elim c.blocks [
  | [] ↦ panic
  | genesis ∷ rest ↦
      let r = prune_loop before_timestamp c.hash_to_height c.tx_to_block rest in
      ok (
        record c { blocks = genesis ∷ r.kept; hash_to_height = r.hashes; tx_to_block = r.txs },
        r.count,
      )
]

unfoldable pub get_block_at_height : Blockchain → ℕ → Result Block
get_block_at_height c height = elim (find (λ b. b.header.height == height) c.blocks) [
  | none ↦ err (block_not_found (fmt "{}" (height ∷ [])))
  | some b ↦ ok b
]

unfoldable pub get_best_block : Blockchain → Result Block
get_best_block c = elim (last? c.blocks) [
  | none ↦ err (block_not_found (text "No blocks in chain"))
  | some b ↦ ok b
]

module _ (blake2b : List ℕ → ℕ) (serialize : TransactionType → List ℕ) where
  -- `Blockchain::new`, at the time of the call.
  unfoldable pub new : {F : Type 0} → ℕ → GenesisBlock F → Result Blockchain
  new current_timestamp genesis = do
    block ← Genesis.create_block blake2b serialize current_timestamp genesis
    ok (record {
      blocks = block ∷ [];
      hash_to_height = Map.insert Map.empty block.header.hash 0;
      tx_to_block = index_transactions Map.empty block.transactions 0;
      height = 0;
      genesis_hash = block.header.hash;
    })

  -- A failed check leaves the chain as it was.
  unfoldable pub add_block : Blockchain → Block → Result Blockchain
  unfolding latest_block reject_duplicates append_block
  add_block c b = do
    Block.validate blake2b serialize b
    latest ← latest_block c
    Block.validate_chain_link b latest
    reject_duplicates c b.transactions
    ok (append_block c b)

  -- The loop of `verify` over the blocks after `previous`.
  unfoldable pub verify_from : Block → List Block → Result (Unit {0})
  verify_from previous [] = ok tt
  verify_from previous (current ∷ rest) = do
    Block.validate blake2b serialize current
    Block.validate_chain_link current previous
    verify_from current rest

  unfoldable pub verify_blocks : List Block → Result (Unit {0})
  unfolding verify_from
  verify_blocks [] = err (invalid_block (text "Blockchain is empty"))
  verify_blocks (genesis ∷ rest) = do
    reject_if (not (genesis.header.height == 0)) (genesis_error (text "Genesis height must be 0"))
    reject_if (not (genesis.header.previous_hash == zero_hash))
        (genesis_error (text "Genesis must have zero previous hash"))
    Block.validate blake2b serialize genesis
    verify_from genesis rest

  unfoldable pub verify : Blockchain → Result (Unit {0})
  unfolding verify_blocks
  verify c = verify_blocks c.blocks
