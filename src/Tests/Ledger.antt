-- ===== src/Tests/Ledger.antt =====
-- The theorems of the chain at a chain of two blocks.
use trust_the_people.Prelude.{
  ℕ, ◌≡◌, refl, sym, ap, subst, ◌∙◌, ◌⊎◌, inl, none, some, [], ◌∷◌, arith, length, get_elem?, last?,
  In, All,
}
use trust_the_people.Result.{ok, err, panic}
use trust_the_people.Bytes.{le_bytes, be_bytes}
use trust_the_people.Digest.{Colliding}
use trust_the_people.Map
use trust_the_people.Merkle
use trust_the_people.Transaction
use trust_the_people.Transaction.{Transaction}
use trust_the_people.Block
use trust_the_people.Block.{Block, header_bytes}
use trust_the_people.Block.Identity.{InRange}
use trust_the_people.Genesis
use trust_the_people.Chain
use trust_the_people.Chain.{Blockchain}
use trust_the_people.Chain.Invariant.{IsWellFormed, add_block-IsWellFormed}
use trust_the_people.Chain.Reachable.{
  Reachable, start, extend, new-IsWellFormed, Reachable-IsWellFormed, Reachable-verify,
}
use trust_the_people.Chain.Lookup.{get_transaction-In}
use trust_the_people.Chain.Pruning.{prune_old_blocks-panic}
use trust_the_people.Chain.Repetition.{add_block-repeats}
use trust_the_people.Chain.History.{AgreeFrom, Forgery, latest_hash-binds}
use trust_the_people.Tests.Data.{
  checksum, encode, or_else, genesis, ballot_tx, blank_chain, chain_0, block_1, chain_1,
}

chain_0-made : Chain.new checksum encode 7 genesis ≡ ok chain_0
chain_0-made =
    let (c, e, w) = new-IsWellFormed checksum encode 7 genesis (omega arith) in
    let same : c ≡ chain_0 = ap (λ r. or_else r blank_chain) (sym e) in e ∙ ap ok same

chain_0-IsWellFormed : IsWellFormed checksum encode chain_0
chain_0-IsWellFormed =
    let (c, e, w) = new-IsWellFormed checksum encode 7 genesis (omega arith) in
    subst (IsWellFormed checksum encode) (ap (λ r. or_else r blank_chain) (sym e)) w

abbrev pruned_chain : Blockchain
pruned_chain = elim (Chain.prune_old_blocks chain_1 2000) [
  | ok r ↦ r.0
  | err e ↦ blank_chain
  | panic ↦ blank_chain
]

-- What the two chains compute to.
record Run : Type 0 where
  added : Chain.add_block checksum encode chain_0 block_1 ≡ ok chain_1
  one_block : length chain_0.blocks ≡ 1
  two_blocks : length chain_1.blocks ≡ 2
  second_block : get_elem? chain_1.blocks 1 ≡ some block_1
  last_block : last? chain_1.blocks ≡ some block_1
  unknown : Map.get chain_0.tx_to_block 21502 ≡ none
  valid : Transaction.validate checksum encode ballot_tx ≡ ok tt
  pruned : Chain.prune_old_blocks chain_1 2000 ≡ ok (pruned_chain, 1)

run : Run
unfolding Chain.new Chain.add_block Chain.latest_block Chain.reject_duplicates
    Chain.contains_transaction Chain.index_transactions Genesis.create_block Block.new
    Block.validate Block.calculate_hash header_bytes Block.calculate_transactions_root
    Block.validate_transactions Block.validate_chain_link Merkle.new Merkle.build_tree
    Merkle.levels_above Merkle.build_next_level Merkle.hash_pair Merkle.top Transaction.validate
    Transaction.validate_type Transaction.calculate_id Transaction.serialize_for_hashing
    Transaction.new_with_params le_bytes be_bytes Map.get Map.insert Map.empty Map.contains_key
    Genesis.registration Chain.prune_old_blocks Chain.prune_loop Chain.unindex_transactions
    Map.remove
run = record {
  added = refl;
  one_block = refl;
  two_blocks = refl;
  second_block = refl;
  last_block = refl;
  unknown = refl;
  valid = refl;
  pruned = refl;
}

chain_1-InRange : All (λ (b : Block). InRange b.header) chain_1.blocks
unfolding Chain.new Chain.add_block Chain.latest_block Chain.reject_duplicates
    Chain.contains_transaction Chain.index_transactions Genesis.create_block Block.new
    Block.validate Block.calculate_hash header_bytes Block.calculate_transactions_root
    Block.validate_transactions Block.validate_chain_link Merkle.new Merkle.build_tree
    Merkle.levels_above Merkle.build_next_level Merkle.hash_pair Merkle.top Transaction.validate
    Transaction.validate_type Transaction.calculate_id Transaction.serialize_for_hashing
    Transaction.new_with_params le_bytes be_bytes Map.get Map.insert Map.empty Map.contains_key
    Genesis.registration
chain_1-InRange = (
  record {
    height = omega arith;
    timestamp = omega arith;
    previous_hash = omega arith;
    transactions_root = omega arith;
    validator = omega arith;
    transaction_count = omega arith;
  },
  (
    record {
      height = omega arith;
      timestamp = omega arith;
      previous_hash = omega arith;
      transactions_root = omega arith;
      validator = omega arith;
      transaction_count = omega arith;
    },
    tt,
  ),
)

chain_1-Reachable : Reachable checksum encode genesis chain_1
chain_1-Reachable = extend block_1 (start 7 chain_0-made) run.added

chain_1-IsWellFormed : IsWellFormed checksum encode chain_1
chain_1-IsWellFormed =
    Reachable-IsWellFormed checksum encode genesis chain_1 (omega arith) chain_1-Reachable
      (omega (arith, run.two_blocks))

Reachable-verify_example : Chain.verify checksum encode chain_1 ≡ ok tt
Reachable-verify_example =
    Reachable-verify checksum encode genesis chain_1 (omega arith) chain_1-Reachable
      (omega (arith, run.two_blocks))

add_block-IsWellFormed_example : IsWellFormed checksum encode chain_1
add_block-IsWellFormed_example =
    add_block-IsWellFormed checksum encode chain_0 chain_1 block_1 chain_0-IsWellFormed
      (omega (arith, run.one_block)) run.added

latest_hash-binds_example :
    ((chain_1.height ≡ chain_1.height) × AgreeFrom checksum encode 0 chain_1.blocks chain_1.blocks)
    ⊎ (Forgery checksum encode chain_1.blocks chain_1.blocks
        ⊎ Colliding checksum (header_bytes block_1.header) (header_bytes block_1.header))
latest_hash-binds_example =
    latest_hash-binds checksum encode chain_1 chain_1 block_1 block_1 chain_1-IsWellFormed
      chain_1-IsWellFormed chain_1-InRange chain_1-InRange run.last_block run.last_block refl

get_transaction-In_example :
    (found : Transaction) × (Chain.get_transaction chain_1 21502 ≡ ok (some found))
    × (found.id ≡ 21502)
    × In found (ballot_tx ∷ [])
    × (Chain.get_transaction_block_height chain_1 21502 ≡ some 1)
get_transaction-In_example =
    get_transaction-In checksum encode chain_1 chain_1-IsWellFormed 1 block_1 ballot_tx
      run.second_block (inl refl)

abbrev top_height : ℕ
top_height = 1

prune_old_blocks-panic_example : Chain.get_block_by_height pruned_chain pruned_chain.height ≡ panic
prune_old_blocks-panic_example =
    prune_old_blocks-panic checksum encode chain_1 pruned_chain 2000 1 chain_1-IsWellFormed
      run.pruned (omega arith)

add_block-repeats_example :
    (b : Block) × (b.transactions ≡ ballot_tx ∷ ballot_tx ∷ [])
    × (Chain.add_block checksum encode chain_0 b ≡ ok (Chain.append_block chain_0 b))
add_block-repeats_example =
    add_block-repeats checksum encode chain_0 ballot_tx chain_0-IsWellFormed run.valid run.unknown
