-- ===== src/Chain/Pruning.antt =====
-- `prune_old_blocks` removes blocks from the vector, but the heights that index it stay as they were.
use trust_the_people.Prelude.{
  ℕ, ◌+◌, ◌<◌, ◌≡◌, refl, none, List, [], ◌∷◌, arith, le→leb, length, get_elem?,
  get_elem?-out_of_range,
}
use trust_the_people.Result.{ok, panic}
use trust_the_people.Map
use trust_the_people.Map.{Map}
use trust_the_people.Merkle.{index}
use trust_the_people.Transaction.{TransactionType}
use trust_the_people.Block.{Block}
use trust_the_people.Chain.{
  Blockchain, unindex_transactions, prune_loop, prune_old_blocks, get_block_by_height,
}
use trust_the_people.Chain.Invariant.{IsWellFormed}

prune_loop_counts :
    (before : ℕ) (hashes txs : Map ℕ) (bs : List Block)
    → length (prune_loop before hashes txs bs).kept + (prune_loop before hashes txs bs).count
      ≡ length bs
unfolding prune_loop
prune_loop_counts before hashes txs [] = refl
prune_loop_counts before hashes txs (b ∷ bs) = ground (
  arith,
  prune_loop_counts before hashes txs bs,
  prune_loop_counts before (Map.remove hashes b.header.hash)
      (unindex_transactions txs b.transactions) bs,
)

-- What a prune leaves: the height, and as many blocks less as it says it removed.
prune_old_blocks_lem :
    (bs : List Block) (c d : Blockchain) (before n : ℕ)
    → c.blocks ≡ bs
    → prune_old_blocks c before ≡ ok (d, n)
    → (length d.blocks + n ≡ length c.blocks) × (d.height ≡ c.height)
unfolding prune_old_blocks
prune_old_blocks_lem [] c d before n q e = ground (arith, q)
prune_old_blocks_lem (g ∷ rest) c d before n q e =
    ground (arith, q, prune_loop_counts before c.hash_to_height c.tx_to_block rest)

-- Pruning that removes a block of a well-formed chain leaves a chain whose own height cannot be looked
-- up any more: the index is out of range, and the lookup panics.
pub prune_old_blocks-panic :
    (blake2b : List ℕ → ℕ) (serialize : TransactionType → List ℕ) (c d : Blockchain) (before n : ℕ)
    → IsWellFormed blake2b serialize c
    → prune_old_blocks c before ≡ ok (d, n)
    → 0 < n
    → get_block_by_height d d.height ≡ panic
unfolding get_block_by_height
prune_old_blocks-panic blake2b serialize c d before n w e h =
    let (l, q) = prune_old_blocks_lem c.blocks c d before n refl e in
    let full = w.length_height in
    let gone : get_elem? d.blocks d.height ≡ none =
      get_elem?-out_of_range d.blocks d.height (omega arith) in
    rw (le→leb d.height d.height (omega arith), index, gone)
