-- ===== src/Chain/Repetition.antt =====
-- The check for duplicates compares a block with the chain, and not with itself.
use trust_the_people.Prelude.{ℕ, ◌≡◌, none, List, [], ◌∷◌, arith}
use trust_the_people.Result.{ok}
use trust_the_people.Map
use trust_the_people.Map.Laws.{contains_key_of_none}
use trust_the_people.Transaction.{Transaction, TransactionType}
use trust_the_people.Block.{Block, next_height}
use trust_the_people.Block.Validation.{
  IsValidTx, new-IsValid, validate-IsValid, validate_chain_link_iff,
}
use trust_the_people.Chain.{
  Blockchain, append_block, add_block, reject_duplicates, contains_transaction,
}
use trust_the_people.Chain.Extension.{add_block-Accepted}
use trust_the_people.Chain.Invariant.{IsWellFormed}
use trust_the_people.Chain.Lookup.{latest_of}

module _ (blake2b : List ℕ → ℕ) (serialize : TransactionType → List ℕ) (c : Blockchain)
    (tx : Transaction) (w : IsWellFormed blake2b serialize c) where
  pair_passes : Map.get c.tx_to_block tx.id ≡ none → reject_duplicates c (tx ∷ tx ∷ []) ≡ ok tt
  unfolding reject_duplicates contains_transaction
  pair_passes fresh = rw (contains_key_of_none c.tx_to_block tx.id fresh)

  -- To every well-formed chain a block that holds a new valid transaction twice can be added.
  pub add_block-repeats :
      IsValidTx blake2b serialize tx
      → Map.get c.tx_to_block tx.id ≡ none
      → (b : Block) × (b.transactions ≡ tx ∷ tx ∷ [])
        × (add_block blake2b serialize c b ≡ ok (append_block c b))
  add_block-repeats valid fresh =
      let (latest, last) = latest_of blake2b serialize c w in
      let h = latest.header in
      let (b, made, time, height, previous, validator, txs, ok_b) =
        new-IsValid blake2b serialize h.timestamp (next_height h.height) h.hash h.validator
          (tx ∷ tx ∷ []) (valid, (valid, tt)) in
      (
        b,
        txs,
        add_block-Accepted blake2b serialize c b (record {
          latest = latest;
          latest_eq = last;
          valid = (validate-IsValid blake2b serialize b).1 ok_b;
          link =
              (validate_chain_link_iff b latest).1
                (record { height = height; previous_hash = previous; timestamp = omega arith });
          fresh = rw txs (pair_passes fresh);
        }),
      )
