-- ===== src/Block.antt =====
-- crates/blockchain-core/src/block.rs: blocks, their hashes and their validation.
pub mod Validation
pub mod Identity
use trust_the_people.Prelude.{
  ℕ, ◌+◌, ◌%◌, ◌^◌, Bool, true, false, not, Option, none, some, List, [], ◌∷◌, ◌++◌, map, ltb, ◌==◌,
  if◌then◌else◌, length, is_empty, find, any,
}
use trust_the_people.Result.{
  ◌>>=◌, ◌>>◌, fmt, text, invalid_block, invalid_block_hash, invalid_previous_hash,
  block_height_mismatch, Result, ok, reject_if,
}
use trust_the_people.Bytes.{u64_bytes, u32_bytes, as_bytes}
use trust_the_people.Digest.{hash_data, zero_hash}
use trust_the_people.Merkle
use trust_the_people.Transaction
use trust_the_people.Transaction.{Transaction, TransactionType}

pub record ValidatorSignature : Type 0 where
  pub validator : ℕ
  pub signature : ℕ

pub record BlockHeader : Type 0 where
  pub height : ℕ
  pub timestamp : ℕ
  pub previous_hash : ℕ
  pub transactions_root : ℕ
  pub hash : ℕ
  pub validator : ℕ
  pub transaction_count : ℕ

pub record Block : Type 0 where
  pub header : BlockHeader
  pub transactions : List Transaction
  pub signatures : List ValidatorSignature

abbrev pub tx_ids : List Transaction → List ℕ
tx_ids txs = map (λ tx. tx.id) txs

-- `n as u32`
abbrev pub as_u32 : ℕ → ℕ
as_u32 n = n % 2 ^ 32

unfoldable pub add_signature : Block → ℕ → ℕ → Block
add_signature b validator signature = record b {
  signatures = b.signatures ++ record { validator = validator; signature = signature } ∷ [];
}

unfoldable pub has_signature_from : Block → ℕ → Bool
has_signature_from b validator = any (λ s. s.validator == validator) b.signatures

unfoldable pub signature_count : Block → ℕ
signature_count b = length b.signatures

unfoldable pub get_transaction : Block → ℕ → Option Transaction
get_transaction b tx_id = find (λ tx. tx.id == tx_id) b.transactions

unfoldable pub contains_transaction : Block → ℕ → Bool
contains_transaction b tx_id = elim (get_transaction b tx_id) [ none ↦ false | some tx ↦ true ]

-- The bytes that `BlockHeader::calculate_hash` hashes.
unfoldable pub header_bytes : BlockHeader → List ℕ
header_bytes h =
    u64_bytes h.height
    ++ (u64_bytes h.timestamp
        ++ (as_bytes h.previous_hash
            ++ (as_bytes h.transactions_root
                ++ (as_bytes h.validator ++ u32_bytes h.transaction_count))))

-- In a release build `height + 1` wraps at 2 ^ 64.
abbrev pub next_height : ℕ → ℕ
next_height h = (h + 1) % 2 ^ 64

unfoldable pub validate_chain_link : Block → Block → Result (Unit {0})
validate_chain_link b previous = do
  reject_if (not (b.header.height == next_height previous.header.height))
      (block_height_mismatch (next_height previous.header.height) b.header.height)
  reject_if (not (b.header.previous_hash == previous.header.hash)) (
      invalid_previous_hash
        (fmt "Expected {}, got {}" (previous.header.hash ∷ b.header.previous_hash ∷ [])))
  reject_if (ltb b.header.timestamp previous.header.timestamp)
      (invalid_block (text "Block timestamp is before previous block"))

module _ (blake2b : List ℕ → ℕ) where
  unfoldable pub calculate_transactions_root : List Transaction → Result ℕ
  calculate_transactions_root txs =
      if is_empty txs
      then ok zero_hash
      else do tree ← Merkle.new blake2b (tx_ids txs); ok (tree.root)

  unfoldable pub calculate_hash : BlockHeader → ℕ
  calculate_hash h = hash_data blake2b (header_bytes h)

  -- `Block::new`, at the time of the call.
  unfoldable pub new : ℕ → ℕ → ℕ → List Transaction → ℕ → Result Block
  new current_timestamp height previous_hash txs validator = do
    root ← calculate_transactions_root txs
    let header : BlockHeader = record {
      height = height;
      timestamp = current_timestamp;
      previous_hash = previous_hash;
      transactions_root = root;
      hash = zero_hash;
      validator = validator;
      transaction_count = as_u32 (length txs);
    }
    ok (record {
      header = record header { hash = calculate_hash header };
      transactions = txs;
      signatures = [];
    })

module _ (blake2b : List ℕ → ℕ) (serialize : TransactionType → List ℕ) where
  -- `for tx in &self.transactions { tx.validate()?; }`
  unfoldable pub validate_transactions : List Transaction → Result (Unit {0})
  validate_transactions [] = ok tt
  validate_transactions (tx ∷ txs) = do
    Transaction.validate blake2b serialize tx
    validate_transactions txs

  unfoldable pub validate : Block → Result (Unit {0})
  unfolding validate_transactions
  validate b = do
    reject_if (not (b.header.hash == calculate_hash blake2b b.header))
        (invalid_block_hash (calculate_hash blake2b b.header) b.header.hash)
    reject_if (not (b.header.transaction_count == as_u32 (length b.transactions))) (
        invalid_block (
          fmt "Transaction count mismatch: header says {}, actual is {}"
            (b.header.transaction_count ∷ length b.transactions ∷ [])))
    root ← calculate_transactions_root blake2b b.transactions
    reject_if (not (b.header.transactions_root == root))
        (invalid_block (text "Transactions merkle root mismatch"))
    validate_transactions b.transactions
