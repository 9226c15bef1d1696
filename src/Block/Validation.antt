-- ===== src/Block/Validation.antt =====
-- Which blocks are valid, and which link to a previous one.
use trust_the_people.Prelude.{ℕ, ◌≤◌, ◌≡◌, refl, ◌↔◌, List, [], ◌∷◌, arith, length, All}
use trust_the_people.Result.{ok, >>-eq-ok}
use trust_the_people.Digest.{zero_hash}
use trust_the_people.Merkle.Levels.{new_lem}
use trust_the_people.Transaction
use trust_the_people.Transaction.{Transaction, TransactionType}
use trust_the_people.Block.{
  Block, BlockHeader, tx_ids, as_u32, next_height, add_signature, validate_chain_link,
  calculate_transactions_root, calculate_hash, header_bytes, new, validate_transactions, validate,
}

-- A block that follows another.
pub record Follows (b previous : Block) : Type 0 where
  pub height : b.header.height ≡ next_height previous.header.height
  pub previous_hash : b.header.previous_hash ≡ previous.header.hash
  pub timestamp : previous.header.timestamp ≤ b.header.timestamp

-- A link is accepted exactly when the height is the next one, the hash of the previous block is named
-- and the time does not go back.
pub validate_chain_link_iff :
    (b previous : Block) → (validate_chain_link b previous ≡ ok tt) ↔ Follows b previous
unfolding validate_chain_link
validate_chain_link_iff b previous = (
  λ h. record { height = ground arith; previous_hash = ground arith; timestamp = ground arith },
  λ f. ground (arith, f.height, f.previous_hash, f.timestamp),
)

module _ (blake2b : List ℕ → ℕ) where
  -- The root of a list of transactions is computed without a panic.
  pub calculate_transactions_root-ok :
      (txs : List Transaction) → (r : ℕ) × (calculate_transactions_root blake2b txs ≡ ok r)
  unfolding calculate_transactions_root
  calculate_transactions_root-ok [] = (zero_hash, refl)
  calculate_transactions_root-ok (tx ∷ txs) =
      let (t, e, leaves, levels, last) = new_lem blake2b tx.id (tx_ids txs) in (t.root, rw e)

module _ (blake2b : List ℕ → ℕ) (serialize : TransactionType → List ℕ) where
  abbrev pub IsValidTx : Transaction → Type 0
  IsValidTx tx = Transaction.validate blake2b serialize tx ≡ ok tt

  pub validate_transactions_iff :
      (txs : List Transaction)
      → (validate_transactions blake2b serialize txs ≡ ok tt) ↔ All IsValidTx txs
  unfolding validate_transactions
  validate_transactions_iff [] = (λ h. tt, λ h. refl)
  validate_transactions_iff (tx ∷ txs) =
      let ih = validate_transactions_iff txs in
      (λ h. let (p, q) = >>-eq-ok _ _ h in (p, ih.0 q), λ h. rw (h.0, ih.1 h.1))

  pub record IsValid (b : Block) : Type 0 where
    pub hash : b.header.hash ≡ calculate_hash blake2b b.header
    pub count : b.header.transaction_count ≡ as_u32 (length b.transactions)
    pub root : calculate_transactions_root blake2b b.transactions ≡ ok b.header.transactions_root
    pub transactions : All IsValidTx b.transactions

  -- A block is valid exactly when its hash is the hash of its header, its header counts and commits to
  -- its transactions, and each transaction is valid.
  pub validate-IsValid : (b : Block) → (validate blake2b serialize b ≡ ok tt) ↔ IsValid b
  unfolding validate
  validate-IsValid b =
      let (r, e) = calculate_transactions_root-ok blake2b b.transactions in
      let txs = validate_transactions_iff b.transactions in
      (
        λ h. record {
          hash = ground (arith, e);
          count = ground (arith, e);
          root = ground (arith, e);
          transactions = txs.0 (ground (arith, e));
        },
        λ v. ground (arith, v.hash, v.count, v.root, txs.1 v.transactions),
      )

  -- A block that `Block::new` makes over valid transactions is made without a panic and is valid.
  pub new-IsValid :
      (timestamp height previous_hash validator : ℕ) (txs : List Transaction)
      → All IsValidTx txs
      → (b : Block) × (new blake2b timestamp height previous_hash txs validator ≡ ok b)
        × (b.header.timestamp ≡ timestamp)
        × (b.header.height ≡ height)
        × (b.header.previous_hash ≡ previous_hash)
        × (b.header.validator ≡ validator)
        × (b.transactions ≡ txs)
        × IsValid b
  unfolding new calculate_hash header_bytes
  new-IsValid timestamp height previous_hash validator txs valid =
      let (r, e) = calculate_transactions_root-ok blake2b txs in
      let header : BlockHeader = record {
        height = height;
        timestamp = timestamp;
        previous_hash = previous_hash;
        transactions_root = r;
        hash = zero_hash;
        validator = validator;
        transaction_count = as_u32 (length txs);
      } in
      let b : Block = record {
        header = record header { hash = calculate_hash blake2b header };
        transactions = txs;
        signatures = [];
      } in
      (
        b,
        rw e,
        refl,
        refl,
        refl,
        refl,
        refl,
        record { hash = refl; count = refl; root = e; transactions = valid },
      )

  -- A signature more leaves a block as valid as it was.
  pub add_signature-validate :
      (b : Block) (validator signature : ℕ)
      → validate blake2b serialize (add_signature b validator signature)
        ≡ validate blake2b serialize b
  unfolding add_signature validate
  add_signature-validate b validator signature = refl
