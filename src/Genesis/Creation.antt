-- ===== src/Genesis/Creation.antt =====
-- The genesis block: it is valid, starts the chain, and does not depend on when it is made.
use trust_the_people.Prelude.{
  ℕ, suc, ◌+◌, ◌<◌, String, ◌≡◌, refl, sym, ap, ◌∙◌, ◌≢◌, List, [], ◌∷◌, arith, length, All,
}
use trust_the_people.Result.{ok}
use Prim.Native.String.append
use Prim.Native.String.{◌++◌ as str_append}
use trust_the_people.Digest.{zero_hash}
use trust_the_people.Transaction.{TransactionType}
use trust_the_people.Transaction.Validation.{new_with_params-validate}
use trust_the_people.Block
use trust_the_people.Block.{Block, BlockHeader, as_u32}
use trust_the_people.Block.Validation.{IsValidTx, IsValid, calculate_transactions_root-ok}
use trust_the_people.Genesis.{GenesisBlock, show, registration, registrations, create_block}

named : (s : String) → str_append "Genesis Validator " s ≢ ""
named s e = let p = sym (append.cons "G" "enesis Validator " s) ∙ e in cc

module _ (blake2b : List ℕ → ℕ) (serialize : TransactionType → List ℕ) where
  registrations-valid :
      (t i : ℕ) (vs : List ℕ)
      → All (IsValidTx blake2b serialize) (registrations blake2b serialize t i vs)
  unfolding registrations registration
  registrations-valid t i [] = tt
  registrations-valid t i (v ∷ vs) = (
    (new_with_params-validate blake2b serialize _ t i).1 (named (show (i + 1))),
    registrations-valid t (i + 1) vs,
  )

  length-registrations :
      (t i : ℕ) (vs : List ℕ) → length (registrations blake2b serialize t i vs) ≡ length vs
  unfolding registrations
  length-registrations t i [] = refl
  length-registrations t i (v ∷ vs) = ap suc (length-registrations t (i + 1) vs)

  -- What a genesis block is.
  pub record IsGenesisOf {F : Type 0} (g : GenesisBlock F) (b : Block) : Type 0 where
    pub valid : IsValid blake2b serialize b
    pub height : b.header.height ≡ 0
    pub previous_hash : b.header.previous_hash ≡ zero_hash
    pub timestamp : b.header.timestamp ≡ g.timestamp
    pub transactions : b.transactions ≡ registrations blake2b serialize g.timestamp 0 g.validators

  genesis_header : ℕ → ℕ → ℕ → ℕ → BlockHeader
  genesis_header t r v n = record {
    height = 0;
    timestamp = t;
    previous_hash = zero_hash;
    transactions_root = r;
    hash = zero_hash;
    validator = v;
    transaction_count = n;
  }

  rehashed : BlockHeader → BlockHeader
  rehashed h = record h { hash = Block.calculate_hash blake2b h }

  module _ {F : Type 0} where
    created :
        (now later : ℕ) (g : GenesisBlock F) (vs : List ℕ)
        → g.validators ≡ vs
        → 0 < length vs
        → (b : Block) × (create_block blake2b serialize now g ≡ ok b)
          × IsGenesisOf g b
          × (create_block blake2b serialize later g ≡ ok b)
    unfolding create_block Block.new Block.calculate_hash Block.header_bytes genesis_header rehashed
    created now later g [] e h = absurd (omega arith)
    created now later g (v ∷ vs) e h =
        let txs = registrations blake2b serialize g.timestamp 0 (v ∷ vs) in
        let (r, er) = calculate_transactions_root-ok blake2b txs in
        let b : Block = record {
          header = rehashed (genesis_header g.timestamp r v (as_u32 (length txs)));
          transactions = txs;
          signatures = [];
        } in
        (
          b,
          ground (arith, e, er),
          record {
            valid = record {
              hash = refl;
              count = refl;
              root = er;
              transactions = registrations-valid g.timestamp 0 (v ∷ vs);
            };
            height = refl;
            previous_hash = refl;
            timestamp = refl;
            transactions = rw e refl;
          },
          ground (arith, e, er),
        )

    -- With at least one validator a block is created at any time, without a panic. It is valid, has
    -- height 0, the zero previous hash and the configured time, and registers each validator in order;
    -- and a block created at another time is the same block.
    pub create_block-IsGenesisOf :
        (now later : ℕ) (g : GenesisBlock F)
        → 0 < length g.validators
        → (b : Block) × (create_block blake2b serialize now g ≡ ok b)
          × IsGenesisOf g b
          × (create_block blake2b serialize later g ≡ ok b)
    create_block-IsGenesisOf now later g h = created now later g g.validators refl h
