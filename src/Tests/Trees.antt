-- ===== src/Tests/Trees.antt =====
-- The theorems of Merkle trees, transactions, blocks and the genesis block at concrete inputs.
use trust_the_people.Prelude.{
  ℕ, ◌≡◌, refl, ◌↔◌, ◌⊎◌, true, false, some, List, [], ◌∷◌, arith, ==_refl, All,
}
use trust_the_people.Result.{ok, err, panic}
use trust_the_people.Digest.{IsHash, Colliding, CollidingAmong}
use trust_the_people.Bytes.{le_bytes, be_bytes}
use trust_the_people.Merkle
use trust_the_people.Merkle.{MerkleTree, MerkleProof}
use trust_the_people.Merkle.Proofs.{generate_proof-verify_proof}
use trust_the_people.Merkle.Binding.{sibling_hashes, folded_bytes, verify_proof-binds}
use trust_the_people.Merkle.Root.{tree_bytes}
use trust_the_people.Merkle.Duplication.{new-duplicate_last}
use trust_the_people.Transaction
use trust_the_people.Transaction.{Transaction}
use trust_the_people.Transaction.Validation.{new_with_params-validate}
use trust_the_people.Transaction.Identity.{validate-id_binds}
use trust_the_people.Block
use trust_the_people.Block.{Block, BlockHeader, tx_ids, header_bytes}
use trust_the_people.Block.Validation.{IsValid, validate-IsValid}
use trust_the_people.Block.Identity.{InRange, SameContent, validate-hash_binds}
use trust_the_people.Tests.Data.{checksum, checksum-IsHash, encode, ballot, ballot_tx, block_1}

abbrev tree : List ℕ → MerkleTree
tree hashes = elim (Merkle.new checksum hashes) [
  | ok t ↦ t
  | err e ↦ record { root = 0; leaves = []; levels = [] }
  | panic ↦ record { root = 0; leaves = []; levels = [] }
]

generate_proof-verify_proof_example :
    (p : MerkleProof) × (Merkle.generate_proof (tree (10 ∷ 20 ∷ 30 ∷ [])) 2 ≡ ok (some p))
    × (p.leaf_hash ≡ 30)
    × (p.leaf_index ≡ 2)
    × (p.root ≡ (tree (10 ∷ 20 ∷ 30 ∷ [])).root)
    × (Merkle.verify_proof checksum p ≡ true)
unfolding Merkle.new Merkle.build_tree Merkle.levels_above Merkle.build_next_level Merkle.hash_pair
    Merkle.top
generate_proof-verify_proof_example =
    generate_proof-verify_proof checksum (10 ∷ 20 ∷ 30 ∷ []) (tree (10 ∷ 20 ∷ 30 ∷ [])) 2 30 refl
      refl

new-duplicate_last_example : (tree (10 ∷ 20 ∷ 30 ∷ [])).root ≡ (tree (10 ∷ 20 ∷ 30 ∷ 30 ∷ [])).root
unfolding Merkle.new Merkle.build_tree Merkle.levels_above Merkle.build_next_level Merkle.hash_pair
    Merkle.top
new-duplicate_last_example =
    new-duplicate_last checksum 10 20 30 [] (tree (10 ∷ 20 ∷ 30 ∷ []))
      (tree (10 ∷ 20 ∷ 30 ∷ 30 ∷ [])) refl refl refl

abbrev three_leaves : List ℕ
three_leaves = 10 ∷ 20 ∷ 30 ∷ []

-- The path of leaf 30 of that tree, to the same root.
abbrev path_of : ℕ → MerkleProof
path_of root = record {
  leaf_hash = 30;
  leaf_index = 2;
  proof = record { hash = 30; is_left = false } ∷ record { hash = 40; is_left = true } ∷ [];
  root = root;
}

abbrev path : MerkleProof
path = path_of (Merkle.fold_nodes checksum (path_of 0).proof 30)

verify_proof-binds_example :
    ((path.leaf_hash ≡ path.leaf_hash) × (sibling_hashes path.proof ≡ sibling_hashes path.proof))
    ⊎ CollidingAmong checksum
        (folded_bytes checksum path.proof path.leaf_hash)
        (folded_bytes checksum path.proof path.leaf_hash)
unfolding Merkle.verify_proof
verify_proof-binds_example =
    verify_proof-binds checksum checksum-IsHash path path
      (omega arith, (omega arith, (omega arith, tt)))
      (omega arith, (omega arith, (omega arith, tt))) refl refl (==_refl path.root)
      (==_refl path.root)

-- Under a digest that tells nothing apart, two ballots of one id.
abbrev ballot_of : ℕ → Transaction
ballot_of nonce = Transaction.new_with_params (λ bytes. 7) encode ballot 1001 nonce

validate-id_binds_example :
    (ballot_of 1 ≡ ballot_of 2)
    ⊎ Colliding
        (λ bytes. 7)
        (Transaction.serialize_for_hashing encode (ballot_of 1))
        (Transaction.serialize_for_hashing encode (ballot_of 2))
unfolding Transaction.new_with_params Transaction.calculate_id
validate-id_binds_example =
    validate-id_binds (λ bytes. 7) encode (ballot_of 1) (ballot_of 2) (omega arith, omega arith)
      (omega arith, omega arith) (λ e. refl)
      ((new_with_params-validate (λ bytes. 7) encode ballot 1001 1).1 (omega arith, omega arith))
      ((new_with_params-validate (λ bytes. 7) encode ballot 1001 2).1 (omega arith, omega arith))
      refl

validate-IsValid_example :
    (Block.validate checksum encode block_1 ≡ ok tt) ↔ IsValid checksum encode block_1
validate-IsValid_example = validate-IsValid checksum encode block_1

ballot_tx-valid : Transaction.validate checksum encode ballot_tx ≡ ok tt
unfolding Transaction.validate Transaction.calculate_id Transaction.serialize_for_hashing le_bytes
    Transaction.validate_type
ballot_tx-valid = refl

block_1-valid : Block.validate checksum encode block_1 ≡ ok tt
unfolding Block.validate Block.calculate_hash header_bytes Transaction.validate
    Transaction.calculate_id Transaction.serialize_for_hashing le_bytes be_bytes
    Transaction.validate_type Block.calculate_transactions_root Merkle.new Merkle.build_tree
    Merkle.levels_above Merkle.top Block.validate_transactions
block_1-valid = refl

ids-IsHash : All IsHash (tx_ids block_1.transactions)
ids-IsHash = (omega arith, tt)

block_1-InRange : InRange block_1.header
block_1-InRange = record {
  height = omega arith;
  timestamp = omega arith;
  previous_hash = omega arith;
  transactions_root = omega arith;
  validator = omega arith;
  transaction_count = omega arith;
}

validate-hash_binds_example :
    (SameContent block_1.header block_1.header
      × (tx_ids block_1.transactions ≡ tx_ids block_1.transactions))
    ⊎ (Colliding checksum (header_bytes block_1.header) (header_bytes block_1.header)
        ⊎ CollidingAmong checksum
            (tree_bytes checksum (tx_ids block_1.transactions))
            (tree_bytes checksum (tx_ids block_1.transactions)))
validate-hash_binds_example =
    validate-hash_binds checksum checksum-IsHash encode block_1 block_1 block_1-InRange
      block_1-InRange ids-IsHash ids-IsHash (omega arith) (omega arith) block_1-valid block_1-valid
      refl
