-- ===== src/LightNode.antt =====
-- crates/node/src/light_node.rs: the headers that a light node keeps and the transactions it verifies.
-- The configuration, the network manager and the task that polls it are left out.
pub mod Inclusion
use trust_the_people.Prelude.{
  ℕ, ◌+◌, ◌%◌, ◌^◌, Bool, true, false, not, Option, none, some, List, [], ◌∷◌, ◌++◌, ◌==◌,
  if◌then◌else◌, length, filter, contains,
}
use trust_the_people.Result.{
  ◌>>=◌, ◌>>◌, fmt, invalid_previous_hash, block_height_mismatch, block_not_found, Result, ok, err,
  reject_if,
}
use trust_the_people.Map
use trust_the_people.Map.{Map}
use trust_the_people.Merkle
use trust_the_people.Merkle.{MerkleProof}
use trust_the_people.Transaction.{Transaction}
use trust_the_people.Block.{Block}

pub record LightHeader : Type 0 where
  pub height : ℕ
  pub hash : ℕ
  pub previous_hash : ℕ
  pub transactions_root : ℕ
  pub timestamp : ℕ
  pub validator : ℕ

pub record VerifiedTransaction : Type 0 where
  pub transaction : Transaction
  pub block_height : ℕ
  pub block_hash : ℕ
  pub merkle_proof : List ℕ
  pub verified_at : ℕ

pub record LightNode : Type 0 where
  pub block_headers : Map LightHeader
  pub verified_transactions : Map VerifiedTransaction
  pub trusted_validators : List ℕ
  pub transactions_processed : ℕ
  pub current_height : ℕ

unfoldable pub new : LightNode
new = record {
  block_headers = Map.empty;
  verified_transactions = Map.empty;
  trusted_validators = [];
  transactions_processed = 0;
  current_height = 0;
}

unfoldable pub from_block : Block → LightHeader
from_block b = record {
  height = b.header.height;
  hash = b.header.hash;
  previous_hash = b.header.previous_hash;
  transactions_root = b.header.transactions_root;
  timestamp = b.header.timestamp;
  validator = b.header.validator;
}

-- `BlockHeader::validate`; `prev.height + 1` wraps in a release build.
unfoldable pub validate_header : LightHeader → Option LightHeader → Result (Unit {0})
validate_header h previous = elim previous [
  | none ↦ ok tt
  | some prev ↦ do
    reject_if (not (h.height == (prev.height + 1) % 2 ^ 64))
        (block_height_mismatch ((prev.height + 1) % 2 ^ 64) h.height)
    reject_if (not (h.previous_hash == prev.hash))
        (invalid_previous_hash (fmt "Expected {}, got {}" (prev.hash ∷ h.previous_hash ∷ [])))
]

unfoldable pub get_header : LightNode → ℕ → Option LightHeader
get_header n height = Map.get n.block_headers height

unfoldable pub get_verified_transaction : LightNode → ℕ → Option VerifiedTransaction
get_verified_transaction n tx_id = Map.get n.verified_transactions tx_id

unfoldable pub header_count : LightNode → ℕ
header_count n = Map.len n.block_headers

unfoldable pub verified_transaction_count : LightNode → ℕ
verified_transaction_count n = Map.len n.verified_transactions

unfoldable pub add_trusted_validator : LightNode → ℕ → LightNode
add_trusted_validator n validator = record n {
  trusted_validators = n.trusted_validators ++ validator ∷ [];
}

unfoldable pub remove_trusted_validator : LightNode → ℕ → LightNode
remove_trusted_validator n validator = record n {
  trusted_validators = filter (λ v. not (v == validator)) n.trusted_validators;
}

unfoldable pub trusted_validator_count : LightNode → ℕ
trusted_validator_count n = length n.trusted_validators

unfoldable pub is_validator_trusted : LightNode → ℕ → Bool
is_validator_trusted n validator = contains n.trusted_validators validator

-- What `verify_transaction` stores.
unfoldable pub verified : LightNode → Transaction → ℕ → LightHeader → ℕ → LightNode
verified n tx block_height header now = record n {
  verified_transactions = Map.insert n.verified_transactions tx.id (record {
    transaction = tx;
    block_height = block_height;
    block_hash = header.hash;
    merkle_proof = [];
    verified_at = now;
  });
  transactions_processed = (n.transactions_processed + 1) % 2 ^ 64;
}

module _ (blake2b : List ℕ → ℕ) where
  unfoldable pub verify_transaction :
      LightNode → Transaction → ℕ → MerkleProof → ℕ → Result (LightNode × Bool)
  unfolding verified
  verify_transaction n tx block_height merkle_proof now =
      elim (Map.get n.block_headers block_height) [
        | none ↦ err (block_not_found (fmt "{}" (block_height ∷ [])))
        | some header ↦
            if not (Merkle.verify_proof blake2b merkle_proof)
            then ok (n, false)
            else if not (merkle_proof.root == header.transactions_root)
            then ok (n, false)
            else ok (verified n tx block_height header now, true)
      ]
