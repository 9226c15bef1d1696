-- ===== src/Tests/Quorums.antt =====
-- The theorems of threshold signatures and of the light node at concrete inputs.
use trust_the_people.Prelude.{ℕ, ◌+◌, ◌≡◌, refl, ◌↔◌, true, some, List, [], ◌∷◌}
use trust_the_people.Result.{ok, err, panic}
use trust_the_people.Bytes.{be_bytes, as_bytes}
use trust_the_people.Map
use trust_the_people.Merkle
use trust_the_people.Merkle.{MerkleProof, MerkleTree}
use trust_the_people.Crypto
use trust_the_people.Crypto.{hash_blake2b}
use trust_the_people.Crypto.Threshold
use trust_the_people.Crypto.Threshold.{
  ThresholdScheme, PartialSignature, ThresholdSignature, ThresholdAggregator, new_aggregator,
  new_signature, add_signature, add_partial_signature, finalize, verify_threshold_signature,
}
use trust_the_people.Crypto.Threshold.Collection.{
  Agree, as_partial, new_aggregator-Mirrors, add_signature-Agree,
}
use trust_the_people.Crypto.Threshold.Quorum.{HasQuorum, collect, finalize-HasQuorum}
use trust_the_people.Crypto.Threshold.Laxity.{verify_threshold_signature-replicate}
use trust_the_people.LightNode
use trust_the_people.LightNode.{
  LightNode, LightHeader, VerifiedTransaction, verify_transaction, get_verified_transaction,
}
use trust_the_people.LightNode.Inclusion.{Covers, verify_transaction_iff, verify_transaction_any}
use trust_the_people.Tests.Data.{checksum, ballot_tx}
use trust_the_people.Tests.Polls.{primitives}

-- Two of three.
abbrev scheme : ThresholdScheme
scheme = record { total_participants = 3; threshold = 2; participants = 7 ∷ 8 ∷ 9 ∷ [] }

abbrev message : List ℕ
message = 1 ∷ 2 ∷ []

abbrev digest : ℕ
digest = checksum message

abbrev signature_of_key : ℕ → ℕ
signature_of_key k = checksum (as_bytes digest) + k

add_signature-Agree_example :
    Agree
      (add_signature primitives (new_aggregator primitives scheme message) 8 (signature_of_key 8))
      (add_partial_signature primitives
        (new_signature scheme digest)
        (as_partial (new_aggregator primitives scheme message).scheme 8 (signature_of_key 8)))
add_signature-Agree_example =
    add_signature-Agree primitives (new_aggregator primitives scheme message)
      (new_signature scheme digest) (new_aggregator-Mirrors primitives scheme message) 8
      (signature_of_key 8)

-- A stranger, a repetition and a false signature among the calls.
abbrev calls : List (ℕ × ℕ)
calls =
    (8, signature_of_key 8)
    ∷ (5, signature_of_key 5)
    ∷ (8, signature_of_key 8)
    ∷ (9, 4)
    ∷ (7, signature_of_key 7)
    ∷ []

abbrev finalized : ThresholdSignature
finalized = elim (finalize (collect primitives (new_aggregator primitives scheme message) calls)) [
  | ok t ↦ t
  | err e ↦ new_signature scheme 0
  | panic ↦ new_signature scheme 0
]

finalized-made :
    finalize (collect primitives (new_aggregator primitives scheme message) calls) ≡ ok finalized
unfolding finalize add_signature Threshold.participant_index new_aggregator Map.contains_key
    Map.empty Crypto.verify be_bytes Map.insert Map.len
finalized-made = refl

finalize-HasQuorum_example : HasQuorum primitives scheme message finalized
finalize-HasQuorum_example =
    finalize-HasQuorum primitives scheme message calls finalized finalized-made

-- Key 5 is outside the scheme.
abbrev stranger : PartialSignature
stranger = record { signer = 5; signature = signature_of_key 5; participant_index = 0 }

stranger-verifies : Threshold.verify_partial primitives digest stranger ≡ ok tt
unfolding Threshold.verify_partial Crypto.verify be_bytes
stranger-verifies = refl

verify_threshold_signature-replicate_example :
    verify_threshold_signature primitives (record {
      scheme = scheme;
      partial_signatures = stranger ∷ stranger ∷ [];
      message_hash = digest;
    })
    ≡ ok tt
verify_threshold_signature-replicate_example =
    verify_threshold_signature-replicate primitives scheme digest stranger stranger-verifies

abbrev tree : MerkleTree
tree = elim (Merkle.new checksum (10 ∷ 20 ∷ 30 ∷ [])) [
  | ok t ↦ t
  | err e ↦ record { root = 0; leaves = []; levels = [] }
  | panic ↦ record { root = 0; leaves = []; levels = [] }
]

abbrev header : LightHeader
header = record {
  height = 4;
  hash = 99;
  previous_hash = 98;
  transactions_root = tree.root;
  timestamp = 1000;
  validator = 5;
}

abbrev node : LightNode
node = record {
  block_headers = record { entries = (4, header) ∷ [] };
  verified_transactions = record { entries = [] };
  trusted_validators = [];
  transactions_processed = 0;
  current_height = 4;
}

record Node : Type 0 where
  made : Merkle.new checksum (10 ∷ 20 ∷ 30 ∷ []) ≡ ok tree
  at : LightNode.get_header node 4 ≡ some header

node-run : Node
unfolding Merkle.new Merkle.levels_above Merkle.build_next_level LightNode.get_header Map.get
node-run = record { made = refl; at = refl }

verify_transaction_any_example :
    (p : MerkleProof) × (n' : LightNode) × (Merkle.generate_proof tree 1 ≡ ok (some p))
    × (verify_transaction checksum node ballot_tx 4 p 2000 ≡ ok (n', true))
    × (get_verified_transaction n' ballot_tx.id
        ≡ some (record {
          transaction = ballot_tx;
          block_height = 4;
          block_hash = 99;
          merkle_proof = [];
          verified_at = 2000;
        }))
verify_transaction_any_example =
    verify_transaction_any checksum (10 ∷ 20 ∷ 30 ∷ []) tree 1 20 node 4 header ballot_tx 2000
      node-run.made refl node-run.at refl

abbrev trivial : MerkleProof
trivial = record { leaf_hash = tree.root; leaf_index = 0; proof = []; root = tree.root }

verify_transaction_iff_example :
    ((n' : LightNode) × (verify_transaction checksum node ballot_tx 4 trivial 2000 ≡ ok (n', true)))
    ↔ Covers checksum node 4 trivial
verify_transaction_iff_example = verify_transaction_iff checksum node ballot_tx 4 trivial 2000
