-- ===== src/Tests/Data.antt =====
-- Data of the tests: a checksum for the digest, an encoding of payloads, a genesis configuration, and a
-- chain of two blocks.
use trust_the_people.Float.{Float64}
use trust_the_people.Prelude.{leb, ltb, ◌/◌, ◌^◌, ℕ, ◌+◌, ◌*◌, ◌%◌, none, List, [], ◌∷◌, arith}
use trust_the_people.Result.{Result, ok, err, panic}
use trust_the_people.Map
use trust_the_people.Transaction.{Transaction, TransactionType, vote, validator_registration}
use trust_the_people.Block.{Block}
use trust_the_people.Genesis.{GenesisBlock}
use trust_the_people.Chain
use trust_the_people.Chain.{Blockchain}
use trust_the_people.Digest.{IsHash}

abbrev pub checksum : List ℕ → ℕ
checksum [] = 1
checksum (b ∷ bs) = (b + 3 * checksum bs) % 65521

pub checksum-IsHash : (bytes : List ℕ) → IsHash (checksum bytes)
checksum-IsHash [] = omega arith
checksum-IsHash (b ∷ bs) = omega arith

abbrev pub encode : TransactionType → List ℕ
encode (vote v) = 0 ∷ v.encrypted_vote
encode (validator_registration r) = 1 ∷ r.validator_key ∷ []
encode _ = 2 ∷ []

abbrev pub or_else {ℓ} : {A : Type ℓ} → Result A → A → A
or_else (ok a) d = a
or_else (err e) d = d
or_else panic d = d

-- Fixed-point numbers with two decimals.
abbrev pub hundredths : Float64
hundredths = record {
  F = ℕ;
  decimal = λ n k. 100 * n / 10 ^ k;
  of_usize = λ n. 100 * n;
  to_usize = λ x. x / 100;
  mul = λ x y. x * y / 100;
  div = λ x y. 100 * x / y;
  ceil = λ x. (x + 99) / 100 * 100;
  le = leb;
  lt = ltb;
}

abbrev pub genesis : GenesisBlock ℕ
genesis = record {
  validators = 5 ∷ 3 ∷ 9 ∷ [];
  timestamp = 1000;
  chain_id = "voting-chain-1";
  network_name = "Voting Network Mainnet";
  config = record {
    block_time = 5;
    consensus_threshold = 67;
    max_block_size = 1048576;
    max_transactions_per_block = 1000;
  };
}

abbrev pub ballot : TransactionType
ballot = vote (record {
  election_id = 1;
  encrypted_vote = 1 ∷ 2 ∷ 3 ∷ 4 ∷ [];
  validity_proof = none;
  voter_signature = 0;
})

abbrev pub ballot_tx : Transaction
ballot_tx = record { id = 21502; tx_type = ballot; timestamp = 1001; nonce = 42 }

abbrev pub blank_chain : Blockchain
blank_chain = record {
  blocks = [];
  hash_to_height = Map.empty;
  tx_to_block = Map.empty;
  height = 0;
  genesis_hash = 0;
}

abbrev pub chain_0 : Blockchain
chain_0 = or_else (Chain.new checksum encode 7 genesis) blank_chain

-- The block of validator 5 at height 1 that holds the ballot.
abbrev pub block_1 : Block
block_1 = record {
  header = record {
    height = 1;
    timestamp = 1003;
    previous_hash = 5698;
    transactions_root = 21502;
    hash = 6096;
    validator = 5;
    transaction_count = 1;
  };
  transactions = ballot_tx ∷ [];
  signatures = [];
}

abbrev pub chain_1 : Blockchain
chain_1 = or_else (Chain.add_block checksum encode chain_0 block_1) blank_chain
