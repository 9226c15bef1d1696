-- ===== src/Lib.antt =====
-- The blockchain core of a voting system, crates/blockchain-core with the parts of crates/common that
-- it rests on; the voting itself, crates/voting; threshold signatures and what voting needs of
-- crates/crypto; the light node of crates/node; block synchronisation, gossip and peers of
-- crates/network.
--
-- Transactions carry votes, registrations and elections; a block holds transactions, commits to
-- their ids by a Merkle root and to its predecessor by a hash; the chain appends blocks that
-- validate, and indexes them by hash and by transaction. A genesis configuration gives the first
-- block. The consensus engine decides who produces a block (proof of authority over a validator set)
-- and when a block is final (a tracker of signatures). The chain calls block and transaction
-- validation, the engine calls its mechanism, its validator set and its tracker; the chain and the
-- engine do not call each other. In an election, a session makes a signed submission of a ballot,
-- and a caster takes votes, cast or submitted, from registered voters; registries of voters and of
-- eligible voters keep who has voted, and results count the votes. An aggregator collects the
-- signatures of a threshold scheme. A light node keeps block headers, and verifies transactions by
-- Merkle proofs against them. Synchronisation asks peers for ranges of blocks, and gossip spreads
-- messages among peers. A manager keeps a score for each peer.
--
-- Files and the code they model, with functions under the names of the source:
--   Result          crates/common/src/errors.rs, the errors and results
--   Bytes, Digest   byte encodings and hashing, crates/common/src/utils.rs and types.rs
--   Map, Set        the hash maps and hash sets of the source, with 32-byte keys
--   Float           the `f64` operations that the source uses
--   Merkle          crates/blockchain-core/src/merkle.rs
--   Transaction     crates/blockchain-core/src/transaction.rs
--   Block           crates/blockchain-core/src/block.rs
--   Genesis         crates/blockchain-core/src/genesis.rs
--   Chain           crates/blockchain-core/src/chain.rs
--   Consensus.ValidatorSet, Consensus.ProofOfAuthority, Consensus.Finality, Consensus.Engine
--                   crates/blockchain-core/src/consensus/validator_set.rs, proof_of_authority.rs,
--                   finality.rs and mod.rs
--   Crypto          crates/crypto/src/keys.rs, signatures.rs, encryption.rs, hash.rs and zkp/mod.rs
--   Crypto.Threshold                crates/crypto/src/threshold.rs
--   Voting.Election                 crates/voting/src/lib.rs
--   Voting.Voter, Voting.Registry   crates/voting/src/voter.rs
--   Voting.Ballot                   crates/voting/src/ballot.rs
--   Voting.Casting                  crates/voting/src/vote_casting.rs
--   Voting.Eligibility, Voting.Provisional
--                   crates/voting/src/eligibility.rs
--   Voting.Indexed  lists with an index of keys, as the registry of voters and the ballot box store
--   LightNode       crates/node/src/light_node.rs
--   Network.Sync    crates/network/src/sync.rs
--   Network.Gossip  crates/network/src/gossip.rs
--   Network.Peers   crates/network/src/peer.rs, with the message of protocol.rs
--   Prelude         lists, Boolean tests and sorting, shared by all
--   Tests           data, and the theorems at concrete inputs
-- The child modules of a part hold its proofs, named for what they prove.
--
-- State is a record, and an operation that changes it returns the new record. A failing operation
-- returns `err`, and a Rust panic is the outcome `panic`: an index out of range, an `expect` on
-- nothing or a division by zero. The clock, random nonces, ids and other draws are arguments. Locks
-- and tasks are left out: a method is one step.
--
-- Parameters: `blake2b`, the digest of the crate blake2, a function from bytes to a number;
-- `serialize`, bincode's encoding of a payload; `Float64`, the `f64` operations; `Primitives`, the
-- operations of the digest, signature and cipher crates; `Codecs`, the encodings of strings, bytes
-- in hexadecimal and ballots; `Wire` and `Air`, what the network and its random choices do;
-- `Channels`, tokio's channels of messages. That a key pair accepts its own signatures is the
-- hypothesis `IsKeyPair`. A theorem that needs digests of 32 bytes takes that as a hypothesis. No
-- theorem takes a digest to be free of collisions: where one input is said to determine another, the
-- collision is an alternative of the conclusion.
--
-- Numbers are unsigned and unbounded, with the wrap of a release build written out where the source
-- computes at a width (`u64` heights and counters, the `u32` transaction count). An array of 32 bytes
-- (hash, key, address) is the number that its bytes spell, so the order of keys is the order of
-- numbers. `usize` has 64 bits.
--
-- Loops are recursion on their lists. Three recursions run on fuel: the requests of a
-- synchronisation take the number of heights, with a theorem that it is enough for a positive batch
-- size; the levels of a Merkle tree take the number of leaves, and each level has at most half the
-- nodes of the one below, rounded up; the decimal digits of a number take the number itself.
--
-- Not modelled: reading and writing of files, `Transaction::size`, hexadecimal ids and display
-- texts, the verification and anonymity modules of crates/voting, the network side of the light
-- node, the full and the validator node, the other modules of crates/network, and the other crates
-- (storage, rpc, analytics, command line).
pub mod Prelude
pub mod Result
pub mod Bytes
pub mod Map
pub mod Digest
pub mod Merkle
pub mod Transaction
pub mod Block
pub mod Float
pub mod Genesis
pub mod Chain
pub mod Set
pub mod Consensus
pub mod Crypto
pub mod Voting
pub mod LightNode
pub mod Network
mod Tests
