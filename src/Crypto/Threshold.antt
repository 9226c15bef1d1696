-- ===== src/Crypto/Threshold.antt =====
-- crates/crypto/src/threshold.rs: threshold signatures, and the aggregator that collects them.
-- The order in which `HashMap::into_values` gives the signatures is that of the association list.

pub mod Collection
pub mod Quorum
pub mod Laxity
use trust_the_people.Prelude.{
  ℕ, ◌+◌, Bool, not, Option, none, some, List, [], ◌∷◌, ◌++◌, map, ltb, leb, ◌==◌, if◌then◌else◌,
  length, get_elem?, any, contains,
}
use trust_the_people.Result.{
  ◌>>=◌, ◌>>◌, fmt, text, invalid_validator, crypto_error, insufficient_validators, Result, ok, err,
  reject_if,
}
use trust_the_people.Bytes.{as_bytes}
use trust_the_people.Map
use trust_the_people.Map.{Map}
use trust_the_people.Set.{set_insert}
use trust_the_people.Float.{Float64}
use trust_the_people.Crypto
use trust_the_people.Crypto.{Primitives, KeyPair, hash_blake2b}

pub record ThresholdScheme : Type 0 where
  pub total_participants : ℕ
  pub threshold : ℕ
  pub participants : List ℕ

pub record PartialSignature : Type 0 where
  pub signer : ℕ
  pub signature : ℕ
  pub participant_index : ℕ

pub record ThresholdSignature : Type 0 where
  pub scheme : ThresholdScheme
  pub partial_signatures : List PartialSignature
  pub message_hash : ℕ

pub record ThresholdAggregator : Type 0 where
  pub scheme : ThresholdScheme
  pub message : List ℕ
  pub message_hash : ℕ
  pub signatures : Map PartialSignature

pub record DistributedKeyGen : Type 0 where
  pub scheme : ThresholdScheme
  pub shares : List ℕ

-- `participants.iter().collect::<HashSet<_>>()`
unfoldable pub unique : List ℕ → List ℕ → List ℕ
unique s [] = s
unique s (p ∷ ps) = unique (set_insert s p) ps

unfoldable pub new_scheme : ℕ → List ℕ → Result ThresholdScheme
unfolding unique
new_scheme threshold participants = do
  reject_if (threshold == 0) (crypto_error (text "Threshold must be at least 1"))
  reject_if (ltb (length participants) threshold) (
      crypto_error (
        fmt "Threshold {} cannot exceed total participants {}"
          (threshold ∷ length participants ∷ [])))
  reject_if (length participants == 0) (crypto_error (text "Must have at least one participant"))
  reject_if (not (length (unique [] participants) == length participants))
      (crypto_error (text "Duplicate participants not allowed"))
  ok (record {
    total_participants = length participants;
    threshold = threshold;
    participants = participants;
  })

unfoldable pub is_participant : ThresholdScheme → ℕ → Bool
is_participant s public_key = contains s.participants public_key

-- `iter().position(|pk| pk == public_key)`, counted from `i`.
unfoldable pub position_from : ℕ → List ℕ → ℕ → Option ℕ
position_from i [] public_key = none
position_from i (p ∷ ps) public_key =
    if p == public_key then some i else position_from (i + 1) ps public_key

unfoldable pub participant_index : ThresholdScheme → ℕ → Option ℕ
unfolding position_from
participant_index s public_key = position_from 0 s.participants public_key

unfoldable pub is_threshold_met : ThresholdScheme → ℕ → Bool
is_threshold_met s signature_count = leb s.threshold signature_count

unfoldable pub threshold_fraction : (f : Float64) → ThresholdScheme → f.F
threshold_fraction f s = f.div (f.of_usize s.threshold) (f.of_usize s.total_participants)

unfoldable pub new_signature : ThresholdScheme → ℕ → ThresholdSignature
new_signature s message_hash = record {
  scheme = s;
  partial_signatures = [];
  message_hash = message_hash;
}

unfoldable pub is_complete : ThresholdSignature → Bool
unfolding is_threshold_met
is_complete t = is_threshold_met t.scheme (length t.partial_signatures)

unfoldable pub signers : ThresholdSignature → List ℕ
signers t = map (λ p. p.signer) t.partial_signatures

unfoldable pub has_signed : ThresholdSignature → ℕ → Bool
has_signed t public_key = any (λ p. p.signer == public_key) t.partial_signatures

unfoldable pub aggregator_is_complete : ThresholdAggregator → Bool
unfolding is_threshold_met
aggregator_is_complete a = is_threshold_met a.scheme (Map.len a.signatures)

unfoldable pub finalize : ThresholdAggregator → Result ThresholdSignature
unfolding aggregator_is_complete new_signature
finalize a = do
  reject_if (not (aggregator_is_complete a)) insufficient_validators
  ok (record (new_signature a.scheme a.message_hash) {
    partial_signatures = Map.values a.signatures;
  })

unfoldable pub progress : ThresholdAggregator → ℕ × ℕ
progress a = (Map.len a.signatures, a.scheme.threshold)

-- `DistributedKeyGen::generate`, at the key pairs that are drawn.
unfoldable pub generate : ℕ → List KeyPair → Result DistributedKeyGen
generate threshold keypairs = do
  reject_if (ltb (length keypairs) threshold)
      (crypto_error (text "Threshold exceeds total participants"))
  scheme ← new_scheme threshold (map (λ k. k.public) keypairs)
  ok (record { scheme = scheme; shares = map (λ k. k.private) keypairs })

unfoldable pub get_share : DistributedKeyGen → ℕ → Option ℕ
get_share d i = get_elem? d.shares i

module _ (c : Primitives) where
  -- `PartialSignature::verify`, on the bytes of the hash.
  unfoldable pub verify_partial : ℕ → PartialSignature → Result (Unit {0})
  verify_partial message_hash p = Crypto.verify c (as_bytes message_hash) p.signature p.signer

  unfoldable pub add_partial_signature :
      ThresholdSignature → PartialSignature → Result (ThresholdSignature × Bool)
  unfolding is_participant has_signed
  add_partial_signature t p = do
    reject_if (not (is_participant t.scheme p.signer))
        (invalid_validator (text "Signer not in threshold scheme"))
    reject_if (has_signed t p.signer)
        (crypto_error (text "Duplicate signature from same participant"))
    verify_partial t.message_hash p
    let t' = record t { partial_signatures = t.partial_signatures ++ p ∷ [] }
    ok (t', is_complete t')

  -- The loop of `ThresholdSignature::verify`.
  unfoldable pub verify_partials : ℕ → List PartialSignature → Result (Unit {0})
  verify_partials message_hash [] = ok tt
  verify_partials message_hash (p ∷ ps) = do
    verify_partial message_hash p
    verify_partials message_hash ps

  unfoldable pub verify_threshold_signature : ThresholdSignature → Result (Unit {0})
  unfolding verify_partials
  verify_threshold_signature t = do
    reject_if (not (is_complete t)) insufficient_validators
    verify_partials t.message_hash t.partial_signatures

  unfoldable pub new_aggregator : ThresholdScheme → List ℕ → ThresholdAggregator
  new_aggregator s message = record {
    scheme = s;
    message = message;
    message_hash = hash_blake2b c message;
    signatures = Map.empty;
  }

  unfoldable pub add_signature : ThresholdAggregator → ℕ → ℕ → Result (ThresholdAggregator × Bool)
  add_signature a signer signature = elim (participant_index a.scheme signer) [
    | none ↦ err (invalid_validator (text "Signer not in threshold scheme"))
    | some i ↦ do
      reject_if (Map.contains_key a.signatures signer)
          (crypto_error (text "Duplicate signature from participant"))
      Crypto.verify c (as_bytes a.message_hash) signature signer
      let p : PartialSignature = record {
        signer = signer;
        signature = signature;
        participant_index = i;
      }
      let a' = record a { signatures = Map.insert a.signatures signer p }
      ok (a', aggregator_is_complete a')
  ]

  -- The loop of `create_threshold_signature`.
  unfoldable pub add_all : ThresholdSignature → List PartialSignature → Result ThresholdSignature
  unfolding add_partial_signature
  add_all t [] = ok t
  add_all t (p ∷ ps) = do r ← add_partial_signature t p; add_all r.0 ps

  unfoldable pub create_threshold_signature :
      ThresholdScheme → List ℕ → List PartialSignature → Result ThresholdSignature
  unfolding add_all new_signature
  create_threshold_signature s message partial_sigs = do
    t ← add_all (new_signature s (hash_blake2b c message)) partial_sigs
    reject_if (not (is_complete t)) insufficient_validators
    ok t
