-- ===== src/Crypto.antt =====
-- crates/crypto: signatures (signatures.rs, keys.rs), encryption (encryption.rs), commitments and the
-- Schnorr proofs (zkp/mod.rs), and the hashes of crates/crypto/src/hash.rs.
-- The operations of the crates blake2, ed25519_dalek and chacha20poly1305 are the record `Primitives`.
-- Keys, hashes and nonces are the numbers that their bytes spell; so is a signature of 64 bytes.
pub mod Threshold
pub mod Equality
pub mod Signing
use Prim.Native.Nat.{bit_or, bit_xor}
use trust_the_people.Prelude.{
  ℕ, ◌+◌, Bool, true, false, not, ◌||◌, Option, none, some, List, [], ◌∷◌, ◌++◌, ◌==◌,
  if◌then◌else◌, length, is_empty, flat_map,
}
use trust_the_people.Result.{
  ◌>>=◌, ◌>>◌, text, crypto_error, signature_verification_failed, Result, ok, err, reject_if,
}
use trust_the_people.Bytes.{as_bytes, be_bytes}

pub record Primitives : Type 0 where
  -- Blake2b-256 of the bytes.
  pub blake2b : List ℕ → ℕ
  -- `VerifyingKey::from_bytes` accepts the key.
  pub is_verifying_key : ℕ → Bool
  -- `VerifyingKey::verify` accepts a message and a signature.
  pub accepts : ℕ → List ℕ → ℕ → Bool
  -- `SigningKey::sign`, at the private key.
  pub signature_of : ℕ → List ℕ → ℕ
  -- `ChaCha20Poly1305::encrypt`, at a key, a nonce and a plaintext.
  pub seal : ℕ → ℕ → List ℕ → Option (List ℕ)

pub record KeyPair : Type 0 where
  pub private : ℕ
  pub public : ℕ

pub record EncryptedData : Type 0 where
  pub nonce : ℕ
  pub ciphertext : List ℕ
  pub associated_data : Option (List ℕ)

pub record Commitment : Type 0 where
  pub value : List ℕ
  pub randomness : Option (List ℕ)

pub record SchnorrProof : Type 0 where
  pub challenge : List ℕ
  pub response : List ℕ

-- `EncryptedData::to_bytes`: the nonce of 12 bytes, and the ciphertext.
unfoldable pub to_bytes : EncryptedData → List ℕ
to_bytes d = be_bytes 12 d.nonce ++ d.ciphertext

-- `SchnorrProof::verify`
unfoldable pub verify_schnorr : SchnorrProof → List ℕ → Result Bool
verify_schnorr p public_value =
    if is_empty p.challenge || is_empty p.response then ok false else ok true

-- The loop of `constant_time_eq`, over the two lists zipped.
unfoldable pub differences : ℕ → List ℕ → List ℕ → ℕ
differences result [] bs = result
differences result (x ∷ xs) [] = result
differences result (x ∷ xs) (y ∷ ys) = differences (bit_or result (bit_xor x y)) xs ys

unfoldable pub constant_time_eq : List ℕ → List ℕ → Bool
unfolding differences
constant_time_eq a b = if not (length a == length b) then false else differences 0 a b == 0

module _ (c : Primitives) where
  abbrev pub hash_blake2b : List ℕ → ℕ
  hash_blake2b bytes = c.blake2b bytes

  unfoldable pub hash_blake2b_multiple : List (List ℕ) → ℕ
  hash_blake2b_multiple pieces = c.blake2b (flat_map (λ piece. piece) pieces)

  -- `PublicKey::to_address`
  unfoldable pub to_address : ℕ → ℕ
  to_address public_key = hash_blake2b (as_bytes public_key)

  unfoldable pub verify : List ℕ → ℕ → ℕ → Result (Unit {0})
  verify message signature public_key = do
    reject_if (not (c.is_verifying_key public_key)) (crypto_error (text "Invalid public key"))
    reject_if (not (c.accepts public_key message signature)) signature_verification_failed

  unfoldable pub sign : List ℕ → KeyPair → Result ℕ
  sign message keypair = ok (c.signature_of keypair.private message)

  -- `encrypt`, with the nonce that is drawn.
  unfoldable pub encrypt : ℕ → List ℕ → ℕ → Result EncryptedData
  encrypt nonce plaintext key = elim (c.seal key nonce plaintext) [
    | none ↦ err (crypto_error (text "Encryption failed"))
    | some ciphertext ↦
        ok (record { nonce = nonce; ciphertext = ciphertext; associated_data = none })
  ]

  -- `Commitment::new`
  unfoldable pub commit : List ℕ → List ℕ → Commitment
  unfolding hash_blake2b_multiple
  commit value randomness = record {
    value = as_bytes (hash_blake2b_multiple (value ∷ randomness ∷ []));
    randomness = some randomness;
  }
