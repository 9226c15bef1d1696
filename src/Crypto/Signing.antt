-- ===== src/Crypto/Signing.antt =====
-- Pairs of keys: what is signed with one verifies.
use trust_the_people.Prelude.{ℕ, ◌≡◌, refl, true, List}
use trust_the_people.Result.{ok}
use trust_the_people.Crypto
use trust_the_people.Crypto.{Primitives, KeyPair}

-- What the signature scheme promises for a pair of keys: the public key is one, and it accepts what the
-- private key signs.
pub record IsKeyPair (c : Primitives) (k : KeyPair) : Type 0 where
  pub is_key : c.is_verifying_key k.public ≡ true
  pub accepted :
      (message : List ℕ) → c.accepts k.public message (c.signature_of k.private message) ≡ true

module _ (c : Primitives) where
  pub verify-sign :
      (k : KeyPair) (message : List ℕ)
      → IsKeyPair c k
      → Crypto.verify c message (c.signature_of k.private message) k.public ≡ ok tt
  unfolding Crypto.verify
  verify-sign k message h = rw (h.is_key, h.accepted message) refl
