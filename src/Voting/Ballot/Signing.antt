-- ===== src/Voting/Ballot/Signing.antt =====
-- A ballot that is cast verifies.
use trust_the_people.Prelude.{ℕ, ◌≡◌, refl, none, some, List}
use trust_the_people.Result.{ok}
use trust_the_people.Crypto
use trust_the_people.Crypto.{Primitives, KeyPair, EncryptedData, encrypt, commit}
use trust_the_people.Crypto.Signing.{IsKeyPair, verify-sign}
use trust_the_people.Voting.Ballot.{Ballot, CastBallot, ballot_message, create, verify_cast}

module _ (c : Primitives) (serialize : Ballot → List ℕ) where
  -- What casting makes: a ballot for the same election and voter, that verifies under the key.
  pub record IsCastOf (b : Ballot) (voter_id : ℕ) (k : KeyPair) (now : ℕ) (cast : CastBallot)
      : Type 0 where
    pub ballot_id : cast.ballot_id ≡ b.ballot_id
    pub election_id : cast.election_id ≡ b.election_id
    pub voter : cast.voter_id ≡ voter_id
    pub cast_at : cast.cast_at ≡ now
    pub verified : verify_cast c cast k.public ≡ ok tt

  -- With a key pair, what is cast verifies under the public key and names the ballot and the voter; if
  -- the cipher encrypts the ballot, then it is cast.
  pub create-IsCastOf :
      (b : Ballot) (voter_id election_key : ℕ) (k : KeyPair) (nonce : ℕ)
      (randomness ciphertext : List ℕ) (now : ℕ)
      → IsKeyPair c k
      → c.seal election_key nonce (serialize b) ≡ some ciphertext
      → (cast : CastBallot) × (create c serialize b voter_id election_key k nonce randomness now
          ≡ ok cast)
        × IsCastOf b voter_id k now cast
  unfolding create encrypt Crypto.sign
  create-IsCastOf b voter_id election_key k nonce randomness ciphertext now h s =
      let sealed : EncryptedData = record {
        nonce = nonce;
        ciphertext = ciphertext;
        associated_data = none;
      } in
      let commitment = (commit c (serialize b) randomness).value in
      let message = ballot_message c b.ballot_id b.election_id voter_id sealed commitment in
      let cast : CastBallot = record {
        ballot_id = b.ballot_id;
        election_id = b.election_id;
        voter_id = voter_id;
        encrypted_ballot = sealed;
        ballot_commitment = commitment;
        voter_signature = c.signature_of k.private message;
        cast_at = now;
        transaction_id = none;
      } in
      (
        cast,
        rw (s, create, encrypt) refl,
        record {
          ballot_id = refl;
          election_id = refl;
          voter = refl;
          cast_at = refl;
          verified = unfold verify_cast in verify-sign c k message h;
        },
      )
