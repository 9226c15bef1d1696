-- ===== src/Voting/Voter/Registration.antt =====
-- A registration that is made verifies.
use trust_the_people.Prelude.{ℕ, String, ◌≡◌, refl, true, Option, List}
use trust_the_people.Result.{ok}
use trust_the_people.Crypto
use trust_the_people.Crypto.{Primitives, KeyPair, constant_time_eq}
use trust_the_people.Crypto.Signing.{IsKeyPair, verify-sign}
use trust_the_people.Crypto.Equality.{constant_time_eq_iff}
use trust_the_people.Voting.Voter.{
  VoterRegistration, new_voter, with_credentials, new_credentials, verify_hash, create_registration,
  verify_registration, compute_hash,
}

module _ (c : Primitives) (utf8 : String → List ℕ) where
  -- The credentials carry their own hash, with or without an expiry.
  pub verify_hash-new_credentials :
      (voter_id : ℕ) (jurisdiction : String) (issued_at : ℕ) (expires_at : Option ℕ)
      → verify_hash c utf8 (record (new_credentials c utf8 voter_id jurisdiction issued_at) {
        expires_at = expires_at;
      })
        ≡ true
  unfolding verify_hash new_credentials
  verify_hash-new_credentials voter_id jurisdiction issued_at expires_at =
      (constant_time_eq_iff (compute_hash c utf8 voter_id jurisdiction issued_at)
          (compute_hash c utf8 voter_id jurisdiction issued_at)).1
        refl

  -- A voter made with credentials of its own issue registers, and the registration verifies, if the key
  -- pair is one.
  pub verify_registration-create :
      (k : KeyPair) (jurisdiction : String) (voter_id issued_at now timestamp : ℕ)
      (expires_at : Option ℕ)
      → IsKeyPair c k
      → (r : VoterRegistration) × (create_registration c utf8
            (with_credentials c k now
              (record (new_credentials c utf8 voter_id jurisdiction issued_at) {
                expires_at = expires_at;
              }))
            k
            timestamp
          ≡ ok r)
        × (verify_registration c utf8 r ≡ ok tt)
  unfolding create_registration with_credentials new_voter verify_registration Crypto.sign
  verify_registration-create k jurisdiction voter_id issued_at now timestamp expires_at h = (
    _,
    refl,
    rw (verify_hash-new_credentials voter_id jurisdiction issued_at expires_at)
        (verify-sign c k _ h),
  )
