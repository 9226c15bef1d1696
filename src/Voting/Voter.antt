-- ===== src/Voting/Voter.antt =====
-- crates/voting/src/voter.rs: voters, their credentials and registrations, and the registry.
-- Voter and election ids are the numbers that their bytes spell. `utf8` is the encoding of a string.
pub mod Registration
use trust_the_people.Prelude.{
  ℕ, String, Bool, true, false, not, ◌&&◌, Option, none, some, List, [], ◌∷◌, ltb, if◌then◌else◌,
  contains,
}
use trust_the_people.Result.{
  ◌>>=◌, ◌>>◌, text, invalid_input, already_voted, Result, ok, err, reject_if,
}
use package.text.Mathlib.Text.{◌==◌ as str_eq}
use trust_the_people.Bytes.{as_bytes, u64_bytes}
use trust_the_people.Map
use trust_the_people.Map.{Map}
use trust_the_people.Set.{set_insert}
use trust_the_people.Crypto
use trust_the_people.Crypto.{
  Primitives, KeyPair, hash_blake2b_multiple, to_address, constant_time_eq,
}

pub data VoterStatus : Type 0 where
  unregistered : VoterStatus
  registered : VoterStatus
  verified : VoterStatus
  suspended : String → VoterStatus
  revoked : VoterStatus

-- The derived equality.
unfoldable pub status_eq : VoterStatus → VoterStatus → Bool
status_eq unregistered t = elim t [ unregistered ↦ true | _ ↦ false ]
status_eq registered t = elim t [ registered ↦ true | _ ↦ false ]
status_eq verified t = elim t [ verified ↦ true | _ ↦ false ]
status_eq (suspended r) t = elim t [ suspended q ↦ str_eq r q | _ ↦ false ]
status_eq revoked t = elim t [ revoked ↦ true | _ ↦ false ]

pub record VoterCredentials : Type 0 where
  pub voter_id : ℕ
  pub jurisdiction : String
  pub issued_at : ℕ
  pub expires_at : Option ℕ
  pub credential_hash : List ℕ

pub record Voter : Type 0 where
  pub id : ℕ
  pub public_key : ℕ
  pub address : ℕ
  pub status : VoterStatus
  pub credentials : Option VoterCredentials
  pub registered_at : ℕ
  pub elections_voted : List ℕ

pub record VoterRegistration : Type 0 where
  pub voter_id : ℕ
  pub public_key : ℕ
  pub credentials : VoterCredentials
  pub signature : ℕ
  pub timestamp : ℕ

unfoldable pub register : Voter → VoterCredentials → Result Voter
unfolding status_eq
register v credentials = do
  reject_if (status_eq v.status registered) (invalid_input (text "Voter already registered"))
  ok (record v { credentials = some credentials; status = registered })

unfoldable pub is_registered : Voter → Bool
is_registered v = elim v.status [ registered ↦ true | verified ↦ true | _ ↦ false ]

unfoldable pub has_voted : Voter → ℕ → Bool
has_voted v election_id = contains v.elections_voted election_id

unfoldable pub is_eligible : Voter → ℕ → Bool
unfolding is_registered has_voted
is_eligible v election_id = is_registered v && not (has_voted v election_id)

unfoldable pub mark_voted : Voter → ℕ → Result Voter
unfolding has_voted
mark_voted v election_id = do
  reject_if (has_voted v election_id) already_voted
  ok (record v { elections_voted = set_insert v.elections_voted election_id })

unfoldable pub revoke : Voter → Voter
revoke v = record v { status = revoked }

unfoldable pub verify_voter : Voter → Voter
unfolding status_eq
verify_voter v = if status_eq v.status registered then record v { status = verified } else v

unfoldable pub suspend : Voter → String → Voter
suspend v reason = record v { status = suspended reason }

-- `VoterCredentials::is_valid`
unfoldable pub is_valid : VoterCredentials → ℕ → Bool
is_valid c current_time = elim c.expires_at [ none ↦ true | some t ↦ ltb current_time t ]

unfoldable pub is_expired : VoterCredentials → ℕ → Bool
unfolding is_valid
is_expired c current_time = not (is_valid c current_time)

-- `Voter::new`, at the time.
module _ (c : Primitives) where
  unfoldable pub new_voter : KeyPair → ℕ → Voter
  unfolding to_address
  new_voter keypair now = record {
    id = to_address c keypair.public;
    public_key = keypair.public;
    address = to_address c keypair.public;
    status = unregistered;
    credentials = none;
    registered_at = now;
    elections_voted = [];
  }

  unfoldable pub with_credentials : KeyPair → ℕ → VoterCredentials → Voter
  unfolding new_voter
  with_credentials keypair now credentials = record (new_voter keypair now) {
    credentials = some credentials;
    status = registered;
  }

module _ (c : Primitives) (utf8 : String → List ℕ) where
  unfoldable pub compute_hash : ℕ → String → ℕ → List ℕ
  unfolding hash_blake2b_multiple
  compute_hash voter_id jurisdiction issued_at =
      as_bytes
        (hash_blake2b_multiple c (as_bytes voter_id ∷ utf8 jurisdiction ∷ u64_bytes issued_at ∷ []))

  unfoldable pub new_credentials : ℕ → String → ℕ → VoterCredentials
  unfolding compute_hash
  new_credentials voter_id jurisdiction issued_at = record {
    voter_id = voter_id;
    jurisdiction = jurisdiction;
    issued_at = issued_at;
    expires_at = none;
    credential_hash = compute_hash voter_id jurisdiction issued_at;
  }

  unfoldable pub with_expiration : ℕ → String → ℕ → ℕ → VoterCredentials
  unfolding new_credentials
  with_expiration voter_id jurisdiction expires_at issued_at =
      record (new_credentials voter_id jurisdiction issued_at) { expires_at = some expires_at }

  unfoldable pub verify_hash : VoterCredentials → Bool
  unfolding compute_hash constant_time_eq
  verify_hash d =
      constant_time_eq (compute_hash d.voter_id d.jurisdiction d.issued_at) d.credential_hash

  -- `VoterRegistration::compute_message`
  unfoldable pub registration_message : ℕ → ℕ → VoterCredentials → ℕ → List ℕ
  registration_message voter_id public_key d timestamp = as_bytes (
      hash_blake2b_multiple c
        (as_bytes voter_id ∷ as_bytes public_key ∷ d.credential_hash ∷ u64_bytes timestamp ∷ []))

  unfoldable pub create_registration : Voter → KeyPair → ℕ → Result VoterRegistration
  unfolding registration_message
  create_registration v keypair timestamp = elim v.credentials [
    | none ↦ err (invalid_input (text "Voter has no credentials"))
    | some d ↦ do
      signature ← Crypto.sign c (registration_message v.id v.public_key d timestamp) keypair
      ok (record {
        voter_id = v.id;
        public_key = v.public_key;
        credentials = d;
        signature = signature;
        timestamp = timestamp;
      })
  ]

  unfoldable pub verify_registration : VoterRegistration → Result (Unit {0})
  unfolding verify_hash registration_message
  verify_registration r = do
    reject_if (not (verify_hash r.credentials)) (invalid_input (text "Invalid credential hash"))
    Crypto.verify c (registration_message r.voter_id r.public_key r.credentials r.timestamp)
        r.signature r.public_key
