-- ===== src/Voting/Eligibility.antt =====
-- crates/voting/src/eligibility.rs: who may vote in an election, by a checker with proofs and by a
-- registry, and provisional ballots. Clock, randomness and challenge are arguments.
pub mod Checking
pub mod Revocation
use trust_the_people.Prelude.{
  ℕ, ◌+◌, ◌%◌, ◌^◌, String, Bool, true, false, not, ◌&&◌, Option, none, some, List, [], ◌∷◌, ltb,
  ◌==◌, if◌then◌else◌, length, filter, contains,
}
use trust_the_people.Result.{
  ◌>>=◌, ◌>>◌, text, invalid_input, voter_not_eligible, already_voted, Result, ok, err, reject_if,
}
use package.text.Mathlib.Text.{◌==◌ as str_eq}
use trust_the_people.Bytes.{as_bytes, be_bytes, u64_bytes}
use trust_the_people.Float.{Float64}
use trust_the_people.Map
use trust_the_people.Map.{Map}
use trust_the_people.Set.{set_insert}
use trust_the_people.Crypto
use trust_the_people.Crypto.{
  Primitives, KeyPair, SchnorrProof, hash_blake2b_multiple, commit, verify_schnorr,
}
use trust_the_people.Voting.Voter
use trust_the_people.Voting.Voter.{Voter, VoterCredentials}

pub record EligibilityRequirements : Type 0 where
  pub require_registration : Bool
  pub require_jurisdiction_match : Bool
  pub jurisdiction : Option String
  pub require_age_verification : Bool
  pub minimum_age : Option ℕ
  pub require_citizenship : Bool
  pub require_id_verification : Bool
  pub allow_provisional : Bool

pub data EligibilityStatus : Type 0 where
  eligible : EligibilityStatus
  not_registered : EligibilityStatus
  not_eligible : EligibilityStatus
  has_already_voted : EligibilityStatus
  credentials_expired : EligibilityStatus
  no_credentials : EligibilityStatus
  wrong_jurisdiction : EligibilityStatus
  age_verification_required : EligibilityStatus
  citizenship_required : EligibilityStatus
  provisional_only : EligibilityStatus

-- The derived equality, with the two statuses that the program compares with.
unfoldable pub is_status_eligible : EligibilityStatus → Bool
is_status_eligible s = elim s [ eligible ↦ true | _ ↦ false ]

unfoldable pub is_status_voted : EligibilityStatus → Bool
is_status_voted s = elim s [ has_already_voted ↦ true | _ ↦ false ]

pub record EligibilityProof : Type 0 where
  pub voter_id : ℕ
  pub election_id : ℕ
  pub proof_commitment : List ℕ
  pub schnorr_proof : SchnorrProof
  pub proof_signature : ℕ
  pub issued_at : ℕ

pub record EligibilityChecker : Type 0 where
  pub election_id : ℕ
  pub requirements : EligibilityRequirements
  pub eligible_voters : List ℕ
  pub verified_proofs : Map EligibilityProof

pub record EligibilityRecord : Type 0 where
  pub voter_id : ℕ
  pub election_id : ℕ
  pub jurisdiction : String
  pub registered_at : ℕ
  pub status : EligibilityStatus

pub record EligibilityRegistry : Type 0 where
  pub election_id : ℕ
  pub eligible_voters : Map EligibilityRecord

unfoldable pub default_requirements : EligibilityRequirements
default_requirements = record {
  require_registration = true;
  require_jurisdiction_match = true;
  jurisdiction = none;
  require_age_verification = false;
  minimum_age = some 18;
  require_citizenship = true;
  require_id_verification = true;
  allow_provisional = false;
}

unfoldable pub with_jurisdiction : EligibilityRequirements → String → EligibilityRequirements
with_jurisdiction r jurisdiction = record r { jurisdiction = some jurisdiction }

unfoldable pub with_minimum_age : EligibilityRequirements → ℕ → EligibilityRequirements
with_minimum_age r age = record r { minimum_age = some age; require_age_verification = true }

unfoldable pub allow_provisional_voting : EligibilityRequirements → EligibilityRequirements
allow_provisional_voting r = record r { allow_provisional = true }

-- `EligibilityChecker::new`
unfoldable pub new_checker : ℕ → EligibilityRequirements → EligibilityChecker
new_checker election_id requirements = record {
  election_id = election_id;
  requirements = requirements;
  eligible_voters = [];
  verified_proofs = Map.empty;
}

unfoldable pub add_eligible_voter : EligibilityChecker → ℕ → EligibilityChecker
add_eligible_voter c voter_id = record c { eligible_voters = set_insert c.eligible_voters voter_id }

unfoldable pub add_eligible_voters : EligibilityChecker → List ℕ → EligibilityChecker
unfolding add_eligible_voter
add_eligible_voters c [] = c
add_eligible_voters c (v ∷ vs) = add_eligible_voters (add_eligible_voter c v) vs

-- The jurisdiction that is required, where it is another than the credentials'.
unfoldable pub is_wrong_jurisdiction : EligibilityRequirements → VoterCredentials → Bool
is_wrong_jurisdiction r d =
    r.require_jurisdiction_match
    && elim r.jurisdiction [ none ↦ false | some required ↦ not (str_eq d.jurisdiction required) ]

unfoldable pub check_eligibility : EligibilityChecker → Voter → ℕ → Result EligibilityStatus
unfolding is_wrong_jurisdiction
check_eligibility c voter current_time =
    if not (Voter.is_registered voter)
    then ok not_registered
    else if Voter.has_voted voter c.election_id
    then ok has_already_voted
    else if not (contains c.eligible_voters voter.id)
    then ok not_eligible
    else elim voter.credentials [
      | none ↦ ok no_credentials
      | some credentials ↦
          if not (Voter.is_valid credentials current_time)
          then ok credentials_expired
          else if is_wrong_jurisdiction c.requirements credentials
          then ok wrong_jurisdiction
          else if c.requirements.require_age_verification
          then ok age_verification_required
          else ok eligible
    ]

unfoldable pub checker_is_eligible : EligibilityChecker → ℕ → Bool
checker_is_eligible c voter_id = contains c.eligible_voters voter_id

unfoldable pub has_verified_proof : EligibilityChecker → ℕ → Bool
has_verified_proof c voter_id = Map.contains_key c.verified_proofs voter_id

unfoldable pub eligible_count : EligibilityChecker → ℕ
eligible_count c = length c.eligible_voters

unfoldable pub verified_count : EligibilityChecker → ℕ
verified_count c = Map.len c.verified_proofs

module _ (p : Primitives) where
  -- `EligibilityProof::compute_message`
  unfoldable pub proof_message : ℕ → ℕ → List ℕ → ℕ → List ℕ
  proof_message voter_id election_id proof_commitment issued_at = as_bytes (
      hash_blake2b_multiple p
        (as_bytes voter_id ∷ be_bytes 16 election_id ∷ proof_commitment ∷ u64_bytes issued_at ∷ []))

  unfoldable pub generate_proof : ℕ → ℕ → KeyPair → ℕ → List ℕ → List ℕ → Result EligibilityProof
  unfolding proof_message
  generate_proof voter_id election_id voter_keypair issued_at randomness challenge = do
    let proof_commitment = (commit p (as_bytes voter_id) randomness).value
    let response = as_bytes (hash_blake2b_multiple p (randomness ∷ challenge ∷ []))
    signature ←
        Crypto.sign p (proof_message voter_id election_id proof_commitment issued_at) voter_keypair
    ok (record {
      voter_id = voter_id;
      election_id = election_id;
      proof_commitment = proof_commitment;
      schnorr_proof = record { challenge = challenge; response = response };
      proof_signature = signature;
      issued_at = issued_at;
    })

  -- `EligibilityProof::verify`
  unfoldable pub verify_proof : EligibilityProof → ℕ → Result (Unit {0})
  unfolding proof_message
  verify_proof q voter_public_key = do
    Crypto.verify p (proof_message q.voter_id q.election_id q.proof_commitment q.issued_at)
        q.proof_signature voter_public_key
    answer ← verify_schnorr q.schnorr_proof q.proof_commitment
    ok tt

  unfoldable pub verify_eligibility_proof :
      EligibilityChecker → EligibilityProof → ℕ → Result (EligibilityChecker × Bool)
  unfolding verify_proof
  verify_eligibility_proof c q voter_public_key =
      if not (q.election_id == c.election_id) then ok (c, false) else (do
        verify_proof q voter_public_key
        if not (contains c.eligible_voters q.voter_id)
            then ok (c, false)
            else ok
                (record c { verified_proofs = Map.insert c.verified_proofs q.voter_id q }, true))

-- `EligibilityProof::is_expired`, on `u64` of a release build.
unfoldable pub proof_is_expired : EligibilityProof → ℕ → ℕ → Bool
proof_is_expired q expiration_seconds current_time =
    ltb ((q.issued_at + expiration_seconds) % (2 ^ 64)) current_time

-- `EligibilityRegistry::new`
unfoldable pub new_registry : ℕ → EligibilityRegistry
new_registry election_id = record { election_id = election_id; eligible_voters = Map.empty }

unfoldable pub register_eligible_voter :
    EligibilityRegistry → ℕ → String → ℕ → Result EligibilityRegistry
register_eligible_voter r voter_id jurisdiction now = do
  reject_if (Map.contains_key r.eligible_voters voter_id)
      (invalid_input (text "Voter already registered as eligible"))
  ok (record r {
    eligible_voters = Map.insert r.eligible_voters voter_id (record {
      voter_id = voter_id;
      election_id = r.election_id;
      jurisdiction = jurisdiction;
      registered_at = now;
      status = eligible;
    });
  })

-- `record.status = status` through `get_mut`.
unfoldable pub write_status :
    EligibilityRegistry → ℕ → EligibilityRecord → EligibilityStatus → EligibilityRegistry
write_status r voter_id old status = record r {
  eligible_voters = Map.insert r.eligible_voters voter_id (record old { status = status });
}

unfoldable pub revoke_eligibility : EligibilityRegistry → ℕ → Result EligibilityRegistry
unfolding write_status
revoke_eligibility r voter_id = elim (Map.get r.eligible_voters voter_id) [
  | none ↦ err (voter_not_eligible (text "Voter not found"))
  | some old ↦ ok (write_status r voter_id old not_eligible)
]

unfoldable pub mark_voted : EligibilityRegistry → ℕ → Result EligibilityRegistry
unfolding write_status is_status_voted
mark_voted r voter_id = elim (Map.get r.eligible_voters voter_id) [
  | none ↦ err (voter_not_eligible (text "Voter not found"))
  | some old ↦ do
    reject_if (is_status_voted old.status) already_voted
    ok (write_status r voter_id old has_already_voted)
]

unfoldable pub get_record : EligibilityRegistry → ℕ → Option EligibilityRecord
get_record r voter_id = Map.get r.eligible_voters voter_id

unfoldable pub is_eligible : EligibilityRegistry → ℕ → Bool
is_eligible r voter_id = elim (Map.get r.eligible_voters voter_id) [
  | none ↦ false
  | some old ↦ is_status_eligible old.status
]

unfoldable pub has_voted : EligibilityRegistry → ℕ → Bool
has_voted r voter_id = elim (Map.get r.eligible_voters voter_id) [
  | none ↦ false
  | some old ↦ is_status_voted old.status
]

unfoldable pub eligible_voters_by_jurisdiction :
    EligibilityRegistry → String → List EligibilityRecord
eligible_voters_by_jurisdiction r jurisdiction =
    filter (λ x. str_eq x.jurisdiction jurisdiction && is_status_eligible x.status)
      (Map.values r.eligible_voters)

unfoldable pub total_eligible : EligibilityRegistry → ℕ
total_eligible r = length (filter (λ x. is_status_eligible x.status) (Map.values r.eligible_voters))

unfoldable pub total_voted : EligibilityRegistry → ℕ
total_voted r = length (filter (λ x. is_status_voted x.status) (Map.values r.eligible_voters))

unfoldable pub turnout_percentage : (f : Float64) → EligibilityRegistry → f.F
unfolding total_eligible total_voted
turnout_percentage f r =
    if total_eligible r == 0
    then f.decimal 0 0
    else f.mul (f.div (f.of_usize (total_voted r)) (f.of_usize (total_eligible r)))
        (f.decimal 100 0)
