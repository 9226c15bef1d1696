-- ===== src/Voting/Eligibility/Checking.antt =====
-- What the checker asks of a voter.
use trust_the_people.Prelude.{
  ℕ, ◌≡◌, refl, sym, ap, ◌∙◌, ◌≢◌, ◌↔◌, ◌⊎◌, ◌<◌, arith, inl, inr, Bool, true, false, not, ◌||◌,
  Option, none, some, String, List, if◌then◌else◌, Bool-cases, is_empty, contains,
}
use package.text.Mathlib.Text.{◌==◌ as str_eq}
use package.text.Mathlib.TextEquality.{eq_iff as str_eq_iff}
use trust_the_people.Result.{Result, ok, ◌>>=◌, ◌>>◌}
use trust_the_people.Crypto
use trust_the_people.Crypto.{Primitives, SchnorrProof, verify_schnorr}
use trust_the_people.Voting.Voter
use trust_the_people.Voting.Voter.{Voter, VoterCredentials}
use trust_the_people.Voting.Eligibility.{
  EligibilityChecker, EligibilityRequirements, EligibilityProof, EligibilityStatus, eligible,
  not_registered, not_eligible, has_already_voted, credentials_expired, no_credentials,
  wrong_jurisdiction, age_verification_required, check_eligibility, is_wrong_jurisdiction,
  verify_proof, proof_message,
}

-- Credentials that are of the jurisdiction required, where one is.
abbrev pub MeetsJurisdiction : EligibilityRequirements → VoterCredentials → Type 0
MeetsJurisdiction r d =
    (r.require_jurisdiction_match ≡ false)
    ⊎ ((r.jurisdiction ≡ none) ⊎ (r.jurisdiction ≡ some d.jurisdiction))

-- Credentials that do not expire, or expire later than now.
abbrev pub IsUnexpired : VoterCredentials → ℕ → Type 0
IsUnexpired d now = (d.expires_at ≡ none) ⊎ ((t : ℕ) × (d.expires_at ≡ some t) × (now < t))

-- The conditions in which a voter is eligible.
pub record IsEligible (c : EligibilityChecker) (v : Voter) (now : ℕ) : Type 0 where
  pub registered : (v.status ≡ Voter.registered) ⊎ (v.status ≡ Voter.verified)
  pub not_voted : contains v.elections_voted c.election_id ≡ false
  pub listed : contains c.eligible_voters v.id ≡ true
  pub credentials : VoterCredentials
  pub holds : v.credentials ≡ some credentials
  pub valid : IsUnexpired credentials now
  pub jurisdiction : MeetsJurisdiction c.requirements credentials
  pub no_age : c.requirements.require_age_verification ≡ false

is_registered_iff :
    (v : Voter)
    → (Voter.is_registered v ≡ true) ↔ ((v.status ≡ Voter.registered) ⊎ (v.status ≡ Voter.verified))
unfolding Voter.is_registered
is_registered_iff v = (ground arith, ground arith)

is_valid_iff : (d : VoterCredentials) (now : ℕ) → (Voter.is_valid d now ≡ true) ↔ IsUnexpired d now
unfolding Voter.is_valid
is_valid_iff d now = (ground arith, ground arith)

not-not : (b : Bool) → not b ≡ false → b ≡ true
not-not true h = refl
not-not false h = cc

another_iff :
    (o : Option String) (s : String)
    → (elim o [ none ↦ false | some required ↦ not (str_eq s required) ] ≡ false)
      ↔ ((o ≡ none) ⊎ (o ≡ some s))
another_iff none s = (λ h. inl refl, λ h. refl)
another_iff (some q) s = (
  λ h. inr (ap some (sym ((str_eq_iff s q).0 (not-not _ h)))),
  λ h. elim h [
    | inl e ↦ absurd (cc e)
    | inr e ↦ let same : s ≡ q = cc e in ap not ((str_eq_iff s q).1 same)
  ],
)

is_wrong_jurisdiction_iff :
    (r : EligibilityRequirements) (d : VoterCredentials)
    → (is_wrong_jurisdiction r d ≡ false) ↔ MeetsJurisdiction r d
unfolding is_wrong_jurisdiction
is_wrong_jurisdiction_iff r d = elim (Bool-cases r.require_jurisdiction_match) [
  | inl required ↦
      let (to, from) = another_iff r.jurisdiction d.jurisdiction in
      rw required (λ h. inr (to h), λ h. elim h [ inl e ↦ cc | inr m ↦ from m ])
  | inr free ↦ (λ h. inl free, λ h. rw free refl)
]

-- A guard that gives another answer has not fired.
else_of :
    (b : Bool) (x rest : Result EligibilityStatus)
    → x ≢ ok eligible
    → (if b then x else rest) ≡ ok eligible
    → (b ≡ false) × (rest ≡ ok eligible)
else_of true x rest n h = absurd (n h)
else_of false x rest n h = (refl, h)

abbrev with_credentials :
    (c : EligibilityChecker) (now : ℕ) → VoterCredentials → Result EligibilityStatus
with_credentials c now d =
    if not (Voter.is_valid d now)
    then ok credentials_expired
    else if is_wrong_jurisdiction c.requirements d
    then ok wrong_jurisdiction
    else if c.requirements.require_age_verification
    then ok age_verification_required
    else ok eligible

credentials_of :
    (c : EligibilityChecker) (now : ℕ) (o : Option VoterCredentials)
    → elim o [ none ↦ ok no_credentials | some d ↦ with_credentials c now d ] ≡ ok eligible
    → (d : VoterCredentials) × (o ≡ some d) × (with_credentials c now d ≡ ok eligible)
credentials_of c now none h = cc
credentials_of c now (some d) h = (d, refl, h)

-- The checker finds a voter eligible exactly under the conditions of `IsEligible`.
pub check_eligibility_iff :
    (c : EligibilityChecker) (v : Voter) (now : ℕ)
    → (check_eligibility c v now ≡ ok eligible) ↔ IsEligible c v now
unfolding check_eligibility Voter.has_voted
check_eligibility_iff c v now = (
  λ h.
      let (e1, h1) = else_of (not (Voter.is_registered v)) (ok not_registered) _ (λ q. cc) h in
      let (e2, h2) =
        else_of (Voter.has_voted v c.election_id) (ok has_already_voted) _ (λ q. cc) h1 in
      let (e3, h3) =
        else_of (not (contains c.eligible_voters v.id)) (ok not_eligible) _ (λ q. cc) h2 in
      let (d, at, h4) = credentials_of c now v.credentials h3 in
      let (e5, h5) = else_of (not (Voter.is_valid d now)) (ok credentials_expired) _ (λ q. cc) h4 in
      let (e6, h6) =
        else_of (is_wrong_jurisdiction c.requirements d) (ok wrong_jurisdiction) _ (λ q. cc) h5 in
      let (e7, h7) =
        else_of c.requirements.require_age_verification (ok age_verification_required) _ (λ q. cc)
          h6 in
      record {
        registered = (is_registered_iff v).0 (not-not _ e1);
        not_voted = e2;
        listed = not-not _ e3;
        credentials = d;
        holds = at;
        valid = (is_valid_iff d now).0 (not-not _ e5);
        jurisdiction = (is_wrong_jurisdiction_iff c.requirements d).0 e6;
        no_age = e7;
      },
  λ h.
      rw
        (
          (is_registered_iff v).1 h.registered,
          h.not_voted,
          h.listed,
          h.holds,
          check_eligibility,
          (is_valid_iff h.credentials now).1 h.valid,
          (is_wrong_jurisdiction_iff c.requirements h.credentials).1 h.jurisdiction,
          h.no_age,
        )
        refl,
)

abbrev done : Result (Unit {0})
done = ok tt

schnorr_ignored :
    (s : SchnorrProof) (value : List ℕ) → (verify_schnorr s value >>= λ answer. done) ≡ done
unfolding verify_schnorr
schnorr_ignored s value = elim (Bool-cases (is_empty s.challenge || is_empty s.response)) [
  | inl e ↦ rw e refl
  | inr e ↦ rw e refl
]

module _ (p : Primitives) where
  -- The verification of an eligibility proof does not depend on its Schnorr proof.
  pub verify_proof-schnorr :
      (q : EligibilityProof) (s : SchnorrProof) (key : ℕ)
      → verify_proof p (record q { schnorr_proof = s }) key ≡ verify_proof p q key
  unfolding verify_proof
  verify_proof-schnorr q s key =
      ap
        (λ (x : Result (Unit {0})).
          Crypto.verify p (proof_message p q.voter_id q.election_id q.proof_commitment q.issued_at)
            q.proof_signature key
          >> x)
        (schnorr_ignored s q.proof_commitment
          ∙ sym (schnorr_ignored q.schnorr_proof q.proof_commitment))
