-- ===== src/Voting/Casting/Session.antt =====
-- A ballot that goes through a session reaches the record of a caster.
use trust_the_people.Prelude.{
  ℕ, ◌≡◌, refl, ap, ◌∙◌, true, false, some, List, ◌==◌, ==_refl, if-true, contains,
}
use trust_the_people.Result.{ok}
use trust_the_people.Map
use trust_the_people.Map.{Map}
use trust_the_people.Crypto
use trust_the_people.Crypto.{Primitives, KeyPair, constant_time_eq}
use trust_the_people.Crypto.Equality.{constant_time_eq_iff}
use trust_the_people.Crypto.Signing.{IsKeyPair, verify-sign}
use trust_the_people.Voting.Election
use trust_the_people.Voting.Voter.{Voter}
use trust_the_people.Voting.Ballot.{Ballot}
use trust_the_people.Voting.Ballot.Signing.{create-IsCastOf}
use trust_the_people.Voting.Casting.{
  Codecs, Draw, VoteCaster, VoteSubmission, VoteReceipt, VotingSession, new_session, set_ballot,
  get_vote_record, may_vote, recorded, submit_vote, submit, create_submission, verify_submission,
  submission_message, new_receipt, verify_confirmation_code, state_eq, ballot_filled,
}
use trust_the_people.Voting.Casting.Reachable.{get_vote_record-recorded, record_of}

-- A voter may vote: registered, with no vote on record, while the election is active.
pub record MayVote (s : VoteCaster) (k now : ℕ) : Type 0 where
  pub registered : contains s.voter_registry k ≡ true
  pub fresh : Map.contains_key s.votes_cast k ≡ false
  pub active : Election.is_active s.election now ≡ true

pub MayVote-ok : (s : VoteCaster) (k now : ℕ) → MayVote s k now → may_vote s k now ≡ ok tt
unfolding may_vote
MayVote-ok s k now m = rw (m.registered, m.fresh, m.active) refl

module _ (c : Primitives) (codecs : Codecs) where
  -- A receipt carries its own confirmation code.
  pub verify_confirmation_code-new :
      (receipt_id ballot_id election_id voter_id cast_at : ℕ)
      → verify_confirmation_code c codecs
          (new_receipt c codecs receipt_id ballot_id election_id voter_id cast_at)
        ≡ true
  unfolding verify_confirmation_code new_receipt
  verify_confirmation_code-new receipt_id ballot_id election_id voter_id cast_at =
      (constant_time_eq_iff (codecs.utf8 _) (codecs.utf8 _)).1 refl

  -- What a session makes of a ballot: a submission of the voter that verifies.
  pub record IsSubmissionOf (b : Ballot) (voter : Voter) (k : KeyPair) (submission : VoteSubmission)
      : Type 0 where
    pub voter_id : submission.voter_id ≡ voter.id
    pub ballot_id : submission.cast_ballot.ballot_id ≡ b.ballot_id
    pub election_id : submission.cast_ballot.election_id ≡ b.election_id
    pub verified : verify_submission c codecs submission k.public ≡ ok tt

  filled : Voter → ℕ → Ballot → VotingSession
  filled voter t b = record (new_session b.election_id voter t) {
    ballot = some b;
    state = ballot_filled;
  }

  set_ballot-filled :
      (voter : Voter) (t : ℕ) (b : Ballot)
      → set_ballot (new_session b.election_id voter t) b ≡ ok (filled voter t b)
  unfolding set_ballot new_session state_eq filled
  set_ballot-filled voter t b = rw (==_refl b.election_id) refl

  submit-IsSubmissionOf :
      (voter : Voter) (t : ℕ) (b : Ballot) (k : KeyPair) (key submitted_at : ℕ) (d : Draw)
      (ciphertext : List ℕ)
      → IsKeyPair c k
      → c.seal key d.nonce (codecs.serialize b) ≡ some ciphertext
      → (submission : VoteSubmission) × (receipt : VoteReceipt) × (submit c codecs
            (filled voter t b)
            k
            key
            submitted_at
            d
          ≡ ok (submission, receipt))
        × IsSubmissionOf b voter k submission
  unfolding submit filled new_session state_eq create_submission Crypto.sign
  submit-IsSubmissionOf voter t b k key submitted_at d ciphertext h s =
      let (cast, made, i) =
        create-IsCastOf c codecs.serialize b voter.id key k d.nonce d.randomness ciphertext
          d.made_at h s in
      let submission : VoteSubmission = record {
        voter_id = voter.id;
        cast_ballot = cast;
        submission_signature =
            c.signature_of k.private (submission_message c codecs voter.id cast submitted_at);
        submitted_at = submitted_at;
      } in
      (
        submission,
        new_receipt c codecs d.receipt_id b.ballot_id b.election_id voter.id d.now,
        rw (made, submit) refl,
        record {
          voter_id = refl;
          ballot_id = i.ballot_id;
          election_id = i.election_id;
          verified = unfold verify_submission in rw i.verified (verify-sign c k _ h);
        },
      )

  -- A ballot filled into a new session of its election, and submitted with a key pair to a caster where
  -- the voter may vote, is put on record: whichever election the caster is for, and whatever the choices
  -- of the ballot are.
  pub submit_vote-session :
      (voter : Voter) (t : ℕ) (b : Ballot) (k : KeyPair) (key submitted_at : ℕ) (d d' : Draw)
      (ciphertext : List ℕ) (s : VoteCaster)
      → IsKeyPair c k
      → c.seal key d.nonce (codecs.serialize b) ≡ some ciphertext
      → MayVote s voter.id d'.now
      → (session : VotingSession) × (submission : VoteSubmission) × (receipt : VoteReceipt)
        × (s' : VoteCaster) × (receipt' : VoteReceipt) × (set_ballot
              (new_session b.election_id voter t)
              b
            ≡ ok session)
        × (submit c codecs session k key submitted_at d ≡ ok (submission, receipt))
        × (submit_vote c codecs s submission k.public d' ≡ ok (s', receipt'))
        × (get_vote_record s' voter.id ≡ some (record_of voter.id submission.cast_ballot d'.now))
        × (submission.cast_ballot.election_id ≡ b.election_id)
  unfolding submit_vote
  submit_vote-session voter t b k key submitted_at d d' ciphertext s h e m =
      let (submission, receipt, made, i) =
        submit-IsSubmissionOf voter t b k key submitted_at d ciphertext h e in
      let allowed : may_vote s submission.voter_id d'.now ≡ ok tt =
        ap (λ x. may_vote s x d'.now) i.voter_id ∙ MayVote-ok s voter.id d'.now m in
      let stored = recorded s submission.voter_id submission.cast_ballot d'.now in
      (
        filled voter t b,
        submission,
        receipt,
        stored,
        new_receipt c codecs d'.receipt_id submission.cast_ballot.ballot_id s.election.id
            submission.voter_id d'.now,
        set_ballot-filled voter t b,
        made,
        rw (allowed, i.verified) refl,
        ap (λ x. get_vote_record (recorded s x submission.cast_ballot d'.now) voter.id) i.voter_id
            ∙ get_vote_record-recorded s voter.id voter.id submission.cast_ballot d'.now
            ∙ if-true (voter.id == voter.id) _ _ (==_refl voter.id),
        i.election_id,
      )
