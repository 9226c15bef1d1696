-- ===== src/Voting/Casting/Proxy.antt =====
-- Whose ballot `submit_vote` puts on record.
use trust_the_people.Prelude.{ℕ, ◌≡◌, refl, ◌∙◌, some, ◌==◌, ==_refl, if-true}
use trust_the_people.Result.{ok}
use trust_the_people.Crypto
use trust_the_people.Crypto.{Primitives, KeyPair}
use trust_the_people.Crypto.Signing.{IsKeyPair, verify-sign}
use trust_the_people.Voting.Ballot.{CastBallot, verify_cast}
use trust_the_people.Voting.Casting.{
  Codecs, Draw, VoteCaster, VoteSubmission, VoteReceipt, get_vote_record, recorded, submit_vote,
  create_submission, verify_submission, submission_message, new_receipt,
}
use trust_the_people.Voting.Casting.Reachable.{get_vote_record-recorded, record_of}
use trust_the_people.Voting.Casting.Session.{MayVote, MayVote-ok}

module _ (c : Primitives) (codecs : Codecs) where
  -- A ballot that verifies with a key pair, whichever voter it names, can be submitted with that key pair
  -- for any voter who may vote, and is put on record as that voter's.
  pub submit_vote-any_voter :
      (s : VoteCaster) (b : CastBallot) (k : KeyPair) (voter_id submitted_at : ℕ) (d : Draw)
      → IsKeyPair c k
      → verify_cast c b k.public ≡ ok tt
      → MayVote s voter_id d.now
      → (submission : VoteSubmission) × (s' : VoteCaster) × (receipt : VoteReceipt)
        × (create_submission c codecs voter_id b k submitted_at ≡ ok submission)
        × (submit_vote c codecs s submission k.public d ≡ ok (s', receipt))
        × (get_vote_record s' voter_id ≡ some (record_of voter_id b d.now))
  unfolding create_submission Crypto.sign submit_vote verify_submission
  submit_vote-any_voter s b k voter_id submitted_at d h v m =
      let submission : VoteSubmission = record {
        voter_id = voter_id;
        cast_ballot = b;
        submission_signature =
            c.signature_of k.private (submission_message c codecs voter_id b submitted_at);
        submitted_at = submitted_at;
      } in
      (
        submission,
        recorded s voter_id b d.now,
        new_receipt c codecs d.receipt_id b.ballot_id s.election.id voter_id d.now,
        refl,
        rw
            (
              MayVote-ok s voter_id d.now m,
              v,
              verify-sign c k (submission_message c codecs voter_id b submitted_at) h,
            )
            refl,
        get_vote_record-recorded s voter_id voter_id b d.now
            ∙ if-true (voter_id == voter_id) _ _ (==_refl voter_id),
      )
