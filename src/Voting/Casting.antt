-- ===== src/Voting/Casting.antt =====
-- crates/voting/src/vote_casting.rs: casting and submitting votes, receipts, sessions and statistics.
-- What is drawn at random and the readings of the clock are arguments, together in `Draw`.
pub mod Reachable
pub mod OneVote
pub mod Session
pub mod Stats
pub mod Proxy
use trust_the_people.Prelude.{
  ℕ, zero, suc, String, Bool, true, false, not, Option, none, some, List, [], ◌∷◌, map, ◌==◌,
  if◌then◌else◌, length, is_empty, contains,
}
use trust_the_people.Result.{
  ◌>>=◌, ◌>>◌, text, invalid_input, voter_not_eligible, already_voted, election_not_active,
  invalid_ballot, Result, ok, err, reject_if,
}
use trust_the_people.Bytes.{as_bytes, be_bytes, u64_bytes}
use trust_the_people.Float.{Float64}
use trust_the_people.Map
use trust_the_people.Map.{Map}
use trust_the_people.Set.{set_insert}
use trust_the_people.Crypto
use trust_the_people.Crypto.{Primitives, KeyPair, hash_blake2b_multiple, constant_time_eq}
use trust_the_people.Voting.Election
use trust_the_people.Voting.Election.{Election}
use trust_the_people.Voting.Voter.{Voter}
use trust_the_people.Voting.Ballot
use trust_the_people.Voting.Ballot.{Ballot, CastBallot, verify_cast}

-- Encodings of other crates: of a string in UTF-8, of bytes in hexadecimal, of a ballot by bincode.
pub record Codecs : Type 0 where
  pub utf8 : String → List ℕ
  pub hex : List ℕ → String
  pub serialize : Ballot → List ℕ

pub record Draw : Type 0 where
  -- The time of the call, and of the ballot that is made in it.
  pub now : ℕ
  pub made_at : ℕ
  pub nonce : ℕ
  pub randomness : List ℕ
  pub receipt_id : ℕ

pub record VoteRecord : Type 0 where
  pub voter_id : ℕ
  pub cast_ballot : CastBallot
  pub cast_at : ℕ

pub record VoteCaster : Type 0 where
  pub election : Election
  pub votes_cast : Map VoteRecord
  pub voter_registry : List ℕ

pub record VoteSubmission : Type 0 where
  pub voter_id : ℕ
  pub cast_ballot : CastBallot
  pub submission_signature : ℕ
  pub submitted_at : ℕ

pub record VoteReceipt : Type 0 where
  pub receipt_id : ℕ
  pub ballot_id : ℕ
  pub election_id : ℕ
  pub voter_id : ℕ
  pub cast_at : ℕ
  pub confirmation_code : String

pub data SessionState : Type 0 where
  started : SessionState
  ballot_filled : SessionState
  submitted : SessionState
  cancelled : SessionState

pub record VotingSession : Type 0 where
  pub election_id : ℕ
  pub voter : Voter
  pub ballot : Option Ballot
  pub state : SessionState
  pub started_at : ℕ

-- `VoteCaster::new`
unfoldable pub new_caster : Election → VoteCaster
new_caster election = record { election = election; votes_cast = Map.empty; voter_registry = [] }

unfoldable pub register_voter : VoteCaster → ℕ → VoteCaster
register_voter s voter_id = record s { voter_registry = set_insert s.voter_registry voter_id }

unfoldable pub has_voted : VoteCaster → ℕ → Bool
has_voted s voter_id = Map.contains_key s.votes_cast voter_id

unfoldable pub vote_count : VoteCaster → ℕ
vote_count s = Map.len s.votes_cast

unfoldable pub get_vote_record : VoteCaster → ℕ → Option VoteRecord
get_vote_record s voter_id = Map.get s.votes_cast voter_id

unfoldable pub all_cast_ballots : VoteCaster → List CastBallot
all_cast_ballots s = map (λ r. r.cast_ballot) (Map.values s.votes_cast)

unfoldable pub registered_voters : VoteCaster → ℕ
registered_voters s = length s.voter_registry

unfoldable pub turnout_percentage : (f : Float64) → VoteCaster → f.F
turnout_percentage f s =
    if is_empty s.voter_registry
    then f.decimal 0 0
    else f.mul (f.div (f.of_usize (Map.len s.votes_cast)) (f.of_usize (length s.voter_registry)))
        (f.decimal 100 0)

-- The guards that both ways of voting begin with.
unfoldable pub may_vote : VoteCaster → ℕ → ℕ → Result (Unit {0})
may_vote s voter_id current_time = do
  reject_if (not (contains s.voter_registry voter_id))
      (voter_not_eligible (text "Voter not registered"))
  reject_if (Map.contains_key s.votes_cast voter_id) already_voted
  reject_if (not (Election.is_active s.election current_time)) election_not_active

unfoldable pub recorded : VoteCaster → ℕ → CastBallot → ℕ → VoteCaster
recorded s voter_id cast_ballot current_time = record s {
  votes_cast =
      Map.insert s.votes_cast voter_id
        (record { voter_id = voter_id; cast_ballot = cast_ballot; cast_at = current_time });
}

-- `VotingSession::new`
unfoldable pub new_session : ℕ → Voter → ℕ → VotingSession
new_session election_id voter now = record {
  election_id = election_id;
  voter = voter;
  ballot = none;
  state = started;
  started_at = now;
}

-- The derived equality.
unfoldable pub state_eq : SessionState → SessionState → Bool
state_eq started t = elim t [ started ↦ true | _ ↦ false ]
state_eq ballot_filled t = elim t [ ballot_filled ↦ true | _ ↦ false ]
state_eq submitted t = elim t [ submitted ↦ true | _ ↦ false ]
state_eq cancelled t = elim t [ cancelled ↦ true | _ ↦ false ]

unfoldable pub set_ballot : VotingSession → Ballot → Result VotingSession
unfolding state_eq
set_ballot s ballot = do
  reject_if (not (state_eq s.state started)) (invalid_input (text "Session not in correct state"))
  reject_if (not (ballot.election_id == s.election_id))
      (invalid_ballot (text "Ballot election mismatch"))
  ok (record s { ballot = some ballot; state = ballot_filled })

unfoldable pub cancel : VotingSession → VotingSession
cancel s = record s { state = cancelled }

-- The first bytes of a digest.
unfoldable pub first_bytes : ℕ → List ℕ → List ℕ
first_bytes zero bytes = []
first_bytes (suc n) [] = []
first_bytes (suc n) (b ∷ bytes) = b ∷ first_bytes n bytes

module _ (c : Primitives) (codecs : Codecs) where
  unfoldable pub generate_confirmation_code : ℕ → ℕ → String
  unfolding first_bytes
  generate_confirmation_code receipt_id ballot_id = codecs.hex (
      first_bytes 8
        (as_bytes (hash_blake2b_multiple c (as_bytes receipt_id ∷ as_bytes ballot_id ∷ []))))

  unfoldable pub new_receipt : ℕ → ℕ → ℕ → ℕ → ℕ → VoteReceipt
  unfolding generate_confirmation_code
  new_receipt receipt_id ballot_id election_id voter_id cast_at = record {
    receipt_id = receipt_id;
    ballot_id = ballot_id;
    election_id = election_id;
    voter_id = voter_id;
    cast_at = cast_at;
    confirmation_code = generate_confirmation_code receipt_id ballot_id;
  }

  unfoldable pub verify_confirmation_code : VoteReceipt → Bool
  unfolding generate_confirmation_code
  verify_confirmation_code r =
      constant_time_eq (codecs.utf8 r.confirmation_code)
        (codecs.utf8 (generate_confirmation_code r.receipt_id r.ballot_id))

  -- `VoteSubmission::compute_message`
  unfoldable pub submission_message : ℕ → CastBallot → ℕ → List ℕ
  submission_message voter_id cast_ballot submitted_at = as_bytes (
      hash_blake2b_multiple c (
        as_bytes voter_id
        ∷ as_bytes cast_ballot.ballot_id
        ∷ be_bytes 16 cast_ballot.election_id
        ∷ u64_bytes submitted_at
        ∷ []))

  -- `VoteSubmission::create`
  unfoldable pub create_submission : ℕ → CastBallot → KeyPair → ℕ → Result VoteSubmission
  unfolding submission_message
  create_submission voter_id cast_ballot voter_keypair submitted_at = do
    signature ← Crypto.sign c (submission_message voter_id cast_ballot submitted_at) voter_keypair
    ok (record {
      voter_id = voter_id;
      cast_ballot = cast_ballot;
      submission_signature = signature;
      submitted_at = submitted_at;
    })

  unfoldable pub verify_submission : VoteSubmission → ℕ → Result (Unit {0})
  unfolding submission_message
  verify_submission s voter_public_key = do
    verify_cast c s.cast_ballot voter_public_key
    Crypto.verify c (submission_message s.voter_id s.cast_ballot s.submitted_at)
        s.submission_signature voter_public_key

  unfoldable pub cast_vote :
      VoteCaster → Voter → Ballot → KeyPair → ℕ → Draw → Result (VoteCaster × VoteReceipt)
  unfolding may_vote recorded new_receipt
  cast_vote s voter ballot voter_keypair election_key d = do
    may_vote s voter.id d.now
    reject_if (not (ballot.election_id == s.election.id))
        (invalid_ballot (text "Ballot election ID mismatch"))
    Ballot.validate ballot
    cast ←
        Ballot.create c codecs.serialize ballot voter.id election_key voter_keypair d.nonce
          d.randomness d.made_at
    ok (
      recorded s voter.id cast d.now,
      new_receipt d.receipt_id cast.ballot_id s.election.id voter.id d.now,
    )

  unfoldable pub submit_vote :
      VoteCaster → VoteSubmission → ℕ → Draw → Result (VoteCaster × VoteReceipt)
  unfolding may_vote recorded new_receipt verify_submission
  submit_vote s submission voter_public_key d = do
    may_vote s submission.voter_id d.now
    verify_submission submission voter_public_key
    ok (
      recorded s submission.voter_id submission.cast_ballot d.now,
      new_receipt d.receipt_id submission.cast_ballot.ballot_id s.election.id submission.voter_id
          d.now,
    )

  -- `VotingSession::submit`; `submitted_at` is the time in the submission.
  unfoldable pub submit :
      VotingSession → KeyPair → ℕ → ℕ → Draw → Result (VoteSubmission × VoteReceipt)
  unfolding state_eq create_submission new_receipt
  submit s voter_keypair election_key submitted_at d = do
    reject_if (not (state_eq s.state ballot_filled))
        (invalid_input (text "Session not ready for submission"))
    elim s.ballot [
      | none ↦ err (invalid_input (text "No ballot in session"))
      | some ballot ↦ do
        cast ←
            Ballot.create c codecs.serialize ballot s.voter.id election_key voter_keypair d.nonce
              d.randomness d.made_at
        submission ← create_submission s.voter.id cast voter_keypair submitted_at
        ok (submission, new_receipt d.receipt_id ballot.ballot_id s.election_id s.voter.id d.now)
    ]
