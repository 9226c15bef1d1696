-- ===== src/Tests/Elections.antt =====
-- The theorems of the voting system at one election.
use trust_the_people.Prelude.{
  String, ℕ, ◌≤◌, length, ◌≡◌, refl, ◌↔◌, false, none, some, List, [], ◌∷◌, arith,
}
use trust_the_people.Result.{Result, ok, err, panic, already_voted}
use trust_the_people.Map
use trust_the_people.Set.{set_insert}
use trust_the_people.Crypto
use trust_the_people.Crypto.{SchnorrProof}
use trust_the_people.Crypto.Signing.{verify-sign}
use trust_the_people.Voting.Election
use trust_the_people.Voting.Election.{Election, new_results, get_winner}
use trust_the_people.Voting.Election.Tally.{add_votes, IsTallied, add_votes-IsTallied}
use trust_the_people.Voting.Election.Winner.{Outcome, get_winner-IsWinner}
use trust_the_people.Voting.Voter
use trust_the_people.Voting.Voter.{
  Voter, VoterRegistration, create_registration, verify_registration, with_credentials,
  new_credentials,
}
use trust_the_people.Voting.Voter.Registration.{verify_registration-create}
use trust_the_people.Voting.Registry
use trust_the_people.Voting.Registry.{VoterRegistry}
use trust_the_people.Voting.Registry.Lookup.{new-IsWellIndexed, register_voter-get_voter}
use trust_the_people.Voting.Registry.OneVote.{amends, revokes, marks, run, mark_voted_once}
use trust_the_people.Voting.Ballot
use trust_the_people.Voting.Ballot.{Ballot, BallotBuilder, build}
use trust_the_people.Voting.Ballot.Building.{IsValidBallot, assembled, build_iff}
use trust_the_people.Voting.Casting.Stats.{from_records, votes_in_hour}
use trust_the_people.Voting.Casting.Stats.Peak.{records_in, from_records_lem}
use trust_the_people.Voting.Casting
use trust_the_people.Voting.Casting.{
  Draw, VoteCaster, VoteRecord, VoteReceipt, VoteSubmission, VotingSession, new_session, set_ballot,
  submit, submit_vote, cast_vote, get_vote_record,
}
use trust_the_people.Voting.Casting.Reachable.{
  IsSound, Reaches, start, next, registering, casting, Reaches-IsSound, record_of,
}
use trust_the_people.Voting.Casting.OneVote.{Reaches-one_vote}
use trust_the_people.Voting.Casting.Session.{MayVote, submit_vote-session}
use trust_the_people.Voting.Casting.Proxy.{submit_vote-any_voter}
use trust_the_people.Voting.Eligibility
use trust_the_people.Voting.Eligibility.{
  EligibilityChecker, EligibilityProof, EligibilityRegistry, eligible, check_eligibility,
  verify_proof,
}
use trust_the_people.Voting.Eligibility.Checking.{IsEligible, check_eligibility_iff}
use trust_the_people.Voting.Eligibility.Revocation.{mark_voted-revoked}
use trust_the_people.Tests.Polls.{
  primitives, keys, keys-IsKeyPair, utf8, codecs, election, voter, paper, draw,
}

abbrev before : VoteCaster
before = Casting.register_voter (Casting.new_caster election) 40

abbrev vote : Result (VoteCaster × VoteReceipt)
vote = cast_vote primitives codecs before voter paper keys 5 draw

abbrev after : VoteCaster
after = elim vote [ ok r ↦ r.0 | err e ↦ before | panic ↦ before ]

abbrev receipt : VoteReceipt
receipt = elim vote [
  | ok r ↦ r.1
  | err e ↦ Casting.new_receipt primitives codecs 0 0 0 0 0
  | panic ↦ Casting.new_receipt primitives codecs 0 0 0 0 0
]

abbrev stored : VoteRecord
stored = elim (get_vote_record after 40) [
  | none ↦
      record_of 0
        (record {
          ballot_id = 0;
          election_id = 0;
          voter_id = 0;
          encrypted_ballot = record { nonce = 0; ciphertext = []; associated_data = none };
          ballot_commitment = [];
          voter_signature = 0;
          cast_at = 0;
          transaction_id = none;
        })
        0
  | some r ↦ r
]

-- What casting the vote computes to.
record Cast : Type 0 where
  made : vote ≡ ok (after, receipt)
  found : get_vote_record after 40 ≡ some stored
  may : MayVote before 40 150

cast : Cast
unfolding cast_vote Casting.register_voter set_insert Casting.new_caster Map.contains_key Map.empty
    Election.is_active Ballot.validate Ballot.create Crypto.encrypt Crypto.sign get_vote_record
    Map.insert
cast = record {
  made = refl;
  found = refl;
  may = record { registered = refl; fresh = refl; active = refl };
}

before-Reaches : Reaches primitives codecs (Casting.new_caster election) before
before-Reaches = next (Casting.new_caster election) before start (registering 40)

after-Reaches : Reaches primitives codecs (Casting.new_caster election) after
after-Reaches =
    next before after before-Reaches (casting after voter paper keys 5 draw receipt cast.made)

Reaches-IsSound_example : (after.election ≡ election) × IsSound after
Reaches-IsSound_example = Reaches-IsSound primitives codecs election after after-Reaches

abbrev later : VoteCaster
later = Casting.register_voter after 41

Reaches-one_vote_example :
    (get_vote_record later 40 ≡ some stored)
    × ((ballot : Ballot) (k : Crypto.KeyPair) (key : ℕ) (d : Draw)
        → cast_vote primitives codecs later voter ballot k key d ≡ err already_voted)
    × ((cast : Ballot.CastBallot) (signature submitted_at key : ℕ) (d : Draw)
        → submit_vote primitives codecs later
            (record {
              voter_id = 40;
              cast_ballot = cast;
              submission_signature = signature;
              submitted_at = submitted_at;
            })
            key
            d
          ≡ err already_voted)
Reaches-one_vote_example =
    Reaches-one_vote primitives codecs election after later stored voter after-Reaches cast.found
      (next after later start (registering 41))

submit_vote-session_example :
    (session : VotingSession) × (submission : VoteSubmission) × (receipt : VoteReceipt)
    × (s' : VoteCaster) × (receipt' : VoteReceipt) × (set_ballot (new_session 1 voter 140) paper
        ≡ ok session)
    × (submit primitives codecs session keys 5 145 draw ≡ ok (submission, receipt))
    × (submit_vote primitives codecs before submission 7 draw ≡ ok (s', receipt'))
    × (get_vote_record s' 40 ≡ some (record_of 40 submission.cast_ballot 150))
    × (submission.cast_ballot.election_id ≡ 1)
submit_vote-session_example =
    submit_vote-session primitives codecs voter 140 paper keys 5 145 draw draw (5 ∷ 3 ∷ 11 ∷ 1 ∷ [])
      before keys-IsKeyPair refl cast.may

-- What the next vote computes to.
record Again : Type 0 where
  verified : Ballot.verify_cast primitives stored.cast_ballot 7 ≡ ok tt
  may : MayVote later 41 150

again : Again
unfolding cast_vote Casting.register_voter set_insert Casting.new_caster Map.contains_key Map.empty
    Election.is_active Ballot.validate Ballot.create Crypto.encrypt Crypto.sign get_vote_record
    Map.insert Ballot.verify_cast
again = record {
  verified =
      verify-sign primitives keys
        (Ballot.ballot_message primitives stored.cast_ballot.ballot_id
          stored.cast_ballot.election_id stored.cast_ballot.voter_id
          stored.cast_ballot.encrypted_ballot stored.cast_ballot.ballot_commitment)
        keys-IsKeyPair;
  may = record { registered = refl; fresh = refl; active = refl };
}

abbrev votes : List String
votes = "a" ∷ "b" ∷ "a" ∷ []

-- The ballot of voter 40, for voter 41.
submit_vote-any_voter_example :
    (submission : VoteSubmission) × (s' : VoteCaster) × (receipt : VoteReceipt)
    × (Casting.create_submission primitives codecs 41 stored.cast_ballot keys 160 ≡ ok submission)
    × (submit_vote primitives codecs later submission 7 draw ≡ ok (s', receipt))
    × (get_vote_record s' 41 ≡ some (record_of 41 stored.cast_ballot 150))
submit_vote-any_voter_example =
    submit_vote-any_voter primitives codecs later stored.cast_ballot keys 41 160 draw keys-IsKeyPair
      again.verified again.may

add_votes-IsTallied_example : IsTallied (add_votes (new_results 1 300) votes) votes
add_votes-IsTallied_example = add_votes-IsTallied 1 300 votes (omega arith)

get_winner-IsWinner_example : Outcome votes (get_winner (add_votes (new_results 1 300) votes))
get_winner-IsWinner_example = get_winner-IsWinner 1 300 votes (omega arith)

verify_registration-create_example :
    (r : VoterRegistration) × (create_registration primitives utf8
        (with_credentials primitives keys 50
          (record (new_credentials primitives utf8 40 "north" 45) { expires_at = some 900 }))
        keys
        60
      ≡ ok r)
    × (verify_registration primitives utf8 r ≡ ok tt)
verify_registration-create_example =
    verify_registration-create primitives utf8 keys "north" 40 45 50 60 (some 900) keys-IsKeyPair

abbrev or_empty : Result VoterRegistry → VoterRegistry
or_empty (ok r) = r
or_empty (err e) = Registry.new
or_empty panic = Registry.new

abbrev roll : VoterRegistry
roll = or_empty (Registry.register_voter Registry.new voter)

abbrev marked_roll : VoterRegistry
marked_roll = or_empty (Registry.mark_voted roll 40 1)

roll-made :
    (Registry.register_voter Registry.new voter ≡ ok roll)
    × (Registry.mark_voted roll 40 1 ≡ ok marked_roll)
unfolding Registry.register_voter Map.contains_key Registry.new Map.empty Registry.mark_voted
    Map.insert Voter.mark_voted
roll-made = (refl, refl)

mark_voted_once_example :
    Registry.mark_voted (run marked_roll (amends 40 revokes ∷ marks 40 2 ∷ [])) 40 1
    ≡ err already_voted
mark_voted_once_example =
    mark_voted_once roll marked_roll 40 1 (amends 40 revokes ∷ marks 40 2 ∷ [])
      (register_voter-get_voter Registry.new roll voter new-IsWellIndexed roll-made.0).1 roll-made.1

abbrev builder : BallotBuilder
builder = Ballot.add_builder_choice (Ballot.new_builder 1 (Ballot.multiple_choice 2)) "a"

build_iff_example : (build builder 11 120 ≡ ok (assembled builder 11 120)) ↔ (
    (assembled builder 11 120 ≡ assembled builder 11 120)
    × IsValidBallot builder.ballot_type builder.choices)
build_iff_example = build_iff builder 11 120 (assembled builder 11 120)

abbrev checker : EligibilityChecker
checker =
    Eligibility.add_eligible_voter
      (Eligibility.new_checker 1
        (Eligibility.with_jurisdiction Eligibility.default_requirements "north"))
      40

check_eligibility_iff_example :
    (check_eligibility checker voter 150 ≡ ok eligible) ↔ IsEligible checker voter 150
check_eligibility_iff_example = check_eligibility_iff checker voter 150

abbrev proof : EligibilityProof
proof = record {
  voter_id = 40;
  election_id = 1;
  proof_commitment = 1 ∷ [];
  schnorr_proof = record { challenge = 1 ∷ []; response = 2 ∷ [] };
  proof_signature = 5;
  issued_at = 100;
}

abbrev or_new : Result EligibilityRegistry → EligibilityRegistry
or_new (ok r) = r
or_new (err e) = Eligibility.new_registry 1
or_new panic = Eligibility.new_registry 1

abbrev eligibles : EligibilityRegistry
eligibles = or_new (Eligibility.register_eligible_voter (Eligibility.new_registry 1) 40 "north" 90)

abbrev marked_eligibles : EligibilityRegistry
marked_eligibles = or_new (Eligibility.mark_voted eligibles 40)

marked_eligibles-made : Eligibility.mark_voted eligibles 40 ≡ ok marked_eligibles
unfolding Eligibility.mark_voted Map.get Eligibility.register_eligible_voter Map.contains_key
    Eligibility.new_registry Map.empty Map.insert
marked_eligibles-made = refl

mark_voted-revoked_example :
    (Eligibility.mark_voted marked_eligibles 40 ≡ err already_voted)
    × (r2 : EligibilityRegistry) × (r3 : EligibilityRegistry) × (Eligibility.revoke_eligibility
          marked_eligibles 40
        ≡ ok r2)
    × (Eligibility.is_eligible r2 40 ≡ false)
    × (Eligibility.has_voted r2 40 ≡ false)
    × (Eligibility.mark_voted r2 40 ≡ ok r3)
mark_voted-revoked_example = mark_voted-revoked eligibles marked_eligibles 40 marked_eligibles-made

abbrev hourly : List VoteRecord
hourly =
    record stored { cast_at = 3600 }
    ∷ record stored { cast_at = 7300 }
    ∷ record stored { cast_at = 7199 }
    ∷ []

from_records_lem_example :
    ((from_records hourly).total_votes ≡ length hourly)
    × ((j : ℕ) → votes_in_hour (from_records hourly) j ≡ records_in j hourly)
    × ((h : ℕ)
        → (from_records hourly).peak_hour ≡ some h
        → (j : ℕ) → records_in j hourly ≤ records_in h hourly)
    × ((from_records hourly).peak_hour ≡ none → hourly ≡ [])
from_records_lem_example = from_records_lem hourly (omega arith)
