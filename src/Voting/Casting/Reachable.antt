-- ===== src/Voting/Casting/Reachable.antt =====
-- Who has voted: the states that a caster reaches from an election, as steps.
use trust_the_people.Prelude.{
  ℕ, ◌≡◌, refl, sym, ap, subst, ◌∙◌, ◌⊎◌, inl, inr, true, false, not, some, arith, ◌==◌,
  if◌then◌else◌, ==_iff, Bool-cases, if-true, if-false, contains,
}
use trust_the_people.Result.{
  text, VotingError, voter_not_eligible, already_voted, invalid_ballot, ok, reject_if, >>=-eq-ok,
  >>-eq-ok, reject_if-ok,
}
use trust_the_people.Map
use trust_the_people.Map.{Map}
use trust_the_people.Map.Laws.{get-empty, get-insert}
use trust_the_people.Set.{contains-set_insert}
use trust_the_people.Crypto.{Primitives, KeyPair}
use trust_the_people.Voting.Election
use trust_the_people.Voting.Election.{Election}
use trust_the_people.Voting.Voter.{Voter}
use trust_the_people.Voting.Ballot
use trust_the_people.Voting.Ballot.{Ballot, CastBallot}
use trust_the_people.Voting.Casting.{
  Codecs, Draw, VoteRecord, VoteCaster, VoteSubmission, VoteReceipt, new_caster, register_voter,
  get_vote_record, may_vote, recorded, cast_vote, submit_vote, new_receipt, verify_submission,
}

-- Every vote on record stands under the voter id that its record names; that voter is registered, and
-- the vote was cast while the election was active. The ballot of the vote names a voter of its own.
pub record IsSound (s : VoteCaster) : Type 0 where
  pub own : (k : ℕ) (r : VoteRecord) → get_vote_record s k ≡ some r → r.voter_id ≡ k
  pub registered :
      (k : ℕ) (r : VoteRecord) → get_vote_record s k ≡ some r → contains s.voter_registry k ≡ true
  pub in_time :
      (k : ℕ) (r : VoteRecord)
      → get_vote_record s k ≡ some r
      → Election.is_active s.election r.cast_at ≡ true

abbrev not_registered : VotingError
not_registered = voter_not_eligible (text "Voter not registered")

pub may_vote-ok :
    (s : VoteCaster) (k now : ℕ)
    → may_vote s k now ≡ ok tt
    → (contains s.voter_registry k ≡ true)
      × (Map.contains_key s.votes_cast k ≡ false)
      × (Election.is_active s.election now ≡ true)
unfolding may_vote
may_vote-ok s k now h =
    let (p, h1) = >>-eq-ok (reject_if (not (contains s.voter_registry k)) not_registered) _ h in
    let (q, h2) = >>-eq-ok (reject_if (Map.contains_key s.votes_cast k) already_voted) _ h1 in
    (
      ground (arith, reject_if-ok (not (contains s.voter_registry k)) _ p),
      reject_if-ok (Map.contains_key s.votes_cast k) _ q,
      ground (arith, reject_if-ok (not (Election.is_active s.election now)) _ h2),
    )

abbrev pub record_of : ℕ → CastBallot → ℕ → VoteRecord
record_of k cast now = record { voter_id = k; cast_ballot = cast; cast_at = now }

pub get_vote_record-recorded :
    (s : VoteCaster) (k j : ℕ) (cast : CastBallot) (now : ℕ)
    → get_vote_record (recorded s k cast now) j
      ≡ (if j == k then some (record_of k cast now) else get_vote_record s j)
unfolding get_vote_record recorded
get_vote_record-recorded s k j cast now = get-insert s.votes_cast k j _

record-cases :
    (s : VoteCaster) (k j : ℕ) (cast : CastBallot) (now : ℕ) (r : VoteRecord)
    → get_vote_record (recorded s k cast now) j ≡ some r
    → ((j ≡ k) × (record_of k cast now ≡ r)) ⊎ (get_vote_record s j ≡ some r)
record-cases s k j cast now r h = elim (Bool-cases (j == k)) [
  | inl e ↦
      let new : some (record_of k cast now) ≡ some r =
        sym (if-true (j == k) _ (get_vote_record s j) e)
        ∙ sym (get_vote_record-recorded s k j cast now)
        ∙ h in
      inl ((==_iff j k).0 e, cc)
  | inr e ↦ inr (
      sym (if-false (j == k) (some (record_of k cast now)) (get_vote_record s j) e)
      ∙ sym (get_vote_record-recorded s k j cast now)
      ∙ h)
]

recorded-IsSound :
    (s : VoteCaster) (k : ℕ) (cast : CastBallot) (now : ℕ)
    → IsSound s
    → may_vote s k now ≡ ok tt
    → IsSound (recorded s k cast now)
unfolding recorded
recorded-IsSound s k cast now i m =
    let (member, fresh, active) = may_vote-ok s k now m in
    record {
      own = λ j r h. elim (record-cases s k j cast now r h) [
        | inl (same, at) ↦ sym (ap (λ x. x.voter_id) at) ∙ sym same
        | inr old ↦ i.own j r old
      ];
      registered = λ j r h. elim (record-cases s k j cast now r h) [
        | inl (same, at) ↦ ap (contains s.voter_registry) same ∙ member
        | inr old ↦ i.registered j r old
      ];
      in_time = λ j r h. elim (record-cases s k j cast now r h) [
        | inl (same, at) ↦ ap (λ x. Election.is_active s.election x.cast_at) (sym at) ∙ active
        | inr old ↦ i.in_time j r old
      ];
    }

register_voter-IsSound : (s : VoteCaster) (k : ℕ) → IsSound s → IsSound (register_voter s k)
unfolding register_voter get_vote_record
register_voter-IsSound s k i = record {
  own = i.own;
  registered =
      λ j r h. contains-set_insert s.voter_registry k j ∙ ground (arith, i.registered j r h);
  in_time = i.in_time;
}

new_caster-IsSound : (e : Election) → IsSound (new_caster e)
unfolding new_caster get_vote_record
new_caster-IsSound e = record {
  own = λ k r h. absurd (cc (sym (get-empty k) ∙ h));
  registered = λ k r h. absurd (cc (sym (get-empty k) ∙ h));
  in_time = λ k r h. absurd (cc (sym (get-empty k) ∙ h));
}

module _ (c : Primitives) (codecs : Codecs) where
  -- What changes a caster.
  pub data Step (s : VoteCaster) : VoteCaster → Type 0 where
    registering : (k : ℕ) → Step s (register_voter s k)
    casting :
        (s' : VoteCaster) (voter : Voter) (ballot : Ballot) (k : KeyPair) (key : ℕ) (d : Draw)
        (r : VoteReceipt)
        → cast_vote c codecs s voter ballot k key d ≡ ok (s', r)
        → Step s s'
    submitting :
        (s' : VoteCaster) (submission : VoteSubmission) (key : ℕ) (d : Draw) (r : VoteReceipt)
        → submit_vote c codecs s submission key d ≡ ok (s', r)
        → Step s s'

  pub data Reaches (s : VoteCaster) : VoteCaster → Type 0 where
    start : Reaches s s
    next : (t u : VoteCaster) → Reaches s t → Step t u → Reaches s u

  -- A vote that is taken passed the guards, and is what is put on record.
  pub cast_vote-recorded :
      (s s' : VoteCaster) (voter : Voter) (ballot : Ballot) (k : KeyPair) (key : ℕ) (d : Draw)
      (r : VoteReceipt)
      → cast_vote c codecs s voter ballot k key d ≡ ok (s', r)
      → (cast : CastBallot) × (may_vote s voter.id d.now ≡ ok tt)
        × (recorded s voter.id cast d.now ≡ s')
  unfolding cast_vote
  cast_vote-recorded s s' voter ballot k key d r h =
      let (m, h1) = >>-eq-ok (may_vote s voter.id d.now) _ h in
      let (e, h2) =
        >>-eq-ok
          (reject_if (not (ballot.election_id == s.election.id))
            (invalid_ballot (text "Ballot election ID mismatch")))
          _ h1 in
      let (v, h3) = >>-eq-ok (Ballot.validate ballot) _ h2 in
      let made =
        Ballot.create c codecs.serialize ballot voter.id key k d.nonce d.randomness d.made_at in
      let (cast, h4, h5) =
        >>=-eq-ok made
          (λ x. ok (
            recorded s voter.id x d.now,
            new_receipt c codecs d.receipt_id x.ballot_id s.election.id voter.id d.now,
          ))
          h3 in
      (cast, m, cc)

  pub submit_vote-recorded :
      (s s' : VoteCaster) (submission : VoteSubmission) (key : ℕ) (d : Draw) (r : VoteReceipt)
      → submit_vote c codecs s submission key d ≡ ok (s', r)
      → (may_vote s submission.voter_id d.now ≡ ok tt)
        × (recorded s submission.voter_id submission.cast_ballot d.now ≡ s')
  unfolding submit_vote
  submit_vote-recorded s s' submission key d r h =
      let (m, h1) = >>-eq-ok (may_vote s submission.voter_id d.now) _ h in
      let (v, h2) = >>-eq-ok (verify_submission c codecs submission key) (ok (_, _)) h1 in (m, cc)

  Step-election : (s s' : VoteCaster) → Step s s' → s'.election ≡ s.election
  unfolding register_voter recorded
  Step-election s s' (registering k) = refl
  Step-election s s' (casting t voter ballot k key d r h) =
      let (cast, m, same) = cast_vote-recorded s t voter ballot k key d r h in
      ap (λ x. x.election) (sym same)
  Step-election s s' (submitting t submission key d r h) =
      let (m, same) = submit_vote-recorded s t submission key d r h in
      ap (λ x. x.election) (sym same)

  Step-IsSound : (s s' : VoteCaster) → IsSound s → Step s s' → IsSound s'
  Step-IsSound s s' i (registering k) = register_voter-IsSound s k i
  Step-IsSound s s' i (casting t voter ballot k key d r h) =
      let (cast, m, same) = cast_vote-recorded s t voter ballot k key d r h in
      subst IsSound same (recorded-IsSound s voter.id cast d.now i m)
  Step-IsSound s s' i (submitting t submission key d r h) =
      let (m, same) = submit_vote-recorded s t submission key d r h in
      subst IsSound same (recorded-IsSound s submission.voter_id submission.cast_ballot d.now i m)

  -- In every state that a caster reaches from a new one: the election is the one it was made for, and
  -- every vote on record stands under the voter id that its record names, of a voter who is registered,
  -- and was cast while the election was active.
  pub Reaches-IsSound :
      (e : Election) (s : VoteCaster) → Reaches (new_caster e) s → (s.election ≡ e) × IsSound s
  Reaches-IsSound e s start = (unfold new_caster in refl, new_caster-IsSound e)
  Reaches-IsSound e s (next t u r st) =
      let (same, i) = Reaches-IsSound e t r in (Step-election t u st ∙ same, Step-IsSound t u i st)
