-- ===== src/Voting/Casting/OneVote.antt =====
-- One vote for each voter.
use trust_the_people.Prelude.{
  ℕ, ◌≡◌, refl, sym, ap, ◌∙◌, inl, inr, true, false, some, ◌==◌, ==_iff, Bool-cases, if-false,
}
use trust_the_people.Result.{already_voted, ok, err}
use trust_the_people.Map
use trust_the_people.Map.{Map}
use trust_the_people.Map.Laws.{contains_key-get}
use trust_the_people.Crypto.{Primitives, KeyPair}
use trust_the_people.Voting.Election.{Election}
use trust_the_people.Voting.Voter.{Voter}
use trust_the_people.Voting.Ballot.{Ballot, CastBallot}
use trust_the_people.Voting.Casting.{
  Codecs, Draw, VoteRecord, VoteCaster, new_caster, register_voter, get_vote_record, may_vote,
  recorded, cast_vote, submit_vote,
}
use trust_the_people.Voting.Casting.Reachable.{
  IsSound, Step, registering, casting, submitting, Reaches, start, next, may_vote-ok,
  get_vote_record-recorded, cast_vote-recorded, submit_vote-recorded, Reaches-IsSound,
}

voted :
    (s : VoteCaster) (k : ℕ) (r : VoteRecord)
    → get_vote_record s k ≡ some r
    → Map.contains_key s.votes_cast k ≡ true
unfolding get_vote_record
voted s k r at = contains_key-get s.votes_cast k r at

taken :
    (s : VoteCaster) (k j : ℕ) (r : VoteRecord)
    → k ≡ j
    → get_vote_record s k ≡ some r
    → Map.contains_key s.votes_cast j ≡ false
    → ⊥
taken s k j r same at fresh = cc (voted s k r at, fresh, ap (Map.contains_key s.votes_cast) same)

module _ (c : Primitives) (codecs : Codecs) where
  -- A vote on record stays as it is.
  kept_record :
      (s : VoteCaster) (j k : ℕ) (cast : CastBallot) (now : ℕ) (r : VoteRecord)
      → may_vote s j now ≡ ok tt
      → get_vote_record s k ≡ some r
      → get_vote_record (recorded s j cast now) k ≡ some r
  kept_record s j k cast now r m at = elim (Bool-cases (k == j)) [
    | inl e ↦
        let fresh = (may_vote-ok s j now m).1 in absurd (taken s k j r ((==_iff k j).0 e) at fresh)
    | inr e ↦ get_vote_record-recorded s j k cast now ∙ if-false (k == j) _ _ e ∙ at
  ]

  Step-get_vote_record :
      (s s' : VoteCaster) (k : ℕ) (r : VoteRecord)
      → get_vote_record s k ≡ some r
      → Step c codecs s s'
      → get_vote_record s' k ≡ some r
  Step-get_vote_record s s' k r at (registering j) = unfold register_voter get_vote_record in at
  Step-get_vote_record s s' k r at (casting t voter ballot kp key d q h) =
      let (cast, m, same) = cast_vote-recorded c codecs s t voter ballot kp key d q h in
      ap (λ x. get_vote_record x k) (sym same) ∙ kept_record s voter.id k cast d.now r m at
  Step-get_vote_record s s' k r at (submitting t submission key d q h) =
      let (m, same) = submit_vote-recorded c codecs s t submission key d q h in
      ap (λ x. get_vote_record x k) (sym same)
      ∙ kept_record s submission.voter_id k submission.cast_ballot d.now r m at

  Reaches-get_vote_record :
      (s s' : VoteCaster) (k : ℕ) (r : VoteRecord)
      → get_vote_record s k ≡ some r
      → Reaches c codecs s s'
      → get_vote_record s' k ≡ some r
  Reaches-get_vote_record s s' k r at start = at
  Reaches-get_vote_record s s' k r at (next t u q st) =
      Step-get_vote_record t u k r (Reaches-get_vote_record s t k r at q) st

  may_vote_again :
      (s : VoteCaster) (k now : ℕ) (r : VoteRecord)
      → IsSound s
      → get_vote_record s k ≡ some r
      → may_vote s k now ≡ err already_voted
  unfolding may_vote
  may_vote_again s k now r i at = rw (i.registered k r at, voted s k r at) refl

  Reaches-append :
      (s t u : VoteCaster) → Reaches c codecs s t → Reaches c codecs t u → Reaches c codecs s u
  Reaches-append s t u p start = p
  Reaches-append s t u p (next v w q st) = next v w (Reaches-append s t v p q) st

  -- Once a voter's vote is on record, then whatever follows: the record is the same, and every further
  -- vote of that voter is refused, cast or submitted.
  pub Reaches-one_vote :
      (e : Election) (s s' : VoteCaster) (r : VoteRecord) (voter : Voter)
      → Reaches c codecs (new_caster e) s
      → get_vote_record s voter.id ≡ some r
      → Reaches c codecs s s'
      → (get_vote_record s' voter.id ≡ some r)
        × ((ballot : Ballot) (k : KeyPair) (key : ℕ) (d : Draw)
            → cast_vote c codecs s' voter ballot k key d ≡ err already_voted)
        × ((cast : CastBallot) (signature submitted_at key : ℕ) (d : Draw)
            → submit_vote c codecs s'
                (record {
                  voter_id = voter.id;
                  cast_ballot = cast;
                  submission_signature = signature;
                  submitted_at = submitted_at;
                })
                key
                d
              ≡ err already_voted)
  unfolding cast_vote submit_vote
  Reaches-one_vote e s s' r voter from at to =
      let at' = Reaches-get_vote_record s s' voter.id r at to in
      let (same, i) = Reaches-IsSound c codecs e s' (Reaches-append (new_caster e) s s' from to) in
      (
        at',
        λ ballot k key d. rw (may_vote_again s' voter.id d.now r i at') refl,
        λ cast signature submitted_at key d. rw (may_vote_again s' voter.id d.now r i at') refl,
      )
