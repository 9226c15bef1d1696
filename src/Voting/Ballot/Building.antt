-- ===== src/Voting/Ballot/Building.antt =====
-- What a valid ballot is, and that a builder makes exactly the valid ballots.
use trust_the_people.Prelude.{
  ℕ, suc, ◌+◌, ◌≤◌, ◌≡◌, refl, sym, ap, ◌∙◌, ◌≢◌, ◌↔◌, inl, inr, Bool, true, false, some, List, [],
  ◌∷◌, ◌++◌, arith, ltb, ◌==◌, ==_iff, Bool-cases, Option-cases, length, is_empty, length-append,
}
use trust_the_people.Result.{
  text, VotingError, invalid_ballot, ok, ◌>>◌, reject_if, >>=-eq-ok, >>-eq-ok, reject_if-ok,
}
use trust_the_people.Voting.Ballot.{
  Ballot, BallotChoice, BallotType, BallotBuilder, single_choice, multiple_choice, ranked_choice,
  approval, write_in, new_ballot, has_room, add_choice, validate_ranks, validate_type, validate,
  add_choices, build,
}

-- Every choice has the rank of its place, counted from 1.
abbrev pub AreRanked : ℕ → List BallotChoice → Type 0
AreRanked i [] = Unit
AreRanked i (choice ∷ choices) = (choice.rank ≡ some (i + 1)) × AreRanked (i + 1) choices

-- What the type of a ballot asks of its choices.
abbrev pub Suits : BallotType → List BallotChoice → Type 0
Suits single_choice choices = length choices ≡ 1
Suits (multiple_choice max_choices) choices = length choices ≤ max_choices
Suits (ranked_choice max_ranks) choices = (length choices ≤ max_ranks) × AreRanked 0 choices
Suits approval choices = Unit
Suits write_in choices = Unit

abbrev pub IsValidBallot : BallotType → List BallotChoice → Type 0
IsValidBallot type choices = (is_empty choices ≡ false) × Suits type choices

differs : (rank n : ℕ) → (rank == n) ≡ false → some rank ≢ some n
differs rank n e h = let same : rank ≡ n = cc in absurd (ground (arith, (==_iff rank n).1 same))

not_above : (m n : ℕ) → n ≤ m → ltb m n ≡ false
not_above m n h = ground arith

reject_if_iff : (b : Bool) (e : VotingError) → (reject_if b e ≡ ok tt) ↔ (b ≡ false)
reject_if_iff true e = (λ h. cc, λ h. cc)
reject_if_iff false e = (λ h. refl, λ h. refl)

validate_ranks_iff :
    (i : ℕ) (choices : List BallotChoice) → (validate_ranks i choices ≡ ok tt) ↔ AreRanked i choices
unfolding validate_ranks
validate_ranks_iff i [] = (λ h. tt, λ h. refl)
validate_ranks_iff i (choice ∷ choices) = elim (Option-cases choice.rank) [
  | inl n ↦ rw (n, validate_ranks) (λ h. cc, λ h. absurd (cc h.0))
  | inr (rank, at) ↦ elim (Bool-cases (rank == i + 1)) [
    | inr e ↦ rw (at, validate_ranks, e) (λ h. cc, λ h. absurd (differs rank (i + 1) e h.0))
    | inl e ↦
        rw (at, validate_ranks, e)
          (
            λ h. (ap some ((==_iff rank (i + 1)).0 e), (validate_ranks_iff (i + 1) choices).0 h),
            λ h. (validate_ranks_iff (i + 1) choices).1 h.1,
          )
  ]
]

validate_type_iff :
    (t : BallotType) (choices : List BallotChoice)
    → (validate_type t choices ≡ ok tt) ↔ Suits t choices
unfolding validate_type
validate_type_iff single_choice choices = (λ h. ground arith, λ h. ground arith)
validate_type_iff (multiple_choice max_choices) choices = (λ h. ground arith, λ h. ground arith)
validate_type_iff (ranked_choice max_ranks) choices =
    let r = validate_ranks_iff 0 choices in
    (
      λ h.
          let (p, q) =
            >>-eq-ok
              (reject_if (ltb max_ranks (length choices)) (invalid_ballot (text "Too many ranks")))
              _ h in
          (ground (arith, reject_if-ok (ltb max_ranks (length choices)) _ p), r.0 q),
      λ h. rw (not_above max_ranks (length choices) h.0) (r.1 h.1),
    )
validate_type_iff approval choices = (λ h. tt, λ h. refl)
validate_type_iff write_in choices = (λ h. tt, λ h. refl)

-- A ballot is accepted exactly if it has a choice and suits its type, ranks in sequence included.
pub validate-IsValidBallot :
    (b : Ballot) → (validate b ≡ ok tt) ↔ IsValidBallot b.ballot_type b.choices
unfolding validate
validate-IsValidBallot b =
    let t = validate_type_iff b.ballot_type b.choices in
    (
      λ h.
          let (p, q) =
            >>-eq-ok
              (reject_if (is_empty b.choices)
                (invalid_ballot (text "Ballot must have at least one choice")))
              _ h in
          (reject_if-ok (is_empty b.choices) _ p, t.0 q),
      λ h. rw h.0 (t.1 h.1),
    )

-- The number of choices that a type allows at most.
Fits : BallotType → ℕ → Type 0
Fits single_choice n = n ≤ 1
Fits (multiple_choice max_choices) n = n ≤ max_choices
Fits (ranked_choice max_ranks) n = n ≤ max_ranks
Fits approval n = Unit
Fits write_in n = Unit

has_room-Fits :
    (t : BallotType) (choices : List BallotChoice)
    → Fits t (suc (length choices))
    → has_room t choices ≡ ok tt
unfolding has_room Fits
has_room-Fits single_choice [] h = refl
has_room-Fits single_choice (x ∷ xs) h = absurd (omega (arith, h))
has_room-Fits (multiple_choice max_choices) choices h = ground (arith, h)
has_room-Fits (ranked_choice max_ranks) choices h = ground (arith, h)
has_room-Fits approval choices h = refl
has_room-Fits write_in choices h = refl

Fits-less : (t : BallotType) (n m : ℕ) → n ≤ m → Fits t m → Fits t n
unfolding Fits
Fits-less single_choice n m l h = omega (arith, h)
Fits-less (multiple_choice max_choices) n m l h = omega (arith, h)
Fits-less (ranked_choice max_ranks) n m l h = omega (arith, h)
Fits-less approval n m l h = tt
Fits-less write_in n m l h = tt

Suits-Fits :
    (t : BallotType) (choices : List BallotChoice) → Suits t choices → Fits t (length choices)
unfolding Fits
Suits-Fits single_choice choices h = omega (arith, h)
Suits-Fits (multiple_choice max_choices) choices h = h
Suits-Fits (ranked_choice max_ranks) choices h = h.0
Suits-Fits approval choices h = tt
Suits-Fits write_in choices h = tt

abbrev pub with_choices : Ballot → List BallotChoice → Ballot
with_choices b choices = record b { choices = b.choices ++ choices }

append_assoc : (xs ys zs : List BallotChoice) → (xs ++ ys) ++ zs ≡ xs ++ (ys ++ zs)
append_assoc [] ys zs = refl
append_assoc (x ∷ xs) ys zs = ap (λ l. x ∷ l) (append_assoc xs ys zs)

append_nil : (xs : List BallotChoice) → xs ++ [] ≡ xs
append_nil [] = refl
append_nil (x ∷ xs) = ap (λ l. x ∷ l) (append_nil xs)

add_choices-Fits :
    (b : Ballot) (choices : List BallotChoice)
    → Fits b.ballot_type (length b.choices + length choices)
    → add_choices b choices ≡ ok (with_choices b choices)
unfolding add_choices add_choice
add_choices-Fits b [] h = rw (append_nil b.choices) refl
add_choices-Fits b (choice ∷ choices) h =
    let room =
      has_room-Fits b.ballot_type b.choices (Fits-less b.ballot_type _ _ (omega arith) h) in
    let next = record b { choices = b.choices ++ choice ∷ [] } in
    let size : length next.choices + length choices ≡ length b.choices + suc (length choices) =
      omega (arith, length-append b.choices (choice ∷ [])) in
    rw room (
      add_choices-Fits next choices (Fits-less b.ballot_type _ _ (omega (arith, size)) h)
      ∙ rw (append_assoc b.choices (choice ∷ []) choices) refl)

add_choices-with_choices :
    (b b' : Ballot) (choices : List BallotChoice)
    → add_choices b choices ≡ ok b'
    → with_choices b choices ≡ b'
unfolding add_choices add_choice
add_choices-with_choices b b' [] h = rw (append_nil b.choices) (cc h)
add_choices-with_choices b b' (choice ∷ choices) h =
    let next = record b { choices = b.choices ++ choice ∷ [] } in
    let (b1, added, rest) = >>=-eq-ok (add_choice b choice) (λ x. add_choices x choices) h in
    let (_, same) = >>-eq-ok (has_room b.ballot_type b.choices) (ok next) added in
    let equal : next ≡ b1 = cc in
    sym (ap (λ l. record b { choices = l }) (append_assoc b.choices (choice ∷ []) choices))
    ∙ ap (λ x. with_choices x choices) equal
    ∙ add_choices-with_choices b1 b' choices rest

-- The ballot that a builder stands for.
abbrev pub assembled : BallotBuilder → ℕ → ℕ → Ballot
assembled builder ballot_id now = record {
  ballot_id = ballot_id;
  election_id = builder.election_id;
  ballot_type = builder.ballot_type;
  choices = builder.choices;
  timestamp = now;
  version = 1;
}

-- A builder builds exactly if its choices make a valid ballot, and then that ballot; the guards of
-- `add_choice` reject no ballot that `validate` accepts.
pub build_iff :
    (builder : BallotBuilder) (ballot_id now : ℕ) (b : Ballot)
    → (build builder ballot_id now ≡ ok b)
      ↔ ((assembled builder ballot_id now ≡ b) × IsValidBallot builder.ballot_type builder.choices)
unfolding build new_ballot
build_iff builder ballot_id now b =
    let start = new_ballot ballot_id now builder.election_id builder.ballot_type in
    let made = assembled builder ballot_id now in
    let valid = validate-IsValidBallot made in
    (
      λ h.
          let (b1, added, rest) =
            >>=-eq-ok (add_choices start builder.choices) (λ x. validate x >> ok x) h in
          let (checked, same) = >>-eq-ok (validate b1) (ok b1) rest in
          let equal : made ≡ b1 = add_choices-with_choices start b1 builder.choices added in
          (equal ∙ cc, valid.0 (ap validate equal ∙ checked)),
      λ h.
          let added = add_choices-Fits start builder.choices (
            Fits-less builder.ballot_type (0 + length builder.choices) (length builder.choices)
              (omega arith) (Suits-Fits builder.ballot_type builder.choices h.1.1)) in
          rw added (rw (valid.1 h.1) (ap ok h.0)),
    )
