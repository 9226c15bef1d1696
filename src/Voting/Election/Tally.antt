-- ===== src/Voting/Election/Tally.antt =====
-- The tally counts each vote once, for its candidate, in whatever order the votes come.
use trust_the_people.Prelude.{
  ℕ, suc, ◌+◌, ◌^◌, ◌<◌, String, ◌≡◌, refl, sym, ap, ◌∙◌, inl, inr, Bool, true, false, ◌||◌, List,
  [], ◌∷◌, ◌++◌, arith, if◌then◌else◌, Bool-cases, if-true, if-false, length, any, length-append,
}
use trust_the_people.Result.{text}
use package.text.Mathlib.Text.{◌==◌ as str_eq}
use package.text.Mathlib.TextEquality.{eq_iff as str_eq_iff}
use trust_the_people.Voting.Election.{
  CandidateTally, ElectionResults, new_results, add_to_tallies, add_vote,
}

abbrev pub add_votes : ElectionResults → List String → ElectionResults
add_votes r [] = r
add_votes r (vote ∷ votes) = add_votes (add_vote r vote) votes

-- The votes of a list for a candidate.
abbrev pub count : List String → String → ℕ
count [] candidate = 0
count (vote ∷ votes) candidate =
    let rest = count votes candidate in if str_eq vote candidate then suc rest else rest

-- What the tallies say of a candidate.
abbrev pub votes_for : List CandidateTally → String → ℕ
votes_for [] candidate = 0
votes_for (t ∷ ts) candidate =
    let rest = votes_for ts candidate in
    if str_eq t.candidate_id candidate then t.vote_count else rest

abbrev pub sum_counts : List CandidateTally → ℕ
sum_counts [] = 0
sum_counts (t ∷ ts) = t.vote_count + sum_counts ts

-- Each candidate has one tally.
abbrev pub has_tally : List CandidateTally → String → Bool
has_tally ts candidate = any (λ t. str_eq t.candidate_id candidate) ts

abbrev pub OneEach : List CandidateTally → Type 0
OneEach [] = Unit
OneEach (t ∷ ts) = (has_tally ts t.candidate_id ≡ false) × OneEach ts

str_eq-left : (a b c : String) → str_eq a b ≡ true → str_eq a c ≡ str_eq b c
str_eq-left a b c h = ap (λ s. str_eq s c) ((str_eq_iff a b).0 h)

str_eq-differ : (a b c : String) → str_eq a b ≡ false → str_eq a c ≡ true → str_eq b c ≡ false
str_eq-differ a b c h k = elim (Bool-cases (str_eq b c)) [
  | inr e ↦ e
  | inl e ↦
      let same : a ≡ b = (str_eq_iff a c).0 k ∙ sym ((str_eq_iff b c).0 e) in
      absurd (ground (arith, (str_eq_iff a b).1 same))
]

str_eq-swap : (a b : String) → str_eq a b ≡ false → str_eq b a ≡ false
str_eq-swap a b h = elim (Bool-cases (str_eq b a)) [
  | inr e ↦ e
  | inl e ↦ absurd (ground (arith, (str_eq_iff a b).1 (sym ((str_eq_iff b a).0 e))))
]

or_absorb : (a b : Bool) → (a || b) ≡ (a || (a || b))
or_absorb true b = refl
or_absorb false b = refl

or_swap : (a b c : Bool) → (a || (b || c)) ≡ (b || (a || c))
or_swap true true c = refl
or_swap true false c = refl
or_swap false b c = refl

both_false : (a b : Bool) → a ≡ false → b ≡ false → (a || b) ≡ false
both_false true b h k = h
both_false false b h k = k

sum_counts-add :
    (ts : List CandidateTally) (v : String)
    → suc (sum_counts ts) < 2 ^ 64
    → sum_counts (add_to_tallies ts v) ≡ suc (sum_counts ts)
unfolding add_to_tallies
sum_counts-add [] v l = refl
sum_counts-add (t ∷ ts) v l = elim (Bool-cases (str_eq t.candidate_id v)) [
  | inl e ↦ rw e (omega (arith, l))
  | inr e ↦ rw e (let ih = sum_counts-add ts v (omega (arith, l)) in omega (arith, ih))
]

votes_for-add :
    (ts : List CandidateTally) (v c : String)
    → suc (sum_counts ts) < 2 ^ 64
    → votes_for (add_to_tallies ts v) c
      ≡ (if str_eq v c then suc (votes_for ts c) else votes_for ts c)
unfolding add_to_tallies
votes_for-add [] v c l = refl
votes_for-add (t ∷ ts) v c l = elim (Bool-cases (str_eq t.candidate_id v)) [
  | inl e ↦ elim (Bool-cases (str_eq t.candidate_id c)) [
    | inl f ↦ rw (e, f, sym (str_eq-left t.candidate_id v c e) ∙ f) (omega (arith, l))
    | inr f ↦ rw (e, f, sym (str_eq-left t.candidate_id v c e) ∙ f)
  ]
  | inr e ↦ elim (Bool-cases (str_eq t.candidate_id c)) [
    | inl f ↦ rw (e, f, str_eq-differ t.candidate_id v c e f)
    | inr f ↦ rw (e, f) (votes_for-add ts v c (omega (arith, l)))
  ]
]

has_tally-add :
    (ts : List CandidateTally) (v c : String)
    → has_tally (add_to_tallies ts v) c ≡ (str_eq v c || has_tally ts c)
unfolding add_to_tallies
has_tally-add [] v c = refl
has_tally-add (t ∷ ts) v c = elim (Bool-cases (str_eq t.candidate_id v)) [
  | inl e ↦ rw (e, str_eq-left t.candidate_id v c e) (or_absorb (str_eq v c) (has_tally ts c))
  | inr e ↦ rw e (
      ap (λ b. str_eq t.candidate_id c || b) (has_tally-add ts v c)
      ∙ or_swap (str_eq t.candidate_id c) (str_eq v c) (has_tally ts c))
]

OneEach-add : (ts : List CandidateTally) (v : String) → OneEach ts → OneEach (add_to_tallies ts v)
unfolding add_to_tallies
OneEach-add [] v o = (refl, tt)
OneEach-add (t ∷ ts) v o = elim (Bool-cases (str_eq t.candidate_id v)) [
  | inl e ↦ rw e o
  | inr e ↦ rw e (
    has_tally-add ts v t.candidate_id ∙ both_false _ _ (str_eq-swap t.candidate_id v e) o.0,
    OneEach-add ts v o.1,
  )
]

pub record IsTallied (r : ElectionResults) (votes : List String) : Type 0 where
  pub total : r.total_votes ≡ length votes
  pub summed : sum_counts r.candidate_tallies ≡ length votes
  pub one_each : OneEach r.candidate_tallies
  pub counted : (c : String) → votes_for r.candidate_tallies c ≡ count votes c

count-append :
    (vs : List String) (v c : String)
    → count (vs ++ v ∷ []) c ≡ (if str_eq v c then suc (count vs c) else count vs c)
count-append [] v c = refl
count-append (x ∷ xs) v c = elim (Bool-cases (str_eq x c)) [
  | inl e ↦ elim (Bool-cases (str_eq v c)) [
    | inl f ↦ let ih = count-append xs v c ∙ if-true (str_eq v c) _ _ f in rw (e, f) (ap suc ih)
    | inr f ↦ let ih = count-append xs v c ∙ if-false (str_eq v c) _ _ f in rw (e, f) (ap suc ih)
  ]
  | inr e ↦ rw e (count-append xs v c)
]

add_vote-IsTallied :
    (r : ElectionResults) (vs : List String) (v : String)
    → suc (length vs) < 2 ^ 64
    → IsTallied r vs
    → IsTallied (add_vote r v) (vs ++ v ∷ [])
unfolding add_vote
add_vote-IsTallied r vs v l h =
    let size = length-append vs (v ∷ []) in
    let room : suc (sum_counts r.candidate_tallies) < 2 ^ 64 = omega (arith, h.summed) in
    record {
      total = omega (arith, h.total, size);
      summed = sum_counts-add r.candidate_tallies v room ∙ omega (arith, h.summed, size);
      one_each = OneEach-add r.candidate_tallies v h.one_each;
      counted = λ c.
          votes_for-add r.candidate_tallies v c room
          ∙ ap (λ n. if str_eq v c then suc n else n) (h.counted c)
          ∙ sym (count-append vs v c);
    }

append_assoc :
    (xs : List String) (y : String) (ys : List String) → (xs ++ y ∷ []) ++ ys ≡ xs ++ y ∷ ys
append_assoc [] y ys = refl
append_assoc (x ∷ xs) y ys = ap (λ l. x ∷ l) (append_assoc xs y ys)

append_nil : (xs : List String) → xs ++ [] ≡ xs
append_nil [] = refl
append_nil (x ∷ xs) = ap (λ l. x ∷ l) (append_nil xs)

add_votes_from :
    (vs : List String) (r : ElectionResults) (old : List String)
    → length old + length vs < 2 ^ 64
    → IsTallied r old
    → IsTallied (add_votes r vs) (old ++ vs)
add_votes_from [] r old l h = rw (append_nil old) h
add_votes_from (v ∷ vs) r old l h =
    let size = length-append old (v ∷ []) in
    rw (← append_assoc old v vs) (
      add_votes_from vs (add_vote r v) (old ++ v ∷ []) (omega (arith, size))
        (add_vote-IsTallied r old v (omega arith) h))

-- As long as there are fewer than 2 ^ 64 votes: the total is their number, each candidate has one tally,
-- and it is the number of the votes for that candidate.
pub add_votes-IsTallied :
    (election_id now : ℕ) (votes : List String)
    → length votes < 2 ^ 64
    → IsTallied (add_votes (new_results election_id now) votes) votes
unfolding new_results
add_votes-IsTallied election_id now votes l =
    add_votes_from votes (new_results election_id now) [] (omega arith)
      (record { total = refl; summed = refl; one_each = tt; counted = λ c. refl })
