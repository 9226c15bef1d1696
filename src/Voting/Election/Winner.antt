-- ===== src/Voting/Election/Winner.antt =====
-- The winner of a tally.
use trust_the_people.Prelude.{
  ℕ, ◌^◌, ◌≤◌, ◌<◌, String, ◌≡◌, refl, sym, ap, subst, ◌∙◌, inl, inr, Bool, true, false, ◌||◌,
  Option, none, some, List, [], ◌∷◌, arith, leb, leb→le, Bool-cases, if-true, if-false, length, In,
  All,
}
use trust_the_people.Result.{text}
use package.text.Mathlib.Text.{◌==◌ as str_eq}
use package.text.Mathlib.TextEquality.{eq_iff as str_eq_iff}
use trust_the_people.Voting.Election.{
  CandidateTally, ElectionResults, new_results, max_tally, get_winner,
}
use trust_the_people.Voting.Election.Tally.{
  add_votes, count, votes_for, sum_counts, has_tally, OneEach, IsTallied, add_votes-IsTallied,
}

-- The greatest tally.
AtMost : ℕ → List CandidateTally → Type 0
AtMost n ts = All (λ (t : CandidateTally). t.vote_count ≤ n) ts

less_of_not : (a b : ℕ) → leb a b ≡ false → b ≤ a
less_of_not a b h = ground arith

max_tally-greatest :
    (best : CandidateTally) (ts : List CandidateTally)
    → In (max_tally best ts) (best ∷ ts) × AtMost (max_tally best ts).vote_count (best ∷ ts)
unfolding max_tally AtMost
max_tally-greatest best [] = (inl refl, (omega arith, tt))
max_tally-greatest best (t ∷ ts) = elim (Bool-cases (leb best.vote_count t.vote_count)) [
  | inl e ↦
      let (there, above) = max_tally-greatest t ts in
      subst (λ w. In w (best ∷ t ∷ ts) × AtMost w.vote_count (best ∷ t ∷ ts))
        (ap (λ x. max_tally x ts) (sym (if-true (leb best.vote_count t.vote_count) t best e)))
        (inr there, (omega (arith, leb→le _ _ e, above.0), above))
  | inr e ↦
      let (there, above) = max_tally-greatest best ts in
      subst (λ w. In w (best ∷ t ∷ ts) × AtMost w.vote_count (best ∷ t ∷ ts))
        (ap (λ x. max_tally x ts) (sym (if-false (leb best.vote_count t.vote_count) t best e)))
        (
          elim there [ inl p ↦ inl p | inr p ↦ inr (inr p) ],
          (above.0, (omega (arith, above.0, less_of_not best.vote_count t.vote_count e), above.1)),
        )
]

votes_for-AtMost :
    (n : ℕ) (ts : List CandidateTally) (c : String) → AtMost n ts → votes_for ts c ≤ n
unfolding AtMost
votes_for-AtMost n [] c h = omega arith
votes_for-AtMost n (t ∷ ts) c h = elim (Bool-cases (str_eq t.candidate_id c)) [
  | inl e ↦ rw e h.0
  | inr e ↦ rw e (votes_for-AtMost n ts c h.1)
]

or_right : (a b : Bool) → b ≡ true → (a || b) ≡ true
or_right true b h = refl
or_right false b h = h

has_tally-In :
    (ts : List CandidateTally) (w : CandidateTally) → In w ts → has_tally ts w.candidate_id ≡ true
has_tally-In [] w i = absurd i
has_tally-In (t ∷ ts) w (inl e) =
    rw (← ap (λ x. x.candidate_id) e, (str_eq_iff w.candidate_id w.candidate_id).1 refl) refl
has_tally-In (t ∷ ts) w (inr i) = or_right _ _ (has_tally-In ts w i)

absent :
    (ts : List CandidateTally) (t w : CandidateTally)
    → str_eq t.candidate_id w.candidate_id ≡ true
    → has_tally ts t.candidate_id ≡ false
    → In w ts
    → ⊥
absent ts t w e o i =
    let there =
      ap (has_tally ts) ((str_eq_iff t.candidate_id w.candidate_id).0 e) ∙ has_tally-In ts w i in
    cc

votes_for-In :
    (ts : List CandidateTally) (w : CandidateTally)
    → OneEach ts
    → In w ts
    → votes_for ts w.candidate_id ≡ w.vote_count
votes_for-In [] w o i = absurd i
votes_for-In (t ∷ ts) w o (inl e) =
    rw (ap (λ x. x.candidate_id) e, (str_eq_iff t.candidate_id t.candidate_id).1 refl)
      (ap (λ x. x.vote_count) (sym e))
votes_for-In (t ∷ ts) w o (inr i) = elim (Bool-cases (str_eq t.candidate_id w.candidate_id)) [
  | inl e ↦ absurd (absent ts t w e o.0 i)
  | inr e ↦ rw e (votes_for-In ts w o.1 i)
]

-- The winner's tally is the number of votes for that candidate, at least one, and no candidate has
-- more.
pub record IsWinner (votes : List String) (w : CandidateTally) : Type 0 where
  pub own : w.vote_count ≡ count votes w.candidate_id
  pub voted : 1 ≤ w.vote_count
  pub greatest : (c : String) → count votes c ≤ w.vote_count

abbrev pub Outcome : List String → Option CandidateTally → Type 0
Outcome votes none = length votes ≡ 0
Outcome votes (some w) = IsWinner votes w

count-head : (v : String) (votes : List String) → 1 ≤ count (v ∷ votes) v
count-head v votes = rw ((str_eq_iff v v).1 refl) (omega arith)

tallied_winner :
    (ts : List CandidateTally) (r : ElectionResults) (v : String) (vs : List String)
    → r.candidate_tallies ≡ ts
    → IsTallied r (v ∷ vs)
    → Outcome (v ∷ vs) (get_winner r)
unfolding get_winner
tallied_winner [] r v vs e h = rw e (sym h.summed ∙ ap sum_counts e)
tallied_winner (t ∷ ts) r v vs e h =
    let (there, above) = max_tally-greatest t ts in
    let w = max_tally t ts in
    let greatest : (c : String) → count (v ∷ vs) c ≤ w.vote_count =
      λ c. rw (← h.counted c, e) (votes_for-AtMost w.vote_count (t ∷ ts) c above) in
    rw e (record {
      own =
          sym (votes_for-In (t ∷ ts) w (subst OneEach e h.one_each) there)
          ∙ ap (λ l. votes_for l w.candidate_id) (sym e)
          ∙ h.counted w.candidate_id;
      voted = omega (arith, count-head v vs, greatest v);
      greatest = greatest;
    })

-- After fewer than 2 ^ 64 votes there is no winner exactly where there are no votes; a winner has the
-- number of votes that are for it, at least one, and no candidate has more.
pub get_winner-IsWinner :
    (election_id now : ℕ) (votes : List String)
    → length votes < 2 ^ 64
    → Outcome votes (get_winner (add_votes (new_results election_id now) votes))
get_winner-IsWinner election_id now [] l = unfold new_results in unfold get_winner in refl
get_winner-IsWinner election_id now (v ∷ vs) l =
    tallied_winner (add_votes (new_results election_id now) (v ∷ vs)).candidate_tallies
      (add_votes (new_results election_id now) (v ∷ vs)) v vs refl
      (add_votes-IsTallied election_id now (v ∷ vs) l)
