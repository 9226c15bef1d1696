-- ===== src/Voting/Election.antt =====
-- crates/voting/src/lib.rs: elections, candidates and the tally.
pub mod Tally
pub mod Winner
use trust_the_people.Prelude.{
  ℕ, ◌+◌, ◌%◌, ◌^◌, String, Bool, true, false, ◌&&◌, Option, none, some, List, [], ◌∷◌, ltb, leb,
  if◌then◌else◌, is_empty, find,
}
use trust_the_people.Result.{◌>>=◌, ◌>>◌, text, invalid_input, Result, reject_if}
use package.text.Mathlib.Text.{◌==◌ as str_eq}
use trust_the_people.Transaction.{is_empty_string}

pub record Candidate : Type 0 where
  pub id : String
  pub name : String
  pub party : Option String
  pub description : Option String
  pub metadata : Option String

pub record ElectionConfig : Type 0 where
  pub allow_write_in : Bool
  pub require_registration : Bool
  pub ballot_secrecy : Bool
  pub receipt_free : Bool
  pub max_votes_per_voter : ℕ
  pub ranked_choice : Bool
  pub min_voters : Option ℕ
  pub max_voters : Option ℕ

pub record Election : Type 0 where
  pub id : ℕ
  pub title : String
  pub description : String
  pub candidates : List Candidate
  pub start_time : ℕ
  pub end_time : ℕ
  pub authority_key : ℕ
  pub config : ElectionConfig

pub record CandidateTally : Type 0 where
  pub candidate_id : String
  pub vote_count : ℕ

pub record ElectionResults : Type 0 where
  pub election_id : ℕ
  pub total_votes : ℕ
  pub candidate_tallies : List CandidateTally
  pub tallied_at : ℕ
  pub is_final : Bool

unfoldable pub default_config : ElectionConfig
default_config = record {
  allow_write_in = false;
  require_registration = true;
  ballot_secrecy = true;
  receipt_free = true;
  max_votes_per_voter = 1;
  ranked_choice = false;
  min_voters = none;
  max_voters = none;
}

unfoldable pub new : ℕ → String → String → List Candidate → ℕ → ℕ → ℕ → Election
unfolding default_config
new id title description candidates start_time end_time authority_key = record {
  id = id;
  title = title;
  description = description;
  candidates = candidates;
  start_time = start_time;
  end_time = end_time;
  authority_key = authority_key;
  config = default_config;
}

unfoldable pub is_active : Election → ℕ → Bool
is_active e current_time = leb e.start_time current_time && leb current_time e.end_time

unfoldable pub has_started : Election → ℕ → Bool
has_started e current_time = leb e.start_time current_time

unfoldable pub has_ended : Election → ℕ → Bool
has_ended e current_time = ltb e.end_time current_time

unfoldable pub get_candidate : Election → String → Option Candidate
get_candidate e candidate_id = find (λ c. str_eq c.id candidate_id) e.candidates

unfoldable pub validate : Election → Result (Unit {0})
validate e = do
  reject_if (is_empty_string e.title) (invalid_input (text "Election title cannot be empty"))
  reject_if (is_empty e.candidates)
      (invalid_input (text "Election must have at least one candidate"))
  reject_if (leb e.end_time e.start_time)
      (invalid_input (text "Election end time must be after start time"))

unfoldable pub new_candidate : String → String → Candidate
new_candidate id name = record {
  id = id;
  name = name;
  party = none;
  description = none;
  metadata = none;
}

unfoldable pub with_party : String → String → String → Candidate
with_party id name party = record {
  id = id;
  name = name;
  party = some party;
  description = none;
  metadata = none;
}

unfoldable pub new_results : ℕ → ℕ → ElectionResults
new_results election_id now = record {
  election_id = election_id;
  total_votes = 0;
  candidate_tallies = [];
  tallied_at = now;
  is_final = false;
}

-- `+= 1` on a `u64` of a release build.
abbrev pub u64_succ : ℕ → ℕ
u64_succ n = (n + 1) % (2 ^ 64)

-- The tallies after a vote: the first one of the candidate counts it, or a new one does.
unfoldable pub add_to_tallies : List CandidateTally → String → List CandidateTally
add_to_tallies [] candidate_id = record { candidate_id = candidate_id; vote_count = 1 } ∷ []
add_to_tallies (t ∷ ts) candidate_id =
    let rest = add_to_tallies ts candidate_id in
    if str_eq t.candidate_id candidate_id
    then record t { vote_count = u64_succ t.vote_count } ∷ ts
    else t ∷ rest

unfoldable pub add_vote : ElectionResults → String → ElectionResults
unfolding add_to_tallies
add_vote r candidate_id = record r {
  total_votes = u64_succ r.total_votes;
  candidate_tallies = add_to_tallies r.candidate_tallies candidate_id;
}

-- `max_by_key`: of several greatest elements the last.
unfoldable pub max_tally : CandidateTally → List CandidateTally → CandidateTally
max_tally best [] = best
max_tally best (t ∷ ts) = max_tally (if leb best.vote_count t.vote_count then t else best) ts

unfoldable pub get_winner : ElectionResults → Option CandidateTally
unfolding max_tally
get_winner r = elim r.candidate_tallies [ [] ↦ none | t ∷ ts ↦ some (max_tally t ts) ]

-- A stable sort, the greatest count first.
unfoldable pub insert_tally : CandidateTally → List CandidateTally → List CandidateTally
insert_tally a [] = a ∷ []
insert_tally a (t ∷ ts) =
    let rest = insert_tally a ts in if leb t.vote_count a.vote_count then a ∷ t ∷ ts else t ∷ rest

unfoldable pub sort_tallies : List CandidateTally → List CandidateTally
unfolding insert_tally
sort_tallies [] = []
sort_tallies (t ∷ ts) = insert_tally t (sort_tallies ts)

unfoldable pub sort_by_votes : ElectionResults → ElectionResults
unfolding sort_tallies
sort_by_votes r = record r { candidate_tallies = sort_tallies r.candidate_tallies }
