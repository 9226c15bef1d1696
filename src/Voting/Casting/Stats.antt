-- ===== src/Voting/Casting/Stats.antt =====
-- crates/voting/src/vote_casting.rs: the statistics of the votes cast.
pub mod Peak
use trust_the_people.Prelude.{
  ℕ, ◌+◌, ◌/◌, ◌%◌, ◌^◌, Option, none, some, List, [], ◌∷◌, leb, if◌then◌else◌, length,
}
use trust_the_people.Map
use trust_the_people.Map.{Map}
use trust_the_people.Voting.Casting.{VoteRecord}

pub record VoteCastingStats : Type 0 where
  pub total_votes : ℕ
  pub votes_per_hour : Map ℕ
  pub average_casting_time_ms : ℕ
  pub peak_hour : Option ℕ

-- `get(&hour).copied().unwrap_or(0)`
unfoldable pub count_at : Map ℕ → ℕ → ℕ
count_at m hour = elim (Map.get m hour) [ none ↦ 0 | some n ↦ n ]

-- The loop over the records.
unfoldable pub counted : Map ℕ → List VoteRecord → Map ℕ
unfolding count_at
counted m [] = m
counted m (r ∷ rs) =
    let hour = r.cast_at / 3600 in counted (Map.insert m hour ((count_at m hour + 1) % 2 ^ 64)) rs

-- Of two entries the one with more votes, and the later of equals.
unfoldable pub later : ℕ × ℕ → ℕ × ℕ → ℕ × ℕ
later e f = if leb e.1 f.1 then f else e

-- `max_by_key`
unfoldable pub max_by_count : ℕ × ℕ → List (ℕ × ℕ) → ℕ × ℕ
unfolding later
max_by_count best [] = best
max_by_count best (e ∷ es) = max_by_count (later best e) es

-- Of hours with as many votes, the order of the map decides.
unfoldable pub peak : List (ℕ × ℕ) → Option ℕ
unfolding max_by_count
peak [] = none
peak (e ∷ es) = some (max_by_count e es).0

unfoldable pub from_records : List VoteRecord → VoteCastingStats
unfolding counted peak
from_records records =
    let votes_per_hour = counted Map.empty records in
    record {
      total_votes = length records;
      votes_per_hour = votes_per_hour;
      average_casting_time_ms = 0;
      peak_hour = peak votes_per_hour.entries;
    }

unfoldable pub votes_in_hour : VoteCastingStats → ℕ → ℕ
unfolding count_at
votes_in_hour s hour = count_at s.votes_per_hour hour
