-- ===== src/Voting/Provisional.antt =====
-- crates/voting/src/eligibility.rs: `ProvisionalBallotTracker`.
pub mod Counts
use trust_the_people.Prelude.{ℕ, String, Bool, true, false, not, Option, none, some, length, filter}
use trust_the_people.Result.{
  ◌>>=◌, ◌>>◌, text, voter_not_eligible, already_voted, Result, ok, err, reject_if,
}
use trust_the_people.Map
use trust_the_people.Map.{Map}

pub data ProvisionalStatus : Type 0 where
  pending : ProvisionalStatus
  approved : ProvisionalStatus
  rejected : String → ProvisionalStatus

pub record ProvisionalVote : Type 0 where
  pub voter_id : ℕ
  pub ballot_id : ℕ
  pub election_id : ℕ
  pub cast_at : ℕ
  pub status : ProvisionalStatus
  pub reason : String

pub record ProvisionalBallotTracker : Type 0 where
  pub provisional_votes : Map ProvisionalVote

unfoldable pub new : ProvisionalBallotTracker
new = record { provisional_votes = Map.empty }

unfoldable pub add_provisional_vote :
    ProvisionalBallotTracker → ProvisionalVote → Result ProvisionalBallotTracker
add_provisional_vote t vote = do
  reject_if (Map.contains_key t.provisional_votes vote.voter_id) already_voted
  ok (record { provisional_votes = Map.insert t.provisional_votes vote.voter_id vote })

-- `vote.status = status` through `get_mut`.
unfoldable pub write_status :
    ProvisionalBallotTracker → ℕ → ProvisionalStatus → Result ProvisionalBallotTracker
write_status t voter_id status = elim (Map.get t.provisional_votes voter_id) [
  | none ↦ err (voter_not_eligible (text "Provisional vote not found"))
  | some vote ↦ ok (record {
    provisional_votes = Map.insert t.provisional_votes voter_id (record vote { status = status });
  })
]

unfoldable pub approve_provisional : ProvisionalBallotTracker → ℕ → Result ProvisionalBallotTracker
unfolding write_status
approve_provisional t voter_id = write_status t voter_id approved

unfoldable pub reject_provisional :
    ProvisionalBallotTracker → ℕ → String → Result ProvisionalBallotTracker
unfolding write_status
reject_provisional t voter_id reason = write_status t voter_id (rejected reason)

unfoldable pub get_provisional_vote : ProvisionalBallotTracker → ℕ → Option ProvisionalVote
get_provisional_vote t voter_id = Map.get t.provisional_votes voter_id

abbrev pub is_pending : ProvisionalVote → Bool
is_pending v = elim v.status [ pending ↦ true | _ ↦ false ]

abbrev pub is_approved : ProvisionalVote → Bool
is_approved v = elim v.status [ approved ↦ true | _ ↦ false ]

abbrev pub is_rejected : ProvisionalVote → Bool
is_rejected v = elim v.status [ rejected reason ↦ true | _ ↦ false ]

unfoldable pub pending_count : ProvisionalBallotTracker → ℕ
pending_count t = length (filter is_pending (Map.values t.provisional_votes))

unfoldable pub approved_count : ProvisionalBallotTracker → ℕ
approved_count t = length (filter is_approved (Map.values t.provisional_votes))

unfoldable pub rejected_count : ProvisionalBallotTracker → ℕ
rejected_count t = length (filter is_rejected (Map.values t.provisional_votes))
