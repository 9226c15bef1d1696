-- ===== src/Voting/Provisional/Counts.antt =====
-- Every provisional vote is pending, approved or rejected.
use trust_the_people.Prelude.{
  ◌+◌, ◌≡◌, refl, ◌∙◌, ◌⊎◌, inl, inr, Bool, true, false, List, [], ◌∷◌, arith, length, filter,
}
use trust_the_people.Map
use trust_the_people.Map.{Map}
use trust_the_people.Map.Keyed.{length-values}
use trust_the_people.Voting.Provisional.{
  ProvisionalBallotTracker, ProvisionalVote, ProvisionalStatus, pending, approved, rejected,
  is_pending, is_approved, is_rejected, pending_count, approved_count, rejected_count,
}

abbrev Split : ProvisionalStatus → Type 0
Split s =
    let p : Bool = elim s [ pending ↦ true | _ ↦ false ] in
    let a : Bool = elim s [ approved ↦ true | _ ↦ false ] in
    let r : Bool = elim s [ rejected reason ↦ true | _ ↦ false ] in
    ((p ≡ true) × (a ≡ false) × (r ≡ false))
    ⊎ (((p ≡ false) × (a ≡ true) × (r ≡ false)) ⊎ ((p ≡ false) × (a ≡ false) × (r ≡ true)))

by_status : (s : ProvisionalStatus) → Split s
by_status pending = inl (refl, refl, refl)
by_status approved = inr (inl (refl, refl, refl))
by_status (rejected reason) = inr (inr (refl, refl, refl))

one_status :
    (v : ProvisionalVote)
    → ((is_pending v ≡ true) × (is_approved v ≡ false) × (is_rejected v ≡ false))
      ⊎ (((is_pending v ≡ false) × (is_approved v ≡ true) × (is_rejected v ≡ false))
          ⊎ ((is_pending v ≡ false) × (is_approved v ≡ false) × (is_rejected v ≡ true)))
one_status v = by_status v.status

count_filters :
    (vs : List ProvisionalVote)
    → length (filter is_pending vs)
        + length (filter is_approved vs)
        + length (filter is_rejected vs)
      ≡ length vs
count_filters [] = omega arith
count_filters (v ∷ vs) =
    let ih = count_filters vs in
    elim (one_status v) [
      | inl s ↦ rw (s.0, s.1, s.2) (omega (arith, ih))
      | inr (inl s) ↦ rw (s.0, s.1, s.2) (omega (arith, ih))
      | inr (inr s) ↦ rw (s.0, s.1, s.2) (omega (arith, ih))
    ]

-- The three counts of a tracker add up to the number of its votes.
pub counts-len :
    (t : ProvisionalBallotTracker)
    → pending_count t + approved_count t + rejected_count t ≡ Map.len t.provisional_votes
unfolding pending_count approved_count rejected_count
counts-len t =
    count_filters (Map.values t.provisional_votes)
    ∙ length-values (λ (v : ProvisionalVote). v.voter_id) t.provisional_votes
