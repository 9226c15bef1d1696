-- ===== src/Voting/Eligibility/Revocation.antt =====
-- The registry of eligible voters forgets a vote when eligibility is revoked.
use trust_the_people.Prelude.{
  ℕ, ◌≡◌, refl, sym, ap, ◌∙◌, inl, inr, true, false, none, some, ◌==◌, ==_refl, Bool-cases,
  Option-cases, if-true,
}
use trust_the_people.Result.{text, voter_not_eligible, already_voted, ok, err}
use trust_the_people.Map
use trust_the_people.Map.{Map}
use trust_the_people.Map.Laws.{get-insert}
use trust_the_people.Voting.Eligibility.{
  EligibilityRegistry, EligibilityRecord, EligibilityStatus, not_eligible, has_already_voted,
  is_status_voted, is_status_eligible, write_status, revoke_eligibility, mark_voted, has_voted,
  is_eligible,
}

get-write_status :
    (r : EligibilityRegistry) (k : ℕ) (old : EligibilityRecord) (s : EligibilityStatus)
    → Map.get (write_status r k old s).eligible_voters k ≡ some (record old { status = s })
unfolding write_status
get-write_status r k old s = get-insert r.eligible_voters k k _ ∙ if-true (k == k) _ _ (==_refl k)

revoke-written :
    (r : EligibilityRegistry) (k : ℕ) (old : EligibilityRecord)
    → Map.get r.eligible_voters k ≡ some old
    → revoke_eligibility r k ≡ ok (write_status r k old not_eligible)
unfolding revoke_eligibility
revoke-written r k old at = rw (at, revoke_eligibility) refl

mark-written :
    (r : EligibilityRegistry) (k : ℕ) (old : EligibilityRecord)
    → Map.get r.eligible_voters k ≡ some old
    → is_status_voted old.status ≡ false
    → mark_voted r k ≡ ok (write_status r k old has_already_voted)
unfolding mark_voted
mark-written r k old at new = rw (at, mark_voted, new) refl

mark-refused :
    (r : EligibilityRegistry) (k : ℕ) (old : EligibilityRecord)
    → Map.get r.eligible_voters k ≡ some old
    → is_status_voted old.status ≡ true
    → mark_voted r k ≡ err already_voted
unfolding mark_voted
mark-refused r k old at new = rw (at, mark_voted, new) refl

mark-missing :
    (r : EligibilityRegistry) (k : ℕ)
    → Map.get r.eligible_voters k ≡ none
    → mark_voted r k ≡ err (voter_not_eligible (text "Voter not found"))
unfolding mark_voted
mark-missing r k n = rw (n, mark_voted) refl

mark_voted-written :
    (r r' : EligibilityRegistry) (k : ℕ)
    → mark_voted r k ≡ ok r'
    → (old : EligibilityRecord) × (write_status r k old has_already_voted ≡ r')
mark_voted-written r r' k h = elim (Option-cases (Map.get r.eligible_voters k)) [
  | inl n ↦ absurd (cc (mark-missing r k n, h))
  | inr (old, at) ↦ elim (Bool-cases (is_status_voted old.status)) [
    | inl e ↦ absurd (cc (mark-refused r k old at e, h))
    | inr e ↦
        let done : ok (write_status r k old has_already_voted) ≡ ok r' =
          sym (mark-written r k old at e) ∙ h in
        (old, cc)
  ]
]

-- After a vote is marked a second one is refused; but a revocation takes the mark away, and then the
-- voter, who is not eligible, is marked again.
pub mark_voted-revoked :
    (r r1 : EligibilityRegistry) (k : ℕ)
    → mark_voted r k ≡ ok r1
    → (mark_voted r1 k ≡ err already_voted)
      × (r2 : EligibilityRegistry) × (r3 : EligibilityRegistry) × (revoke_eligibility r1 k ≡ ok r2)
      × (is_eligible r2 k ≡ false)
      × (has_voted r2 k ≡ false)
      × (mark_voted r2 k ≡ ok r3)
unfolding is_eligible has_voted is_status_voted is_status_eligible
mark_voted-revoked r r1 k h =
    let (old, same) = mark_voted-written r r1 k h in
    let marked = record old { status = has_already_voted } in
    let at1 : Map.get r1.eligible_voters k ≡ some marked =
      ap (λ x. Map.get x.eligible_voters k) (sym same)
      ∙ get-write_status r k old has_already_voted in
    let at2 = get-write_status r1 k marked not_eligible in
    (
      mark-refused r1 k marked at1 refl,
      write_status r1 k marked not_eligible,
      _,
      revoke-written r1 k marked at1,
      rw (at2, is_eligible) refl,
      rw (at2, has_voted) refl,
      mark-written _ k _ at2 refl,
    )
