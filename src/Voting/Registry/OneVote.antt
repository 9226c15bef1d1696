-- ===== src/Voting/Registry/OneVote.antt =====
-- A vote that is marked stays marked.
use trust_the_people.Prelude.{
  ℕ, String, ◌≡◌, refl, sym, ap, subst, ◌∙◌, ◌⊎◌, inl, inr, Bool, true, false, Option, none, some,
  List, [], ◌∷◌, arith, ◌==◌, if◌then◌else◌, ==_iff, ==_refl, Bool-cases, Option-cases, if-true,
  if-false, contains,
}
use trust_the_people.Result.{already_voted, Result, ok, err, panic}
use trust_the_people.Set.{contains-set_insert}
use trust_the_people.Voting.Voter
use trust_the_people.Voting.Voter.{
  Voter, VoterCredentials, registered, status_eq, has_voted, register, verify_voter, revoke,
  suspend,
}
use trust_the_people.Voting.Registry.{
  VoterRegistry, new, register_voter, get_voter, update_voter, mark_voted,
}
use trust_the_people.Voting.Registry.Lookup.{
  IsWellIndexed, register_voter-get_voter, update_voter-get_voter, update_voter_missing, after_vote,
  mark_voted-at, mark_voted-get_voter,
}

-- The vote of a voter in an election is on record.
abbrev pub is_marked : Option Voter → ℕ → Bool
is_marked none election_id = false
is_marked (some v) election_id = has_voted v election_id

pub data Amendment : Type 0 where
  registers : VoterCredentials → Amendment
  verifies : Amendment
  revokes : Amendment
  suspends : String → Amendment

abbrev pub amend : Amendment → Voter → Voter
amend (registers d) v = elim (register v d) [ ok v' ↦ v' | _ ↦ v ]
amend verifies v = verify_voter v
amend revokes v = revoke v
amend (suspends reason) v = suspend v reason

-- The calls of a registry, with what its callers do to a voter; a call that fails changes nothing.
pub data Call : Type 0 where
  enters : Voter → Call
  marks : ℕ → ℕ → Call
  amends : ℕ → Amendment → Call

abbrev pub kept : VoterRegistry → Result VoterRegistry → VoterRegistry
kept r (ok r') = r'
kept r (err e) = r
kept r panic = r

abbrev pub step : VoterRegistry → Call → VoterRegistry
step r (enters v) = kept r (register_voter r v)
step r (marks k e) = kept r (mark_voted r k e)
step r (amends k a) = elim (update_voter r k (amend a)) [ none ↦ r | some r' ↦ r' ]

abbrev pub run : VoterRegistry → List Call → VoterRegistry
run r [] = r
run r (call ∷ calls) = run (step r call) calls

amend-keeps :
    (a : Amendment) (v : Voter)
    → ((amend a v).id ≡ v.id) × ((amend a v).elections_voted ≡ v.elections_voted)
unfolding register verify_voter revoke suspend
amend-keeps (registers d) v = elim (Bool-cases (status_eq v.status registered)) [
  | inl e ↦ rw (amend, register, e) (refl, refl)
  | inr e ↦ rw (amend, register, e) (refl, refl)
]
amend-keeps verifies v = elim (Bool-cases (status_eq v.status registered)) [
  | inl e ↦ rw (amend, verify_voter, e) (refl, refl)
  | inr e ↦ rw (amend, verify_voter, e) (refl, refl)
]
amend-keeps revokes v = (refl, refl)
amend-keeps (suspends reason) v = (refl, refl)

kept-cases :
    (r : VoterRegistry) (x : Result VoterRegistry)
    → ((r' : VoterRegistry) × (x ≡ ok r')) ⊎ (kept r x ≡ r)
kept-cases r (ok r') = inl (r', refl)
kept-cases r (err e) = inr refl
kept-cases r panic = inr refl

still_voted : (v : Voter) (f e : ℕ) → has_voted v e ≡ true → has_voted (after_vote v f) e ≡ true
unfolding has_voted
still_voted v f e old = contains-set_insert v.elections_voted f e ∙ ground (arith, old)

now_voted : (v : Voter) (e : ℕ) → has_voted (after_vote v e) e ≡ true
unfolding has_voted
now_voted v e = contains-set_insert v.elections_voted e e ∙ ground arith

same_votes :
    (v w : Voter) (e : ℕ)
    → w.elections_voted ≡ v.elections_voted
    → has_voted v e ≡ true
    → has_voted w e ≡ true
unfolding has_voted
same_votes v w e same old = ap (λ l. contains l e) same ∙ old

-- A voter replaced by one with the same vote on record.
is_marked-if :
    (o o' : Option Voter) (k j e : ℕ) (v : Voter)
    → o' ≡ (if k == j then some v else o)
    → (k ≡ j → has_voted v e ≡ true)
    → is_marked o e ≡ true
    → is_marked o' e ≡ true
is_marked-if o o' k j e v g new old = elim (Bool-cases (k == j)) [
  | inl p ↦ ap (λ x. is_marked x e) (g ∙ if-true (k == j) (some v) o p) ∙ new ((==_iff k j).0 p)
  | inr p ↦ ap (λ x. is_marked x e) (g ∙ if-false (k == j) (some v) o p) ∙ old
]

module _ (r : VoterRegistry) (k e : ℕ) (h : IsWellIndexed r)
    (d : is_marked (get_voter r k) e ≡ true) where
  Persists : VoterRegistry → Type 0
  Persists x = IsWellIndexed x × (is_marked (get_voter x k) e ≡ true)

  marked_at : (j : ℕ) (v : Voter) → get_voter r j ≡ some v → k ≡ j → has_voted v e ≡ true
  marked_at j v at same =
      sym (ap (λ o. is_marked o e) at) ∙ ap (λ i. is_marked (get_voter r i) e) (sym same) ∙ d

  enters-Persists : (v : Voter) → Persists (step r (enters v))
  unfolding Persists
  enters-Persists v = elim (kept-cases r (register_voter r v)) [
    | inr same ↦
        subst (λ x. IsWellIndexed x × (is_marked (get_voter x k) e ≡ true)) (sym same) (h, d)
    | inl (r', done) ↦
        let (absent, i, gets) = register_voter-get_voter r r' v h done in
        rw done (
          i,
          is_marked-if (get_voter r k) (get_voter r' k) k v.id e v (gets k)
              (λ same. absurd (
                cc (
                  sym (ap (λ o. is_marked o e) absent)
                  ∙ ap (λ j. is_marked (get_voter r j) e) (sym same)
                  ∙ d)))
              d,
        )
  ]

  marks-Persists : (j f : ℕ) → Persists (step r (marks j f))
  unfolding Persists
  marks-Persists j f = elim (kept-cases r (mark_voted r j f)) [
    | inr same ↦
        subst (λ x. IsWellIndexed x × (is_marked (get_voter x k) e ≡ true)) (sym same) (h, d)
    | inl (r', done) ↦
        let (v, at, new, i, gets) = mark_voted-get_voter r r' j f h done in
        rw done (
          i,
          is_marked-if (get_voter r k) (get_voter r' k) k j e (after_vote v f) (gets k)
              (λ same. still_voted v f e (marked_at j v at same)) d,
        )
  ]

  amends-Persists : (j : ℕ) (a : Amendment) → Persists (step r (amends j a))
  unfolding Persists
  amends-Persists j a = elim (Option-cases (get_voter r j)) [
    | inl n ↦ rw (update_voter_missing r j (amend a) n, step) (h, d)
    | inr (v, at) ↦
        let (r', u, i, gets) = update_voter-get_voter r j v (amend a) h at (amend-keeps a v).0 in
        rw (u, step)
          (
            i,
            is_marked-if (get_voter r k) (get_voter r' k) k j e (amend a v) (gets k)
                (λ same. same_votes v (amend a v) e (amend-keeps a v).1 (marked_at j v at same)) d,
          )
  ]

  step-Persists : (call : Call) → Persists (step r call)
  step-Persists (enters v) = enters-Persists v
  step-Persists (marks j f) = marks-Persists j f
  step-Persists (amends j a) = amends-Persists j a

run-is_marked :
    (k e : ℕ) (calls : List Call) (r : VoterRegistry)
    → IsWellIndexed r
    → is_marked (get_voter r k) e ≡ true
    → is_marked (get_voter (run r calls) k) e ≡ true
unfolding Persists
run-is_marked k e [] r h d = d
run-is_marked k e (call ∷ calls) r h d =
    let (i, p) = step-Persists r k e h d call in run-is_marked k e calls (step r call) i p

mark_voted_again :
    (r : VoterRegistry) (k e : ℕ)
    → is_marked (get_voter r k) e ≡ true
    → mark_voted r k e ≡ err already_voted
unfolding Voter.mark_voted
mark_voted_again r k e d = elim (Option-cases (get_voter r k)) [
  | inl n ↦ absurd (cc (sym (ap (λ o. is_marked o e) n) ∙ d))
  | inr (v, at) ↦ mark_voted-at r k e v at ∙ rw (sym (ap (λ o. is_marked o e) at) ∙ d) refl
]

-- A voter's vote in an election is marked once: after it, and after any calls that follow, it is refused.
pub mark_voted_once :
    (r r' : VoterRegistry) (k e : ℕ) (calls : List Call)
    → IsWellIndexed r
    → mark_voted r k e ≡ ok r'
    → mark_voted (run r' calls) k e ≡ err already_voted
mark_voted_once r r' k e calls h m =
    let (v, at, new, i, gets) = mark_voted-get_voter r r' k e h m in
    let marked : is_marked (get_voter r' k) e ≡ true =
      ap (λ o. is_marked o e) (gets k ∙ if-true (k == k) (some (after_vote v e)) _ (==_refl k))
      ∙ now_voted v e in
    mark_voted_again (run r' calls) k e (run-is_marked k e calls r' i marked)
