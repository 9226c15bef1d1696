-- ===== src/Voting/Registry/Lookup.antt =====
-- The registry is a finite map from ids to voters: what its operations do to the map.
use trust_the_people.Prelude.{
  ℕ, ◌≡◌, refl, sym, ap, ap₂, subst, ◌∙◌, inl, inr, false, none, some, [], ◌∷◌, ◌++◌, ◌==◌,
  if◌then◌else◌, Option-cases, length, get_elem?, set,
}
use trust_the_people.Result.{
  text, invalid_input, voter_not_eligible, already_voted, ok, err, ◌>>=◌, reject_if, >>=-eq-ok,
  >>-eq-ok, reject_if-ok,
}
use trust_the_people.Map
use trust_the_people.Map.{Map}
use trust_the_people.Map.Laws.{get_of_not_contains_key}
use trust_the_people.Set.{set_insert}
use trust_the_people.Voting.Voter
use trust_the_people.Voting.Voter.{
  Voter, VoterCredentials, registered, status_eq, has_voted, register, verify_voter, revoke,
  suspend,
}
use trust_the_people.Voting.Indexed.{
  lookup, at_place, IsIndexed, empty-IsIndexed, snoc-IsIndexed, lookup-snoc, set-IsIndexed,
  lookup-set,
}
use trust_the_people.Voting.Registry.{
  VoterRegistry, new, register_voter, get_voter, update_voter, mark_voted,
}

abbrev pub id_of : Voter → ℕ
id_of v = v.id

-- Every voter stands at the place that the index gives for its id, and nothing else is indexed.
pub record IsWellIndexed (r : VoterRegistry) : Type 0 where
  pub indexed : IsIndexed id_of r.voters r.voter_index

get_voter-lookup :
    (r : VoterRegistry) (k : ℕ) → get_voter r k ≡ lookup id_of r.voters r.voter_index k
unfolding get_voter
get_voter-lookup r k =
    elim (Map.get r.voter_index k)
      as (λ o. elim o [ none ↦ none | some i ↦ get_elem? r.voters i ] ≡ at_place id_of r.voters o) [
        | none ↦ refl
        | some i ↦ refl
      ]

pub new-IsWellIndexed : IsWellIndexed new
unfolding new
new-IsWellIndexed = record { indexed = empty-IsIndexed id_of }

-- A voter is registered exactly if its id is new; the registry is then what it was and the voter.
pub register_voter-get_voter :
    (r r' : VoterRegistry) (v : Voter)
    → IsWellIndexed r
    → register_voter r v ≡ ok r'
    → (get_voter r v.id ≡ none)
      × IsWellIndexed r'
      × ((k : ℕ) → get_voter r' k ≡ (if k == v.id then some v else get_voter r k))
unfolding register_voter
register_voter-get_voter r r' v h e =
    let (new, e1) =
      >>-eq-ok
        (reject_if (Map.contains_key r.voter_index v.id)
          (invalid_input (text "Voter already exists in registry")))
        _ e in
    let fresh = reject_if-ok (Map.contains_key r.voter_index v.id) _ new in
    let next : VoterRegistry = record {
      voters = r.voters ++ v ∷ [];
      voter_index = Map.insert r.voter_index v.id (length r.voters);
    } in
    let same : next ≡ r' = cc in
    subst
      (λ x.
        (get_voter r v.id ≡ none)
        × IsWellIndexed x
        × ((k : ℕ) → get_voter x k ≡ (if k == v.id then some v else get_voter r k)))
      same
      (
        get_voter-lookup r v.id
            ∙ ap (at_place id_of r.voters) (get_of_not_contains_key r.voter_index v.id fresh),
        record { indexed = snoc-IsIndexed id_of r.voters r.voter_index h.indexed v fresh },
        λ k.
            get_voter-lookup next k
            ∙ lookup-snoc id_of r.voters r.voter_index h.indexed v fresh k
            ∙ ap (λ o. if k == v.id then some v else o) (sym (get_voter-lookup r k)),
      )

place_of :
    (r : VoterRegistry) (k : ℕ) (v : Voter)
    → IsWellIndexed r
    → get_voter r k ≡ some v
    → (i : ℕ) × (Map.get r.voter_index k ≡ some i) × (get_elem? r.voters i ≡ some v) × (v.id ≡ k)
place_of r k v h at =
    let found = sym (get_voter-lookup r k) ∙ at in
    elim (Option-cases (Map.get r.voter_index k)) [
      | inl n ↦ absurd (cc (sym (ap (at_place id_of r.voters) n) ∙ found))
      | inr (i, g) ↦
          let here : get_elem? r.voters i ≡ some v = sym (ap (at_place id_of r.voters) g) ∙ found in
          let (b, there, own) = h.indexed.sound k i g in (i, g, here, cc)
    ]

-- A write that keeps the id of a voter who is there.
pub update_voter-get_voter :
    (r : VoterRegistry) (k : ℕ) (v : Voter) (f : Voter → Voter)
    → IsWellIndexed r
    → get_voter r k ≡ some v
    → (f v).id ≡ v.id
    → (r' : VoterRegistry) × (update_voter r k f ≡ some r')
      × IsWellIndexed r'
      × ((j : ℕ) → get_voter r' j ≡ (if j == k then some (f v) else get_voter r j))
unfolding update_voter
update_voter-get_voter r k v f h at keep =
    let (i, g, here, own) = place_of r k v h at in
    let next = record r { voters = set r.voters i (f v) } in
    (
      next,
      rw (g, here, update_voter) refl,
      record { indexed = set-IsIndexed id_of r.voters r.voter_index h.indexed i v (f v) here keep },
      λ j.
          get_voter-lookup next j
          ∙ lookup-set id_of r.voters r.voter_index h.indexed i v (f v) here keep j
          ∙ ap₂ (λ x o. if j == x then some (f v) else o) (keep ∙ own) (sym (get_voter-lookup r j)),
    )

pub update_voter_missing :
    (r : VoterRegistry) (k : ℕ) (f : Voter → Voter)
    → get_voter r k ≡ none
    → update_voter r k f ≡ none
unfolding get_voter update_voter
update_voter_missing r k f n = elim (Option-cases (Map.get r.voter_index k)) [
  | inl m ↦ rw (m, update_voter) refl
  | inr (i, m) ↦
      let gone : get_elem? r.voters i ≡ none = sym (rw (m, get_voter) refl) ∙ n in
      rw (m, update_voter, gone) refl
]

abbrev pub after_vote : Voter → ℕ → Voter
after_vote v election_id = record v { elections_voted = set_insert v.elections_voted election_id }

mark_voted-fields :
    (v v' : Voter) (e : ℕ)
    → Voter.mark_voted v e ≡ ok v'
    → (has_voted v e ≡ false) × (after_vote v e ≡ v')
unfolding Voter.mark_voted
mark_voted-fields v v' e h =
    let (new, h1) = >>-eq-ok (reject_if (has_voted v e) already_voted) _ h in
    (reject_if-ok (has_voted v e) _ new, cc)

abbrev pub written : VoterRegistry → ℕ → Voter → VoterRegistry
written r k v' = elim (update_voter r k (λ old. v')) [ none ↦ r | some r' ↦ r' ]

pub mark_voted-at :
    (r : VoterRegistry) (k e : ℕ) (v : Voter)
    → get_voter r k ≡ some v
    → mark_voted r k e ≡ (Voter.mark_voted v e >>= λ v'. ok (written r k v'))
unfolding mark_voted
mark_voted-at r k e v at = rw (at, mark_voted) refl

pub mark_voted_missing :
    (r : VoterRegistry) (k e : ℕ)
    → get_voter r k ≡ none
    → mark_voted r k e ≡ err (voter_not_eligible (text "Voter not found"))
unfolding mark_voted
mark_voted_missing r k e n = rw (n, mark_voted) refl

-- A vote is marked only for a voter who is there and has not voted; it changes that voter alone.
pub mark_voted-get_voter :
    (r r' : VoterRegistry) (k e : ℕ)
    → IsWellIndexed r
    → mark_voted r k e ≡ ok r'
    → (v : Voter) × (get_voter r k ≡ some v)
      × (has_voted v e ≡ false)
      × IsWellIndexed r'
      × ((j : ℕ) → get_voter r' j ≡ (if j == k then some (after_vote v e) else get_voter r j))
mark_voted-get_voter r r' k e h m = elim (Option-cases (get_voter r k)) [
  | inl n ↦ absurd (cc (sym (mark_voted_missing r k e n) ∙ m))
  | inr (v, at) ↦
      let (v', voted, m1) =
        >>=-eq-ok (Voter.mark_voted v e) (λ w. ok (written r k w))
          (sym (mark_voted-at r k e v at) ∙ m) in
      let (new, same) = mark_voted-fields v v' e voted in
      let (next, u, i, gets) =
        update_voter-get_voter r k v (λ old. v') h at (sym (ap (λ w. w.id) same)) in
      let result : written r k v' ≡ r' = cc in
      let equal : next ≡ r' = sym (rw (u, written) refl) ∙ result in
      (
        v,
        at,
        new,
        subst IsWellIndexed equal i,
        λ j.
            ap (λ x. get_voter x j) (sym equal)
            ∙ gets j
            ∙ ap (λ w. if j == k then some w else get_voter r j) (sym same),
      )
]
