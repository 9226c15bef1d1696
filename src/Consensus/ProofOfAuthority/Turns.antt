-- ===== src/Consensus/ProofOfAuthority/Turns.antt =====
-- Whose turn it is: a turn for everyone, in an order that all nodes agree on.
use mathlib.Core.List.{Perm}
use native.Mathlib.Nat.{mod-lt, mod-add-mod, mod-eq_of_lt, add-mod_left}
use trust_the_people.Prelude.{
  ℕ, zero, suc, ◌+◌, ◌-◌, ◌%◌, ◌<◌, ◌≡◌, sym, ap, ◌∙◌, inl, inr, true, some, List, [], ◌∷◌, arith,
  leb, ◌==◌, leb→le, ==_iff, Bool-cases, length, get_elem?, get_elem?-total, contains, sort,
  length-sort, contains-sort, sort-perm,
}
use trust_the_people.Result.{ok}
use trust_the_people.Consensus.ValidatorSet
use trust_the_people.Consensus.ValidatorSet.{ValidatorSet}
use trust_the_people.Consensus.ProofOfAuthority.{ProofOfAuthority, sorted_turn, get_block_producer}

contains-get_elem? :
    (xs : List ℕ) (v : ℕ)
    → contains xs v ≡ true
    → (i : ℕ) × (i < length xs) × (get_elem? xs i ≡ some v)
contains-get_elem? [] v h = cc
contains-get_elem? (x ∷ xs) v h = elim (Bool-cases (v == x)) [
  | inl e ↦ (0, omega arith, ap some (sym ((==_iff v x).0 e)))
  | inr e ↦ let (i, lt, g) = contains-get_elem? xs v (ground arith) in (suc i, omega arith, g)
]

get_elem?-contains : (xs : List ℕ) (i v : ℕ) → get_elem? xs i ≡ some v → contains xs v ≡ true
get_elem?-contains [] i v h = cc
get_elem?-contains (x ∷ xs) zero v h = ground arith
get_elem?-contains (x ∷ xs) (suc i) v h = ground (arith, get_elem?-contains xs i v h)

-- A round of `n` turns from any turn on has one for each place.
turn_of : (n h i : ℕ) → i < n → (k : ℕ) × (k < n) × ((h + k) % n ≡ i)
turn_of n h i lt = elim (Bool-cases (leb (h % n) i)) [
  | inl up ↦
      let r = leb→le (h % n) i up in
      let sum : h % n + (i - h % n) ≡ i = omega arith in
      (
        i - h % n,
        omega arith,
        sym (mod-add-mod h n (i - h % n)) ∙ ap (λ (t : ℕ). t % n) sum ∙ mod-eq_of_lt lt,
      )
  | inr down ↦
      let r : i < h % n = ground arith in
      let m : h % n < n = mod-lt h (omega arith) in
      let sum : h % n + (n + i - h % n) ≡ n + i = omega arith in
      (
        n + i - h % n,
        omega arith,
        sym (mod-add-mod h n (n + i - h % n))
            ∙ ap (λ (t : ℕ). t % n) sum
            ∙ add-mod_left n i
            ∙ mod-eq_of_lt lt,
      )
]

sorted_turn-some :
    (s : ValidatorSet) (turn v : ℕ)
    → 0 < length s.validators
    → get_elem? (sort s.validators) (turn % length s.validators) ≡ some v
    → sorted_turn s turn ≡ ok v
unfolding sorted_turn
sorted_turn-some s turn v h e = let n = length-sort s.validators in rw n (ground (arith, e))

-- The producer of a height, once the sorted validators are known.
pub get_block_producer-some :
    (p : ProofOfAuthority) (height v : ℕ)
    → 0 < length p.validator_set.validators
    → get_elem? (sort p.validator_set.validators) (height % length p.validator_set.validators)
      ≡ some v
    → get_block_producer p height ≡ ok v
unfolding get_block_producer ValidatorSet.validator_count
get_block_producer-some p height v h e =
    ground (arith, sorted_turn-some p.validator_set height v h e)

-- With a validator at all, every height has a producer, found without a panic, and it is a validator.
pub get_block_producer-contains :
    (p : ProofOfAuthority) (height : ℕ)
    → 0 < length p.validator_set.validators
    → (v : ℕ) × (get_block_producer p height ≡ ok v)
      × (contains p.validator_set.validators v ≡ true)
get_block_producer-contains p height h =
    let vs = p.validator_set.validators in
    let n = length-sort vs in
    let m : height % length vs < length vs = mod-lt height h in
    let (v, e) = get_elem?-total (sort vs) (height % length vs) (omega arith) in
    (
      v,
      get_block_producer-some p height v h e,
      sym (contains-sort vs v) ∙ get_elem?-contains (sort vs) (height % length vs) v e,
    )

-- From any height on, each validator of the list produces one of the next `validator_count` blocks.
pub get_block_producer-turn :
    (p : ProofOfAuthority) (height v : ℕ)
    → contains p.validator_set.validators v ≡ true
    → (k : ℕ) × (k < ValidatorSet.validator_count p.validator_set)
      × (get_block_producer p (height + k) ≡ ok v)
unfolding ValidatorSet.validator_count
get_block_producer-turn p height v h =
    let vs = p.validator_set.validators in
    let n = length-sort vs in
    let (i, lt, e) = contains-get_elem? (sort vs) v (contains-sort vs v ∙ h) in
    let (k, lk, at) = turn_of (length vs) height i (omega arith) in
    (
      k,
      lk,
      get_block_producer-some p (height + k) v (omega arith) (ap (get_elem? (sort vs)) at ∙ e),
    )

-- Nodes that hold the same validators in different orders name the same producer of every height.
pub get_block_producer-perm :
    (p q : ProofOfAuthority) (height : ℕ)
    → Perm p.validator_set.validators q.validator_set.validators
    → get_block_producer p height ≡ get_block_producer q height
unfolding get_block_producer sorted_turn ValidatorSet.validator_count
get_block_producer-perm p q height h =
    let e = sort-perm h in
    let n = length-sort p.validator_set.validators in
    let m = length-sort q.validator_set.validators in
    let l : length p.validator_set.validators ≡ length q.validator_set.validators =
      sym n ∙ ap length e ∙ m in
    rw (l, e)
