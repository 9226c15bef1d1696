-- ===== src/Consensus/ProofOfAuthority/Rivalry.antt =====
-- `can_produce_block` goes by the time and `validate_block` by the height.
use trust_the_people.Prelude.{
  ℕ, zero, suc, ◌/◌, ◌%◌, ◌≡◌, refl, ap, ◌≢◌, true, some, List, [], ◌∷◌, arith, length, get_elem?,
  contains, sort, length-sort, Distinct, Distinct-sort,
}
use trust_the_people.Result.{ok}
use trust_the_people.Block.{Block}
use trust_the_people.Consensus.ValidatorSet
use trust_the_people.Consensus.ValidatorSet.{ValidatorSet}
use trust_the_people.Consensus.ProofOfAuthority.{
  ProofOfAuthority, sorted_turn, get_block_producer, get_validator_at_time, validate_block,
  can_produce_block,
}

elem-contains : (xs : List ℕ) (i v : ℕ) → get_elem? xs i ≡ some v → contains xs v ≡ true
elem-contains [] i v h = cc
elem-contains (x ∷ xs) zero v h = ground arith
elem-contains (x ∷ xs) (suc i) v h = ground (arith, elem-contains xs i v h)

Distinct-get_elem? :
    (xs : List ℕ) (i j v : ℕ)
    → Distinct xs
    → get_elem? xs i ≡ some v
    → get_elem? xs j ≡ some v
    → i ≡ j
Distinct-get_elem? [] i j v d ei ej = cc
Distinct-get_elem? (x ∷ xs) zero zero v d ei ej = refl
Distinct-get_elem? (x ∷ xs) zero (suc j) v d ei ej =
    let c = elem-contains xs j v ej in let s : x ≡ v = cc in cc (d.0, ap (contains xs) s)
Distinct-get_elem? (x ∷ xs) (suc i) zero v d ei ej =
    let c = elem-contains xs i v ei in let s : x ≡ v = cc in cc (d.0, ap (contains xs) s)
Distinct-get_elem? (x ∷ xs) (suc i) (suc j) v d ei ej =
    ap suc (Distinct-get_elem? xs i j v d.1 ei ej)

sorted_turn-inv :
    (s : ValidatorSet) (turn v : ℕ)
    → sorted_turn s turn ≡ ok v
    → get_elem? (sort s.validators) (turn % length s.validators) ≡ some v
unfolding sorted_turn
sorted_turn-inv s turn v e = rw (← length-sort s.validators) (ground arith)

-- Where no key is listed twice, a validator that may produce a block by the time has its block
-- rejected at every height whose turn is not the turn of the time.
pub can_produce_block-rejected :
    (p : ProofOfAuthority) (b : Block) (now : ℕ)
    → let n = ValidatorSet.validator_count p.validator_set in
      Distinct p.validator_set.validators
      → can_produce_block now p b.header.validator ≡ ok true
      → (now / p.block_time) % n ≢ b.header.height % n
      → validate_block p b ≢ ok tt
unfolding can_produce_block validate_block get_block_producer get_validator_at_time
    ValidatorSet.validator_count
can_produce_block-rejected p b now d can other passed =
    let s = p.validator_set in
    let v = b.header.validator in
    let by_time : sorted_turn s (now / p.block_time) ≡ ok v = ground arith in
    let by_height : sorted_turn s b.header.height ≡ ok v = ground arith in
    other (
      Distinct-get_elem? (sort s.validators) _ _ v (Distinct-sort s.validators d)
        (sorted_turn-inv s (now / p.block_time) v by_time)
        (sorted_turn-inv s b.header.height v by_height))
