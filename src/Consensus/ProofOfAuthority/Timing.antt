-- ===== src/Consensus/ProofOfAuthority/Timing.antt =====
-- Which blocks the consensus accepts, and what its timing check checks.
use native.Mathlib.Nat.{mod-eq_of_lt, div-add-mod', lt-div-mul-add}
use trust_the_people.Prelude.{◌+◌, ◌*◌, ◌/◌, ◌%◌, ◌^◌, ◌<◌, ◌≡◌, ◌↔◌, true, arith}
use trust_the_people.Result.{ok}
use trust_the_people.Block.{Block}
use trust_the_people.Consensus.ValidatorSet
use trust_the_people.Consensus.ValidatorSet.{ValidatorSet}
use trust_the_people.Consensus.ProofOfAuthority.{
  ProofOfAuthority, get_block_producer, validate_block_timing, validate_block,
}

-- The timing check rejects no block: the slot is computed from the timestamp that is held against it.
-- A slot time of zero is left out, and times at which the end of the slot wraps at 2 ^ 64.
pub validate_block_timing-ok :
    (p : ProofOfAuthority) (b : Block)
    → 0 < p.block_time
    → b.header.timestamp / p.block_time * p.block_time + p.block_time < 2 ^ 64
    → validate_block_timing p b ≡ ok tt
unfolding validate_block_timing
validate_block_timing-ok p b h room =
    let t = b.header.timestamp in
    let low = div-add-mod' t p.block_time in
    let high = lt-div-mul-add {a = t} {b = p.block_time} h in
    let start = t / p.block_time * p.block_time in
    let wrap : (start + p.block_time) % 2 ^ 64 ≡ start + p.block_time = mod-eq_of_lt room in
    ground (arith, wrap, low, high)

-- A block passes exactly when its validator is authorized and is the producer of its height. The slot
-- time is positive and the end of the slot does not wrap.
pub validate_block_iff :
    (p : ProofOfAuthority) (b : Block)
    → 0 < p.block_time
    → b.header.timestamp / p.block_time * p.block_time + p.block_time < 2 ^ 64
    → (validate_block p b ≡ ok tt) ↔ (
        (ValidatorSet.is_validator p.validator_set b.header.validator ≡ true)
        × (get_block_producer p b.header.height ≡ ok b.header.validator))
unfolding validate_block
validate_block_iff p b h room =
    let t = validate_block_timing-ok p b h room in
    (λ e. (ground arith, ground arith), λ (e, f). ground (arith, t, e, f))
