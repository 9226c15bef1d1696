-- ===== src/Consensus/Finality.antt =====
-- crates/blockchain-core/src/consensus/finality.rs. The time of a call is an argument, and the
-- threshold is a float.
pub mod Progress
pub mod Heights
use trust_the_people.Prelude.{
  ℕ, Bool, true, false, not, ◌&&◌, Option, none, some, List, [], ◌∷◌, map, ltb, leb, ◌==◌,
  if◌then◌else◌, length, filter,
}
use trust_the_people.Digest.{zero_hash}
use trust_the_people.Float.{Float64}
use trust_the_people.Map
use trust_the_people.Map.{Map}
use trust_the_people.Set.{set_insert}
use trust_the_people.Block.{Block, ValidatorSignature}

pub record FinalityInfo : Type 0 where
  pub block_hash : ℕ
  pub height : ℕ
  pub signatures : List ℕ
  pub total_validators : ℕ
  pub is_finalized : Bool
  pub finalized_at : Option ℕ

pub record FinalityTracker (F : Type 0) : Type 0 where
  pub threshold : F
  pub finality_map : Map FinalityInfo
  pub highest_finalized_height : ℕ
  pub highest_finalized_hash : ℕ

pub data FinalityStatus : Type 0 where
  finalized : FinalityStatus
  pending : ℕ → ℕ → FinalityStatus

pub record FinalityStats (F : Type 0) : Type 0 where
  pub total_blocks : ℕ
  pub finalized_blocks : ℕ
  pub pending_blocks : ℕ
  pub highest_finalized_height : ℕ
  pub highest_finalized_hash : ℕ
  pub threshold : F

unfoldable pub status_is_finalized : FinalityStatus → Bool
status_is_finalized finalized = true
status_is_finalized (pending s r) = false

unfoldable pub signature_count : FinalityStatus → Option ℕ
signature_count finalized = none
signature_count (pending s r) = some s

unfoldable pub required_count : FinalityStatus → Option ℕ
required_count finalized = none
required_count (pending s r) = some r

-- `for sig in &block.signatures { info.signatures.insert(sig.validator); }`
unfoldable pub insert_signers : List ℕ → List ValidatorSignature → List ℕ
insert_signers s [] = s
insert_signers s (sig ∷ sigs) = insert_signers (set_insert s sig.validator) sigs

unfoldable pub fresh_info : Block → ℕ → FinalityInfo
fresh_info b total_validators = record {
  block_hash = b.header.hash;
  height = b.header.height;
  signatures = [];
  total_validators = total_validators;
  is_finalized = false;
  finalized_at = none;
}

-- `entry(block_hash).or_insert_with(…)`, with the signers of the block inserted.
unfoldable pub signed_info : Option FinalityInfo → Block → ℕ → FinalityInfo
signed_info none b total_validators =
    let info = fresh_info b total_validators in
    record info { signatures = insert_signers info.signatures b.signatures }
signed_info (some info) b total_validators = record info {
  signatures = insert_signers info.signatures b.signatures;
}

module _ (f : Float64) where
  open f use {F}

  unfoldable pub new : F → FinalityTracker F
  new threshold = record {
    threshold = threshold;
    finality_map = Map.empty;
    highest_finalized_height = 0;
    highest_finalized_hash = zero_hash;
  }

  unfoldable pub calculate_required_signatures : FinalityTracker F → ℕ → ℕ
  calculate_required_signatures t total_validators =
      if total_validators == 0
      then 0
      else (let required = f.to_usize (f.ceil (f.mul (f.of_usize total_validators) t.threshold)) in
          if ltb required 1 then 1 else required)

  -- The case in which the threshold is met for the first time.
  unfoldable pub finalize : ℕ → FinalityTracker F → Block → FinalityInfo → FinalityTracker F
  finalize now t b info =
      let map =
        Map.insert t.finality_map b.header.hash
          (record info { is_finalized = true; finalized_at = some now }) in
      if ltb t.highest_finalized_height b.header.height
      then record t {
        finality_map = map;
        highest_finalized_height = b.header.height;
        highest_finalized_hash = b.header.hash;
      }
      else record t { finality_map = map }

  -- The test of `check_finality` on the entry of the block, its signatures updated.
  unfoldable pub settle :
      ℕ → FinalityTracker F → Block → FinalityInfo → ℕ → FinalityTracker F × FinalityStatus
  settle now t b info required =
      if leb required (length info.signatures) && not info.is_finalized
      then (finalize now t b info, finalized)
      else (
        record t { finality_map = Map.insert t.finality_map b.header.hash info },
        if info.is_finalized then finalized else pending (length info.signatures) required,
      )

  unfoldable pub check_finality :
      ℕ → FinalityTracker F → Block → ℕ → FinalityTracker F × FinalityStatus
  check_finality now t b total_validators =
      settle now t b (signed_info (Map.get t.finality_map b.header.hash) b total_validators)
        (calculate_required_signatures t total_validators)

module _ {F : Type 0} where
  unfoldable pub is_finalized : FinalityTracker F → ℕ → Bool
  is_finalized t block_hash = elim (Map.get t.finality_map block_hash) [
    | none ↦ false
    | some info ↦ info.is_finalized
  ]

  unfoldable pub get_finality_info : FinalityTracker F → ℕ → Option FinalityInfo
  get_finality_info t block_hash = Map.get t.finality_map block_hash

  unfoldable pub get_finalized_blocks : FinalityTracker F → List FinalityInfo
  get_finalized_blocks t = filter (λ i. i.is_finalized) (Map.values t.finality_map)

  unfoldable pub get_pending_blocks : FinalityTracker F → List FinalityInfo
  get_pending_blocks t = filter (λ i. not i.is_finalized) (Map.values t.finality_map)

  unfoldable pub finalized_count : FinalityTracker F → ℕ
  unfolding get_finalized_blocks
  finalized_count t = length (get_finalized_blocks t)

  unfoldable pub pending_count : FinalityTracker F → ℕ
  unfolding get_pending_blocks
  pending_count t = length (get_pending_blocks t)

  unfoldable pub prune_below_height : FinalityTracker F → ℕ → FinalityTracker F
  prune_below_height t min_height = record t {
    finality_map = Map.retain (λ i. leb min_height i.height) t.finality_map;
  }

  unfoldable pub clear : FinalityTracker F → FinalityTracker F
  clear t = record t {
    finality_map = Map.empty;
    highest_finalized_height = 0;
    highest_finalized_hash = zero_hash;
  }

  unfoldable pub get_stats : FinalityTracker F → FinalityStats F
  get_stats t = record {
    total_blocks = Map.len t.finality_map;
    finalized_blocks = finalized_count t;
    pending_blocks = pending_count t;
    highest_finalized_height = t.highest_finalized_height;
    highest_finalized_hash = t.highest_finalized_hash;
    threshold = t.threshold;
  }
