-- ===== src/Consensus/ValidatorSet/Consistency.antt =====
-- The list, the map and the set of a validator set have the same members.
use trust_the_people.Prelude.{
  ℕ, ◌+◌, ◌≡◌, refl, subst, inl, inr, Bool, ◌||◌, List, [], ◌∷◌, arith, Option-cases, contains,
  contains-append, length-filter-le,
}
use trust_the_people.Result.{Result, ok, err, panic}
use trust_the_people.Map
use trust_the_people.Map.{Map}
use trust_the_people.Map.Laws.{
  contains_key-insert, contains_key-remove, contains_key-get, contains_key-empty,
}
use trust_the_people.Set.{set_insert, contains-set_insert, contains-set_remove, contains-filter_ne}
use trust_the_people.Consensus.ValidatorSet.{
  ValidatorSet, ValidatorInfo, new_info, fill_map, fill_set, new, add_validator, remove_validator,
  update_info, record_block_produced, record_block_validated, set_validator_active,
  active_validators, active_validator_count, validator_count, get_stats, get_validator_info,
  is_active,
}

pub record IsConsistent (s : ValidatorSet) : Type 0 where
  pub list : (v : ℕ) → contains s.validators v ≡ contains s.validator_set v
  pub info : (v : ℕ) → Map.contains_key s.validator_map v ≡ contains s.validator_set v

contains-fill_set :
    (vs s : List ℕ) (v : ℕ) → contains (fill_set s vs) v ≡ (contains vs v || contains s v)
unfolding fill_set
contains-fill_set [] s v = refl
contains-fill_set (x ∷ xs) s v =
    ground (arith, contains-fill_set xs (set_insert s x) v, contains-set_insert s x v)

contains_key-fill_map :
    (now : ℕ) (vs : List ℕ) (m : Map ValidatorInfo) (v : ℕ)
    → Map.contains_key (fill_map now m vs) v ≡ (contains vs v || Map.contains_key m v)
unfolding fill_map
contains_key-fill_map now [] m v = refl
contains_key-fill_map now (x ∷ xs) m v = ground (
  arith,
  contains_key-fill_map now xs (Map.insert m x (new_info now x)) v,
  contains_key-insert m x v (new_info now x),
)

-- A new validator set is consistent, also over a list with repetitions.
pub new-IsConsistent : (now : ℕ) (vs : List ℕ) → IsConsistent (new now vs)
unfolding new
new-IsConsistent now vs = record {
  list = λ v. ground (arith, contains-fill_set vs [] v);
  info = λ v. ground (
    arith,
    contains-fill_set vs [] v,
    contains_key-fill_map now vs Map.empty v,
    contains_key-empty ValidatorInfo v,
  );
}

add_validator-IsConsistent :
    (now : ℕ) (s t : ValidatorSet) (v : ℕ)
    → IsConsistent s
    → add_validator now s v ≡ ok t
    → IsConsistent t
unfolding add_validator
add_validator-IsConsistent now s t v c e = record {
  list = λ w. ground (
    arith,
    c.list w,
    contains-append s.validators (v ∷ []) w,
    contains-set_insert s.validator_set v w,
  );
  info = λ w. ground (
    arith,
    c.info w,
    contains-set_insert s.validator_set v w,
    contains_key-insert s.validator_map v w (new_info now v),
  );
}

remove_validator-IsConsistent :
    (s t : ValidatorSet) (v : ℕ) → IsConsistent s → remove_validator s v ≡ ok t → IsConsistent t
unfolding remove_validator
remove_validator-IsConsistent s t v c e = record {
  list = λ w. ground (
    arith,
    c.list w,
    contains-filter_ne s.validators v w,
    contains-set_remove s.validator_set v w,
  );
  info = λ w. ground (
    arith,
    c.info w,
    contains-set_remove s.validator_set v w,
    contains_key-remove s.validator_map v w,
  );
}

update_info-IsConsistent :
    (s t : ValidatorSet) (v : ℕ) (change : ValidatorInfo → ValidatorInfo)
    → IsConsistent s
    → update_info s v change ≡ ok t
    → IsConsistent t
unfolding update_info get_validator_info
update_info-IsConsistent s t v change c e = elim (Option-cases (Map.get s.validator_map v)) [
  | inl none_yet ↦ ground (arith, none_yet)
  | inr (info, old) ↦
      let same : record s { validator_map = Map.insert s.validator_map v (change info) } ≡ t =
        ground (arith, old) in
      let had = contains_key-get s.validator_map v info old in
      subst IsConsistent same (record {
        list = c.list;
        info = λ w.
            ground (
              arith,
              c.info w,
              c.info v,
              had,
              contains_key-insert s.validator_map v w (change info),
            );
      })
]

-- The calls that change a validator set.
pub data Call : Type 0 where
  add : ℕ → ℕ → Call
  remove produced validated : ℕ → Call
  set_active : ℕ → Bool → Call

pub call : ValidatorSet → Call → Result ValidatorSet
call s (add now v) = add_validator now s v
call s (remove v) = remove_validator s v
call s (produced v) = record_block_produced s v
call s (validated v) = record_block_validated s v
call s (set_active v a) = set_validator_active s v a

call-IsConsistent :
    (s t : ValidatorSet) (k : Call) → IsConsistent s → call s k ≡ ok t → IsConsistent t
unfolding call record_block_produced record_block_validated set_validator_active
call-IsConsistent s t (add now v) c e = add_validator-IsConsistent now s t v c e
call-IsConsistent s t (remove v) c e = remove_validator-IsConsistent s t v c e
call-IsConsistent s t (produced v) c e = update_info-IsConsistent s t v _ c e
call-IsConsistent s t (validated v) c e = update_info-IsConsistent s t v _ c e
call-IsConsistent s t (set_active v a) c e = update_info-IsConsistent s t v _ c e

-- A call that fails leaves the set as it was.
abbrev after : ValidatorSet → Result ValidatorSet → ValidatorSet
after s (ok t) = t
after s (err e) = s
after s panic = s

pub run : ValidatorSet → List Call → ValidatorSet
run s [] = s
run s (k ∷ ks) = run (after s (call s k)) ks

after-IsConsistent :
    (s : ValidatorSet) (k : Call) (r : Result ValidatorSet)
    → IsConsistent s
    → call s k ≡ r
    → IsConsistent (after s r)
after-IsConsistent s k (ok t) c e = call-IsConsistent s t k c e
after-IsConsistent s k (err x) c e = c
after-IsConsistent s k panic c e = c

run-keeps : (s : ValidatorSet) (ks : List Call) → IsConsistent s → IsConsistent (run s ks)
unfolding run
run-keeps s [] c = c
run-keeps s (k ∷ ks) c =
    run-keeps (after s (call s k)) ks (after-IsConsistent s k (call s k) c refl)

-- After any calls, failing or not, the list, the map and the set of a validator set built from any list
-- of keys have the same members.
pub run-IsConsistent : (now : ℕ) (vs : List ℕ) (ks : List Call) → IsConsistent (run (new now vs) ks)
run-IsConsistent now vs ks = run-keeps (new now vs) ks (new-IsConsistent now vs)

-- The statistics add up: active and inactive validators are all the validators.
pub get_stats_total :
    (s : ValidatorSet)
    → (get_stats s).active_validators + (get_stats s).inactive_validators
      ≡ (get_stats s).total_validators
unfolding get_stats active_validator_count active_validators validator_count
get_stats_total s = omega (arith, length-filter-le (is_active s) s.validators)
