-- ===== src/Map.antt =====
-- `std::collections::HashMap` with 32-byte keys, as an association list. Its order of iteration is
-- not specified by the source's library; what the program sums or counts does not depend on it.
pub mod Laws
pub mod Keys
pub mod Keyed
use trust_the_people.Prelude.{
  ℕ, List, [], ◌∷◌, Option, none, some, Bool, true, false, ◌==◌, if◌then◌else◌, length,
}

pub record Map (V : Type 0) : Type 0 where
  pub entries : List (ℕ × V)

module _ {V : Type 0} where
  get_entry : List (ℕ × V) → ℕ → Option V
  get_entry [] k = none
  get_entry ((j, v) ∷ m) k = if k == j then some v else get_entry m k

  insert_entry : List (ℕ × V) → ℕ → V → List (ℕ × V)
  insert_entry [] k v = (k, v) ∷ []
  insert_entry ((j, w) ∷ m) k v =
      let rest = insert_entry m k v in if k == j then (k, v) ∷ m else (j, w) ∷ rest

  remove_entry : List (ℕ × V) → ℕ → List (ℕ × V)
  remove_entry [] k = []
  remove_entry ((j, w) ∷ m) k =
      let rest = remove_entry m k in if k == j then rest else (j, w) ∷ rest

  retain_entries : (V → Bool) → List (ℕ × V) → List (ℕ × V)
  retain_entries p [] = []
  retain_entries p ((j, w) ∷ m) =
      let rest = retain_entries p m in if p w then (j, w) ∷ rest else rest

  value_list : List (ℕ × V) → List V
  value_list [] = []
  value_list ((j, w) ∷ m) = w ∷ value_list m

  unfoldable pub empty : Map V
  empty = record { entries = [] }

  unfoldable pub get : Map V → ℕ → Option V
  unfolding get_entry
  get m k = get_entry m.entries k

  unfoldable pub contains_key : Map V → ℕ → Bool
  unfolding get
  contains_key m k = elim (get m k) [ none ↦ false | some v ↦ true ]

  unfoldable pub insert : Map V → ℕ → V → Map V
  unfolding insert_entry
  insert m k v = record { entries = insert_entry m.entries k v }

  unfoldable pub remove : Map V → ℕ → Map V
  unfolding remove_entry
  remove m k = record { entries = remove_entry m.entries k }

  -- `retain(|_, v| p(v))`
  unfoldable pub retain : (V → Bool) → Map V → Map V
  unfolding retain_entries
  retain p m = record { entries = retain_entries p m.entries }

  unfoldable pub values : Map V → List V
  unfolding value_list
  values m = value_list m.entries

  unfoldable pub len : Map V → ℕ
  len m = length m.entries
