-- ===== src/Map/Laws.antt =====
-- What clients of the map use: a read after each write.
use trust_the_people.Prelude.{
  ℕ, List, [], ◌∷◌, none, some, true, false, ◌==◌, if◌then◌else◌, ◌≡◌, refl, arith, ◌||◌, not, ◌&&◌,
}
use trust_the_people.Map.{
  Map, get_entry, insert_entry, remove_entry, empty, get, insert, remove, contains_key,
}

module _ {V : Type 0} where
  get_entry-insert :
      (m : List (ℕ × V)) (k j : ℕ) (v : V)
      → get_entry (insert_entry m k v) j ≡ (if j == k then some v else get_entry m j)
  unfolding get_entry insert_entry
  get_entry-insert [] k j v = refl
  get_entry-insert ((i, w) ∷ m) k j v = ground (arith, get_entry-insert m k j v)

  get_entry-remove :
      (m : List (ℕ × V)) (k j : ℕ)
      → get_entry (remove_entry m k) j ≡ (if j == k then none else get_entry m j)
  unfolding get_entry remove_entry
  get_entry-remove [] k j = ground arith
  get_entry-remove ((i, w) ∷ m) k j = ground (arith, get_entry-remove m k j)

  pub get-empty : (k : ℕ) → get (empty {V = V}) k ≡ none
  unfolding get empty
  get-empty k = refl

  pub get-insert :
      (m : Map V) (k j : ℕ) (v : V) → get (insert m k v) j ≡ (if j == k then some v else get m j)
  unfolding get insert
  get-insert m k j v = get_entry-insert m.entries k j v

  pub get-remove : (m : Map V) (k j : ℕ) → get (remove m k) j ≡ (if j == k then none else get m j)
  unfolding get remove
  get-remove m k j = get_entry-remove m.entries k j

  pub contains_key-insert :
      (m : Map V) (k j : ℕ) (v : V) → contains_key (insert m k v) j ≡ (j == k || contains_key m j)
  unfolding contains_key
  contains_key-insert m k j v = ground (arith, get-insert m k j v)

  pub contains_key-remove :
      (m : Map V) (k j : ℕ) → contains_key (remove m k) j ≡ (not (j == k) && contains_key m j)
  unfolding contains_key
  contains_key-remove m k j = ground (arith, get-remove m k j)

  pub get_of_not_contains_key : (m : Map V) (k : ℕ) → contains_key m k ≡ false → get m k ≡ none
  unfolding contains_key
  get_of_not_contains_key m k h = ground arith

  pub contains_key-get : (m : Map V) (k : ℕ) (v : V) → get m k ≡ some v → contains_key m k ≡ true
  unfolding contains_key
  contains_key-get m k v h = ground arith

pub contains_key-empty : (V : Type 0) (k : ℕ) → contains_key (empty {V = V}) k ≡ false
unfolding contains_key get empty
contains_key-empty V k = refl

pub contains_key_of_none :
    {V : Type 0} (m : Map V) (k : ℕ) → get m k ≡ none → contains_key m k ≡ false
unfolding contains_key
contains_key_of_none m k h = ground arith
