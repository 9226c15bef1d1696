-- ===== src/Map/Keys.antt =====
-- A map has each key once, and what `retain` keeps can then be read off.
use trust_the_people.Prelude.{
  ℕ, ◌≡◌, refl, ◌∙◌, inl, inr, Bool, false, ◌||◌, Option, none, some, List, [], ◌∷◌, arith, ◌==◌,
  if◌then◌else◌, ==_iff, Bool-cases, contains, Distinct, In, ap, ap₂, sym, true, ==_refl,
}
use trust_the_people.Map.{Map, get_entry, insert_entry, retain_entries, empty, get, insert, retain}

abbrev entry_keys : {V : Type 0} → List (ℕ × V) → List ℕ
entry_keys [] = []
entry_keys ((k, v) ∷ m) = k ∷ entry_keys m

pub record HasUniqueKeys {V : Type 0} (m : Map V) : Type 0 where
  unique : Distinct (entry_keys m.entries)

module _ {V : Type 0} where
  contains-insert_entry :
      (m : List (ℕ × V)) (k j : ℕ) (v : V)
      → contains (entry_keys (insert_entry m k v)) j ≡ (j == k || contains (entry_keys m) j)
  unfolding insert_entry
  contains-insert_entry [] k j v = refl
  contains-insert_entry ((i, w) ∷ m) k j v = ground (arith, contains-insert_entry m k j v)

  insert_entry-Distinct :
      (m : List (ℕ × V)) (k : ℕ) (v : V)
      → Distinct (entry_keys m)
      → Distinct (entry_keys (insert_entry m k v))
  unfolding insert_entry
  insert_entry-Distinct [] k v d = (refl, tt)
  insert_entry-Distinct ((i, w) ∷ m) k v d = elim (Bool-cases (k == i)) [
    | inl e ↦ let p = (==_iff k i).0 e in rw e (rw p d)
    | inr e ↦
        rw e (contains-insert_entry m k i v ∙ ground (arith, d.0), insert_entry-Distinct m k v d.1)
  ]

  contains-retain_entries :
      (p : V → Bool) (m : List (ℕ × V)) (j : ℕ)
      → contains (entry_keys m) j ≡ false
      → contains (entry_keys (retain_entries p m)) j ≡ false
  unfolding retain_entries
  contains-retain_entries p [] j h = h
  contains-retain_entries p ((i, w) ∷ m) j h = ground (arith, contains-retain_entries p m j)

  retain_entries-Distinct :
      (p : V → Bool) (m : List (ℕ × V))
      → Distinct (entry_keys m)
      → Distinct (entry_keys (retain_entries p m))
  unfolding retain_entries
  retain_entries-Distinct p [] d = d
  retain_entries-Distinct p ((i, w) ∷ m) d = elim (Bool-cases (p w)) [
    | inl e ↦ rw e (contains-retain_entries p m i d.0, retain_entries-Distinct p m d.1)
    | inr e ↦ rw e (retain_entries-Distinct p m d.1)
  ]

  get_entry-absent :
      (m : List (ℕ × V)) (k : ℕ) → contains (entry_keys m) k ≡ false → get_entry m k ≡ none
  unfolding get_entry
  get_entry-absent [] k h = refl
  get_entry-absent ((i, w) ∷ m) k h = ground (arith, get_entry-absent m k)

  abbrev kept : (V → Bool) → Option V → Option V
  kept p none = none
  kept p (some v) = if p v then some v else none

  get_entry-retain :
      (p : V → Bool) (m : List (ℕ × V)) (k : ℕ)
      → Distinct (entry_keys m)
      → get_entry (retain_entries p m) k ≡ kept p (get_entry m k)
  unfolding get_entry retain_entries
  get_entry-retain p [] k d = refl
  get_entry-retain p ((i, w) ∷ m) k d = elim (Bool-cases (k == i)) [
    | inl e ↦
        let same = (==_iff k i).0 e in
        let gone : get_entry (retain_entries p m) k ≡ none =
          get_entry-absent (retain_entries p m) k (rw same (contains-retain_entries p m i d.0)) in
        ground (arith, gone)
    | inr e ↦ ground (arith, get_entry-retain p m k d.1)
  ]

  pub empty-HasUniqueKeys : HasUniqueKeys (empty {V = V})
  unfolding empty
  empty-HasUniqueKeys = record { unique = tt }

  pub insert-HasUniqueKeys :
      (m : Map V) (k : ℕ) (v : V) → HasUniqueKeys m → HasUniqueKeys (insert m k v)
  unfolding insert
  insert-HasUniqueKeys m k v u = record { unique = insert_entry-Distinct m.entries k v u.unique }

  pub retain-HasUniqueKeys :
      (p : V → Bool) (m : Map V) → HasUniqueKeys m → HasUniqueKeys (retain p m)
  unfolding retain
  retain-HasUniqueKeys p m u = record { unique = retain_entries-Distinct p m.entries u.unique }

  -- `retain` keeps the entries that pass.
  pub get-retain :
      (p : V → Bool) (m : Map V) (k : ℕ)
      → HasUniqueKeys m
      → get (retain p m) k ≡ elim (get m k) [ none ↦ none | some v ↦ if p v then some v else none ]
  unfolding get retain
  get-retain p m k u = get_entry-retain p m.entries k u.unique ∙ ground arith

  get_entry-In : (m : List (ℕ × V)) (k : ℕ) (v : V) → get_entry m k ≡ some v → In (k, v) m
  unfolding get_entry
  get_entry-In [] k v h = ground arith
  get_entry-In ((i, w) ∷ m) k v h = elim (Bool-cases (k == i)) [
    | inl same ↦ inl (ap₂ (λ a b. (a, b)) ((==_iff k i).0 same) (ground arith))
    | inr other ↦ inr (get_entry-In m k v (ground arith))
  ]

  contains-In : (m : List (ℕ × V)) (k : ℕ) (v : V) → In (k, v) m → contains (entry_keys m) k ≡ true
  contains-In [] k v i = absurd i
  contains-In ((j, w) ∷ m) k v (inl e) = rw (ap (λ p. p.0) e, ==_refl j) refl
  contains-In ((j, w) ∷ m) k v (inr i) = ground (arith, contains-In m k v i)

  In-get_entry :
      (m : List (ℕ × V)) (k : ℕ) (v : V)
      → Distinct (entry_keys m)
      → In (k, v) m
      → get_entry m k ≡ some v
  unfolding get_entry
  In-get_entry [] k v d i = absurd i
  In-get_entry ((j, w) ∷ m) k v d (inl e) =
      rw (ap (λ p. p.0) e, ==_refl j) (ap (λ p. some p.1) (sym e))
  In-get_entry ((j, w) ∷ m) k v d (inr i) =
      ground (arith, In-get_entry m k v d.1 i, contains-In m k v i, d.0)

  -- What a map holds is among its entries, and the other way round.
  pub get-In : (m : Map V) (k : ℕ) (v : V) → get m k ≡ some v → In (k, v) m.entries
  unfolding get
  get-In m k v h = get_entry-In m.entries k v h

  pub In-get :
      (m : Map V) (k : ℕ) (v : V) → HasUniqueKeys m → In (k, v) m.entries → get m k ≡ some v
  unfolding get
  In-get m k v u i = In-get_entry m.entries k v u.unique i
