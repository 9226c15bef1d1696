-- ===== src/Map/Keyed.antt =====
-- Maps whose values carry their key: the list of the values stands for the map.
use trust_the_people.Prelude.{
  ℕ, ◌≡◌, refl, ap, ◌∙◌, inl, inr, true, false, List, [], ◌∷◌, ◌++◌, map, arith, ◌==◌, length,
  Bool-cases, any, none, some, contains, Distinct,
}
use trust_the_people.Map.{
  Map, get_entry, insert_entry, value_list, insert, contains_key, get, values, len, empty,
}
use trust_the_people.Set.{snoc-Distinct}

module _ {V : Type 0} (key : V → ℕ) where
  abbrev pub AreKeyed : List (ℕ × V) → Type 0
  AreKeyed [] = Unit
  AreKeyed ((k, v) ∷ m) = (key v ≡ k) × AreKeyed m

  pub record IsKeyed (m : Map V) : Type 0 where
    pub keyed : AreKeyed m.entries
    pub distinct : Distinct (map key (values m))

  has-any :
      (m : List (ℕ × V)) (k : ℕ)
      → AreKeyed m
      → any (λ v. key v == k) (value_list m) ≡ elim (get_entry m k) [ none ↦ false | some v ↦ true ]
  unfolding value_list get_entry
  has-any [] k h = refl
  has-any ((j, v) ∷ m) k h = ground (arith, has-any m k h.1)

  -- The keys are those of the values.
  pub contains_key-any :
      (m : Map V) (k : ℕ) → IsKeyed m → any (λ v. key v == k) (values m) ≡ contains_key m k
  unfolding values contains_key get
  contains_key-any m k h = has-any m.entries k h.keyed

  pub contains-any : (vs : List V) (k : ℕ) → contains (map key vs) k ≡ any (λ v. key v == k) vs
  contains-any [] k = refl
  contains-any (v ∷ vs) k = ground (arith, contains-any vs k)

  value_list-insert :
      (m : List (ℕ × V)) (k : ℕ) (v : V)
      → get_entry m k ≡ none
      → value_list (insert_entry m k v) ≡ value_list m ++ v ∷ []
  unfolding value_list insert_entry get_entry
  value_list-insert [] k v h = refl
  value_list-insert ((j, w) ∷ m) k v h = ground (arith, value_list-insert m k v)

  -- A value of a new key comes last.
  pub values-insert :
      (m : Map V) (k : ℕ) (v : V)
      → contains_key m k ≡ false
      → values (insert m k v) ≡ values m ++ v ∷ []
  unfolding values insert contains_key get
  values-insert m k v h = value_list-insert m.entries k v (ground arith)

  insert-AreKeyed : (m : List (ℕ × V)) (v : V) → AreKeyed m → AreKeyed (insert_entry m (key v) v)
  unfolding insert_entry
  insert-AreKeyed [] v h = (refl, tt)
  insert-AreKeyed ((j, w) ∷ m) v h = elim (Bool-cases (key v == j)) [
    | inl e ↦ rw e (refl, h.1)
    | inr e ↦ rw e (h.0, insert-AreKeyed m v h.1)
  ]

  map-append : (xs : List V) (v : V) → map key (xs ++ v ∷ []) ≡ map key xs ++ key v ∷ []
  map-append [] v = refl
  map-append (x ∷ xs) v = ap (λ l. key x ∷ l) (map-append xs v)

  pub insert-IsKeyed :
      (m : Map V) (v : V)
      → contains_key m (key v) ≡ false
      → IsKeyed m
      → IsKeyed (insert m (key v) v)
  insert-IsKeyed m v fresh h = record {
    keyed = unfold insert in insert-AreKeyed m.entries v h.keyed;
    distinct =
        rw (values-insert m (key v) v fresh, map-append (values m) v)
          (snoc-Distinct (map key (values m)) (key v)
            (contains-any (values m) (key v) ∙ contains_key-any m (key v) h ∙ fresh) h.distinct);
  }

  pub empty-IsKeyed : IsKeyed empty
  unfolding empty values value_list
  empty-IsKeyed = record { keyed = tt; distinct = tt }

  length-value_list : (m : List (ℕ × V)) → length (value_list m) ≡ length m
  unfolding value_list
  length-value_list [] = refl
  length-value_list ((j, w) ∷ m) = omega (arith, length-value_list m)

  pub length-values : (m : Map V) → length (values m) ≡ len m
  unfolding values len
  length-values m = length-value_list m.entries
