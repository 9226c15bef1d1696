-- ===== src/Voting/Indexed.antt =====
-- A list of items and the map from their keys to their places: how the registry of voters and the
-- ballot box store, and why the two together are a finite map.
use trust_the_people.Prelude.{
  ℕ, ◌≡◌, sym, ap, subst, ◌∙◌, inl, inr, false, Option, none, some, List, [], ◌∷◌, ◌++◌, arith,
  ◌==◌, if◌then◌else◌, ==_iff, ==_refl, Bool-cases, Option-cases, if-true, if-false, length,
  get_elem?, get_elem?-append_left, get_elem?-append_end, get_elem?-append_cases, set,
  get_elem?-set,
}
use trust_the_people.Map
use trust_the_people.Map.{Map}
use trust_the_people.Map.Laws.{get-empty, get-insert, get_of_not_contains_key}

module _ {A : Type 0} (key : A → ℕ) where
  abbrev pub at_place : List A → Option ℕ → Option A
  at_place xs none = none
  at_place xs (some i) = get_elem? xs i

  abbrev pub lookup : List A → Map ℕ → ℕ → Option A
  lookup xs m k = at_place xs (Map.get m k)

  pub record IsIndexed (xs : List A) (m : Map ℕ) : Type 0 where
    pub sound : (k i : ℕ) → Map.get m k ≡ some i → (a : A) × (get_elem? xs i ≡ some a) × (key a ≡ k)
    pub complete : (i : ℕ) (a : A) → get_elem? xs i ≡ some a → Map.get m (key a) ≡ some i

  pub empty-IsIndexed : IsIndexed [] Map.empty
  empty-IsIndexed = record {
    sound = λ k i h. absurd (cc (sym (get-empty k) ∙ h));
    complete = λ i a h. cc;
  }

  module _ (xs : List A) (m : Map ℕ) (h : IsIndexed xs m) where
    -- A key that is absent has no place, so it is no item's.
    fresh-key :
        (k i : ℕ) (a : A) → Map.get m k ≡ none → get_elem? xs i ≡ some a → (k == key a) ≡ false
    fresh-key k i a fresh at = elim (Bool-cases (k == key a)) [
      | inr e ↦ e
      | inl e ↦
          let same = (==_iff k (key a)).0 e in
          absurd (cc (h.complete i a at, fresh, ap (Map.get m) same))
    ]

    module _ (a : A) (new : Map.contains_key m (key a) ≡ false) where
      snoc_sound :
          (k i : ℕ)
          → Map.get (Map.insert m (key a) (length xs)) k ≡ some i
          → (b : A) × (get_elem? (xs ++ a ∷ []) i ≡ some b) × (key b ≡ k)
      snoc_sound k i g = elim (Bool-cases (k == key a)) [
        | inl e ↦
            let here : some (length xs) ≡ some i =
              sym (if-true (k == key a) _ _ e) ∙ sym (get-insert m (key a) k (length xs)) ∙ g in
            let place : length xs ≡ i = cc in
            (
              a,
              subst (λ j. get_elem? (xs ++ a ∷ []) j ≡ some a) place (get_elem?-append_end xs a),
              sym ((==_iff k (key a)).0 e),
            )
        | inr e ↦
            let old : Map.get m k ≡ some i =
              sym (if-false (k == key a) (some (length xs)) (Map.get m k) e)
              ∙ sym (get-insert m (key a) k (length xs))
              ∙ g in
            let (b, at, same) = h.sound k i old in
            (b, get_elem?-append_left xs (a ∷ []) i b at, same)
      ]

      snoc_complete :
          (i : ℕ) (b : A)
          → get_elem? (xs ++ a ∷ []) i ≡ some b
          → Map.get (Map.insert m (key a) (length xs)) (key b) ≡ some i
      snoc_complete i b at = elim (get_elem?-append_cases xs a b i at) [
        | inl old ↦
            let fresh = get_of_not_contains_key m (key a) new in
            let other : (key b == key a) ≡ false =
              ground (arith, fresh-key (key a) i b fresh old) in
            get-insert m (key a) (key b) (length xs)
            ∙ if-false (key b == key a) _ _ other
            ∙ h.complete i b old
        | inr (e, f) ↦
            get-insert m (key a) (key b) (length xs)
            ∙ if-true (key b == key a) _ _ ((==_iff (key b) (key a)).1 (ap key f))
            ∙ ap some (sym e)
      ]

      pub snoc-IsIndexed : IsIndexed (xs ++ a ∷ []) (Map.insert m (key a) (length xs))
      snoc-IsIndexed = record { sound = snoc_sound; complete = snoc_complete }

      -- An item of a new key is found under its key, and the others as before.
      pub lookup-snoc :
          (k : ℕ)
          → lookup (xs ++ a ∷ []) (Map.insert m (key a) (length xs)) k
            ≡ (if k == key a then some a else lookup xs m k)
      lookup-snoc k = elim (Bool-cases (k == key a)) [
        | inl e ↦
            ap (at_place (xs ++ a ∷ []))
              (get-insert m (key a) k (length xs) ∙ if-true (k == key a) _ _ e)
            ∙ get_elem?-append_end xs a
            ∙ sym (if-true (k == key a) (some a) (lookup xs m k) e)
        | inr e ↦
            ap (at_place (xs ++ a ∷ []))
              (get-insert m (key a) k (length xs) ∙ if-false (k == key a) _ _ e)
            ∙ elim (Option-cases (Map.get m k)) [
              | inl n ↦ rw n
              | inr (i, at) ↦
                  let (b, here, _) = h.sound k i at in
                  rw (at, here) (get_elem?-append_left xs (a ∷ []) i b here)
            ]
            ∙ sym (if-false (k == key a) (some a) (lookup xs m k) e)
      ]

    module _ (i : ℕ) (old a : A) (here : get_elem? xs i ≡ some old) (same : key a ≡ key old) where
      -- A write that keeps the key keeps the index.
      pub set-IsIndexed : IsIndexed (set xs i a) m
      set-IsIndexed = record {
        sound = λ k j g.
            let (b, at, e) = h.sound k j g in
            elim (Bool-cases (j == i)) [
              | inl p ↦
                  let place = (==_iff j i).0 p in
                  (a, get_elem?-set xs i j a old here ∙ if-true (j == i) _ _ p, same ∙ cc)
              | inr p ↦ (b, get_elem?-set xs i j a old here ∙ if-false (j == i) _ _ p ∙ at, e)
            ];
        complete = λ j b at. elim (Bool-cases (j == i)) [
          | inl p ↦
              let written : some a ≡ some b =
                sym (if-true (j == i) (some a) (get_elem? xs j) p)
                ∙ sym (get_elem?-set xs i j a old here)
                ∙ at in
              let equal : key b ≡ key old = cc in
              let place = (==_iff j i).0 p in
              ap (Map.get m) equal ∙ h.complete i old here ∙ ap some (sym place)
          | inr p ↦
              h.complete j b
                (sym (if-false (j == i) (some a) _ p) ∙ sym (get_elem?-set xs i j a old here) ∙ at)
        ];
      }

      elsewhere : (k j : ℕ) → (k == key a) ≡ false → Map.get m k ≡ some j → (j == i) ≡ false
      elsewhere k j e at = elim (Bool-cases (j == i)) [
        | inr p ↦ p
        | inl p ↦
            let (b, there, own) = h.sound k j at in
            let place = (==_iff j i).0 p in
            let equal : k ≡ key a = cc in absurd (ground (arith, (==_iff k (key a)).1 equal))
      ]

      -- The item written is found under its key, and the others as before.
      pub lookup-set :
          (k : ℕ) → lookup (set xs i a) m k ≡ (if k == key a then some a else lookup xs m k)
      lookup-set k = elim (Bool-cases (k == key a)) [
        | inl e ↦
            let found : Map.get m k ≡ some i =
              ap (Map.get m) ((==_iff k (key a)).0 e ∙ same) ∙ h.complete i old here in
            ap (at_place (set xs i a)) found
            ∙ get_elem?-set xs i i a old here
            ∙ if-true (i == i) (some a) _ (==_refl i)
            ∙ sym (if-true (k == key a) (some a) (lookup xs m k) e)
        | inr e ↦
            elim (Option-cases (Map.get m k)) [
              | inl n ↦ rw n
              | inr (j, at) ↦ rw at (
                  get_elem?-set xs i j a old here
                  ∙ if-false (j == i) (some a) _ (elsewhere k j e at))
            ]
            ∙ sym (if-false (k == key a) (some a) (lookup xs m k) e)
      ]
