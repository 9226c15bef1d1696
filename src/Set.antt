-- ===== src/Set.antt =====
-- `std::collections::HashSet` of 32-byte keys, as a list without repetition.
use trust_the_people.Prelude.{
  ℕ, ◌≡◌, refl, ◌∙◌, inl, inr, true, false, not, ◌&&◌, ◌||◌, List, [], ◌∷◌, ◌++◌, arith, ◌==◌,
  if◌then◌else◌, ==_iff, Bool-cases, filter, contains, contains-append, Distinct,
}

unfoldable pub set_insert : List ℕ → ℕ → List ℕ
set_insert s k = if contains s k then s else s ++ k ∷ []

unfoldable pub set_remove : List ℕ → ℕ → List ℕ
set_remove s k = filter (λ x. not (x == k)) s

present : (s : List ℕ) (k j : ℕ) → contains s k ≡ true → contains s j ≡ (j == k || contains s j)
present s k j old = elim (Bool-cases (j == k)) [
  | inl e ↦ let p = (==_iff j k).0 e in rw (e, p) old
  | inr e ↦ rw e
]

pub contains-set_insert :
    (s : List ℕ) (k j : ℕ) → contains (set_insert s k) j ≡ (j == k || contains s j)
unfolding set_insert
contains-set_insert s k j = elim (Bool-cases (contains s k)) [
  | inr new ↦ rw new (contains-append s (k ∷ []) j ∙ ground arith)
  | inl old ↦ rw old (present s k j old)
]

pub contains-filter_ne :
    (s : List ℕ) (k j : ℕ)
    → contains (filter (λ x. not (x == k)) s) j ≡ (not (j == k) && contains s j)
contains-filter_ne [] k j = ground arith
contains-filter_ne (x ∷ xs) k j = ground (arith, contains-filter_ne xs k j)

pub contains-set_remove :
    (s : List ℕ) (k j : ℕ) → contains (set_remove s k) j ≡ (not (j == k) && contains s j)
unfolding set_remove
contains-set_remove s k j = contains-filter_ne s k j

pub snoc-Distinct :
    (s : List ℕ) (k : ℕ) → contains s k ≡ false → Distinct s → Distinct (s ++ k ∷ [])
snoc-Distinct [] k h d = (refl, tt)
snoc-Distinct (x ∷ xs) k h d =
    (contains-append xs (k ∷ []) x ∙ ground (arith, d.0), snoc-Distinct xs k (ground arith) d.1)

pub set_insert-Distinct : (s : List ℕ) (k : ℕ) → Distinct s → Distinct (set_insert s k)
unfolding set_insert
set_insert-Distinct s k d = elim (Bool-cases (contains s k)) [
  | inl old ↦ rw old d
  | inr new ↦ rw new (snoc-Distinct s k new d)
]
