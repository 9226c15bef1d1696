-- ===== src/Prelude/Sort.antt =====
-- Sorting of numbers, as `slice::sort_by` does it: the result, not the algorithm, is what clients see.
use Prim.Native.Nat.{ℕ, suc}
use mathlib.Core.Path.{◌≡◌, refl, ap, ap₂, ◌∙◌}
use mathlib.Core.Bool.{false, ◌||◌}
use mathlib.Core.List.{List, [], ◌∷◌, Perm, Permᴰ}
use mathlib.Core.Logic.{inl, inr, ∥∥₁_elim}
use native.Mathlib.Decide.{ℕ_discrete}
use native.Mathlib.Omega.{arith}
use trust_the_people.Prelude.Tests.{if◌then◌else◌, leb, ◌==◌, Bool-cases}
use trust_the_people.Prelude.Lists.{length, contains}

pub insert_sorted : ℕ → List ℕ → List ℕ
insert_sorted a [] = a ∷ []
insert_sorted a (x ∷ xs) = let rest = insert_sorted a xs in if leb a x then a ∷ x ∷ xs else x ∷ rest

unfoldable pub sort : List ℕ → List ℕ
unfolding insert_sorted
sort [] = []
sort (x ∷ xs) = insert_sorted x (sort xs)

length-insert_sorted : (a : ℕ) (xs : List ℕ) → length (insert_sorted a xs) ≡ suc (length xs)
unfolding insert_sorted
length-insert_sorted a [] = refl
length-insert_sorted a (x ∷ xs) = ground (arith, length-insert_sorted a xs)

pub length-sort : (xs : List ℕ) → length (sort xs) ≡ length xs
unfolding sort
length-sort [] = refl
length-sort (x ∷ xs) = length-insert_sorted x (sort xs) ∙ ap suc (length-sort xs)

contains-insert_sorted :
    (a b : ℕ) (xs : List ℕ) → contains (insert_sorted a xs) b ≡ (b == a || contains xs b)
unfolding insert_sorted
contains-insert_sorted a b [] = refl
contains-insert_sorted a b (x ∷ xs) = ground (arith, contains-insert_sorted a b xs)

pub contains-sort : (xs : List ℕ) (b : ℕ) → contains (sort xs) b ≡ contains xs b
unfolding sort
contains-sort [] b = refl
contains-sort (x ∷ xs) b =
    contains-insert_sorted x b (sort xs) ∙ ap (λ t. b == x || t) (contains-sort xs b)

-- Two insertions commute, so the sorted list does not depend on the order that it is built in.
insert_sorted_comm :
    (a b : ℕ) (xs : List ℕ)
    → insert_sorted a (insert_sorted b xs) ≡ insert_sorted b (insert_sorted a xs)
unfolding insert_sorted
insert_sorted_comm a b [] = ground arith
insert_sorted_comm a b (x ∷ xs) = ground (arith, insert_sorted_comm a b xs)

sort-Permᴰ : {xs ys : List ℕ} → Permᴰ xs ys → sort xs ≡ sort ys
unfolding sort
sort-Permᴰ Permᴰ.nil = refl
sort-Permᴰ (Permᴰ.cons e h) = ap₂ insert_sorted e (sort-Permᴰ h)
sort-Permᴰ (Permᴰ.swap {a = a} {b = b} {l = l} e f) =
    insert_sorted_comm a b (sort l) ∙ ap₂ (λ x y. insert_sorted x (insert_sorted y (sort l))) f e
sort-Permᴰ (Permᴰ.trans h k) = sort-Permᴰ h ∙ sort-Permᴰ k

lists_set : IsSet (List ℕ)
lists_set = hlevel ℕ_discrete

pub sort-perm : {xs ys : List ℕ} → Perm xs ys → sort xs ≡ sort ys
sort-perm h = ∥∥₁_elim h (lists_set _ _) (λ k. sort-Permᴰ k)

-- A list without repetition.
abbrev pub Distinct : List ℕ → Type 0
Distinct [] = Unit
Distinct (x ∷ xs) = (contains xs x ≡ false) × Distinct xs

Distinct-insert_sorted :
    (a : ℕ) (xs : List ℕ) → contains xs a ≡ false → Distinct xs → Distinct (insert_sorted a xs)
unfolding insert_sorted
Distinct-insert_sorted a [] h d = (refl, tt)
Distinct-insert_sorted a (x ∷ xs) h d = elim (Bool-cases (leb a x)) [
  | inl e ↦ rw e (h, (d.0, d.1))
  | inr e ↦ rw e (
    contains-insert_sorted a x xs ∙ ground (arith, d.0),
    Distinct-insert_sorted a xs (ground arith) d.1,
  )
]

pub Distinct-sort : (xs : List ℕ) → Distinct xs → Distinct (sort xs)
unfolding sort
Distinct-sort [] d = tt
Distinct-sort (x ∷ xs) d =
    Distinct-insert_sorted x (sort xs) (contains-sort xs x ∙ d.0) (Distinct-sort xs d.1)
