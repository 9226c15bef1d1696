-- ===== src/Merkle/Levels.antt =====
-- The levels of a tree: the loop ends, at a level of one hash.
use trust_the_people.Prelude.{
  ℕ, zero, suc, ◌+◌, ◌/◌, ◌≤◌, ◌<◌, ◌≡◌, refl, ap, subst, inl, inr, some, List, [], ◌∷◌, arith, ltb,
  ltb→lt, Bool-cases, length, last?,
}
use trust_the_people.Result.{ok}
use trust_the_people.Merkle.{build_next_level, levels_above, build_tree, top, new, MerkleTree}

module _ (blake2b : List ℕ → ℕ) where
  pub length-build_next_level :
      (level : List ℕ) → length (build_next_level blake2b level) ≡ (length level + 1) / 2
  unfolding build_next_level
  length-build_next_level [] = refl
  length-build_next_level (a ∷ []) = refl
  length-build_next_level (a ∷ b ∷ rest) = omega (arith, length-build_next_level rest)

  one_of_length : (xs : List ℕ) → length xs ≡ 1 → (r : ℕ) × (xs ≡ r ∷ [])
  one_of_length [] h = absurd (omega arith)
  one_of_length (x ∷ []) h = (x, refl)
  one_of_length (x ∷ y ∷ ys) h = absurd (omega arith)

  -- Fuel of at least the length of a level is enough to reach a level of one hash.
  pub last?-levels_above :
      (fuel : ℕ) (level : List ℕ)
      → 0 < length level
      → length level ≤ suc fuel
      → (r : ℕ) × (last? (level ∷ levels_above blake2b fuel level) ≡ some (r ∷ []))
  unfolding levels_above
  last?-levels_above zero level h k =
      let (r, e) = one_of_length level (omega arith) in (r, ap some e)
  last?-levels_above (suc fuel) level h k = elim (Bool-cases (ltb 1 (length level))) [
    | inl more ↦ rw more (
        last?-levels_above fuel (build_next_level blake2b level)
          (omega (arith, length-build_next_level level, ltb→lt 1 (length level) more))
          (omega (arith, length-build_next_level level, ltb→lt 1 (length level) more)))
    | inr done ↦ let (r, e) = one_of_length level (ground arith) in rw done (r, ap some e)
  ]

  -- A tree over a list that is not empty is built without a panic; its last level is its root alone.
  pub new_lem :
      (h : ℕ) (hs : List ℕ)
      → (t : MerkleTree) × (new blake2b (h ∷ hs) ≡ ok t)
        × (t.leaves ≡ h ∷ hs)
        × (t.levels ≡ build_tree blake2b (h ∷ hs))
        × (last? t.levels ≡ some (t.root ∷ []))
  unfolding new build_tree
  new_lem h hs =
      let (r, e) = last?-levels_above (length (h ∷ hs)) (h ∷ hs) (omega arith) (omega arith) in
      (
        record { root = r; leaves = h ∷ hs; levels = build_tree blake2b (h ∷ hs) },
        rw (e, top),
        refl,
        refl,
        e,
      )

  pub new_fields :
      (h : ℕ) (hs : List ℕ) (t : MerkleTree)
      → new blake2b (h ∷ hs) ≡ ok t
      → (t.leaves ≡ h ∷ hs)
        × (t.levels ≡ build_tree blake2b (h ∷ hs))
        × (last? t.levels ≡ some (t.root ∷ []))
  new_fields h hs t e =
      let (t', made, leaves, levels, last) = new_lem h hs in
      let same : t' ≡ t = cc in
      subst
        (λ (u : MerkleTree).
          (u.leaves ≡ h ∷ hs)
          × (u.levels ≡ build_tree blake2b (h ∷ hs))
          × (last? u.levels ≡ some (u.root ∷ [])))
        same (leaves, levels, last)
