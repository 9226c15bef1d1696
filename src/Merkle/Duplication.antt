-- ===== src/Merkle/Duplication.antt =====
-- What a root does not bind: the last leaf of an odd level counts twice.
use trust_the_people.Prelude.{
  ℕ, zero, suc, ◌%◌, ◌≤◌, ◌≡◌, refl, ap, inl, inr, some, List, [], ◌∷◌, ◌++◌, arith, ltb, ltb→lt,
  Bool-cases, length, last?, length-append,
}
use trust_the_people.Result.{ok}
use trust_the_people.Merkle.{MerkleTree, build_next_level, levels_above, build_tree, new, hash_pair}
use trust_the_people.Merkle.Levels.{length-build_next_level, new_fields}

module _ (blake2b : List ℕ → ℕ) where
  levels_above-fuel :
      (f g : ℕ) (level : List ℕ)
      → length level ≤ suc f
      → length level ≤ suc g
      → levels_above blake2b f level ≡ levels_above blake2b g level
  unfolding levels_above
  levels_above-fuel zero zero level hf hg = refl
  levels_above-fuel zero (suc g) level hf hg = ground arith
  levels_above-fuel (suc f) zero level hf hg = ground arith
  levels_above-fuel (suc f) (suc g) level hf hg = elim (Bool-cases (ltb 1 (length level))) [
    | inr done ↦ rw done
    | inl more ↦
        let n = length-build_next_level blake2b level in
        let m = ltb→lt 1 (length level) more in
        rw more (
          ap (◌∷◌ (build_next_level blake2b level))
            (levels_above-fuel f g (build_next_level blake2b level) (omega arith) (omega arith)))
  ]

  build_next_level-duplicate :
      (hs : List ℕ) (a : ℕ)
      → length hs % 2 ≡ 0
      → build_next_level blake2b (hs ++ a ∷ []) ≡ build_next_level blake2b (hs ++ a ∷ a ∷ [])
  unfolding build_next_level
  build_next_level-duplicate [] a h = refl
  build_next_level-duplicate (x ∷ []) a h = absurd (omega arith)
  build_next_level-duplicate (x ∷ y ∷ rest) a h =
      ap (◌∷◌ (hash_pair blake2b x y)) (build_next_level-duplicate rest a (omega arith))

  root_top :
      (h : ℕ) (hs : List ℕ) (t : MerkleTree)
      → new blake2b (h ∷ hs) ≡ ok t
      → last? (build_tree blake2b (h ∷ hs)) ≡ some (t.root ∷ [])
  root_top h hs t e = let (leaves, levels, last) = new_fields blake2b h hs t e in rw levels at last

  -- The levels above a level of two hashes or more, with the fuel of its tree.
  build_tree-step :
      (x y : ℕ) (rest : List ℕ)
      → build_tree blake2b (x ∷ y ∷ rest)
        ≡ (x ∷ y ∷ rest)
          ∷ build_next_level blake2b (x ∷ y ∷ rest)
          ∷ levels_above blake2b (suc (length rest)) (build_next_level blake2b (x ∷ y ∷ rest))
  unfolding build_tree levels_above
  build_tree-step x y rest = ground arith

  -- Repeating the last of an odd number of leaves, three or more, leaves the root as it is.
  pub new-duplicate_last :
      (x y a : ℕ) (rest : List ℕ) (t u : MerkleTree)
      → length rest % 2 ≡ 0
      → new blake2b (x ∷ y ∷ (rest ++ a ∷ [])) ≡ ok t
      → new blake2b (x ∷ y ∷ (rest ++ a ∷ a ∷ [])) ≡ ok u
      → t.root ≡ u.root
  new-duplicate_last x y a rest t u even et eu =
      let once = rest ++ a ∷ [] in
      let twice = rest ++ a ∷ a ∷ [] in
      let same = build_next_level-duplicate (x ∷ y ∷ rest) a (omega arith) in
      let lt = length-append rest (a ∷ []) in
      let lu = length-append rest (a ∷ a ∷ []) in
      let n = length-build_next_level blake2b (x ∷ y ∷ once) in
      let fuel =
        levels_above-fuel (suc (length once)) (suc (length twice))
          (build_next_level blake2b (x ∷ y ∷ once)) (omega arith) (omega arith) in
      let p = build_tree-step x y once in
      let q = build_tree-step x y twice in
      let top_t = rw p at (root_top x (y ∷ once) t et) in
      let top_u = rw (q, ← same, ← fuel) at (root_top x (y ∷ twice) u eu) in cc
