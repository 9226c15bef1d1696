-- ===== src/Merkle/Root.antt =====
-- The root binds a list of leaves of known length, up to collisions of the digest.
use trust_the_people.Prelude.{
  ℕ, zero, suc, ◌≡◌, refl, sym, ap, subst, ◌∙◌, ◌⊎◌, inl, inr, true, some, List, [], ◌∷◌, ◌++◌,
  arith, ltb, if◌then◌else◌, Bool-cases, length, last?, All,
}
use trust_the_people.Result.{ok}
use trust_the_people.Digest.{
  IsHash, CollidingAmong, CollidingAmong-append_left, CollidingAmong-append_right,
}
use trust_the_people.Merkle.{MerkleTree, build_next_level, levels_above, build_tree, new}
use trust_the_people.Merkle.Levels.{length-build_next_level, new_fields}
use trust_the_people.Merkle.Binding.{pair_bytes, hash_pair-binds, hash_pair-IsHash}

-- The byte strings hashed to build the level above.
abbrev pub level_bytes : List ℕ → List (List ℕ)
level_bytes [] = []
level_bytes (a ∷ []) = pair_bytes a a ∷ []
level_bytes (a ∷ b ∷ rest) = pair_bytes a b ∷ level_bytes rest

module _ (blake2b : List ℕ → ℕ) where
  -- The byte strings hashed to build a tree.
  pub levels_bytes : ℕ → List ℕ → List (List ℕ)
  levels_bytes zero level = []
  levels_bytes (suc fuel) level =
      let rest = level_bytes level ++ levels_bytes fuel (build_next_level blake2b level) in
      if ltb 1 (length level) then rest else []

  unfoldable pub tree_bytes : List ℕ → List (List ℕ)
  tree_bytes hashes = levels_bytes (length hashes) hashes

module _ (blake2b : List ℕ → ℕ) (digest : (bytes : List ℕ) → IsHash (blake2b bytes)) where
  build_next_level-IsHash : (xs : List ℕ) → All IsHash (build_next_level blake2b xs)
  unfolding build_next_level
  build_next_level-IsHash [] = tt
  build_next_level-IsHash (a ∷ []) = (hash_pair-IsHash blake2b digest a a, tt)
  build_next_level-IsHash (a ∷ b ∷ rest) =
      (hash_pair-IsHash blake2b digest a b, build_next_level-IsHash rest)

  build_next_level-binds :
      (xs ys : List ℕ)
      → length xs ≡ length ys
      → All IsHash xs
      → All IsHash ys
      → build_next_level blake2b xs ≡ build_next_level blake2b ys
      → (xs ≡ ys) ⊎ CollidingAmong blake2b (level_bytes xs) (level_bytes ys)
  unfolding build_next_level
  build_next_level-binds [] [] l hx hy e = inl refl
  build_next_level-binds [] (y ∷ ys) l hx hy e = absurd (omega arith)
  build_next_level-binds (x ∷ xs) [] l hx hy e = absurd (omega arith)
  build_next_level-binds (a ∷ []) (c ∷ []) l hx hy e =
      elim (hash_pair-binds blake2b digest a a c c hx.0 hx.0 hy.0 hy.0 (cc)) [
        | inl p ↦ inl (cc p.0)
        | inr k ↦ inr (pair_bytes a a, pair_bytes c c, inl refl, inl refl, k)
      ]
  build_next_level-binds (a ∷ []) (c ∷ d ∷ ys) l hx hy e = absurd (omega arith)
  build_next_level-binds (a ∷ b ∷ xs) (c ∷ []) l hx hy e = absurd (omega arith)
  build_next_level-binds (a ∷ b ∷ xs) (c ∷ d ∷ ys) l hx hy e =
      elim (hash_pair-binds blake2b digest a b c d hx.0 (hx.1).0 hy.0 (hy.1).0 (cc)) [
        | inr k ↦ inr (pair_bytes a b, pair_bytes c d, inl refl, inl refl, k)
        | inl p ↦ elim (build_next_level-binds xs ys (omega arith) (hx.1).1 (hy.1).1 (cc)) [
          | inl q ↦ inl (cc (p.0, p.1, q))
          | inr (u, v, i, j, k) ↦ inr (u, v, inr i, inr j, k)
        ]
      ]

  levels_above-binds :
      (fuel : ℕ) (xs ys : List ℕ)
      → length xs ≡ length ys
      → All IsHash xs
      → All IsHash ys
      → last? (xs ∷ levels_above blake2b fuel xs) ≡ last? (ys ∷ levels_above blake2b fuel ys)
      → (xs ≡ ys)
        ⊎ CollidingAmong blake2b (levels_bytes blake2b fuel xs) (levels_bytes blake2b fuel ys)
  unfolding levels_above levels_bytes
  levels_above-binds zero xs ys l hx hy e = inl (cc)
  levels_above-binds (suc fuel) xs ys l hx hy e = elim (Bool-cases (ltb 1 (length xs))) [
    | inr done ↦ inl (ground arith)
    | inl more ↦
        let more' : ltb 1 (length ys) ≡ true = rw (← l) more in
        let n = length-build_next_level blake2b xs in
        let m = length-build_next_level blake2b ys in
        let xs' = build_next_level blake2b xs in
        let ys' = build_next_level blake2b ys in
        let above : last? (xs' ∷ levels_above blake2b fuel xs')
            ≡ last? (ys' ∷ levels_above blake2b fuel ys') =
          rw (more, more') at e in
        rw (more, more')
          (elim (levels_above-binds fuel xs' ys' (omega arith) (build_next_level-IsHash xs)
            (build_next_level-IsHash ys) above) [
              | inr k ↦ inr (
                  CollidingAmong-append_right blake2b (level_bytes xs)
                    (levels_bytes blake2b fuel xs') (level_bytes ys) (levels_bytes blake2b fuel ys')
                    k)
              | inl q ↦ elim (build_next_level-binds xs ys l hx hy q) [
                | inl p ↦ inl p
                | inr k ↦ inr (
                    CollidingAmong-append_left blake2b (level_bytes xs)
                      (levels_bytes blake2b fuel xs') (level_bytes ys)
                      (levels_bytes blake2b fuel ys') k)
              ]
            ])
  ]

  -- Two trees over as many leaves with one root have the same leaves, or two of the byte strings hashed
  -- to build them collide. Hashes are 32 bytes.
  pub new-root_binds :
      (xs ys : List ℕ) (t u : MerkleTree)
      → length xs ≡ length ys
      → All IsHash xs
      → All IsHash ys
      → new blake2b xs ≡ ok t
      → new blake2b ys ≡ ok u
      → t.root ≡ u.root
      → (xs ≡ ys) ⊎ CollidingAmong blake2b (tree_bytes blake2b xs) (tree_bytes blake2b ys)
  unfolding tree_bytes build_tree
  new-root_binds [] [] t u l hx hy et eu e = inl refl
  new-root_binds [] (y ∷ ys) t u l hx hy et eu e = absurd (omega arith)
  new-root_binds (x ∷ xs) [] t u l hx hy et eu e = absurd (omega arith)
  new-root_binds (x ∷ xs) (y ∷ ys) t u l hx hy et eu e =
      let (lt, levt, top_t) = new_fields blake2b x xs t et in
      let (lu, levu, top_u) = new_fields blake2b y ys u eu in
      let both : last? ((x ∷ xs) ∷ levels_above blake2b (length (x ∷ xs)) (x ∷ xs))
          ≡ last? ((y ∷ ys) ∷ levels_above blake2b (length (y ∷ ys)) (y ∷ ys)) =
        (rw levt at top_t) ∙ ap (λ (r : ℕ). some (r ∷ [])) e ∙ sym (rw levu at top_u) in
      subst
        (λ n.
          ((x ∷ xs) ≡ (y ∷ ys))
          ⊎ CollidingAmong blake2b (levels_bytes blake2b (length (x ∷ xs)) (x ∷ xs))
              (levels_bytes blake2b n (y ∷ ys)))
        l
        (levels_above-binds (length (x ∷ xs)) (x ∷ xs) (y ∷ ys) l hx hy (
          subst
            (λ n.
              last? ((x ∷ xs) ∷ levels_above blake2b (length (x ∷ xs)) (x ∷ xs))
              ≡ last? ((y ∷ ys) ∷ levels_above blake2b n (y ∷ ys)))
            (sym l) both))
