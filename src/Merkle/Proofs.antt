-- ===== src/Merkle/Proofs.antt =====
-- Every proof that a tree hands out is accepted.
use trust_the_people.Prelude.{
  ℕ, zero, suc, ◌/◌, ◌%◌, ◌≡◌, refl, ◌∙◌, inl, inr, true, false, some, List, [], ◌∷◌, arith, ltb,
  leb, ◌==◌, ==_refl, Bool-cases, length, get_elem?, last?,
}
use trust_the_people.Result.{ok}
use trust_the_people.Merkle.{
  MerkleTree, MerkleProof, ProofNode, build_next_level, levels_above, build_tree, new, index,
  but_last, sibling_index, sibling_hash, proof_nodes, generate_proof, fold_node, fold_nodes,
  verify_proof,
}
use trust_the_people.Merkle.Levels.{new_fields}

sibling_index-suc-suc : (i : ℕ) → sibling_index (suc (suc i)) ≡ suc (suc (sibling_index i))
unfolding sibling_index
sibling_index-suc-suc i = ground arith

sibling_hash-suc-suc :
    (a b : ℕ) (rest : List ℕ) (i : ℕ)
    → sibling_hash (a ∷ b ∷ rest) (suc (suc i)) ≡ sibling_hash rest i
unfolding sibling_hash
sibling_hash-suc-suc a b rest i = rw (sibling_index-suc-suc i) (ground arith)

abbrev node_at : ℕ → ℕ → ProofNode
node_at s i = record { hash = s; is_left = i % 2 == 1 }

only_node : (level : List ℕ) (i h r : ℕ) → get_elem? level i ≡ some h → level ≡ r ∷ [] → h ≡ r
only_node [] i h r e l = cc
only_node (a ∷ []) zero h r e l = cc
only_node (a ∷ []) (suc i) h r e l = cc
only_node (a ∷ b ∷ rest) i h r e l = cc

in_range : (xs : List ℕ) (i h : ℕ) → get_elem? xs i ≡ some h → leb (length xs) i ≡ false
in_range [] i h e = cc
in_range (x ∷ xs) zero h e = ground arith
in_range (x ∷ xs) (suc i) h e = ground (arith, in_range xs i h e)

-- The result for an index of a leaf.
pub generate_proof-leaf :
    (t : MerkleTree) (i h : ℕ) (nodes : List ProofNode)
    → get_elem? t.leaves i ≡ some h
    → proof_nodes (but_last t.levels) i ≡ ok nodes
    → generate_proof t i
      ≡ ok (some (record { leaf_hash = h; leaf_index = i; proof = nodes; root = t.root }))
unfolding generate_proof
generate_proof-leaf t i h nodes e u = rw (in_range t.leaves i h e, u, index, e)

module _ (blake2b : List ℕ → ℕ) where
  -- One level up: the node at `i / 2` is the node at `i` folded with its sibling.
  next_node :
      (level : List ℕ) (i h : ℕ)
      → get_elem? level i ≡ some h
      → (s : ℕ) × (sibling_hash level i ≡ ok s)
        × (get_elem? (build_next_level blake2b level) (i / 2)
            ≡ some (fold_node blake2b (node_at s i) h))
  unfolding build_next_level fold_node
  next_node [] i h e = cc
  next_node (a ∷ []) zero h e = (a, unfold sibling_hash in refl, cc)
  next_node (a ∷ []) (suc i) h e = cc
  next_node (a ∷ b ∷ rest) zero h e = (b, unfold sibling_hash sibling_index in ground arith, cc)
  next_node (a ∷ b ∷ rest) (suc zero) h e =
      (a, unfold sibling_hash sibling_index in ground arith, cc)
  next_node (a ∷ b ∷ rest) (suc (suc i)) h e =
      let (s, p, q) = next_node rest i h e in
      let half : suc (suc i) / 2 ≡ suc (i / 2) = omega arith in
      let odd : suc (suc i) % 2 ≡ i % 2 = omega arith in
      (s, sibling_hash-suc-suc a b rest i ∙ p, rw (half, odd) q)

  pub path_correct :
      (fuel : ℕ) (level : List ℕ) (i h r : ℕ)
      → get_elem? level i ≡ some h
      → last? (level ∷ levels_above blake2b fuel level) ≡ some (r ∷ [])
      → (nodes : List ProofNode) × (proof_nodes
            (but_last (level ∷ levels_above blake2b fuel level))
            i
          ≡ ok nodes)
        × (fold_nodes blake2b nodes h ≡ r)
  unfolding levels_above proof_nodes fold_nodes
  path_correct zero level i h r e l = ([], refl, only_node level i h r e (cc))
  path_correct (suc fuel) level i h r e l = elim (Bool-cases (ltb 1 (length level))) [
    | inl more ↦
        let (s, p, q) = next_node level i h e in
        let (nodes, u, v) =
          path_correct fuel (build_next_level blake2b level) (i / 2)
            (fold_node blake2b (node_at s i) h) r q (rw more at l) in
        (node_at s i ∷ nodes, rw more (rw (p, u)), v)
    | inr done ↦ ([], rw done, only_node level i h r e (cc (rw done at l)))
  ]

  -- For a tree built over some leaves and an index of a leaf, a proof is generated without a panic; it
  -- names that leaf, that index and the root of the tree, and verification accepts it.
  pub generate_proof-verify_proof :
      (leaves : List ℕ) (t : MerkleTree) (i h : ℕ)
      → new blake2b leaves ≡ ok t
      → get_elem? leaves i ≡ some h
      → (p : MerkleProof) × (generate_proof t i ≡ ok (some p))
        × (p.leaf_hash ≡ h)
        × (p.leaf_index ≡ i)
        × (p.root ≡ t.root)
        × (verify_proof blake2b p ≡ true)
  unfolding verify_proof build_tree
  generate_proof-verify_proof [] t i h built e = cc
  generate_proof-verify_proof (x ∷ xs) t i h built e =
      let (leaves_eq, levels_eq, last_eq) = new_fields blake2b x xs t built in
      let (nodes, u, v) =
        path_correct (length (x ∷ xs)) (x ∷ xs) i h t.root e (rw levels_eq at last_eq) in
      let p : MerkleProof = record {
        leaf_hash = h;
        leaf_index = i;
        proof = nodes;
        root = t.root;
      } in
      (
        p,
        generate_proof-leaf t i h nodes (rw leaves_eq e) (rw levels_eq u),
        refl,
        refl,
        refl,
        rw v (==_refl t.root),
      )
