-- ===== src/Merkle/Binding.antt =====
-- What a root binds: the leaf and the siblings of an accepted proof, up to collisions of the digest;
-- and what it does not bind, the number of leaves.
use trust_the_people.Prelude.{
  ℕ, ◌≡◌, refl, sym, ap₂, ◌∙◌, ◌⊎◌, inl, inr, Bool, true, ◌&&◌, List, [], ◌∷◌, ◌++◌, arith, ◌==◌,
  if◌then◌else◌, ==_iff, Bool-cases, All,
}
use trust_the_people.Bytes.{as_bytes}
use trust_the_people.Digest.{IsHash, Colliding, CollidingAmong, two_hashes-injective}
use trust_the_people.Merkle.{MerkleProof, ProofNode, fold_node, fold_nodes, verify_proof, hash_pair}

-- The byte string that `hash_pair` hashes.
abbrev pub pair_bytes : ℕ → ℕ → List ℕ
pair_bytes l r = as_bytes l ++ (as_bytes r ++ [])

abbrev node_bytes : ProofNode → ℕ → List ℕ
node_bytes node current =
    if node.is_left then pair_bytes node.hash current else pair_bytes current node.hash

abbrev pub directions : List ProofNode → List Bool
directions [] = []
directions (n ∷ ns) = n.is_left ∷ directions ns

abbrev pub sibling_hashes : List ProofNode → List ℕ
sibling_hashes [] = []
sibling_hashes (n ∷ ns) = n.hash ∷ sibling_hashes ns

module _ (blake2b : List ℕ → ℕ) where
  -- The byte strings that the verification of a proof hashes.
  abbrev pub folded_bytes : List ProofNode → ℕ → List (List ℕ)
  folded_bytes [] current = []
  folded_bytes (n ∷ ns) current =
      node_bytes n current ∷ folded_bytes ns (fold_node blake2b n current)

module _ (blake2b : List ℕ → ℕ) (digest : (bytes : List ℕ) → IsHash (blake2b bytes)) where
  pub hash_pair-IsHash : (a b : ℕ) → IsHash (hash_pair blake2b a b)
  unfolding hash_pair
  hash_pair-IsHash a b = digest _

  pub hash_pair-binds :
      (a b c d : ℕ)
      → IsHash a
      → IsHash b
      → IsHash c
      → IsHash d
      → hash_pair blake2b a b ≡ hash_pair blake2b c d
      → ((a ≡ c) × (b ≡ d)) ⊎ Colliding blake2b (pair_bytes a b) (pair_bytes c d)
  unfolding hash_pair
  hash_pair-binds a b c d ha hb hc hd e = elim (Bool-cases (a == c && b == d)) [
    | inl same ↦ inl (ground arith)
    | inr other ↦ inr (record {
      distinct = λ p. let q = two_hashes-injective a b c d ha hb hc hd p in ground (arith);
      same_digest = e;
    })
  ]

  fold_node-IsHash : (n : ProofNode) (a : ℕ) → IsHash (fold_node blake2b n a)
  unfolding fold_node
  fold_node-IsHash n a = elim (Bool-cases n.is_left) [
    | inl l ↦ rw l (hash_pair-IsHash n.hash a)
    | inr r ↦ rw r (hash_pair-IsHash a n.hash)
  ]

  fold_node-binds :
      (m n : ProofNode) (a b : ℕ)
      → IsHash m.hash
      → IsHash n.hash
      → IsHash a
      → IsHash b
      → m.is_left ≡ n.is_left
      → fold_node blake2b m a ≡ fold_node blake2b n b
      → ((a ≡ b) × (m.hash ≡ n.hash)) ⊎ Colliding blake2b (node_bytes m a) (node_bytes n b)
  unfolding fold_node
  fold_node-binds m n a b hm hn ha hb d e = elim (Bool-cases n.is_left) [
    | inl l ↦
        rw (d, l)
          (elim (hash_pair-binds m.hash a n.hash b hm ha hn hb (rw (d, l) at e)) [
            | inl p ↦ inl (p.1, p.0)
            | inr c ↦ inr c
          ])
    | inr r ↦ rw (d, r) (hash_pair-binds a m.hash b n.hash ha hm hb hn (rw (d, r) at e))
  ]

  fold_nodes-binds :
      (ms ns : List ProofNode) (a b : ℕ)
      → All IsHash (sibling_hashes ms)
      → All IsHash (sibling_hashes ns)
      → IsHash a
      → IsHash b
      → directions ms ≡ directions ns
      → fold_nodes blake2b ms a ≡ fold_nodes blake2b ns b
      → ((a ≡ b) × (sibling_hashes ms ≡ sibling_hashes ns))
        ⊎ CollidingAmong blake2b (folded_bytes blake2b ms a) (folded_bytes blake2b ns b)
  unfolding fold_nodes
  fold_nodes-binds [] [] a b hm hn ha hb d e = inl (e, refl)
  fold_nodes-binds [] (n ∷ ns) a b hm hn ha hb d e = cc
  fold_nodes-binds (m ∷ ms) [] a b hm hn ha hb d e = cc
  fold_nodes-binds (m ∷ ms) (n ∷ ns) a b hm hn ha hb d e =
      elim (fold_nodes-binds ms ns (fold_node blake2b m a) (fold_node blake2b n b) hm.1 hn.1
        (fold_node-IsHash m a) (fold_node-IsHash n b) (cc) e) [
          | inl same ↦ elim (fold_node-binds m n a b hm.0 hn.0 ha hb (cc) same.0) [
            | inl p ↦ inl (p.0, ap₂ ◌∷◌ p.1 same.1)
            | inr c ↦ inr (node_bytes m a, node_bytes n b, inl refl, inl refl, c)
          ]
          | inr (x, y, i, j, c) ↦ inr (x, y, inr i, inr j, c)
        ]

  -- Two accepted proofs under one root that take the same turns name the same leaf by the same
  -- siblings, or two of the byte strings hashed in their verification collide. Hashes are 32 bytes.
  pub verify_proof-binds :
      (p q : MerkleProof)
      → All IsHash (p.leaf_hash ∷ sibling_hashes p.proof)
      → All IsHash (q.leaf_hash ∷ sibling_hashes q.proof)
      → directions p.proof ≡ directions q.proof
      → p.root ≡ q.root
      → verify_proof blake2b p ≡ true
      → verify_proof blake2b q ≡ true
      → ((p.leaf_hash ≡ q.leaf_hash) × (sibling_hashes p.proof ≡ sibling_hashes q.proof))
        ⊎ CollidingAmong blake2b
            (folded_bytes blake2b p.proof p.leaf_hash)
            (folded_bytes blake2b q.proof q.leaf_hash)
  unfolding verify_proof
  verify_proof-binds p q hp hq d r vp vq =
      fold_nodes-binds p.proof q.proof p.leaf_hash q.leaf_hash hp.1 hq.1 hp.0 hq.0 d
        ((==_iff _ _).0 vp ∙ r ∙ sym ((==_iff _ _).0 vq))
