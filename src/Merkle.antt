-- ===== src/Merkle.antt =====
-- crates/blockchain-core/src/merkle.rs: Merkle trees over transaction ids, and inclusion proofs.
-- `blake2b` is the digest of crates/common/src/utils.rs.
pub mod Levels
pub mod Proofs
pub mod Binding
pub mod Duplication
pub mod Root
use trust_the_people.Prelude.{
  ℕ, zero, suc, ◌+◌, ◌-◌, ◌/◌, ◌%◌, Bool, Option, none, some, List, [], ◌∷◌, ltb, leb, ◌==◌,
  if◌then◌else◌, length, get_elem?, last?,
}
use trust_the_people.Result.{◌>>=◌, ◌>>◌, Result, ok, panic}
use trust_the_people.Bytes.{as_bytes}
use trust_the_people.Digest.{hash_multiple, zero_hash}

pub record MerkleTree : Type 0 where
  pub root : ℕ
  pub leaves : List ℕ
  pub levels : List (List ℕ)

pub record ProofNode : Type 0 where
  pub hash : ℕ
  pub is_left : Bool

pub record MerkleProof : Type 0 where
  pub leaf_hash : ℕ
  pub leaf_index : ℕ
  pub proof : List ProofNode
  pub root : ℕ

-- `levels[..levels.len() - 1]`
abbrev pub but_last {ℓ} : {A : Type ℓ} → List A → List A
but_last [] = []
but_last (x ∷ []) = []
but_last (x ∷ y ∷ ys) = x ∷ but_last (y ∷ ys)

-- `v[i]` for a slice: an index out of range panics.
abbrev pub index {ℓ} : {A : Type ℓ} → List A → ℕ → Result A
index xs i = elim (get_elem? xs i) [ none ↦ panic | some a ↦ ok a ]

unfoldable pub leaf_count : MerkleTree → ℕ
leaf_count t = length t.leaves

unfoldable pub depth : MerkleTree → ℕ
depth t = length t.levels

-- One round of the loop over the levels: the sibling of the node at `i`, itself if it has none.
unfoldable pub sibling_index : ℕ → ℕ
sibling_index i = if i % 2 == 0 then i + 1 else i - 1

unfoldable pub sibling_hash : List ℕ → ℕ → Result ℕ
unfolding sibling_index
sibling_hash level i =
    if ltb (sibling_index i) (length level) then index level (sibling_index i) else index level i

unfoldable pub proof_nodes : List (List ℕ) → ℕ → Result (List ProofNode)
proof_nodes [] i = ok []
proof_nodes (level ∷ levels) i = do
  h ← sibling_hash level i
  rest ← proof_nodes levels (i / 2)
  ok (record { hash = h; is_left = i % 2 == 1 } ∷ rest)

unfoldable pub generate_proof : MerkleTree → ℕ → Result (Option MerkleProof)
unfolding proof_nodes
generate_proof t leaf_index = if leb (length t.leaves) leaf_index then ok none else do
  nodes ← proof_nodes (but_last t.levels) leaf_index
  leaf ← index t.leaves leaf_index
  ok (some (record { leaf_hash = leaf; leaf_index = leaf_index; proof = nodes; root = t.root }))

module _ (blake2b : List ℕ → ℕ) where
  unfoldable pub hash_pair : ℕ → ℕ → ℕ
  unfolding hash_multiple
  hash_pair left right = hash_multiple blake2b (as_bytes left ∷ as_bytes right ∷ [])

  -- The last node of an odd level is paired with itself.
  unfoldable pub build_next_level : List ℕ → List ℕ
  build_next_level [] = []
  build_next_level (a ∷ []) = hash_pair a a ∷ []
  build_next_level (a ∷ b ∷ rest) = hash_pair a b ∷ build_next_level rest

  -- The `while` loop of `build_tree`: the levels above `current`.
  unfoldable pub levels_above : ℕ → List ℕ → List (List ℕ)
  levels_above zero current = []
  levels_above (suc fuel) current =
      let next = build_next_level current in
      let rest = next ∷ levels_above fuel next in if ltb 1 (length current) then rest else []

  unfoldable pub build_tree : List ℕ → List (List ℕ)
  build_tree hashes = hashes ∷ levels_above (length hashes) hashes

  -- `levels.last().unwrap()[0]`
  unfoldable pub top : List (List ℕ) → Result ℕ
  top levels = elim (last? levels) [ none ↦ panic | some level ↦ index level 0 ]

  unfoldable pub new : List ℕ → Result MerkleTree
  unfolding top build_tree
  new [] = ok (record { root = zero_hash; leaves = []; levels = [] })
  new (h ∷ hs) = do
    let levels = build_tree (h ∷ hs)
    root ← top levels
    ok (record { root = root; leaves = h ∷ hs; levels = levels })

  -- One round of the loop of `verify_proof`.
  unfoldable pub fold_node : ProofNode → ℕ → ℕ
  fold_node node current =
      if node.is_left then hash_pair node.hash current else hash_pair current node.hash

  unfoldable pub fold_nodes : List ProofNode → ℕ → ℕ
  unfolding fold_node
  fold_nodes [] current = current
  fold_nodes (node ∷ nodes) current = fold_nodes nodes (fold_node node current)

  unfoldable pub verify_proof : MerkleProof → Bool
  verify_proof p = fold_nodes p.proof p.leaf_hash == p.root

unfoldable pub size : MerkleProof → ℕ
size p = length p.proof
