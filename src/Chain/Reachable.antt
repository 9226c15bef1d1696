-- ===== src/Chain/Reachable.antt =====
-- Chains that arise from a genesis block by `new` and successful calls of `add_block`.
use trust_the_people.Prelude.{
  ℕ, zero, suc, ◌^◌, ◌≤◌, ◌<◌, ◌≡◌, refl, ap, subst, ◌∙◌, true, some, List, [], ◌∷◌, arith, length,
  get_elem?, length-append,
}
use trust_the_people.Result.{ok}
use trust_the_people.Map
use trust_the_people.Map.Laws.{get-empty, get-insert}
use trust_the_people.Transaction.{TransactionType}
use trust_the_people.Block.{Block}
use trust_the_people.Block.Validation.{validate-IsValid}
use trust_the_people.Genesis.{GenesisBlock}
use trust_the_people.Genesis.Creation.{create_block-IsGenesisOf, IsGenesisOf}
use trust_the_people.Chain.{
  Blockchain, index_transactions, append_block, add_block, verify_blocks, verify, new,
}
use trust_the_people.Chain.Indices.{has_id, get-index_transactions}
use trust_the_people.Chain.Extension.{add_block-ok}
use trust_the_people.Chain.Invariant.{IsWellFormed, add_block-IsWellFormed}

-- The chain of one block that `new` makes.
genesis_chain : Block → Blockchain
genesis_chain b = record {
  blocks = b ∷ [];
  hash_to_height = Map.insert Map.empty b.header.hash 0;
  tx_to_block = index_transactions Map.empty b.transactions 0;
  height = 0;
  genesis_hash = b.header.hash;
}

module _ (blake2b : List ℕ → ℕ) (serialize : TransactionType → List ℕ) where
  genesis_chain-IsWellFormed :
      {F : Type 0} (g : GenesisBlock F) (b : Block)
      → IsGenesisOf blake2b serialize g b
      → IsWellFormed blake2b serialize (genesis_chain b)
  unfolding genesis_chain verify_blocks
  genesis_chain-IsWellFormed g b is = record {
    verified =
        ground
          (arith, is.height, is.previous_hash, (validate-IsValid blake2b serialize b).1 is.valid);
    length_height = refl;
    heights = heights;
    hash_sound = hash_sound;
    hash_complete = hash_complete;
    tx_sound = tx_sound;
    tx_complete = tx_complete;
  }
    where
      heights : (k : ℕ) (x : Block) → get_elem? (b ∷ []) k ≡ some x → x.header.height ≡ k
      heights zero x e = ground (arith, is.height)
      heights (suc k) x e = cc

      hash_sound :
          (h k : ℕ)
          → Map.get (Map.insert Map.empty b.header.hash 0) h ≡ some k
          → (x : Block) × (get_elem? (b ∷ []) k ≡ some x) × (x.header.hash ≡ h)
      hash_sound h k e =
          let law = get-insert (Map.empty {V = ℕ}) b.header.hash h 0 in
          let none_yet = get-empty {V = ℕ} h in
          let at : k ≡ 0 = ground (arith, law, none_yet) in
          (b, rw at refl, ground (arith, law, none_yet))

      hash_complete :
          (k : ℕ) (x : Block)
          → get_elem? (b ∷ []) k ≡ some x
          → (j : ℕ) × (Map.get (Map.insert Map.empty b.header.hash 0) x.header.hash ≡ some j)
      hash_complete zero x e =
          (0, ground (arith, get-insert (Map.empty {V = ℕ}) b.header.hash x.header.hash 0))
      hash_complete (suc k) x e = cc

      tx_sound :
          (id k : ℕ)
          → Map.get (index_transactions Map.empty b.transactions 0) id ≡ some k
          → (x : Block) × (get_elem? (b ∷ []) k ≡ some x) × (has_id x.transactions id ≡ true)
      tx_sound id k e =
          let law = get-index_transactions Map.empty b.transactions 0 id in
          let none_yet = get-empty {V = ℕ} id in
          let at : k ≡ 0 = ground (arith, law, none_yet) in
          (b, rw at refl, ground (arith, law, none_yet))

      tx_complete :
          (k : ℕ) (x : Block) (id : ℕ)
          → get_elem? (b ∷ []) k ≡ some x
          → has_id x.transactions id ≡ true
          → Map.get (index_transactions Map.empty b.transactions 0) id ≡ some k
      tx_complete zero x id e i =
          let same : b ≡ x = cc in
          rw (
            get-index_transactions Map.empty b.transactions 0 id,
            ap (λ (y : Block). has_id y.transactions id) same ∙ i,
          )
      tx_complete (suc k) x id e i = cc

  -- With at least one validator `new` makes a well-formed chain, without a panic.
  pub new-IsWellFormed :
      {F : Type 0} (now : ℕ) (g : GenesisBlock F)
      → 0 < length g.validators
      → (c : Blockchain) × (new blake2b serialize now g ≡ ok c) × IsWellFormed blake2b serialize c
  unfolding new genesis_chain
  new-IsWellFormed now g h =
      let (b, e, is, _) = create_block-IsGenesisOf blake2b serialize now now g h in
      (genesis_chain b, rw e, genesis_chain-IsWellFormed g b is)

  -- A chain made at some time from a configuration, and the blocks added to it.
  pub data Reachable {F : Type 0} (g : GenesisBlock F) : Blockchain → Type 0 where
    start : (now : ℕ) {c : Blockchain} → new blake2b serialize now g ≡ ok c → Reachable g c
    extend :
        (b : Block) {c d : Blockchain}
        → Reachable g c
        → add_block blake2b serialize c b ≡ ok d
        → Reachable g d

  length-add_block :
      (c d : Blockchain) (b : Block)
      → add_block blake2b serialize c b ≡ ok d
      → length d.blocks ≡ suc (length c.blocks)
  length-add_block c d b e =
      let (a, q) = add_block-ok blake2b serialize c d b e in
      ap (λ (x : Blockchain). length x.blocks) q
      ∙ unfold append_block in omega (arith, length-append c.blocks (b ∷ []))

  pub Reachable-IsWellFormed :
      {F : Type 0} (g : GenesisBlock F) (c : Blockchain)
      → 0 < length g.validators
      → Reachable g c
      → length c.blocks ≤ 2 ^ 64
      → IsWellFormed blake2b serialize c
  Reachable-IsWellFormed g c h (start now e) room =
      let (x, p, w) = new-IsWellFormed now g h in
      let same : x ≡ c = cc (p, e) in subst (IsWellFormed blake2b serialize) same w
  Reachable-IsWellFormed g d h (extend b {c = c} r e) room =
      let n = length-add_block c d b e in
      add_block-IsWellFormed blake2b serialize c d b (Reachable-IsWellFormed g c h r (omega arith))
        (omega arith) e

  -- Every chain that grows from a genesis configuration by `add_block` passes `verify`, as long as it
  -- has at most 2 ^ 64 blocks.
  pub Reachable-verify :
      {F : Type 0} (g : GenesisBlock F) (c : Blockchain)
      → 0 < length g.validators
      → Reachable g c
      → length c.blocks ≤ 2 ^ 64
      → verify blake2b serialize c ≡ ok tt
  unfolding verify
  Reachable-verify g c h r room = (Reachable-IsWellFormed g c h r room).verified
