-- ===== src/Chain/Invariant.antt =====
-- The invariant of a chain: it verifies, and its indices agree with its blocks.
use trust_the_people.Prelude.{
  ℕ, suc, ◌^◌, ◌<◌, ◌≡◌, sym, ap, subst, ◌∙◌, inl, inr, true, some, List, [], ◌∷◌, arith, ◌==◌,
  ==_iff, Bool-cases, length, get_elem?, get_elem?-append_left, get_elem?-append_end,
  get_elem?-append_cases, last?-get_elem?, length-append,
}
use trust_the_people.Result.{ok}
use trust_the_people.Map
use trust_the_people.Map.{Map}
use trust_the_people.Map.Laws.{get-insert}
use trust_the_people.Transaction.{TransactionType}
use trust_the_people.Block.{Block}
use trust_the_people.Block.Validation.{validate_chain_link_iff}
use trust_the_people.Chain.{Blockchain, append_block, add_block, verify_blocks}
use trust_the_people.Chain.Indices.{has_id, get-index_transactions, reject_duplicates-fresh}
use trust_the_people.Chain.Extension.{Accepted, add_block-ok, verify_blocks-append}

module _ (blake2b : List ℕ → ℕ) (serialize : TransactionType → List ℕ) where
  pub record IsWellFormed (c : Blockchain) : Type 0 where
    -- The blocks verify, as `verify` checks them.
    pub verified : verify_blocks blake2b serialize c.blocks ≡ ok tt
    pub length_height : length c.blocks ≡ suc c.height
    -- A block stands at its height.
    pub heights : (k : ℕ) (b : Block) → get_elem? c.blocks k ≡ some b → b.header.height ≡ k
    -- The hash index leads to a block of that hash, and has each block's hash.
    pub hash_sound :
        (h k : ℕ)
        → Map.get c.hash_to_height h ≡ some k
        → (b : Block) × (get_elem? c.blocks k ≡ some b) × (b.header.hash ≡ h)
    pub hash_complete :
        (k : ℕ) (b : Block)
        → get_elem? c.blocks k ≡ some b
        → (j : ℕ) × (Map.get c.hash_to_height b.header.hash ≡ some j)
    -- The transaction index leads to a block with that id, and to the block of each transaction.
    pub tx_sound :
        (id k : ℕ)
        → Map.get c.tx_to_block id ≡ some k
        → (b : Block) × (get_elem? c.blocks k ≡ some b) × (has_id b.transactions id ≡ true)
    pub tx_complete :
        (k : ℕ) (b : Block) (id : ℕ)
        → get_elem? c.blocks k ≡ some b
        → has_id b.transactions id ≡ true
        → Map.get c.tx_to_block id ≡ some k

  module _ (c : Blockchain) (b : Block) (w : IsWellFormed c) (a : Accepted blake2b serialize c b)
      (room : length c.blocks < 2 ^ 64) where
    height_next : b.header.height ≡ length c.blocks
    height_next =
        let f = (validate_chain_link_iff b a.latest).0 a.link in
        let latest =
          w.heights c.height a.latest
            (last?-get_elem? c.blocks a.latest c.height a.latest_eq w.length_height) in
        omega (arith, f.height, latest, w.length_height)

    append-heights :
        (k : ℕ) (x : Block) → get_elem? (append_block c b).blocks k ≡ some x → x.header.height ≡ k
    unfolding append_block
    append-heights k x e = elim (get_elem?-append_cases c.blocks b x k e) [
      | inl p ↦ w.heights k x p
      | inr (p, q) ↦ rw (q, p) height_next
    ]

    append-hash_sound :
        (h k : ℕ)
        → Map.get (append_block c b).hash_to_height h ≡ some k
        → (x : Block) × (get_elem? (append_block c b).blocks k ≡ some x) × (x.header.hash ≡ h)
    unfolding append_block
    append-hash_sound h k e =
        let law = get-insert c.hash_to_height b.header.hash h b.header.height in
        elim (Bool-cases (h == b.header.hash)) [
          | inl same ↦
              let at : k ≡ length c.blocks = ground (arith, law, height_next) in
              (b, rw at (get_elem?-append_end c.blocks b), sym ((==_iff h b.header.hash).0 same))
          | inr other ↦
              let (x, p, q) = w.hash_sound h k (ground (arith, law)) in
              (x, get_elem?-append_left c.blocks (b ∷ []) k x p, q)
        ]

    append-hash_complete :
        (k : ℕ) (x : Block)
        → get_elem? (append_block c b).blocks k ≡ some x
        → (j : ℕ) × (Map.get (append_block c b).hash_to_height x.header.hash ≡ some j)
    unfolding append_block
    append-hash_complete k x e =
        let law = get-insert c.hash_to_height b.header.hash x.header.hash b.header.height in
        elim (get_elem?-append_cases c.blocks b x k e) [
          | inr (p, q) ↦ (b.header.height, ground (arith, law, q))
          | inl p ↦
              let (j, g) = w.hash_complete k x p in
              elim (Bool-cases (x.header.hash == b.header.hash)) [
                | inl same ↦ (b.header.height, ground (arith, law))
                | inr other ↦ (j, ground (arith, law, g))
              ]
        ]

    append-tx_sound :
        (id k : ℕ)
        → Map.get (append_block c b).tx_to_block id ≡ some k
        → (x : Block) × (get_elem? (append_block c b).blocks k ≡ some x)
          × (has_id x.transactions id ≡ true)
    unfolding append_block
    append-tx_sound id k e =
        let law = get-index_transactions c.tx_to_block b.transactions b.header.height id in
        elim (Bool-cases (has_id b.transactions id)) [
          | inl here ↦
              let at : k ≡ length c.blocks = ground (arith, law, height_next) in
              (b, rw at (get_elem?-append_end c.blocks b), here)
          | inr other ↦
              let (x, p, q) = w.tx_sound id k (ground (arith, law)) in
              (x, get_elem?-append_left c.blocks (b ∷ []) k x p, q)
        ]

    append-tx_complete :
        (k : ℕ) (x : Block) (id : ℕ)
        → get_elem? (append_block c b).blocks k ≡ some x
        → has_id x.transactions id ≡ true
        → Map.get (append_block c b).tx_to_block id ≡ some k
    unfolding append_block
    append-tx_complete k x id e i =
        let law = get-index_transactions c.tx_to_block b.transactions b.header.height id in
        elim (get_elem?-append_cases c.blocks b x k e) [
          | inr (p, q) ↦
              rw (law, ap (λ (y : Block). has_id y.transactions id) (sym q) ∙ i, p, height_next)
          | inl p ↦
              let old = w.tx_complete k x id p i in
              elim (Bool-cases (has_id b.transactions id)) [
                | inl here ↦ cc (reject_duplicates-fresh c b.transactions id a.fresh here, old)
                | inr other ↦ rw (law, other) old
              ]
        ]

    append-IsWellFormed : IsWellFormed (append_block c b)
    append-IsWellFormed = record {
      verified =
          unfold append_block in
          verify_blocks-append blake2b serialize c.blocks a.latest b w.verified a.latest_eq a.valid
            a.link;
      length_height =
          unfold append_block in omega (arith, length-append c.blocks (b ∷ []), height_next);
      heights = append-heights;
      hash_sound = append-hash_sound;
      hash_complete = append-hash_complete;
      tx_sound = append-tx_sound;
      tx_complete = append-tx_complete;
    }

  -- A successful `add_block` keeps a chain well-formed: verified block by block, with both indices exact.
  pub add_block-IsWellFormed :
      (c d : Blockchain) (b : Block)
      → IsWellFormed c
      → length c.blocks < 2 ^ 64
      → add_block blake2b serialize c b ≡ ok d
      → IsWellFormed d
  add_block-IsWellFormed c d b w room e =
      let (a, q) = add_block-ok blake2b serialize c d b e in
      subst IsWellFormed (sym q) (append-IsWellFormed c b w a room)
