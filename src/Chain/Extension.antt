-- ===== src/Chain/Extension.antt =====
-- `add_block` and `verify`: the checks made one block at a time, and all at once.
use trust_the_people.Prelude.{ℕ, ◌≡◌, not, some, List, [], ◌∷◌, ◌++◌, arith, ◌==◌, last?}
use trust_the_people.Result.{text, genesis_error, ok, reject_if, >>=-eq-ok, >>-eq-ok}
use trust_the_people.Digest.{zero_hash}
use trust_the_people.Transaction.{TransactionType}
use trust_the_people.Block
use trust_the_people.Block.{Block}
use trust_the_people.Chain.{
  Blockchain, latest_block, reject_duplicates, append_block, add_block, verify_from, verify_blocks,
}

module _ (blake2b : List ℕ → ℕ) (serialize : TransactionType → List ℕ) where
  -- What `add_block` has checked when it succeeds.
  pub record Accepted (c : Blockchain) (b : Block) : Type 0 where
    pub latest : Block
    pub latest_eq : last? c.blocks ≡ some latest
    pub valid : Block.validate blake2b serialize b ≡ ok tt
    pub link : Block.validate_chain_link b latest ≡ ok tt
    pub fresh : reject_duplicates c b.transactions ≡ ok tt

  latest_block-ok : (c : Blockchain) (b : Block) → latest_block c ≡ ok b → last? c.blocks ≡ some b
  unfolding latest_block
  latest_block-ok c b h = ground arith

  latest_block-last : (c : Blockchain) (b : Block) → last? c.blocks ≡ some b → latest_block c ≡ ok b
  unfolding latest_block
  latest_block-last c b h = ground arith

  -- A block is added exactly when it is accepted, and then it is appended and indexed.
  pub add_block-ok :
      (c d : Blockchain) (b : Block)
      → add_block blake2b serialize c b ≡ ok d
      → Accepted c b × (d ≡ append_block c b)
  unfolding add_block
  add_block-ok c d b h =
      let (p, h1) = >>-eq-ok (Block.validate blake2b serialize b) _ h in
      let (latest, q, h2) = >>=-eq-ok (latest_block c) _ h1 in
      let (l, h3) = >>-eq-ok (Block.validate_chain_link b latest) _ h2 in
      let (f, h4) = >>-eq-ok (reject_duplicates c b.transactions) _ h3 in
      (
        record {
          latest = latest;
          latest_eq = latest_block-ok c latest q;
          valid = p;
          link = l;
          fresh = f;
        },
        cc h4,
      )

  pub add_block-Accepted :
      (c : Blockchain) (b : Block)
      → Accepted c b
      → add_block blake2b serialize c b ≡ ok (append_block c b)
  unfolding add_block
  add_block-Accepted c b a = rw (a.valid, latest_block-last c a.latest a.latest_eq, a.link, a.fresh)

  verify_from-append :
      (previous latest b : Block) (rest : List Block)
      → verify_from blake2b serialize previous rest ≡ ok tt
      → last? (previous ∷ rest) ≡ some latest
      → Block.validate blake2b serialize b ≡ ok tt
      → Block.validate_chain_link b latest ≡ ok tt
      → verify_from blake2b serialize previous (rest ++ b ∷ []) ≡ ok tt
  unfolding verify_from
  verify_from-append previous latest b [] h l v k = let e : previous ≡ latest = cc in rw (v, e, k)
  verify_from-append previous latest b (current ∷ rest) h l v k =
      let (p, h1) = >>-eq-ok (Block.validate blake2b serialize current) _ h in
      let (q, h2) = >>-eq-ok (Block.validate_chain_link current previous) _ h1 in
      rw (p, q) (verify_from-append current latest b rest h2 l v k)

  pub verify_blocks-append :
      (blocks : List Block) (latest b : Block)
      → verify_blocks blake2b serialize blocks ≡ ok tt
      → last? blocks ≡ some latest
      → Block.validate blake2b serialize b ≡ ok tt
      → Block.validate_chain_link b latest ≡ ok tt
      → verify_blocks blake2b serialize (blocks ++ b ∷ []) ≡ ok tt
  unfolding verify_blocks
  verify_blocks-append [] latest b h l v k = cc
  verify_blocks-append (genesis ∷ rest) latest b h l v k =
      let (p, h1) =
        >>-eq-ok
          (reject_if (not (genesis.header.height == 0))
            (genesis_error (text "Genesis height must be 0")))
          _ h in
      let (q, h2) =
        >>-eq-ok
          (reject_if (not (genesis.header.previous_hash == zero_hash))
            (genesis_error (text "Genesis must have zero previous hash")))
          _ h1 in
      let (r, h3) = >>-eq-ok (Block.validate blake2b serialize genesis) _ h2 in
      rw (p, q, r) (verify_from-append genesis latest b rest h3 l v k)
