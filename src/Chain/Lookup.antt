-- ===== src/Chain/Lookup.antt =====
-- The queries of a well-formed chain.
use trust_the_people.Prelude.{
  last?, last?-total, ap, length, [], ◌∷◌, ◌∙◌, ℕ, zero, suc, ◌+◌, ◌-◌, ◌≤◌, ◌<◌, ◌≡◌, refl, sym,
  ap, ◌∙◌, ◌≢◌, ◌⊎◌, inl, inr, true, none, some, List, [], ◌∷◌, arith, le→leb, Option-cases, length,
  get_elem?, In, get_elem?-total, get_elem?-lt,
}
use trust_the_people.Result.{ok}
use trust_the_people.Map
use trust_the_people.Merkle.{index}
use trust_the_people.Transaction.{Transaction, TransactionType}
use trust_the_people.Block
use trust_the_people.Block.{Block}
use trust_the_people.Chain.{
  Blockchain, get_block_by_height, get_block_by_hash, get_transaction, get_transaction_block_height,
  get_blocks_range, take, drop, add_block,
}
use trust_the_people.Chain.Indices.{has_id, has_id-In, has_id-find, reject_duplicates-fresh}
use trust_the_people.Chain.Extension.{add_block-ok}
use trust_the_people.Chain.Invariant.{IsWellFormed}

pub index-some : (xs : List Block) (i : ℕ) (b : Block) → get_elem? xs i ≡ some b → index xs i ≡ ok b
index-some xs i b h = rw (index, h)

length-take-drop : (bs : List Block) (s n : ℕ) → s + n ≤ length bs → length (take n (drop s bs)) ≡ n
length-take-drop [] zero zero h = refl
length-take-drop [] zero (suc n) h = absurd (omega arith)
length-take-drop [] (suc s) n h = absurd (omega arith)
length-take-drop (b ∷ bs) zero zero h = refl
length-take-drop (b ∷ bs) zero (suc n) h = ap suc (length-take-drop bs zero n (omega arith))
length-take-drop (b ∷ bs) (suc s) n h = length-take-drop bs s n (omega arith)

get_elem?-take-drop :
    (bs : List Block) (s n i : ℕ) → i < n → get_elem? (take n (drop s bs)) i ≡ get_elem? bs (s + i)
get_elem?-take-drop [] zero zero i h = absurd (omega arith)
get_elem?-take-drop [] zero (suc n) i h = refl
get_elem?-take-drop [] (suc s) zero i h = absurd (omega arith)
get_elem?-take-drop [] (suc s) (suc n) i h = refl
get_elem?-take-drop (b ∷ bs) zero zero i h = absurd (omega arith)
get_elem?-take-drop (b ∷ bs) zero (suc n) zero h = refl
get_elem?-take-drop (b ∷ bs) zero (suc n) (suc i) h =
    let e : 0 + suc i ≡ suc (0 + i) = omega arith in
    rw e (get_elem?-take-drop bs zero n i (omega arith))
get_elem?-take-drop (b ∷ bs) (suc s) n i h =
    let e : suc s + i ≡ suc (s + i) = omega arith in rw e (get_elem?-take-drop bs s n i h)

module _ (blake2b : List ℕ → ℕ) (serialize : TransactionType → List ℕ) (c : Blockchain)
    (w : IsWellFormed blake2b serialize c) where
  -- Up to the height of a well-formed chain the block of each height is found, and above it none;
  -- there is no panic.
  pub get_block_by_height-heights :
      (k : ℕ)
      → (k ≤ c.height
          → (b : Block) × (get_block_by_height c k ≡ ok (some b)) × (b.header.height ≡ k))
        × (c.height < k → get_block_by_height c k ≡ ok none)
  unfolding get_block_by_height
  get_block_by_height-heights k = (
    λ h.
        let n = w.length_height in
        let (b, e) = get_elem?-total c.blocks k (omega arith) in
        (b, rw (le→leb k c.height h, index-some c.blocks k b e), w.heights k b e),
    λ h. ground arith,
  )

  pub by_height :
      (k : ℕ) (b : Block) → get_elem? c.blocks k ≡ some b → get_block_by_height c k ≡ ok (some b)
  unfolding get_block_by_height
  by_height k b e =
      let n = w.length_height in
      let lt = get_elem?-lt c.blocks k b e in
      rw (le→leb k c.height (omega arith), index-some c.blocks k b e)

  -- A lookup by hash never panics; what it finds has that hash, and it finds something for the hash of
  -- every block of the chain.
  pub get_block_by_hash-hash :
      (h : ℕ)
      → ((get_block_by_hash c h ≡ ok none)
          × ((k : ℕ) (b : Block) → get_elem? c.blocks k ≡ some b → b.header.hash ≢ h))
        ⊎ ((b : Block) × (get_block_by_hash c h ≡ ok (some b)) × (b.header.hash ≡ h))
  unfolding get_block_by_hash
  get_block_by_hash-hash h = elim (Option-cases (Map.get c.hash_to_height h)) [
    | inl e ↦ inl (
      rw (e, get_block_by_hash),
      λ k b p q. let (j, g) = w.hash_complete k b p in cc (ap (Map.get c.hash_to_height) q),
    )
    | inr (k, e) ↦
        let (b, p, q) = w.hash_sound h k e in
        inr (b, rw (e, get_block_by_hash) (by_height k b p), q)
  ]

  pub latest_of : (b : Block) × (last? c.blocks ≡ some b)
  latest_of = go c.blocks refl
    where
      go : (bs : List Block) → c.blocks ≡ bs → (b : Block) × (last? c.blocks ≡ some b)
      go [] e = absurd (omega (arith, w.length_height, ap length e))
      go (x ∷ xs) e = let (b, p) = last?-total x xs in (b, ap last? e ∙ p)

  -- Every transaction of every block is found by its id, with the height of its block.
  pub get_transaction-In :
      (k : ℕ) (b : Block) (tx : Transaction)
      → get_elem? c.blocks k ≡ some b
      → In tx b.transactions
      → (found : Transaction) × (get_transaction c tx.id ≡ ok (some found))
        × (found.id ≡ tx.id)
        × In found b.transactions
        × (get_transaction_block_height c tx.id ≡ some b.header.height)
  unfolding get_transaction get_transaction_block_height Block.get_transaction
  get_transaction-In k b tx e i =
      let has = has_id-In b.transactions tx i in
      let at = w.tx_complete k b tx.id e has in
      let (found, p, q, j) = has_id-find b.transactions tx.id has in
      (
        found,
        rw (at, get_transaction) (rw (by_height k b e) (ap ok p)),
        q,
        j,
        at ∙ ap some (sym (w.heights k b e)),
      )

  -- A transaction id stands in one block at most.
  pub has_id_unique :
      (j k : ℕ) (a b : Block) (id : ℕ)
      → get_elem? c.blocks j ≡ some a
      → get_elem? c.blocks k ≡ some b
      → has_id a.transactions id ≡ true
      → has_id b.transactions id ≡ true
      → (j ≡ k) × (a ≡ b)
  has_id_unique j k a b id ea eb ha hb =
      let p = w.tx_complete j a id ea ha in
      let q = w.tx_complete k b id eb hb in
      let same : j ≡ k = cc (p, q) in (same, cc (ea, eb, same))

  -- No block with a transaction id of the chain can be added.
  pub add_block-duplicate :
      (k : ℕ) (a b : Block) (tx : Transaction) (e : Blockchain)
      → get_elem? c.blocks k ≡ some a
      → has_id a.transactions tx.id ≡ true
      → In tx b.transactions
      → add_block blake2b serialize c b ≢ ok e
  add_block-duplicate k a b tx e at has i added =
      let (acc, _) = add_block-ok blake2b serialize c e b added in
      let old = w.tx_complete k a tx.id at has in
      let fresh =
        reject_duplicates-fresh c b.transactions tx.id acc.fresh (has_id-In b.transactions tx i) in
      cc (old, fresh)

  -- A range within the chain gives the blocks of its heights, in order, without a panic; any other
  -- range gives no block.
  pub get_blocks_range-heights :
      (start end : ℕ)
      → (start ≤ end
          → end ≤ c.height
          → (bs : List Block) × (get_blocks_range c start end ≡ ok bs)
            × (length bs ≡ end + 1 - start)
            × ((i : ℕ) → i < end + 1 - start → get_elem? bs i ≡ get_elem? c.blocks (start + i)))
        × ((end < start) ⊎ (c.height < end) → get_blocks_range c start end ≡ ok [])
  unfolding get_blocks_range
  get_blocks_range-heights start end = (
    λ h k.
        let n = w.length_height in
        (
          take (end + 1 - start) (drop start c.blocks),
          ground arith,
          length-take-drop c.blocks start (end + 1 - start) (omega arith),
          λ i lt. get_elem?-take-drop c.blocks start (end + 1 - start) i lt,
        ),
    λ h. ground arith,
  )
