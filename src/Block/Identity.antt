-- ===== src/Block/Identity.antt =====
-- What the hash of a block stands for.
use trust_the_people.Prelude.{
  ℕ, suc, ◌^◌, ◌<◌, ◌≡◌, refl, sym, ap, ◌∙◌, ◌⊎◌, inl, inr, List, [], ◌∷◌, arith, length, All,
}
use trust_the_people.Result.{ok}
use trust_the_people.Bytes.{
  u64_bytes, as_bytes, le_bytes-injective, length-le_bytes, be_bytes-injective, length-be_bytes,
  append-injective,
}
use trust_the_people.Digest.{IsHash, Colliding, CollidingAmong, bytes_discrete}
use trust_the_people.Merkle.Levels.{new_lem}
use trust_the_people.Merkle.Root.{tree_bytes, new-root_binds}
use trust_the_people.Transaction.{Transaction, TransactionType}
use trust_the_people.Block.{
  Block, BlockHeader, tx_ids, calculate_transactions_root, calculate_hash, header_bytes, validate,
}
use trust_the_people.Block.Validation.{validate-IsValid}

-- The ranges of the fields of a header: `u64`, `[u8; 32]` and `u32`.
pub record InRange (h : BlockHeader) : Type 0 where
  pub height : h.height < 256 ^ 8
  pub timestamp : h.timestamp < 256 ^ 8
  pub previous_hash : IsHash h.previous_hash
  pub transactions_root : IsHash h.transactions_root
  pub validator : IsHash h.validator
  pub transaction_count : h.transaction_count < 256 ^ 4

-- Headers alike in all that is hashed, which is all but the hash itself.
pub record SameContent (g h : BlockHeader) : Type 0 where
  pub height : g.height ≡ h.height
  pub timestamp : g.timestamp ≡ h.timestamp
  pub previous_hash : g.previous_hash ≡ h.previous_hash
  pub transactions_root : g.transactions_root ≡ h.transactions_root
  pub validator : g.validator ≡ h.validator
  pub transaction_count : g.transaction_count ≡ h.transaction_count

pub header_bytes-injective :
    (g h : BlockHeader) → InRange g → InRange h → header_bytes g ≡ header_bytes h → SameContent g h
unfolding header_bytes
header_bytes-injective g h rg rh e =
    let le = λ (w n m : ℕ). length-le_bytes w n ∙ sym (length-le_bytes w m) in
    let be = λ (n m : ℕ). length-be_bytes 32 n ∙ sym (length-be_bytes 32 m) in
    let a =
      append-injective (u64_bytes g.height) _ (u64_bytes h.height) _ (le 8 g.height h.height) e in
    let b =
      append-injective (u64_bytes g.timestamp) _ (u64_bytes h.timestamp) _
        (le 8 g.timestamp h.timestamp) a.1 in
    let c =
      append-injective (as_bytes g.previous_hash) _ (as_bytes h.previous_hash) _
        (be g.previous_hash h.previous_hash) b.1 in
    let d =
      append-injective (as_bytes g.transactions_root) _ (as_bytes h.transactions_root) _
        (be g.transactions_root h.transactions_root) c.1 in
    let f =
      append-injective (as_bytes g.validator) _ (as_bytes h.validator) _
        (be g.validator h.validator) d.1 in
    record {
      height = le_bytes-injective 8 g.height h.height rg.height rh.height a.0;
      timestamp = le_bytes-injective 8 g.timestamp h.timestamp rg.timestamp rh.timestamp b.0;
      previous_hash =
          be_bytes-injective 32 g.previous_hash h.previous_hash rg.previous_hash rh.previous_hash
            c.0;
      transactions_root =
          be_bytes-injective 32 g.transactions_root h.transactions_root rg.transactions_root
            rh.transactions_root d.0;
      validator = be_bytes-injective 32 g.validator h.validator rg.validator rh.validator f.0;
      transaction_count =
          le_bytes-injective 4 g.transaction_count h.transaction_count rg.transaction_count
            rh.transaction_count f.1;
    }

module _ (blake2b : List ℕ → ℕ) where
  -- One hash of two headers: they hold the same, or their bytes collide.
  pub calculate_hash-binds :
      (g h : BlockHeader)
      → InRange g
      → InRange h
      → calculate_hash blake2b g ≡ calculate_hash blake2b h
      → SameContent g h ⊎ Colliding blake2b (header_bytes g) (header_bytes h)
  unfolding calculate_hash
  calculate_hash-binds g h rg rh e = elim (bytes_discrete (header_bytes g) (header_bytes h)) [
    | yes p ↦ inl (header_bytes-injective g h rg rh p)
    | no d ↦ inr (record { distinct = d; same_digest = e })
  ]

module _ (blake2b : List ℕ → ℕ) (digest : (bytes : List ℕ) → IsHash (blake2b bytes)) where
  length-tx_ids : (txs : List Transaction) → length (tx_ids txs) ≡ length txs
  length-tx_ids [] = refl
  length-tx_ids (tx ∷ txs) = ap suc (length-tx_ids txs)

  -- One root of as many transactions: the same ids, or a collision among the bytes of the two trees.
  pub calculate_transactions_root-binds :
      (xs ys : List Transaction) (r : ℕ)
      → length xs ≡ length ys
      → All IsHash (tx_ids xs)
      → All IsHash (tx_ids ys)
      → calculate_transactions_root blake2b xs ≡ ok r
      → calculate_transactions_root blake2b ys ≡ ok r
      → (tx_ids xs ≡ tx_ids ys)
        ⊎ CollidingAmong blake2b (tree_bytes blake2b (tx_ids xs)) (tree_bytes blake2b (tx_ids ys))
  unfolding calculate_transactions_root
  calculate_transactions_root-binds [] [] r l hx hy ex ey = inl refl
  calculate_transactions_root-binds [] (y ∷ ys) r l hx hy ex ey = absurd (omega arith)
  calculate_transactions_root-binds (x ∷ xs) [] r l hx hy ex ey = absurd (omega arith)
  calculate_transactions_root-binds (x ∷ xs) (y ∷ ys) r l hx hy ex ey =
      let (t, et, _, _, _) = new_lem blake2b x.id (tx_ids xs) in
      let (u, eu, _, _, _) = new_lem blake2b y.id (tx_ids ys) in
      let rt : t.root ≡ r = cc (rw et at ex) in
      let ru : u.root ≡ r = cc (rw eu at ey) in
      new-root_binds blake2b digest (tx_ids (x ∷ xs)) (tx_ids (y ∷ ys)) t u
        (length-tx_ids (x ∷ xs) ∙ l ∙ sym (length-tx_ids (y ∷ ys))) hx hy et eu (rt ∙ sym ru)

module _ (blake2b : List ℕ → ℕ) (digest : (bytes : List ℕ) → IsHash (blake2b bytes))
    (serialize : TransactionType → List ℕ) where
  -- Two valid blocks of fewer than 2 ^ 32 transactions with one hash have the same header content and
  -- the same transaction ids in the same order, or their header bytes collide, or two of the byte
  -- strings of their Merkle trees do. Fields lie in the ranges of their types.
  pub validate-hash_binds :
      (b c : Block)
      → InRange b.header
      → InRange c.header
      → All IsHash (tx_ids b.transactions)
      → All IsHash (tx_ids c.transactions)
      → length b.transactions < 2 ^ 32
      → length c.transactions < 2 ^ 32
      → validate blake2b serialize b ≡ ok tt
      → validate blake2b serialize c ≡ ok tt
      → b.header.hash ≡ c.header.hash
      → (SameContent b.header c.header × (tx_ids b.transactions ≡ tx_ids c.transactions))
        ⊎ (Colliding blake2b (header_bytes b.header) (header_bytes c.header)
            ⊎ CollidingAmong blake2b
                (tree_bytes blake2b (tx_ids b.transactions))
                (tree_bytes blake2b (tx_ids c.transactions)))
  validate-hash_binds b c rb rc hb hc lb lc vb vc e =
      let p = (validate-IsValid blake2b serialize b).0 vb in
      let q = (validate-IsValid blake2b serialize c).0 vc in
      elim (calculate_hash-binds blake2b b.header c.header rb rc (sym p.hash ∙ e ∙ q.hash)) [
        | inr k ↦ inr (inl k)
        | inl same ↦
            let lengths : length b.transactions ≡ length c.transactions =
              omega (arith, p.count, q.count, same.transaction_count) in
            elim (calculate_transactions_root-binds blake2b digest b.transactions c.transactions
              b.header.transactions_root lengths hb hc p.root
              (q.root ∙ ap ok (sym same.transactions_root))) [
                | inl ids ↦ inl (same, ids)
                | inr k ↦ inr (inr k)
              ]
      ]
