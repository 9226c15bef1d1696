-- ===== src/Chain/History.antt =====
-- The last hash of a verified chain stands for its whole history.
use trust_the_people.Prelude.{
  ℕ, zero, suc, ◌+◌, ◌≤◌, ◌≡◌, sym, ap, subst, ◌∙◌, ◌⊎◌, inl, inr, not, some, List, [], ◌∷◌, arith,
  ltb, ◌==◌, ltb→lt, Bool-cases, length, get_elem?, last?, All, In-get_elem?, All-In,
  get_elem?-total, get_elem?-lt, last?-get_elem?,
}
use trust_the_people.Result.{text, genesis_error, ok, reject_if, >>-eq-ok}
use trust_the_people.Digest.{zero_hash, Colliding}
use trust_the_people.Transaction.{TransactionType}
use trust_the_people.Block
use trust_the_people.Block.{Block, header_bytes, calculate_hash, validate}
use trust_the_people.Block.Validation.{Follows, IsValid, validate_chain_link_iff, validate-IsValid}
use trust_the_people.Block.Identity.{InRange, SameContent, calculate_hash-binds}
use trust_the_people.Chain.{Blockchain, verify_from, verify_blocks}
use trust_the_people.Chain.Invariant.{IsWellFormed}

module _ (blake2b : List ℕ → ℕ) (serialize : TransactionType → List ℕ) where
  from-IsValid :
      (previous : Block) (rest : List Block) (k : ℕ) (b : Block)
      → verify_from blake2b serialize previous rest ≡ ok tt
      → get_elem? rest k ≡ some b
      → IsValid blake2b serialize b
  unfolding verify_from
  from-IsValid previous [] k b v e = cc
  from-IsValid previous (x ∷ xs) zero b v e =
      let (p, _) = >>-eq-ok (Block.validate blake2b serialize x) _ v in
      let same : x ≡ b = cc in
      subst (IsValid blake2b serialize) same ((validate-IsValid blake2b serialize x).0 p)
  from-IsValid previous (x ∷ xs) (suc k) b v e =
      let (p, v1) = >>-eq-ok (Block.validate blake2b serialize x) _ v in
      let (q, v2) = >>-eq-ok (Block.validate_chain_link x previous) _ v1 in
      from-IsValid x xs k b v2 e

  from-Follows :
      (previous : Block) (rest : List Block) (k : ℕ) (a b : Block)
      → verify_from blake2b serialize previous rest ≡ ok tt
      → get_elem? (previous ∷ rest) k ≡ some a
      → get_elem? rest k ≡ some b
      → Follows b a
  unfolding verify_from
  from-Follows previous [] k a b v ea eb = cc
  from-Follows previous (x ∷ xs) zero a b v ea eb =
      let (p, v1) = >>-eq-ok (Block.validate blake2b serialize x) _ v in
      let (q, v2) = >>-eq-ok (Block.validate_chain_link x previous) _ v1 in
      let same_a : previous ≡ a = cc in
      let same_b : x ≡ b = cc in
      subst (λ y. Follows b y) same_a
        (subst (λ y. Follows y previous) same_b ((validate_chain_link_iff x previous).0 q))
  from-Follows previous (x ∷ xs) (suc k) a b v ea eb =
      let (p, v1) = >>-eq-ok (Block.validate blake2b serialize x) _ v in
      let (q, v2) = >>-eq-ok (Block.validate_chain_link x previous) _ v1 in
      from-Follows x xs k a b v2 ea eb

  rest_of_verify :
      (genesis : Block) (rest : List Block)
      → verify_blocks blake2b serialize (genesis ∷ rest) ≡ ok tt
      → IsValid blake2b serialize genesis × (verify_from blake2b serialize genesis rest ≡ ok tt)
  unfolding verify_blocks
  rest_of_verify genesis rest v =
      let (p, v1) =
        >>-eq-ok
          (reject_if (not (genesis.header.height == 0))
            (genesis_error (text "Genesis height must be 0")))
          _ v in
      let (q, v2) =
        >>-eq-ok
          (reject_if (not (genesis.header.previous_hash == zero_hash))
            (genesis_error (text "Genesis must have zero previous hash")))
          _ v1 in
      let (r, v3) = >>-eq-ok (Block.validate blake2b serialize genesis) _ v2 in
      ((validate-IsValid blake2b serialize genesis).0 r, v3)

  -- Each block of a verified chain is valid, and each but the first follows the one before it.
  pub verify_blocks-IsValid :
      (blocks : List Block) (k : ℕ) (b : Block)
      → verify_blocks blake2b serialize blocks ≡ ok tt
      → get_elem? blocks k ≡ some b
      → IsValid blake2b serialize b
  verify_blocks-IsValid [] k b v e = cc
  verify_blocks-IsValid (x ∷ xs) zero b v e =
      let same : x ≡ b = cc in subst (IsValid blake2b serialize) same (rest_of_verify x xs v).0
  verify_blocks-IsValid (x ∷ xs) (suc k) b v e = from-IsValid x xs k b (rest_of_verify x xs v).1 e

  pub verify_blocks-Follows :
      (blocks : List Block) (k : ℕ) (a b : Block)
      → verify_blocks blake2b serialize blocks ≡ ok tt
      → get_elem? blocks k ≡ some a
      → get_elem? blocks (suc k) ≡ some b
      → Follows b a
  verify_blocks-Follows [] k a b v ea eb = cc
  verify_blocks-Follows (x ∷ xs) k a b v ea eb =
      from-Follows x xs k a b (rest_of_verify x xs v).1 ea eb

  -- Two blocks of two chains, at one height, whose header bytes collide.
  pub record Forgery (xs ys : List Block) : Type 0 where
    pub at : ℕ
    pub left : Block
    pub right : Block
    pub left_at : get_elem? xs at ≡ some left
    pub right_at : get_elem? ys at ≡ some right
    pub colliding : Colliding blake2b (header_bytes left.header) (header_bytes right.header)

  -- The blocks from height `i` on are alike.
  abbrev pub AgreeFrom : ℕ → List Block → List Block → Type 0
  AgreeFrom i xs ys =
      (j : ℕ) (b c : Block)
      → i ≤ j
      → get_elem? xs j ≡ some b
      → get_elem? ys j ≡ some c
      → SameContent b.header c.header × (b.header.hash ≡ c.header.hash)

  module _ (xs ys : List Block) (vx : verify_blocks blake2b serialize xs ≡ ok tt)
      (vy : verify_blocks blake2b serialize ys ≡ ok tt)
      (rx : All (λ (b : Block). InRange b.header) xs)
      (ry : All (λ (b : Block). InRange b.header) ys) where
    same_at :
        (i : ℕ) (b c : Block)
        → get_elem? xs i ≡ some b
        → get_elem? ys i ≡ some c
        → b.header.hash ≡ c.header.hash
        → SameContent b.header c.header ⊎ Forgery xs ys
    same_at i b c eb ec e =
        let p = verify_blocks-IsValid xs i b vx eb in
        let q = verify_blocks-IsValid ys i c vy ec in
        let r = All-In (λ (z : Block). InRange z.header) xs b rx (In-get_elem? xs i b eb) in
        let s = All-In (λ (z : Block). InRange z.header) ys c ry (In-get_elem? ys i c ec) in
        elim (calculate_hash-binds blake2b b.header c.header r s (sym p.hash ∙ e ∙ q.hash)) [
          | inl same ↦ inl same
          | inr k ↦
              inr
                (record { at = i; left = b; right = c; left_at = eb; right_at = ec; colliding = k })
        ]

    extend_agreement :
        (i : ℕ) (b c : Block)
        → get_elem? xs i ≡ some b
        → get_elem? ys i ≡ some c
        → b.header.hash ≡ c.header.hash
        → AgreeFrom (suc i) xs ys
        → AgreeFrom i xs ys ⊎ Forgery xs ys
    extend_agreement i b c eb ec e rest = elim (same_at i b c eb ec e) [
      | inr k ↦ inr k
      | inl same ↦ inl λ j x y le ex ey. elim (Bool-cases (ltb i j)) [
        | inl above ↦ rest j x y (ltb→lt i j above) ex ey
        | inr here ↦
            let at : j ≡ i = ground arith in
            let bx : b ≡ x = cc (ap (get_elem? xs) at) in
            let cy : c ≡ y = cc (ap (get_elem? ys) at) in
            subst (λ u. SameContent u.header y.header × (u.header.hash ≡ y.header.hash)) bx
              (subst (λ u. SameContent b.header u.header × (b.header.hash ≡ u.header.hash)) cy
                (same, e))
      ]
    ]

    -- Down from the last height `n`, `m` heights.
    agree_down :
        (m i n : ℕ)
        → i + m ≡ n
        → length xs ≡ suc n
        → length ys ≡ suc n
        → ((b c : Block)
            → get_elem? xs n ≡ some b
            → get_elem? ys n ≡ some c
            → b.header.hash ≡ c.header.hash)
        → AgreeFrom i xs ys ⊎ Forgery xs ys
    agree_down zero i n at lx ly top =
        let same : i ≡ n = omega arith in
        let (b, eb) = get_elem?-total xs i (omega arith) in
        let (c, ec) = get_elem?-total ys i (omega arith) in
        let none_above : AgreeFrom (suc i) xs ys =
          λ j x y le ex ey. absurd (omega (arith, get_elem?-lt xs j x ex)) in
        extend_agreement i b c eb ec
          (top b c (ap (get_elem? xs) (sym same) ∙ eb) (ap (get_elem? ys) (sym same) ∙ ec))
          none_above
    agree_down (suc m) i n at lx ly top = elim (agree_down m (suc i) n (omega arith) lx ly top) [
      | inr k ↦ inr k
      | inl rest ↦
          let (b, eb) = get_elem?-total xs i (omega arith) in
          let (c, ec) = get_elem?-total ys i (omega arith) in
          let (b', eb') = get_elem?-total xs (suc i) (omega arith) in
          let (c', ec') = get_elem?-total ys (suc i) (omega arith) in
          let fb = verify_blocks-Follows xs i b b' vx eb eb' in
          let fc = verify_blocks-Follows ys i c c' vy ec ec' in
          let (same, _) = rest (suc i) b' c' (omega arith) eb' ec' in
          extend_agreement i b c eb ec
            (sym fb.previous_hash ∙ same.previous_hash ∙ fc.previous_hash) rest
    ]

  -- Two well-formed chains whose latest blocks have one hash have the same height, and blocks of the
  -- same header content and hash at every height, or the header bytes of two of their blocks of one
  -- height collide, or those of their two latest blocks do. Header fields lie in the ranges of their
  -- types.
  pub latest_hash-binds :
      (c d : Blockchain) (x y : Block)
      → IsWellFormed blake2b serialize c
      → IsWellFormed blake2b serialize d
      → All (λ (b : Block). InRange b.header) c.blocks
      → All (λ (b : Block). InRange b.header) d.blocks
      → last? c.blocks ≡ some x
      → last? d.blocks ≡ some y
      → x.header.hash ≡ y.header.hash
      → ((c.height ≡ d.height) × AgreeFrom 0 c.blocks d.blocks)
        ⊎ (Forgery c.blocks d.blocks
            ⊎ Colliding blake2b (header_bytes x.header) (header_bytes y.header))
  latest_hash-binds c d x y wc wd rc rd lx ly e =
      let ex = last?-get_elem? c.blocks x c.height lx wc.length_height in
      let ey = last?-get_elem? d.blocks y d.height ly wd.length_height in
      let p = verify_blocks-IsValid c.blocks c.height x wc.verified ex in
      let q = verify_blocks-IsValid d.blocks d.height y wd.verified ey in
      let r =
        All-In (λ (z : Block). InRange z.header) c.blocks x rc
          (In-get_elem? c.blocks c.height x ex) in
      let s =
        All-In (λ (z : Block). InRange z.header) d.blocks y rd
          (In-get_elem? d.blocks d.height y ey) in
      elim (calculate_hash-binds blake2b x.header y.header r s (sym p.hash ∙ e ∙ q.hash)) [
        | inr k ↦ inr (inr k)
        | inl same ↦
            let hx = wc.heights c.height x ex in
            let hy = wd.heights d.height y ey in
            let heights : c.height ≡ d.height = sym hx ∙ same.height ∙ hy in
            elim (agree_down c.blocks d.blocks wc.verified wd.verified rc rd c.height 0 c.height
              (omega arith) wc.length_height (wd.length_height ∙ ap suc (sym heights))
              λ b b' eb eb'.
                let bx : x ≡ b = cc in
                let by : y ≡ b' = cc (ap (get_elem? d.blocks) heights) in
                ap (λ (z : Block). z.header.hash) (sym bx)
                ∙ e
                ∙ ap (λ (z : Block). z.header.hash) by) [
                  | inl agree ↦ inl (heights, agree)
                  | inr k ↦ inr (inl k)
                ]
      ]
