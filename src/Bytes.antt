-- ===== src/Bytes.antt =====
-- The byte encodings that the hashes are taken over: `to_le_bytes` of the unsigned integers, and
-- `as_bytes` of the 32-byte arrays of crates/common/src/types.rs.
-- An array `[u8; 32]` (a hash, an address, a key) is the number that its bytes spell, first byte
-- highest; so equal arrays are equal numbers, and the order of arrays is the order of numbers.
-- The digest Blake2b-256 is a function of the hashed bytes, a parameter of what follows.
use native.Mathlib.Nat.{pow-suc}
use trust_the_people.Prelude.{
  ℕ, zero, suc, ◌/◌, ◌%◌, ◌^◌, ◌<◌, ◌≡◌, refl, ap, ◌∙◌, sym, List, [], ◌∷◌, ◌++◌, length,
  length-append, arith,
}

-- `n.to_le_bytes()` at a width of `w` bytes.
unfoldable pub le_bytes : ℕ → ℕ → List ℕ
le_bytes zero n = []
le_bytes (suc w) n = (n % 256) ∷ le_bytes w (n / 256)

-- The bytes of an array of `w` bytes.
unfoldable pub be_bytes : ℕ → ℕ → List ℕ
be_bytes zero n = []
be_bytes (suc w) n = be_bytes w (n / 256) ++ (n % 256) ∷ []

abbrev pub u64_bytes : ℕ → List ℕ
u64_bytes = le_bytes 8

abbrev pub u32_bytes : ℕ → List ℕ
u32_bytes = le_bytes 4

abbrev pub as_bytes : ℕ → List ℕ
as_bytes = be_bytes 32

pub length-le_bytes : (w n : ℕ) → length (le_bytes w n) ≡ w
unfolding le_bytes
length-le_bytes zero n = refl
length-le_bytes (suc w) n = ap suc (length-le_bytes w (n / 256))

pub length-be_bytes : (w n : ℕ) → length (be_bytes w n) ≡ w
unfolding be_bytes
length-be_bytes zero n = refl
length-be_bytes (suc w) n =
    omega
      (arith, length-append (be_bytes w (n / 256)) ((n % 256) ∷ []), length-be_bytes w (n / 256))

module _ {A : Type 0} where
  -- Concatenations with first parts of one length have equal parts.
  pub append-injective :
      (xs ys us vs : List A) → length xs ≡ length us → xs ++ ys ≡ us ++ vs → (xs ≡ us) × (ys ≡ vs)
  append-injective [] ys [] vs h e = (refl, e)
  append-injective [] ys (u ∷ us) vs h e = absurd (omega arith)
  append-injective (x ∷ xs) ys [] vs h e = absurd (omega arith)
  append-injective (x ∷ xs) ys (u ∷ us) vs h e =
      let tails = append-injective xs ys us vs (omega arith) (cc) in (cc tails.0, tails.1)

div-lt : (w n : ℕ) → n < 256 ^ suc w → n / 256 < 256 ^ w
div-lt w n h = let p = pow-suc 256 w in omega (arith, p)

pub le_bytes-injective :
    (w n m : ℕ) → n < 256 ^ w → m < 256 ^ w → le_bytes w n ≡ le_bytes w m → n ≡ m
unfolding le_bytes
le_bytes-injective zero n m h k e = omega arith
le_bytes-injective (suc w) n m h k e =
    let low : n % 256 ≡ m % 256 = cc in
    let high = le_bytes-injective w (n / 256) (m / 256) (div-lt w n h) (div-lt w m k) (cc) in
    omega arith

pub be_bytes-injective :
    (w n m : ℕ) → n < 256 ^ w → m < 256 ^ w → be_bytes w n ≡ be_bytes w m → n ≡ m
unfolding be_bytes
be_bytes-injective zero n m h k e = omega arith
be_bytes-injective (suc w) n m h k e =
    let parts =
      append-injective (be_bytes w (n / 256)) ((n % 256) ∷ []) (be_bytes w (m / 256))
        ((m % 256) ∷ []) (length-be_bytes w (n / 256) ∙ sym (length-be_bytes w (m / 256))) e in
    let low : n % 256 ≡ m % 256 = cc parts.1 in
    let high = be_bytes-injective w (n / 256) (m / 256) (div-lt w n h) (div-lt w m k) parts.0 in
    omega arith
