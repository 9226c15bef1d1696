-- ===== src/Digest.antt =====
-- crates/common/src/utils.rs (hashing) and the hash types of crates/common/src/types.rs.
-- The digest Blake2b-256, of the crate `blake2`, is the parameter `blake2b` of each definition.
use native.Mathlib.Decide.{ℕ_discrete}
use trust_the_people.Prelude.{
  ℕ, ◌^◌, ◌<◌, ◌≡◌, sym, ◌∙◌, ◌≢◌, List, [], ◌++◌, In, In-append_left, In-append_right, flat_map,
}
use trust_the_people.Bytes.{as_bytes, be_bytes-injective, length-be_bytes, append-injective}

-- `BlockHash::zero()`
abbrev pub zero_hash : ℕ
zero_hash = 0

-- A value of the type `[u8; 32]`.
abbrev pub IsHash : ℕ → Type 0
IsHash h = h < 256 ^ 32

-- `common::utils::hash_data`
abbrev pub hash_data : (List ℕ → ℕ) → List ℕ → ℕ
hash_data blake2b bytes = blake2b bytes

-- `common::utils::hash_multiple`: the hasher is fed the pieces one after the other.
unfoldable pub hash_multiple : (List ℕ → ℕ) → List (List ℕ) → ℕ
hash_multiple blake2b pieces = blake2b (flat_map (λ piece. piece) pieces)

pub bytes_discrete : Discrete (List ℕ)
bytes_discrete = hlevel ℕ_discrete

-- Two byte strings that a digest confuses.
pub record Colliding (blake2b : List ℕ → ℕ) (xs ys : List ℕ) : Type 0 where
  pub distinct : xs ≢ ys
  pub same_digest : blake2b xs ≡ blake2b ys

-- A string hashed on one side collides with a string hashed on the other.
abbrev pub CollidingAmong : (List ℕ → ℕ) → List (List ℕ) → List (List ℕ) → Type 0
CollidingAmong blake2b xss yss =
    (xs : List ℕ) × (ys : List ℕ) × In xs xss × In ys yss × Colliding blake2b xs ys

-- The bytes of two hashes determine both.
pub two_hashes-injective :
    (a b c d : ℕ)
    → IsHash a
    → IsHash b
    → IsHash c
    → IsHash d
    → as_bytes a ++ (as_bytes b ++ []) ≡ as_bytes c ++ (as_bytes d ++ [])
    → (a ≡ c) × (b ≡ d)
two_hashes-injective a b c d ha hb hc hd e =
    let outer =
      append-injective (as_bytes a) _ (as_bytes c) _
        (length-be_bytes 32 a ∙ sym (length-be_bytes 32 c)) e in
    let inner =
      append-injective (as_bytes b) [] (as_bytes d) []
        (length-be_bytes 32 b ∙ sym (length-be_bytes 32 d)) outer.1 in
    (be_bytes-injective 32 a c ha hc outer.0, be_bytes-injective 32 b d hb hd inner.0)

-- A collision stays one among more strings, on either part of both sides.
pub CollidingAmong-append_left :
    (blake2b : List ℕ → ℕ) (xs us ys vs : List (List ℕ))
    → CollidingAmong blake2b xs ys
    → CollidingAmong blake2b (xs ++ us) (ys ++ vs)
CollidingAmong-append_left blake2b xs us ys vs (x, y, i, j, c) =
    (x, y, In-append_left xs us x i, In-append_left ys vs y j, c)

pub CollidingAmong-append_right :
    (blake2b : List ℕ → ℕ) (xs us ys vs : List (List ℕ))
    → CollidingAmong blake2b us vs
    → CollidingAmong blake2b (xs ++ us) (ys ++ vs)
CollidingAmong-append_right blake2b xs us ys vs (x, y, i, j, c) =
    (x, y, In-append_right xs us x i, In-append_right ys vs y j, c)
