-- ===== src/Transaction/Identity.antt =====
-- What a transaction id stands for.
use trust_the_people.Prelude.{ℕ, ◌^◌, ◌<◌, ◌≡◌, sym, ◌∙◌, ◌⊎◌, inl, inr, List}
use trust_the_people.Result.{ok}
use trust_the_people.Bytes.{u64_bytes, le_bytes-injective, length-le_bytes, append-injective}
use trust_the_people.Digest.{Colliding, bytes_discrete}
use trust_the_people.Transaction.{
  Transaction, TransactionType, serialize_for_hashing, calculate_id, validate,
}
use trust_the_people.Transaction.Validation.{validate-IsSound}

abbrev pub IsU64 : ℕ → Type 0
IsU64 n = n < 256 ^ 8

-- The fields that the source declares as `u64`.
abbrev pub InRange : Transaction → Type 0
InRange tx = IsU64 tx.timestamp × IsU64 tx.nonce

module _ (serialize : TransactionType → List ℕ) where
  serialize_for_hashing-injective :
      (s t : Transaction)
      → InRange s
      → InRange t
      → serialize_for_hashing serialize s ≡ serialize_for_hashing serialize t
      → (s.timestamp ≡ t.timestamp)
        × (s.nonce ≡ t.nonce)
        × (serialize s.tx_type ≡ serialize t.tx_type)
  unfolding serialize_for_hashing
  serialize_for_hashing-injective s t hs ht e =
      let a =
        append-injective (u64_bytes s.timestamp) _ (u64_bytes t.timestamp) _
          (length-le_bytes 8 s.timestamp ∙ sym (length-le_bytes 8 t.timestamp)) e in
      let b =
        append-injective (u64_bytes s.nonce) _ (u64_bytes t.nonce) _
          (length-le_bytes 8 s.nonce ∙ sym (length-le_bytes 8 t.nonce)) a.1 in
      (
        le_bytes-injective 8 s.timestamp t.timestamp hs.0 ht.0 a.0,
        le_bytes-injective 8 s.nonce t.nonce hs.1 ht.1 b.0,
        b.1,
      )

module _ (blake2b : List ℕ → ℕ) (serialize : TransactionType → List ℕ) where
  -- Two valid transactions with one id are the same transaction, or their hashed bytes differ and
  -- collide. The encoding is taken to tell their payloads apart, as one that can be decoded does.
  pub validate-id_binds :
      (s t : Transaction)
      → InRange s
      → InRange t
      → (serialize s.tx_type ≡ serialize t.tx_type → s.tx_type ≡ t.tx_type)
      → validate blake2b serialize s ≡ ok tt
      → validate blake2b serialize t ≡ ok tt
      → s.id ≡ t.id
      → (s ≡ t)
        ⊎ Colliding blake2b (serialize_for_hashing serialize s) (serialize_for_hashing serialize t)
  unfolding calculate_id
  validate-id_binds s t hs ht decodable vs vt e =
      let ids = (validate-IsSound blake2b serialize s).0 vs in
      let idt = (validate-IsSound blake2b serialize t).0 vt in
      elim (bytes_discrete (serialize_for_hashing serialize s)
        (serialize_for_hashing serialize t)) [
          | yes p ↦
              let f = serialize_for_hashing-injective serialize s t hs ht p in
              let same = decodable f.2 in inl (cc (f.0, f.1))
          | no d ↦ inr (record { distinct = d; same_digest = sym ids.0 ∙ e ∙ idt.0 })
        ]
