-- ===== src/Crypto/Threshold/Collection.antt =====
-- The aggregator keeps its signatures in a map, a threshold signature in a list: the list is the
-- specification, and every step of the aggregator is a step of it.
use trust_the_people.Prelude.{
  ℕ, ◌+◌, ◌≡◌, refl, sym, ap, ap₂, ◌∙◌, ◌⊎◌, inl, inr, Bool, true, false, none, some, List, [], ◌∷◌,
  ◌++◌, arith, Bool-cases, Option-cases, length, contains,
}
use trust_the_people.Result.{
  text, VotingError, crypto_error, signature_verification_failed, Result, ok, err,
}
use trust_the_people.Bytes.{as_bytes}
use trust_the_people.Map
use trust_the_people.Map.{Map}
use trust_the_people.Map.Keyed.{
  IsKeyed, insert-IsKeyed, empty-IsKeyed, values-insert, contains_key-any, length-values,
}
use trust_the_people.Crypto
use trust_the_people.Crypto.{Primitives, hash_blake2b}
use trust_the_people.Crypto.Threshold.{
  ThresholdScheme, PartialSignature, ThresholdSignature, ThresholdAggregator, position_from,
  is_participant, participant_index, is_threshold_met, has_signed, is_complete,
  aggregator_is_complete, new_signature, verify_partial, add_partial_signature, new_aggregator,
  add_signature,
}

position_from-contains :
    (i : ℕ) (ps : List ℕ) (k : ℕ)
    → contains ps k ≡ elim (position_from i ps k) [ none ↦ false | some j ↦ true ]
unfolding position_from
position_from-contains i [] k = refl
position_from-contains i (p ∷ ps) k = ground (arith, position_from-contains (i + 1) ps k)

-- The list that an aggregator stands for.
pub record Mirrors (a : ThresholdAggregator) (t : ThresholdSignature) : Type 0 where
  pub scheme : a.scheme ≡ t.scheme
  pub message_hash : a.message_hash ≡ t.message_hash
  pub signatures : Map.values a.signatures ≡ t.partial_signatures
  pub keyed : IsKeyed (λ (p : PartialSignature). p.signer) a.signatures

-- The index that an aggregator gives a signer, 0 for one outside the scheme.
abbrev pub index_of : ThresholdScheme → ℕ → ℕ
index_of s signer = elim (participant_index s signer) [ none ↦ 0 | some i ↦ i ]

abbrev pub as_partial : ThresholdScheme → ℕ → ℕ → PartialSignature
as_partial s signer signature = record {
  signer = signer;
  signature = signature;
  participant_index = index_of s signer;
}

-- Both take the signature and agree on the threshold, or both refuse it.
pub data Agree
    : Result (ThresholdAggregator × Bool) → Result (ThresholdSignature × Bool) → Type 0 where
  both :
      (a : ThresholdAggregator) (t : ThresholdSignature) (b : Bool)
      → Mirrors a t
      → Agree (ok (a, b)) (ok (t, b))
  neither : (x y : VotingError) → Agree (err x) (err y)

pub new_aggregator-Mirrors :
    (c : Primitives) (s : ThresholdScheme) (message : List ℕ)
    → Mirrors (new_aggregator c s message) (new_signature s (hash_blake2b c message))
unfolding new_aggregator new_signature
new_aggregator-Mirrors c s message = record {
  scheme = refl;
  message_hash = refl;
  signatures = unfold Map.values Map.empty in refl;
  keyed = empty-IsKeyed (λ (p : PartialSignature). p.signer);
}

pub is_complete-Mirrors :
    (a : ThresholdAggregator) (t : ThresholdSignature)
    → Mirrors a t
    → aggregator_is_complete a ≡ is_complete t
unfolding aggregator_is_complete is_complete
is_complete-Mirrors a t m =
    ap₂ is_threshold_met m.scheme (
      sym (length-values (λ (p : PartialSignature). p.signer) a.signatures)
      ∙ ap length m.signatures)

-- A verification accepts or fails; it does not panic.
verify_cases :
    (c : Primitives) (message : List ℕ) (signature public_key : ℕ)
    → (Crypto.verify c message signature public_key ≡ ok tt)
      ⊎ ((e : VotingError) × (Crypto.verify c message signature public_key ≡ err e))
unfolding Crypto.verify
verify_cases c message signature public_key = elim (Bool-cases (c.is_verifying_key public_key)) [
  | inr bad ↦ inr (crypto_error (text "Invalid public key"), rw bad)
  | inl good ↦ elim (Bool-cases (c.accepts public_key message signature)) [
    | inl accepted ↦ inl (rw (good, accepted))
    | inr refused ↦ inr (signature_verification_failed, rw (good, refused))
  ]
]

module _ (c : Primitives) (a : ThresholdAggregator) (t : ThresholdSignature) (m : Mirrors a t)
    (signer signature : ℕ) where
  is_participant-index :
      is_participant t.scheme signer
      ≡ elim (participant_index a.scheme signer) [ none ↦ false | some j ↦ true ]
  unfolding is_participant participant_index
  is_participant-index = rw (← m.scheme) (position_from-contains 0 a.scheme.participants signer)

  has_signed-Mirrors : has_signed t signer ≡ Map.contains_key a.signatures signer
  unfolding has_signed
  has_signed-Mirrors =
      rw (← m.signatures)
        (contains_key-any (λ (p : PartialSignature). p.signer) a.signatures signer m.keyed)

  same_verification :
      Crypto.verify c (as_bytes t.message_hash) signature signer
      ≡ Crypto.verify c (as_bytes a.message_hash) signature signer
  same_verification = ap (λ h. Crypto.verify c (as_bytes h) signature signer) (sym m.message_hash)

  stored : PartialSignature → ThresholdAggregator
  stored p = record a { signatures = Map.insert a.signatures p.signer p }

  extended : PartialSignature → ThresholdSignature
  extended p = record t { partial_signatures = t.partial_signatures ++ p ∷ [] }

  stored-Mirrors :
      (p : PartialSignature)
      → Map.contains_key a.signatures p.signer ≡ false
      → Mirrors (stored p) (extended p)
  unfolding stored extended
  stored-Mirrors p fresh = record {
    scheme = m.scheme;
    message_hash = m.message_hash;
    signatures =
        values-insert (λ (q : PartialSignature). q.signer) a.signatures p.signer p fresh
        ∙ ap (λ l. l ++ p ∷ []) m.signatures;
    keyed = insert-IsKeyed (λ (q : PartialSignature). q.signer) a.signatures p fresh m.keyed;
  }

  -- A signature given to an aggregator and, with its place, to the threshold signature that it mirrors
  -- is taken by both or refused by both; after it both mirror one another and agree on the threshold.
  pub add_signature-Agree :
      Agree
        (add_signature c a signer signature)
        (add_partial_signature c t (as_partial a.scheme signer signature))
  unfolding add_signature add_partial_signature verify_partial stored extended
  add_signature-Agree = elim (Option-cases (participant_index a.scheme signer)) [
    | inl outside ↦ rw (is_participant-index, outside, add_signature) (neither _ _)
    | inr (i, at) ↦ elim (Bool-cases (Map.contains_key a.signatures signer)) [
      | inl signed ↦
          rw (is_participant-index, has_signed-Mirrors, at, add_signature, signed) (neither _ _)
      | inr fresh ↦ elim (verify_cases c (as_bytes a.message_hash) signature signer) [
        | inr (e, bad) ↦
            rw
              (
                is_participant-index,
                has_signed-Mirrors,
                at,
                fresh,
                add_signature,
                bad,
                same_verification ∙ bad,
              )
              (neither _ _)
        | inl good ↦
            let p = as_partial a.scheme signer signature in
            let place : index_of a.scheme signer ≡ i = rw (at, index_of) refl in
            let kept : add_signature c a signer signature
                ≡ ok (stored p, aggregator_is_complete (stored p)) =
              rw (at, place, fresh, add_signature, good) refl in
            let listed : add_partial_signature c t p ≡ ok (extended p, is_complete (extended p)) =
              rw (is_participant-index, has_signed-Mirrors, at, fresh, same_verification ∙ good)
                refl in
            let s = stored-Mirrors p fresh in
            rw (kept, listed, is_complete-Mirrors (stored p) (extended p) s)
              (both (stored p) (extended p) _ s)
      ]
    ]
  ]
