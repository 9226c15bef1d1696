-- ===== src/Crypto/Threshold/Laxity.antt =====
-- What the check of a threshold signature does not ask for.
use trust_the_people.Prelude.{ℕ, zero, suc, ◌≡◌, refl, ap, List, [], ◌∷◌, arith, le→leb, length}
use trust_the_people.Result.{ok}
use trust_the_people.Crypto.{Primitives}
use trust_the_people.Crypto.Threshold.{
  ThresholdScheme, PartialSignature, is_threshold_met, is_complete, verify_partial, verify_partials,
  verify_threshold_signature,
}

abbrev pub replicate : ℕ → PartialSignature → List PartialSignature
replicate zero p = []
replicate (suc n) p = p ∷ replicate n p

length-replicate : (n : ℕ) (p : PartialSignature) → length (replicate n p) ≡ n
length-replicate zero p = refl
length-replicate (suc n) p = ap suc (length-replicate n p)

module _ (c : Primitives) where
  verify_partials-replicate :
      (h n : ℕ) (p : PartialSignature)
      → verify_partial c h p ≡ ok tt
      → verify_partials c h (replicate n p) ≡ ok tt
  unfolding verify_partials
  verify_partials-replicate h zero p v = refl
  verify_partials-replicate h (suc n) p v = rw v (verify_partials-replicate h n p v)

  -- One valid signature of one key, inside the scheme or not, repeated as often as the threshold asks,
  -- passes the check of a threshold signature.
  pub verify_threshold_signature-replicate :
      (s : ThresholdScheme) (h : ℕ) (p : PartialSignature)
      → verify_partial c h p ≡ ok tt
      → verify_threshold_signature c
          (record { scheme = s; partial_signatures = replicate s.threshold p; message_hash = h })
        ≡ ok tt
  unfolding verify_threshold_signature is_complete is_threshold_met
  verify_threshold_signature-replicate s h p v =
      rw (length-replicate s.threshold p, le→leb s.threshold s.threshold (omega arith))
        (verify_partials-replicate h s.threshold p v)
