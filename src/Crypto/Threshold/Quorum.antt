-- ===== src/Crypto/Threshold/Quorum.antt =====
-- What an aggregator finalizes verifies, and is signed by as many participants as are required.
use trust_the_people.Prelude.{
  ℕ, ◌≤◌, ◌≡◌, refl, sym, ap, subst, ◌∙◌, Bool, true, false, not, List, [], ◌∷◌, ◌++◌, map, arith,
  ◌==◌, leb→le, length, any, All, All-append, contains, Distinct,
}
use trust_the_people.Result.{
  text, invalid_validator, crypto_error, insufficient_validators, Result, ok, err, panic, reject_if,
  >>-eq-ok, reject_if-ok,
}
use trust_the_people.Set.{snoc-Distinct}
use trust_the_people.Map
use trust_the_people.Map.Keyed.{contains-any}
use trust_the_people.Crypto.{Primitives, hash_blake2b}
use trust_the_people.Crypto.Threshold.{
  ThresholdScheme, PartialSignature, ThresholdSignature, ThresholdAggregator, is_participant,
  is_threshold_met, has_signed, signers, is_complete, aggregator_is_complete, finalize,
  new_signature, verify_partial, add_partial_signature, verify_partials, verify_threshold_signature,
  new_aggregator, add_signature,
}
use trust_the_people.Crypto.Threshold.Collection.{
  Mirrors, Agree, both, neither, as_partial, new_aggregator-Mirrors, is_complete-Mirrors,
  add_signature-Agree,
}

abbrev pub AreParticipants : ThresholdScheme → List ℕ → Type 0
AreParticipants s keys = All (λ (k : ℕ). contains s.participants k ≡ true) keys

map_signer-append :
    (xs : List PartialSignature) (p : PartialSignature)
    → map (λ (q : PartialSignature). q.signer) (xs ++ p ∷ [])
      ≡ map (λ (q : PartialSignature). q.signer) xs ++ p.signer ∷ []
map_signer-append [] p = refl
map_signer-append (x ∷ xs) p = ap (λ l. x.signer ∷ l) (map_signer-append xs p)

has_signed-any :
    (t : ThresholdSignature) (k : ℕ)
    → has_signed t k ≡ false
    → any (λ (q : PartialSignature). q.signer == k) t.partial_signatures ≡ false
unfolding has_signed
has_signed-any t k h = h

inside :
    (s : ThresholdScheme) (k : ℕ) → is_participant s k ≡ true → contains s.participants k ≡ true
unfolding is_participant
inside s k h = h

length-map : (f : PartialSignature → ℕ) (xs : List PartialSignature) → length (map f xs) ≡ length xs
length-map f [] = refl
length-map f (x ∷ xs) = omega (arith, length-map f xs)

complete_enough :
    (t : ThresholdSignature)
    → is_complete t ≡ true
    → t.scheme.threshold ≤ length t.partial_signatures
unfolding is_complete is_threshold_met
complete_enough t h = leb→le _ _ h

module _ (c : Primitives) where
  pub record IsCollected (t : ThresholdSignature) : Type 0 where
    pub verified : verify_partials c t.message_hash t.partial_signatures ≡ ok tt
    pub distinct : Distinct (signers t)
    pub members : AreParticipants t.scheme (signers t)

  verify_partials-append :
      (h : ℕ) (xs : List PartialSignature) (p : PartialSignature)
      → verify_partials c h xs ≡ ok tt
      → verify_partial c h p ≡ ok tt
      → verify_partials c h (xs ++ p ∷ []) ≡ ok tt
  unfolding verify_partials
  verify_partials-append h [] p vs v = rw v
  verify_partials-append h (x ∷ xs) p vs v =
      let (vx, rest) = >>-eq-ok (verify_partial c h x) (verify_partials c h xs) vs in
      rw vx (verify_partials-append h xs p rest v)

  -- What a signature that is taken has passed.
  add_partial_signature-checks :
      (t t' : ThresholdSignature) (p : PartialSignature) (b : Bool)
      → add_partial_signature c t p ≡ ok (t', b)
      → (is_participant t.scheme p.signer ≡ true)
        × (has_signed t p.signer ≡ false)
        × (verify_partial c t.message_hash p ≡ ok tt)
        × (record t { partial_signatures = t.partial_signatures ++ p ∷ [] } ≡ t')
  unfolding add_partial_signature
  add_partial_signature-checks t t' p b e =
      let outside = not (is_participant t.scheme p.signer) in
      let next = record t { partial_signatures = t.partial_signatures ++ p ∷ [] } in
      let (inside, e1) =
        >>-eq-ok (reject_if outside (invalid_validator (text "Signer not in threshold scheme"))) _
          e in
      let (fresh, e2) =
        >>-eq-ok
          (reject_if (has_signed t p.signer)
            (crypto_error (text "Duplicate signature from same participant")))
          _ e1 in
      let (v, e3) = >>-eq-ok (verify_partial c t.message_hash p) (ok (next, is_complete next)) e2 in
      (
        ground (arith, reject_if-ok outside _ inside),
        reject_if-ok (has_signed t p.signer) _ fresh,
        v,
        cc,
      )

  add_partial_signature-IsCollected :
      (t t' : ThresholdSignature) (p : PartialSignature) (b : Bool)
      → IsCollected t
      → add_partial_signature c t p ≡ ok (t', b)
      → IsCollected t'
  add_partial_signature-IsCollected t t' p b i e =
      let (member, fresh, v, same) = add_partial_signature-checks t t' p b e in
      subst IsCollected same (record {
        verified = verify_partials-append t.message_hash t.partial_signatures p i.verified v;
        distinct =
            unfold signers in
            rw (map_signer-append t.partial_signatures p) (
              snoc-Distinct (signers t) p.signer
                (contains-any (λ (q : PartialSignature). q.signer) t.partial_signatures p.signer
                  ∙ has_signed-any t p.signer fresh)
                i.distinct);
        members =
            unfold signers in
            rw (map_signer-append t.partial_signatures p) (
              All-append (λ k. contains t.scheme.participants k ≡ true) (signers t) (p.signer ∷ [])
                i.members (inside t.scheme p.signer member, tt));
      })

  -- A caller that gives signatures to an aggregator and goes on where one is refused.
  abbrev pub kept : ThresholdAggregator → Result (ThresholdAggregator × Bool) → ThresholdAggregator
  kept a panic = a
  kept a (err e) = a
  kept a (ok (a', met)) = a'

  abbrev pub collect : ThresholdAggregator → List (ℕ × ℕ) → ThresholdAggregator
  collect a [] = a
  collect a ((signer, signature) ∷ calls) =
      collect (kept a (add_signature c a signer signature)) calls

  record Follows (s : ThresholdScheme) (h : ℕ) (a : ThresholdAggregator) : Type 0 where
    listed : ThresholdSignature
    mirrors : Mirrors a listed
    collected : IsCollected listed
    scheme : listed.scheme ≡ s
    message_hash : listed.message_hash ≡ h

  kept-Follows :
      (s : ThresholdScheme) (h : ℕ) (a : ThresholdAggregator) (f : Follows s h a)
      (p : PartialSignature) (x : Result (ThresholdAggregator × Bool))
      (y : Result (ThresholdSignature × Bool))
      → Agree x y
      → add_partial_signature c f.listed p ≡ y
      → Follows s h (kept a x)
  kept-Follows s h a f p x y (neither v w) e = f
  kept-Follows s h a f p x y (both a' t' b m) e =
      let (member, fresh, v, same) = add_partial_signature-checks f.listed t' p b e in
      record {
        listed = t';
        mirrors = m;
        collected = add_partial_signature-IsCollected f.listed t' p b f.collected e;
        scheme = sym (ap (λ t. t.scheme) same) ∙ f.scheme;
        message_hash = sym (ap (λ t. t.message_hash) same) ∙ f.message_hash;
      }

  collect-Follows :
      (s : ThresholdScheme) (h : ℕ) (calls : List (ℕ × ℕ)) (a : ThresholdAggregator)
      → Follows s h a
      → Follows s h (collect a calls)
  collect-Follows s h [] a f = f
  collect-Follows s h ((signer, signature) ∷ calls) a f =
      collect-Follows s h calls (kept a (add_signature c a signer signature)) (
        kept-Follows s h a f (as_partial a.scheme signer signature)
          (add_signature c a signer signature) _
          (add_signature-Agree c a f.listed f.mirrors signer signature) refl)

  -- The promise of a finalized signature: it verifies, for its scheme and message, and as many different
  -- participants as the threshold wants have signed.
  pub record HasQuorum (s : ThresholdScheme) (message : List ℕ) (t : ThresholdSignature)
      : Type 0 where
    pub scheme : t.scheme ≡ s
    pub message_hash : t.message_hash ≡ hash_blake2b c message
    pub verified : verify_threshold_signature c t ≡ ok tt
    pub distinct : Distinct (signers t)
    pub members : AreParticipants s (signers t)
    pub enough : s.threshold ≤ length (signers t)

  finalize-fields :
      (a : ThresholdAggregator) (t : ThresholdSignature)
      → finalize a ≡ ok t
      → (aggregator_is_complete a ≡ true)
        × (record (new_signature a.scheme a.message_hash) {
          partial_signatures = Map.values a.signatures;
        }
            ≡ t)
  unfolding finalize
  finalize-fields a t e =
      let (full, e1) =
        >>-eq-ok (reject_if (not (aggregator_is_complete a)) insufficient_validators) _ e in
      (ground (arith, reject_if-ok (not (aggregator_is_complete a)) _ full), cc)

  listed-eq :
      (a : ThresholdAggregator) (t : ThresholdSignature)
      → Mirrors a t
      → record (new_signature a.scheme a.message_hash) {
        partial_signatures = Map.values a.signatures;
      }
        ≡ t
  unfolding new_signature
  listed-eq a t m = rw (m.scheme, m.signatures, m.message_hash) refl

  start-Follows :
      (s : ThresholdScheme) (message : List ℕ)
      → Follows s (hash_blake2b c message) (new_aggregator c s message)
  unfolding new_signature
  start-Follows s message = record {
    listed = new_signature s (hash_blake2b c message);
    mirrors = new_aggregator-Mirrors c s message;
    collected = record {
      verified = unfold verify_partials in refl;
      distinct = unfold signers in tt;
      members = unfold signers in tt;
    };
    scheme = refl;
    message_hash = refl;
  }

  listed-HasQuorum :
      (s : ThresholdScheme) (message : List ℕ) (t : ThresholdSignature)
      → IsCollected t
      → is_complete t ≡ true
      → t.scheme ≡ s
      → t.message_hash ≡ hash_blake2b c message
      → HasQuorum s message t
  listed-HasQuorum s message t i full es eh = record {
    scheme = es;
    message_hash = eh;
    verified = unfold verify_threshold_signature in rw full i.verified;
    distinct = i.distinct;
    members = subst (λ x. AreParticipants x (signers t)) es i.members;
    enough =
        unfold signers in
        rw (← es, length-map (λ (p : PartialSignature). p.signer) t.partial_signatures)
          (complete_enough t full);
  }

  -- Whatever signatures an aggregator is given, the refused ones ignored: what it finalizes has a quorum.
  pub finalize-HasQuorum :
      (s : ThresholdScheme) (message : List ℕ) (calls : List (ℕ × ℕ)) (t : ThresholdSignature)
      → finalize (collect (new_aggregator c s message) calls) ≡ ok t
      → HasQuorum s message t
  finalize-HasQuorum s message calls t e =
      let a = collect (new_aggregator c s message) calls in
      let f =
        collect-Follows s (hash_blake2b c message) calls (new_aggregator c s message)
          (start-Follows s message) in
      let (full, same) = finalize-fields a t e in
      subst (HasQuorum s message) (sym (listed-eq a f.listed f.mirrors) ∙ same) (
        listed-HasQuorum s message f.listed f.collected
          (sym (is_complete-Mirrors a f.listed f.mirrors) ∙ full) f.scheme f.message_hash)
