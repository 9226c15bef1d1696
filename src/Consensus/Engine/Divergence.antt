-- ===== src/Consensus/Engine/Divergence.antt =====
-- The engine changes its own validator set and never that of its mechanism.
use trust_the_people.Prelude.{
  ℕ, ◌≡◌, refl, ap, subst, ◌≢◌, ◌↔◌, true, false, not, List, [], ◌∷◌, arith, All,
}
use trust_the_people.Result.{fmt, invalid_validator, ok, reject_if, >>=-eq-ok, >>-eq-ok}
use trust_the_people.Set.{contains-set_remove}
use trust_the_people.Block.{Block, ValidatorSignature}
use trust_the_people.Consensus.ValidatorSet
use trust_the_people.Consensus.ValidatorSet.{ValidatorSet}
use trust_the_people.Consensus.ProofOfAuthority
use trust_the_people.Consensus.ProofOfAuthority.{ProofOfAuthority}
use trust_the_people.Consensus.Engine.{
  ConsensusEngine, validate_signers, validate_block, add_validator, remove_validator,
  required_signatures,
}

abbrev AreSigners : ValidatorSet → List ValidatorSignature → Type 0
AreSigners s sigs =
    All (λ (sig : ValidatorSignature). ValidatorSet.is_validator s sig.validator ≡ true) sigs

validate_signers_iff :
    (s : ValidatorSet) (sigs : List ValidatorSignature)
    → (validate_signers s sigs ≡ ok tt) ↔ AreSigners s sigs
unfolding validate_signers
validate_signers_iff s [] = (λ h. tt, λ h. refl)
validate_signers_iff s (sig ∷ sigs) =
    let ih = validate_signers_iff s sigs in
    (
      λ h.
          let (p, q) =
            >>-eq-ok
              (reject_if (not (ValidatorSet.is_validator s sig.validator))
                (invalid_validator (fmt "Unknown validator signature: {}" (sig.validator ∷ []))))
              (validate_signers s sigs) h in
          (ground arith, ih.0 q),
      λ h. rw (h.0, ih.1 h.1),
    )

unauthorized :
    (p : ProofOfAuthority) (b : Block)
    → ValidatorSet.is_validator p.validator_set b.header.validator ≡ false
    → ProofOfAuthority.validate_block p b ≢ ok tt
unfolding ProofOfAuthority.validate_block
unauthorized p b h e = ground arith

producer_of :
    (p : ProofOfAuthority) (b : Block) (v : ℕ)
    → ProofOfAuthority.get_block_producer p b.header.height ≡ ok v
    → ProofOfAuthority.validate_block p b ≡ ok tt
    → b.header.validator ≡ v
unfolding ProofOfAuthority.validate_block
producer_of p b v h e = ground arith

module _ {F : Type 0} where
  -- The engine accepts a block exactly when its mechanism does, and its own validator set has the
  -- producer and every signer.
  pub validate_block-signers :
      (e : ConsensusEngine F) (b : Block)
      → (validate_block e b ≡ ok tt) ↔ (
          (ProofOfAuthority.validate_block e.mechanism b ≡ ok tt)
          × (ValidatorSet.is_validator e.validator_set b.header.validator ≡ true)
          × All
              (λ (s : ValidatorSignature).
                ValidatorSet.is_validator e.validator_set s.validator ≡ true)
              b.signatures)
  unfolding validate_block
  validate_block-signers e b =
      let s = validate_signers_iff e.validator_set b.signatures in
      (
        λ h.
            let (p, h1) = >>-eq-ok (ProofOfAuthority.validate_block e.mechanism b) _ h in
            let (q, h2) =
              >>-eq-ok
                (reject_if (not (ValidatorSet.is_validator e.validator_set b.header.validator))
                  (invalid_validator (fmt "Unknown validator: {}" (b.header.validator ∷ []))))
                (validate_signers e.validator_set b.signatures) h1 in
            (p, ground arith, s.0 h2),
        λ h. rw (h.0, h.1, s.1 h.2),
      )

  add_validator-mechanism :
      (now : ℕ) (e e' : ConsensusEngine F) (v : ℕ)
      → add_validator now e v ≡ ok e'
      → e'.mechanism ≡ e.mechanism
  unfolding add_validator
  add_validator-mechanism now e e' v h =
      let (s, p, q) = >>=-eq-ok (ValidatorSet.add_validator now e.validator_set v) _ h in
      ground arith

  remove_validator-fields :
      (e e' : ConsensusEngine F) (v : ℕ)
      → remove_validator e v ≡ ok e'
      → (e'.mechanism ≡ e.mechanism) × (ValidatorSet.is_validator e'.validator_set v ≡ false)
  unfolding remove_validator ValidatorSet.remove_validator ValidatorSet.is_validator
  remove_validator-fields e e' v h =
      let gone = contains-set_remove e.validator_set.validator_set v v in ground (arith, gone)

  -- A validator added to the engine that its mechanism does not have can produce no block that the
  -- engine accepts, and the number of required signatures stays as it was.
  pub add_validator-validate_block :
      (now : ℕ) (e e' : ConsensusEngine F) (b : Block)
      → ValidatorSet.is_validator e.mechanism.validator_set b.header.validator ≡ false
      → add_validator now e b.header.validator ≡ ok e'
      → (validate_block e' b ≢ ok tt) × (required_signatures e' ≡ required_signatures e)
  unfolding required_signatures
  add_validator-validate_block now e e' b h added =
      let m = add_validator-mechanism now e e' b.header.validator added in
      (
        λ accepted. unauthorized e.mechanism b h (
            subst (λ p. ProofOfAuthority.validate_block p b ≡ ok tt) m
              ((validate_block-signers e' b).0 accepted).0),
        ap ProofOfAuthority.required_signatures m,
      )

  -- Once the producer of a height is removed from the engine, the engine accepts no block of that
  -- height, by whomever: the mechanism still waits for the removed validator.
  pub remove_validator-stalls :
      (e e' : ConsensusEngine F) (v : ℕ) (b : Block)
      → ProofOfAuthority.get_block_producer e.mechanism b.header.height ≡ ok v
      → remove_validator e v ≡ ok e'
      → validate_block e' b ≢ ok tt
  remove_validator-stalls e e' v b turn removed accepted =
      let (m, gone) = remove_validator-fields e e' v removed in
      let parts = (validate_block-signers e' b).0 accepted in
      let at =
        producer_of e.mechanism b v turn
          (subst (λ p. ProofOfAuthority.validate_block p b ≡ ok tt) m parts.0) in
      cc (gone, parts.1, ap (ValidatorSet.is_validator e'.validator_set) at)
