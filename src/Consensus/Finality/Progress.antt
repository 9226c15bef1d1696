-- ===== src/Consensus/Finality/Progress.antt =====
-- When a block becomes final, and that it stays so.
use trust_the_people.Prelude.{
  ℕ, ◌≤◌, ◌<◌, ◌≡◌, refl, sym, ap, subst, ◌∙◌, ◌⊎◌, inl, inr, Bool, true, false, not, ◌&&◌, ◌||◌,
  Option, none, some, List, [], ◌∷◌, arith, leb, ◌==◌, if◌then◌else◌, ==_iff, ==_refl, Bool-cases,
  if-true, if-false, length, contains, Distinct,
}
use trust_the_people.Float.{Float64}
use trust_the_people.Map
use trust_the_people.Map.{Map}
use trust_the_people.Map.Laws.{get-insert}
use trust_the_people.Set.{set_insert, contains-set_insert, set_insert-Distinct}
use trust_the_people.Block.{Block, ValidatorSignature}
use trust_the_people.Consensus.Finality.{
  FinalityInfo, FinalityTracker, finalized, pending, insert_signers, fresh_info, signed_info,
  calculate_required_signatures, finalize, settle, check_finality, is_finalized,
}

pub signers : List ValidatorSignature → List ℕ
signers [] = []
signers (s ∷ ss) = s.validator ∷ signers ss

contains-insert_signers :
    (s : List ℕ) (sigs : List ValidatorSignature) (v : ℕ)
    → contains (insert_signers s sigs) v ≡ (contains (signers sigs) v || contains s v)
unfolding insert_signers signers
contains-insert_signers s [] v = refl
contains-insert_signers s (sig ∷ sigs) v = ground (
  arith,
  contains-insert_signers (set_insert s sig.validator) sigs v,
  contains-set_insert s sig.validator v,
)

insert_signers-Distinct :
    (s : List ℕ) (sigs : List ValidatorSignature) → Distinct s → Distinct (insert_signers s sigs)
unfolding insert_signers
insert_signers-Distinct s [] d = d
insert_signers-Distinct s (sig ∷ sigs) d =
    insert_signers-Distinct (set_insert s sig.validator) sigs
      (set_insert-Distinct s sig.validator d)

abbrev final_entry : Option FinalityInfo → Bool
final_entry none = false
final_entry (some i) = i.is_finalized

is_finalized-get :
    {F : Type 0} (t : FinalityTracker F) (h : ℕ)
    → is_finalized t h ≡ final_entry (Map.get t.finality_map h)
unfolding is_finalized
is_finalized-get t h = ground arith

module _ (f : Float64) where
  open f use {F}

  -- What `check_finality` writes under the hash of the block.
  abbrev pub settled_info : ℕ → FinalityInfo → ℕ → FinalityInfo
  settled_info now info required =
      if leb required (length info.signatures) && not info.is_finalized
      then record info { is_finalized = true; finalized_at = some now }
      else info

  pub get-settle :
      (now : ℕ) (t : FinalityTracker F) (b : Block) (info : FinalityInfo) (required h : ℕ)
      → Map.get (settle f now t b info required).0.finality_map h ≡ (
          if h == b.header.hash
          then some (settled_info now info required)
          else Map.get t.finality_map h)
  unfolding settle finalize
  get-settle now t b info required h = ground (
    arith,
    get-insert t.finality_map b.header.hash h info,
    get-insert t.finality_map b.header.hash h
        (record info { is_finalized = true; finalized_at = some now }),
  )

  settle-status :
      (now : ℕ) (t : FinalityTracker F) (b : Block) (info : FinalityInfo) (required : ℕ)
      → (settle f now t b info required).1 ≡ (
          if (settled_info now info required).is_finalized
          then finalized
          else pending (length info.signatures) required)
  unfolding settle
  settle-status now t b info required = ground arith

  settled_info-pending :
      (now : ℕ) (info : FinalityInfo) (required : ℕ)
      → (settled_info now info required).is_finalized ≡ false
      → length info.signatures < required
  settled_info-pending now info required h = ground arith

  settled_info-final :
      (now : ℕ) (info : FinalityInfo) (required : ℕ)
      → info.is_finalized ≡ true
      → (settled_info now info required).is_finalized ≡ true
  settled_info-final now info required h = ground arith

  signed_info-final :
      (o : Option FinalityInfo) (b : Block) (total : ℕ)
      → final_entry o ≡ true
      → (signed_info o b total).is_finalized ≡ true
  unfolding signed_info
  signed_info-final none b total h = cc
  signed_info-final (some i) b total h = h

  -- The answer of `check_finality` is what the tracker says of the block afterwards; a pending answer
  -- names fewer signatures than are required.
  pub check_finality-status :
      (now : ℕ) (t : FinalityTracker F) (b : Block) (total : ℕ)
      → let r = check_finality f now t b total in
        ((r.1 ≡ finalized) × (is_finalized r.0 b.header.hash ≡ true))
        ⊎ ((s : ℕ) × (r.1 ≡ pending s (calculate_required_signatures f t total))
            × (s < calculate_required_signatures f t total)
            × (is_finalized r.0 b.header.hash ≡ false))
  unfolding check_finality
  check_finality-status now t b total =
      let info = signed_info (Map.get t.finality_map b.header.hash) b total in
      let required = calculate_required_signatures f t total in
      let g : Map.get (settle f now t b info required).0.finality_map b.header.hash
          ≡ some (settled_info now info required) =
        get-settle now t b info required b.header.hash ∙ rw (==_refl b.header.hash) in
      let t' = (settle f now t b info required).0 in
      let st = settle-status now t b info required in
      elim (Bool-cases (settled_info now info required).is_finalized) [
        | inl e ↦ inl (st ∙ rw e, is_finalized-get t' b.header.hash ∙ ap final_entry g ∙ e)
        | inr e ↦ inr (
          length info.signatures,
          st ∙ rw e,
          settled_info-pending now info required e,
          is_finalized-get t' b.header.hash ∙ ap final_entry g ∙ e,
        )
      ]

  -- A block that is final stays final, whatever block is checked next.
  pub check_finality-is_finalized :
      (now : ℕ) (t : FinalityTracker F) (b : Block) (total h : ℕ)
      → is_finalized t h ≡ true
      → is_finalized (check_finality f now t b total).0 h ≡ true
  unfolding check_finality
  check_finality-is_finalized now t b total h was =
      let info = signed_info (Map.get t.finality_map b.header.hash) b total in
      let required = calculate_required_signatures f t total in
      let g = get-settle now t b info required h in
      let t' = (settle f now t b info required).0 in
      elim (Bool-cases (h == b.header.hash)) [
        | inr e ↦
            is_finalized-get t' h
            ∙ ap final_entry (g ∙ if-false _ _ _ e)
            ∙ sym (is_finalized-get t h)
            ∙ was
        | inl e ↦
            let same = (==_iff h b.header.hash).0 e in
            is_finalized-get t' h
            ∙ ap final_entry (g ∙ if-true _ _ _ e)
            ∙ (settled_info-final now info required (
                signed_info-final (Map.get t.finality_map b.header.hash) b total
                  (rw same at (sym (is_finalized-get t h) ∙ was))))
      ]

  -- What a tracker holds about a block: distinct signers, and under its own hash.
  abbrev pub IsEntry : ℕ → FinalityInfo → Type 0
  IsEntry h info = Distinct info.signatures × (info.block_hash ≡ h)

  signed_info-IsEntry :
      (o : Option FinalityInfo) (b : Block) (total : ℕ)
      → ((info : FinalityInfo) → o ≡ some info → IsEntry b.header.hash info)
      → IsEntry b.header.hash (signed_info o b total)
  unfolding signed_info fresh_info
  signed_info-IsEntry none b total h = (insert_signers-Distinct [] b.signatures tt, refl)
  signed_info-IsEntry (some i) b total h =
      (insert_signers-Distinct i.signatures b.signatures (h i refl).0, (h i refl).1)

  settled_info-IsEntry :
      (now : ℕ) (info : FinalityInfo) (required h : ℕ)
      → IsEntry h info
      → IsEntry h (settled_info now info required)
  settled_info-IsEntry now info required h e =
      elim (Bool-cases (leb required (length info.signatures) && not info.is_finalized)) [
        | inl p ↦ rw p e
        | inr p ↦ rw p e
      ]

  signed_info-signers :
      (o : Option FinalityInfo) (b : Block) (total v : ℕ)
      → contains (signers b.signatures) v ≡ true
      → contains (signed_info o b total).signatures v ≡ true
  unfolding signed_info fresh_info
  signed_info-signers none b total v h = contains-insert_signers [] b.signatures v ∙ rw h
  signed_info-signers (some i) b total v h =
      contains-insert_signers i.signatures b.signatures v ∙ rw h

  signed_info-not_final :
      (o : Option FinalityInfo) (b : Block) (total : ℕ)
      → final_entry o ≡ false
      → (signed_info o b total).is_finalized ≡ false
  unfolding signed_info fresh_info
  signed_info-not_final none b total h = refl
  signed_info-not_final (some i) b total h = h

  settled_info-quorum :
      (now : ℕ) (info : FinalityInfo) (required : ℕ)
      → info.is_finalized ≡ false
      → (settled_info now info required).is_finalized ≡ true
      → required ≤ length info.signatures
  settled_info-quorum now info required was h = ground arith

  signatures-settled_info :
      (now : ℕ) (info : FinalityInfo) (required : ℕ)
      → (settled_info now info required).signatures ≡ info.signatures
  signatures-settled_info now info required = ground arith

  -- In a tracker that counts distinct signers, a block that turns final has as many distinct signers
  -- as are required, those of the block among them, and the tracker goes on counting distinct signers.
  pub check_finality-signers :
      (now : ℕ) (t : FinalityTracker F) (b : Block) (total : ℕ)
      → ((h : ℕ) (info : FinalityInfo) → Map.get t.finality_map h ≡ some info → IsEntry h info)
      → let t' = (check_finality f now t b total).0 in
        ((h : ℕ) (info : FinalityInfo) → Map.get t'.finality_map h ≡ some info → IsEntry h info)
        × (is_finalized t b.header.hash ≡ false
            → is_finalized t' b.header.hash ≡ true
            → (info : FinalityInfo) × (Map.get t'.finality_map b.header.hash ≡ some info)
              × (calculate_required_signatures f t total ≤ length info.signatures)
              × ((v : ℕ)
                  → contains (signers b.signatures) v ≡ true
                  → contains info.signatures v ≡ true))
  unfolding check_finality
  check_finality-signers now t b total entries =
      let o = Map.get t.finality_map b.header.hash in
      let info = signed_info o b total in
      let required = calculate_required_signatures f t total in
      let here : Map.get (settle f now t b info required).0.finality_map b.header.hash
          ≡ some (settled_info now info required) =
        get-settle now t b info required b.header.hash ∙ if-true _ _ _ (==_refl b.header.hash) in
      let t' = (settle f now t b info required).0 in
      let same = signatures-settled_info now info required in
      (
        λ h x e. elim (Bool-cases (h == b.header.hash)) [
          | inl q ↦
              let at = (==_iff h b.header.hash).0 q in
              let is : settled_info now info required ≡ x = cc in
              subst (λ u. IsEntry h u) is
                (subst (λ u. IsEntry u (settled_info now info required)) (sym at)
                  (settled_info-IsEntry now info required b.header.hash
                    (signed_info-IsEntry o b total (entries b.header.hash))))
          | inr q ↦
              entries h x (sym (if-false _ _ _ q) ∙ sym (get-settle now t b info required h) ∙ e)
        ],
        λ was is. (
          settled_info now info required,
          here,
          subst (λ (u : List ℕ). required ≤ length u) (sym same)
              (settled_info-quorum now info required
                (signed_info-not_final o b total (sym (is_finalized-get t b.header.hash) ∙ was))
                (sym (ap final_entry here) ∙ sym (is_finalized-get t' b.header.hash) ∙ is)),
          λ v h. ap (λ (u : List ℕ). contains u v) same ∙ signed_info-signers o b total v h,
        ),
      )
