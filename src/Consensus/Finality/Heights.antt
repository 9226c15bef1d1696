-- ===== src/Consensus/Finality/Heights.antt =====
-- The highest final height of a tracker.
use native.Mathlib.Nat.{le_trans}
use trust_the_people.Prelude.{
  ℕ, ◌≤◌, ◌≡◌, refl, sym, ap, subst, ◌∙◌, ◌↔◌, inl, inr, true, false, not, ◌&&◌, Option, none, some,
  arith, ltb, leb, ◌==◌, if◌then◌else◌, le→leb, Bool-cases, if-true, if-false, length,
}
use trust_the_people.Float.{Float64}
use trust_the_people.Map
use trust_the_people.Map.{Map}
use trust_the_people.Map.Laws.{get-empty}
use trust_the_people.Map.Keys.{
  HasUniqueKeys, empty-HasUniqueKeys, insert-HasUniqueKeys, retain-HasUniqueKeys, get-retain,
}
use trust_the_people.Block.{Block}
use trust_the_people.Consensus.Finality.{
  FinalityInfo, FinalityTracker, fresh_info, signed_info, calculate_required_signatures, finalize,
  settle, check_finality, prune_below_height, new,
}
use trust_the_people.Consensus.Finality.Progress.{settled_info, get-settle}

-- Each block is once in the tracker, and no final one is higher than the highest final height.
pub record IsSound {F : Type 0} (t : FinalityTracker F) : Type 0 where
  pub unique : HasUniqueKeys t.finality_map
  pub below :
      (h : ℕ) (info : FinalityInfo)
      → Map.get t.finality_map h ≡ some info
      → info.is_finalized ≡ true
      → info.height ≤ t.highest_finalized_height

-- The tracker knows the block, if at all, by its own height.
abbrev pub Knows : {F : Type 0} → FinalityTracker F → Block → Type 0
Knows t b =
    (info : FinalityInfo)
    → Map.get t.finality_map b.header.hash ≡ some info
    → info.height ≡ b.header.height

height-signed_info :
    (o : Option FinalityInfo) (b : Block) (total : ℕ)
    → ((info : FinalityInfo) → o ≡ some info → info.height ≡ b.header.height)
    → (signed_info o b total).height ≡ b.header.height
unfolding signed_info fresh_info
height-signed_info none b total h = refl
height-signed_info (some i) b total h = h i refl

signed_info-was :
    (o : Option FinalityInfo) (b : Block) (total : ℕ)
    → (signed_info o b total).is_finalized ≡ true
    → (info : FinalityInfo) × (o ≡ some info) × (info.is_finalized ≡ true)
unfolding signed_info fresh_info
signed_info-was none b total h = cc
signed_info-was (some i) b total h = (i, refl, h)

module _ (f : Float64) where
  open f use {F}

  pub new-IsSound : (threshold : F) → IsSound (new f threshold)
  unfolding new
  new-IsSound threshold = record {
    unique = empty-HasUniqueKeys;
    below = λ h info e is. absurd (cc (get-empty {V = FinalityInfo} h));
  }

  settle_unique :
      (now : ℕ) (t : FinalityTracker F) (b : Block) (info : FinalityInfo) (required : ℕ)
      → HasUniqueKeys t.finality_map
      → HasUniqueKeys (settle f now t b info required).0.finality_map
  unfolding settle finalize
  settle_unique now t b info required u =
      elim (Bool-cases (leb required (length info.signatures) && not info.is_finalized)) [
        | inr p ↦ rw p (insert-HasUniqueKeys t.finality_map b.header.hash info u)
        | inl p ↦
            let k =
              insert-HasUniqueKeys t.finality_map b.header.hash
                (record info { is_finalized = true; finalized_at = some now }) u in
            elim (Bool-cases (ltb t.highest_finalized_height b.header.height)) [
              | inl q ↦ rw (p, q) k
              | inr q ↦ rw (p, q) k
            ]
      ]

  -- The highest height never falls, and reaches the height of a block that turns final.
  settle-highest :
      (now : ℕ) (t : FinalityTracker F) (b : Block) (info : FinalityInfo) (required : ℕ)
      → (t.highest_finalized_height ≤ (settle f now t b info required).0.highest_finalized_height)
        × (info.is_finalized ≡ false
            → (settled_info f now info required).is_finalized ≡ true
            → b.header.height ≤ (settle f now t b info required).0.highest_finalized_height)
  unfolding settle finalize
  settle-highest now t b info required = (ground arith, λ was is. ground arith)

  height-settled_info :
      (now : ℕ) (info : FinalityInfo) (required : ℕ)
      → (settled_info f now info required).height ≡ info.height
  height-settled_info now info required = ground arith

  -- Checking a block that the tracker knows by its own height keeps every final block at or below the
  -- highest final height, which does not fall.
  pub check_finality-IsSound :
      (now : ℕ) (t : FinalityTracker F) (b : Block) (total : ℕ)
      → IsSound t
      → Knows t b
      → IsSound (check_finality f now t b total).0
        × (t.highest_finalized_height ≤ (check_finality f now t b total).0.highest_finalized_height)
  unfolding check_finality
  check_finality-IsSound now t b total s knows =
      let o = Map.get t.finality_map b.header.hash in
      let info = signed_info o b total in
      let required = calculate_required_signatures f t total in
      let t' = (settle f now t b info required).0 in
      let (grows, reaches) = settle-highest now t b info required in
      let height = height-settled_info now info required ∙ height-signed_info o b total knows in
      (
        record {
          unique = settle_unique now t b info required s.unique;
          below = λ h x e is. elim (Bool-cases (h == b.header.hash)) [
            | inr q ↦
                le_trans
                  (s.below h x
                    (sym (if-false _ _ _ q) ∙ sym (get-settle f now t b info required h) ∙ e) is)
                  grows
            | inl q ↦
                let same : settled_info f now info required ≡ x =
                  cc (sym (if-true _ _ _ q) ∙ sym (get-settle f now t b info required h) ∙ e) in
                let settled : (settled_info f now info required).is_finalized ≡ true =
                  ap (λ (i : FinalityInfo). i.is_finalized) same ∙ is in
                let at : b.header.height ≡ x.height =
                  sym height ∙ ap (λ (i : FinalityInfo). i.height) same in
                subst (λ n. n ≤ t'.highest_finalized_height) at
                  (elim (Bool-cases info.is_finalized) [
                    | inr fresh ↦ reaches fresh settled
                    | inl old ↦
                        let (i, p, was) = signed_info-was o b total old in
                        subst (λ n. n ≤ t'.highest_finalized_height) (knows i p)
                          (le_trans (s.below b.header.hash i p was) grows)
                  ])
          ];
        },
        grows,
      )

kept_entry :
    (o : Option FinalityInfo) (n : ℕ) (x : FinalityInfo)
    → elim o [ none ↦ none | some v ↦ if leb n v.height then some v else none ] ≡ some x
    → (o ≡ some x) × (n ≤ x.height)
kept_entry none n x e = cc
kept_entry (some i) n x e = ground arith

module _ {F : Type 0} where
  -- Pruning keeps exactly the entries at or above the given height.
  pub prune_below_height-keeps :
      (t : FinalityTracker F) (n h : ℕ)
      → IsSound t
      → IsSound (prune_below_height t n)
        × ((x : FinalityInfo)
            → (Map.get (prune_below_height t n).finality_map h ≡ some x)
              ↔ ((Map.get t.finality_map h ≡ some x) × (n ≤ x.height)))
  unfolding prune_below_height
  prune_below_height-keeps t n h s =
      let p = λ (i : FinalityInfo). leb n i.height in
      let law = λ (k : ℕ). get-retain p t.finality_map k s.unique in
      (
        record {
          unique = retain-HasUniqueKeys p t.finality_map s.unique;
          below = λ k x e is.
              s.below k x (kept_entry (Map.get t.finality_map k) n x (sym (law k) ∙ e)).0 is;
        },
        λ x. (
          λ e. kept_entry (Map.get t.finality_map h) n x (sym (law h) ∙ e),
          λ (e, le). law h ∙ rw e (if-true _ _ _ (le→leb n x.height le)),
        ),
      )
