-- ===== src/Transaction/Validation.antt =====
-- Which transactions are valid.
use trust_the_people.Prelude.{
  ℕ, ◌≤◌, ◌<◌, String, ◌≡◌, refl, ◌≢◌, ◌↔◌, false, List, [], ◌∷◌, arith, ==_iff, length, is_empty,
}
use trust_the_people.Result.{ok}
use trust_the_people.Transaction.{
  Transaction, TransactionType, vote, validator_registration, validator_removal, election_creation,
  election_closure, is_empty_string, max_vote_size, validate_type, calculate_id, new_with_params,
  validate, serialize_for_hashing,
}

-- What each kind of transaction must hold.
abbrev pub IsSound : TransactionType → Type 0
IsSound (vote v) = (0 < length v.encrypted_vote) × (length v.encrypted_vote ≤ max_vote_size)
IsSound (validator_registration r) = r.metadata.name ≢ ""
IsSound (validator_removal r) = r.reason ≢ ""
IsSound (election_creation c) =
    (c.name ≢ "") × (0 < length c.candidates) × (c.start_time < c.end_time)
IsSound (election_closure c) = 0 < length c.results

nonempty_string : (s : String) → (is_empty_string s ≡ false) ↔ (s ≢ "")
nonempty_string String.[] = (λ h. cc, λ h. absurd (h refl))
nonempty_string (String.◌∷◌ c s) = (λ h. λ e. cc, λ h. refl)

is_empty_iff : {A : Type 0} (xs : List A) → (is_empty xs ≡ false) ↔ (0 < length xs)
is_empty_iff [] = (λ h. cc, λ h. absurd (omega arith))
is_empty_iff (x ∷ xs) = (λ h. omega arith, λ h. refl)

pub validate_type_iff : (t : TransactionType) → (validate_type t ≡ ok tt) ↔ IsSound t
unfolding validate_type
validate_type_iff (vote v) =
    let e = is_empty_iff v.encrypted_vote in (λ h. ground (arith, e), λ h. ground (arith, e))
validate_type_iff (validator_registration r) =
    let e = nonempty_string r.metadata.name in (λ h. e.0 (ground arith), λ h. rw (e.1 h))
validate_type_iff (validator_removal r) =
    let e = nonempty_string r.reason in (λ h. e.0 (ground arith), λ h. rw (e.1 h))
validate_type_iff (election_creation c) =
    let e = nonempty_string c.name in
    let f = is_empty_iff c.candidates in
    (
      λ h. (e.0 (ground arith), f.0 (ground arith), ground arith),
      λ h. rw (e.1 h.0, f.1 h.1) (ground arith),
    )
validate_type_iff (election_closure c) =
    let e = is_empty_iff c.results in (λ h. e.0 (ground arith), λ h. rw (e.1 h))

module _ (blake2b : List ℕ → ℕ) (serialize : TransactionType → List ℕ) where
  -- A transaction is valid exactly when its id is the hash of its data and its payload is sound.
  pub validate-IsSound :
      (tx : Transaction)
      → (validate blake2b serialize tx ≡ ok tt)
        ↔ ((tx.id ≡ calculate_id blake2b serialize tx) × IsSound tx.tx_type)
  unfolding validate
  validate-IsSound tx =
      let t = validate_type_iff tx.tx_type in
      (λ h. (ground arith, t.0 (ground arith)), λ h. rw ((==_iff _ _).1 h.0) (t.1 h.1))

  -- A transaction that `new_with_params` makes is valid exactly when its payload is sound.
  pub new_with_params-validate :
      (t : TransactionType) (timestamp nonce : ℕ)
      → (validate blake2b serialize (new_with_params blake2b serialize t timestamp nonce) ≡ ok tt)
        ↔ IsSound t
  unfolding new_with_params
  new_with_params-validate t timestamp nonce =
      let v = validate-IsSound (new_with_params blake2b serialize t timestamp nonce) in
      (λ h. (v.0 h).1, λ h. v.1 (unfold calculate_id serialize_for_hashing in refl, h))
