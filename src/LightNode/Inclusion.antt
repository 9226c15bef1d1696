-- ===== src/LightNode/Inclusion.antt =====
-- What a light node accepts as a verified transaction.
use trust_the_people.Prelude.{
  ℕ, ◌≡◌, refl, sym, ap, ◌∙◌, ◌↔◌, inl, inr, Bool, true, false, not, none, some, List, [], ◌∷◌,
  ◌==◌, if◌then◌else◌, ==_iff, ==_refl, Bool-cases, Option-cases, if-true, if-false, get_elem?,
}
use trust_the_people.Result.{fmt, block_not_found, Result, ok, err}
use trust_the_people.Map.Laws.{get-insert}
use trust_the_people.Merkle
use trust_the_people.Merkle.{MerkleProof, MerkleTree, generate_proof, verify_proof}
use trust_the_people.Merkle.Proofs.{generate_proof-verify_proof}
use trust_the_people.Transaction.{Transaction}
use trust_the_people.LightNode.{
  LightNode, LightHeader, get_header, get_verified_transaction, verified, verify_transaction,
}

refused :
    (n n' : LightNode) (x : Result (LightNode × Bool)) → x ≡ ok (n, false) → x ≡ ok (n', true) → ⊥
refused n n' x h k = let e : false ≡ true = cc in cc e

module _ (blake2b : List ℕ → ℕ) where
  -- A proof that a header of the node covers.
  pub record Covers (n : LightNode) (height : ℕ) (p : MerkleProof) : Type 0 where
    pub header : LightHeader
    pub at : get_header n height ≡ some header
    pub proof : verify_proof blake2b p ≡ true
    pub root : p.root ≡ header.transactions_root

  -- The two tests, at a header that is stored.
  answer : LightNode → Transaction → ℕ → MerkleProof → ℕ → LightHeader → Result (LightNode × Bool)
  answer n tx height p now header =
      if not (verify_proof blake2b p)
      then ok (n, false)
      else if not (p.root == header.transactions_root)
      then ok (n, false)
      else ok (verified n tx height header now, true)

  verify_transaction-at :
      (n : LightNode) (tx : Transaction) (height : ℕ) (p : MerkleProof) (now : ℕ)
      (header : LightHeader)
      → get_header n height ≡ some header
      → verify_transaction blake2b n tx height p now ≡ answer n tx height p now header
  unfolding verify_transaction get_header answer
  verify_transaction-at n tx height p now header at = rw (at, verify_transaction) refl

  verify_transaction_missing :
      (n : LightNode) (tx : Transaction) (height : ℕ) (p : MerkleProof) (now : ℕ)
      → get_header n height ≡ none
      → verify_transaction blake2b n tx height p now
        ≡ err (block_not_found (fmt "{}" (height ∷ [])))
  unfolding verify_transaction get_header
  verify_transaction_missing n tx height p now gone = rw (gone, verify_transaction) refl

  answer-Covers :
      (n n' : LightNode) (tx : Transaction) (height : ℕ) (p : MerkleProof) (now : ℕ)
      (header : LightHeader)
      → get_header n height ≡ some header
      → answer n tx height p now header ≡ ok (n', true)
      → Covers n height p
  unfolding answer
  answer-Covers n n' tx height p now header at h = elim (Bool-cases (verify_proof blake2b p)) [
    | inr bad ↦ absurd (refused n n' _ (if-true (not (verify_proof blake2b p)) _ _ (ap not bad)) h)
    | inl good ↦
        let h1 =
          sym (if-false (not (verify_proof blake2b p)) (ok (n, false)) _ (ap not good)) ∙ h in
        elim (Bool-cases (p.root == header.transactions_root)) [
          | inr other ↦ absurd (
              refused n n' _ (if-true (not (p.root == header.transactions_root)) _ _ (ap not other))
                h1)
          | inl same ↦ record {
            header = header;
            at = at;
            proof = good;
            root = (==_iff p.root header.transactions_root).0 same;
          }
        ]
  ]

  -- A transaction is accepted exactly if a header is stored for the height and the proof verifies under
  -- its root; the transaction itself is no part of the condition.
  pub verify_transaction_iff :
      (n : LightNode) (tx : Transaction) (height : ℕ) (p : MerkleProof) (now : ℕ)
      → ((n' : LightNode) × (verify_transaction blake2b n tx height p now ≡ ok (n', true)))
        ↔ Covers n height p
  unfolding answer
  verify_transaction_iff n tx height p now = (
    λ (n', h). elim (Option-cases (get_header n height)) [
      | inl gone ↦ absurd (cc (verify_transaction_missing n tx height p now gone, h))
      | inr (header, at) ↦
          answer-Covers n n' tx height p now header at
            (sym (verify_transaction-at n tx height p now header at) ∙ h)
    ],
    λ h. (
      verified n tx height h.header now,
      verify_transaction-at n tx height p now h.header h.at
          ∙ rw (h.proof, (==_iff p.root h.header.transactions_root).1 h.root) refl,
    ),
  )

  -- The proof of any leaf of a tree, under a header with the root of the tree, makes the node accept and
  -- store any transaction whatever.
  pub verify_transaction_any :
      (leaves : List ℕ) (t : MerkleTree) (i leaf : ℕ) (n : LightNode) (height : ℕ)
      (header : LightHeader) (tx : Transaction) (now : ℕ)
      → Merkle.new blake2b leaves ≡ ok t
      → get_elem? leaves i ≡ some leaf
      → get_header n height ≡ some header
      → header.transactions_root ≡ t.root
      → (p : MerkleProof) × (n' : LightNode) × (generate_proof t i ≡ ok (some p))
        × (verify_transaction blake2b n tx height p now ≡ ok (n', true))
        × (get_verified_transaction n' tx.id
            ≡ some (record {
              transaction = tx;
              block_height = height;
              block_hash = header.hash;
              merkle_proof = [];
              verified_at = now;
            }))
  unfolding verify_transaction get_header get_verified_transaction verified
  verify_transaction_any leaves t i leaf n height header tx now made at h root =
      let (p, found, l, j, r, v) = generate_proof-verify_proof blake2b leaves t i leaf made at in
      (
        p,
        verified n tx height header now,
        found,
        rw (h, verify_transaction, v, (==_iff p.root header.transactions_root).1 (r ∙ sym root))
            refl,
        get-insert n.verified_transactions tx.id tx.id _
            ∙ if-true (tx.id == tx.id) _ _ (==_refl tx.id),
      )
