-- ===== src/Chain/Indices.antt =====
-- What the two indices hold after a block is indexed.
use trust_the_people.Prelude.{
  ℕ, ◌≡◌, refl, inl, inr, Bool, true, none, some, List, [], ◌∷◌, arith, ◌==◌, if◌then◌else◌, ==_iff,
  ==_refl, Bool-cases, find, any, In,
}
use trust_the_people.Result.{duplicate_transaction, ok, reject_if, >>-eq-ok, reject_if-ok}
use trust_the_people.Map
use trust_the_people.Map.{Map}
use trust_the_people.Map.Laws.{get-insert, get_of_not_contains_key}
use trust_the_people.Transaction.{Transaction}
use trust_the_people.Chain.{Blockchain, index_transactions, reject_duplicates, contains_transaction}

-- Whether a transaction of the list has the id.
abbrev pub has_id : List Transaction → ℕ → Bool
has_id txs id = any (λ tx. tx.id == id) txs

pub get-index_transactions :
    (m : Map ℕ) (txs : List Transaction) (height id : ℕ)
    → Map.get (index_transactions m txs height) id
      ≡ (if has_id txs id then some height else Map.get m id)
unfolding index_transactions
get-index_transactions m [] height id = refl
get-index_transactions m (tx ∷ txs) height id = ground (
  arith,
  get-index_transactions (Map.insert m tx.id height) txs height id,
  get-insert m tx.id id height,
)

pub has_id-In : (txs : List Transaction) (tx : Transaction) → In tx txs → has_id txs tx.id ≡ true
has_id-In [] tx i = absurd i
has_id-In (x ∷ xs) tx (inl e) = rw e (rw (==_refl x.id))
has_id-In (x ∷ xs) tx (inr i) = ground (arith, has_id-In xs tx i)

pub has_id-find :
    (txs : List Transaction) (id : ℕ)
    → has_id txs id ≡ true
    → (tx : Transaction) × (find (λ t. t.id == id) txs ≡ some tx) × (tx.id ≡ id) × In tx txs
has_id-find [] id h = cc
has_id-find (x ∷ xs) id h = elim (Bool-cases (x.id == id)) [
  | inl e ↦ (x, rw e, (==_iff x.id id).0 e, inl refl)
  | inr e ↦ let (tx, p, q, i) = has_id-find xs id (ground arith) in (tx, rw e p, q, inr i)
]

-- Blocks with an id of the chain do not pass.
pub reject_duplicates-fresh :
    (c : Blockchain) (txs : List Transaction) (id : ℕ)
    → reject_duplicates c txs ≡ ok tt
    → has_id txs id ≡ true
    → Map.get c.tx_to_block id ≡ none
unfolding reject_duplicates contains_transaction
reject_duplicates-fresh c [] id h i = cc
reject_duplicates-fresh c (tx ∷ txs) id h i =
    let (p, q) =
      >>-eq-ok (reject_if (contains_transaction c tx.id) (duplicate_transaction tx.id)) _ h in
    elim (Bool-cases (tx.id == id)) [
      | inl e ↦
          let same : tx.id ≡ id = (==_iff tx.id id).0 e in
          rw (← same) (
            get_of_not_contains_key c.tx_to_block tx.id
              (reject_if-ok _ (duplicate_transaction tx.id) p))
      | inr e ↦ reject_duplicates-fresh c txs id q (ground arith)
    ]
