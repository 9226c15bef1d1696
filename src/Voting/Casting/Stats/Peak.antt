-- ===== src/Voting/Casting/Stats/Peak.antt =====
-- The votes of an hour, and the hour with most.
use trust_the_people.Prelude.{
  ℕ, suc, ◌+◌, ◌/◌, ◌%◌, ◌^◌, ◌≤◌, ◌<◌, ◌≡◌, refl, sym, subst, ◌∙◌, ◌⊎◌, inl, inr, none, some, List,
  [], ◌∷◌, arith, leb, ◌==◌, if◌then◌else◌, leb→le, ==_iff, ==_refl, Bool-cases, Option-cases,
  length, In,
}
use trust_the_people.Map
use trust_the_people.Map.{Map}
use trust_the_people.Map.Laws.{get-insert}
use trust_the_people.Map.Keys.{
  HasUniqueKeys, empty-HasUniqueKeys, insert-HasUniqueKeys, get-In, In-get,
}
use trust_the_people.Voting.Casting.{VoteRecord}
use trust_the_people.Voting.Casting.Stats.{
  count_at, counted, later, max_by_count, peak, from_records, votes_in_hour,
}

-- The number of records that were made in an hour.
unfoldable pub records_in : ℕ → List VoteRecord → ℕ
records_in hour [] = 0
records_in hour (r ∷ rs) =
    let rest = records_in hour rs in if hour == r.cast_at / 3600 then suc rest else rest

count_at-insert :
    (m : Map ℕ) (k j v : ℕ) → count_at (Map.insert m k v) j ≡ (if j == k then v else count_at m j)
unfolding count_at
count_at-insert m k j v = ground (arith, get-insert m k j v)

count_at-empty : (k : ℕ) → count_at Map.empty k ≡ 0
unfolding count_at Map.get Map.empty
count_at-empty k = refl

count_at-bump :
    (m : Map ℕ) (k j n : ℕ)
    → ((i : ℕ) → count_at m i + suc n < 2 ^ 64)
    → count_at (Map.insert m k ((count_at m k + 1) % 2 ^ 64)) j
      ≡ (if j == k then count_at m j + 1 else count_at m j)
count_at-bump m k j n b = elim (Bool-cases (j == k)) [
  | inl same ↦
      let e = (==_iff j k).0 same in
      rw (count_at-insert m k j ((count_at m k + 1) % 2 ^ 64), same)
        (subst (λ i. (count_at m i + 1) % 2 ^ 64 ≡ count_at m j + 1) e (ground (arith, b j)))
  | inr other ↦ rw (count_at-insert m k j ((count_at m k + 1) % 2 ^ 64), other) refl
]

count_at-counted :
    (m : Map ℕ) (rs : List VoteRecord) (j : ℕ)
    → ((i : ℕ) → count_at m i + length rs < 2 ^ 64)
    → count_at (counted m rs) j ≡ count_at m j + records_in j rs
unfolding counted records_in
count_at-counted m [] j b = omega arith
count_at-counted m (r ∷ rs) j b =
    let k = r.cast_at / 3600 in
    let bumped = λ (i : ℕ). count_at-bump m k i (length rs) b in
    let rest =
      count_at-counted (Map.insert m k ((count_at m k + 1) % 2 ^ 64)) rs j
        (λ i. ground (arith, bumped i, b i)) in
    ground (arith, rest, bumped j)

counted-HasUniqueKeys :
    (m : Map ℕ) (rs : List VoteRecord) → HasUniqueKeys m → HasUniqueKeys (counted m rs)
unfolding counted
counted-HasUniqueKeys m [] u = u
counted-HasUniqueKeys m (r ∷ rs) u =
    counted-HasUniqueKeys
      (Map.insert m (r.cast_at / 3600) ((count_at m (r.cast_at / 3600) + 1) % 2 ^ 64)) rs
      (insert-HasUniqueKeys m (r.cast_at / 3600) ((count_at m (r.cast_at / 3600) + 1) % 2 ^ 64) u)

later-cases : (e f : ℕ × ℕ) → ((later e f ≡ f) × (e.1 ≤ f.1)) ⊎ ((later e f ≡ e) × (f.1 ≤ e.1))
unfolding later
later-cases e f = elim (Bool-cases (leb e.1 f.1)) [
  | inl less ↦ inl (rw less refl, leb→le e.1 f.1 less)
  | inr more ↦ inr (rw more refl, ground (arith, more))
]

later-max : (e f : ℕ × ℕ) → (e.1 ≤ (later e f).1) × (f.1 ≤ (later e f).1)
later-max e f = elim (later-cases e f) [
  | inl (is, l) ↦ rw is (l, omega arith)
  | inr (is, l) ↦ rw is (omega arith, l)
]

max_by_count-ge : (e : ℕ × ℕ) (es : List (ℕ × ℕ)) → e.1 ≤ (max_by_count e es).1
unfolding max_by_count
max_by_count-ge e [] = omega arith
max_by_count-ge e (f ∷ es) = omega (arith, (later-max e f).0, max_by_count-ge (later e f) es)

max_by_count-max :
    (e : ℕ × ℕ) (es : List (ℕ × ℕ)) (a : ℕ × ℕ) → In a (e ∷ es) → a.1 ≤ (max_by_count e es).1
unfolding max_by_count
max_by_count-max e es a (inl s) = rw s (max_by_count-ge e es)
max_by_count-max e [] a (inr i) = absurd i
max_by_count-max e (f ∷ es) a (inr (inl s)) =
    rw s (omega (arith, (later-max e f).1, max_by_count-ge (later e f) es))
max_by_count-max e (f ∷ es) a (inr (inr i)) = max_by_count-max (later e f) es a (inr i)

max_by_count-In : (e : ℕ × ℕ) (es : List (ℕ × ℕ)) → In (max_by_count e es) (e ∷ es)
unfolding max_by_count
max_by_count-In e [] = inl refl
max_by_count-In e (f ∷ es) = elim (max_by_count-In (later e f) es) [
  | inr i ↦ inr (inr i)
  | inl same ↦ elim (later-cases e f) [
    | inl (is, l) ↦ inr (inl (same ∙ is))
    | inr (is, l) ↦ inl (same ∙ is)
  ]
]

-- No hour has more votes.
pub IsPeak : Map ℕ → ℕ → Type 0
IsPeak m h = (j : ℕ) → count_at m j ≤ count_at m h

count_at-In : (m : Map ℕ) (k n : ℕ) → HasUniqueKeys m → In (k, n) m.entries → count_at m k ≡ n
unfolding count_at
count_at-In m k n u i = rw (count_at, In-get m k n u i) refl

count_at-bound :
    (m : Map ℕ) (n : ℕ) → ((a : ℕ × ℕ) → In a m.entries → a.1 ≤ n) → (j : ℕ) → count_at m j ≤ n
unfolding count_at
count_at-bound m n b j = elim (Option-cases (Map.get m j)) [
  | inl empty ↦ rw (count_at, empty) (omega arith)
  | inr (v, found) ↦ rw (count_at, found) (b (j, v) (get-In m j v found))
]

max_by_count-IsPeak :
    (m : Map ℕ) (e : ℕ × ℕ) (es : List (ℕ × ℕ))
    → HasUniqueKeys m
    → m.entries ≡ e ∷ es
    → IsPeak m (max_by_count e es).0
unfolding IsPeak
max_by_count-IsPeak m e es u eq j =
    let best = max_by_count e es in
    let most : count_at m best.0 ≡ best.1 =
      count_at-In m best.0 best.1 u (subst (In best) (sym eq) (max_by_count-In e es)) in
    let bound : count_at m j ≤ best.1 =
      count_at-bound m best.1 (λ a i. max_by_count-max e es a (subst (In a) eq i)) j in
    subst (λ n. count_at m j ≤ n) (sym most) bound

peak-IsPeak :
    (m : Map ℕ) (es : List (ℕ × ℕ)) (h : ℕ)
    → HasUniqueKeys m
    → m.entries ≡ es
    → peak es ≡ some h
    → IsPeak m h
unfolding peak
peak-IsPeak m [] h u eq p = ground arith
peak-IsPeak m (e ∷ es) h u eq p =
    let is : (max_by_count e es).0 ≡ h = ground arith in
    subst (IsPeak m) is (max_by_count-IsPeak m e es u eq)

peak-none :
    (m : Map ℕ) (es : List (ℕ × ℕ)) → m.entries ≡ es → peak es ≡ none → (j : ℕ) → count_at m j ≤ 0
unfolding peak
peak-none m [] eq p j = count_at-bound m 0 (λ a i. absurd (subst (In a) eq i)) j
peak-none m (e ∷ es) eq p j = ground arith

records_in-head :
    (r : VoteRecord) (rs : List VoteRecord) → 1 ≤ records_in (r.cast_at / 3600) (r ∷ rs)
unfolding records_in
records_in-head r rs = rw (==_refl (r.cast_at / 3600)) (omega arith)

count_at-records :
    (rs : List VoteRecord) (j : ℕ)
    → length rs < 2 ^ 64
    → count_at (counted Map.empty rs) j ≡ records_in j rs
count_at-records rs j b =
    count_at-counted Map.empty rs j (λ i. omega (arith, count_at-empty i, b))
    ∙ omega (arith, count_at-empty j)

has_peak :
    (rs : List VoteRecord)
    → length rs < 2 ^ 64
    → peak (counted Map.empty rs).entries ≡ none
    → rs ≡ []
has_peak [] b p = refl
has_peak (r ∷ rs) b p =
    let none_left =
      peak-none (counted Map.empty (r ∷ rs)) (counted Map.empty (r ∷ rs)).entries refl p
        (r.cast_at / 3600) in
    absurd (
      omega
        (arith, none_left, count_at-records (r ∷ rs) (r.cast_at / 3600) b, records_in-head r rs))

-- The statistics of fewer than 2 ^ 64 records: they count them all, the votes of an hour are the
-- records that were made in it, no hour has more votes than the peak hour, and there is a peak hour
-- unless there is no record.
pub from_records_lem :
    (rs : List VoteRecord)
    → length rs < 2 ^ 64
    → ((from_records rs).total_votes ≡ length rs)
      × ((j : ℕ) → votes_in_hour (from_records rs) j ≡ records_in j rs)
      × ((h : ℕ)
          → (from_records rs).peak_hour ≡ some h
          → (j : ℕ) → records_in j rs ≤ records_in h rs)
      × ((from_records rs).peak_hour ≡ none → rs ≡ [])
unfolding from_records votes_in_hour IsPeak
from_records_lem rs b =
    let m = counted Map.empty rs in
    (
      refl,
      λ j. count_at-records rs j b,
      λ h p j.
          subst (λ n. n ≤ records_in h rs) (count_at-records rs j b)
            (subst (λ n. count_at m j ≤ n) (count_at-records rs h b)
              (peak-IsPeak m m.entries h (counted-HasUniqueKeys Map.empty rs empty-HasUniqueKeys)
                refl p j)),
      has_peak rs b,
    )
