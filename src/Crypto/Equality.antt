-- ===== src/Crypto/Equality.antt =====
-- The comparison that does not stop at the first difference decides equality.
use Prim.Native.Nat.{bit_or, bit_or-bitwise, bit_xor, bit_xor-bitwise, digits, differ, max}
use trust_the_people.Prelude.{
  ℕ, zero, suc, ◌/◌, ◌%◌, ◌≤◌, ◌≡◌, refl, sym, ap, ap₂, subst, ◌∙◌, ◌↔◌, inl, inr, true, List, [],
  ◌∷◌, arith, ◌==◌, ==_iff, Bool-cases, length,
}
use trust_the_people.Crypto.{differences, constant_time_eq}

differ-eq : (x y : ℕ) → differ x y ≡ 0 → x ≡ y
differ-eq zero y h = sym h
differ-eq (suc x) zero h = absurd (omega (arith, h))
differ-eq (suc x) (suc y) h = ap suc (differ-eq x y h)

differ_same : (x : ℕ) → differ x x ≡ 0
differ_same zero = refl
differ_same (suc x) = differ_same x

xor_digits-eq : (n a b : ℕ) → a ≤ n → digits (λ z. z) differ n a b ≡ 0 → a ≡ b
xor_digits-eq zero a b l h = omega arith
xor_digits-eq (suc n) zero b l h = sym h
xor_digits-eq (suc n) (suc a) b l h =
    let low = differ-eq (suc a % 2) (b % 2) (omega (arith, h)) in
    let high = xor_digits-eq n (suc a / 2) (b / 2) (omega arith) (omega (arith, h)) in omega arith

xor_digits_same : (n a : ℕ) → a ≤ n → digits (λ z. z) differ n a a ≡ 0
xor_digits_same zero a l = omega arith
xor_digits_same (suc n) zero l = refl
xor_digits_same (suc n) (suc a) l =
    let low = differ_same (suc a % 2) in
    let high = xor_digits_same n (suc a / 2) (omega arith) in omega (arith, low, high)

max-zero : (x y : ℕ) → max x y ≡ 0 → (x ≡ 0) × (y ≡ 0)
max-zero x y h = (omega arith, omega arith)

or_digits-zero : (n a b : ℕ) → a ≤ n → digits (λ z. z) max n a b ≡ 0 → (a ≡ 0) × (b ≡ 0)
or_digits-zero zero a b l h = (omega arith, h)
or_digits-zero (suc n) zero b l h = (refl, h)
or_digits-zero (suc n) (suc a) b l h =
    let low = max-zero (suc a % 2) (b % 2) (omega (arith, h)) in
    let high = or_digits-zero n (suc a / 2) (b / 2) (omega arith) (omega (arith, h)) in
    absurd (omega (arith, low.0, high.0))

bit_or-zero : (a b : ℕ) → bit_or a b ≡ 0 → (a ≡ 0) × (b ≡ 0)
bit_or-zero a b h = or_digits-zero a a b (omega arith) (sym (λ i. bit_or-bitwise a b i) ∙ h)

bit_xor-zero : (a b : ℕ) → bit_xor a b ≡ 0 → a ≡ b
bit_xor-zero a b h = xor_digits-eq a a b (omega arith) (sym (λ i. bit_xor-bitwise a b i) ∙ h)

bit_xor_same : (a : ℕ) → bit_xor a a ≡ 0
bit_xor_same a = (λ i. bit_xor-bitwise a a i) ∙ xor_digits_same a a (omega arith)

differences-zero :
    (result : ℕ) (xs ys : List ℕ)
    → length xs ≡ length ys
    → differences result xs ys ≡ 0
    → (result ≡ 0) × (xs ≡ ys)
unfolding differences
differences-zero result [] [] l h = (h, refl)
differences-zero result [] (y ∷ ys) l h = absurd (omega (arith, l))
differences-zero result (x ∷ xs) [] l h = absurd (omega (arith, l))
differences-zero result (x ∷ xs) (y ∷ ys) l h =
    let (both, tails) = differences-zero (bit_or result (bit_xor x y)) xs ys (omega (arith, l)) h in
    let (old, new) = bit_or-zero result (bit_xor x y) both in
    (old, ap₂ (λ z zs. z ∷ zs) (bit_xor-zero x y new) tails)

differences_same : (xs : List ℕ) → differences 0 xs xs ≡ 0
unfolding differences
differences_same [] = refl
differences_same (x ∷ xs) = rw (bit_xor_same x) (differences_same xs)

-- Two byte strings pass the comparison exactly if they are one.
pub constant_time_eq_iff : (xs ys : List ℕ) → (constant_time_eq xs ys ≡ true) ↔ (xs ≡ ys)
unfolding constant_time_eq
constant_time_eq_iff xs ys = elim (Bool-cases (length xs == length ys)) [
  | inr e ↦ rw e (λ h. cc, λ h. absurd (ground (arith, ap length h)))
  | inl e ↦ rw e (
    λ h. (differences-zero 0 xs ys ((==_iff _ _).0 e) ((==_iff _ _).0 h)).1,
    λ h. subst (λ zs. (differences 0 xs zs == 0) ≡ true) h (rw (differences_same xs) refl),
  )
]
