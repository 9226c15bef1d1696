-- ===== src/Float.antt =====
-- The `f64` arithmetic of Rust's core library, as the program uses it: a type with operations, a
-- parameter of what follows. `decimal n k` is the literal of value n / 10 ^ k, `of_usize` and
-- `to_usize` are the `as` casts, `mul` is `*` and `div` is `/`.
use trust_the_people.Prelude.{ℕ, Bool}

pub record Float64 : Type 1 where
  pub F : Type 0
  pub decimal : ℕ → ℕ → F
  pub of_usize : ℕ → F
  pub to_usize : F → ℕ
  pub mul : F → F → F
  pub div : F → F → F
  pub ceil : F → F
  pub le : F → F → Bool
  pub lt : F → F → Bool
