-- ===== src/Base/Float.antt =====
-- The `float64` arithmetic that the source computes with, as an interface. The order carries the
-- only laws that proofs rest on, and they hold of IEEE 754 numbers, NaN included.
use Prim.Native.Nat.{ℕ, ◌+◌, ◌≤◌}
use mathlib.Core.Path.{◌≡◌}
use mathlib.Core.Bool.{Bool, true, false}
use beryl7_ai_agent.Base.Tests.{ltb, leb}

pub record Float64 : Type 1 where
  pub F : Type 0
  -- The literal whose digits are the first number, with as many decimal places as the second.
  pub lit : ℕ → ℕ → F
  pub neg : F → F
  pub add : F → F → F
  pub sub : F → F → F
  pub mul : F → F → F
  pub div : F → F → F
  pub sqrt : F → F
  pub exp : F → F
  pub max_float : F
  pub lt : F → F → Bool
  pub le : F → F → Bool
  pub lt_irrefl : (a : F) → lt a a ≡ false
  pub lt_trans : (a b c : F) → lt a b ≡ true → lt b c ≡ true → lt a c ≡ true
  -- A short literal of at most four places is ordered by its digits.
  pub lt-lit : (m n k : ℕ) → k ≤ 4 → lt (lit m k) (lit n k) ≡ ltb m n
  pub le-lit : (m n k : ℕ) → k ≤ 4 → le (lit m k) (lit n k) ≡ leb m n
  pub lt-of_le : (a b : F) → le a b ≡ true → lt b a ≡ false
  -- A literal that is taken away does not make a number greater, nor a greater number negative.
  pub lt-sub_lit : (a b : F) (n k : ℕ) → lt a b ≡ false → lt a (sub b (lit n k)) ≡ false
  pub sub_lit-lt :
      (a : F) (n k : ℕ) → le (lit n k) a ≡ true → lt (sub a (lit n k)) (lit 0 k) ≡ false
  -- A short literal below zero, and what an exponential scales.
  pub lt-neg_lit : (m n k : ℕ) → k ≤ 4 → lt (neg (lit m k)) (lit n k) ≡ ltb 0 (m + n)
  pub mul_exp-lt : (a b : F) → lt a (lit 0 1) ≡ false → lt (mul a (exp b)) (lit 0 1) ≡ false
