-- ===== src/Base/Fixed.antt =====
-- Numbers with four decimal places, an instance of `Float64` to try the models on.
use Prim.Native.Nat.{ℕ, zero, suc, ◌+◌, ◌-◌, ◌*◌, ◌/◌, ◌^◌, ◌≤◌}
use mathlib.Core.Path.{◌≡◌}
use mathlib.Core.Bool.{Bool, true, false}
use native.Mathlib.Omega.{arith}
use beryl7_ai_agent.Base.Tests.{ltb, leb}
use beryl7_ai_agent.Base.Int.{
  ℤ, pos, negsuc, sub_ℕ, ◌-ℤ◌, ◌+ℤ◌, ltb_ℤ, pos_part, neg_part, -ℤ_parts,
}
use beryl7_ai_agent.Base.Float.{Float64}

abbrev pub scaled : ℕ → ℕ → ℤ
scaled m k = pos (m * 10 ^ (4 - k))

abbrev pub times : ℤ → ℤ → ℤ
times (pos a) (pos b) = pos (a * b / 10000)
times (pos a) (negsuc b) = sub_ℕ 0 (a * (b + 1) / 10000)
times (negsuc a) (pos b) = sub_ℕ 0 ((a + 1) * b / 10000)
times (negsuc a) (negsuc b) = pos ((a + 1) * (b + 1) / 10000)

pub lt_irrefl_ℤ : (a : ℤ) → ltb_ℤ a a ≡ false
lt_irrefl_ℤ a = ground arith

pub lt_trans_ℤ : (a b c : ℤ) → ltb_ℤ a b ≡ true → ltb_ℤ b c ≡ true → ltb_ℤ a c ≡ true
lt_trans_ℤ a b c h k = ground arith

pub lt-scaled : (m n k : ℕ) → k ≤ 4 → ltb_ℤ (scaled m k) (scaled n k) ≡ ltb m n
lt-scaled m n zero h = ground arith
lt-scaled m n (suc zero) h = ground arith
lt-scaled m n (suc (suc zero)) h = ground arith
lt-scaled m n (suc (suc (suc zero))) h = ground arith
lt-scaled m n (suc (suc (suc (suc zero)))) h = ground arith
lt-scaled m n (suc (suc (suc (suc (suc k))))) h = absurd (omega (arith, h))

abbrev pub le_ℤ : ℤ → ℤ → Bool
le_ℤ a b = leb (pos_part a + neg_part b) (pos_part b + neg_part a)

pub le-scaled : (m n k : ℕ) → k ≤ 4 → le_ℤ (scaled m k) (scaled n k) ≡ leb m n
le-scaled m n zero h = ground arith
le-scaled m n (suc zero) h = ground arith
le-scaled m n (suc (suc zero)) h = ground arith
le-scaled m n (suc (suc (suc zero))) h = ground arith
le-scaled m n (suc (suc (suc (suc zero)))) h = ground arith
le-scaled m n (suc (suc (suc (suc (suc k))))) h = absurd (omega (arith, h))

pub lt-sub_ℤ : (a b : ℤ) (n : ℕ) → ltb_ℤ a b ≡ false → ltb_ℤ a (b -ℤ pos n) ≡ false
lt-sub_ℤ a b n h = ground (arith, -ℤ_parts b (pos n))

pub sub-lt_ℤ :
    (a : ℤ) (n m : ℕ) → le_ℤ (pos n) a ≡ true → m ≡ 0 → ltb_ℤ (a -ℤ pos n) (pos m) ≡ false
sub-lt_ℤ a n m h e = ground (arith, -ℤ_parts a (pos n))

pub lt-neg_scaled : (m n k : ℕ) → k ≤ 4 → ltb_ℤ (pos 0 -ℤ scaled m k) (scaled n k) ≡ ltb 0 (m + n)
lt-neg_scaled m n zero h = ground (arith, -ℤ_parts (pos 0) (scaled m zero))
lt-neg_scaled m n (suc zero) h = ground (arith, -ℤ_parts (pos 0) (scaled m (suc zero)))
lt-neg_scaled m n (suc (suc zero)) h = ground (arith, -ℤ_parts (pos 0) (scaled m (suc (suc zero))))
lt-neg_scaled m n (suc (suc (suc zero))) h =
    ground (arith, -ℤ_parts (pos 0) (scaled m (suc (suc (suc zero)))))
lt-neg_scaled m n (suc (suc (suc (suc zero)))) h =
    ground (arith, -ℤ_parts (pos 0) (scaled m (suc (suc (suc (suc zero))))))
lt-neg_scaled m n (suc (suc (suc (suc (suc k))))) h = absurd (omega (arith, h))

pub lt-of_le_ℤ : (a b : ℤ) → le_ℤ a b ≡ true → ltb_ℤ b a ≡ false
lt-of_le_ℤ a b h = ground arith

-- A stand-in that is never below zero.
abbrev pub exp_ℤ : ℤ → ℤ
exp_ℤ a = pos 5000

pub times-exp : (a b : ℤ) → ltb_ℤ a (pos 0) ≡ false → ltb_ℤ (times a (exp_ℤ b)) (pos 0) ≡ false
times-exp (pos a) b h = ground arith
times-exp (negsuc a) b h = ground arith

abbrev pub fixed : Float64
fixed = record {
  F = ℤ;
  lit = scaled;
  neg = λ a. pos 0 -ℤ a;
  add = ◌+ℤ◌;
  sub = ◌-ℤ◌;
  mul = times;
  div = λ a b. pos (pos_part a * 10000 / pos_part b);
  sqrt = λ a. a;
  exp = exp_ℤ;
  max_float = pos (10 ^ 20);
  lt = ltb_ℤ;
  le = le_ℤ;
  lt_irrefl = lt_irrefl_ℤ;
  lt_trans = lt_trans_ℤ;
  lt-lit = lt-scaled;
  le-lit = le-scaled;
  lt-of_le = lt-of_le_ℤ;
  lt-sub_lit = λ a b n k h. lt-sub_ℤ a b (n * 10 ^ (4 - k)) h;
  sub_lit-lt = λ a n k h. sub-lt_ℤ a (n * 10 ^ (4 - k)) (0 * 10 ^ (4 - k)) h (omega arith);
  lt-neg_lit = lt-neg_scaled;
  mul_exp-lt = times-exp;
}
