-- ===== src/HashContainer/Bits.antt =====
-- include/stdromano/bits.hpp: the power of two that sizes a table, and the neighbours of it there.
use Prim.Native.Nat.{bit_and, bit_and-bitwise, digits, min}
use native.Mathlib.Nat.{mul_assoc}
use stdromano.Prelude.{
  ℕ, zero, suc, ◌+◌, ◌-◌, ◌*◌, ◌/◌, ◌%◌, ◌^◌, ◌==◌, leb, if◌then◌else◌, ◌≤◌, ◌<◌, ◌≡◌, ◌∙◌, arith,
  Bool-cases, inl, inr,
}

-- `while(n >>= 1) power <<= 1`, for 64 rounds at most
unfoldable pub bit_ceil_loop : ℕ → ℕ → ℕ → ℕ
bit_ceil_loop zero n power = power
bit_ceil_loop (suc fuel) n power =
    let rest = bit_ceil_loop fuel (n / 2) (power * 2 % 2 ^ 64) in if n / 2 == 0 then power else rest

unfoldable pub bit_ceil : ℕ → ℕ
unfolding bit_ceil_loop
bit_ceil n = if leb n 1 then 1 else bit_ceil_loop 64 (n - 1) 2

-- a mask bounds what it lets through
and_digits-bound : (n a b : ℕ) → digits (λ b. zero) min n a b ≤ b
and_digits-bound zero a b = omega arith
and_digits-bound (suc n) zero b = omega arith
and_digits-bound (suc n) (suc a) b = omega (arith, and_digits-bound n (suc a / 2) (b / 2))

pub bit_and-bound : (a b : ℕ) → bit_and a b ≤ b
bit_and-bound a b = omega (arith, bit_and-bitwise a b, and_digits-bound a a b)

-- doubling and halving keep the product within a factor of two
bit_ceil_loop-bounds :
    (fuel n power : ℕ)
    → 0 < n
    → n < 2 ^ fuel
    → power * n < 2 ^ 64
    → (bit_ceil_loop fuel n power ≤ power * n) × (power * (n + 1) ≤ 2 * bit_ceil_loop fuel n power)
unfolding bit_ceil_loop
bit_ceil_loop-bounds zero n power pos small fits = absurd (omega arith)
bit_ceil_loop-bounds (suc fuel) n power pos small fits = elim (Bool-cases (n / 2 == 0)) [
  | inl last ↦
      let single : n ≡ 1 = ground arith in rw (last, bit_ceil_loop) (rw single (omega arith))
  | inr more ↦
      let many : 0 < n / 2 = ground arith in
      let half : n / 2 * 2 ≤ n = omega arith in
      let scaled : power * (n / 2 * 2) ≤ power * n = grind arith in
      let least : power * 2 ≤ power * (n / 2 * 2) = grind arith in
      let fitting : power * 2 % 2 ^ 64 ≡ power * 2 = omega arith in
      let ih = bit_ceil_loop-bounds fuel (n / 2) (power * 2) many (omega arith) (grind arith) in
      let above : power * (n + 1) ≤ power * ((n / 2 + 1) * 2) = grind arith in
      rw (more, fitting, bit_ceil_loop) (grind (arith, ih.0), grind (arith, ih.1))
]

power_step : (power k : ℕ) → power * 2 * 2 ^ k ≡ power * 2 ^ suc k
power_step power k =
    let double : 2 ^ suc k ≡ 2 * 2 ^ k = omega arith in rw double (mul_assoc power 2 (2 ^ k))

bit_ceil_loop-power :
    (fuel n power : ℕ)
    → 0 < n
    → n < 2 ^ fuel
    → power * n < 2 ^ 64
    → (k : ℕ) × (bit_ceil_loop fuel n power ≡ power * 2 ^ k)
unfolding bit_ceil_loop
bit_ceil_loop-power zero n power pos small fits = absurd (omega arith)
bit_ceil_loop-power (suc fuel) n power pos small fits = elim (Bool-cases (n / 2 == 0)) [
  | inl last ↦ (0, rw (last, bit_ceil_loop) (omega arith))
  | inr more ↦
      let many : 0 < n / 2 = ground arith in
      let half : n / 2 * 2 ≤ n = omega arith in
      let scaled : power * (n / 2 * 2) ≤ power * n = grind arith in
      let least : power * 2 ≤ power * (n / 2 * 2) = grind arith in
      let fitting : power * 2 % 2 ^ 64 ≡ power * 2 = omega arith in
      let (k, e) = bit_ceil_loop-power fuel (n / 2) (power * 2) many (omega arith) (grind arith) in
      (suc k, rw (more, fitting, bit_ceil_loop) (e ∙ power_step power k))
]

-- For a number of at least 1 and at most 2 ^ 63, `bit_ceil` is a power of two that is no less than
-- the number and less than twice the number.
pub bit_ceil-bounds :
    (n : ℕ)
    → 0 < n
    → n ≤ 2 ^ 63
    → (n ≤ bit_ceil n) × (bit_ceil n < 2 * n) × ((k : ℕ) × (bit_ceil n ≡ 2 ^ k))
unfolding bit_ceil
bit_ceil-bounds n pos fits = elim (Bool-cases (leb n 1)) [
  | inl low ↦
      let single : n ≡ 1 = ground arith in
      rw (low, bit_ceil) (omega arith, omega arith, (0, omega arith))
  | inr high ↦
      let many : 0 < n - 1 = ground arith in
      let bounds = bit_ceil_loop-bounds 64 (n - 1) 2 many (omega arith) (omega arith) in
      let (k, e) = bit_ceil_loop-power 64 (n - 1) 2 many (omega arith) (omega arith) in
      rw (high, bit_ceil)
        (omega (arith, bounds.1), omega (arith, bounds.0), (suc k, e ∙ omega arith))
]
