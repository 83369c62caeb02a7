-- ===== src/Base/Words.antt =====
-- Masks and fields of a machine word: `bit_and` with a mask of ones is a remainder, and `bit_or` of
-- two fields that share no bit is their sum.
use Prim.Native.Nat.{
  ℕ, zero, suc, ◌+◌, ◌-◌, ◌*◌, ◌/◌, ◌%◌, ◌^◌, ◌≤◌, ◌<◌, min, max, bit_and, bit_or, digits,
  bit_and-bitwise, bit_or-bitwise,
}
use mathlib.Core.Path.{◌≡◌, refl, ap, ◌∙◌}
use native.Mathlib.Omega.{arith}
use native.Mathlib.Nat.{pow-suc}

-- The count of digits to go does not matter, once it is enough.
digits_enough :
    (z : ℕ → ℕ) (f : ℕ → ℕ → ℕ) (a b fuel more : ℕ)
    → a ≤ fuel
    → a ≤ more
    → digits z f fuel a b ≡ digits z f more a b
digits_enough z f zero b zero zero h h' = refl
digits_enough z f zero b zero (suc more) h h' = refl
digits_enough z f zero b (suc fuel) zero h h' = refl
digits_enough z f zero b (suc fuel) (suc more) h h' = refl
digits_enough z f (suc a) b zero more h h' = absurd (omega arith)
digits_enough z f (suc a) b (suc fuel) zero h h' = absurd (omega arith)
digits_enough z f (suc a) b (suc fuel) (suc more) h h' =
    ap (λ d. d * 2 + f (suc a % 2) (b % 2))
      (digits_enough z f (suc a / 2) (b / 2) fuel more (omega arith) (omega arith))

-- The lowest digit, for any of the operations.
digits_step :
    (z : ℕ → ℕ) (f : ℕ → ℕ → ℕ) (a b : ℕ)
    → digits z f (suc a) (suc a) b
      ≡ digits z f (suc a / 2) (suc a / 2) (b / 2) * 2 + f (suc a % 2) (b % 2)
digits_step z f a b =
    ap (λ d. d * 2 + f (suc a % 2) (b % 2))
      (digits_enough z f (suc a / 2) (b / 2) a (suc a / 2) (omega arith) (omega arith))

and_none : (n a : ℕ) → digits (λ b. zero) min n a 0 ≡ 0
and_none zero a = refl
and_none (suc n) zero = refl
and_none (suc n) (suc a) = omega (arith, and_none n (suc a / 2))

and_step : (a b : ℕ) → bit_and a b ≡ bit_and (a / 2) (b / 2) * 2 + min (a % 2) (b % 2)
and_step zero b = omega (arith, bit_and-bitwise 0 b, bit_and-bitwise 0 (b / 2))
and_step (suc a) b = omega (
  arith,
  bit_and-bitwise (suc a) b,
  bit_and-bitwise (suc a / 2) (b / 2),
  digits_step (λ b. zero) min a b,
)

or_step : (a b : ℕ) → bit_or a b ≡ bit_or (a / 2) (b / 2) * 2 + max (a % 2) (b % 2)
or_step zero b = omega (arith, bit_or-bitwise 0 b, bit_or-bitwise 0 (b / 2))
or_step (suc a) b = omega (
  arith,
  bit_or-bitwise (suc a) b,
  bit_or-bitwise (suc a / 2) (b / 2),
  digits_step (λ b. b) max a b,
)

pow_pos : (n : ℕ) → 0 < 2 ^ n
pow_pos zero = omega arith
pow_pos (suc n) = omega (arith, pow-suc 2 n, pow_pos n)

mod_double : (a p : ℕ) → 0 < p → a % (p * 2) ≡ a % 2 + 2 * (a / 2 % p)
mod_double a p h = grind arith

pub bit_and-mask : (n a : ℕ) → bit_and a (2 ^ n - 1) ≡ a % 2 ^ n
bit_and-mask zero a = omega (arith, bit_and-bitwise a 0, and_none a a)
bit_and-mask (suc n) a = omega (
  arith,
  and_step a (2 ^ suc n - 1),
  pow-suc 2 n,
  pow_pos n,
  bit_and-mask n (a / 2),
  ap (λ m. a % m) (pow-suc 2 n) ∙ mod_double a (2 ^ n) (pow_pos n),
  halves,
)
  where
    halves : bit_and (a / 2) ((2 ^ suc n - 1) / 2) ≡ bit_and (a / 2) (2 ^ n - 1)
    halves = ap (bit_and (a / 2)) (omega (arith, pow-suc 2 n, pow_pos n))

pub bit_or-field : (n a b : ℕ) → a < 2 ^ n → bit_or a (b * 2 ^ n) ≡ a + b * 2 ^ n
bit_or-field zero zero b h = omega (arith, bit_or-bitwise 0 (b * 1))
bit_or-field zero (suc a) b h = absurd (omega arith)
bit_or-field (suc n) a b h = omega (
  arith,
  or_step a (b * 2 ^ suc n),
  pow-suc 2 n,
  bit_or-field n (a / 2) b (omega (arith, pow-suc 2 n)),
  halves,
  even,
)
  where
    even : b * 2 ^ suc n ≡ (b * 2 ^ n) * 2
    even = omega (arith, ap (λ m. b * m) (pow-suc 2 n))

    halves : bit_or (a / 2) (b * 2 ^ suc n / 2) ≡ bit_or (a / 2) (b * 2 ^ n)
    halves = ap (bit_or (a / 2)) (omega (arith, even))
