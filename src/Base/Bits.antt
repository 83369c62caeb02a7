-- ===== src/Base/Bits.antt =====
-- The bits of a byte: reading, setting and clearing one, and a search over all values of a byte.
use Prim.Native.Nat.{ℕ, zero, suc, ◌-◌, ◌/◌, ◌%◌, ◌^◌, ◌<◌, bit_and, bit_or}
use mathlib.Core.Path.{◌≡◌, refl}
use mathlib.Core.Bool.{Bool, true, false, ◌&&◌}
use native.Mathlib.Omega.{arith}
use vsql_vector.Base.Tests.{◌==◌, ltb, ltb→lt, if◌then◌else◌}

-- `(b >> k) & 1`, as a truth value.
unfoldable pub bit_test : ℕ → ℕ → Bool
bit_test b k = (b / 2 ^ k) % 2 == 1

-- `b |= 1 << k` on a `uint8_t`.
unfoldable pub set_bit : ℕ → ℕ → ℕ
set_bit b k = bit_or b (2 ^ k)

-- `b &= ~(1 << k)` on a `uint8_t`.
unfoldable pub clear_bit : ℕ → ℕ → ℕ
clear_bit b k = bit_and b (255 - 2 ^ k)

-- A test that every number below a bound passes, decided by trying them.
unfoldable pub passes : (ℕ → Bool) → ℕ → Bool
passes test zero = true
passes test (suc bound) = if test bound then passes test bound else false

pub passes_sound :
    (test : ℕ → Bool) (bound b : ℕ) → b < bound → passes test bound ≡ true → test b ≡ true
unfolding passes
passes_sound test zero b below ok = absurd (omega arith)
passes_sound test (suc bound) b below ok = ground (arith, passes_sound test bound b)

infix 45 ◌eq_bool◌
abbrev ◌eq_bool◌ : Bool → Bool → Bool
true eq_bool b = b
false eq_bool true = false
false eq_bool false = true

eq_of_eq_bool : (a b : Bool) → (a eq_bool b) ≡ true → a ≡ b
eq_of_eq_bool true true h = refl
eq_of_eq_bool true false h = ground arith
eq_of_eq_bool false true h = ground arith
eq_of_eq_bool false false h = refl

-- A check of every byte against every two bit positions.
every_bit : (ℕ → ℕ → ℕ → Bool) → Bool
unfolding passes
every_bit p = passes (λ k. passes (λ j. passes (λ b. p b k j) 256) 8) 8

every_bit_sound :
    (p : ℕ → ℕ → ℕ → Bool) (b k j : ℕ)
    → every_bit p ≡ true
    → b < 256
    → k < 8
    → j < 8
    → p b k j ≡ true
unfolding every_bit
every_bit_sound p b k j h hb hk hj =
    let at_k = passes_sound (λ x. passes (λ y. passes (λ z. p z x y) 256) 8) 8 k hk h in
    let at_j = passes_sound (λ y. passes (λ z. p z k y) 256) 8 j hj at_k in
    passes_sound (λ z. p z k j) 256 b hb at_j

abbrev set_agrees : ℕ → ℕ → ℕ → Bool
set_agrees b k j =
    bit_test (set_bit b k) j eq_bool (if k == j then true else bit_test b j)
    && ltb (set_bit b k) 256

abbrev clear_agrees : ℕ → ℕ → ℕ → Bool
clear_agrees b k j =
    bit_test (clear_bit b k) j eq_bool (if k == j then false else bit_test b j)
    && ltb (clear_bit b k) 256

set_table : every_bit set_agrees ≡ true
unfolding every_bit bit_test set_bit
set_table = refl

clear_table : every_bit clear_agrees ≡ true
unfolding every_bit bit_test clear_bit
clear_table = refl

and_left : (a b : Bool) → (a && b) ≡ true → a ≡ true
and_left a b h = ground arith

and_right : (a b : Bool) → (a && b) ≡ true → b ≡ true
and_right a b h = ground arith

module _ (b k j : ℕ) (hb : b < 256) (hk : k < 8) (hj : j < 8) where
  pub bit_test-set_bit : bit_test (set_bit b k) j ≡ (if k == j then true else bit_test b j)
  bit_test-set_bit =
      eq_of_eq_bool _ _ (and_left _ _ (every_bit_sound set_agrees b k j set_table hb hk hj))

  pub bit_test-clear_bit : bit_test (clear_bit b k) j ≡ (if k == j then false else bit_test b j)
  bit_test-clear_bit =
      eq_of_eq_bool _ _ (and_left _ _ (every_bit_sound clear_agrees b k j clear_table hb hk hj))

module _ (b k : ℕ) (hb : b < 256) (hk : k < 8) where
  pub set_bit-lt : set_bit b k < 256
  set_bit-lt = ltb→lt _ _ (and_right _ _ (every_bit_sound set_agrees b k k set_table hb hk hk))

  pub clear_bit-lt : clear_bit b k < 256
  clear_bit-lt =
      ltb→lt _ _ (and_right _ _ (every_bit_sound clear_agrees b k k clear_table hb hk hk))
