-- ===== src/Prelude/Bits.antt =====
-- `x & (2 ^ k - 1)` is `x % 2 ^ k`, for every width.
use Prim.Native.Nat.{
  ℕ, zero, suc, ◌+◌, ◌-◌, ◌*◌, ◌/◌, ◌%◌, ◌^◌, ◌≤◌, ◌<◌, min, bit_and, digits, bit_and-bitwise,
}
use mathlib.Core.Path.{◌≡◌, refl, sym, ap, ◌∙◌}
use native.Mathlib.Nat.{pow-suc, div-add-mod, mul-add-mod_self_left, mod-eq_of_lt, mod-lt}
use native.Mathlib.Omega.{arith}

abbrev meet : ℕ → ℕ → ℕ → ℕ
meet fuel a b = digits (λ _. zero) min fuel a b

meet_fuel : (j k a b : ℕ) → a ≤ j → a ≤ k → meet j a b ≡ meet k a b
meet_fuel zero zero a b hj hk = refl
meet_fuel zero (suc k) zero b hj hk = refl
meet_fuel (suc j) zero zero b hj hk = refl
meet_fuel (suc j) (suc k) zero b hj hk = refl
meet_fuel zero _ (suc a) b hj hk = absurd (omega arith)
meet_fuel (suc j) zero (suc a) b hj hk = absurd (omega arith)
meet_fuel (suc j) (suc k) (suc a) b hj hk =
    omega (arith, meet_fuel j k (suc a / 2) (b / 2) (omega arith) (omega arith))

pub bit_and_low : (a b : ℕ) → bit_and a b ≡ bit_and (a / 2) (b / 2) * 2 + min (a % 2) (b % 2)
bit_and_low zero b = omega (arith, bit_and-bitwise 0 b, bit_and-bitwise 0 (b / 2))
bit_and_low (suc a) b = omega (
  arith,
  bit_and-bitwise (suc a) b,
  bit_and-bitwise (suc a / 2) (b / 2),
  meet_fuel a (suc a / 2) (suc a / 2) (b / 2) (omega arith) (omega arith),
)

bit_and-zero_le : (n a : ℕ) → a ≤ n → bit_and a 0 ≡ 0
bit_and-zero_le n zero h = bit_and-bitwise 0 0
bit_and-zero_le zero (suc a) h = absurd (omega arith)
bit_and-zero_le (suc n) (suc a) h =
    omega (arith, bit_and_low (suc a) 0, bit_and-zero_le n (suc a / 2) (omega arith))

pub two_pow_pos : (k : ℕ) → 0 < 2 ^ k
two_pow_pos zero = omega arith
two_pow_pos (suc k) = omega (arith, pow-suc 2 k, two_pow_pos k)

-- The remainder by `2 * m` from the quotient by 2.
mod_double : (a m : ℕ) → 0 < m → a / 2 % m * 2 + a % 2 ≡ a % (2 * m)
mod_double a m h = sym (rest ∙ mod-eq_of_lt fits)
  where
    half : ℕ
    half = a / 2 / m

    small : a / 2 % m < m
    small = mod-lt (a / 2) h

    fits : a / 2 % m * 2 + a % 2 < 2 * m
    fits = omega arith

    split : 2 * m * (a / 2 / m) + (a / 2 % m * 2 + a % 2) ≡ a
    split = omega (arith, div-add-mod (a / 2) m)

    rest : a % (2 * m) ≡ (a / 2 % m * 2 + a % 2) % (2 * m)
    rest =
        ap (λ t. t % (2 * m)) (sym split)
        ∙ mul-add-mod_self_left (2 * m) half (a / 2 % m * 2 + a % 2)

pub bit_and_mask : (k a : ℕ) → bit_and a (2 ^ k - 1) ≡ a % 2 ^ k
bit_and_mask zero a = omega (arith, bit_and-zero_le a a (omega arith))
bit_and_mask (suc k) a = omega (
  arith,
  pow-suc 2 k,
  two_pow_pos k,
  bit_and_low a (2 ^ suc k - 1),
  ap (bit_and (a / 2)) (halved k),
  bit_and_mask k (a / 2),
  mod_double a (2 ^ k) (two_pow_pos k),
  ap (λ t. a % t) (doubled k),
)
  where
    doubled : (k : ℕ) → 2 ^ suc k ≡ 2 * 2 ^ k
    doubled k = omega (arith, pow-suc 2 k)

    halved : (k : ℕ) → (2 ^ suc k - 1) / 2 ≡ 2 ^ k - 1
    halved k = omega (arith, pow-suc 2 k, two_pow_pos k)
