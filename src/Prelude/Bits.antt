-- ===== src/Prelude/Bits.antt =====
-- The operators ^ and | on numbers of a given count of bits, bit by bit.
use Prim.Native.Nat.{ℕ, zero, suc, ◌+◌, ◌*◌, ◌/◌, ◌%◌, ◌^◌, ◌<◌}
use mathlib.Core.Path.{◌≡◌, refl}
use native.Mathlib.Nat.{pow-suc}
use native.Mathlib.Omega.{arith}
use etcminer.Prelude.Tests.{ltb, if◌then◌else◌}

abbrev xor_bit : ℕ → ℕ → ℕ
xor_bit a b = (a + b) % 2

abbrev or_bit : ℕ → ℕ → ℕ
or_bit a b = if ltb 0 (a + b) then 1 else 0

unfoldable pub xor : ℕ → ℕ → ℕ → ℕ
xor zero a b = 0
xor (suc bits) a b = xor_bit (a % 2) (b % 2) + 2 * xor bits (a / 2) (b / 2)

unfoldable pub or : ℕ → ℕ → ℕ → ℕ
or zero a b = 0
or (suc bits) a b = or_bit (a % 2) (b % 2) + 2 * or bits (a / 2) (b / 2)

pub xor-lt : (bits a b : ℕ) → xor bits a b < 2 ^ bits
unfolding xor
xor-lt zero a b = omega arith
xor-lt (suc bits) a b = ground (arith, xor-lt bits (a / 2) (b / 2), pow-suc 2 bits)

pub or-lt : (bits a b : ℕ) → or bits a b < 2 ^ bits
unfolding or
or-lt zero a b = omega arith
or-lt (suc bits) a b = ground (arith, or-lt bits (a / 2) (b / 2), pow-suc 2 bits)

pub xor-same : (bits a : ℕ) → xor bits a a ≡ 0
unfolding xor
xor-same zero a = refl
xor-same (suc bits) a = omega (arith, xor-same bits (a / 2))

-- Two numbers whose difference is 0 are equal.
pub xor-zero : (bits a b : ℕ) → a < 2 ^ bits → b < 2 ^ bits → xor bits a b ≡ 0 → a ≡ b
unfolding xor
xor-zero zero a b ha hb e = omega arith
xor-zero (suc bits) a b ha hb e =
    let half =
      xor-zero bits (a / 2) (b / 2) (omega (arith, pow-suc 2 bits)) (omega (arith, pow-suc 2 bits))
        (omega arith) in
    omega arith

pub or-zero_left : (bits a b : ℕ) → a < 2 ^ bits → or bits a b ≡ 0 → a ≡ 0
unfolding or
or-zero_left zero a b ha e = omega arith
or-zero_left (suc bits) a b ha e =
    let half = or-zero_left bits (a / 2) (b / 2) (omega (arith, pow-suc 2 bits)) (ground arith) in
    ground arith

pub or-zero_right : (bits a b : ℕ) → b < 2 ^ bits → or bits a b ≡ 0 → b ≡ 0
unfolding or
or-zero_right zero a b hb e = omega arith
or-zero_right (suc bits) a b hb e =
    let half = or-zero_right bits (a / 2) (b / 2) (omega (arith, pow-suc 2 bits)) (ground arith) in
    ground arith

pub or-none : (bits : ℕ) → or bits 0 0 ≡ 0
unfolding or
or-none zero = refl
or-none (suc bits) = omega (arith, or-none bits)
