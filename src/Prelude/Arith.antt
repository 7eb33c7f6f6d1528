-- ===== src/Prelude/Arith.antt =====
-- Division by a variable, for numbers given as a multiple and a rest.
use Prim.Native.Nat.{ℕ, suc, ◌+◌, ◌*◌, ◌/◌, ◌%◌, ◌<◌}
use native.Mathlib.Nat.{le-div_iff_mul-le, div-lt_iff_lt-mul, div-add-mod}
use mathlib.Core.Path.{◌≡◌, ap}
use native.Mathlib.Omega.{arith}

pub div-block : (e P r : ℕ) → r < P → (e * P + r) / P ≡ e
div-block e P r h = omega (
  arith,
  (le-div_iff_mul-le {k = P} {x = e} {y = e * P + r} (omega arith)).1 (omega arith),
  (div-lt_iff_lt-mul {k = P} {x = e * P + r} {y = suc e} (omega arith)).1 (omega arith),
)

pub mod-block : (e P r : ℕ) → r < P → (e * P + r) % P ≡ r
mod-block e P r h =
    omega (arith, div-add-mod (e * P + r) P, ap (λ (t : ℕ). P * t) (div-block e P r h))

-- Counting on by one, within a block of `r` and to the next one.
pub count_within : (r k : ℕ) → k % r + 1 < r → (suc k / r ≡ k / r) × (suc k % r ≡ k % r + 1)
count_within r k h =
    let split : suc k ≡ k / r * r + (k % r + 1) = omega (arith, div-add-mod k r) in
    rw split (div-block (k / r) r (k % r + 1) h, mod-block (k / r) r (k % r + 1) h)

pub count_over : (r k : ℕ) → 0 < r → k % r + 1 ≡ r → (suc k / r ≡ k / r + 1) × (suc k % r ≡ 0)
count_over r k pos e =
    let split : suc k ≡ (k / r + 1) * r + 0 = omega (arith, div-add-mod k r, e) in
    rw split (div-block (k / r + 1) r 0 pos, mod-block (k / r + 1) r 0 pos)
