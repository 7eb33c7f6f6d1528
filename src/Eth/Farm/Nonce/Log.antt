-- ===== src/Eth/Farm/Nonce/Log.antt =====
-- Powers of two, and the logarithm that setWork takes of the number of miners.
use native.Mathlib.Nat.{pow-suc, suc-add, zero-add}
use etcminer.Prelude.{ℕ, zero, suc, ◌+◌, ◌*◌, ◌^◌, ◌≤◌, ◌<◌, ◌≡◌, ap, arith}
use etcminer.Eth.Farm.Nonce.{ceil_log2_from, ceil_log2}

pub pow-add_two : (a b : ℕ) → 2 ^ (a + b) ≡ 2 ^ a * 2 ^ b
pow-add_two zero b = rw zero-add (omega arith)
pow-add_two (suc a) b = omega (
  arith,
  ap (λ (n : ℕ). 2 ^ n) (suc-add a b),
  pow-suc 2 (a + b),
  ap (λ (t : ℕ). t * 2 ^ b) (pow-suc 2 a),
  pow-add_two a b,
)

pub lt-pow : (a : ℕ) → a < 2 ^ a
lt-pow zero = omega arith
lt-pow (suc a) = omega (arith, pow-suc 2 a, lt-pow a)

-- The rounds that are left bound what is missing to 2 ^ k.
ceil_log2_from-le : (fuel k n : ℕ) → n ≤ fuel + 2 ^ k → n ≤ 2 ^ ceil_log2_from fuel k n
unfolding ceil_log2_from
ceil_log2_from-le zero k n h = omega arith
ceil_log2_from-le (suc fuel) k n h =
    let step : 2 ^ (k + 1) ≡ 2 ^ k * 2 = pow-add_two k 1 in
    ground (arith, step, lt-pow k, ceil_log2_from-le fuel (k + 1) n)

-- The miners fit into the segments.
pub le-pow-ceil_log2 : (n : ℕ) → n ≤ 2 ^ ceil_log2 n
unfolding ceil_log2
le-pow-ceil_log2 n = ceil_log2_from-le n 0 n (omega arith)

-- No smaller exponent would do.
ceil_log2_from-least : (fuel k n j : ℕ) → k ≤ j → n ≤ 2 ^ j → ceil_log2_from fuel k n ≤ j
unfolding ceil_log2_from
ceil_log2_from-least zero k n j h p = h
ceil_log2_from-least (suc fuel) k n j h p =
    let same : (e : j ≡ k) → n ≤ 2 ^ k = λ e. rw (← e) p in
    ground (arith, same, ceil_log2_from-least fuel (k + 1) n j)

pub ceil_log2-least : (n j : ℕ) → n ≤ 2 ^ j → ceil_log2 n ≤ j
unfolding ceil_log2
ceil_log2-least n j p = ceil_log2_from-least n 0 n j (omega arith) p
