-- ===== src/Dev/Float.antt =====
-- Floating point values of the source (hash rates, power, difficulty), each as the expression that
-- computes it. No value of such an expression is assumed, so rounding plays no part.
use etcminer.Prelude.{ℕ, Text}

pub data Float : Type 0 where
  -- 0.0f
  zero_float : Float
  -- A double read from a message.
  literal : ℕ → Float
  -- float(count * 1e6) / us
  rate : ℕ → ℕ → Float
  -- a + b
  plus : Float → Float → Float
  -- milliwatts / 1000.0
  per_thousand : ℕ → Float
  -- getHashesToTarget(target)
  hashes_to_target : Text → Float
  -- max(a, 0.0001)
  at_least_ten_thousandth : Float → Float
