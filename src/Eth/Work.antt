-- ===== src/Eth/Work.antt =====
-- libeth/EthashAux.h: a job for the miners, and a solution of one.
use etcminer.Prelude.{ℕ, Bool, not, [], Text, text_eq}
use etcminer.Prelude.Int.{ℤ, minus_one}
use etcminer.Dev.Float.{Float, zero_float}
use etcminer.Dev.FixedHash.{zero_hash}

-- struct WorkPackage
pub record WorkPackage : Type 0 where
  pub job : Text
  pub boundary : Text
  pub header : Text
  pub seed : Text
  pub epoch : ℤ
  pub block : ℤ
  pub start_nonce : ℕ  -- uint64_t
  pub ex_size_bytes : ℕ  -- uint16_t
  pub difficulty : Float

-- WorkPackage()
abbrev pub no_work : WorkPackage
no_work = record {
  job = [];
  boundary = zero_hash;
  header = zero_hash;
  seed = zero_hash;
  epoch = minus_one;
  block = minus_one;
  start_nonce = 0;
  ex_size_bytes = 0;
  difficulty = zero_float;
}

-- explicit operator bool: header != h256()
unfoldable pub has_work : WorkPackage → Bool
has_work w = not (text_eq w.header zero_hash)

-- struct Solution, less its time stamp
pub record Solution : Type 0 where
  pub nonce : ℕ
  pub mix_hash : Text
  pub work : WorkPackage
  pub midx : ℕ
