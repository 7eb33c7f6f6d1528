-- ===== src/Pool/Session.antt =====
-- struct Session of libpool/PoolClient.h. Time stamps are readings of the steady clock in milliseconds.
use etcminer.Prelude.{ℕ, ◌-◌, ◌/◌, Bool, false, [], ◌++◌, Text, replicate}
use etcminer.Dev.Float.{Float, zero_float}

pub record Session : Type 0 where
  pub start : ℕ
  pub subscribed : Bool
  pub authorized : Bool
  pub extra_nonce : ℕ  -- uint64_t
  pub extra_nonce_size_bytes : ℕ  -- unsigned
  pub next_work_boundary : Text
  pub next_work_difficulty : Float
  pub first_mining_set : Bool
  pub timeout : ℕ  -- unsigned
  pub session_id : Text
  pub worker_id : Text
  pub epoch : ℕ  -- unsigned
  pub last_tx_stamp : ℕ

-- h256("0x00000000ffff0000...")
abbrev pub first_boundary : Text
first_boundary = replicate 4 0 ++ replicate 2 255 ++ replicate 26 0

unfoldable pub new_session : ℕ → Session
new_session now = record {
  start = now;
  subscribed = false;
  authorized = false;
  extra_nonce = 0;
  extra_nonce_size_bytes = 0;
  next_work_boundary = first_boundary;
  next_work_difficulty = zero_float;
  first_mining_set = false;
  timeout = 30;
  session_id = [];
  worker_id = [];
  epoch = 0;
  last_tx_stamp = now;
}

-- duration(), in minutes; the steady clock does not run back.
unfoldable pub duration : ℕ → Session → ℕ
duration now s = (now - s.start) / 60000
