-- ===== src/Pool/Manager/State.antt =====
-- libpool/PoolManager.h and PoolClient.h: the state of the manager, with what it shares: the farm, the
-- URI objects behind shared pointers, and the calls that it has made.
use etcminer.Prelude.{ℕ, Bool, false, List, ◌∷◌, Option, some, none, Text, ◌==◌, if◌then◌else◌}
use etcminer.Prelude.Int.{ℤ}
use etcminer.Dev.Float.{Float}
use etcminer.Eth.Work.{WorkPackage, Solution}
use etcminer.Eth.Farm.State.{Farm}
use etcminer.Eth.Farm.Lifecycle.{Build}
use etcminer.Pool.Scheme.{ProtocolFamily}
use etcminer.Pool.Uri
use etcminer.Pool.Uri.{Uri}

-- A shared_ptr<URI>: the object's place in the store.
abbrev pub Address : Type 0
Address = ℕ

-- struct PoolSettings
pub record PoolSettings : Type 0 where
  pub connections : List Address
  pub get_work_poll_interval : ℕ
  pub no_work_timeout : ℕ
  pub no_response_timeout : ℕ
  pub pool_failover_timeout : ℕ
  pub report_hashrate : Bool
  pub hash_rate_interval : ℕ
  pub hash_rate_id : Text
  pub connection_max_retries : ℕ
  pub delay_before_retry : ℕ
  pub benchmark_block : ℕ

-- The part of a PoolClient that the manager sees: its class, m_conn and m_connected.
pub record Client : Type 0 where
  pub kind : ProtocolFamily
  pub conn : Option Address
  pub connected : Bool

-- What the manager asks of the clients and of the system.
pub data Call : Type 0 where
  connect disconnect : Call
  submit_solution : Solution → Call
  submit_hashrate : Float → Text → Call
  post_rotate_connect : Call
  raise_sigterm : Call

-- The members of class PoolManager, the farm, the store of URI objects and the calls, newest first.
-- A timer is what it was armed with, or `none` when it is cancelled or has run out.
pub record Manager : Type 0 where
  pub settings : PoolSettings
  pub running : Bool
  pub stopping : Bool
  pub async_pending : Bool
  pub connection_attempt : ℕ  -- unsigned
  pub selected_host : Text
  pub connection_switches : ℕ  -- unsigned
  pub active_connection_idx : ℕ  -- unsigned
  pub current_wp : WorkPackage
  pub failover_timer : Option ℕ
  pub submithr_timer : Option ℕ
  pub reconnect_timer : Option ℕ
  pub client : Option Client
  pub epoch_changes : ℕ  -- unsigned
  pub last_block : ℤ
  pub farm : Farm
  pub uris : Address → Uri
  pub calls : List Call

-- What the code around the manager supplies: the build, the clock, strtoull, the random number of
-- setWork and ethash::find_epoch_number.
pub record Env : Type 0 where
  pub build : Build
  pub now : ℕ
  pub strtoull : Text → ℕ
  pub random : ℕ
  pub epoch_of_seed : Text → ℤ

-- The exceptions that the operations throw, by their messages.
pub data PoolError : Type 0 where
  outstanding_operations out_of_bounds active_connection not_found : PoolError

-- An operation ends, throws with the state as it was, or meets undefined behaviour or an exception
-- that nothing catches.
pub data Outcome : Type 0 where
  ok : Manager → Outcome
  throws : PoolError → Outcome
  crash : Outcome

abbrev pub emit : Call → Manager → Manager
emit c p = record p { calls = c ∷ p.calls }

-- p_client && p_client->isConnected()
abbrev pub is_connected : Option Client → Bool
is_connected none = false
is_connected (some c) = c.connected

abbrev pub with_connections : List Address → Manager → Manager
with_connections cs p = record p { settings = (record (p.settings) { connections = cs }) }

-- A write to the object behind a shared pointer.
abbrev pub write_uri : Address → (Uri.Uri → Uri.Uri) → Manager → Manager
write_uri a g p = record p { uris = λ x. if x == a then g (p.uris a) else p.uris x }
