-- ===== src/Examples/Fixtures.antt =====
-- The states that the examples share: a farm of three miners and a manager of two pools.
use etcminer.Prelude.{ℕ, true, false, List, [], ◌∷◌, some, none, Text, codes, replicate}
use etcminer.Prelude.Int.{pos, negsuc}
use etcminer.Dev.Float.{zero_float}
use etcminer.Dev.Worker.{started}
use etcminer.Eth.Work.{WorkPackage, no_work}
use etcminer.Eth.Miner.{Miner}
use etcminer.Eth.Miner.Flags.{no_flags}
use etcminer.Eth.Miner.Device.{no_monitor, TelemetryAccount, new_account}
use etcminer.Eth.Farm.State.{Farm, FarmSettings}
use etcminer.Eth.Farm.Lifecycle.{Build}
use etcminer.Pool.Uri
use etcminer.Pool.Scheme.{stratum}
use etcminer.Pool.Manager.State.{PoolSettings, Client, Manager, Env, Address}

abbrev pub a_miner : ℕ → Miner
a_miner i = record {
  index = i;
  worker = record { has_thread = true; state = started };
  hwmoninfo = no_monitor;
  pause_flags = no_flags;
  work = no_work;
  hung_miner = false;
  initialized = true;
  hash_time = 0;
  hash_rate = zero_float;
  hash_rate_update = false;
  group_count = 0;
  kicks = 0;
}

abbrev pub an_account : TelemetryAccount
an_account = new_account (codes "cu") 0

abbrev pub plain_settings : Text → FarmSettings
plain_settings nonce = record {
  hw_mon = 0;
  temp_start = 40;
  temp_stop = 80;
  nonce = nonce;
  cu_block_size = 0;
  cu_streams = 0;
  cl_group_size = 0;
  cl_split = false;
}

-- Three miners, with a start nonce of the user or none.
abbrev pub three_miners : Text → Farm
three_miners nonce = record {
  settings = plain_settings nonce;
  is_paused = false;
  is_mining = true;
  miners = a_miner 0 ∷ a_miner 1 ∷ a_miner 2 ∷ [];
  current_wp = no_work;
  telemetry = (record {
    hwmon = false;
    farm = an_account;
    miners = an_account ∷ an_account ∷ an_account ∷ [];
  });
  devices = [];
  nvml = none;
  sysfs = none;
}

abbrev pub idle_farm : Farm
idle_farm = record (three_miners []) {
  is_mining = false;
  miners = [];
  telemetry = (record { hwmon = false; farm = an_account; miners = [] });
}

-- A job with an extra nonce of two digits, 0xab, in front of its start nonce.
abbrev pub a_job : WorkPackage
a_job = record no_work {
  header = replicate 32 7;
  boundary = replicate 32 255;
  epoch = pos 400;
  start_nonce = 12321848580485677056;
  ex_size_bytes = 2;
}

abbrev pub a_uri : Text → Uri.Uri
a_uri host = record {
  scheme = codes "stratum1+tcp";
  authority = host;
  userinfo = [];
  urlinfo = host;
  hostinfo = host;
  pathinfo = [];
  host = host;
  path = [];
  query = [];
  fragment = [];
  user = [];
  password = codes "X";
  worker = [];
  uri = host;
  stratum_mode = 999;
  port = 4444;
  stratum_mode_confirmed = false;
  unrecoverable = false;
  responds = false;
  host_type = Uri.dns;
  is_loop_back = false;
  total_duration = 0;
}

abbrev pub a_build : Build
a_build = record { with_cuda = true; with_cl = true }

abbrev pub an_env : Env
an_env = record {
  build = a_build;
  now = 0;
  strtoull = λ t. 0xab;
  random = 0;
  epoch_of_seed = λ t. negsuc 0;
}

abbrev pub a_client : Client
a_client = record { kind = stratum; conn = some 0; connected = true }

abbrev pub pool_settings : List Address → PoolSettings
pool_settings cs = record {
  connections = cs;
  get_work_poll_interval = 500;
  no_work_timeout = 180;
  no_response_timeout = 2;
  pool_failover_timeout = 0;
  report_hashrate = false;
  hash_rate_interval = 60;
  hash_rate_id = [];
  connection_max_retries = 3;
  delay_before_retry = 0;
  benchmark_block = 0;
}

-- A manager of the connections `cs`, with a client.
abbrev pub a_manager : List Address → Client → Manager
a_manager cs c = record {
  settings = pool_settings cs;
  running = true;
  stopping = false;
  async_pending = false;
  connection_attempt = 0;
  selected_host = [];
  connection_switches = 0;
  active_connection_idx = 0;
  current_wp = no_work;
  failover_timer = none;
  submithr_timer = none;
  reconnect_timer = none;
  client = some c;
  epoch_changes = 0;
  last_block = negsuc 0;
  farm = three_miners [];
  uris = λ a. a_uri (codes "pool.example");
  calls = [];
}
