-- ===== src/Cli/Settings.antt =====
-- MinerCLI::validateArgs of etcminer/main.cpp: the settings of the farm and the pool manager.
pub mod Valid
use etcminer.Prelude.{
  ℕ, ◌+◌, leb, ltb, ◌==◌, Bool, true, false, not, ◌&&◌, ◌||◌, List, [], ◌∷◌, ◌++◌, Option, some,
  none, Text, codes, text_eq, if◌then◌else◌, is_empty, length,
}
use etcminer.Prelude.Int.{ℤ, pos}
use etcminer.Eth.Farm.State.{FarmSettings}
use etcminer.Pool.Uri.{Uri}
use etcminer.Pool.Manager.State.{PoolSettings}
use etcminer.Cli.Options.{Options, notify, parse_bind}

-- enum class MinerType
pub data MinerType : Type 0 where
  mixed cl cuda : MinerType

-- enum class OperationMode
pub data OperationMode : Type 0 where
  no_mode simulation mining : OperationMode

-- The members of class MinerCLI and the globals that validateArgs writes. `uris` are the objects behind
-- the connections of the pool manager, each at its address.
pub record MinerCli : Type 0 where
  pub miner_type : MinerType
  pub mode : OperationMode
  pub should_list_devices : Bool
  pub farm_settings : FarmSettings
  pub pool_settings : PoolSettings
  pub uris : List Uri
  pub cli_display_interval : ℕ
  pub devices : List ℕ
  pub bench : Bool
  pub api_bind : Text
  pub api_address : Text
  pub api_port : ℤ
  pub api_password : Text
  pub log_options : ℕ
  pub no_color : Bool
  pub log_syslog : Bool
  pub exit_on_error : Bool
  pub seq_dag : Bool

-- The reading of an IP address and of a number, the construction of a URI, which may throw and whose flag
-- allows the scheme of a simulation, and a random hash in hexadecimal.
pub record Library : Type 0 where
  pub address : Text → Option Text
  pub stoi : Text → Option ℤ
  pub make_uri : Text → Bool → Option Uri
  pub random_hash : Text

-- validateArgs returns true, or false after some output, or throws; `options_error` is an error of
-- boost::program_options.
pub data Validated : Type 0 where
  accepted : MinerCli → Validated
  refused options_error invalid_argument runtime_error : Validated

-- What boost makes of the command line and of the file that it names: an error, or the options, with or
-- without parameters that are not known.
pub data Parsed : Type 0 where
  unreadable : Parsed
  with_unknown known : Options → Parsed

-- How the block ends that reads the options.
pub data Attempt : Type 0 where
  throws returns_false : Attempt
  goes_on : Options → Attempt

-- The branches test for one flag before they test for both.
unfoldable pub miner_type_of : Options → MinerType
miner_type_of o =
    if o.opencl
    then cl
    else (if o.cuda then cuda else (if o.opencl && o.cuda then mixed else mixed))

-- The block to simulate: that of --benchmark if both options are given.
unfoldable pub benchmark_block : Options → Option ℕ
benchmark_block o = elim o.benchmark [ none ↦ o.simulate | some b ↦ some b ]

-- One connection more: a new object, at a new address.
unfoldable pub push_uri : Uri → MinerCli → MinerCli
push_uri u c = record c {
  uris = c.uris ++ u ∷ [];
  pool_settings = (record (c.pool_settings) {
    connections = c.pool_settings.connections ++ length c.uris ∷ [];
  });
}

-- The loop over the pools that are left; `first` is i == 0.
unfoldable pub add_pools : Library → Bool → List Text → MinerCli → Validated
add_pools lib first [] c = accepted c
add_pools lib first (url ∷ urls) c =
    if text_eq url (codes "exit") && first
    then invalid_argument
    else elim (lib.make_uri
        (if text_eq url (codes "exit") then codes "stratum+tcp://-:x@exit:0" else url) false) [
          | none ↦ runtime_error
          | some u ↦ add_pools lib false urls (push_uri u c)
        ]

-- A mining program has at least one pool.
unfoldable pub require_pools : Library → List Text → MinerCli → Validated
require_pools lib urls c = if is_empty urls then invalid_argument else add_pools lib true urls c

-- The temperatures: a limit needs the monitor, and has to be above the one to start again.
unfoldable pub check_temperatures : MinerCli → Validated
check_temperatures c =
    if c.farm_settings.temp_stop == 0
    then accepted c
    else (if leb c.farm_settings.temp_stop c.farm_settings.temp_start
        then invalid_argument
        else accepted (record c {
          farm_settings = (record (c.farm_settings) {
            hw_mon = (if ltb c.farm_settings.hw_mon 1 then 1 else c.farm_settings.hw_mon);
          });
        }))

unfoldable pub and_then : Validated → (MinerCli → Validated) → Validated
and_then (accepted c) f = f c
and_then refused f = refused
and_then options_error f = options_error
and_then invalid_argument f = invalid_argument
and_then runtime_error f = runtime_error

-- The pools, according to the mode.
unfoldable pub choose_pools : Library → Options → MinerCli → Validated
choose_pools lib o c =
    if c.bench
    then elim (lib.make_uri (codes "simulation://localhost:0") true) [
      | none ↦ runtime_error
      | some u ↦ accepted (push_uri u (record c { mode = simulation }))
    ]
    else (let d = record c { mode = mining } in
        if d.should_list_devices then accepted d else require_pools lib o.pool d)

-- The members as the options give them.
unfoldable pub read_options : Library → Options → MinerCli
read_options lib o = record {
  miner_type = miner_type_of o;
  mode = no_mode;
  should_list_devices = o.list_devices;
  farm_settings = (record {
    hw_mon = o.hwmon;
    temp_start = o.tstart;
    temp_stop = o.tstop;
    nonce = o.nonce;
    cu_block_size = o.cu_block;
    cu_streams = o.cu_streams;
    cl_group_size = o.cl_work;
    cl_split = o.cl_split;
  });
  pool_settings = (record {
    connections = [];
    get_work_poll_interval = o.getwork_recheck;
    no_work_timeout = o.work_timeout;
    no_response_timeout = o.response_timeout;
    pool_failover_timeout = o.failover_timeout;
    report_hashrate = o.report_hashrate;
    hash_rate_interval = 60;
    hash_rate_id = lib.random_hash;
    connection_max_retries = o.retry_max;
    delay_before_retry = o.retry_delay;
    benchmark_block = elim (benchmark_block o) [ none ↦ 0 | some b ↦ b ];
  });
  uris = [];
  cli_display_interval = o.display_interval;
  devices = o.devices;
  bench = elim (benchmark_block o) [ none ↦ false | some b ↦ true ];
  api_bind = o.api_bind;
  api_address = codes "0.0.0.0";
  api_port = o.api_port;
  api_password = o.api_password;
  log_options = o.verbosity;
  no_color = o.nocolor;
  log_syslog = o.syslog;
  exit_on_error = o.exit;
  seq_dag = o.seq;
}

-- --api-bind overrides the address and the port; an invalid one is refused.
unfoldable pub bind_api : Library → MinerCli → Validated
bind_api lib c =
    if is_empty c.api_bind
    then accepted c
    else elim (parse_bind lib.address lib.stoi c.api_bind true) [
      | none ↦ refused
      | some (a, p) ↦ accepted (record c { api_address = a; api_port = p })
    ]

-- --help, --version or --help-module: they write something, and the program does not go on.
unfoldable pub only_informs : Options → Bool
only_informs o = (o.help || o.version) || elim o.help_module [ none ↦ false | some m ↦ true ]

-- The block: store, then notify, which calls the checks, then the test for unknown parameters.
unfoldable pub try_read : Parsed → Attempt
try_read unreadable = throws
try_read (with_unknown o) = if notify o then returns_false else throws
try_read (known o) = if notify o then goes_on o else throws

-- What follows the block.
unfoldable pub settle : Library → Options → Validated
unfolding only_informs read_options bind_api choose_pools check_temperatures and_then
settle lib o =
    if only_informs o
    then refused
    else and_then (bind_api lib (read_options lib o))
        (λ c. and_then (choose_pools lib o c) (λ d. check_temperatures d))

-- The handler around the block, and the rest.
unfoldable pub after_read : Library → Attempt → Validated
unfolding settle
after_read lib throws = refused
after_read lib returns_false = refused
after_read lib (goes_on o) = settle lib o

unfoldable pub validate_args : Library → Parsed → Validated
unfolding after_read try_read
validate_args lib parsed = after_read lib (try_read parsed)
