-- ===== src/Cli/Options.antt =====
-- The options of etcminer/main.cpp, and the checks that are called when they are stored.
use etcminer.Prelude.{
  ℕ, leb, ltb, ◌==◌, Bool, true, false, ◌&&◌, ◌||◌, List, [], ◌∷◌, ◌++◌, Option, some, none, Text,
  codes, text_eq, if◌then◌else◌,
}
use etcminer.Prelude.Int.{ℤ, pos, negsuc}
use etcminer.Pool.Host.{split_colon}

-- The values of the options once boost has read the command line and the file that it names: a flag is
-- whether it was given, an option without a default is none where it was not.
pub record Options : Type 0 where
  pub help : Bool
  pub version : Bool
  pub help_module : Option Text
  pub pool : List Text
  pub opencl : Bool
  pub cuda : Bool
  pub verbosity : ℕ
  pub getwork_recheck : ℕ
  pub retry_delay : ℕ
  pub retry_max : ℕ
  pub work_timeout : ℕ
  pub response_timeout : ℕ
  pub report_hashrate : Bool
  pub display_interval : ℕ
  pub hwmon : ℕ
  pub exit : Bool
  pub failover_timeout : ℕ
  pub nocolor : Bool
  pub syslog : Bool
  pub list_devices : Bool
  pub tstop : ℕ
  pub tstart : ℕ
  pub nonce : Text
  pub devices : List ℕ
  pub seq : Bool
  pub api_bind : Text
  pub api_port : ℤ
  pub api_password : Text
  pub cu_block : ℕ
  pub cu_streams : ℕ
  pub cl_work : ℕ
  pub cl_split : Bool
  pub benchmark : Option ℕ
  pub simulate : Option ℕ

-- The options without arguments: the defaults.
abbrev pub default_options : Options
default_options = record {
  help = false;
  version = false;
  help_module = none;
  pool = [];
  opencl = false;
  cuda = false;
  verbosity = 0;
  getwork_recheck = 500;
  retry_delay = 0;
  retry_max = 3;
  work_timeout = 180;
  response_timeout = 2;
  report_hashrate = false;
  display_interval = 5;
  hwmon = 0;
  exit = false;
  failover_timeout = 0;
  nocolor = false;
  syslog = false;
  list_devices = false;
  tstop = 0;
  tstart = 0;
  nonce = [];
  devices = [];
  seq = false;
  api_bind = [];
  api_port = pos 0;
  api_password = [];
  cu_block = 128;
  cu_streams = 2;
  cl_work = 128;
  cl_split = false;
  benchmark = none;
  simulate = none;
}

-- The names of the help modules, with OpenCL, CUDA and the API built in, on Linux.
abbrev pub help_modules : List Text
help_modules =
    codes "cl"
    ∷ codes "cu"
    ∷ codes "api"
    ∷ codes "con"
    ∷ codes "test"
    ∷ codes "misc"
    ∷ codes "test"
    ∷ codes "conf"
    ∷ codes "reboot"
    ∷ []

unfoldable pub is_listed : Text → List Text → Bool
is_listed m [] = false
is_listed m (n ∷ ns) = text_eq n m || is_listed m ns

unfoldable pub on_help_module : Option Text → Bool
unfolding is_listed
on_help_module none = true
on_help_module (some m) = is_listed m help_modules

-- The list of modules in the error: the separator stands in place of the first one, and before others.
unfoldable pub list_modules : Bool → List Text → Text
list_modules first [] = []
list_modules first (m ∷ ms) = (if first then [] else codes ", " ++ m) ++ list_modules false ms

-- [0-9a-fA-F]
unfoldable pub is_hex_digit : ℕ → Bool
is_hex_digit c = (leb 48 c && leb c 57) || (leb 97 c && leb c 102) || (leb 65 c && leb c 70)

unfoldable pub on_nonce : Text → Bool
unfolding is_hex_digit
on_nonce [] = true
on_nonce (c ∷ s) = is_hex_digit c && on_nonce s

-- LOG_NEXT of a build that is not one for developers.
abbrev pub log_next : ℕ
log_next = 4

unfoldable pub on_verbosity : ℕ → Bool
on_verbosity u = ltb u log_next

unfoldable pub on_hwmon : ℕ → Bool
on_hwmon u = ltb u 3

-- From -65535 to 65535.
unfoldable pub on_api_port : ℤ → Bool
on_api_port (pos n) = leb n 65535
on_api_port (negsuc n) = ltb n 65535

unfoldable pub on_cu_block_size : ℕ → Bool
on_cu_block_size b = (b == 32) || (b == 64) || (b == 128) || (b == 256)

unfoldable pub on_cu_streams : ℕ → Bool
on_cu_streams s = (s == 1) || (s == 2) || (s == 4)

unfoldable pub on_cl_local_work : ℕ → Bool
on_cl_local_work b = (b == 64) || (b == 128) || (b == 256)

-- notify: each option is checked, and the first that fails throws.
unfoldable pub notify : Options → Bool
notify o =
    on_help_module o.help_module
    && (on_verbosity o.verbosity
        && (on_hwmon o.hwmon
            && (on_nonce o.nonce
                && (on_api_port o.api_port
                    && (on_cu_block_size o.cu_block
                        && (on_cu_streams o.cu_streams && on_cl_local_work o.cl_work))))))

-- [\da-fA-F\.\:]
unfoldable pub all_address : Text → Bool
unfolding is_hex_digit
all_address [] = true
all_address (c ∷ s) = (is_hex_digit c || (c == 46) || (c == 58)) && all_address s

-- [\d\-]
unfoldable pub all_port : Text → Bool
all_port [] = true
all_port (c ∷ s) = ((leb 48 c && leb c 57) || (c == 45)) && all_port s

-- The ports that may be bound: not 0, and negative ones only if they are advertised.
unfoldable pub port_allowed : Bool → ℤ → Bool
port_allowed negative (pos n) = leb 1 n && leb n 65535
port_allowed negative (negsuc n) = negative && ltb n 65535

-- ParseBind: `address` reads an IP address and writes it out, and `stoi` reads a number; none where
-- they fail, or the function throws. The port has no ':', so the last one ends the address.
unfoldable pub parse_bind :
    (Text → Option Text) → (Text → Option ℤ) → Text → Bool → Option (Text × ℤ)
parse_bind address stoi inaddr negative = elim (split_colon inaddr) [
  | none ↦ none
  | some (host, port) ↦
      if all_address host && all_port port
      then elim (address host) [
        | none ↦ none
        | some a ↦ elim (stoi port) [
          | none ↦ none
          | some p ↦ if port_allowed negative p then some (a, p) else none
        ]
      ]
      else none
]
