-- ===== src/Examples/CliCases.antt =====
-- The theorems on etcminer/main.cpp at concrete inputs.
use etcminer.Prelude.{
  ◌≡◌, refl, true, false, List, [], ◌∷◌, Option, some, none, Text, codes, get_elem?,
}
use etcminer.Prelude.Int.{pos}
use etcminer.Dev.Hex.{write_hex, compact_hex, hex_char, pad_left}
use etcminer.Eth.Miner.Device.{DeviceDescriptor, DeviceType, ClPlatformType, new_device, cuda}
use etcminer.Eth.Miner.Collection.{find_device, find_or_new, upsert, to_string, decimal}
use etcminer.Eth.Epoch.{no_epoch}
use etcminer.Cl.State.{ClMiner}
use etcminer.Cl.Devices.Placed.{enum_devices-opened}
use etcminer.Cl.Devices as ClDevices
use etcminer.Cl.Identity.{Info, Platform, nvidia_id}
use etcminer.Cl.Identity
use etcminer.Cuda.Devices as CudaDevices
use etcminer.Cuda.Devices.{Properties}
use etcminer.Cli.Options
use etcminer.Cli.Options.{Options, default_options, notify}
use etcminer.Cli.Settings
use etcminer.Cli.Settings.{MinerCli, Library, accepted, validate_args, known}
use etcminer.Cli.Settings.Valid.{IsValid, validate_args-IsValid}
use etcminer.Cli.Devices
use etcminer.Cli.Devices.{subscribe_devices}
use etcminer.Cli.Devices.Choice.{subscribe_devices-choice}
use etcminer.Cli.Run.{Machine, stopped}
use etcminer.Examples.Fixtures.{a_uri, a_miner}

-- Every address is read, as one of the host "a".
abbrev a_library : Library
a_library = record {
  address = λ t. some t;
  stoi = λ t. some (pos 3333);
  make_uri = λ t simulated. some (a_uri (codes "a"));
  random_hash = codes "0x1";
}

abbrev some_options : Options
some_options = record default_options {
  pool = codes "stratum://a:1" ∷ codes "exit" ∷ [];
  tstop = 80;
  tstart = 40;
  nonce = codes "ab";
}

abbrev some_settings : MinerCli
some_settings = record {
  miner_type = Settings.mixed;
  mode = Settings.mining;
  should_list_devices = false;
  farm_settings = (record {
    hw_mon = 1;
    temp_start = 40;
    temp_stop = 80;
    nonce = codes "ab";
    cu_block_size = 128;
    cu_streams = 2;
    cl_group_size = 128;
    cl_split = false;
  });
  pool_settings = (record {
    connections = 0 ∷ 1 ∷ [];
    get_work_poll_interval = 500;
    no_work_timeout = 180;
    no_response_timeout = 2;
    pool_failover_timeout = 0;
    report_hashrate = false;
    hash_rate_interval = 60;
    hash_rate_id = codes "0x1";
    connection_max_retries = 3;
    delay_before_retry = 0;
    benchmark_block = 0;
  });
  uris = a_uri (codes "a") ∷ a_uri (codes "a") ∷ [];
  cli_display_interval = 5;
  devices = [];
  bench = false;
  api_bind = [];
  api_address = codes "0.0.0.0";
  api_port = pos 0;
  api_password = [];
  log_options = 0;
  no_color = false;
  log_syslog = false;
  exit_on_error = false;
  seq_dag = false;
}

validated : validate_args a_library (known some_options) ≡ accepted some_settings
unfolding validate_args Settings.try_read Settings.after_read Settings.settle notify
    Options.on_help_module Options.on_verbosity Options.on_hwmon Options.on_nonce
    Options.on_api_port Options.on_cu_block_size Options.on_cu_streams Options.on_cl_local_work
    Settings.only_informs Settings.and_then Settings.bind_api Settings.read_options
    Settings.choose_pools Settings.benchmark_block Settings.require_pools Settings.add_pools
    Settings.check_temperatures Settings.miner_type_of Settings.push_uri etcminer.Prelude.text_eq
validated = refl

validate_args-IsValid_example : IsValid some_settings
validate_args-IsValid_example =
    validate_args-IsValid a_library (known some_options) some_settings validated

-- A card of NVIDIA at bus 10, device 2, as the two libraries describe it.
abbrev a_card : Info
a_card = record {
  device_type = DeviceType.gpu;
  pci_bus = some 10;
  pci_slot = some 16;
  topology = none;
  version = codes "OpenCL 3.0 CUDA";
  memory = 8589934592;
  nv_major = some 8;
  nv_minor = some 6;
  name = codes "RTX";
  board_name = [];
}

abbrev a_platform : Platform
a_platform = record {
  name = codes "NVIDIA CUDA";
  version = codes "OpenCL 3.0";
  devices = some (a_card ∷ []);
}

abbrev its_properties : Properties
its_properties = record {
  name = codes "RTX";
  pci_domain = 0;
  pci_bus = 10;
  pci_device = 2;
  major = 8;
  minor = 6;
  total_memory = 8589934592;
}

abbrev a_machine : Machine
a_machine = record {
  platforms = a_platform ∷ [];
  cuda_devices = some (some its_properties ∷ []);
  mine = λ c ds. stopped;
}

-- What OpenCL alone finds.
abbrev by_cl : DeviceDescriptor
by_cl = record new_device {
  device_type = DeviceType.gpu;
  unique_id = codes "0000:0a:02.0";
  total_memory = 8589934592;
  board_name = codes "RTX";
  cl_detected = true;
  cl_platform_version = codes "OpenCL 3.0";
  cl_platform_version_major = 3;
  cl_device_version = codes "OpenCL 3.0 CUDA";
  cl_device_version_major = 3;
  cl_nv_compute = codes "8.6";
  cl_nv_compute_major = 8;
  cl_nv_compute_minor = 6;
  cl_platform_name = codes "NVIDIA CUDA";
  cl_platform_type = ClPlatformType.nvidia;
  cl_group_size = 64;
}

found_by_cl : ClDevices.enum_devices (a_platform ∷ []) [] ≡ some (by_cl ∷ [])
unfolding ClDevices.enum_devices ClDevices.add_platforms ClDevices.add_platform ClDevices.add_infos
    ClDevices.add_devices Identity.platform_type_of Identity.version_digit Identity.unique_id
    Identity.gpu_id Identity.nvidia_id Identity.pci_text ClDevices.describe ClDevices.described
    ClDevices.fill ClDevices.describe_board ClDevices.or_else find_device find_or_new upsert
    to_string decimal write_hex compact_hex hex_char pad_left etcminer.Prelude.text_eq
found_by_cl = refl

abbrev a_cl_miner : ClMiner
a_cl_miner = record {
  miner = a_miner 0;
  device = by_cl;
  epoch_context = no_epoch;
  block_multiple = 200000;
  abort_locked = false;
  context = false;
  queue = false;
  abort_queue = false;
  first_dag = false;
  second_dag = false;
  light = false;
  header = false;
  search_buffer = false;
  dag_items = 0;
}

enum_devices-opened_example :
    (t : ClMiner) × (ClDevices.init_device (a_platform ∷ []) a_cl_miner ≡ ClDevices.opened t)
unfolding ClDevices.is_too_old
enum_devices-opened_example =
    enum_devices-opened (a_platform ∷ []) (by_cl ∷ []) 0 a_cl_miner found_by_cl refl refl

abbrev both : DeviceDescriptor
both = record new_device { cu_detected = true; cl_detected = true }

subscribe_devices-choice_example :
    get_elem? (subscribe_devices Settings.mixed (1 ∷ []) (new_device ∷ both ∷ [])) 1
    ≡ some (record both { subscription_type = cuda })
unfolding Devices.is_selected Devices.wants_cuda
subscribe_devices-choice_example =
    subscribe_devices-choice Settings.mixed (1 ∷ []) (new_device ∷ both ∷ []) 1 refl refl
