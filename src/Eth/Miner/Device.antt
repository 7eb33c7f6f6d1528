-- ===== src/Eth/Miner/Device.antt =====
-- libeth/Miner.h: descriptors of the devices, hardware monitor data and the accounts of solutions.
use etcminer.Prelude.{ℕ, Bool, false, [], Text}
use etcminer.Prelude.Int.{ℤ, minus_one}
use etcminer.Dev.Float.{Float, zero_float}

-- enum class DeviceSubscriptionTypeEnum
pub data SubscriptionType : Type 0 where
  unsubscribed open_cl cuda : SubscriptionType

-- enum class DeviceTypeEnum
pub data DeviceType : Type 0 where
  unknown cpu gpu accelerator : DeviceType

-- enum class ClPlatformTypeEnum
pub data ClPlatformType : Type 0 where
  unknown amd clover nvidia intel : ClPlatformType

-- struct DeviceDescriptor, less clDeviceIndex and clBin, which nothing reads or writes.
pub record DeviceDescriptor : Type 0 where
  pub device_type : DeviceType
  pub subscription_type : SubscriptionType
  pub unique_id : Text
  pub total_memory : ℕ
  pub board_name : Text
  pub cu_detected : Bool
  pub cu_device_ordinal : ℕ
  pub cu_device_index : ℕ
  pub cu_compute : Text
  pub cu_compute_major : ℕ
  pub cu_compute_minor : ℕ
  pub cu_block_size : ℕ
  pub cu_stream_size : ℕ
  pub cl_detected : Bool
  pub cl_platform_version : Text
  pub cl_platform_version_major : ℕ
  pub cl_platform_version_minor : ℕ
  pub cl_device_ordinal : ℕ
  pub cl_device_version : Text
  pub cl_device_version_major : ℕ
  pub cl_device_version_minor : ℕ
  pub cl_nv_compute : Text
  pub cl_arch : Text
  pub cl_nv_compute_major : ℕ
  pub cl_nv_compute_minor : ℕ
  pub cl_platform_id : ℕ
  pub cl_platform_name : Text
  pub cl_platform_type : ClPlatformType
  pub cl_group_size : ℕ
  pub cl_split : Bool

-- DeviceDescriptor(): the members without an initialiser are zeroed.
abbrev pub new_device : DeviceDescriptor
new_device = record {
  device_type = DeviceType.unknown;
  subscription_type = unsubscribed;
  unique_id = [];
  total_memory = 0;
  board_name = [];
  cu_detected = false;
  cu_device_ordinal = 0;
  cu_device_index = 0;
  cu_compute = [];
  cu_compute_major = 0;
  cu_compute_minor = 0;
  cu_block_size = 0;
  cu_stream_size = 0;
  cl_detected = false;
  cl_platform_version = [];
  cl_platform_version_major = 0;
  cl_platform_version_minor = 0;
  cl_device_ordinal = 0;
  cl_device_version = [];
  cl_device_version_major = 0;
  cl_device_version_minor = 0;
  cl_nv_compute = [];
  cl_arch = [];
  cl_nv_compute_major = 0;
  cl_nv_compute_minor = 0;
  cl_platform_id = 0;
  cl_platform_name = [];
  cl_platform_type = ClPlatformType.unknown;
  cl_group_size = 0;
  cl_split = false;
}

-- enum class HwMonitorInfoType
pub data HwMonitorInfoType : Type 0 where
  unknown nvidia amd : HwMonitorInfoType

-- struct HwMonitorInfo
pub record HwMonitorInfo : Type 0 where
  pub device_type : HwMonitorInfoType
  pub device_pci_id : Text
  pub device_index : ℤ

abbrev pub no_monitor : HwMonitorInfo
no_monitor = record {
  device_type = HwMonitorInfoType.unknown;
  device_pci_id = [];
  device_index = minus_one;
}

-- struct SolutionAccountType; its time stamp is a clock reading.
pub record SolutionAccount : Type 0 where
  pub accepted : ℕ
  pub rejected : ℕ
  pub wasted : ℕ
  pub failed : ℕ
  pub collect_acceptd : ℕ
  pub tstamp : ℕ

abbrev pub no_solutions : ℕ → SolutionAccount
no_solutions now = record {
  accepted = 0;
  rejected = 0;
  wasted = 0;
  failed = 0;
  collect_acceptd = 0;
  tstamp = now;
}

-- struct HwSensorsType
pub record HwSensors : Type 0 where
  pub temp_c : ℕ
  pub memtemp_c : ℕ
  pub fan_p : ℕ
  pub power_w : Float

abbrev pub no_sensors : HwSensors
no_sensors = record { temp_c = 0; memtemp_c = 0; fan_p = 0; power_w = zero_float }

-- struct TelemetryAccountType
pub record TelemetryAccount : Type 0 where
  pub prefix : Text
  pub hashrate : Float
  pub is_paused : Bool
  pub sensors : HwSensors
  pub solutions : SolutionAccount

abbrev pub new_account : Text → ℕ → TelemetryAccount
new_account p now = record {
  prefix = p;
  hashrate = zero_float;
  is_paused = false;
  sensors = no_sensors;
  solutions = no_solutions now;
}

-- enum class SolutionAccountingEnum
pub data SolutionAccounting : Type 0 where
  accept reject waste fail : SolutionAccounting
