-- ===== src/Cl/Devices.antt =====
-- The discovery of devices of libcl/CLMiner.cpp: enumDevices and initDevice.
pub mod Opens
pub mod Placed
use etcminer.Prelude.{
  ℕ, ◌+◌, ◌-◌, ◌/◌, ◌%◌, ltb, leb, ◌==◌, Bool, true, false, ◌&&◌, ◌||◌, List, [], ◌∷◌, ◌++◌, Option,
  some, none, Text, codes, text_eq, is_empty, if◌then◌else◌, length, get_elem?,
}
use etcminer.Prelude.Int.{minus_one}
use etcminer.Dev.Hex.{write_hex, compact_hex}
use etcminer.Eth.Miner.Device.{
  DeviceDescriptor, DeviceType, ClPlatformType, amd, clover, nvidia, intel, HwMonitorInfoType,
}
use etcminer.Eth.Miner.Collection.{find_or_new, upsert, to_string}
use etcminer.Cl.State.{ClMiner}
use etcminer.Cl.Identity.{Info, Platform, platform_type_of, version_digit, unique_id}

unfoldable pub or_else : Option ℕ → ℕ → ℕ
or_else none n = n
or_else (some m) n = m

-- The members for a card of NVIDIA, and those for another one.
unfoldable pub describe_board : ClPlatformType → Info → DeviceDescriptor → DeviceDescriptor
unfolding or_else
describe_board type info d =
    let major = or_else info.nv_major d.cl_nv_compute_major in
    let minor = or_else info.nv_minor d.cl_nv_compute_minor in
    let by_nvidia = record d {
      cl_nv_compute_major = major;
      cl_nv_compute_minor = minor;
      cl_nv_compute = to_string major ++ (codes "." ++ to_string minor);
      board_name = info.name;
    } in
    let by_amd = record d { cl_arch = info.name; board_name = info.board_name } in
    elim type [
      | ClPlatformType.unknown ↦ by_amd
      | amd ↦ by_amd
      | clover ↦ by_amd
      | nvidia ↦ by_nvidia
      | intel ↦ by_amd
    ]

-- A platform that the loop has read: its number, type, and the digits of its version.
pub record Known : Type 0 where
  pub number : ℕ
  pub platform : Platform
  pub platform_type : ClPlatformType
  pub major : ℕ
  pub minor : ℕ

-- The members that enumDevices fills in from the platform, the place of the device, and the two digits
-- of its version.
unfoldable pub fill : Known → ℕ → Text → Info → ℕ → ℕ → DeviceDescriptor → DeviceDescriptor
fill k i key info major minor d = record d {
  device_type = info.device_type;
  unique_id = key;
  cl_detected = true;
  cl_platform_id = k.number;
  cl_platform_name = k.platform.name;
  cl_platform_type = k.platform_type;
  cl_platform_version = k.platform.version;
  cl_platform_version_major = k.major;
  cl_platform_version_minor = k.minor;
  cl_device_ordinal = i;
  cl_device_version = info.version;
  cl_device_version_major = major;
  cl_device_version_minor = minor;
  total_memory = info.memory;
  cl_group_size = 64;
}

-- All of the members; none where one of the digits is none.
unfoldable pub described :
    Known → ℕ → Text → Info → DeviceDescriptor → Option ℕ → Option ℕ → Option DeviceDescriptor
unfolding describe_board fill
described k i key info d none minor = none
described k i key info d (some major) none = none
described k i key info d (some major) (some minor) =
    some (describe_board k.platform_type info (fill k i key info major minor d))

unfoldable pub describe : Known → ℕ → Text → Info → DeviceDescriptor → Option DeviceDescriptor
unfolding described
describe k i key info d =
    described k i key info d (version_digit info.version 7) (version_digit info.version 9)

-- Whether the loop counts a device that it passes over: not one of a type that it does not name.
unfoldable pub is_counted : Info → ℕ
is_counted info = elim info.device_type [
  | DeviceType.unknown ↦ 0
  | DeviceType.cpu ↦ 1
  | DeviceType.gpu ↦ 1
  | DeviceType.accelerator ↦ 1
]

-- The loop over the devices of a platform that are left; none where an exception leaves enumDevices.
unfoldable pub add_devices :
    Known → ℕ → List Info → List DeviceDescriptor → Option (List DeviceDescriptor)
unfolding describe is_counted
add_devices k i [] ds = some ds
add_devices k i (info ∷ infos) ds = elim (unique_id k.platform_type k.number i info) [
  | none ↦ add_devices k (i + is_counted info) infos ds
  | some key ↦ elim (describe k i key info (find_or_new key ds)) [
    | none ↦ none
    | some d ↦ add_devices k (i + 1) infos (upsert d ds)
  ]
]

-- The devices of a platform, with the digits of its version and the answer of OpenCL for its devices.
unfoldable pub add_infos :
    ℕ
    → Platform
    → ClPlatformType
    → List DeviceDescriptor
    → Option ℕ
    → Option ℕ
    → Option (List Info)
    → Option (List DeviceDescriptor)
unfolding add_devices
add_infos p platform type ds none minor infos = none
add_infos p platform type ds (some major) none infos = none
add_infos p platform type ds (some major) (some minor) none = none
add_infos p platform type ds (some major) (some minor) (some infos) =
    add_devices
      (record {
        number = p;
        platform = platform;
        platform_type = type;
        major = major;
        minor = minor;
      })
      0 infos ds

-- The round of the loop for a platform of a known type.
unfoldable pub add_platform :
    ℕ → Platform → ClPlatformType → List DeviceDescriptor → Option (List DeviceDescriptor)
unfolding add_infos version_digit
add_platform p platform type ds =
    add_infos p platform type ds (version_digit platform.version 7)
      (version_digit platform.version 9) platform.devices

-- The loop over the platforms from number `p` on.
unfoldable pub add_platforms :
    ℕ → List Platform → List DeviceDescriptor → Option (List DeviceDescriptor)
unfolding add_platform platform_type_of
add_platforms p [] ds = some ds
add_platforms p (platform ∷ platforms) ds = elim (platform_type_of platform.name) [
  | none ↦ add_platforms (p + 1) platforms ds
  | some type ↦ elim (add_platform p platform type ds) [
    | none ↦ none
    | some es ↦ add_platforms (p + 1) platforms es
  ]
]

-- enumDevices, with the platforms that OpenCL names; an error there leaves none.
unfoldable pub enum_devices : List Platform → List DeviceDescriptor → Option (List DeviceDescriptor)
enum_devices platforms ds = add_platforms 0 platforms ds

-- initDevice returns true or false, or an exception leaves it.
pub data Opened : Type 0 where
  opened unavailable escapes : ClMiner → Opened

-- The information for the hardware monitor, and the check of the version of the platform.
unfoldable pub set_monitor : HwMonitorInfoType → ClMiner → ClMiner
set_monitor type s = record s {
  miner = (record (s.miner) {
    hwmoninfo = (record {
      device_type = type;
      device_pci_id = s.device.unique_id;
      device_index = minus_one;
    });
  });
}

unfoldable pub is_too_old : DeviceDescriptor → Bool
is_too_old d =
    (d.cl_platform_version_major == 1)
    && ((d.cl_platform_version_minor == 0) || (d.cl_platform_version_minor == 1))

unfoldable pub check_version : ClMiner → Opened
unfolding is_too_old
check_version s = if is_too_old s.device then escapes s else opened s

unfoldable pub use_platform : ClMiner → Opened
unfolding set_monitor check_version
use_platform s = elim s.device.cl_platform_type [
  | ClPlatformType.unknown ↦ unavailable s
  | amd ↦ check_version (set_monitor HwMonitorInfoType.amd s)
  | clover ↦ opened (set_monitor HwMonitorInfoType.unknown s)
  | nvidia ↦ check_version (set_monitor HwMonitorInfoType.nvidia s)
  | intel ↦ check_version (set_monitor HwMonitorInfoType.unknown s)
]

-- getDevices, for the last platform where the number is too high.
unfoldable pub devices_of : List Platform → ℕ → Option (List Info)
devices_of platforms p =
    elim (get_elem? platforms (if ltb p (length platforms) then p else length platforms - 1)) [
      | none ↦ none
      | some platform ↦ platform.devices
    ]

unfoldable pub init_device : List Platform → ClMiner → Opened
unfolding devices_of use_platform
init_device platforms s =
    let t = record s { miner = (record (s.miner) { initialized = false }) } in
    if is_empty platforms
    then unavailable t
    else elim (devices_of platforms t.device.cl_platform_id) [
      | none ↦ escapes t
      | some infos ↦
          (if is_empty infos
            then unavailable t
            else (if ltb t.device.cl_device_ordinal (length infos)
                then use_platform t
                else escapes t))
    ]
