-- ===== src/Cl/Identity.antt =====
-- What enumDevices of libcl/CLMiner.cpp reads of platforms and devices, and the ids that it gives.
use etcminer.Prelude.{
  ℕ, ◌+◌, ◌-◌, ◌/◌, ◌%◌, ltb, leb, ◌==◌, Bool, true, false, ◌&&◌, ◌||◌, List, [], ◌∷◌, ◌++◌, Option,
  some, none, Text, codes, text_eq, is_empty, if◌then◌else◌, get_elem?,
}
use etcminer.Dev.Hex.{write_hex, compact_hex}
use etcminer.Eth.Miner.Device.{DeviceType, ClPlatformType, amd, clover, nvidia, intel}
use etcminer.Eth.Miner.Collection.{to_string}

-- What OpenCL answers about a device: its type, where `unknown` is another one than those that the source
-- names; the PCI numbers of NVIDIA, and the last three bytes of the topology of AMD, if it knows them;
-- and what the buffer for the name of the board holds after the call.
pub record Info : Type 0 where
  pub device_type : DeviceType
  pub pci_bus : Option ℕ
  pub pci_slot : Option ℕ
  pub topology : Option (ℕ × ℕ × ℕ)
  pub version : Text
  pub memory : ℕ
  pub nv_major : Option ℕ
  pub nv_minor : Option ℕ
  pub name : Text
  pub board_name : Text

-- A platform. Its devices are none where OpenCL answers with another error than that there are none.
pub record Platform : Type 0 where
  pub name : Text
  pub version : Text
  pub devices : Option (List Info)

unfoldable pub starts_with : Text → Text → Bool
starts_with [] t = true
starts_with (x ∷ xs) [] = false
starts_with (x ∷ xs) (y ∷ ys) = (x == y) && starts_with xs ys

-- name.find(part) != string::npos
unfoldable pub has_part : Text → Text → Bool
unfolding starts_with
has_part part [] = is_empty part
has_part part (c ∷ cs) = starts_with part (c ∷ cs) || has_part part cs

-- The type of a platform by its name; the loop goes on with the next platform where there is none.
unfoldable pub platform_type_of : Text → Option ClPlatformType
unfolding has_part
platform_type_of name =
    if text_eq name (codes "AMD Accelerated Parallel Processing")
    then some amd
    else (if text_eq name (codes "Clover") || text_eq name (codes "Intel Gen OCL Driver")
        then some clover
        else (if text_eq name (codes "NVIDIA CUDA")
            then some nvidia
            else (if has_part (codes "Intel") name then some intel else none)))

-- stoi(version.substr(i, 1)), which throws unless there is a digit.
unfoldable pub version_digit : Text → ℕ → Option ℕ
version_digit version i = elim (get_elem? version i) [
  | none ↦ none
  | some c ↦ (if leb 48 c && leb c 57 then some (c - 48) else none)
]

-- "0000:<bus>:<slot>.<function>" in hexadecimal
unfoldable pub pci_text : ℕ → ℕ → ℕ → Text
pci_text bus slot function =
    codes "0000:"
    ++ (write_hex 2 bus
        ++ (codes ":" ++ (write_hex 2 slot ++ (codes "." ++ compact_hex 16 function))))

-- (unsigned int) of a signed char
unfoldable pub extend : ℕ → ℕ
extend b = if ltb b 128 then b else b + 4294967040

-- The id of a graphics card of NVIDIA; it is empty where OpenCL does not know the numbers.
unfoldable pub nvidia_id : Option ℕ → Option ℕ → Text
unfolding pci_text
nvidia_id (some bus) (some slot) = pci_text bus (slot / 8) (slot % 8)
nvidia_id (some bus) none = []
nvidia_id none slot = []

unfoldable pub amd_id : Option (ℕ × ℕ × ℕ) → Text
unfolding pci_text extend
amd_id none = []
amd_id (some (bus, slot, function)) = pci_text (extend bus) (extend slot) (extend function)

unfoldable pub gpu_id : ClPlatformType → ℕ → ℕ → Info → Option Text
unfolding nvidia_id amd_id
gpu_id nvidia p i info = some (nvidia_id info.pci_bus info.pci_slot)
gpu_id amd p i info = some (amd_id info.topology)
gpu_id clover p i info = some (amd_id info.topology)
gpu_id intel p i info = some (codes "Intel GPU " ++ (to_string p ++ (codes "." ++ to_string i)))
gpu_id ClPlatformType.unknown p i info = none

-- The id of device `i` of platform `p`; none for one that enumDevices passes over.
unfoldable pub unique_id : ClPlatformType → ℕ → ℕ → Info → Option Text
unfolding gpu_id
unique_id type p i info = elim info.device_type [
  | DeviceType.unknown ↦ none
  | DeviceType.cpu ↦ some (codes "CPU " ++ write_hex 2 (p + i))
  | DeviceType.gpu ↦ gpu_id type p i info
  | DeviceType.accelerator ↦ none
]
