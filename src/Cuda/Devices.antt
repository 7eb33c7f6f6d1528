-- ===== src/Cuda/Devices.antt =====
-- The discovery of devices of libcuda/CUDAMiner.cpp: enumDevices and initDevice.
pub mod Merged
use etcminer.Prelude.{
  ℕ, ◌+◌, Bool, true, false, not, List, [], ◌∷◌, ◌++◌, Option, some, none, Text, codes,
  if◌then◌else◌,
}
use etcminer.Prelude.Int.{minus_one}
use etcminer.Dev.Hex.{write_hex}
use etcminer.Eth.Miner.Device.{DeviceDescriptor, DeviceType, HwMonitorInfoType}
use etcminer.Eth.Miner.Collection.{find_or_new, upsert, to_string}
use etcminer.Cuda.State.{CudaMiner}

-- What cudaGetDeviceProperties and cudaMemGetInfo give of a device.
pub record Properties : Type 0 where
  pub name : Text
  pub pci_domain : ℕ
  pub pci_bus : ℕ
  pub pci_device : ℕ
  pub major : ℕ
  pub minor : ℕ
  pub total_memory : ℕ

unfoldable pub unique_id : Properties → Text
unique_id p =
    write_hex 4 p.pci_domain
    ++ (codes ":"
        ++ (write_hex 2 p.pci_bus ++ (codes ":" ++ (write_hex 2 p.pci_device ++ codes ".0"))))

-- The members that enumDevices fills in.
unfoldable pub describe : ℕ → Properties → DeviceDescriptor → DeviceDescriptor
unfolding unique_id
describe i p d = record d {
  board_name = p.name;
  cu_detected = true;
  unique_id = unique_id p;
  device_type = DeviceType.gpu;
  cu_device_index = i;
  cu_device_ordinal = i;
  total_memory = p.total_memory;
  cu_compute = to_string p.major ++ (codes "." ++ to_string p.minor);
  cu_compute_major = p.major;
  cu_compute_minor = p.minor;
  cu_block_size = 128;
  cu_stream_size = 2;
}

-- The loop over the devices from number `i` on. A device that CUDA answers with an error for is none.
unfoldable pub enum_from :
    ℕ → List (Option Properties) → List DeviceDescriptor → List DeviceDescriptor
unfolding describe
enum_from i [] ds = ds
enum_from i (none ∷ ps) ds = enum_from (i + 1) ps ds
enum_from i (some p ∷ ps) ds =
    enum_from (i + 1) ps (upsert (describe i p (find_or_new (unique_id p) ds)) ds)

-- enumDevices, where getNumDevices is 0 if CUDA answers with an error.
unfoldable pub enum_devices :
    Option (List (Option Properties)) → List DeviceDescriptor → List DeviceDescriptor
enum_devices none ds = ds
enum_devices (some ps) ds = enum_from 0 ps ds

-- initDevice, where `refused` is that cudaSetDevice or cudaDeviceReset ends with an error.
unfoldable pub init_device : Bool → CudaMiner → Bool × CudaMiner
init_device refused s = (
  not refused,
  record s {
    miner = (record (s.miner) {
      hwmoninfo = (record {
        device_type = HwMonitorInfoType.nvidia;
        device_pci_id = s.device.unique_id;
        device_index = minus_one;
      });
    });
  },
)
