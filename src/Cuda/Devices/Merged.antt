-- ===== src/Cuda/Devices/Merged.antt =====
-- Devices that both OpenCL and CUDA find: one descriptor of the collection stands for both.
use etcminer.Prelude.{ℕ, ◌≡◌, true, List, some, Text}
use etcminer.Eth.Miner.Device.{DeviceDescriptor, new_device}
use etcminer.Eth.Miner.Collection.{find_device, find_or_new, upsert}
use etcminer.Cuda.Devices.{Properties, unique_id, describe}

-- A descriptor less the members that are not OpenCL's alone: its id, type, memory and board, and what
-- CUDA says of it. What is left are all members with the prefix cl, and the subscription.
abbrev pub cl_part : DeviceDescriptor → DeviceDescriptor
cl_part d = record new_device {
  subscription_type = d.subscription_type;
  cl_detected = d.cl_detected;
  cl_platform_version = d.cl_platform_version;
  cl_platform_version_major = d.cl_platform_version_major;
  cl_platform_version_minor = d.cl_platform_version_minor;
  cl_device_ordinal = d.cl_device_ordinal;
  cl_device_version = d.cl_device_version;
  cl_device_version_major = d.cl_device_version_major;
  cl_device_version_minor = d.cl_device_version_minor;
  cl_nv_compute = d.cl_nv_compute;
  cl_arch = d.cl_arch;
  cl_nv_compute_major = d.cl_nv_compute_major;
  cl_nv_compute_minor = d.cl_nv_compute_minor;
  cl_platform_id = d.cl_platform_id;
  cl_platform_name = d.cl_platform_name;
  cl_platform_type = d.cl_platform_type;
  cl_group_size = d.cl_group_size;
  cl_split = d.cl_split;
}

-- What enumDevices of CUDA keeps of a descriptor: all members of OpenCL and the subscription; and it
-- does not take back that CUDA found it.
pub record Kept (d e : DeviceDescriptor) : Type 0 where
  pub cl : cl_part e ≡ cl_part d
  pub cu : d.cu_detected ≡ true → e.cu_detected ≡ true

-- The step of the loop for a device that CUDA describes.
abbrev put : ℕ → Properties → List DeviceDescriptor → List DeviceDescriptor
put i p ds = upsert (describe i p (find_or_new (unique_id p) ds)) ds

-- The descriptor under an id is there afterwards, and keeps what OpenCL found.
abbrev Keeps : Text → List DeviceDescriptor → List DeviceDescriptor → Type 0
Keeps key ds es =
    (d : DeviceDescriptor)
    → find_device key ds ≡ some d
    → (e : DeviceDescriptor) × (find_device key es ≡ some e) × Kept d e
