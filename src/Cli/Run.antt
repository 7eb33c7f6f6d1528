-- ===== src/Cli/Run.antt =====
-- execute and main of etcminer/main.cpp: how the program goes, and the code that it ends with.
pub mod Codes
use etcminer.Prelude.{
  ℕ, ltb, ◌==◌, Bool, true, false, List, [], ◌∷◌, Option, some, none, if◌then◌else◌, is_empty,
}
use etcminer.Eth.Miner.Device.{DeviceDescriptor}
use etcminer.Cl.Devices as ClDevices
use etcminer.Cl.Identity.{Platform}
use etcminer.Cuda.Devices as CudaDevices
use etcminer.Cuda.Devices.{Properties}
use etcminer.Cli.Settings.{
  MinerType, MinerCli, Library, Validated, Parsed, accepted, refused, options_error,
  invalid_argument, runtime_error, validate_args,
}
use etcminer.Cli.Devices.{wants_cuda, wants_cl, subscribe_devices, subscribed_devices}

-- How doMiner ends: by a signal, or by an exception. The farm, the pool manager and the API server do not
-- use boost::program_options, and throw none of its errors.
pub data Mined : Type 0 where
  stopped throws_runtime_error throws_exception throws_unknown : Mined

-- What the two libraries answer when they are asked for devices, and how it goes with mining.
pub record Machine : Type 0 where
  pub platforms : List Platform
  pub cuda_devices : Option (List (Option Properties))
  pub mine : MinerCli → List DeviceDescriptor → Mined

-- The collection of devices; none where an exception leaves the enumDevices of OpenCL.
unfoldable pub find_devices : Machine → MinerType → Option (List DeviceDescriptor)
find_devices m t = elim (if wants_cl t then ClDevices.enum_devices m.platforms [] else some []) [
  | none ↦ none
  | some ds ↦ some (if wants_cuda t then CudaDevices.enum_devices m.cuda_devices ds else ds)
]

-- execute throws a runtime_error, is left by another exception or by something else that is thrown,
-- lists the devices, or mines with a farm of the devices until a signal.
pub data Executed : Type 0 where
  failed escaped unknown_failure : Executed
  listed : List DeviceDescriptor → Executed
  mined : List DeviceDescriptor → Executed

unfoldable pub run_miner : Machine → MinerCli → List DeviceDescriptor → Executed
run_miner m c ds = if subscribed_devices ds == 0 then failed else elim (m.mine c ds) [
  | stopped ↦ mined ds
  | throws_runtime_error ↦ failed
  | throws_exception ↦ escaped
  | throws_unknown ↦ unknown_failure
]

unfoldable pub execute : Machine → MinerCli → Executed
execute m c = elim (find_devices m c.miner_type) [
  | none ↦ escaped
  | some ds ↦
      (if is_empty ds
        then failed
        else (if c.should_list_devices
            then listed ds
            else run_miner m c (subscribe_devices c.miner_type c.devices ds)))
]

unfoldable pub code_of_run : Executed → ℕ
code_of_run failed = 2
code_of_run escaped = 3
code_of_run unknown_failure = 4
code_of_run (listed ds) = 0
code_of_run (mined ds) = 0

-- The handlers of main, in their order: for the errors of boost::program_options, for a runtime_error, and
-- for other exceptions, of which invalid_argument is one.
unfoldable pub code_of : Machine → Validated → ℕ
code_of m (accepted c) = code_of_run (execute m c)
code_of m refused = 0
code_of m options_error = 1
code_of m invalid_argument = 3
code_of m runtime_error = 2

-- main, for a command line of `argc` words that boost makes `parsed` of.
unfoldable pub main : Library → Machine → ℕ → Parsed → ℕ
main lib m argc parsed = if ltb argc 2 then 1 else code_of m (validate_args lib parsed)
