-- ===== src/Eth/Farm/State.antt =====
-- libeth/Farm.h: the settings and the members of class Farm.
use etcminer.Prelude.{ℕ, Bool, List, Option, Text}
use etcminer.Prelude.Int.{ℤ}
use etcminer.Eth.Work.{WorkPackage}
use etcminer.Eth.Miner.{Miner}
use etcminer.Eth.Miner.Device.{DeviceDescriptor, TelemetryAccount}

-- struct FarmSettings
pub record FarmSettings : Type 0 where
  pub hw_mon : ℕ
  pub temp_start : ℕ
  pub temp_stop : ℕ
  pub nonce : Text
  pub cu_block_size : ℕ
  pub cu_streams : ℕ
  pub cl_group_size : ℕ
  pub cl_split : Bool

-- struct TelemetryType, less its start time
pub record Telemetry : Type 0 where
  pub hwmon : Bool
  pub farm : TelemetryAccount
  pub miners : List TelemetryAccount

-- A monitoring library that was found, with its map from PCI ids to device indices.
abbrev pub HandleMap : Type 0
HandleMap = List (Text × ℤ)

-- The members of class Farm, on Linux. `devices` is the collection that the farm refers to.
pub record Farm : Type 0 where
  pub settings : FarmSettings
  pub is_paused : Bool
  pub is_mining : Bool
  pub miners : List Miner
  pub current_wp : WorkPackage
  pub telemetry : Telemetry
  pub devices : List DeviceDescriptor
  pub nvml : Option HandleMap
  pub sysfs : Option HandleMap

unfoldable pub set_t_start_t_stop : ℕ → ℕ → Farm → Farm
set_t_start_t_stop tstart tstop f = record f {
  settings = (record (f.settings) { temp_start = tstart; temp_stop = tstop });
}

unfoldable pub set_nonce : Text → Farm → Farm
set_nonce nonce f = record f { settings = (record (f.settings) { nonce = nonce }) }
