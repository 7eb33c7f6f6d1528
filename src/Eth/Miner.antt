-- ===== src/Eth/Miner.antt =====
-- libeth/Miner.h and libeth/Miner.cpp: the state of one miner and its operations. Locks are left
-- out: each operation is one atomic step.
pub mod Flags
pub mod Device
pub mod Collection
use etcminer.Prelude.{ℕ, ◌+◌, ◌-◌, ◌*◌, Bool, true, false, [], ◌==◌, if◌then◌else◌, u32, u64}
use etcminer.Prelude.Int.{ℤ, minus_one}
use etcminer.Dev.Float.{Float, zero_float, rate}
use etcminer.Dev.Worker.{Worker, new_worker}
use etcminer.Dev.FixedHash.{zero_hash}
use Flags.{MinerPause, PauseFlags, no_flags, set_flag, reset_flag, test_flag, any_flag}
use Flags.{insufficient_memory}
use Device.{HwMonitorInfo, no_monitor}
use etcminer.Eth.Work.{WorkPackage, no_work}

-- The members of class Miner. `kicks` counts the calls of kick_miner, which each device implements.
pub record Miner : Type 0 where
  pub index : ℕ
  pub worker : Worker
  pub hwmoninfo : HwMonitorInfo
  pub pause_flags : PauseFlags
  pub work : WorkPackage
  pub hung_miner : Bool
  pub initialized : Bool
  pub hash_time : ℕ
  pub hash_rate : Float
  pub hash_rate_update : Bool
  pub group_count : ℕ
  pub kicks : ℕ

-- The constructor, with the members' initialisers.
unfoldable pub new_miner : ℕ → HwMonitorInfo → ℕ → Miner
unfolding new_worker
new_miner index info now = record {
  index = index;
  worker = new_worker;
  hwmoninfo = info;
  pause_flags = no_flags;
  work = no_work;
  hung_miner = false;
  initialized = false;
  hash_time = now;
  hash_rate = zero_float;
  hash_rate_update = false;
  group_count = 0;
  kicks = 0;
}

unfoldable pub kick_miner : Miner → Miner
kick_miner m = record m { kicks = m.kicks + 1 }

unfoldable pub paused : Miner → Bool
paused m = any_flag m.pause_flags

unfoldable pub pause_test : MinerPause → Miner → Bool
pause_test what m = test_flag what m.pause_flags

-- A paused miner's work is voided: its header becomes h256().
unfoldable pub set_work : WorkPackage → Miner → Miner
unfolding paused kick_miner
set_work w m = kick_miner (
    if paused m
    then record m { work = (record (m.work) { header = zero_hash }) }
    else record m { work = w })

unfoldable pub pause : MinerPause → Miner → Miner
unfolding kick_miner
pause what m = kick_miner (record m {
  pause_flags = set_flag what m.pause_flags;
  work = (record (m.work) { header = zero_hash });
})

unfoldable pub resume : MinerPause → Miner → Miner
resume from_what m = record m { pause_flags = reset_flag from_what m.pause_flags }

-- The report is logged, and the miner pauses itself.
unfoldable pub report_gpu_no_memory_and_pause : Miner → Miner
unfolding pause
report_gpu_no_memory_and_pause m = pause insufficient_memory m

unfoldable pub retrieve_hash_rate : Miner → Float
retrieve_hash_rate m = m.hash_rate

-- compare_exchange(false, true); an update still pending means that the device did not answer. A
-- spurious failure of the weak exchange is left out.
unfoldable pub trigger_hash_rate_update : Miner → Miner
trigger_hash_rate_update m =
    if m.hash_rate_update
    then record m { hash_rate = zero_float }
    else record m { hash_rate_update = true }

-- `now` is the clock in microseconds. The product is in uint32_t, the sum in uint64_t.
unfoldable pub update_hash_rate : ℕ → ℕ → ℕ → Miner → Miner
update_hash_rate group_size increment now m =
    let count = u64 (m.group_count + u32 (increment * group_size)) in
    let counted = record m { group_count = count } in
    if m.hash_rate_update
    then record counted {
      hash_rate_update = false;
      hash_time = now;
      hash_rate = (if now - m.hash_time == 0 then zero_float else rate count (now - m.hash_time));
      group_count = 0;
    }
    else counted

unfoldable pub set_hwmon_device_index : ℤ → Miner → Miner
set_hwmon_device_index i m = record m { hwmoninfo = (record (m.hwmoninfo) { device_index = i }) }
