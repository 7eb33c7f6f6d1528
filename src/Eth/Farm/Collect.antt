-- ===== src/Eth/Farm/Collect.antt =====
-- Farm::collectData of libeth/Farm.cpp: the check for hung miners, the telemetry of each miner and
-- the pause of one that is too hot. The build is the one for Linux.
use etcminer.Prelude.{
  ℕ, Bool, true, not, ◌&&◌, List, [], ◌∷◌, Option, none, some, Text, text_eq, get_elem?, set, leb,
  ◌==◌, if◌then◌else◌, is_empty,
}
use etcminer.Prelude.Int.{ℤ, negsuc, int_eq, minus_one, is_nonneg}
use etcminer.Dev.Float.{Float, zero_float, plus, per_thousand}
use etcminer.Eth.Miner
use etcminer.Eth.Miner.Flags.{overheating}
use etcminer.Eth.Miner.Device.{HwMonitorInfoType, unknown, nvidia, amd, TelemetryAccount}
use etcminer.Eth.Farm.State.{Farm, FarmSettings, Telemetry, HandleMap}

-- The values that the monitoring libraries give for a device index.
pub record Reading : Type 0 where
  pub temp : ℕ
  pub mem_temp : ℕ
  pub fan : ℕ
  pub power : ℕ

abbrev pub no_reading : Reading
no_reading = record { temp = 0; mem_temp = 0; fan = 0; power = 0 }

-- The loop over the hung flags, and the index of the miner at which it stopped.
unfoldable pub check_hung : List Miner.Miner → List Miner.Miner × Option ℕ
check_hung [] = ([], none)
check_hung (m ∷ ms) =
    let (rest, hung) = check_hung ms in
    if not (Miner.paused m) && m.initialized
    then (if m.hung_miner
        then (m ∷ ms, some m.index)
        else (record m { hung_miner = true } ∷ rest, hung))
    else (m ∷ rest, hung)

-- map::find of a PCI id.
unfoldable pub find_handle : Text → HandleMap → Option ℤ
find_handle id [] = none
find_handle id ((k, i) ∷ rest) = if text_eq k id then some i else find_handle id rest

-- The device index of a miner: looked up once, at the index -1, and then kept in the miner; -2 keeps
-- the farm from trying again.
unfoldable pub locate : HandleMap → Miner.Miner → Miner.Miner × ℤ
unfolding find_handle
locate handles m =
    let info = m.hwmoninfo in
    if int_eq info.device_index minus_one && not (is_empty info.device_pci_id)
    then elim (find_handle info.device_pci_id handles) [
      | none ↦ (Miner.set_hwmon_device_index (negsuc 1) m, info.device_index)
      | some i ↦ (Miner.set_hwmon_device_index i m, i)
    ]
    else (m, info.device_index)

-- The reads at an index that is not negative; power is read at level 2 only.
unfoldable pub read_at : (ℤ → Reading) → ℕ → ℤ → Reading
read_at sensor hw_mon i =
    if is_nonneg i
    then record (sensor i) { power = (if hw_mon == 2 then (sensor i).power else 0) }
    else no_reading

unfoldable pub read_library :
    (ℤ → Reading) → ℕ → Option HandleMap → Miner.Miner → Miner.Miner × Reading
unfolding locate read_at
read_library sensor hw_mon none m = (m, no_reading)
read_library sensor hw_mon (some handles) m =
    let (m', i) = locate handles m in (m', read_at sensor hw_mon i)

-- `nvml` and `sysfs` are the readings of the two libraries.
unfoldable pub read_sensors :
    (ℤ → Reading) → (ℤ → Reading) → Farm → HwMonitorInfoType → Miner.Miner → Miner.Miner × Reading
unfolding read_library
read_sensors nvml sysfs f unknown m = (m, no_reading)
read_sensors nvml sysfs f nvidia m = read_library nvml f.settings.hw_mon f.nvml m
read_sensors nvml sysfs f amd m = read_library sysfs f.settings.hw_mon f.sysfs m

-- The temperature control, if a stop temperature is set.
unfoldable pub control_temperature : FarmSettings → ℕ → Miner.Miner → Miner.Miner
control_temperature s temp m =
    if s.temp_stop == 0
    then m
    else (let was_paused = Miner.pause_test overheating m in
        let m' =
          (if not was_paused && leb s.temp_stop temp then Miner.pause overheating m else m) in
        if was_paused && leb temp s.temp_start then Miner.resume overheating m' else m')

abbrev pub measure : (ℤ → Reading) → (ℤ → Reading) → Farm → Miner.Miner → Miner.Miner × Reading
measure nvml sysfs f m = read_sensors nvml sysfs f m.hwmoninfo.device_type m

-- The monitored part of one round: the miner after the temperature control, and its account.
unfoldable pub monitor :
    (ℤ → Reading)
    → (ℤ → Reading)
    → Farm
    → Miner.Miner
    → TelemetryAccount
    → Miner.Miner × TelemetryAccount
monitor nvml sysfs f m t =
    if f.settings.hw_mon == 0
    then (m, t)
    else (let (m', r) = measure nvml sysfs f m in
        (
          control_temperature f.settings r.temp m',
          record t {
            sensors = (record {
              temp_c = r.temp;
              memtemp_c = r.mem_temp;
              fan_p = r.fan;
              power_w = per_thousand r.power;
            });
          },
        ))

-- A paused miner shows no hash rate.
abbrev pub shown_rate : Miner.Miner → Float
shown_rate m = if Miner.paused m then zero_float else Miner.retrieve_hash_rate m

-- The accounts with the i-th and the farm's hash rate written anew.
abbrev pub post : Telemetry → ℕ → TelemetryAccount → Float → Telemetry
post tel i t total = record tel {
  miners = set tel.miners i t;
  farm = (record (tel.farm) { hashrate = total });
}

abbrev pub prepend_miner :
    Miner.Miner → Option (List Miner.Miner × Telemetry) → Option (List Miner.Miner × Telemetry)
prepend_miner m none = none
prepend_miner m (some (rest, last)) = some (m ∷ rest, last)

-- The loop over the miners. `none` is the out_of_range of `miners.at`.
unfoldable pub collect_miners :
    (ℤ → Reading)
    → (ℤ → Reading)
    → Farm
    → List Miner.Miner
    → Float
    → Telemetry
    → Option (List Miner.Miner × Telemetry)
collect_miners nvml sysfs f [] farm_hr tel = some ([], tel)
collect_miners nvml sysfs f (m ∷ ms) farm_hr tel =
    let hr = shown_rate m in
    elim (get_elem? tel.miners m.index) [
      | none ↦ none
      | some t ↦
          (let (m', t') =
              monitor nvml sysfs f m (record t { hashrate = hr; is_paused = Miner.paused m }) in
            prepend_miner (Miner.trigger_hash_rate_update m') (
              collect_miners nvml sysfs f ms (plus farm_hr hr)
                (post tel m.index t' (plus farm_hr hr))))
    ]

-- How a round ends: the timer is set again; a hung miner was found and the timer is not set again; the
-- exception "Hung GPU" at such a miner; the exception of `miners.at`.
pub data Collected : Type 0 where
  rearmed : Farm → Collected
  hung : Farm → ℕ → Collected
  hung_gpu : Farm → ℕ → Collected
  out_of_range : Collected

abbrev pub finish_round : Farm → Option (List Miner.Miner × Telemetry) → Collected
finish_round f none = out_of_range
finish_round f (some (ms, tel)) = rearmed (record f { miners = ms; telemetry = tel })

-- At a hung miner g_exitOnError decides between the exception and the reboot script.
unfoldable pub collect_data : Bool → (ℤ → Reading) → (ℤ → Reading) → Farm → Collected
collect_data exit_on_error nvml sysfs f =
    let (ms, found) = check_hung f.miners in
    elim found [
      | some i ↦
          if exit_on_error
          then hung_gpu (record f { miners = ms }) i
          else hung (record f { miners = ms }) i
      | none ↦ finish_round f (collect_miners nvml sysfs f ms zero_float f.telemetry)
    ]
