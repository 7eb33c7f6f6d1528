-- ===== src/Eth/Farm/Shape/Rounds.antt =====
-- collectData keeps the shape of the farm's state, which in turn keeps it from an exception.
use etcminer.Prelude.{
  ℕ, suc, ◌+◌, ◌<◌, ◌≡◌, refl, ap, ◌∙◌, arith, Bool, true, false, if◌then◌else◌, List, [], ◌∷◌,
  Option, some, none, length, length-set, Option-cases, inl, inr, get_elem?-lt, nil_of_length,
}
use etcminer.Prelude.Int.{ℤ}
use etcminer.Dev.Float.{Float, zero_float, plus}
use etcminer.Eth.Miner
use etcminer.Eth.Miner.{Miner}
use etcminer.Eth.Miner.Device.{TelemetryAccount, HwMonitorInfoType, unknown, nvidia, amd}
use etcminer.Eth.Farm.State.{Farm, FarmSettings, Telemetry, HandleMap}
use etcminer.Eth.Farm.Collect.{
  Reading, check_hung, locate, read_library, read_sensors, control_temperature, monitor,
  collect_miners, measure, shown_rate, post, prepend_miner, finish_round, Collected, rearmed, hung,
  hung_gpu, out_of_range, collect_data,
}
use etcminer.Eth.Farm.Shape.{Indexed, Inv}

check_hung-Indexed :
    (n : ℕ) (ms : List Miner.Miner)
    → Indexed n ms
    → Indexed n (check_hung ms).0 × (length (check_hung ms).0 ≡ length ms)
unfolding check_hung
check_hung-Indexed n [] h = (tt, refl)
check_hung-Indexed n (m ∷ ms) h = ground (arith, check_hung-Indexed (suc n) ms h.1)

-- The miner at which the check stops is one of the farm's.
check_hung_index :
    (n : ℕ) (ms : List Miner.Miner) (i : ℕ)
    → Indexed n ms
    → (check_hung ms).1 ≡ some i
    → i < n + length ms
unfolding check_hung
check_hung_index n [] i h e = cc
check_hung_index n (m ∷ ms) i h e = ground (arith, check_hung_index (suc n) ms i h.1)

index-control :
    (s : FarmSettings) (t : ℕ) (m : Miner.Miner) → (control_temperature s t m).index ≡ m.index
unfolding control_temperature Miner.pause Miner.resume
index-control s t m = ground arith

index-locate : (h : HandleMap) (m : Miner.Miner) → (locate h m).0.index ≡ m.index
unfolding locate Miner.set_hwmon_device_index
index-locate h m = ground arith

index-read_library :
    (r : ℤ → Reading) (k : ℕ) (h : Option HandleMap) (m : Miner.Miner)
    → (read_library r k h m).0.index ≡ m.index
unfolding read_library
index-read_library r k none m = refl
index-read_library r k (some h) m = index-locate h m

index-read_sensors :
    (r s : ℤ → Reading) (f : Farm) (t : HwMonitorInfoType) (m : Miner.Miner)
    → (read_sensors r s f t m).0.index ≡ m.index
unfolding read_sensors
index-read_sensors r s f unknown m = refl
index-read_sensors r s f nvidia m = index-read_library r f.settings.hw_mon f.nvml m
index-read_sensors r s f amd m = index-read_library s f.settings.hw_mon f.sysfs m

index-monitor :
    (r s : ℤ → Reading) (f : Farm) (m : Miner.Miner) (t : TelemetryAccount)
    → (monitor r s f m t).0.index ≡ m.index
unfolding monitor
index-monitor r s f m t = ground (
  arith,
  index-control f.settings (measure r s f m).1.temp (measure r s f m).0,
  index-read_sensors r s f m.hwmoninfo.device_type m,
)

index-trigger : (m : Miner.Miner) → (Miner.trigger_hash_rate_update m).index ≡ m.index
unfolding Miner.trigger_hash_rate_update
index-trigger m = ground arith

-- The loop returns, with miners and accounts as before in number and index.
abbrev Returns : ℕ → List Miner.Miner → Telemetry → Option (List Miner.Miner × Telemetry) → Type 0
Returns n ms tel none = ⊥
Returns n ms tel (some (ms', tel')) =
    Indexed n ms' × (length ms' ≡ length ms) × (length tel'.miners ≡ length tel.miners)

prepend-Returns :
    (n : ℕ) (m x : Miner.Miner) (ms : List Miner.Miner) (tel tel2 : Telemetry)
    (r : Option (List Miner.Miner × Telemetry))
    → x.index ≡ n
    → length tel2.miners ≡ length tel.miners
    → Returns (suc n) ms tel2 r
    → Returns n (m ∷ ms) tel (prepend_miner x r)
prepend-Returns n m x ms tel tel2 none i e h = h
prepend-Returns n m x ms tel tel2 (some (rest, last)) i e h = ((i, h.0), ap suc h.1, h.2 ∙ e)

collect_miners-Returns :
    (r s : ℤ → Reading) (f : Farm) (n : ℕ) (ms : List Miner.Miner) (hr : Float) (tel : Telemetry)
    → Indexed n ms
    → length tel.miners ≡ n + length ms
    → Returns n ms tel (collect_miners r s f ms hr tel)
unfolding collect_miners
collect_miners-Returns r s f n [] hr tel h e = (tt, refl, refl)
collect_miners-Returns r s f n (m ∷ ms) hr tel h e =
    let (t, found) = get_elem?-lt tel.miners m.index (omega arith) in
    let account = record t { hashrate = shown_rate m; is_paused = Miner.paused m } in
    let (m', t') = monitor r s f m account in
    let total = plus hr (shown_rate m) in
    let tel' : Telemetry = post tel m.index t' total in
    let kept : length tel'.miners ≡ length tel.miners = length-set tel.miners m.index t' in
    rw (found, collect_miners)
      (prepend-Returns n m (Miner.trigger_hash_rate_update m') ms tel tel'
        (collect_miners r s f ms total tel')
        (index-trigger m' ∙ index-monitor r s f m account ∙ h.0) kept
        (collect_miners-Returns r s f (suc n) ms total tel' h.1 (omega (arith, kept, e))))

-- What the end of a round leaves, by g_exitOnError: a state with the shape, and the exception of a hung
-- miner just where that is set.
abbrev pub Ends : Bool → Collected → Type 0
Ends exit (rearmed f) = Inv f
Ends exit (hung f i) = (exit ≡ false) × Inv f × (i < length f.miners)
Ends exit (hung_gpu f i) = (exit ≡ true) × Inv f × (i < length f.miners)
Ends exit out_of_range = ⊥

hung-Ends :
    (exit : Bool) (f : Farm) (i : ℕ)
    → Inv f
    → i < length f.miners
    → Ends exit (if exit then hung_gpu f i else hung f i)
hung-Ends true f i v h = (refl, v, h)
hung-Ends false f i v h = (refl, v, h)

-- The end of a round, from the ends of its two loops.
collected :
    (exit : Bool) (f : Farm) (ms : List Miner.Miner) (r : Option (List Miner.Miner × Telemetry))
    → Inv f
    → length ms ≡ length f.miners
    → Returns 0 ms f.telemetry r
    → Ends exit (finish_round f r)
collected exit f ms none v e h = h
collected exit f ms (some (ms', tel)) v e h = record {
  accounts = omega (arith, h, e, v.accounts);
  indexed = h.0;
  idle = λ still. nil_of_length ms' (omega (arith, h, e, ap length (v.idle still)));
}

-- A round ends with the farm's shape kept, and never with an exception of its tables; where it stops at a
-- hung miner, that is one of the farm's, and it throws there just if g_exitOnError is set.
pub collect_data-Ends :
    (exit : Bool) (r s : ℤ → Reading) (f : Farm) → Inv f → Ends exit (collect_data exit r s f)
unfolding collect_data
collect_data-Ends exit r s f v =
    let (ms, found) = check_hung f.miners in
    let kept = check_hung-Indexed 0 f.miners v.indexed in
    elim (Option-cases found) [
      | inl e ↦
          rw (e, collect_data)
            (collected exit f ms (collect_miners r s f ms zero_float f.telemetry) v kept.1 (
              collect_miners-Returns r s f 0 ms zero_float f.telemetry kept.0
                (omega (arith, kept, v.accounts))))
      | inr (i, e) ↦
          let inside = check_hung_index 0 f.miners i v.indexed e in
          rw (e, collect_data)
            (hung-Ends exit (record f { miners = ms }) i
              (record {
                accounts = omega (arith, kept, v.accounts);
                indexed = kept.0;
                idle = λ still. nil_of_length ms (omega (arith, kept, ap length (v.idle still)));
              })
              (omega (arith, inside, kept)))
    ]
