-- ===== src/Eth/Farm/Pausing.antt =====
-- The reasons to pause a miner: pause and resume of libeth/Miner.cpp and libeth/Farm.cpp, and the
-- temperature control of Farm::collectData.
use mathlib.Core.Option
use etcminer.Prelude.{
  ℕ, zero, suc, ◌≡◌, ◌≢◌, refl, ap, arith, true, false, not, List, [], ◌∷◌, map, some, get_elem?,
  ◌≤◌, ◌<◌, Bool, Bool-cases, inl, inr, if◌then◌else◌, leb, text_eq_refl,
}
use etcminer.Dev.FixedHash.{zero_hash}
use etcminer.Eth.Work.{WorkPackage, has_work}
use etcminer.Eth.Miner
use etcminer.Eth.Miner.{Miner}
use etcminer.Eth.Miner.Flags.{MinerPause, overheating, farm_paused}
use etcminer.Eth.Farm.State.{Farm, FarmSettings}
use etcminer.Eth.Farm.Lifecycle.{pause, resume}
use etcminer.Eth.Farm.Collect.{control_temperature}

paused-pause : (what : MinerPause) (m : Miner.Miner) → Miner.paused (Miner.pause what m) ≡ true
unfolding Miner.pause Miner.paused
paused-pause overheating m = ground arith
paused-pause what m = ground arith

no_work_header :
    (what : MinerPause) (m : Miner.Miner)
    → has_work (record ((Miner.pause what m).work) { header = zero_hash }) ≡ false
unfolding has_work
no_work_header what m = rw (text_eq_refl zero_hash)

-- A miner paused for any reason has no work.
pub pause-idle :
    (what : MinerPause) (m : Miner.Miner)
    → (Miner.paused (Miner.pause what m) ≡ true) × (has_work (Miner.pause what m).work ≡ false)
unfolding Miner.pause has_work
pause-idle what m = (paused-pause what m, rw (text_eq_refl zero_hash))

-- Pausing a miner for one reason, then handing it work, leaves it paused with no work.
pub pause-set_work :
    (what : MinerPause) (w : WorkPackage) (m : Miner.Miner)
    → let m' = Miner.set_work w (Miner.pause what m) in
      (Miner.paused m' ≡ true) × (has_work m'.work ≡ false)
unfolding Miner.set_work Miner.pause has_work Miner.paused
pause-set_work what w m =
    let halted = paused-pause what m in
    (rw (halted, Miner.set_work) halted, rw (halted, Miner.set_work) (no_work_header what m))

-- The state of a hysteresis with the two limits: on from the upper limit on, off at and below the lower
-- limit, and in between as it was.
pub data Hysteretic (low high temp : ℕ) (was : Bool) : Bool → Type 0 where
  switched_on : was ≡ false → high ≤ temp → Hysteretic low high temp was true
  switched_off : was ≡ true → temp ≤ low → Hysteretic low high temp was false
  still_on : was ≡ true → low < temp → Hysteretic low high temp was true
  still_off : was ≡ false → temp < high → Hysteretic low high temp was false

hysteresis_step :
    (low high temp : ℕ) (was : Bool)
    → Hysteretic low high temp was (if was then not (leb temp low) else leb high temp)
hysteresis_step low high temp true = elim (Bool-cases (leb temp low)) [
  | inl e ↦ rw e (switched_off refl (ground arith))
  | inr e ↦ rw e (still_on refl (ground arith))
]
hysteresis_step low high temp false = elim (Bool-cases (leb high temp)) [
  | inl e ↦ rw e (switched_on refl (ground arith))
  | inr e ↦ rw e (still_off refl (ground arith))
]

control_temperature-flag :
    (s : FarmSettings) (temp : ℕ) (m : Miner.Miner)
    → s.temp_stop ≢ 0
    → Miner.pause_test overheating (control_temperature s temp m) ≡ (
        if Miner.pause_test overheating m
        then not (leb temp s.temp_start)
        else leb s.temp_stop temp)
unfolding control_temperature Miner.pause_test Miner.pause Miner.resume
control_temperature-flag s temp m on = ground arith

control_temperature-other :
    (s : FarmSettings) (temp : ℕ) (m : Miner.Miner) (other : MinerPause)
    → other ≢ overheating
    → Miner.pause_test other (control_temperature s temp m) ≡ Miner.pause_test other m
unfolding control_temperature Miner.pause_test Miner.pause Miner.resume
control_temperature-other s temp m other ne = ground (arith, ne)

-- Where a stop temperature is set, the temperature control is a hysteresis on the flag for overheating:
-- a flag that was not set is set just from the stop temperature on, and a flag that was set is lifted
-- just at the start temperature and below. No other flag of the miner changes.
pub control_temperature-hysteresis :
    (s : FarmSettings) (temp : ℕ) (m : Miner.Miner) (other : MinerPause)
    → s.temp_stop ≢ 0
    → other ≢ overheating
    → Hysteretic s.temp_start s.temp_stop temp
        (Miner.pause_test overheating m)
        (Miner.pause_test overheating (control_temperature s temp m))
      × (Miner.pause_test other (control_temperature s temp m) ≡ Miner.pause_test other m)
control_temperature-hysteresis s temp m other on ne = (
  rw (control_temperature-flag s temp m on)
      (hysteresis_step s.temp_start s.temp_stop temp (Miner.pause_test overheating m)),
  control_temperature-other s temp m other ne,
)

-- Suspending the farm and resuming it lifts the farm's own reason from every miner: a miner goes on
-- exactly when no other reason holds.
resume-pause_nth :
    (ms : List Miner.Miner) (i : ℕ) {m : Miner.Miner}
    → get_elem? ms i ≡ some m
    → get_elem? (map (Miner.resume farm_paused) (map (Miner.pause farm_paused) ms)) i
      ≡ some (Miner.resume farm_paused (Miner.pause farm_paused m))
resume-pause_nth [] i e = cc
resume-pause_nth (x ∷ ms) zero e =
    ap (Option.map (λ m. Miner.resume farm_paused (Miner.pause farm_paused m))) e
resume-pause_nth (x ∷ ms) (suc i) e = resume-pause_nth ms i e

-- The farm's pause and resume leave miner i paused exactly when it was paused for another reason than
-- the farm's.
pub resume-pause_farm :
    (f : Farm) (i : ℕ) {m : Miner.Miner}
    → get_elem? f.miners i ≡ some m
    → (m' : Miner.Miner) × (get_elem? (resume (pause f)).miners i ≡ some m')
      × (Miner.paused m' ≡ Miner.paused (Miner.resume farm_paused m))
unfolding resume pause
resume-pause_farm f i {m} e = (
  Miner.resume farm_paused (Miner.pause farm_paused m),
  resume-pause_nth f.miners i e,
  unfold Miner.paused Miner.resume Miner.pause in refl,
)
