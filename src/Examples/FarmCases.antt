-- ===== src/Examples/FarmCases.antt =====
-- The farm's theorems at concrete inputs.
use etcminer.Prelude.{
  false, ℕ, ◌+◌, ◌*◌, ◌/◌, ◌^◌, ◌<◌, ◌≡◌, ◌≢◌, refl, arith, true, List, [], ◌∷◌, some, Text, codes,
  get_elem?, u64,
}
use etcminer.Eth.Work.{no_work}
use etcminer.Eth.Miner
use etcminer.Eth.Miner.Flags.{overheating, farm_paused}
use etcminer.Eth.Farm.Nonce.{ceil_log2, fixed_bits, segment_bits, base_nonce, assign_work, set_work}
use etcminer.Eth.Farm.Nonce.Disjoint.{set_work-disjoint}
use etcminer.Eth.Farm.Nonce.Prefix.{set_work-user_prefix}
use etcminer.Eth.Farm.Collect.{control_temperature, no_reading, collect_data}
use etcminer.Eth.Farm.Shape.{Inv}
use etcminer.Eth.Farm.Shape.Rounds.{Ends, collect_data-Ends}
use etcminer.Eth.Farm.Shape.Operations.{
  Operation, starts, stops, pauses, works, apply_all, apply_all-Inv,
}
use etcminer.Eth.Farm.Pausing.{Hysteretic, control_temperature-hysteresis}
use etcminer.Examples.Fixtures.{a_miner, three_miners, plain_settings, idle_farm, a_job, a_build}

abbrev read_ab : Text → ℕ
read_ab t = 0xab

second_nonces :
    get_elem? (set_work read_ab 0 no_work (three_miners [])).miners 1
    ≡ some (Miner.set_work (record no_work { start_nonce = 2 ^ 62 }) (a_miner 1))
unfolding set_work assign_work segment_bits base_nonce ceil_log2 fixed_bits
second_nonces = refl

first_nonces :
    get_elem? (set_work read_ab 0 no_work (three_miners [])).miners 0
    ≡ some (Miner.set_work no_work (a_miner 0))
unfolding set_work assign_work segment_bits base_nonce ceil_log2 fixed_bits
first_nonces = refl

set_work-disjoint_example : u64 (0 + 5) ≢ u64 (2 ^ 62 + 7)
unfolding Miner.set_work Miner.paused segment_bits ceil_log2 fixed_bits
set_work-disjoint_example =
    set_work-disjoint read_ab 0 no_work (three_miners []) 0 1 5 7 (omega arith) (omega arith)
      (omega arith) refl refl refl refl first_nonces second_nonces (omega arith) (omega arith)

user_nonces :
    get_elem? (set_work read_ab 0 no_work (three_miners (codes "ab"))).miners 1
    ≡ some (Miner.set_work (record no_work { start_nonce = 0xab * 2 ^ 56 + 2 ^ 54 }) (a_miner 1))
unfolding set_work assign_work segment_bits base_nonce ceil_log2 fixed_bits
user_nonces = refl

set_work-user_prefix_example :
    (0xab * 2 ^ 56 + 2 ^ 54 + 9 < 18446744073709551616)
    × ((0xab * 2 ^ 56 + 2 ^ 54 + 9) / 2 ^ 56 ≡ 0xab)
unfolding Miner.set_work Miner.paused segment_bits ceil_log2 fixed_bits
set_work-user_prefix_example =
    set_work-user_prefix read_ab 0 no_work (three_miners (codes "ab")) (omega arith) (omega arith) 1
      9 refl (omega arith) refl refl user_nonces (omega arith)

three_miners-Inv : Inv (three_miners [])
three_miners-Inv = ground arith

collect_data-Ends_example :
    Ends true (collect_data true (λ i. no_reading) (λ i. no_reading) (three_miners []))
collect_data-Ends_example =
    collect_data-Ends true (λ i. no_reading) (λ i. no_reading) (three_miners []) three_miners-Inv

abbrev a_history : List Operation
a_history = starts a_build 3 ∷ works read_ab 0 a_job ∷ pauses ∷ stops ∷ []

apply_all-Inv_example : Inv (apply_all a_history idle_farm)
apply_all-Inv_example = apply_all-Inv a_history idle_farm refl refl

control_temperature-hysteresis_example :
    Hysteretic 40 80 85 false
      (Miner.pause_test overheating (control_temperature (plain_settings []) 85 (a_miner 0)))
    × (Miner.pause_test farm_paused (control_temperature (plain_settings []) 85 (a_miner 0))
        ≡ false)
unfolding Miner.pause_test
control_temperature-hysteresis_example =
    control_temperature-hysteresis (plain_settings []) 85 (a_miner 0) farm_paused (omega arith)
      (λ e. cc)
