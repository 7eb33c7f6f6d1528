-- ===== src/Examples/PoolCases.antt =====
-- The pool manager's theorems at concrete inputs.
use etcminer.Prelude.{
  ◌+◌, ◌≡◌, refl, arith, true, false, [], ◌∷◌, inl, some, none, get_elem?, length, All, text_eq,
  u32, if◌then◌else◌,
}
use etcminer.Prelude.Int.{ℤ}
use etcminer.Prelude.{◌+◌, ◌*◌, ◌^◌, u64}
use etcminer.Eth.Work.{has_work}
use etcminer.Eth.Miner
use etcminer.Pool.Manager.State.{Manager, ok, post_rotate_connect}
use etcminer.Pool.Manager.Handlers.{is_new_epoch, on_work_received}
use etcminer.Pool.Manager.Api
use etcminer.Pool.Manager.Step.{disconnects, removes, adds, step, run}
use etcminer.Pool.Manager.Active.{ActiveInRange, run-ActiveInRange}
use etcminer.Pool.Manager.Removal.{remove_connection-keeps_active}
use etcminer.Pool.Manager.RoundRobin.{Searching}
use etcminer.Pool.Manager.Rounds.{rotations, Stands, rotations-Stands}
use etcminer.Pool.Manager.Jobs.{Settled, work_reaches_miners}
use etcminer.Eth.Farm.Nonce.{base_nonce, segment_bits}
use etcminer.Pool.Manager.Shutdown.{IsIdle, LetGo, listed, disconnects-IsIdle}
use etcminer.Examples.Fixtures.{a_job, an_env, a_client, a_manager, pool_settings}

abbrev pools : Manager
pools = record (a_manager (0 ∷ 1 ∷ 2 ∷ []) a_client) { active_connection_idx = 1 }

abbrev lost : Manager
lost = a_manager (0 ∷ 1 ∷ 2 ∷ []) (record a_client { connected = false })

run-ActiveInRange_example :
    ActiveInRange
      (record pools { settings = pool_settings (1 ∷ 2 ∷ 5 ∷ []); active_connection_idx = 0 })
unfolding run step Api.remove_connection Api.add_connection
run-ActiveInRange_example =
    run-ActiveInRange an_env pools _ (removes 0 ∷ adds 5 ∷ []) (inl (omega arith)) refl

remove_connection-keeps_active_example :
    (q : Manager) × (Api.remove_connection 0 pools ≡ ok q)
    × (Api.get_active_connection q ≡ Api.get_active_connection pools)
    × (length q.settings.connections + 1 ≡ length pools.settings.connections)
    × (q.client ≡ pools.client)
    × (q.farm.miners ≡ pools.farm.miners)
remove_connection-keeps_active_example =
    remove_connection-keeps_active 0 pools refl (omega arith) (omega arith)

lost-Searching : Searching lost
unfolding text_eq
lost-Searching = record {
  limited = omega arith;
  limit_word = omega arith;
  several = omega arith;
  count_word = omega arith;
  usable = λ i a h. refl;
  inside = omega arith;
  tried = omega arith;
  down = refl;
}

-- The seventh call goes to the third connection, at its first attempt.
rotations-Stands_example : (q : Manager) × (rotations 7 lost ≡ ok q) × Stands lost 6 q
rotations-Stands_example = rotations-Stands lost 6 lost-Searching refl

work_reaches_miners_example :
    (q : Manager) × (m' : Miner.Miner) × (epoch : ℤ) × (on_work_received an_env a_job pools ≡ ok q)
    × (get_elem? q.farm.miners 2 ≡ some m')
    × Settled an_env.epoch_of_seed 0 pools.current_wp a_job epoch
    × (m'.work ≡ record a_job {
      epoch = epoch;
      start_nonce = u64 (
          base_nonce an_env.strtoull an_env.random pools.farm.settings a_job
          + 2 * 2 ^ segment_bits 3 pools.farm.settings a_job);
    })
    × (q.epoch_changes ≡ (
        if is_new_epoch 0 pools.current_wp a_job
        then u32 (pools.epoch_changes + 1)
        else pools.epoch_changes))
unfolding has_work text_eq Miner.paused
work_reaches_miners_example =
    work_reaches_miners an_env a_job pools 0 2 refl refl (omega arith) refl refl

disconnects-IsIdle_example :
    (q : Manager) × (step an_env pools disconnects ≡ ok q)
    × All IsIdle q.farm.miners
    × (has_work q.current_wp ≡ false)
    × (q.calls ≡ post_rotate_connect ∷ pools.calls)
    × (q.async_pending ≡ true)
    × All LetGo (listed q.client)
    × (q.failover_timer ≡ none)
    × (q.submithr_timer ≡ none)
    × (q.running ≡ pools.running)
disconnects-IsIdle_example = disconnects-IsIdle an_env pools refl
