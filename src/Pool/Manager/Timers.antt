-- ===== src/Pool/Manager/Timers.antt =====
-- The timers of libpool/PoolManager.cpp. `aborted` is whether the error code is set, as when the timer
-- was cancelled.
use etcminer.Prelude.{◌+◌, Bool, not, ◌&&◌, some, none, ◌==◌, if◌then◌else◌, u32}
use etcminer.Pool.Manager.State.{connect, submit_hashrate, Manager, Outcome, ok, emit, is_connected}
use etcminer.Pool.Manager.Api.{disconnect_client}

-- Back to the primary pool.
unfoldable pub failovertimer_elapsed : Bool → Manager → Outcome
failovertimer_elapsed aborted p =
    if not aborted && (p.running && not (p.active_connection_idx == 0))
    then disconnect_client (record p {
      active_connection_idx = 0;
      connection_attempt = 0;
      connection_switches = u32 (p.connection_switches + 1);
    })
    else ok p

-- Report the farm's hash rate and set the timer again.
unfoldable pub submithrtimer_elapsed : Bool → Manager → Manager
submithrtimer_elapsed aborted p =
    if not aborted && p.running
    then (let q = record p { submithr_timer = some p.settings.hash_rate_interval } in
        if is_connected q.client
        then emit (submit_hashrate q.farm.telemetry.farm.hashrate q.settings.hash_rate_id) q
        else q)
    else p

unfoldable pub reconnecttimer_elapsed : Bool → Manager → Manager
reconnecttimer_elapsed aborted p =
    if not aborted && p.running
    then elim p.client [ none ↦ p | some c ↦ if c.connected then p else emit connect p ]
    else p
