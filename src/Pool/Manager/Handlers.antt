-- ===== src/Pool/Manager/Handlers.antt =====
-- The callbacks that PoolManager::PoolManager and setClientHandlers of libpool/PoolManager.cpp install in
-- the farm and in each client.
use etcminer.Prelude.{
  ℕ, ◌+◌, ◌/◌, Bool, true, false, not, ◌&&◌, ◌||◌, Option, some, none, [], ◌==◌, text_eq,
  if◌then◌else◌, u32, Text,
}
use etcminer.Prelude.Int.{ℤ, pos, negsuc, int_eq, minus_one}
use etcminer.Dev.FixedHash.{zero_hash}
use etcminer.Eth.Work.{WorkPackage, Solution, has_work}
use etcminer.Eth.Miner.Device.{accept, reject}
use etcminer.Eth.Farm.Nonce
use etcminer.Eth.Farm.Lifecycle
use etcminer.Eth.Farm.Accounts.{account_solution}
use etcminer.Pool.Manager.State.{
  Client, submit_solution, post_rotate_connect, Manager, Env, Outcome, ok, crash, emit,
  is_connected,
}

-- onMinerRestart
unfoldable pub miner_restart : Env → Manager → Manager
miner_restart env p = record p {
  farm =
      Lifecycle.start env.build env.now
        (if p.farm.is_mining then (Lifecycle.stop p.farm).0 else p.farm);
}

-- onSolutionFound: a solution without a connection is wasted.
unfoldable pub solution_found : Solution → Manager → Manager
solution_found s p = if is_connected p.client then emit (submit_solution s) p else p

-- onConnected, its first block: the work is reset, and a timer to return to the primary pool is set.
unfoldable pub reset_on_connect : Manager → Manager
reset_on_connect p = record p {
  connection_attempt = 0;
  current_wp = (record (p.current_wp) { job = []; header = zero_hash });
  failover_timer =
      (if not (p.active_connection_idx == 0) && not (p.settings.pool_failover_timeout == 0)
        then some p.settings.pool_failover_timeout
        else none);
}

-- onConnected
unfoldable pub on_connected : Env → Manager → Manager
unfolding reset_on_connect
on_connected env p =
    let q = reset_on_connect p in
    record q {
      farm =
          (if not q.farm.is_mining
            then Lifecycle.start env.build env.now q.farm
            else (if q.farm.is_paused then Lifecycle.resume q.farm else q.farm));
      submithr_timer =
          (if q.settings.report_hashrate
            then some q.settings.hash_rate_interval
            else q.submithr_timer);
      async_pending = false;
    }

abbrev pub unset_connection : Option Client → Option Client
unset_connection none = none
unset_connection (some c) = some (record c { conn = none })

-- onDisconnected: the clean-up, then the end of the run or the search for another connection.
unfoldable pub on_disconnected : Manager → Manager
on_disconnected p =
    let q = record p {
      client = unset_connection p.client;
      current_wp = (record (p.current_wp) { header = zero_hash });
      failover_timer = none;
      submithr_timer = none;
    } in
    if q.stopping
    then record q {
      farm = (if q.farm.is_mining then (Lifecycle.stop q.farm).0 else q.farm);
      running = false;
    }
    else emit post_rotate_connect (record q { async_pending = true; farm = Lifecycle.pause q.farm })

-- Whether a work package starts a new epoch; `mode` is the stratum mode of the client's connection.
unfoldable pub is_new_epoch : ℕ → WorkPackage → WorkPackage → Bool
is_new_epoch mode old new =
    int_eq old.epoch minus_one
    || (if mode == 3 then not (int_eq new.epoch old.epoch) else not (text_eq new.seed old.seed))

-- The epoch of a package that carries none: by its block, else by its seed.
unfoldable pub derive_epoch : (Text → ℤ) → WorkPackage → ℤ
derive_epoch epoch_of_seed w = elim w.block [
  | pos b ↦ pos (b / 30000)
  | negsuc n ↦ epoch_of_seed w.seed
]

-- The epoch with which the package is mined.
unfoldable pub settle_epoch : (Text → ℤ) → ℕ → WorkPackage → WorkPackage → ℤ
settle_epoch epoch_of_seed mode old new =
    if is_new_epoch mode old new
    then (if int_eq new.epoch minus_one then derive_epoch epoch_of_seed new else new.epoch)
    else old.epoch

-- The rest of onWorkReceived, for a package that is valid.
unfoldable pub take_work : Env → ℕ → WorkPackage → Manager → Manager
take_work env mode w p =
    let settled = record w { epoch = settle_epoch env.epoch_of_seed mode p.current_wp w } in
    record p {
      current_wp = settled;
      epoch_changes =
          (if is_new_epoch mode p.current_wp w then u32 (p.epoch_changes + 1) else p.epoch_changes);
      last_block = w.block;
      farm = Nonce.set_work env.strtoull env.random settled p.farm;
    }

-- The stratum mode that onWorkReceived reads: only where the current epoch is known, through the
-- client's connection, whose absence is undefined behaviour.
abbrev pub mode_read : Manager → Option ℕ
mode_read p = if int_eq p.current_wp.epoch minus_one then some 0 else elim p.client [
  | none ↦ none
  | some c ↦ elim c.conn [ none ↦ none | some a ↦ some (p.uris a).stratum_mode ]
]

unfoldable pub on_work_received : Env → WorkPackage → Manager → Outcome
on_work_received env w p =
    if has_work w
    then elim (mode_read p) [ none ↦ crash | some mode ↦ ok (take_work env mode w p) ]
    else ok p

-- onSolutionAccepted and onSolutionRejected: an index out of range throws out of the callback.
unfoldable pub on_solution_accepted : Env → ℕ → Manager → Outcome
on_solution_accepted env midx p =
    let (f, threw) = account_solution midx accept env.now p.farm in
    if threw then crash else ok (record p { farm = f })

unfoldable pub on_solution_rejected : Env → ℕ → Manager → Outcome
on_solution_rejected env midx p =
    let (f, threw) = account_solution midx reject env.now p.farm in
    if threw then crash else ok (record p { farm = f })
