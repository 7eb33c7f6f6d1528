-- ===== src/Pool/Stratum/Timer.antt =====
-- workloop_timer_elapsed, in EthStratumClient.cpp.
use etcminer.Prelude.{
  ℕ, ◌+◌, ◌-◌, ◌*◌, ◌/◌, Bool, not, ◌&&◌, [], ◌∷◌, Option, some, none, codes, ltb, leb, ◌==◌,
  if◌then◌else◌,
}
use etcminer.Pool.Stratum.State.{
  StratumClient, emit, is_connected, is_pending_state, posts_disconnect, posts_login_failure,
  arms_timer,
}
use etcminer.Pool.Stratum.Pleas.{clear_response_pleas}
use etcminer.Pool.Stratum.Sending.{send}
use etcminer.Pool.Stratum.Connecting.{
  is_open, is_secure, close_socket, drop_endpoint, id_member, method_member,
}

-- EthereumStratum/2.0.0: a message 5 seconds before the session would expire. The test is one of
-- signed numbers.
unfoldable pub keep_alive : ℕ → StratumClient → StratumClient
keep_alive now c = elim c.session [
  | none ↦ c
  | some s ↦
      if (c.uri.stratum_mode == 3) && ltb s.timeout ((now - s.last_tx_stamp) / 1000 + 5)
      then send (id_member 7 ∷ method_member (codes "mining.noop") ∷ []) c
      else c
]

-- A response or new work that did not come.
unfoldable pub time_out : ℕ → StratumClient → StratumClient
time_out now c = emit posts_disconnect (clear_response_pleas now (drop_endpoint c))

-- The tests while connecting or disconnecting: whether the timer's function returns here.
unfoldable pub check_pending : ℕ → StratumClient → Option StratumClient
check_pending now c =
    if is_pending_state c && leb (now - c.plea_older) (c.responsetimeout * 1000)
    then (if c.connecting
        then some (close_socket c)
        else (if c.disconnecting && (is_secure c && is_open c)
            then some (close_socket c)
            else none))
    else none

-- The login that was not answered.
unfoldable pub fail_login : ℕ → StratumClient → StratumClient
fail_login now c = emit posts_login_failure (clear_response_pleas now c)

-- No new work for too long.
unfoldable pub check_work : ℕ → StratumClient → StratumClient
check_work now c = elim c.session [
  | none ↦ c
  | some s ↦ if ltb c.worktimeout ((now - c.current_timestamp) / 1000) then time_out now c else c
]

-- The tests while connected, and the timer that is set again unless the login has failed.
unfoldable pub check_connected : ℕ → StratumClient → StratumClient
check_connected now c =
    if is_connected c
    then (if leb (c.responsetimeout * 1000) (now - c.plea_older)
        then (if not c.uri.stratum_mode_confirmed && not c.uri.unrecoverable
            then fail_login now c
            else emit arms_timer (time_out now c))
        else emit arms_timer (check_work now c))
    else emit arms_timer c

unfoldable pub check_pleas : ℕ → StratumClient → StratumClient
check_pleas now c =
    if c.pleas_count == 0
    then emit arms_timer c
    else elim (check_pending now c) [ some d ↦ d | none ↦ check_connected now c ]

-- `idle` is a timer that was cancelled, or a client without a connection.
unfoldable pub workloop_timer_elapsed : Bool → ℕ → StratumClient → StratumClient
workloop_timer_elapsed idle now c = if idle then c else check_pleas now (keep_alive now c)
