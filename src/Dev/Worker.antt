-- ===== src/Dev/Worker.antt =====
-- libdev/Worker.h and libdev/Worker.cpp: the state of a worker thread and the calls that change it.
pub mod Thread
pub mod Protocol
use etcminer.Prelude.{Bool, true, false, if◌then◌else◌}

-- enum class WorkerState
pub data WorkerState : Type 0 where
  starting started stopping stopped killing : WorkerState

-- `has_thread` is whether m_work holds a thread.
pub record Worker : Type 0 where
  pub has_thread : Bool
  pub state : WorkerState

unfoldable pub new_worker : Worker
new_worker = record { has_thread = false; state = starting }

-- m_state.compare_exchange_strong(Stopped, Starting)
unfoldable pub restart_stopped : WorkerState → WorkerState
restart_stopped stopped = starting
restart_stopped s = s

-- m_state.compare_exchange_strong(Started, Stopping)
unfoldable pub stop_started : WorkerState → WorkerState
stop_started started = stopping
stop_started s = s

-- startWorking, up to its wait for the thread to leave `starting`.
unfoldable pub start_working : Worker → Worker
unfolding restart_stopped
start_working w =
    if w.has_thread
    then record w { state = restart_stopped w.state }
    else record { has_thread = true; state = starting }

unfoldable pub trigger_stop_working : Worker → Worker
unfolding stop_started
trigger_stop_working w = if w.has_thread then record w { state = stop_started w.state } else w

-- shouldStop
unfoldable pub should_stop : Worker → Bool
should_stop w = elim w.state [
  | starting ↦ true
  | started ↦ false
  | stopping ↦ true
  | stopped ↦ true
  | killing ↦ true
]
