-- ===== src/Pool/Manager/Step.antt =====
-- The events that reach the pool manager, and its step on each: callbacks of the clients and of the
-- farm, timers, calls through the API, and what the clients do to the objects that they share.
use etcminer.Prelude.{ℕ, Bool, true, false, List, [], ◌∷◌, Option, some, none, Text}
use etcminer.Eth.Work.{WorkPackage, Solution}
use etcminer.Pool.Uri
use etcminer.Pool.Manager.State.{
  Address, Client, Manager, Env, Outcome, ok, throws, crash, write_uri,
}
use etcminer.Pool.Manager.Rotate.{rotate_connect}
use etcminer.Pool.Manager.Handlers.{
  miner_restart, solution_found, on_connected, on_disconnected, on_work_received,
  on_solution_accepted, on_solution_rejected,
}
use etcminer.Pool.Manager.Api
use etcminer.Pool.Manager.Timers.{
  failovertimer_elapsed, submithrtimer_elapsed, reconnecttimer_elapsed,
}

pub data Event : Type 0 where
  -- The task that post_rotate_connect leaves.
  rotates : Event
  -- A client's connection comes up or goes down, with its callback.
  connects disconnects : Event
  works : WorkPackage → Event
  accepts rejects : ℕ → Event
  -- Callbacks of the farm.
  finds : Solution → Event
  restarts : Event
  -- Timers.
  failover_elapses submithr_elapses reconnect_elapses : Bool → Event
  -- Calls of the program and of the API.
  starts stops : Event
  adds : Address → Event
  removes activates : ℕ → Event
  activates_text : Text → Event
  -- A client marks the URI that it shares with the manager.
  marks : Address → Event

abbrev pub set_connected : Bool → Option Client → Option Client
set_connected b none = none
set_connected b (some c) = some (record c { connected = b })

unfoldable pub step : Env → Manager → Event → Outcome
step env p rotates = rotate_connect p
step env p connects = ok (on_connected env (record p { client = set_connected true p.client }))
step env p disconnects = ok (on_disconnected (record p { client = set_connected false p.client }))
step env p (works w) = on_work_received env w p
step env p (accepts i) = on_solution_accepted env i p
step env p (rejects i) = on_solution_rejected env i p
step env p (finds s) = ok (solution_found s p)
step env p restarts = ok (miner_restart env p)
step env p (failover_elapses aborted) = failovertimer_elapsed aborted p
step env p (submithr_elapses aborted) = ok (submithrtimer_elapsed aborted p)
step env p (reconnect_elapses aborted) = ok (reconnecttimer_elapsed aborted p)
step env p starts = ok (Api.start p)
step env p stops = ok (Api.stop p)
step env p (adds a) = ok (Api.add_connection a p)
step env p (removes i) = Api.remove_connection i p
step env p (activates i) = Api.set_active_connection i p
step env p (activates_text t) = Api.set_active_connection_text t p
step env p (marks a) = ok (write_uri a Uri.mark_unrecoverable p)

-- The state after an event: an exception of the API leaves the state as it was.
abbrev pub after : Manager → Outcome → Option Manager
after p (ok q) = some q
after p (throws e) = some p
after p crash = none

-- The state after a series of events, `none` once one of them crashes.
unfoldable pub run : Env → Manager → List Event → Option Manager
run env p [] = some p
run env p (e ∷ es) = elim (after p (step env p e)) [ none ↦ none | some q ↦ run env q es ]
