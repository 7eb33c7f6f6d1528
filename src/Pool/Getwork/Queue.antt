-- ===== src/Pool/Getwork/Queue.antt =====
-- The queue of requests of the getwork client, over everything that happens to it.
use etcminer.Prelude.{ℕ, ◌≡◌, false, List, [], ◌∷◌, Option, Text}
use etcminer.Eth.Work.{Solution}
use etcminer.Pool.Session.{Session}
use etcminer.Pool.Stratum.State.{Request}
use etcminer.Pool.Getwork.{
  GetworkClient, Ended, disconnect, connect, handle_resolve, handle_connect, handle_write,
  submit_solution, submit_hashrate, timer_elapsed, after_response,
}

-- What happens to the client, less the contents of a response.
pub data Event : Type 0 where
  connects : ℕ → Event
  disconnects : Event
  resolved : Option (List ℕ) → Event
  connection_ends write_ends : Ended → Event
  submits : Solution → Event
  reports : ℕ → Text → Event
  timer_ends response_ends : Event

abbrev pub step : (Request → ℕ) → ℕ → Event → GetworkClient → GetworkClient
step id_of now (connects address) c = connect now address c
step id_of now disconnects c = disconnect now c
step id_of now (resolved found) c = handle_resolve now found c
step id_of now (connection_ends e) c = handle_connect id_of e now c
step id_of now (write_ends e) c = handle_write e now c
step id_of now (submits s) c = submit_solution now s c
step id_of now (reports rate id) c = submit_hashrate now rate id c
step id_of now timer_ends c = timer_elapsed now c
step id_of now response_ends c = after_response now c

-- Events with the times at which they happen.
abbrev pub run : (Request → ℕ) → List (ℕ × Event) → GetworkClient → GetworkClient
run id_of [] c = c
run id_of ((now, e) ∷ es) c = run id_of es (step id_of now e c)

-- While a request waits, m_txPending is set: an operation was begun, and has not been reported as done.
pub record IsServed (c : GetworkClient) : Type 0 where
  pub none_waits : c.tx_pending ≡ false → c.tx_queue ≡ []
