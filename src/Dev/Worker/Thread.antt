-- ===== src/Dev/Worker/Thread.antt =====
-- libdev/Worker.cpp: the thread of a worker and its owner as two processes that share `m_state`. The
-- owner's calls exclude each other by workerWorkMutex, so there is one owner. Each atomic operation
-- on the state is one step. Left: raise(SIGTERM) after an exception under g_exitOnError, and the throw
-- of what is no exception, which ends the program.
use etcminer.Prelude.{ℕ, zero, suc, Bool, true, if◌then◌else◌}
use etcminer.Dev.Worker.{
  WorkerState, starting, started, stopping, stopped, killing, Worker, new_worker, start_working,
  stop_started, trigger_stop_working,
}

-- Where the thread stands: before its creation, at the test of its loop, at the claim of `started`, in
-- workLoop, at the first exchange after it, at the second one, in the loop that sleeps, and after all.
pub data ThreadPlace : Type 0 where
  unborn at_test at_claim working leaving : ThreadPlace
  putting_back : WorkerState → ThreadPlace
  resting ended : ThreadPlace

-- Where the owner stands: outside every call, in the waits of startWorking and stopWorking, in the
-- join of the destructor, and after it.
pub data OwnerPlace : Type 0 where
  idle awaiting_start awaiting_stop joining gone : OwnerPlace

pub record System : Type 0 where
  pub worker : Worker
  pub thread : ThreadPlace
  pub owner : OwnerPlace

-- The first exchange: the state is `stopped`, unless it was `killing` or `starting` before, which the
-- second exchange puts back.
unfoldable pub after_exchange : WorkerState → ThreadPlace
after_exchange killing = putting_back killing
after_exchange starting = putting_back starting
after_exchange started = resting
after_exchange stopping = resting
after_exchange stopped = resting

-- m_state.compare_exchange_strong(Starting, Started)
unfoldable pub claim_started : WorkerState → WorkerState
claim_started starting = started
claim_started s = s

-- while (m_state != Killing)
unfoldable pub test_killing : WorkerState → ThreadPlace
test_killing killing = ended
test_killing s = at_claim

-- while (m_state == Stopped)
unfoldable pub test_stopped : WorkerState → ThreadPlace
test_stopped stopped = resting
test_stopped s = at_test

-- One step of the thread; `returns` is whether a workLoop that runs returns or throws now.
unfoldable pub thread_step : Bool → Worker → ThreadPlace → Worker × ThreadPlace
unfolding after_exchange claim_started test_killing test_stopped
thread_step returns w unborn = (w, unborn)
thread_step returns w at_test = (w, test_killing w.state)
thread_step returns w at_claim = (record w { state = claim_started w.state }, working)
thread_step returns w working = (w, if returns then leaving else working)
thread_step returns w leaving = (record w { state = stopped }, after_exchange w.state)
thread_step returns w (putting_back ex) = (record w { state = ex }, resting)
thread_step returns w resting = (w, test_stopped w.state)
thread_step returns w ended = (w, ended)

unfoldable pub run_thread : Bool → System → System
unfolding thread_step
run_thread returns s =
    let (w, place) = thread_step returns s.worker s.thread in
    record s { worker = w; thread = place }

-- The calls of the owner.
pub data Call : Type 0 where
  start_working_call trigger_stop_working_call stop_working_call destroy_call : Call

-- The thread runs from the first startWorking on.
unfoldable pub spawn : ThreadPlace → ThreadPlace
spawn unborn = at_test
spawn place = place

-- A call, made outside every other one, up to its wait.
unfoldable pub begin : Call → System → System
unfolding start_working stop_started trigger_stop_working spawn
begin start_working_call s = record s {
  worker = start_working s.worker;
  thread = spawn s.thread;
  owner = awaiting_start;
}
begin trigger_stop_working_call s = record s { worker = trigger_stop_working s.worker }
begin stop_working_call s =
    if s.worker.has_thread
    then record s {
      worker = (record (s.worker) { state = stop_started s.worker.state });
      owner = awaiting_stop;
    }
    else s
begin destroy_call s =
    if s.worker.has_thread
    then record s { worker = (record (s.worker) { state = killing }); owner = joining }
    else record s { owner = gone }

unfoldable pub call : Call → System → System
unfolding begin
call c s = elim s.owner [
  | idle ↦ begin c s
  | awaiting_start ↦ s
  | awaiting_stop ↦ s
  | joining ↦ s
  | gone ↦ s
]

-- The tests of the waiting loops.
unfoldable pub after_start : WorkerState → OwnerPlace
after_start starting = awaiting_start
after_start s = idle

unfoldable pub after_stop : WorkerState → OwnerPlace
after_stop stopped = idle
after_stop s = awaiting_stop

unfoldable pub after_join : ThreadPlace → OwnerPlace
after_join ended = gone
after_join place = joining

-- One step of the owner in a wait.
unfoldable pub wait : System → System
unfolding after_start after_stop after_join
wait s = elim s.owner [
  | idle ↦ s
  | awaiting_start ↦ record s { owner = after_start s.worker.state }
  | awaiting_stop ↦ record s { owner = after_stop s.worker.state }
  | joining ↦ record s { owner = after_join s.thread }
  | gone ↦ s
]

-- The steps of either process, and the systems that they lead to.
pub data Step : System → System → Type 0 where
  by_thread : (returns : Bool) (s : System) → Step s (run_thread returns s)
  by_call : (c : Call) (s : System) → Step s (call c s)
  by_wait : (s : System) → Step s (wait s)

pub data Reachable : System → Type 0 where
  at_first : Reachable (record { worker = new_worker; thread = unborn; owner = idle })
  after : {s t : System} → Reachable s → Step s t → Reachable t

-- Steps of the thread alone, in which a workLoop that runs returns.
unfoldable pub run_threads : ℕ → System → System
unfolding run_thread
run_threads zero s = s
run_threads (suc n) s = run_threads n (run_thread true s)
