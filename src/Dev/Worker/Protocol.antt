-- ===== src/Dev/Worker/Protocol.antt =====
-- What holds of a worker's thread and its owner in every interleaving of their steps.
use etcminer.Prelude.{◌≡◌, refl, arith, Bool, true, false, not, ◌⊎◌}
use etcminer.Dev.Worker.{
  WorkerState, starting, stopping, stopped, killing, new_worker, start_working, stop_started,
  trigger_stop_working, should_stop,
}
use etcminer.Dev.Worker.Thread.{
  ThreadPlace, unborn, at_test, at_claim, working, leaving, putting_back, resting, ended,
  OwnerPlace, idle, awaiting_start, awaiting_stop, joining, gone, System, thread_step, run_thread,
  Call, begin, call, wait, Step, by_thread, by_call, by_wait, Reachable, at_first, after,
  run_threads,
}

-- The states that m_state can have, by the places of the thread and the owner.
abbrev pub fits : ThreadPlace → OwnerPlace → WorkerState → Bool
fits unborn idle s = true
fits unborn gone s = true
fits unborn o s = false
fits (putting_back killing) joining stopped = true
fits (putting_back ex) o s = false
fits ended joining killing = true
fits ended gone killing = true
fits ended o s = false
fits p gone s = false
fits p joining killing = true
fits p joining s = false
fits p o killing = false
fits at_test awaiting_start starting = true
fits at_test o s = false
fits at_claim awaiting_start starting = true
fits at_claim o s = false
fits working o starting = false
fits working o stopped = false
fits working awaiting_stop stopping = true
fits working awaiting_stop s = false
fits working o s = true
fits leaving o starting = false
fits leaving o stopped = false
fits leaving awaiting_stop stopping = true
fits leaving awaiting_stop s = false
fits leaving o s = true
fits resting awaiting_start starting = true
fits resting o stopped = true
fits resting o s = false

-- A thread exists once it is born.
abbrev pub born : ThreadPlace → Bool → Bool
born unborn b = not b
born p b = b

abbrev pub Sound : System → Type 0
Sound s = (fits s.thread s.owner s.worker.state ≡ true) × (born s.thread s.worker.has_thread ≡ true)

run_thread-Sound : (returns : Bool) (s : System) → Sound s → Sound (run_thread returns s)
unfolding run_thread thread_step
run_thread-Sound returns s sound = ground arith

call-Sound : (c : Call) (s : System) → Sound s → Sound (call c s)
unfolding call begin start_working trigger_stop_working stop_started
call-Sound c s sound = ground arith

wait-Sound : (s : System) → Sound s → Sound (wait s)
unfolding wait
wait-Sound s sound = ground arith

Step-Sound : {s t : System} → Sound s → Step s t → Sound t
Step-Sound sound (by_thread returns s) = run_thread-Sound returns s sound
Step-Sound sound (by_call c s) = call-Sound c s sound
Step-Sound sound (by_wait s) = wait-Sound s sound

reachable-Sound : {s : System} → Reachable s → Sound s
unfolding new_worker
reachable-Sound at_first = (refl, refl)
reachable-Sound (after r step) = Step-Sound (reachable-Sound r) step

abbrev pub is_waiting : OwnerPlace → Bool
is_waiting idle = false
is_waiting awaiting_start = true
is_waiting awaiting_stop = true
is_waiting joining = true
is_waiting gone = false

Sound-wait_ends : (s : System) → Sound s → is_waiting (wait (run_threads 6 s)).owner ≡ false
unfolding run_threads run_thread thread_step wait
Sound-wait_ends s sound = ground arith

-- In whatever order the owner's calls and the thread's steps interleave, a call of startWorking, of
-- stopWorking or of the destructor that waits is past its wait after six steps of the thread, if
-- the work loop that runs returns.
pub wait-ends : (s : System) → Reachable s → is_waiting (wait (run_threads 6 s)).owner ≡ false
wait-ends s r = Sound-wait_ends s (reachable-Sound r)

Sound-request :
    (s : System)
    → Sound s
    → (s.owner ≡ awaiting_stop) ⊎ (s.owner ≡ joining)
    → s.thread ≡ working
    → should_stop s.worker ≡ true
unfolding should_stop
Sound-request s sound asked works = ground arith

-- In every reachable system, while the owner waits in stopWorking or in the destructor, a work loop
-- that runs reads true from shouldStop: no interleaving loses the request.
pub request-should_stop :
    (s : System)
    → Reachable s
    → (s.owner ≡ awaiting_stop) ⊎ (s.owner ≡ joining)
    → s.thread ≡ working
    → should_stop s.worker ≡ true
request-should_stop s r = Sound-request s (reachable-Sound r)

Sound-stopped :
    (s : System) → Sound s → s.owner ≡ awaiting_stop → (wait s).owner ≡ idle → s.thread ≡ resting
unfolding wait
Sound-stopped s sound waits done = ground arith

-- In every reachable system, when the wait of stopWorking ends, the thread rests in its loop that
-- sleeps and is not in the work loop.
pub stop_working-rests :
    (s : System)
    → Reachable s
    → s.owner ≡ awaiting_stop
    → (wait s).owner ≡ idle
    → s.thread ≡ resting
stop_working-rests s r = Sound-stopped s (reachable-Sound r)
