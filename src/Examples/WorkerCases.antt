-- ===== src/Examples/WorkerCases.antt =====
-- The worker protocol's theorems at a worker that is started and then asked to stop.
use etcminer.Prelude.{◌≡◌, refl, true, false, inl}
use etcminer.Dev.Worker.{new_worker, start_working, stop_started, should_stop}
use etcminer.Dev.Worker.Thread.{
  unborn, working, idle, awaiting_stop, System, claim_started, test_killing, thread_step,
  run_thread, start_working_call, stop_working_call, spawn, begin, call, after_start, wait,
  by_thread, by_call, by_wait, Reachable, at_first, after, run_threads,
}
use etcminer.Dev.Worker.Protocol.{is_waiting, wait-ends, request-should_stop}

abbrev first_system : System
first_system = record { worker = new_worker; thread = unborn; owner = idle }

-- Started, at work, and asked to stop.
abbrev asked : System
asked =
    call stop_working_call
      (wait (run_thread false (run_thread false (call start_working_call first_system))))

asked-Reachable : Reachable asked
asked-Reachable =
    after
      (after (after (after (after at_first (by_call _ _)) (by_thread _ _)) (by_thread _ _))
        (by_wait _))
      (by_call _ _)

wait-ends_example : is_waiting (wait (run_threads 6 asked)).owner ≡ false
wait-ends_example = wait-ends asked asked-Reachable

asked_owner : asked.owner ≡ awaiting_stop
unfolding call wait run_thread thread_step begin start_working new_worker spawn test_killing
    claim_started after_start stop_started
asked_owner = refl

asked_thread : asked.thread ≡ working
unfolding call wait run_thread thread_step begin start_working new_worker spawn test_killing
    claim_started after_start stop_started
asked_thread = refl

request-should_stop_example : should_stop asked.worker ≡ true
request-should_stop_example =
    request-should_stop asked asked-Reachable (inl asked_owner) asked_thread
