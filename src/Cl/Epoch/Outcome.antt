-- ===== src/Cl/Epoch/Outcome.antt =====
-- How CLMiner::initEpoch ends.
use etcminer.Prelude.{
  ◌*◌, ℕ, ltb, ◌<◌, ◌≤◌, Bool, true, false, List, [], ◌∷◌, ◌++◌, map, Option, some, none, ◌≡◌, refl,
  arith, inl, inr, Bool-cases, Option-cases, if◌then◌else◌, u32,
}
use etcminer.Eth.Miner
use etcminer.Eth.Work.{has_work}
use etcminer.Dev.FixedHash.{zero_hash}
use etcminer.Eth.Miner.Flags.{insufficient_memory, set_flag}
use etcminer.Cl.State.{
  ClMiner, Call, OpenCl, ClError, out_of_resources, out_of_host_memory, device_not_found,
  other_error, make_whole_dag, generate_dag, set_final_args, Ending, returns, throws, locks_again,
  abort_search,
}
use etcminer.Cl.Buffers.{
  lock_abort, free_buffers, call, perform, unlock_abort, kick_miner, pause, resume,
}
use etcminer.Cl.Dag.{dag_runs}
use etcminer.Cl.Epoch.{
  required_memory, catch, abandon, halves, make_dag, buffers_refused, make_buffers, remaining_calls,
  complete, build, init_epoch,
}
use etcminer.Cl.Epoch.Rules.{
  Fails, Sound, bind-Sound, catch-Sound, LockedThrough, apply_all, answer-Sound, perform-Sound,
  if-Sound, abandon-locks_again, abandon-Sound,
}

-- The queues, the buffers and the first part of the DAG are there, and the mutex is locked.
abbrev IsBuilt : ClMiner → Type 0
IsBuilt s =
    (s.abort_locked ≡ true)
    × (s.queue ≡ true)
    × (s.search_buffer ≡ true)
    × (s.header ≡ true)
    × (s.first_dag ≡ true)

abbrev DagMade : Option Bool → ClMiner → Type 0
DagMade none s = ⊥
DagMade (some b) s = IsBuilt s

halves-Sound :
    (gpu : OpenCl) (s : ClMiner)
    → s.abort_locked ≡ true
    → s.queue ≡ true
    → s.search_buffer ≡ true
    → s.header ≡ true
    → Sound gpu DagMade (halves gpu s)
unfolding halves
halves-Sound gpu s locked queued searched headed =
    bind-Sound gpu (λ a t. IsBuilt t) DagMade _ _
      (perform-Sound gpu IsBuilt _ s (locked, (locked, tt))
        (locked, queued, searched, headed, refl))
      (λ a t h. h)

make_dag-Sound :
    (gpu : OpenCl) (s : ClMiner)
    → s.abort_locked ≡ true
    → s.queue ≡ true
    → s.search_buffer ≡ true
    → s.header ≡ true
    → Sound gpu DagMade (make_dag gpu s)
unfolding make_dag
make_dag-Sound gpu s locked queued searched headed =
    if-Sound gpu DagMade s.device.cl_split _ _
      (λ e. halves-Sound gpu s locked queued searched headed)
      (λ e.
        answer-Sound gpu DagMade make_whole_dag (gpu make_whole_dag) _ _ refl
          (locked, queued, searched, headed, refl)
          (λ err failed. halves-Sound gpu s locked queued searched headed))

buffers_refused-Sound :
    (gpu : OpenCl) (e : ClError) (s : ClMiner)
    → s.abort_locked ≡ true
    → Fails gpu
    → Sound gpu DagMade (buffers_refused gpu e s)
unfolding buffers_refused
buffers_refused-Sound gpu out_of_resources s h failed = abandon-Sound none gpu DagMade s h failed
buffers_refused-Sound gpu out_of_host_memory s h failed = abandon-Sound none gpu DagMade s h failed
buffers_refused-Sound gpu device_not_found s h failed = (h, failed)
buffers_refused-Sound gpu (other_error n) s h failed = (h, failed)

make_buffers-Sound :
    (gpu : OpenCl) (s : ClMiner)
    → s.abort_locked ≡ true
    → s.queue ≡ true
    → Sound gpu DagMade (make_buffers gpu s)
unfolding make_buffers
make_buffers-Sound gpu s locked queued =
    catch-Sound gpu DagMade (buffers_refused gpu) _
      (bind-Sound gpu
        (λ a t.
          (t.abort_locked ≡ true) × (t.queue ≡ true) × (t.search_buffer ≡ true) × (t.header ≡ true))
        DagMade _ _
        (perform-Sound gpu
          (λ t.
            (t.abort_locked ≡ true)
            × (t.queue ≡ true)
            × (t.search_buffer ≡ true)
            × (t.header ≡ true))
          _ s (locked, (locked, (locked, tt))) (locked, queued, refl, refl))
        (λ a t h. make_dag-Sound gpu t h.0 h.1 h.2 h.3))
      (λ e t h failed. buffers_refused-Sound gpu e t h failed)

-- The runs of the kernel for the DAG change nothing of the miner.
abbrev Unchanging : List (Call × (ClMiner → ClMiner)) → Type 0
Unchanging [] = Unit {0}
Unchanging ((c, set) ∷ cs) = ((s : ClMiner) → set s ≡ s) × Unchanging cs

Unchanging-runs :
    (runs : List (ℕ × ℕ)) (cs : List (Call × (ClMiner → ClMiner)))
    → Unchanging cs
    → Unchanging (map (λ r. (generate_dag r.0 r.1, λ t. t)) runs ++ cs)
Unchanging-runs [] cs h = h
Unchanging-runs (r ∷ runs) cs h = (λ s. refl, Unchanging-runs runs cs h)

Unchanging-LockedThrough :
    (cs : List (Call × (ClMiner → ClMiner))) (s : ClMiner)
    → Unchanging cs
    → s.abort_locked ≡ true
    → LockedThrough cs s
Unchanging-LockedThrough [] s h locked = tt
Unchanging-LockedThrough ((c, set) ∷ cs) s h locked =
    (locked, rw (h.0 s) (Unchanging-LockedThrough cs s h.1 locked))

Unchanging-apply_all :
    (cs : List (Call × (ClMiner → ClMiner))) (s : ClMiner) → Unchanging cs → apply_all cs s ≡ s
Unchanging-apply_all [] s h = refl
Unchanging-apply_all ((c, set) ∷ cs) s h = rw (h.0 s) (Unchanging-apply_all cs s h.1)

-- What a miner whose initEpoch returned true is: ready to search, with the mutex free and not paused for
-- a failure to set up the epoch.
pub record IsReady (s : ClMiner) : Type 0 where
  pub unlocked : s.abort_locked ≡ false
  pub queued : s.queue ≡ true
  pub searched : s.search_buffer ≡ true
  pub headed : s.header ≡ true
  pub held : s.first_dag ≡ true
  pub initialized : s.miner.initialized ≡ true
  pub enough_memory : s.miner.pause_flags.insufficient_memory_bit ≡ false
  pub no_error : s.miner.pause_flags.init_epoch_error_bit ≡ false

abbrev IsResumed : ClMiner → Type 0
IsResumed s =
    (s.miner.pause_flags.insufficient_memory_bit ≡ false)
    × (s.miner.pause_flags.init_epoch_error_bit ≡ false)

abbrev Completed : Bool → ClMiner → Type 0
Completed true s = IsReady s
Completed false s = ⊥

remaining-Sound :
    (gpu : OpenCl) (dag_ok : Bool) (s : ClMiner)
    → IsBuilt s
    → IsResumed s
    → Sound gpu (λ a t. IsBuilt t × IsResumed t) (perform gpu (remaining_calls dag_ok s) s)
unfolding remaining_calls
remaining-Sound gpu dag_ok s built resumed =
    let l = built.0 in
    let rest =
      Unchanging-runs (dag_runs s.device.cl_group_size s.block_multiple (u32 (s.dag_items * 2)))
        ((set_final_args, λ t. t) ∷ []) (λ t. refl, tt) in
    perform-Sound gpu (λ t. IsBuilt t × IsResumed t) (remaining_calls dag_ok s) s
      (l, (l, (l, (l, (l, (l, (l, (l, Unchanging-LockedThrough _ _ rest l))))))))
      (rw (Unchanging-apply_all _ s rest) (built, resumed))

complete-Sound :
    (gpu : OpenCl) (o : Option Bool) (s : ClMiner)
    → DagMade o s
    → Sound gpu Completed (complete gpu o s)
unfolding complete resume unlock_abort Miner.resume
complete-Sound gpu none s h = absurd h
complete-Sound gpu (some dag_ok) s h =
    bind-Sound gpu (λ a t. IsBuilt t × IsResumed t) Completed _ _
      (remaining-Sound gpu dag_ok _ h (refl, refl))
      (λ a t (built, resumed). record {
        unlocked = refl;
        queued = built.1;
        searched = built.2;
        headed = built.3;
        held = built.4;
        initialized = refl;
        enough_memory = resumed.0;
        no_error = resumed.1;
      })

free_buffers-Sound :
    (gpu : OpenCl) (s : ClMiner)
    → s.abort_locked ≡ false
    → Sound gpu (λ a t. t.abort_locked ≡ true) (free_buffers s)
unfolding free_buffers lock_abort
free_buffers-Sound gpu s free =
    bind-Sound gpu (λ a t. t.abort_locked ≡ true) (λ a t. t.abort_locked ≡ true) _ _
      (if-Sound gpu (λ a t. t.abort_locked ≡ true) s.abort_locked _ _ (λ e. cc) (λ e. refl))
      (λ a t locked. locked)

build-Sound :
    (gpu : OpenCl) (s : ClMiner) → s.abort_locked ≡ false → Sound gpu Completed (build gpu s)
unfolding build
build-Sound gpu s free =
    bind-Sound gpu (λ a t. t.abort_locked ≡ true) Completed _ _ (free_buffers-Sound gpu s free)
      (λ a t locked.
        bind-Sound gpu (λ a u. (u.abort_locked ≡ true) × (u.queue ≡ true)) Completed _ _
          (perform-Sound gpu (λ u. (u.abort_locked ≡ true) × (u.queue ≡ true)) _ t
            (locked, (locked, (locked, tt))) (locked, refl))
          (λ a u h.
            bind-Sound gpu DagMade Completed _ _ (make_buffers-Sound gpu _ h.0 h.1)
              (λ o v made. complete-Sound gpu o v made)))

-- How initEpoch ends where the device has enough memory.
abbrev pub Outcome : OpenCl → Ending Bool → Type 0
Outcome gpu (returns true s) = IsReady s
Outcome gpu (returns false s) = ⊥
Outcome gpu (throws e s) = ⊥
Outcome gpu (locks_again s) = Fails gpu

Outcome_of_caught :
    (gpu : OpenCl) (m : Ending Bool)
    → Sound gpu Completed m
    → Outcome gpu (catch (λ e u. abandon false gpu u) m)
Outcome_of_caught gpu (returns true s) h = h
Outcome_of_caught gpu (returns false s) h = h
Outcome_of_caught gpu (throws e s) h =
    let (t, locks) = abandon-locks_again false gpu s h.0 in rw locks h.1
Outcome_of_caught gpu (locks_again s) h = h

-- Where the device has the memory that the epoch needs, initEpoch never returns false: it returns true,
-- and then the miner is ready to search, with the mutex for aborting free; or a call of OpenCL has
-- failed, and the thread locks that mutex while it holds it. This is for a mutex that is free.
pub init_epoch-Outcome :
    (gpu : OpenCl) (s : ClMiner)
    → s.abort_locked ≡ false
    → required_memory s.epoch_context ≤ s.device.total_memory
    → Outcome gpu (init_epoch gpu s)
unfolding init_epoch
init_epoch-Outcome gpu s free fits =
    let test : ltb s.device.total_memory (required_memory s.epoch_context) ≡ false = ground arith in
    rw test (Outcome_of_caught gpu (build gpu _) (build-Sound gpu _ free))

-- What a miner is that initEpoch gave up for lack of memory: paused for that reason with no work, and
-- not ready.
pub record IsStarved (s : ClMiner) : Type 0 where
  pub unlocked : s.abort_locked ≡ false
  pub lacking : s.miner.pause_flags.insufficient_memory_bit ≡ true
  pub idle : has_work s.miner.work ≡ false
  pub uninitialized : s.miner.initialized ≡ false

kick_miner-free :
    (gpu : OpenCl) (s : ClMiner)
    → s.abort_locked ≡ false
    → gpu abort_search ≡ none
    → kick_miner gpu s
      ≡ returns tt (record s { abort_locked = false; miner = Miner.kick_miner s.miner })
unfolding kick_miner lock_abort unlock_abort call
kick_miner-free gpu s free aborts = elim (Bool-cases s.abort_queue) [
  | inl e ↦ ground (arith, e, aborts, free)
  | inr e ↦ ground (arith, e, free)
]

-- Where the device lacks the memory, initEpoch returns false with the miner paused for that reason and
-- without work. This is for a mutex that is free, and a device that takes the flag to abort.
pub init_epoch-IsStarved :
    (gpu : OpenCl) (s : ClMiner)
    → s.abort_locked ≡ false
    → s.device.total_memory < required_memory s.epoch_context
    → gpu abort_search ≡ none
    → (t : ClMiner) × (init_epoch gpu s ≡ returns false t) × IsStarved t
unfolding init_epoch pause Miner.pause Miner.kick_miner has_work etcminer.Prelude.text_eq
init_epoch-IsStarved gpu s free lacks aborts =
    let test : ltb s.device.total_memory (required_memory s.epoch_context) ≡ true = ground arith in
    rw
      (
        test,
        kick_miner-free gpu
            (record s {
              miner = (record (s.miner) {
                initialized = false;
                pause_flags = set_flag insufficient_memory s.miner.pause_flags;
                work = (record (s.miner.work) { header = zero_hash });
              });
            })
            free aborts,
      )
      (_, refl, record { unlocked = refl; lacking = refl; idle = refl; uninitialized = refl })
