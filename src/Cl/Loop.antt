-- ===== src/Cl/Loop.antt =====
-- CLMiner::workLoop of libcl/CLMiner.cpp.
pub mod Searched
use etcminer.Prelude.{
  ℕ, ◌+◌, ◌*◌, ◌/◌, ◌^◌, ltb, Bool, false, List, [], ◌∷◌, map, take, Option, some, none, Text,
  text_eq, if◌then◌else◌, u32, u64,
}
use etcminer.Prelude.Int.{int_eq}
use etcminer.Dev.FixedHash.{zero_hash}
use etcminer.Dev.Endian.{from_big_endian}
use etcminer.Eth.Work.{WorkPackage, no_work, has_work, Solution}
use etcminer.Eth.Epoch.{Ethash, set_epoch, free_cache}
use etcminer.Eth.Batch.{Batch, SearchResults, reported}
use etcminer.Eth.Miner
use etcminer.Cl.State.{
  ClMiner, Call, OpenCl, ClError, Ending, returns, throws, locks_again, read_results, clear_results,
  write_header, zero_count, set_boundary, set_nonce, run_search, finish_queue,
}
use etcminer.Cl.Buffers.{free_buffers, unlock_abort, perform}
use etcminer.Cl.Epoch.{init_epoch}

-- The variables of the loop, and the device: the contents of its header buffer and its boundary, and
-- the batch whose results are in the search buffer, if they were not cleared. `batches` and
-- `submitted` are the runs of the kernel and the solutions given to the farm, newest first.
pub record Loop : Type 0 where
  pub miner : ClMiner
  pub current : WorkPackage
  pub start_nonce : ℕ
  pub header_contents : Text
  pub boundary_contents : ℕ
  pub search_contents : Option Batch
  pub batches : List Batch
  pub submitted : List Solution

-- What a round of the loop meets: the answers of OpenCL, the results of the device for a batch, what
-- work() returns at the head of the round and after the generation of a DAG, the multiple of blocks
-- by the hash rate if that is above 10^7, what the stack holds where hashCount is not set, and the
-- clock.
pub record Round : Type 0 where
  pub gpu : OpenCl
  pub device : Batch → SearchResults
  pub work : WorkPackage
  pub work_after : WorkPackage
  pub multiple : Option ℕ
  pub left_over : ℕ
  pub now : ℕ

-- How a round ends: the loop goes on; it is left after a failure of initEpoch; cl::Error is thrown; the
-- thread locks m_abortMutex twice; or it uses a queue that is not there.
pub data Turn : Type 0 where
  goes_on left stuck null_queue : Loop → Turn
  thrown : ClError → Loop → Turn

-- A part of the round that may not return.
unfoldable pub proceed : {A : Type 0} → Loop → Ending A → (A → Loop → Turn) → Turn
proceed l (returns a s) f = f a (record l { miner = s })
proceed l (throws e s) f = thrown e (record l { miner = s })
proceed l (locks_again s) f = stuck (record l { miner = s })

-- Calls that change the device and not the miner.
unfoldable pub guarded : OpenCl → List Call → Loop → (Loop → Turn) → Turn
guarded gpu calls l f = proceed l (perform gpu (map (λ c. (c, λ s. s)) calls) l.miner) (λ a m. f m)

-- Such calls through the queue.
unfoldable pub enqueue : OpenCl → List Call → Loop → (Loop → Turn) → Turn
enqueue gpu calls l f = if l.miner.queue then guarded gpu calls l f else null_queue l

-- (uint64_t)((u256)boundary >> 192)
unfoldable pub upper_boundary : WorkPackage → ℕ
upper_boundary w = u64 (from_big_endian 256 w.boundary / 2 ^ 192)

-- The results of the batch in the search buffer. Where the buffer was cleared, they are 0.
unfoldable pub results_of : Round → Option Batch → SearchResults
results_of r none = record { count = 0; hash_count = 0; gids = [] }
results_of r (some b) = r.device b

-- The head of the round: the results are read and cleared, if there is a queue. Without one only their
-- count is set.
unfoldable pub read : Round → Loop → (SearchResults → Loop → Turn) → Turn
read r l f =
    if l.miner.queue
    then guarded r.gpu (read_results ∷ clear_results ∷ []) l
        (λ m. f (results_of r l.search_contents) (record m { search_contents = none }))
    else f (record { count = 0; hash_count = r.left_over; gids = [] }) l

unfoldable pub set_hung : Bool → Loop → Loop
set_hung b l = record l {
  miner = (record (l.miner) { miner = (record (l.miner.miner) { hung_miner = b }) });
}

-- A header that differs from the one in the device is written to it, and the search starts anew.
unfoldable pub switch : Round → WorkPackage → Loop → (Loop → Turn) → Turn
switch r w l f =
    enqueue r.gpu (write_header ∷ zero_count ∷ set_boundary ∷ [])
      (record l { start_nonce = w.start_nonce })
      (λ m. f (record m {
        header_contents = w.header;
        boundary_contents = upper_boundary w;
        search_contents = none;
      }))

-- The epoch changes: the work is read again after its DAG is there.
unfoldable pub change_epoch :
    Ethash → Round → WorkPackage → Loop → (WorkPackage → Loop → Turn) → Turn
change_epoch ethash r w l f =
    proceed l (init_epoch r.gpu (record (l.miner) { epoch_context = set_epoch ethash w })) (λ b m.
      if b
      then f r.work_after (record m {
        miner = (record (m.miner) { epoch_context = free_cache m.miner.epoch_context });
      })
      else left m)

-- The work that the round goes on with.
unfoldable pub prepare : Ethash → Round → WorkPackage → Loop → (WorkPackage → Loop → Turn) → Turn
prepare ethash r w l f =
    if text_eq l.current.header w.header
    then f w l
    else (if int_eq l.current.epoch w.epoch
        then switch r w l (λ m. f w m)
        else change_epoch ethash r w l (λ v m. switch r v m (λ n. f v n)))

-- The multiple of blocks follows the hash rate.
unfoldable pub adjust : Option ℕ → Loop → Loop
adjust none l = l
adjust (some n) l = record l { miner = (record (l.miner) { block_multiple = u32 n }) }

unfoldable pub batch_blocks : Loop → ℕ
batch_blocks l = u32 (l.miner.device.cl_group_size * l.miner.block_multiple)

-- The kernel is run.
unfoldable pub run_kernel : Loop → Loop
unfolding batch_blocks
run_kernel l =
    let b : Batch = record {
      header = l.header_contents;
      start = l.start_nonce;
      count = batch_blocks l;
    } in
    record l { search_contents = some b; batches = b ∷ l.batches }

-- The loop over the results, cut to c_maxSearchResults.
unfoldable pub submit : List ℕ → Loop → Loop
submit [] l = l
submit (g ∷ gs) l = submit gs (record l {
  submitted =
      (record {
        nonce = u64 (l.current.start_nonce + g);
        mix_hash = zero_hash;
        work = l.current;
        midx = l.miner.miner.index;
      })
      ∷ l.submitted;
})

unfoldable pub report : SearchResults → Loop → Loop
report results l = submit (reported results) l

-- The work in the device becomes the current one, and the next batch follows it.
unfoldable pub advance : WorkPackage → SearchResults → ℕ → ℕ → Loop → Loop
advance w results count now l = record l {
  current = (record w { start_nonce = l.start_nonce });
  start_nonce = u64 (l.start_nonce + count);
  miner = (record (l.miner) {
    miner =
        Miner.update_hash_rate l.miner.device.cl_group_size results.hash_count now l.miner.miner;
  });
}

-- The rest of the round, with the work to search for.
unfoldable pub search : Round → SearchResults → WorkPackage → Loop → Turn
search r results w l =
    let m = adjust r.multiple l in
    enqueue r.gpu (set_nonce ∷ run_search ∷ []) m (λ n.
      goes_on
        (advance w results (batch_blocks n) r.now (report results (run_kernel (set_hung false n)))))

-- One round of the loop. While there is no work it waits for a signal, or for 3 seconds.
unfoldable pub round : Ethash → Round → Loop → Turn
round ethash r l = read r l (λ results m.
    if has_work r.work
    then prepare ethash r r.work m (λ w n. search r results w n)
    else goes_on (set_hung false m))

-- The rounds until shouldStop, or until one does not go on.
unfoldable pub rounds : Ethash → List Round → Loop → Turn
rounds ethash [] l = goes_on l
rounds ethash (r ∷ rs) l = elim (round ethash r l) [
  | goes_on m ↦ rounds ethash rs m
  | left m ↦ left m
  | stuck m ↦ stuck m
  | null_queue m ↦ null_queue m
  | thrown e m ↦ thrown e m
]

-- How workLoop ends: it returns, throws a runtime_error, locks m_abortMutex twice, or uses a queue that
-- is not there.
pub data LoopEnd : Type 0 where
  ended rethrown hangs crashed : ClMiner → LoopEnd

-- free_buffers, and the mutex is unlocked.
unfoldable pub clean_up : (ClMiner → LoopEnd) → ClMiner → LoopEnd
clean_up k s = elim (free_buffers s) [
  | returns a t ↦ k (unlock_abort t)
  | throws e t ↦ rethrown t
  | locks_again t ↦ hangs t
]

-- After the loop, and the handler around it.
unfoldable pub after_rounds : OpenCl → Turn → LoopEnd
after_rounds gpu (goes_on l) =
    if l.miner.queue
    then elim (gpu finish_queue) [
      | none ↦ clean_up ended l.miner
      | some e ↦ clean_up rethrown l.miner
    ]
    else clean_up ended l.miner
after_rounds gpu (left l) =
    if l.miner.queue
    then elim (gpu finish_queue) [
      | none ↦ clean_up ended l.miner
      | some e ↦ clean_up rethrown l.miner
    ]
    else clean_up ended l.miner
after_rounds gpu (stuck l) = hangs l.miner
after_rounds gpu (null_queue l) = crashed l.miner
after_rounds gpu (thrown e l) = clean_up rethrown l.miner

-- The variables of the loop at its start.
abbrev pub start_loop : ClMiner → Loop
start_loop s = record {
  miner = s;
  current = no_work;
  start_nonce = 0;
  header_contents = [];
  boundary_contents = 0;
  search_contents = none;
  batches = [];
  submitted = [];
}

-- workLoop, after initDevice has returned true. `gpu` answers to the calls after the loop.
unfoldable pub work_loop : Ethash → OpenCl → List Round → ClMiner → LoopEnd
work_loop ethash gpu rs s = after_rounds gpu (rounds ethash rs (start_loop s))
