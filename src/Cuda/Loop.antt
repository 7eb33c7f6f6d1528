-- ===== src/Cuda/Loop.antt =====
-- CUDAMiner::workLoop of libcuda/CUDAMiner.cpp.
pub mod Held
pub mod Epochs
use etcminer.Prelude.{
  ℕ, ◌/◌, ◌^◌, Bool, true, false, not, List, [], ◌∷◌, Option, some, none, if◌then◌else◌, u32, u64,
}
use etcminer.Prelude.Int.{ℤ, int_eq}
use etcminer.Dev.Endian.{from_big_endian}
use etcminer.Eth.Work.{WorkPackage, no_work, has_work}
use etcminer.Eth.Epoch.{EpochContext, Ethash, set_epoch, free_cache}
use etcminer.Cuda.State.{CudaMiner, Cuda, reset_device, Ending, returns, throws, waits}
use etcminer.Cuda.Epoch.{init_epoch}
use etcminer.Cuda.Search.{Pass, Progress, finished, running, search}

-- The variables of the loop. `searches` are the packages that were searched, each with the epoch whose
-- DAG the device held then, if it held one, newest first.
pub record Loop : Type 0 where
  pub miner : CudaMiner
  pub epoch_context : EpochContext
  pub last : WorkPackage
  pub searches : List (Option ℤ × WorkPackage)

-- What a round meets: the answers of CUDA to initEpoch and to the start of a search, what work()
-- returns, the multiple of blocks by the hash rate if that is at least 10^7, and the rounds of a search.
pub record Round : Type 0 where
  pub gpu : Cuda
  pub work : WorkPackage
  pub multiple : Option ℕ
  pub passes : List Pass

-- How a round ends: the loop goes on; it is left after a failure of initEpoch; a cuda_runtime_error is
-- thrown; the thread waits for m_doneMutex for ever; or it is still in a search.
pub data Turn : Type 0 where
  goes_on left thrown stuck searching : Loop → Turn

-- (uint64_t)((u256)boundary >> 192)
unfoldable pub upper_boundary : WorkPackage → ℕ
upper_boundary w = u64 (from_big_endian 256 w.boundary / 2 ^ 192)

-- A new epoch: its DAG is generated, and the work is read again by the next round.
unfoldable pub after_init : WorkPackage → Loop → Ending Bool → Turn
after_init w l (returns b s) =
    if b
    then goes_on (record l { miner = s; epoch_context = free_cache l.epoch_context; last = w })
    else left (record l { miner = s })
after_init w l (throws s) = thrown (record l { miner = s })
after_init w l (waits s) = stuck (record l { miner = s })

unfoldable pub change_epoch : Ethash → Round → Loop → Turn
unfolding after_init
change_epoch ethash r l =
    let e = set_epoch ethash r.work in
    after_init r.work (record l { epoch_context = e }) (init_epoch r.gpu e l.miner)

unfoldable pub adjust : Option ℕ → CudaMiner → CudaMiner
adjust none s = s
adjust (some n) s = record s { block_multiple = u32 n }

unfoldable pub after_search : Loop → Ending Progress → Turn
after_search l (returns finished s) = goes_on (record l { miner = s })
after_search l (returns running s) = searching (record l { miner = s })
after_search l (throws s) = thrown (record l { miner = s })
after_search l (waits s) = stuck (record l { miner = s })

-- The same epoch: the package is searched.
unfoldable pub mine : Round → Loop → Turn
unfolding after_search adjust upper_boundary
mine r l =
    after_search
      (record l { last = r.work; searches = (l.miner.dag_contents, r.work) ∷ l.searches })
      (search r.gpu r.passes (upper_boundary r.work) r.work (adjust r.multiple l.miner))

unfoldable pub set_hung : Bool → Loop → Loop
set_hung b l = record l {
  miner = (record (l.miner) { miner = (record (l.miner.miner) { hung_miner = b }) });
}

-- One round. While there is no work it waits for a signal, or for 3 seconds.
unfoldable pub round : Ethash → Round → Loop → Turn
round ethash r l =
    if has_work r.work
    then (if int_eq r.work.epoch l.last.epoch then mine r l else change_epoch ethash r l)
    else goes_on (set_hung false l)

-- The rounds until shouldStop, or until one does not go on.
unfoldable pub rounds : Ethash → List Round → Loop → Turn
rounds ethash [] l = goes_on l
rounds ethash (r ∷ rs) l = elim (round ethash r l) [
  | goes_on m ↦ rounds ethash rs m
  | left m ↦ left m
  | thrown m ↦ thrown m
  | stuck m ↦ stuck m
  | searching m ↦ searching m
]

abbrev pub start_loop : EpochContext → CudaMiner → Loop
start_loop e s = record { miner = s; epoch_context = e; last = no_work; searches = [] }

-- How workLoop ends: it returns, throws a runtime_error, or does not end.
pub data LoopEnd : Type 0 where
  ended rethrown endless : Loop → LoopEnd

-- After the loop, and the handler around it.
unfoldable pub after_rounds : Cuda → Turn → LoopEnd
after_rounds gpu (goes_on l) = if gpu reset_device then rethrown l else ended l
after_rounds gpu (left l) = if gpu reset_device then rethrown l else ended l
after_rounds gpu (thrown l) = rethrown l
after_rounds gpu (stuck l) = endless l
after_rounds gpu (searching l) = endless l

-- workLoop, after initDevice has returned true.
unfoldable pub work_loop : Ethash → Cuda → List Round → EpochContext → CudaMiner → LoopEnd
work_loop ethash gpu rs e s = after_rounds gpu (rounds ethash rs (start_loop e s))
