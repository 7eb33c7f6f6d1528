-- ===== src/Examples/GpuCases.antt =====
-- The theorems on libcl/CLMiner.cpp and libcuda/CUDAMiner.cpp at concrete inputs.
use etcminer.Prelude.{
  ℕ, zero, suc, ◌<◌, ◌≡◌, refl, arith, true, false, List, [], ◌∷◌, some, none, All, replicate,
}
use etcminer.Prelude.Int.{ℤ, pos}
use etcminer.Eth.Work.{WorkPackage, no_work}
use etcminer.Eth.Epoch.{EpochContext, Ethash, no_epoch}
use etcminer.Eth.Batch.{Batch, SearchResults, Searched, Honest}
use etcminer.Eth.Miner.Device.{DeviceDescriptor, new_device}
use etcminer.Cl.State
use etcminer.Cl.State.{ClMiner, OpenCl}
use etcminer.Cl.Dag.{dag_runs}
use etcminer.Cl.Dag.Cover.{Covers, dag_runs-Covers}
use etcminer.Cl.Epoch.{required_memory, init_epoch}
use etcminer.Cl.Epoch.Outcome.{Outcome, init_epoch-Outcome}
use etcminer.Cl.Loop
use etcminer.Cl.Loop.Searched
use etcminer.Cl.Loop.Searched.{rounds-submitted}
use etcminer.Cuda.State.{CudaMiner, Cuda, returns}
use etcminer.Cuda.Search
use etcminer.Cuda.Search.{Pass, Visit, Stream, Sizes, passes, search}
use etcminer.Cuda.Search.Submitted.{miner_of, search-submitted}
use etcminer.Cuda.Search.Stops.{passes-finish}
use etcminer.Cuda.Loop as CudaLoop
use etcminer.Cuda.Loop.Epochs
use etcminer.Cuda.Loop.Epochs.{OwnDag, rounds-OwnDag}
use etcminer.Examples.Fixtures.{a_miner}

abbrev a_device : DeviceDescriptor
a_device = record new_device {
  total_memory = 8000000000;
  cl_group_size = 64;
  cu_block_size = 128;
  cu_stream_size = 2;
}

abbrev an_epoch : EpochContext
an_epoch = record no_epoch { dag_num_items = 3; dag_size = 384; light_size = 64 }

-- The epochs are all as small.
abbrev an_ethash : Ethash
an_ethash = record {
  light_cache_num_items = λ e. 1;
  full_dataset_num_items = λ e. 3;
  get_light_cache_size = λ n. 64;
  get_full_dataset_size = λ n. 384;
}

abbrev a_package : WorkPackage
a_package = record no_work { header = replicate 32 7; epoch = pos 4; start_nonce = 1000 }

abbrev cl_miner : ClMiner
cl_miner = record {
  miner = a_miner 1;
  device = a_device;
  epoch_context = an_epoch;
  block_multiple = 10;
  abort_locked = false;
  context = false;
  queue = false;
  abort_queue = false;
  first_dag = false;
  second_dag = false;
  light = false;
  header = false;
  search_buffer = false;
  dag_items = 0;
}

-- OpenCL cannot make a kernel.
abbrev no_kernel : OpenCl
no_kernel c = elim c [ State.make_search_kernel ↦ some State.out_of_resources | _ ↦ none ]

init_epoch-Outcome_example : Outcome no_kernel (init_epoch no_kernel cl_miner)
unfolding required_memory
init_epoch-Outcome_example = init_epoch-Outcome no_kernel cl_miner refl (omega arith)

dag_runs-Covers_example : Covers 64 1000 0 (dag_runs 64 5 1000)
dag_runs-Covers_example =
    dag_runs-Covers 64 5 1000 (omega arith) (omega arith) (omega arith) (omega arith)

-- A device that finds the last nonce of each batch.
abbrev last_of : ℕ → List ℕ
last_of zero = []
last_of (suc n) = n ∷ []

abbrev a_finder : Batch → SearchResults
a_finder b = record { count = 1; hash_count = 1; gids = last_of b.count }

last_of-small : (n : ℕ) → All (λ g. g < n) (last_of n)
last_of-small zero = tt
last_of-small (suc n) = (omega arith, tt)

a_finder-Honest : Honest a_finder
a_finder-Honest b = last_of-small b.count

abbrev a_round : Loop.Round
a_round = record {
  gpu = λ c. none;
  device = a_finder;
  work = a_package;
  work_after = a_package;
  multiple = none;
  left_over = 0;
  now = 5;
}

rounds-submitted_example :
    All
      (Searched
        (Searched.loop_of
          (Loop.rounds an_ethash (a_round ∷ a_round ∷ []) (Loop.start_loop cl_miner))).batches)
      (Searched.loop_of
        (Loop.rounds an_ethash (a_round ∷ a_round ∷ []) (Loop.start_loop cl_miner))).submitted
rounds-submitted_example =
    rounds-submitted an_ethash (a_round ∷ a_round ∷ []) cl_miner
      (a_finder-Honest, (a_finder-Honest, tt)) refl

abbrev cuda_miner : CudaMiner
cuda_miner = record {
  miner = a_miner 0;
  device = a_device;
  block_multiple = 10;
  current_target = 0;
  done = true;
  done_locked = false;
  header_contents = [];
  dag_contents = none;
  batches = [];
  submitted = [];
}

abbrev no_failure : Cuda
no_failure c = false

abbrev a_visit : Visit
a_visit = record { gpu = no_failure; device = a_finder; kicked = false; should_stop = false }

abbrev a_pass : Pass
a_pass = record { paused = false; visits = λ i. a_visit; now = 9 }

search-submitted_example :
    All
      (Searched
        (miner_of (search no_failure (a_pass ∷ a_pass ∷ []) 5 a_package cuda_miner)).batches)
      (miner_of (search no_failure (a_pass ∷ a_pass ∷ []) 5 a_package cuda_miner)).submitted
search-submitted_example =
    search-submitted no_failure (a_pass ∷ a_pass ∷ []) 5 a_package cuda_miner
      ((λ i. a_finder-Honest), ((λ i. a_finder-Honest), tt)) (omega arith) (omega arith)
      (omega arith) tt

abbrev some_sizes : Sizes
some_sizes = record { batch_blocks = 1280; stream_blocks = 2560; work = a_package }

abbrev a_stream : Stream
a_stream = record {
  busy = true;
  batch = (record { header = replicate 32 7; start = 1000; count = 1280 });
}

passes-finish_example :
    (t : CudaMiner) × (passes some_sizes (a_pass ∷ []) 3560 (a_stream ∷ a_stream ∷ []) cuda_miner
      ≡ returns Search.finished t)
    × (t.batches ≡ cuda_miner.batches)
passes-finish_example =
    passes-finish some_sizes a_pass [] 3560 (a_stream ∷ a_stream ∷ []) cuda_miner (λ i c. refl) refl

abbrev cuda_round : ℤ → CudaLoop.Round
cuda_round e = record {
  gpu = no_failure;
  work = (record a_package { epoch = e });
  multiple = none;
  passes = (record a_pass { paused = true }) ∷ [];
}

rounds-OwnDag_example :
    All OwnDag
      (Epochs.loop_of (
        CudaLoop.rounds an_ethash
          (cuda_round (pos 4) ∷ cuda_round (pos 4) ∷ [])
          (CudaLoop.start_loop no_epoch cuda_miner))).searches
rounds-OwnDag_example =
    rounds-OwnDag an_ethash (cuda_round (pos 4) ∷ cuda_round (pos 4) ∷ []) no_epoch cuda_miner
