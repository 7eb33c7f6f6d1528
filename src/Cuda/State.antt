-- ===== src/Cuda/State.antt =====
-- libcuda/CUDAMiner.h: the members of class CUDAMiner, and how its functions end.
use etcminer.Prelude.{ℕ, Bool, true, List, [], ◌∷◌, if◌then◌else◌, Text, Option}
use etcminer.Prelude.Int.{ℤ}
use etcminer.Eth.Work.{Solution}
use etcminer.Eth.Batch.{Batch}
use etcminer.Eth.Miner
use etcminer.Eth.Miner.Device.{DeviceDescriptor}

-- class CUDAMiner, less m_epochContext, which stands with the variables of its loop. `done_locked` is
-- whether m_doneMutex is locked. The last four are the header that the device holds, the epoch of the DAG
-- that it has generated since its last reset, and the runs of the kernel and the solutions given to the
-- farm, newest first.
pub record CudaMiner : Type 0 where
  pub miner : Miner.Miner
  pub device : DeviceDescriptor
  pub block_multiple : ℕ
  pub current_target : ℕ
  pub done : Bool
  pub done_locked : Bool
  pub header_contents : Text
  pub dag_contents : Option ℤ
  pub batches : List Batch
  pub submitted : List Solution

-- The calls of CUDA that may throw a cuda_runtime_error.
pub data Call : Type 0 where
  reset_device set_flags set_cache make_light make_dag write_light generate_dag : Call
  make_search_buffer make_stream : ℕ → Call
  set_header set_target : Call
  clear_results run_search synchronize read_results abort_search : ℕ → Call

-- Whether CUDA answers to a call with an error.
abbrev pub Cuda : Type 0
Cuda = Call → Bool

-- A function returns, throws a cuda_runtime_error, or waits for m_doneMutex, which its own thread or
-- one that has gone holds.
pub data Ending (A : Type 0) : Type 0 where
  returns : A → CudaMiner → Ending A
  throws : CudaMiner → Ending A
  waits : CudaMiner → Ending A

infixl 5 ◌>>=◌ ◌>>◌
abbrev pub ◌>>=◌ : {A B : Type 0} → Ending A → (A → CudaMiner → Ending B) → Ending B
returns a s >>= f = f a s
throws s >>= f = throws s
waits s >>= f = waits s

abbrev pub ◌>>◌ : {A B : Type 0} → Ending A → (CudaMiner → Ending B) → Ending B
m >> f = m >>= λ a s. f s

-- One call, and what it sets if it does not throw.
unfoldable pub call : Cuda → Call → (CudaMiner → CudaMiner) → CudaMiner → Ending (Unit {0})
call gpu c set s = if gpu c then throws s else returns tt (set s)

unfoldable pub lock_done : CudaMiner → Ending (Unit {0})
lock_done s = if s.done_locked then waits s else returns tt (record s { done_locked = true })

-- The copies of the flag to stop, one for each stream that is left.
unfoldable pub abort_streams : Cuda → List ℕ → CudaMiner → Ending (Unit {0})
abort_streams gpu [] s = returns tt s
abort_streams gpu (i ∷ is) s = call gpu (abort_search i) (λ t. t) s >> λ t. abort_streams gpu is t
