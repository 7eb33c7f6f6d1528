-- ===== src/Cl/State.antt =====
-- libcl/CLMiner.h: the members of class CLMiner, and how its functions end.
use etcminer.Prelude.{ℕ, Bool, List, Option, Text}
use etcminer.Eth.Epoch.{EpochContext}
use etcminer.Eth.Miner.{Miner}
use etcminer.Eth.Miner.Device.{DeviceDescriptor}

-- class CLMiner. A pointer to an OpenCL object is whether it is set. `abort_locked` is whether
-- m_abortMutex is locked.
pub record ClMiner : Type 0 where
  pub miner : Miner
  pub device : DeviceDescriptor
  pub epoch_context : EpochContext
  pub block_multiple : ℕ
  pub abort_locked : Bool
  pub context : Bool
  pub queue : Bool
  pub abort_queue : Bool
  pub first_dag : Bool
  pub second_dag : Bool
  pub light : Bool
  pub header : Bool
  pub search_buffer : Bool
  pub dag_items : ℕ

-- The codes of cl::Error that the source tells apart.
pub data ClError : Type 0 where
  device_not_found out_of_resources out_of_host_memory : ClError
  other_error : ℕ → ClError

-- The calls of OpenCL that may throw.
pub data Call : Type 0 where
  make_context make_queue make_abort_queue : Call
  make_search_buffer make_header make_light make_whole_dag : Call
  make_first_half make_second_half : ℕ → Call
  make_program make_search_kernel make_dag_kernel write_light : Call
  set_search_args clear_search set_dag_args finish_dag set_final_args : Call
  build_program : Option ℕ → List (Text × ℕ) → Call
  generate_dag : ℕ → ℕ → Call
  abort_search read_results clear_results write_header zero_count set_boundary set_nonce : Call
  run_search finish_queue : Call

-- What OpenCL answers to a call: nothing, or an error.
abbrev pub OpenCl : Type 0
OpenCl = Call → Option ClError

-- A function returns, throws a cl::Error, or locks a mutex that its thread has locked before, which
-- is undefined and in practice never ends.
pub data Ending (A : Type 0) : Type 0 where
  returns : A → ClMiner → Ending A
  throws : ClError → ClMiner → Ending A
  locks_again : ClMiner → Ending A

infixl 5 ◌>>=◌ ◌>>◌
abbrev pub ◌>>=◌ : {A B : Type 0} → Ending A → (A → ClMiner → Ending B) → Ending B
returns a s >>= f = f a s
throws e s >>= f = throws e s
locks_again s >>= f = locks_again s

abbrev pub ◌>>◌ : {A B : Type 0} → Ending A → (ClMiner → Ending B) → Ending B
m >> f = m >>= λ a s. f s
