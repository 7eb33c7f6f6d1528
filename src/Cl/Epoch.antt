-- ===== src/Cl/Epoch.antt =====
-- CLMiner::initEpoch of libcl/CLMiner.cpp. A call that sets arguments, runs a kernel or waits for it
-- stands for the calls of that group, of which any may throw.
pub mod Rules
pub mod Outcome
use etcminer.Prelude.{
  ℕ, ◌+◌, ◌*◌, ltb, leb, Bool, true, false, List, [], ◌∷◌, ◌++◌, map, Option, some, none, Text,
  codes, is_empty, if◌then◌else◌, u32, u64,
}
use etcminer.Eth.Epoch.{EpochContext}
use etcminer.Eth.Miner.Flags.{insufficient_memory, init_epoch_error}
use etcminer.Eth.Miner.Device.{
  DeviceDescriptor, ClPlatformType, unknown, amd, clover, nvidia, intel,
}
use etcminer.Cl.State.{
  ClMiner, Call, OpenCl, make_context, make_queue, make_abort_queue, make_search_buffer,
  make_header, make_light, make_whole_dag, make_first_half, make_second_half, make_program,
  build_program, make_search_kernel, make_dag_kernel, write_light, set_search_args, clear_search,
  set_dag_args, generate_dag, set_final_args, ClError, out_of_resources, out_of_host_memory,
  device_not_found, other_error, Ending, returns, throws, locks_again, ◌>>=◌, ◌>>◌,
}
use etcminer.Cl.Buffers.{free_buffers, unlock_abort, perform, pause, resume}
use etcminer.Cl.Dag.{dag_runs, first_half, second_half}

-- sizeof(SearchResults): seven numbers of 32 bits.
abbrev pub search_results_size : ℕ
search_results_size = 28

unfoldable pub required_memory : EpochContext → ℕ
required_memory e = u64 (e.dag_size + e.light_size + search_results_size + 32)

-- static_cast<unsigned>(clPlatformType)
abbrev pub platform_number : ClPlatformType → ℕ
platform_number unknown = 0
platform_number amd = 1
platform_number clover = 2
platform_number nvidia = 3
platform_number intel = 4

unfoldable pub compute_capability : DeviceDescriptor → ℕ
compute_capability d =
    if is_empty d.cl_nv_compute then 0 else u32 (d.cl_nv_compute_major * 10 + d.cl_nv_compute_minor)

-- The option of the build: the number of registers for NVIDIA's devices.
unfoldable pub max_registers : DeviceDescriptor → Option ℕ
unfolding compute_capability
max_registers d =
    if is_empty d.cl_nv_compute
    then none
    else some (if leb 35 (compute_capability d) then 72 else 63)

-- The definitions that addDefinition puts in front of the source, each before those that were put there.
unfoldable pub kernel_definitions : DeviceDescriptor → Bool → List (Text × ℕ)
unfolding compute_capability
kernel_definitions d dag_ok =
    (if dag_ok then [] else (codes "SPLIT_DAG", 1) ∷ [])
    ++ ((codes "COMPUTE", compute_capability d)
        ∷ (codes "PLATFORM", platform_number d.cl_platform_type)
        ∷ (codes "MAX_OUTPUTS", 4)
        ∷ (codes "ACCESSES", 64)
        ∷ (codes "WORKSIZE", d.cl_group_size)
        ∷ [])

abbrev pub catch : {A : Type 0} → (ClError → ClMiner → Ending A) → Ending A → Ending A
catch handle (returns a s) = returns a s
catch handle (throws e s) = handle e s
catch handle (locks_again s) = locks_again s

-- What the handlers do: pause, free the buffers, return false.
unfoldable pub abandon : {A : Type 0} → A → OpenCl → ClMiner → Ending A
abandon result gpu s = pause gpu init_epoch_error s >> λ t. free_buffers t >> λ u. returns result u

unfoldable pub halves : OpenCl → ClMiner → Ending (Option Bool)
unfolding first_half second_half
halves gpu s =
    let items = s.epoch_context.dag_num_items in
    let size = s.epoch_context.dag_size in
    perform gpu
      ((make_first_half (first_half items size), λ t. record t { first_dag = true })
        ∷ (make_second_half (second_half items size), λ t. record t { second_dag = true })
        ∷ [])
      s
    >> λ t. returns (some false) t

-- One buffer for the DAG, or two if it is to be split or one is refused.
unfoldable pub make_dag : OpenCl → ClMiner → Ending (Option Bool)
unfolding halves
make_dag gpu s = if s.device.cl_split then halves gpu s else elim (gpu make_whole_dag) [
  | none ↦ returns (some true) (record s { first_dag = true; second_dag = false })
  | some e ↦ halves gpu s
]

-- The handler around the buffers: a lack of resources ends initEpoch, another error is thrown on.
unfoldable pub buffers_refused : OpenCl → ClError → ClMiner → Ending (Option Bool)
unfolding abandon
buffers_refused gpu out_of_resources s = abandon none gpu s
buffers_refused gpu out_of_host_memory s = abandon none gpu s
buffers_refused gpu device_not_found s = throws device_not_found s
buffers_refused gpu (other_error n) s = throws (other_error n) s

-- The buffers, with dagOk; `none` is where initEpoch returns false.
unfoldable pub make_buffers : OpenCl → ClMiner → Ending (Option Bool)
unfolding make_dag buffers_refused
make_buffers gpu s = catch (buffers_refused gpu) (
    perform gpu
      ((make_search_buffer, λ t. record t { search_buffer = true })
        ∷ (make_header, λ t. record t { header = true })
        ∷ (make_light, λ t. record t { light = true })
        ∷ [])
      s
    >> λ t. make_dag gpu t)

-- The calls from the program to the last arguments. Left: where the DAG is not split, the source reads
-- m_dag[1], a null pointer, for the arguments of the kernels.
unfoldable pub remaining_calls : Bool → ClMiner → List (Call × (ClMiner → ClMiner))
unfolding max_registers kernel_definitions
remaining_calls dag_ok s =
    (make_program, λ t. t)
    ∷ (build_program (max_registers s.device) (kernel_definitions s.device dag_ok), λ t. t)
    ∷ (make_search_kernel, λ t. t)
    ∷ (make_dag_kernel, λ t. t)
    ∷ (write_light, λ t. t)
    ∷ (set_search_args, λ t. t)
    ∷ (clear_search, λ t. t)
    ∷ (set_dag_args, λ t. t)
    ∷ (map (λ r. (generate_dag r.0 r.1, λ t. t))
          (dag_runs s.device.cl_group_size s.block_multiple (u32 (s.dag_items * 2)))
        ++ (set_final_args, λ t. t) ∷ [])

-- After the buffers: the flags are reset, the program is built and the DAG is generated. The handlers
-- around the build and around the kernels do the same as the one around it all.
unfoldable pub complete : OpenCl → Option Bool → ClMiner → Ending Bool
unfolding remaining_calls
complete gpu none s = returns false s
complete gpu (some dag_ok) s =
    let t = resume init_epoch_error (resume insufficient_memory s) in
    perform gpu (remaining_calls dag_ok t) t >> λ u.
    returns true (unlock_abort (record u { miner = (record (u.miner) { initialized = true }) }))

-- The queues are made, then the buffers.
unfoldable pub build : OpenCl → ClMiner → Ending Bool
unfolding make_buffers complete
build gpu s = free_buffers s >> λ t.
    perform gpu
      ((make_context, λ u. record u { context = true })
        ∷ (make_queue, λ u. record u { queue = true })
        ∷ (make_abort_queue, λ u. record u { abort_queue = true })
        ∷ [])
      t
    >> λ u.
        make_buffers gpu (record u { dag_items = u.epoch_context.dag_num_items }) >>= λ dag_ok v.
        complete gpu dag_ok v

unfoldable pub init_epoch : OpenCl → ClMiner → Ending Bool
unfolding required_memory build
init_epoch gpu s =
    let t = record s { miner = (record (s.miner) { initialized = false }) } in
    if ltb t.device.total_memory (required_memory t.epoch_context)
    then (pause gpu insufficient_memory t >> λ u. returns false u)
    else catch (λ e u. abandon false gpu u) (build gpu t)
