-- ===== src/Cuda/Epoch.antt =====
-- kick_miner and initEpoch of libcuda/CUDAMiner.cpp.
use etcminer.Prelude.{
  ℕ, zero, suc, ◌+◌, ◌*◌, ltb, Bool, true, false, List, [], ◌∷◌, ◌++◌, some, none, if◌then◌else◌,
  u64,
}
use etcminer.Eth.Epoch.{EpochContext}
use etcminer.Eth.Miner
use etcminer.Eth.Miner.Flags.{MinerPause, insufficient_memory, init_epoch_error}
use etcminer.Cuda.State.{
  CudaMiner, Call, Cuda, reset_device, set_flags, set_cache, make_light, make_dag, write_light,
  generate_dag, make_search_buffer, make_stream, Ending, returns, throws, waits, ◌>>◌, call,
  lock_done, abort_streams,
}

-- The indices of the streams, in their order.
unfoldable pub stream_indices : ℕ → List ℕ
stream_indices zero = []
stream_indices (suc n) = stream_indices n ++ n ∷ []

-- kick_miner; the lock is released at the end of its block, also by an exception.
unfoldable pub kick_miner : Cuda → CudaMiner → Ending (Unit {0})
kick_miner gpu s = lock_done s >> λ t.
    let counted = record t { done_locked = false; miner = Miner.kick_miner t.miner } in
    if t.done
    then returns tt counted
    else abort_streams gpu (stream_indices t.device.cu_stream_size) (record counted { done = true })

-- Miner::pause with the kick of this class.
unfoldable pub pause : Cuda → MinerPause → CudaMiner → Ending (Unit {0})
pause gpu what s =
    kick_miner gpu
      (record s { miner = (record (Miner.pause what s.miner) { kicks = s.miner.kicks }) })

unfoldable pub resume : MinerPause → CudaMiner → CudaMiner
resume what s = record s { miner = Miner.resume what s.miner }

-- sizeof(Search_results): seven numbers of 32 bits.
abbrev pub search_results_size : ℕ
search_results_size = 28

unfoldable pub required_memory : ℕ → EpochContext → ℕ
required_memory streams e = u64 (e.dag_size + e.light_size + streams * search_results_size)

-- An allocation: where it fails the miner pauses for lack of memory, and initEpoch returns false.
unfoldable pub allocate : Cuda → Call → (CudaMiner → Ending Bool) → CudaMiner → Ending Bool
allocate gpu c next s =
    if gpu c then (pause gpu insufficient_memory s >> λ t. returns false t) else next s

-- The buffers and streams, one after the other.
unfoldable pub make_streams : Cuda → List ℕ → (CudaMiner → Ending Bool) → CudaMiner → Ending Bool
make_streams gpu [] next s = next s
make_streams gpu (i ∷ is) next s =
    allocate gpu (make_search_buffer i)
      (λ t. call gpu (make_stream i) (λ u. u) t >> λ u. make_streams gpu is next u) s

-- The end of initEpoch: the flags are reset, and the DAG is generated.
unfoldable pub generate : Cuda → EpochContext → CudaMiner → Ending Bool
generate gpu e s =
    call gpu write_light (λ t. t) (resume init_epoch_error (resume insufficient_memory s)) >> λ t.
    call gpu generate_dag (λ u. record u { dag_contents = some e.epoch_number }) t >> λ u.
    returns true (record u { miner = (record (u.miner) { initialized = true }) })

-- The block that may throw.
unfoldable pub build : Cuda → EpochContext → CudaMiner → Ending Bool
build gpu e s = call gpu reset_device (λ t. record t { dag_contents = none }) s >> λ t.
    call gpu set_flags (λ u. u) t >> λ u. call gpu set_cache (λ v. v) u >> λ v.
    if ltb v.device.total_memory (required_memory v.device.cu_stream_size e)
    then (pause gpu insufficient_memory v >> λ w. returns false w)
    else allocate gpu make_light
        (λ w.
          allocate gpu make_dag
            (λ x. make_streams gpu (stream_indices x.device.cu_stream_size) (generate gpu e) x) w)
        v

-- The handler around it.
unfoldable pub suspend : Cuda → Ending Bool → Ending Bool
suspend gpu (returns b s) = returns b s
suspend gpu (throws s) = pause gpu init_epoch_error s >> λ t. returns false t
suspend gpu (waits s) = waits s

unfoldable pub init_epoch : Cuda → EpochContext → CudaMiner → Ending Bool
init_epoch gpu e s = suspend gpu (
    build gpu e
      (record s { current_target = 0; miner = (record (s.miner) { initialized = false }) }))
