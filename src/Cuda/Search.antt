-- ===== src/Cuda/Search.antt =====
-- CUDAMiner::search of libcuda/CUDAMiner.cpp.
pub mod Rules
pub mod Origin
pub mod Submitted
pub mod Stops
use etcminer.Prelude.{
  ℕ, zero, suc, ◌+◌, ◌-◌, ◌*◌, ◌==◌, Bool, true, false, ◌||◌, List, [], ◌∷◌, if◌then◌else◌, u32,
  u64,
}
use etcminer.Dev.FixedHash.{zero_hash}
use etcminer.Eth.Work.{WorkPackage}
use etcminer.Eth.Batch.{Batch, SearchResults, reported}
use etcminer.Eth.Miner
use etcminer.Cuda.State.{
  CudaMiner, Cuda, set_header, set_target, clear_results, run_search, synchronize, read_results,
  Ending, returns, ◌>>=◌, ◌>>◌, call, lock_done,
}

-- A stream: its bit of streams_bsy, and the batch whose results are in its buffer.
pub record Stream : Type 0 where
  pub busy : Bool
  pub batch : Batch

-- What the handling of one stream meets: the answers of CUDA, the results of the device for a batch,
-- and whether another thread has kicked the miner before m_done is read, or asks the worker to stop.
pub record Visit : Type 0 where
  pub gpu : Cuda
  pub device : Batch → SearchResults
  pub kicked : Bool
  pub should_stop : Bool

-- A round of the loop over the streams: whether the miner is paused at its head, what each stream meets,
-- and the clock at its end.
pub record Pass : Type 0 where
  pub paused : Bool
  pub visits : ℕ → Visit
  pub now : ℕ

-- The variables that do not change, and the start nonce with the number of hashes so far.
pub record Sizes : Type 0 where
  pub batch_blocks : ℕ
  pub stream_blocks : ℕ
  pub work : WorkPackage

pub record Place : Type 0 where
  pub start_nonce : ℕ
  pub batch_count : ℕ
  pub streams : List Stream

unfoldable pub sizes_of : WorkPackage → CudaMiner → Sizes
sizes_of w s =
    let batch = u32 (s.block_multiple * s.device.cu_block_size) in
    record { batch_blocks = batch; stream_blocks = u32 (batch * s.device.cu_stream_size); work = w }

unfoldable pub batch_at : Sizes → ℕ → CudaMiner → Batch
batch_at z start s = record { header = s.header_contents; start = start; count = z.batch_blocks }

-- The kernel is run on a stream.
unfoldable pub launch : Cuda → ℕ → Batch → CudaMiner → Ending (Unit {0})
launch gpu i b s =
    call gpu (run_search i) (λ t. record t { batches = b ∷ t.batches })
      (record s { miner = (record (s.miner) { hung_miner = false }) })

-- The loop that primes the streams, for those that are left.
unfoldable pub prime : Cuda → Sizes → ℕ → ℕ → ℕ → CudaMiner → Ending (ℕ × List Stream)
prime gpu z zero i start s = returns (start, []) s
prime gpu z (suc n) i start s = call gpu (clear_results i) (λ t. t) s >> λ t.
    launch gpu i (batch_at z start t) t >> λ u.
    prime gpu z n (i + 1) (u64 (start + z.batch_blocks)) u >>= λ (next, streams) v.
    returns (next, record { busy = true; batch = batch_at z start t } ∷ streams) v

-- The loop over the solutions: a nonce is counted back from the start of the batch that is next.
unfoldable pub submit : Sizes → ℕ → List ℕ → CudaMiner → CudaMiner
submit z start [] s = s
submit z start (g ∷ gs) s = submit z start gs (record s {
  submitted =
      (record {
        nonce = u64 (u64 (start + 18446744073709551616 - z.stream_blocks) + g);
        mix_hash = zero_hash;
        work = z.work;
        midx = s.miner.index;
      })
      ∷ s.submitted;
})

unfoldable pub report : Sizes → ℕ → SearchResults → CudaMiner → CudaMiner
report z start r s = submit z start (reported r) s

unfoldable pub set_done : Bool → CudaMiner → CudaMiner
set_done b s = record s { done = (b || s.done) }

-- One more batch on a stream, or none once m_done is set.
unfoldable pub refill : Cuda → ℕ → Batch → Stream → CudaMiner → Ending Stream
refill gpu i next stream s =
    if s.done
    then returns (record stream { busy = false }) s
    else (launch gpu i next s >> λ t. returns (record { busy = true; batch = next }) t)

-- The handling of a busy stream: the number of hashes, and the stream after it.
unfoldable pub serve : Sizes → Visit → ℕ → ℕ → Stream → CudaMiner → Ending (ℕ × Stream)
serve z v i start stream s = call v.gpu (synchronize i) (λ t. t) s >> λ t.
    call v.gpu (read_results i) (λ u. u) t >> λ u. call v.gpu (clear_results i) (λ w. w) u >> λ w.
    refill v.gpu i (batch_at z start w) stream (set_done v.kicked w) >>= λ after x.
    returns ((v.device stream.batch).hash_count, after)
      (set_done v.should_stop (report z start (v.device stream.batch) x))

-- The loop over the streams that are left.
unfoldable pub visit : Sizes → Pass → ℕ → ℕ → ℕ → List Stream → CudaMiner → Ending Place
visit z p i start count [] s =
    returns (record { start_nonce = start; batch_count = count; streams = [] }) s
visit z p i start count (stream ∷ streams) s =
    (if stream.busy then serve z (p.visits i) i start stream s else returns (0, stream) s)
    >>= λ (hashes, after) t.
        visit z p (i + 1) (u64 (start + z.batch_blocks)) (u32 (count + hashes)) streams t
        >>= λ place u. returns (record place { streams = after ∷ place.streams }) u

-- streams_bsy != 0
unfoldable pub any_busy : List Stream → Bool
any_busy [] = false
any_busy (s ∷ ss) = s.busy || any_busy ss

unfoldable pub count_hashes : Pass → Place → CudaMiner → CudaMiner
count_hashes p place s = record s {
  miner = Miner.update_hash_rate s.device.cu_block_size place.batch_count p.now s.miner;
}

unfoldable pub pass : Sizes → Pass → ℕ → List Stream → CudaMiner → Ending Place
pass z p start streams s = visit z p 0 start 0 streams (set_done p.paused s) >>= λ place t.
    returns place (count_hashes p place t)

-- The loop until no stream is busy, over the passes; `none_left` is that it is still running after them.
pub data Progress : Type 0 where
  finished running : Progress

unfoldable pub passes : Sizes → List Pass → ℕ → List Stream → CudaMiner → Ending Progress
passes z [] start streams s = returns (if any_busy streams then running else finished) s
passes z (p ∷ ps) start streams s =
    let rest =
      pass z p start streams s >>= λ place t. passes z ps place.start_nonce place.streams t in
    if any_busy streams then rest else returns finished s

-- The streams are primed under m_doneMutex, which an exception leaves locked.
unfoldable pub begin : Cuda → Sizes → ℕ → ℕ → CudaMiner → Ending (ℕ × List Stream)
begin gpu z streams target s =
    call gpu set_header (λ t. record t { header_contents = z.work.header }) s >> λ t.
    (if t.current_target == target
      then returns tt t
      else call gpu set_target (λ u. record u { current_target = target }) t)
    >> λ u. lock_done u >> λ v. prime gpu z streams 0 z.work.start_nonce v >>= λ primed x.
        returns primed (record x { done = false; done_locked = false })

unfoldable pub search : Cuda → List Pass → ℕ → WorkPackage → CudaMiner → Ending Progress
search gpu ps target w s =
    begin gpu (sizes_of w s) s.device.cu_stream_size target s >>= λ (start, streams) t.
    passes (sizes_of w s) ps start streams t
