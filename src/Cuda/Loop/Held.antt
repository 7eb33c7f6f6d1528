-- ===== src/Cuda/Loop/Held.antt =====
-- The DAG in the device: what CUDAMiner::initEpoch leaves there, and that CUDAMiner::search keeps it.
use etcminer.Prelude.{
  ℕ, zero, suc, ◌+◌, ◌≡◌, refl, ◌∙◌, ◌==◌, Bool, true, false, List, [], ◌∷◌, some, none, ltb, u32,
  u64, if◌then◌else◌,
}
use etcminer.Eth.Work.{WorkPackage}
use etcminer.Eth.Batch.{Batch, reported}
use etcminer.Eth.Epoch.{EpochContext}
use etcminer.Eth.Miner.Flags.{insufficient_memory, init_epoch_error}
use etcminer.Cuda.State.{
  CudaMiner, Call, Cuda, Ending, returns, throws, waits, ◌>>=◌, ◌>>◌, call, lock_done, reset_device,
  set_flags, set_cache, make_light, make_dag, write_light, generate_dag, make_search_buffer,
  make_stream, set_header, set_target, clear_results, run_search, synchronize, read_results,
}
use etcminer.Cuda.Epoch.{
  pause, resume, allocate, make_streams, generate, build, suspend, init_epoch, required_memory,
  stream_indices,
}
use etcminer.Cuda.Search.{
  Stream, Visit, Pass, Sizes, batch_at, launch, prime, submit, report, set_done, refill, serve,
  visit, any_busy, count_hashes, pass, passes, begin, search, sizes_of,
}

-- Where the call returns, the device holds the DAG that it held before.
abbrev pub Keeps : {A : Type 0} → CudaMiner → Ending A → Type 0
Keeps s (returns a t) = t.dag_contents ≡ s.dag_contents
Keeps s (throws t) = Unit {0}
Keeps s (waits t) = Unit {0}

onward-Keeps :
    {B : Type 0} (s t : CudaMiner) (n : Ending B)
    → t.dag_contents ≡ s.dag_contents
    → Keeps t n
    → Keeps s n
onward-Keeps s t (returns b u) h g = g ∙ h
onward-Keeps s t (throws u) h g = tt
onward-Keeps s t (waits u) h g = tt

bind-Keeps :
    {A B : Type 0} (s : CudaMiner) (m : Ending A) (f : A → CudaMiner → Ending B)
    → Keeps s m
    → ((a : A) (t : CudaMiner) → Keeps t (f a t))
    → Keeps s (m >>= f)
bind-Keeps s (returns a t) f h next = onward-Keeps s t (f a t) h (next a t)
bind-Keeps s (throws t) f h next = tt
bind-Keeps s (waits t) f h next = tt

if-Keeps :
    {A : Type 0} (s : CudaMiner) (b : Bool) (m n : Ending A)
    → Keeps s m
    → Keeps s n
    → Keeps s (if b then m else n)
if-Keeps s true m n h k = h
if-Keeps s false m n h k = k

call-Keeps :
    (gpu : Cuda) (c : Call) (set : CudaMiner → CudaMiner) (s : CudaMiner)
    → (set s).dag_contents ≡ s.dag_contents
    → Keeps s (call gpu c set s)
unfolding call
call-Keeps gpu c set s h = if-Keeps s (gpu c) _ _ tt h

launch-Keeps : (gpu : Cuda) (i : ℕ) (b : Batch) (s : CudaMiner) → Keeps s (launch gpu i b s)
unfolding launch
launch-Keeps gpu i b s = call-Keeps gpu (run_search i) _ _ refl

prime-Keeps :
    (gpu : Cuda) (z : Sizes) (n i start : ℕ) (s : CudaMiner) → Keeps s (prime gpu z n i start s)
unfolding prime
prime-Keeps gpu z zero i start s = refl
prime-Keeps gpu z (suc n) i start s =
    bind-Keeps s (call gpu (clear_results i) (λ t. t) s) _
      (call-Keeps gpu (clear_results i) (λ t. t) s refl)
      (λ a t. bind-Keeps t (launch gpu i (batch_at z start t) t) _ (launch-Keeps gpu i _ t) (λ b u.
        bind-Keeps u (prime gpu z n (i + 1) (u64 (start + z.batch_blocks)) u) _
          (prime-Keeps gpu z n (i + 1) _ u) (λ c v. refl)))

begin-Keeps :
    (gpu : Cuda) (z : Sizes) (n target : ℕ) (s : CudaMiner) → Keeps s (begin gpu z n target s)
unfolding begin lock_done
begin-Keeps gpu z n target s =
    bind-Keeps s (call gpu set_header (λ t. record t { header_contents = z.work.header }) s) _
      (call-Keeps gpu set_header _ s refl)
      (λ a t.
        bind-Keeps t
          (if t.current_target == target
            then returns tt t
            else call gpu set_target (λ u. record u { current_target = target }) t)
          _ (if-Keeps t (t.current_target == target) _ _ refl (call-Keeps gpu set_target _ t refl))
          (λ b u. bind-Keeps u (lock_done u) _ (if-Keeps u u.done_locked _ _ tt refl) (λ c v.
            bind-Keeps v (prime gpu z n 0 z.work.start_nonce v) _
              (prime-Keeps gpu z n 0 z.work.start_nonce v) (λ d x. refl))))

submit-dag :
    (z : Sizes) (start : ℕ) (gs : List ℕ) (s : CudaMiner)
    → (submit z start gs s).dag_contents ≡ s.dag_contents
unfolding submit
submit-dag z start [] s = refl
submit-dag z start (g ∷ gs) s = submit-dag z start gs _

refill-Keeps :
    (gpu : Cuda) (i : ℕ) (b : Batch) (stream : Stream) (s : CudaMiner)
    → Keeps s (refill gpu i b stream s)
unfolding refill
refill-Keeps gpu i b stream s =
    if-Keeps s s.done _ _ refl
      (bind-Keeps s (launch gpu i b s) _ (launch-Keeps gpu i b s) (λ a t. refl))

serve-Keeps :
    (z : Sizes) (v : Visit) (i start : ℕ) (stream : Stream) (s : CudaMiner)
    → Keeps s (serve z v i start stream s)
unfolding serve set_done report
serve-Keeps z v i start stream s =
    bind-Keeps s (call v.gpu (synchronize i) (λ t. t) s) _
      (call-Keeps v.gpu (synchronize i) (λ t. t) s refl)
      (λ a t.
        bind-Keeps t (call v.gpu (read_results i) (λ u. u) t) _
          (call-Keeps v.gpu (read_results i) (λ u. u) t refl)
          (λ b u.
            bind-Keeps u (call v.gpu (clear_results i) (λ w. w) u) _
              (call-Keeps v.gpu (clear_results i) (λ w. w) u refl)
              (λ c w.
                bind-Keeps w (refill v.gpu i (batch_at z start w) stream (set_done v.kicked w)) _
                  (refill-Keeps v.gpu i (batch_at z start w) stream (set_done v.kicked w))
                  (λ after x. submit-dag z start (reported (v.device stream.batch)) x))))

visit-Keeps :
    (z : Sizes) (p : Pass) (i start count : ℕ) (streams : List Stream) (s : CudaMiner)
    → Keeps s (visit z p i start count streams s)
unfolding visit
visit-Keeps z p i start count [] s = refl
visit-Keeps z p i start count (stream ∷ streams) s =
    bind-Keeps s
      (if stream.busy then serve z (p.visits i) i start stream s else returns (0, stream) s) _
      (if-Keeps s stream.busy _ _ (serve-Keeps z (p.visits i) i start stream s) refl)
      (λ r t.
        bind-Keeps t
          (visit z p (i + 1) (u64 (start + z.batch_blocks)) (u32 (count + r.0)) streams t) _
          (visit-Keeps z p (i + 1) _ _ streams t) (λ place u. refl))

pass-Keeps :
    (z : Sizes) (p : Pass) (start : ℕ) (streams : List Stream) (s : CudaMiner)
    → Keeps s (pass z p start streams s)
unfolding pass set_done count_hashes
pass-Keeps z p start streams s =
    bind-Keeps s (visit z p 0 start 0 streams (set_done p.paused s)) _
      (visit-Keeps z p 0 start 0 streams (set_done p.paused s)) (λ place t. refl)

passes-Keeps :
    (z : Sizes) (ps : List Pass) (start : ℕ) (streams : List Stream) (s : CudaMiner)
    → Keeps s (passes z ps start streams s)
unfolding passes
passes-Keeps z [] start streams s = refl
passes-Keeps z (p ∷ ps) start streams s =
    if-Keeps s (any_busy streams) _ _
      (bind-Keeps s (pass z p start streams s) _ (pass-Keeps z p start streams s)
        (λ place t. passes-Keeps z ps place.start_nonce place.streams t))
      refl

pub search-Keeps :
    (gpu : Cuda) (ps : List Pass) (target : ℕ) (w : WorkPackage) (s : CudaMiner)
    → Keeps s (search gpu ps target w s)
unfolding search
search-Keeps gpu ps target w s =
    bind-Keeps s (begin gpu (sizes_of w s) s.device.cu_stream_size target s) _
      (begin-Keeps gpu (sizes_of w s) s.device.cu_stream_size target s)
      (λ r t. passes-Keeps (sizes_of w s) ps (r.0) (r.1) t)

-- Where initEpoch returns true, the device holds the DAG of the epoch.
abbrev pub Makes : EpochContext → Ending Bool → Type 0
Makes e (returns true t) = t.dag_contents ≡ some e.epoch_number
Makes e (returns false t) = Unit {0}
Makes e (throws t) = Unit {0}
Makes e (waits t) = Unit {0}

bind-Makes :
    {A : Type 0} (e : EpochContext) (m : Ending A) (f : A → CudaMiner → Ending Bool)
    → ((a : A) (t : CudaMiner) → Makes e (f a t))
    → Makes e (m >>= f)
bind-Makes e (returns a t) f next = next a t
bind-Makes e (throws t) f next = tt
bind-Makes e (waits t) f next = tt

if-Makes :
    (e : EpochContext) (b : Bool) (m n : Ending Bool)
    → Makes e m
    → Makes e n
    → Makes e (if b then m else n)
if-Makes e true m n h k = h
if-Makes e false m n h k = k

allocate-Makes :
    (e : EpochContext) (gpu : Cuda) (c : Call) (next : CudaMiner → Ending Bool) (s : CudaMiner)
    → ((t : CudaMiner) → Makes e (next t))
    → Makes e (allocate gpu c next s)
unfolding allocate
allocate-Makes e gpu c next s h =
    if-Makes e (gpu c) _ _ (bind-Makes e (pause gpu insufficient_memory s) _ (λ a t. tt)) (h s)

make_streams-Makes :
    (e : EpochContext) (gpu : Cuda) (is : List ℕ) (next : CudaMiner → Ending Bool) (s : CudaMiner)
    → ((t : CudaMiner) → Makes e (next t))
    → Makes e (make_streams gpu is next s)
unfolding make_streams
make_streams-Makes e gpu [] next s h = h s
make_streams-Makes e gpu (i ∷ is) next s h = allocate-Makes e gpu (make_search_buffer i) _ s (λ t.
    bind-Makes e (call gpu (make_stream i) (λ u. u) t) _
      (λ a u. make_streams-Makes e gpu is next u h))

generate-Makes : (e : EpochContext) (gpu : Cuda) (s : CudaMiner) → Makes e (generate gpu e s)
unfolding generate call
generate-Makes e gpu s =
    bind-Makes e
      (call gpu write_light (λ t. t) (resume init_epoch_error (resume insufficient_memory s))) _
      (λ a t. last (gpu generate_dag) t)
  where
    last :
        (b : Bool) (t : CudaMiner)
        → Makes e (
            (if b then throws t else returns tt (record t { dag_contents = some e.epoch_number }))
            >> λ u. returns true (record u { miner = (record (u.miner) { initialized = true }) }))
    last true t = tt
    last false t = refl

build-Makes : (e : EpochContext) (gpu : Cuda) (s : CudaMiner) → Makes e (build gpu e s)
unfolding build
build-Makes e gpu s =
    bind-Makes e (call gpu reset_device (λ t. record t { dag_contents = none }) s) _ (λ a t.
      bind-Makes e (call gpu set_flags (λ u. u) t) _ (λ b u.
        bind-Makes e (call gpu set_cache (λ v. v) u) _ (λ c v.
          if-Makes e (ltb v.device.total_memory (required_memory v.device.cu_stream_size e)) _ _
            (bind-Makes e (pause gpu insufficient_memory v) _ (λ d w. tt))
            (allocate-Makes e gpu make_light _ v (λ w. allocate-Makes e gpu make_dag _ w (λ x.
              make_streams-Makes e gpu (stream_indices x.device.cu_stream_size) (generate gpu e) x
                (λ y. generate-Makes e gpu y)))))))

suspend-Makes :
    (e : EpochContext) (gpu : Cuda) (m : Ending Bool) → Makes e m → Makes e (suspend gpu m)
unfolding suspend
suspend-Makes e gpu (returns true s) h = h
suspend-Makes e gpu (returns false s) h = tt
suspend-Makes e gpu (throws s) h = bind-Makes e (pause gpu init_epoch_error s) _ (λ a t. tt)
suspend-Makes e gpu (waits s) h = tt

pub init_epoch-Makes :
    (e : EpochContext) (gpu : Cuda) (s : CudaMiner) → Makes e (init_epoch gpu e s)
unfolding init_epoch
init_epoch-Makes e gpu s = suspend-Makes e gpu (build gpu e _) (build-Makes e gpu _)
