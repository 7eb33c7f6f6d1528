-- ===== src/Cuda/Search/Submitted.antt =====
-- Every solution that CUDAMiner::search submits is one that the device found.
use etcminer.Prelude.{
  ◌==◌, ℕ, zero, suc, ◌+◌, ◌*◌, ◌<◌, ◌≡◌, refl, sym, ap, ◌∙◌, arith, false, List, [], ◌∷◌, length,
  All, u64, u32, if◌then◌else◌,
}
use native.Mathlib.Nat.{mod-eq_of_lt, mul_comm}
use etcminer.Eth.Work.{WorkPackage}
use etcminer.Eth.Batch.{Searched, Honest}
use mathlib.Core.Path.{subst}
use etcminer.Cuda.State.{
  throws, waits, lock_done, set_header, set_target, CudaMiner, Cuda, Ending, returns, clear_results,
  call,
}
use etcminer.Cuda.Search.{
  Stream, Pass, Sizes, Place, batch_at, prime, set_done, serve, visit, pass, any_busy, passes,
  launch, count_hashes, sizes_of, begin, search, count_hashes, sizes_of, begin,
}
use etcminer.Cuda.Search.Rules.{
  Safe, Onward, Onward-refl, Onward-trans, Post, returns-Post, bind-Post, if-Post, call-Post,
  launch-Post, waits-Post,
}
use etcminer.Cuda.Search.Origin.{
  ahead, Placed, Held-Onward, Placed-Onward, Refilled, there_and_back, set_done-Onward, then-Post,
  serve-Post,
}

-- The start nonce after the streams.
steps : Sizes → List Stream → ℕ → ℕ
steps z [] start = start
steps z (stream ∷ streams) start = steps z streams (u64 (start + z.batch_blocks))

idle-Post :
    (z : Sizes) (start : ℕ) (stream : Stream) (s : CudaMiner)
    → stream.busy ≡ false
    → Safe s
    → Post (λ (r : ℕ × Stream) t. Onward s t × Refilled z start (r.1) t) (returns (0, stream) s)
idle-Post z start stream s idle safe = returns-Post _ _ s (Onward-refl s safe, λ busy. cc)

ahead-step :
    (z : Sizes) (start : ℕ)
    → ahead z (u64 (start + z.batch_blocks)) ≡ u64 (ahead z start + z.batch_blocks)
ahead-step z start = omega arith

-- The streams after a round are placed one round on.
visit-Post :
    (z : Sizes) (p : Pass) (i start count : ℕ) (streams : List Stream) (s : CudaMiner)
    → z.stream_blocks < 4294967296
    → ((j : ℕ) → Honest (p.visits j).device)
    → start < 18446744073709551616
    → s.header_contents ≡ z.work.header
    → Safe s
    → Placed z s start streams
    → Post
        (λ place t.
          Onward s t
          × (place.start_nonce ≡ steps z streams start)
          × (length place.streams ≡ length streams)
          × Placed z t (ahead z start) place.streams)
        (visit z p i start count streams s)
unfolding visit steps
visit-Post z p i start count [] s small honest fits header safe placed =
    returns-Post _ _ s (Onward-refl s safe, refl, refl, tt)
visit-Post z p i start count (stream ∷ streams) s small honest fits header safe (held, placed) =
    bind-Post _ _
      (if stream.busy then serve z (p.visits i) i start stream s else returns (0, stream) s) _
      (if-Post _ stream.busy _ _
        (λ e. serve-Post z (p.visits i) i start stream s small fits (honest i) header safe (held e))
        (λ e. idle-Post z start stream s e safe))
      (λ r t (on, refilled).
        bind-Post _ _
          (visit z p (i + 1) (u64 (start + z.batch_blocks)) (u32 (count + r.0)) streams t) _
          (visit-Post z p (i + 1) (u64 (start + z.batch_blocks)) (u32 (count + r.0)) streams t small
            honest (omega arith) (on.kept ∙ header) on.safe
            (Placed-Onward z s t (u64 (start + z.batch_blocks)) streams on placed))
          (λ place u (next, far, size, placed_on). returns-Post _ _ u (
            Onward-trans s t u on next,
            far,
            ap suc size,
            (
              λ busy. Held-Onward z (ahead z start) (r.1).batch t u next (refilled busy),
              subst (λ a. Placed z u a place.streams) (ahead-step z start) placed_on,
            ),
          )))

steps-closed :
    (z : Sizes) (streams : List Stream) (start : ℕ)
    → start < 18446744073709551616
    → steps z streams start ≡ u64 (start + length streams * z.batch_blocks)
unfolding steps
steps-closed z [] start fits = omega arith
steps-closed z (stream ∷ streams) start fits =
    steps-closed z streams (u64 (start + z.batch_blocks)) (omega arith) ∙ grind arith

-- The sizes of a search: the streams share out the blocks of a round.
pub record Fits (z : Sizes) (n : ℕ) : Type 0 where
  pub small : z.stream_blocks < 4294967296
  pub shared : z.stream_blocks ≡ n * z.batch_blocks

steps-ahead :
    (z : Sizes) (streams : List Stream) (start : ℕ)
    → Fits z (length streams)
    → start < 18446744073709551616
    → steps z streams start ≡ ahead z start
steps-ahead z streams start fits bound =
    steps-closed z streams start bound ∙ ap (λ n. u64 (start + n)) (sym fits.shared)

-- What holds of the streams and the start nonce at the head of a round.
pub record Ready (z : Sizes) (start : ℕ) (streams : List Stream) (s : CudaMiner) : Type 0 where
  pub safe : Safe s
  pub fits : Fits z (length streams)
  pub bound : start < 18446744073709551616
  pub header : s.header_contents ≡ z.work.header
  pub placed : Placed z s start streams

count_hashes-Onward :
    (p : Pass) (place : Place) (s : CudaMiner) → Safe s → Onward s (count_hashes p place s)
unfolding count_hashes
count_hashes-Onward p place s safe = record { safe = safe; grown = λ b h. h; kept = refl }

pass-Post :
    (z : Sizes) (p : Pass) (start : ℕ) (streams : List Stream) (s : CudaMiner)
    → ((j : ℕ) → Honest (p.visits j).device)
    → Ready z start streams s
    → Post (λ place t. Ready z place.start_nonce place.streams t) (pass z p start streams s)
unfolding pass
pass-Post z p start streams s honest r =
    let on = set_done-Onward p.paused s r.safe in
    bind-Post _ _ (visit z p 0 start 0 streams (set_done p.paused s)) _
      (visit-Post z p 0 start 0 streams (set_done p.paused s) r.fits.small honest r.bound
        (on.kept ∙ r.header) on.safe
        (Placed-Onward z s (set_done p.paused s) start streams on r.placed))
      (λ place t (next, far, size, placed).
        let there = far ∙ steps-ahead z streams start r.fits r.bound in
        returns-Post _ _ _ (record {
          safe = (count_hashes-Onward p place t next.safe).safe;
          fits = rw size r.fits;
          bound = omega (arith, there);
          header = (count_hashes-Onward p place t next.safe).kept ∙ next.kept ∙ on.kept ∙ r.header;
          placed =
              subst (λ a. Placed z (count_hashes p place t) a place.streams) (sym there)
                (Placed-Onward z t (count_hashes p place t) (ahead z start) place.streams
                  (count_hashes-Onward p place t next.safe) placed);
        }))

passes-Post :
    (z : Sizes) (ps : List Pass) (start : ℕ) (streams : List Stream) (s : CudaMiner)
    → All (λ p. (j : ℕ) → Honest (p.visits j).device) ps
    → Ready z start streams s
    → Post (λ a t. Safe t) (passes z ps start streams s)
unfolding passes
passes-Post z [] start streams s honest r = returns-Post _ _ s r.safe
passes-Post z (p ∷ ps) start streams s (fair, honest) r =
    if-Post _ (any_busy streams) _ _
      (λ e.
        bind-Post _ _ (pass z p start streams s) _ (pass-Post z p start streams s fair r)
          (λ place t ready. passes-Post z ps place.start_nonce place.streams t honest ready))
      (λ e. returns-Post _ _ s r.safe)

-- The primed streams hold the first batches.
prime-Post :
    (gpu : Cuda) (z : Sizes) (n i start : ℕ) (s : CudaMiner)
    → z.stream_blocks < 4294967296
    → start < 18446744073709551616
    → s.header_contents ≡ z.work.header
    → Safe s
    → Post
        (λ r t.
          Onward s t
          × (r.0 ≡ steps z (r.1) start)
          × (length (r.1) ≡ n)
          × Placed z t (ahead z start) (r.1))
        (prime gpu z n i start s)
unfolding prime steps batch_at
prime-Post gpu z zero i start s small fits header safe =
    returns-Post _ _ s (Onward-refl s safe, refl, refl, tt)
prime-Post gpu z (suc n) i start s small fits header safe =
    then-Post _ gpu (clear_results i) s _ safe (
      bind-Post _ _ (launch gpu i (batch_at z start s) s) _
        (launch-Post gpu i (batch_at z start s) s safe)
        (λ a u (on, among).
          bind-Post _ _ (prime gpu z n (i + 1) (u64 (start + z.batch_blocks)) u) _
            (prime-Post gpu z n (i + 1) (u64 (start + z.batch_blocks)) u small (omega arith)
              (on.kept ∙ header) on.safe)
            (λ r v (next, far, size, placed). returns-Post _ _ v (
              Onward-trans s u v on next,
              far,
              ap suc size,
              (
                λ busy. record {
                  among = next.grown _ among;
                  header = header;
                  begun = there_and_back z start small fits;
                },
                subst (λ a. Placed z v a (r.1)) (ahead-step z start) placed,
              ),
            ))))

lock_done-Post : (s : CudaMiner) → Safe s → Post (λ a t. Onward s t) (lock_done s)
unfolding lock_done
lock_done-Post s safe =
    if-Post _ s.done_locked _ _ (λ e. waits-Post _ s safe)
      (λ e. returns-Post _ tt _ (record { safe = safe; grown = λ b h. h; kept = refl }))

-- The miner holds the header of the work.
abbrev Headed : Sizes → CudaMiner → Type 0
Headed z s = Safe s × (s.header_contents ≡ z.work.header)

target-Post :
    (gpu : Cuda) (z : Sizes) (target : ℕ) (s : CudaMiner)
    → Headed z s
    → Post
        (λ a t. Headed z t)
        (if s.current_target == target
          then returns tt s
          else call gpu set_target (λ u. record u { current_target = target }) s)
target-Post gpu z target s headed =
    if-Post _ (s.current_target == target) _ _ (λ e. returns-Post _ tt s headed)
      (λ e. call-Post (Headed z) gpu set_target _ s headed.0 headed)

begin-Post :
    (gpu : Cuda) (z : Sizes) (n target : ℕ) (s : CudaMiner)
    → z.work.start_nonce < 18446744073709551616
    → Fits z n
    → Safe s
    → Post (λ r t. Ready z (r.0) (r.1) t) (begin gpu z n target s)
unfolding begin
begin-Post gpu z n target s bound fits safe =
    bind-Post _ _ (call gpu set_header (λ t. record t { header_contents = z.work.header }) s) _
      (call-Post (Headed z) gpu set_header _ s safe (safe, refl))
      (λ a t headed.
        bind-Post _ _
          (if t.current_target == target
            then returns tt t
            else call gpu set_target (λ u. record u { current_target = target }) t)
          _ (target-Post gpu z target t headed)
          (λ b u ready. bind-Post _ _ (lock_done u) _ (lock_done-Post u ready.0) (λ c v on.
            bind-Post _ _ (prime gpu z n 0 z.work.start_nonce v) _
              (prime-Post gpu z n 0 z.work.start_nonce v fits.small bound (on.kept ∙ ready.1)
                on.safe)
              (λ r x (next, far, size, placed).
                primed_lem r x v next far size placed (on.kept ∙ ready.1)))))
  where
    primed_lem :
        (r : ℕ × List Stream) (x v : CudaMiner)
        → Onward v x
        → r.0 ≡ steps z (r.1) z.work.start_nonce
        → length (r.1) ≡ n
        → Placed z x (ahead z z.work.start_nonce) (r.1)
        → v.header_contents ≡ z.work.header
        → Post
            (λ q t. Ready z (q.0) (q.1) t)
            (returns r (record x { done = false; done_locked = false }))
    primed_lem r x v next far size placed header =
        let fits_r : Fits z (length (r.1)) = rw size fits in
        let there : r.0 ≡ ahead z z.work.start_nonce =
          far ∙ steps-ahead z (r.1) z.work.start_nonce fits_r bound in
        returns-Post _ r (record x { done = false; done_locked = false })
          (record {
            safe = next.safe;
            fits = fits_r;
            bound = omega (arith, there);
            header = next.kept ∙ header;
            placed =
                subst (λ a. Placed z (record x { done = false; done_locked = false }) a (r.1))
                  (sym there)
                  (Placed-Onward z x (record x { done = false; done_locked = false })
                    (ahead z z.work.start_nonce) (r.1)
                    (record { safe = next.safe; grown = λ b h. h; kept = refl }) placed);
          })

sizes_of-Fits :
    (w : WorkPackage) (s : CudaMiner)
    → s.block_multiple * s.device.cu_block_size < 4294967296
    → s.block_multiple * s.device.cu_block_size * s.device.cu_stream_size < 4294967296
    → Fits (sizes_of w s) s.device.cu_stream_size
unfolding sizes_of
sizes_of-Fits w s one all =
    let whole : u32 (s.block_multiple * s.device.cu_block_size)
        ≡ s.block_multiple * s.device.cu_block_size =
      mod-eq_of_lt one in
    record { small = omega arith; shared = rw whole (mod-eq_of_lt all ∙ mul_comm _ _) }

-- The miner at the end of a call, however it ended.
abbrev pub miner_of : {A : Type 0} → Ending A → CudaMiner
miner_of (returns a s) = s
miner_of (throws s) = s
miner_of (waits s) = s

Post-Safe : {A : Type 0} (m : Ending A) → Post (λ a t. Safe t) m → Safe (miner_of m)
unfolding Post
Post-Safe (returns a s) h = h
Post-Safe (throws s) h = h
Post-Safe (waits s) h = h

-- However a search goes and ends, every solution that it gave to the farm names a nonce of a batch that
-- the device searched under the header of the solution's work, if those given before do. This is for a
-- start nonce of 64 bits, blocks of all streams that fit in 32 bits, and a device that reports offsets
-- of the batch only.
pub search-submitted :
    (gpu : Cuda) (ps : List Pass) (target : ℕ) (w : WorkPackage) (s : CudaMiner)
    → All (λ p. (j : ℕ) → Honest (p.visits j).device) ps
    → w.start_nonce < 18446744073709551616
    → s.block_multiple * s.device.cu_block_size < 4294967296
    → s.block_multiple * s.device.cu_block_size * s.device.cu_stream_size < 4294967296
    → All (Searched s.batches) s.submitted
    → All
        (Searched (miner_of (search gpu ps target w s)).batches)
        (miner_of (search gpu ps target w s)).submitted
unfolding search sizes_of
search-submitted gpu ps target w s honest bound one all safe = Post-Safe _ (
    bind-Post _ _ (begin gpu (sizes_of w s) s.device.cu_stream_size target s) _
      (begin-Post gpu (sizes_of w s) s.device.cu_stream_size target s bound
        (sizes_of-Fits w s one all) safe)
      (λ r t ready. passes-Post (sizes_of w s) ps (r.0) (r.1) t honest ready))
