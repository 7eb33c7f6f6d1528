-- ===== src/Cuda/Search/Origin.antt =====
-- Which batch a solution of CUDAMiner::search comes from.
use etcminer.Prelude.{ℕ, ◌+◌, ◌-◌, ◌<◌, ◌≡◌, refl, ◌∙◌, arith, Bool, true, List, [], ◌∷◌, All, u64}
use etcminer.Eth.Batch.{Batch, Among, Honest, reported, SearchResults, All-reported}
use etcminer.Cuda.State.{
  CudaMiner, Call, Cuda, ◌>>◌, Ending, clear_results, read_results, synchronize, call,
}
use etcminer.Cuda.Search.{
  Stream, Visit, Sizes, batch_at, submit, report, set_done, refill, serve, launch,
}
use etcminer.Cuda.Search.Rules.{
  Safe, Onward, Onward-refl, Onward-trans, Post, returns-Post, bind-Post, if-Post, call-Post,
  launch-Post,
}

-- The start nonce that stood for a stream one round before, and the one that stands for it one round on.
abbrev pub behind : Sizes → ℕ → ℕ
behind z start = u64 (start + 18446744073709551616 - z.stream_blocks)

abbrev pub ahead : Sizes → ℕ → ℕ
ahead z start = u64 (start + z.stream_blocks)

-- A batch that was run for the work, one round before the start nonce.
pub record Held (z : Sizes) (start : ℕ) (b : Batch) (s : CudaMiner) : Type 0 where
  pub among : Among b s.batches
  pub header : b.header ≡ z.work.header
  pub begun : b.start ≡ behind z start

abbrev pub Placed : Sizes → CudaMiner → ℕ → List Stream → Type 0
Placed z s start [] = Unit {0}
Placed z s start (stream ∷ streams) =
    (stream.busy ≡ true → Held z start stream.batch s)
    × Placed z s (u64 (start + z.batch_blocks)) streams

pub Held-Onward :
    (z : Sizes) (start : ℕ) (b : Batch) (s t : CudaMiner)
    → Onward s t
    → Held z start b s
    → Held z start b t
Held-Onward z start b s t on h = record {
  among = on.grown b h.among;
  header = h.header;
  begun = h.begun;
}

pub Placed-Onward :
    (z : Sizes) (s t : CudaMiner) (start : ℕ) (streams : List Stream)
    → Onward s t
    → Placed z s start streams
    → Placed z t start streams
Placed-Onward z s t start [] on h = tt
Placed-Onward z s t start (stream ∷ streams) on (held, placed) = (
  λ e. Held-Onward z start stream.batch s t on (held e),
  Placed-Onward z s t (u64 (start + z.batch_blocks)) streams on placed,
)

-- Solutions at offsets of a batch that is held.
pub submit-Onward :
    (z : Sizes) (start : ℕ) (gs : List ℕ) (b : Batch) (s : CudaMiner)
    → Safe s
    → Held z start b s
    → All (λ g. g < b.count) gs
    → Onward s (submit z start gs s)
unfolding submit
submit-Onward z start [] b s safe held small = Onward-refl s safe
submit-Onward z start (g ∷ gs) b s safe held (h, small) =
    let on =
      submit-Onward z start gs b _ ((b, g, held.among, held.header, h, rw (held.begun) refl), safe)
        (record { among = held.among; header = held.header; begun = held.begun }) small in
    record { safe = on.safe; grown = on.grown; kept = on.kept }

pub report-Onward :
    (z : Sizes) (start : ℕ) (device : Batch → SearchResults) (b : Batch) (s : CudaMiner)
    → Honest device
    → Safe s
    → Held z start b s
    → Onward s (report z start (device b) s)
unfolding report
report-Onward z start device b s honest safe held =
    submit-Onward z start (reported (device b)) b s safe held (All-reported _ (device b) (honest b))

-- A stream after its turn: it holds the batch from here on, if it is busy.
abbrev pub Refilled : Sizes → ℕ → Stream → CudaMiner → Type 0
Refilled z start stream s = stream.busy ≡ true → Held z (ahead z start) stream.batch s

pub there_and_back :
    (z : Sizes) (start : ℕ)
    → z.stream_blocks < 4294967296
    → start < 18446744073709551616
    → start ≡ behind z (ahead z start)
there_and_back z start small fits = omega arith

pub refill-Post :
    (z : Sizes) (gpu : Cuda) (i start : ℕ) (b : Batch) (stream : Stream) (s : CudaMiner)
    → z.stream_blocks < 4294967296
    → start < 18446744073709551616
    → b.header ≡ z.work.header
    → b.start ≡ start
    → Safe s
    → Post (λ after t. Onward s t × Refilled z start after t) (refill gpu i b stream s)
unfolding refill
refill-Post z gpu i start b stream s small fits header begun safe =
    if-Post _ s.done _ _ (λ e. returns-Post _ _ s (Onward-refl s safe, λ busy. cc))
      (λ e. bind-Post _ _ (launch gpu i b s) _ (launch-Post gpu i b s safe) (λ a t (on, among).
        returns-Post _ _ t (
          on,
          λ busy. record {
            among = among;
            header = header;
            begun = begun ∙ there_and_back z start small fits;
          },
        )))

pub set_done-Onward : (b : Bool) (s : CudaMiner) → Safe s → Onward s (set_done b s)
unfolding set_done
set_done-Onward b s safe = record { safe = safe; grown = λ c h. h; kept = refl }

-- A call that changes nothing, and what follows it.
pub then-Post :
    {B : Type 0} (P : B → CudaMiner → Type 0) (gpu : Cuda) (c : Call) (s : CudaMiner)
    (f : CudaMiner → Ending B)
    → Safe s
    → Post P (f s)
    → Post P (call gpu c (λ t. t) s >> f)
then-Post P gpu c s f safe h =
    bind-Post (λ a t. Post P (f t)) P (call gpu c (λ t. t) s) (λ a t. f t)
      (call-Post (λ t. Post P (f t)) gpu c (λ t. t) s safe h) (λ a t k. k)

pub serve-Post :
    (z : Sizes) (v : Visit) (i start : ℕ) (stream : Stream) (s : CudaMiner)
    → z.stream_blocks < 4294967296
    → start < 18446744073709551616
    → Honest v.device
    → s.header_contents ≡ z.work.header
    → Safe s
    → Held z start stream.batch s
    → Post (λ r t. Onward s t × Refilled z start (r.1) t) (serve z v i start stream s)
unfolding serve batch_at
serve-Post z v i start stream s small fits honest header safe held =
    then-Post _ v.gpu (synchronize i) s _ safe (
      then-Post _ v.gpu (read_results i) s _ safe (
        then-Post _ v.gpu (clear_results i) s _ safe (
          let kicked = set_done-Onward v.kicked s safe in
          bind-Post _ _ (refill v.gpu i (batch_at z start s) stream (set_done v.kicked s)) _
            (refill-Post z v.gpu i start (batch_at z start s) stream (set_done v.kicked s) small
              fits header refl kicked.safe)
            (λ after x (on, refilled).
              let so_far = Onward-trans s (set_done v.kicked s) x kicked on in
              let told =
                report-Onward z start v.device stream.batch x honest so_far.safe
                  (Held-Onward z start stream.batch s x so_far held) in
              let last =
                set_done-Onward v.should_stop (report z start (v.device stream.batch) x)
                  told.safe in
              let rest =
                Onward-trans x (report z start (v.device stream.batch) x)
                  (set_done v.should_stop (report z start (v.device stream.batch) x)) told last in
              returns-Post _ _ _ (
                Onward-trans s x _ so_far rest,
                λ busy. Held-Onward z (ahead z start) after.batch x _ rest (refilled busy),
              )))))
