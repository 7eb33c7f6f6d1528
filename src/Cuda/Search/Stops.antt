-- ===== src/Cuda/Search/Stops.antt =====
-- A search of CUDAMiner ends once the miner is told to.
use etcminer.Prelude.{
  ℕ, ◌+◌, ◌≡◌, refl, ◌∙◌, ap, Bool, true, false, ◌||◌, List, [], ◌∷◌, inl, inr, Bool-cases, u32,
  u64, if◌then◌else◌,
}
use etcminer.Eth.Batch.{reported}
use etcminer.Cuda.State.{
  CudaMiner, Call, Cuda, Ending, returns, clear_results, read_results, synchronize, call, ◌>>=◌,
}
use etcminer.Cuda.Search.{
  Stream, Visit, Pass, Sizes, batch_at, submit, report, set_done, refill, serve, visit, pass,
  count_hashes, any_busy, passes, finished,
}

-- CUDA answers without an error.
abbrev pub Healthy : Cuda → Type 0
Healthy gpu = (c : Call) → gpu c ≡ false

-- A call that returns, with m_done set, and starts no kernel.
abbrev Stopped : {A : Type 0} → (A → Type 0) → CudaMiner → Ending A → Type 0
Stopped {A} P s m =
    (a : A) × (t : CudaMiner) × (m ≡ returns a t) × P a × (t.done ≡ true) × (t.batches ≡ s.batches)

bind-Stopped :
    {A B : Type 0} (P : A → Type 0) (Q : B → Type 0) (s : CudaMiner) (m : Ending A)
    (f : A → CudaMiner → Ending B)
    → Stopped P s m
    → ((a : A) (t : CudaMiner) → P a → t.done ≡ true → Stopped Q t (f a t))
    → Stopped Q s (m >>= f)
bind-Stopped P Q s m f (a, t, e, p, done, runs) next =
    let (b, u, g, q, still, more) = next a t p done in
    (b, u, ap (λ n. n >>= f) e ∙ g, q, still, more ∙ runs)

if-Stopped :
    {A : Type 0} (P : A → Type 0) (s : CudaMiner) (b : Bool) (m n : Ending A)
    → (b ≡ true → Stopped P s m)
    → (b ≡ false → Stopped P s n)
    → Stopped P s (if b then m else n)
if-Stopped P s true m n h k = h refl
if-Stopped P s false m n h k = k refl

call-Stopped :
    (gpu : Cuda) (c : Call) (s : CudaMiner)
    → Healthy gpu
    → s.done ≡ true
    → Stopped (λ a. Unit {0}) s (call gpu c (λ t. t) s)
unfolding call
call-Stopped gpu c s healthy done = (tt, s, rw (healthy c) refl, tt, done, refl)

submit-done :
    (z : Sizes) (start : ℕ) (gs : List ℕ) (s : CudaMiner) → (submit z start gs s).done ≡ s.done
unfolding submit
submit-done z start [] s = refl
submit-done z start (g ∷ gs) s = submit-done z start gs _

submit-batches :
    (z : Sizes) (start : ℕ) (gs : List ℕ) (s : CudaMiner)
    → (submit z start gs s).batches ≡ s.batches
unfolding submit
submit-batches z start [] s = refl
submit-batches z start (g ∷ gs) s = submit-batches z start gs _

or_true : (b : Bool) {c : Bool} → c ≡ true → (b || c) ≡ true
or_true true h = refl
or_true false h = h

refill-Stopped :
    (gpu : Cuda) (i : ℕ) (z : Sizes) (start : ℕ) (stream : Stream) (s u : CudaMiner)
    → u.done ≡ true
    → Stopped (λ after. after.busy ≡ false) u (refill gpu i (batch_at z start s) stream u)
unfolding refill
refill-Stopped gpu i z start stream s u done =
    if-Stopped _ u u.done _ _ (λ e. (_, u, refl, refl, done, refl)) (λ e. cc)

serve-Stopped :
    (z : Sizes) (v : Visit) (i start : ℕ) (stream : Stream) (s : CudaMiner)
    → Healthy v.gpu
    → s.done ≡ true
    → Stopped (λ r. (r.1).busy ≡ false) s (serve z v i start stream s)
unfolding serve set_done report
serve-Stopped z v i start stream s healthy done =
    bind-Stopped _ _ s (call v.gpu (synchronize i) (λ t. t) s) _
      (call-Stopped v.gpu (synchronize i) s healthy done)
      (λ a t k done_t.
        bind-Stopped _ _ t (call v.gpu (read_results i) (λ t. t) t) _
          (call-Stopped v.gpu (read_results i) t healthy done_t)
          (λ b u l done_u.
            bind-Stopped _ _ u (call v.gpu (clear_results i) (λ t. t) u) _
              (call-Stopped v.gpu (clear_results i) u healthy done_u)
              (λ c w m done_w.
                bind-Stopped _ _ w
                  (refill v.gpu i (batch_at z start w) stream (set_done v.kicked w)) _
                  (refill-Stopped v.gpu i z start stream w (set_done v.kicked w)
                    (or_true v.kicked done_w))
                  (λ after x idle done_x. (
                    _,
                    _,
                    refl,
                    idle,
                    or_true v.should_stop
                        (submit-done z start (reported (v.device stream.batch)) x ∙ done_x),
                    submit-batches z start (reported (v.device stream.batch)) x,
                  )))))

visit-Stopped :
    (z : Sizes) (p : Pass) (i start count : ℕ) (streams : List Stream) (s : CudaMiner)
    → ((j : ℕ) → Healthy (p.visits j).gpu)
    → s.done ≡ true
    → Stopped (λ place. any_busy place.streams ≡ false) s (visit z p i start count streams s)
unfolding visit any_busy
visit-Stopped z p i start count [] s healthy done = (_, s, refl, refl, done, refl)
visit-Stopped z p i start count (stream ∷ streams) s healthy done =
    bind-Stopped (λ (r : ℕ × Stream). (r.1).busy ≡ false) _ s
      (if stream.busy then serve z (p.visits i) i start stream s else returns (0, stream) s) _
      (if-Stopped _ s stream.busy _ _
        (λ e. serve-Stopped z (p.visits i) i start stream s (healthy i) done)
        (λ e. ((0, stream), s, refl, e, done, refl)))
      (λ r t idle done_t.
        bind-Stopped (λ place. any_busy place.streams ≡ false) _ t
          (visit z p (i + 1) (u64 (start + z.batch_blocks)) (u32 (count + r.0)) streams t) _
          (visit-Stopped z p (i + 1) (u64 (start + z.batch_blocks)) (u32 (count + r.0)) streams t
            healthy done_t)
          (λ place u idle_rest done_u. (_, u, refl, rw (idle, idle_rest) refl, done_u, refl)))

passes-idle :
    (z : Sizes) (ps : List Pass) (start : ℕ) (streams : List Stream) (s : CudaMiner)
    → any_busy streams ≡ false
    → passes z ps start streams s ≡ returns finished s
unfolding passes
passes-idle z [] start streams s idle = rw idle refl
passes-idle z (p ∷ ps) start streams s idle = rw idle refl

-- A search ends with the round in which it is told to: where the miner is paused at the head of a round,
-- or m_done is set there by a kick or a request to stop, the search ends with that round, and from its
-- head on no kernel is started. This is for rounds that CUDA answers without an error.
pub passes-finish :
    (z : Sizes) (p : Pass) (ps : List Pass) (start : ℕ) (streams : List Stream) (s : CudaMiner)
    → ((j : ℕ) → Healthy (p.visits j).gpu)
    → (p.paused || s.done) ≡ true
    → (t : CudaMiner) × (passes z (p ∷ ps) start streams s ≡ returns finished t)
      × (t.batches ≡ s.batches)
unfolding passes pass set_done count_hashes
passes-finish z p ps start streams s healthy told = elim (Bool-cases (any_busy streams)) [
  | inl e ↦
      (let (place, t, e', idle, done, runs) =
          visit-Stopped z p 0 start 0 streams (set_done p.paused s) healthy told in
        rw (e, e')
          (count_hashes p place t, passes-idle z ps place.start_nonce place.streams _ idle, runs))
  | inr e ↦ rw e (s, refl, refl)
]
