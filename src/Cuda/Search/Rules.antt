-- ===== src/Cuda/Search/Rules.antt =====
-- How the calls of CUDAMiner::search change the miner, and what holds of it however they end.
use etcminer.Prelude.{ℕ, ◌≡◌, refl, ◌∙◌, Bool, true, false, All, inl, inr, if◌then◌else◌}
use etcminer.Eth.Batch.{Batch, Among, Searched, weaken-Searched}
use etcminer.Cuda.State.{
  CudaMiner, Call, Cuda, run_search, Ending, returns, throws, waits, ◌>>=◌, call,
}
use etcminer.Cuda.Search.{launch}

-- Every solution given to the farm is from a batch that was run.
abbrev pub Safe : CudaMiner → Type 0
Safe s = All (Searched s.batches) s.submitted

-- Batches are only added, and the device keeps its header.
pub record Onward (s t : CudaMiner) : Type 0 where
  pub safe : Safe t
  pub grown : (b : Batch) → Among b s.batches → Among b t.batches
  pub kept : t.header_contents ≡ s.header_contents

pub Onward-refl : (s : CudaMiner) → Safe s → Onward s s
Onward-refl s safe = record { safe = safe; grown = λ b h. h; kept = refl }

pub Onward-trans : (s t u : CudaMiner) → Onward s t → Onward t u → Onward s u
Onward-trans s t u p q = record {
  safe = q.safe;
  grown = λ b h. q.grown b (p.grown b h);
  kept = q.kept ∙ p.kept;
}

-- Either the result meets P, or the miner is safe.
unfoldable pub Post : {A : Type 0} → (A → CudaMiner → Type 0) → Ending A → Type 0
Post P (returns a s) = P a s
Post P (throws s) = Safe s
Post P (waits s) = Safe s

pub returns-Post :
    {A : Type 0} (P : A → CudaMiner → Type 0) (a : A) (s : CudaMiner) → P a s → Post P (returns a s)
unfolding Post
returns-Post P a s h = h

pub throws-Post :
    {A : Type 0} (P : A → CudaMiner → Type 0) (s : CudaMiner) → Safe s → Post P (throws s)
unfolding Post
throws-Post P s h = h

pub waits-Post :
    {A : Type 0} (P : A → CudaMiner → Type 0) (s : CudaMiner) → Safe s → Post P (waits s)
unfolding Post
waits-Post P s h = h

pub bind-Post :
    {A B : Type 0} (P : A → CudaMiner → Type 0) (Q : B → CudaMiner → Type 0) (m : Ending A)
    (f : A → CudaMiner → Ending B)
    → Post P m
    → ((a : A) (s : CudaMiner) → P a s → Post Q (f a s))
    → Post Q (m >>= f)
unfolding Post
bind-Post P Q (returns a s) f h next = next a s h
bind-Post P Q (throws s) f h next = h
bind-Post P Q (waits s) f h next = h

pub if-Post :
    {A : Type 0} (P : A → CudaMiner → Type 0) (b : Bool) (m n : Ending A)
    → (b ≡ true → Post P m)
    → (b ≡ false → Post P n)
    → Post P (if b then m else n)
if-Post P true m n h k = h refl
if-Post P false m n h k = k refl

-- A call that is answered.
pub call-Post :
    (P : CudaMiner → Type 0) (gpu : Cuda) (c : Call) (set : CudaMiner → CudaMiner) (s : CudaMiner)
    → Safe s
    → P (set s)
    → Post (λ a t. P t) (call gpu c set s)
unfolding call
call-Post P gpu c set s safe h =
    if-Post (λ a t. P t) (gpu c) _ _ (λ e. throws-Post _ s safe) (λ e. returns-Post _ tt (set s) h)

pub launch-Post :
    (gpu : Cuda) (i : ℕ) (b : Batch) (s : CudaMiner)
    → Safe s
    → Post (λ a t. Onward s t × Among b t.batches) (launch gpu i b s)
unfolding launch
launch-Post gpu i b s safe =
    call-Post (λ t. Onward s t × Among b t.batches) gpu (run_search i) _ _ safe
      (
        record {
          safe = weaken-Searched b s.batches s.submitted safe;
          grown = λ c h. inr h;
          kept = refl;
        },
        inl refl,
      )
