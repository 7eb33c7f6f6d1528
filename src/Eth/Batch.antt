-- ===== src/Eth/Batch.antt =====
-- What the miners of libcl and libcuda share: the runs of a search kernel, the results that a device
-- writes for one (the structs SearchResults of libcl/CLMiner.cpp and Search_results of
-- libcuda/ethash_cuda_miner_kernel.h), and when a solution comes from a run.
use etcminer.Prelude.{
  ℕ, zero, suc, ◌+◌, ◌<◌, ◌≡◌, List, [], ◌∷◌, take, All, ◌⊎◌, inr, Text, u64, ltb, if◌then◌else◌,
}
use etcminer.Eth.Work.{Solution}

-- A run of the search kernel: the header that the device holds, and the nonces from `start` on, `count`
-- of them.
pub record Batch : Type 0 where
  pub header : Text
  pub start : ℕ
  pub count : ℕ

-- The results, less the flag to stop. `gids` are the offsets from the start of the batch.
pub record SearchResults : Type 0 where
  pub count : ℕ
  pub hash_count : ℕ
  pub gids : List ℕ

-- The offsets that are read: 4 at most, c_maxSearchResults and MAX_SEARCH_RESULTS.
unfoldable pub reported : SearchResults → List ℕ
reported r = take (if ltb 4 r.count then 4 else r.count) r.gids

abbrev pub Among : Batch → List Batch → Type 0
Among b [] = ⊥
Among b (c ∷ bs) = (b ≡ c) ⊎ Among b bs

-- The nonce of the solution is one of a batch that was run for the header of its work.
abbrev pub Searched : List Batch → Solution → Type 0
Searched bs s =
    (b : Batch) × (g : ℕ) × Among b bs
    × (b.header ≡ s.work.header)
    × (g < b.count)
    × (s.nonce ≡ u64 (b.start + g))

-- The device reports offsets of the batch only.
abbrev pub Honest : (Batch → SearchResults) → Type 0
Honest device = (b : Batch) → All (λ g. g < b.count) (device b).gids

pub All-map : (P Q : ℕ → Type 0) (gs : List ℕ) → ((g : ℕ) → P g → Q g) → All P gs → All Q gs
All-map P Q [] f h = tt
All-map P Q (g ∷ gs) f (h, hs) = (f g h, All-map P Q gs f hs)

All-take : (P : ℕ → Type 0) (n : ℕ) (gs : List ℕ) → All P gs → All P (take n gs)
All-take P zero gs h = tt
All-take P (suc n) [] h = tt
All-take P (suc n) (g ∷ gs) (h, hs) = (h, All-take P n gs hs)

pub All-reported : (P : ℕ → Type 0) (r : SearchResults) → All P r.gids → All P (reported r)
unfolding reported
All-reported P r h = All-take P (if ltb 4 r.count then 4 else r.count) r.gids h

pub weaken-Searched :
    (b : Batch) (bs : List Batch) (ss : List Solution)
    → All (Searched bs) ss
    → All (Searched (b ∷ bs)) ss
weaken-Searched b bs [] h = tt
weaken-Searched b bs (s ∷ ss) ((c, g, among, same, small, nonce), rest) =
    ((c, g, inr among, same, small, nonce), weaken-Searched b bs ss rest)
