-- ===== src/Eth/Farm/Nonce/Disjoint.antt =====
-- The segments of nonces that setWork gives to the miners.
use native.Mathlib.Nat.{mul-le-mul_right, pow-le-pow_right, le_trans}
use etcminer.Prelude.{
  ℕ, suc, ◌+◌, ◌*◌, ◌^◌, ◌-◌, ◌/◌, ◌≤◌, ◌<◌, ◌≡◌, ◌≢◌, sym, ap, arith, lt_of_get_elem?, some,
  get_elem?, u64, length, Text, false,
}
use etcminer.Prelude.Arith.{div-block}
use etcminer.Eth.Work.{WorkPackage}
use etcminer.Eth.Miner
use etcminer.Eth.Miner.{Miner}
use etcminer.Eth.Farm.State.{Farm}
use etcminer.Eth.Farm.Nonce.{ceil_log2, fixed_bits, segment_bits, base_nonce, set_work}
use etcminer.Eth.Farm.Nonce.Log.{pow-add_two, le-pow-ceil_log2}
use etcminer.Eth.Farm.Nonce.Assign.{nth_work, assign_work-nth}

-- The fixed bits and the bits that number the miners leave room in 64.
abbrev pub Fits : WorkPackage → Farm → Type 0
Fits w f = ceil_log2 (length f.miners) + fixed_bits f.settings w ≤ 64

-- The width of a segment, at the farm's present miners.
abbrev pub width : WorkPackage → Farm → ℕ
width w f = segment_bits (length f.miners) f.settings w

pub width_lem :
    (w : WorkPackage) (f : Farm)
    → Fits w f
    → width w f + fixed_bits f.settings w + ceil_log2 (length f.miners) ≡ 64
unfolding segment_bits
width_lem w f h = omega arith

room :
    (w : WorkPackage) (f : Farm)
    → Fits w f
    → ceil_log2 (length f.miners) + width w f ≡ 64 - fixed_bits f.settings w
room w f h = omega (arith, width_lem w f h)

-- All segments fill at most the room that the fixed bits leave.
pub segments_fit :
    (w : WorkPackage) (f : Farm)
    → Fits w f
    → length f.miners * 2 ^ width w f ≤ 2 ^ (64 - fixed_bits f.settings w)
segments_fit w f h = omega (
  arith,
  ap (λ (t : ℕ). 2 ^ t) (room w f h),
  pow-add_two (ceil_log2 (length f.miners)) (width w f),
  mul-le-mul_right (2 ^ width w f) (le-pow-ceil_log2 (length f.miners)),
)

blocks_apart :
    (n W base i j o p : ℕ)
    → n * W ≤ 18446744073709551616
    → i < j
    → j < n
    → o < W
    → p < W
    → u64 (u64 (base + i * W) + o) ≢ u64 (u64 (base + j * W) + p)
blocks_apart n W base i j o p fits lt inside ho hp e =
    omega (arith, mul-le-mul_right W lt, mul-le-mul_right W inside)

blocks_differ :
    (n W base i j o p : ℕ)
    → n * W ≤ 18446744073709551616
    → i ≢ j
    → i < n
    → j < n
    → o < W
    → p < W
    → u64 (u64 (base + i * W) + o) ≢ u64 (u64 (base + j * W) + p)
blocks_differ n W base i j o p fits ne hi hj ho hp e = ground (
  arith,
  λ (lt : i < j). blocks_apart n W base i j o p fits lt hj ho hp e,
  λ (gt : j < i). blocks_apart n W base j i p o fits gt hi hp ho (sym e),
)

pub segments_fit_word :
    (w : WorkPackage) (f : Farm) → Fits w f → length f.miners * 2 ^ width w f ≤ 18446744073709551616
segments_fit_word w f h =
    le_trans (segments_fit w f h) (pow-le-pow_right {n = 2} (omega arith) {j = 64} (omega arith))

pub work-set_work :
    (w : WorkPackage) (m : Miner.Miner) → Miner.paused m ≡ false → (Miner.set_work w m).work ≡ w
unfolding Miner.set_work
work-set_work w m awake = ground arith

module _ (strtoull : Text → ℕ) (random : ℕ) (w : WorkPackage) (f : Farm) where
  unfoldable pub first : WorkPackage
  first = record w { start_nonce = base_nonce strtoull random f.settings w }

  first-lt : w.start_nonce < 18446744073709551616 → first.start_nonce < 18446744073709551616
  unfolding first base_nonce
  first-lt small = ground arith

  -- What miner i is after the call.
  pub set_work-nth :
      (i : ℕ) {m : Miner.Miner}
      → w.start_nonce < 18446744073709551616
      → get_elem? f.miners i ≡ some m
      → get_elem? (set_work strtoull random w f).miners i
        ≡ some (Miner.set_work (nth_work (width w f) first i) m)
  unfolding set_work first
  set_work-nth i small h = assign_work-nth (width w f) first f.miners i (first-lt small) h

  -- The start nonce of a miner that is not paused.
  pub start_nonce-set_work :
      (i : ℕ) {m a : Miner.Miner}
      → w.start_nonce < 18446744073709551616
      → get_elem? f.miners i ≡ some m
      → Miner.paused m ≡ false
      → get_elem? (set_work strtoull random w f).miners i ≡ some a
      → a.work.start_nonce ≡ u64 (base_nonce strtoull random f.settings w + i * 2 ^ width w f)
  unfolding first
  start_nonce-set_work i {m} {a} small h awake ha =
      let given : a ≡ Miner.set_work (nth_work (width w f) first i) m =
        cc (set_work-nth i small h) in
      rw (given, work-set_work (nth_work (width w f) first i) m awake)

  -- Where the fixed bits and the bits that number the miners fit in 64, two miners that are not paused
  -- never have a nonce in common: at offsets within their segments their nonces differ, in 64 bits,
  -- wherever the first segment starts.
  pub set_work-disjoint :
      (i j o p : ℕ) {m n a b : Miner.Miner}
      → Fits w f
      → w.start_nonce < 18446744073709551616
      → i ≢ j
      → get_elem? f.miners i ≡ some m
      → Miner.paused m ≡ false
      → get_elem? f.miners j ≡ some n
      → Miner.paused n ≡ false
      → get_elem? (set_work strtoull random w f).miners i ≡ some a
      → get_elem? (set_work strtoull random w f).miners j ≡ some b
      → o < 2 ^ width w f
      → p < 2 ^ width w f
      → u64 (a.work.start_nonce + o) ≢ u64 (b.work.start_nonce + p)
  set_work-disjoint i j o p fits small ne hi awake_i hj awake_j ha hb ho hp same =
      blocks_differ (length f.miners) (2 ^ width w f) (base_nonce strtoull random f.settings w) i j
        o p (segments_fit_word w f fits) ne (lt_of_get_elem? f.miners i hi)
        (lt_of_get_elem? f.miners j hj) ho hp
        (rw
          (
            ← start_nonce-set_work i small hi awake_i ha,
            ← start_nonce-set_work j small hj awake_j hb,
          )
          same)

-- A segment that starts on a fixed prefix stays on it.
pub prefix_kept :
    (e k W room i n o : ℕ)
    → n * W ≤ 2 ^ room
    → e < 2 ^ k
    → k + room ≡ 64
    → i < n
    → o < W
    → let start = u64 (u64 (e * 2 ^ room) + i * W) in
      (start + o < 18446744073709551616) × ((start + o) / 2 ^ room ≡ e)
prefix_kept e k W room i n o fits small sum hi ho =
    let top : suc e * 2 ^ room ≤ 18446744073709551616 =
      omega
        (arith, mul-le-mul_right (2 ^ room) small, pow-add_two k room, ap (λ (t : ℕ). 2 ^ t) sum) in
    let block : i * W + o < 2 ^ room = omega (arith, mul-le-mul_right W hi) in
    let plain : u64 (u64 (e * 2 ^ room) + i * W) + o ≡ e * 2 ^ room + (i * W + o) = omega arith in
    (omega arith, rw plain (div-block e (2 ^ room) (i * W + o) block))
