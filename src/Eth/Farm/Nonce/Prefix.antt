-- ===== src/Eth/Farm/Nonce/Prefix.antt =====
-- The part of the nonce that the user or the pool fixes, under setWork.
use etcminer.Prelude.{
  ℕ, ◌+◌, ◌*◌, ◌^◌, ◌-◌, ◌/◌, ◌<◌, ◌≡◌, arith, some, get_elem?, u64, length, Text, true, false,
  is_empty, lt_of_get_elem?,
}
use etcminer.Eth.Work.{WorkPackage}
use etcminer.Eth.Miner
use etcminer.Eth.Farm.State.{Farm}
use etcminer.Eth.Farm.Nonce.{fixed_bits, base_nonce, set_work}
use etcminer.Eth.Farm.Nonce.Disjoint.{Fits, width, segments_fit, prefix_kept, start_nonce-set_work}

module _ (strtoull : Text → ℕ) (random : ℕ) (w : WorkPackage) (f : Farm) (fits : Fits w f)
    (small : w.start_nonce < 18446744073709551616) where
  -- The prefix `e` of `k` bits stays in front of every nonce of every segment.
  set_work-keeps :
      (e k i o : ℕ) {m a : Miner.Miner}
      → fixed_bits f.settings w ≡ k
      → base_nonce strtoull random f.settings w ≡ u64 (e * 2 ^ (64 - k))
      → e < 2 ^ k
      → get_elem? f.miners i ≡ some m
      → Miner.paused m ≡ false
      → get_elem? (set_work strtoull random w f).miners i ≡ some a
      → o < 2 ^ width w f
      → (a.work.start_nonce + o < 18446744073709551616)
        × ((a.work.start_nonce + o) / 2 ^ (64 - k) ≡ e)
  set_work-keeps e k i o fixed base inside hi awake ha ho =
      rw (start_nonce-set_work strtoull random w f i small hi awake ha, base)
        (prefix_kept e k (2 ^ width w f) (64 - k) i (length f.miners) o
          (rw fixed at (segments_fit w f fits)) inside (omega (arith, fixed, fits))
          (lt_of_get_elem? f.miners i hi) ho)

  -- With a start nonce set by the user, whose digits leave room for the miners in 64 bits: every nonce
  -- of an active miner's segment is below 2 ^ 64 and has the user's digits in front, if those are read
  -- as a number of that many digits.
  pub set_work-user_prefix :
      (i o : ℕ) {m a : Miner.Miner}
      → is_empty f.settings.nonce ≡ false
      → strtoull f.settings.nonce < 2 ^ (4 * length f.settings.nonce)
      → get_elem? f.miners i ≡ some m
      → Miner.paused m ≡ false
      → get_elem? (set_work strtoull random w f).miners i ≡ some a
      → o < 2 ^ width w f
      → (a.work.start_nonce + o < 18446744073709551616)
        × ((a.work.start_nonce + o) / 2 ^ (64 - 4 * length f.settings.nonce)
            ≡ strtoull f.settings.nonce)
  unfolding fixed_bits base_nonce
  set_work-user_prefix i o given inside hi awake ha ho =
      set_work-keeps (strtoull f.settings.nonce) (4 * length f.settings.nonce) i o (ground arith)
        (ground arith) inside hi awake ha ho

  -- With none set by the user and an extra nonce `e` of the pool in front of the package's start
  -- nonce, which leaves room for the miners in 64 bits: every nonce of an active miner's segment is
  -- below 2 ^ 64 and keeps `e` in front.
  pub set_work-pool_prefix :
      (e i o : ℕ) {m a : Miner.Miner}
      → is_empty f.settings.nonce ≡ true
      → 0 < w.ex_size_bytes
      → e < 2 ^ (w.ex_size_bytes * 4)
      → w.start_nonce ≡ e * 2 ^ (64 - w.ex_size_bytes * 4)
      → get_elem? f.miners i ≡ some m
      → Miner.paused m ≡ false
      → get_elem? (set_work strtoull random w f).miners i ≡ some a
      → o < 2 ^ width w f
      → (a.work.start_nonce + o < 18446744073709551616)
        × ((a.work.start_nonce + o) / 2 ^ (64 - w.ex_size_bytes * 4) ≡ e)
  unfolding fixed_bits base_nonce
  set_work-pool_prefix e i o none_set some_bits inside shape hi awake ha ho =
      set_work-keeps e (w.ex_size_bytes * 4) i o (ground arith) (ground (arith)) inside hi awake ha
        ho
