-- ===== src/Eth/Farm/Nonce.antt =====
-- Farm::setWork of libeth/Farm.cpp: each miner gets the work with a start nonce of its own.
pub mod Log
pub mod Assign
pub mod Disjoint
pub mod Prefix
use etcminer.Prelude.{
  ℕ, zero, suc, ◌+◌, ◌-◌, ◌*◌, ◌^◌, ◌%◌, List, [], ◌∷◌, Text, ltb, leb, if◌then◌else◌, is_empty,
  length, u64,
}
use etcminer.Eth.Work.{WorkPackage}
use etcminer.Eth.Miner
use etcminer.Eth.Farm.State.{Farm, FarmSettings}

-- The least k from `k` on with n ≤ 2 ^ k, on fuel.
unfoldable pub ceil_log2_from : ℕ → ℕ → ℕ → ℕ
ceil_log2_from zero k n = k
ceil_log2_from (suc fuel) k n =
    let rest = ceil_log2_from fuel (k + 1) n in if leb n (2 ^ k) then k else rest

-- (unsigned)ceil(log2(n)), which is exact at the sizes of a vector; n rounds are enough.
unfoldable pub ceil_log2 : ℕ → ℕ
unfolding ceil_log2_from
ceil_log2 n = ceil_log2_from n 0 n

-- a - b in uint16_t
abbrev pub sub16 : ℕ → ℕ → ℕ
sub16 a b = (a + 65536 - b % 65536) % 65536

-- The bits that the pool or the user has fixed: 4 for each hexadecimal digit.
unfoldable pub fixed_bits : FarmSettings → WorkPackage → ℕ
fixed_bits s w =
    if is_empty s.nonce
    then (if ltb 0 w.ex_size_bytes then w.ex_size_bytes * 4 else 0)
    else 4 * length s.nonce

-- segmentBits, a uint16_t.
unfoldable pub segment_bits : ℕ → FarmSettings → WorkPackage → ℕ
segment_bits count s w = sub16 (64 - ceil_log2 count) (fixed_bits s w)

-- The start nonce of the first miner. `strtoull` reads a numeral of base 16, `random` is the number
-- that m_engine draws. A shift by a negative count, for a nonce of over 16 digits, is undefined in
-- the source.
unfoldable pub base_nonce : (Text → ℕ) → ℕ → FarmSettings → WorkPackage → ℕ
base_nonce strtoull random s w =
    if is_empty s.nonce
    then (if ltb 0 w.ex_size_bytes then w.start_nonce else u64 random)
    else u64 (strtoull s.nonce * 2 ^ (64 - 4 * length s.nonce))

-- m_currentWp.startNonce += 1ULL << segmentBits. A shift by 64 or more is undefined in the source.
unfoldable pub advance_nonce : ℕ → WorkPackage → WorkPackage
advance_nonce bits w = record w { start_nonce = u64 (w.start_nonce + u64 (2 ^ bits)) }

-- The loop over the miners, with the work package that it leaves in m_currentWp.
unfoldable pub assign_work : ℕ → WorkPackage → List Miner.Miner → List Miner.Miner × WorkPackage
unfolding advance_nonce
assign_work bits w [] = ([], w)
assign_work bits w (m ∷ ms) =
    let (rest, last) = assign_work bits (advance_nonce bits w) ms in
    (Miner.set_work w m ∷ rest, last)

unfoldable pub set_work : (Text → ℕ) → ℕ → WorkPackage → Farm → Farm
set_work strtoull random new_wp f =
    let first = record new_wp { start_nonce = base_nonce strtoull random f.settings new_wp } in
    let (ms, last) =
      assign_work (segment_bits (length f.miners) f.settings new_wp) first f.miners in
    record f { miners = ms; current_wp = last }
