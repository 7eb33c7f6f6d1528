-- ===== src/Eth/Farm/Nonce/Assign.antt =====
-- What the loop of setWork gives to the i-th miner.
use mathlib.Core.Option
use etcminer.Prelude.{
  ℕ, zero, suc, ◌+◌, ◌*◌, ◌^◌, ◌<◌, ◌≡◌, ap, arith, List, [], ◌∷◌, some, get_elem?, u64,
}
use etcminer.Eth.Work.{WorkPackage}
use etcminer.Eth.Miner
use etcminer.Eth.Miner.{Miner}
use etcminer.Eth.Farm.Nonce.{advance_nonce, assign_work}

-- The work of the i-th miner, by the closed form of the loop.
abbrev pub nth_work : ℕ → WorkPackage → ℕ → WorkPackage
nth_work bits w i = record w { start_nonce = u64 (w.start_nonce + i * 2 ^ bits) }

nth-advance :
    (bits : ℕ) (w : WorkPackage) (i : ℕ)
    → nth_work bits (advance_nonce bits w) i ≡ nth_work bits w (suc i)
unfolding advance_nonce
nth-advance bits w i = ap (λ n. record w { start_nonce = n }) (omega arith)

advance_nonce-lt :
    (bits : ℕ) (w : WorkPackage) → (advance_nonce bits w).start_nonce < 18446744073709551616
unfolding advance_nonce
advance_nonce-lt bits w = omega arith

-- Every miner gets `set_work` of the work with its own start nonce.
pub assign_work-nth :
    (bits : ℕ) (w : WorkPackage) (ms : List Miner.Miner) (i : ℕ) {m : Miner.Miner}
    → w.start_nonce < 18446744073709551616
    → get_elem? ms i ≡ some m
    → get_elem? (assign_work bits w ms).0 i ≡ some (Miner.set_work (nth_work bits w i) m)
unfolding assign_work
assign_work-nth bits w [] i small h = cc
assign_work-nth bits w (x ∷ ms) zero small h =
    let same : nth_work bits w 0 ≡ w = ap (λ n. record w { start_nonce = n }) (omega arith) in
    rw same (ap (Option.map (Miner.set_work w)) h)
assign_work-nth bits w (x ∷ ms) (suc i) small h =
    rw (← nth-advance bits w i)
      (assign_work-nth bits (advance_nonce bits w) ms i (advance_nonce-lt bits w) h)
