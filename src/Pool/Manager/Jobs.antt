-- ===== src/Pool/Manager/Jobs.antt =====
-- A job on its way from the pool to the miners: onWorkReceived with Farm::setWork and Miner::setWork.
use etcminer.Prelude.{
  ℕ, ◌+◌, ◌*◌, ◌/◌, ◌^◌, ◌<◌, ◌≡◌, ◌≢◌, ◌⊎◌, inl, inr, refl, arith, true, false, text_eq→eq,
  eq→text_eq, Bool-cases, some, Text, get_elem?, length, u32, u64, ◌==◌, if◌then◌else◌,
}
use mathlib.Core.Path.{subst, sym}
use etcminer.Prelude.Int.{ℤ, pos, negsuc, minus_one, int_eq, int_eq→eq}
use etcminer.Eth.Work.{WorkPackage, has_work}
use etcminer.Eth.Miner
use etcminer.Eth.Miner.{Miner}
use etcminer.Eth.Farm.Nonce.{base_nonce, segment_bits, fixed_bits}
use etcminer.Eth.Farm.Nonce.Assign.{nth_work}
use etcminer.Eth.Farm.Nonce.Disjoint.{width, first, set_work-nth, work-set_work}
use etcminer.Pool.Manager.State.{Manager, Env, ok}
use etcminer.Pool.Manager.Handlers.{
  is_new_epoch, derive_epoch, settle_epoch, take_work, mode_read, on_work_received,
}

-- When a package starts a new epoch: the first of all does; with EthereumStratum/2.0.0 one whose epoch
-- differs, and in the other modes one whose seed does.
abbrev pub IsNew : ℕ → WorkPackage → WorkPackage → Type 0
IsNew mode old new =
    (old.epoch ≡ minus_one)
    ⊎ (((mode ≡ 3) × (new.epoch ≢ old.epoch)) ⊎ ((mode ≢ 3) × (new.seed ≢ old.seed)))

-- The epoch under which a package is mined: as before, as the package says, by its block, or by its seed.
pub data Settled (seeds : Text → ℤ) (mode : ℕ) (old new : WorkPackage) : ℤ → Type 0 where
  as_before : ¬ IsNew mode old new → Settled seeds mode old new old.epoch
  as_given : IsNew mode old new → new.epoch ≢ minus_one → Settled seeds mode old new new.epoch
  by_block :
      {b : ℕ}
      → IsNew mode old new
      → new.epoch ≡ minus_one
      → new.block ≡ pos b
      → Settled seeds mode old new (pos (b / 30000))
  by_seed :
      {n : ℕ}
      → IsNew mode old new
      → new.epoch ≡ minus_one
      → new.block ≡ negsuc n
      → Settled seeds mode old new (seeds new.seed)

eq→int_eq : (a b : ℤ) → a ≡ b → int_eq a b ≡ true
eq→int_eq a (pos n) e = rw e (same_number n)
  where
    same_number : (n : ℕ) → (n == n) ≡ true
    same_number n = ground arith
eq→int_eq a (negsuc n) e = rw e (same_number n)
  where
    same_number : (n : ℕ) → (n == n) ≡ true
    same_number n = ground arith

is_new_epoch-IsNew :
    (mode : ℕ) (old new : WorkPackage) → is_new_epoch mode old new ≡ true → IsNew mode old new
unfolding is_new_epoch
is_new_epoch-IsNew mode old new h = ground (
  arith,
  int_eq→eq old.epoch minus_one,
  eq→int_eq new.epoch old.epoch,
  eq→text_eq new.seed old.seed,
)

is_new_epoch-old :
    (mode : ℕ) (old new : WorkPackage) → is_new_epoch mode old new ≡ false → ¬ IsNew mode old new
unfolding is_new_epoch
is_new_epoch-old mode old new h = λ fresh. ground (
  arith,
  fresh,
  eq→int_eq old.epoch minus_one,
  int_eq→eq new.epoch old.epoch,
  text_eq→eq new.seed old.seed,
)

derive_epoch-Settled :
    (seeds : Text → ℤ) (mode : ℕ) (old new : WorkPackage) (b : ℤ)
    → IsNew mode old new
    → new.epoch ≡ minus_one
    → new.block ≡ b
    → Settled seeds mode old new (derive_epoch seeds new)
unfolding derive_epoch
derive_epoch-Settled seeds mode old new (pos b) fresh unset e =
    subst (Settled seeds mode old new) (sym (rw (derive_epoch, e) refl)) (by_block fresh unset e)
derive_epoch-Settled seeds mode old new (negsuc n) fresh unset e =
    subst (Settled seeds mode old new) (sym (rw (derive_epoch, e) refl)) (by_seed fresh unset e)

settle_epoch-Settled :
    (seeds : Text → ℤ) (mode : ℕ) (old new : WorkPackage)
    → Settled seeds mode old new (settle_epoch seeds mode old new)
unfolding settle_epoch
settle_epoch-Settled seeds mode old new = elim (Bool-cases (is_new_epoch mode old new)) [
  | inr e ↦ rw e (as_before (is_new_epoch-old mode old new e))
  | inl e ↦
      (let fresh = is_new_epoch-IsNew mode old new e in
        elim (Bool-cases (int_eq new.epoch minus_one)) [
          | inl unset ↦
              rw (e, unset)
                (derive_epoch-Settled seeds mode old new new.block fresh
                  (int_eq→eq new.epoch minus_one unset) refl)
          | inr carried ↦
              rw (e, carried)
                (as_given fresh (λ same. (let clash = eq→int_eq new.epoch minus_one same in cc)))
        ])
]

-- A valid package with a start nonce of 64 bits, and a stratum mode to read: the handler ends, and every
-- miner of the farm that is not paused then holds that very job but for two members: its epoch is settled
-- as the mode demands, and its start nonce is that of the miner's segment. The change of epoch is counted.
pub work_reaches_miners :
    (env : Env) (w : WorkPackage) (p : Manager) (mode i : ℕ) {m : Miner.Miner}
    → has_work w ≡ true
    → mode_read p ≡ some mode
    → w.start_nonce < 18446744073709551616
    → get_elem? p.farm.miners i ≡ some m
    → Miner.paused m ≡ false
    → (q : Manager) × (m' : Miner.Miner) × (epoch : ℤ) × (on_work_received env w p ≡ ok q)
      × (get_elem? q.farm.miners i ≡ some m')
      × Settled env.epoch_of_seed mode p.current_wp w epoch
      × (m'.work ≡ record w {
        epoch = epoch;
        start_nonce = u64 (
            base_nonce env.strtoull env.random p.farm.settings w
            + i * 2 ^ segment_bits (length p.farm.miners) p.farm.settings w);
      })
      × (q.epoch_changes ≡ (
          if is_new_epoch mode p.current_wp w then u32 (p.epoch_changes + 1) else p.epoch_changes))
unfolding on_work_received take_work first base_nonce segment_bits fixed_bits
work_reaches_miners env w p mode i {m} valid readable small h awake =
    let settled = record w { epoch = settle_epoch env.epoch_of_seed mode p.current_wp w } in
    let given = nth_work (width settled p.farm) (first env.strtoull env.random settled p.farm) i in
    let kept = work-set_work given m awake in
    (
      take_work env mode w p,
      Miner.set_work given m,
      settle_epoch env.epoch_of_seed mode p.current_wp w,
      rw (valid, on_work_received, readable),
      set_work-nth env.strtoull env.random settled p.farm i small h,
      settle_epoch-Settled env.epoch_of_seed mode p.current_wp w,
      kept,
      refl,
    )

-- If a package carries an epoch, and has that of the current one where their seeds agree, it is mined
-- at the epoch that it carries, whatever the stratum mode.
pub settle_epoch-carried :
    (seeds : Text → ℤ) (mode : ℕ) (old new : WorkPackage)
    → new.epoch ≢ minus_one
    → (new.seed ≡ old.seed → new.epoch ≡ old.epoch)
    → settle_epoch seeds mode old new ≡ new.epoch
unfolding settle_epoch is_new_epoch
settle_epoch-carried seeds mode old new carried same = ground (
  arith,
  int_eq→eq new.epoch minus_one,
  int_eq→eq new.epoch old.epoch,
  text_eq→eq new.seed old.seed,
)
