-- ===== src/Eth/Farm/Shape.antt =====
-- The shape of the farm's state that every operation of libeth/Farm.cpp relies on: miner i has the
-- index i and the telemetry account i.
pub mod Rounds
pub mod Operations
use etcminer.Prelude.{
  ℕ, zero, suc, ◌+◌, ◌≤◌, ◌<◌, ◌≡◌, ◌≢◌, refl, sym, ap, ◌∙◌, arith, Bool, true, false, List, [],
  ◌∷◌, ◌++◌, map, Option, some, none, get_elem?, set, length, length-map, length-set, length-append,
  Text, is_empty, if◌then◌else◌, Bool-cases, Option-cases, inl, inr, get_elem?-lt,
}
use etcminer.Prelude.Int.{ℤ}
use etcminer.Dev.Float.{Float}
use etcminer.Eth.Work.{WorkPackage}
use etcminer.Eth.Miner
use etcminer.Eth.Miner.{Miner}
use etcminer.Eth.Miner.Flags.{farm_paused}
use etcminer.Eth.Miner.Device.{
  DeviceDescriptor, SolutionAccounting, TelemetryAccount, HwMonitorInfoType, unknown, nvidia, amd,
}
use etcminer.Eth.Farm.State.{Farm, Telemetry, HandleMap}
use etcminer.Eth.Farm.Nonce.{assign_work, set_work, advance_nonce, segment_bits, base_nonce}
use etcminer.Eth.Farm.Lifecycle.{
  Build, is_supported, configure, start_miner, launch, start_devices, spin_up, start, stop, pause,
  resume,
}
use etcminer.Eth.Farm.Accounts.{account_to, account_solution}

-- The miners' indices count up from `n`.
abbrev pub Indexed : ℕ → List Miner.Miner → Type 0
Indexed n [] = Unit {0}
Indexed n (m ∷ ms) = (m.index ≡ n) × Indexed (suc n) ms

pub record Inv (f : Farm) : Type 0 where
  pub accounts : length f.telemetry.miners ≡ length f.miners
  pub indexed : Indexed 0 f.miners
  pub idle : f.is_mining ≡ false → f.miners ≡ []

map-Indexed :
    (g : Miner.Miner → Miner.Miner)
    → ((m : Miner.Miner) → (g m).index ≡ m.index)
    → (n : ℕ) (ms : List Miner.Miner) → Indexed n ms
    → Indexed n (map g ms)
map-Indexed g keep n [] h = tt
map-Indexed g keep n (m ∷ ms) h = (keep m ∙ h.0, map-Indexed g keep (suc n) ms h.1)

index-pause : (m : Miner.Miner) → (Miner.pause farm_paused m).index ≡ m.index
unfolding Miner.pause
index-pause m = refl

index-resume : (m : Miner.Miner) → (Miner.resume farm_paused m).index ≡ m.index
unfolding Miner.resume
index-resume m = refl

index-set_work : (w : WorkPackage) (m : Miner.Miner) → (Miner.set_work w m).index ≡ m.index
unfolding Miner.set_work
index-set_work w m = ground arith

pub pause-Inv : {f : Farm} → Inv f → Inv (pause f)
unfolding pause
pause-Inv {f} v = record {
  accounts = omega (arith, v.accounts, length-map f.miners (Miner.pause farm_paused));
  indexed = map-Indexed _ index-pause 0 f.miners v.indexed;
  idle = λ e. ap (map (Miner.pause farm_paused)) (v.idle e);
}

pub resume-Inv : {f : Farm} → Inv f → Inv (resume f)
unfolding resume
resume-Inv {f} v = record {
  accounts = omega (arith, v.accounts, length-map f.miners (Miner.resume farm_paused));
  indexed = map-Indexed _ index-resume 0 f.miners v.indexed;
  idle = λ e. ap (map (Miner.resume farm_paused)) (v.idle e);
}

pub stop-Inv : {f : Farm} → Inv f → Inv (stop f).0
unfolding stop
stop-Inv {f} v = ground arith

-- Starting the devices.

Indexed-snoc :
    (n : ℕ) (ms : List Miner.Miner) (m : Miner.Miner)
    → Indexed n ms
    → m.index ≡ n + length ms
    → Indexed n (ms ++ m ∷ [])
Indexed-snoc n [] m h e = (omega arith, tt)
Indexed-snoc n (x ∷ ms) m h e = (h.0, Indexed-snoc (suc n) ms m h.1 (omega arith))

index-launch : (i now : ℕ) → (launch i now).index ≡ i
unfolding launch start_miner Miner.new_miner
index-launch i now = refl

-- The loop keeps accounts and miners aligned.
start_devices-aligned :
    (b : Build) (now : ℕ) (ds : List DeviceDescriptor) (ms : List Miner.Miner)
    (ts : List TelemetryAccount)
    → length ts ≡ length ms
    → Indexed 0 ms
    → let (ms', ts') = start_devices b now ds ms ts in (length ts' ≡ length ms') × Indexed 0 ms'
unfolding start_devices
start_devices-aligned b now [] ms ts e h = (e, h)
start_devices-aligned b now (d ∷ ds) ms ts e h =
    elim (Bool-cases (is_supported b d.subscription_type)) [
      | inl made ↦
          rw (made, start_devices)
            (start_devices-aligned b now ds _ _
              (omega (arith, length-append ts _, length-append ms (launch (length ms) now ∷ []), e))
              (Indexed-snoc 0 ms _ h (omega (arith, index-launch (length ms) now))))
      | inr skipped ↦ rw (skipped, start_devices) (start_devices-aligned b now ds ms ts e h)
    ]

spin_up-Inv : (b : Build) (now : ℕ) {f : Farm} → Inv f → f.miners ≡ [] → Inv (spin_up b now f)
unfolding spin_up
spin_up-Inv b now {f} v e =
    let none_yet : length f.telemetry.miners ≡ 0 = omega (arith, v.accounts, ap length e) in
    let built =
      start_devices-aligned b now (map (configure b f.settings) f.devices) [] f.telemetry.miners
        none_yet tt in
    rw (e, spin_up) (record { accounts = built.0; indexed = built.1; idle = λ x. cc })

-- start launches its miners from an empty farm only, since one that does not mine has none.
pub start-Inv : (b : Build) (now : ℕ) {f : Farm} → Inv f → Inv (start b now f)
unfolding start
start-Inv b now {f} v = elim (Bool-cases f.is_mining) [
  | inl mining ↦ simp mining v
  | inr still ↦ simp still (spin_up-Inv b now v (v.idle still))
]

-- Handing out work, and accounting for solutions.

length-assign_work :
    (bits : ℕ) (w : WorkPackage) (ms : List Miner.Miner)
    → length (assign_work bits w ms).0 ≡ length ms
unfolding assign_work
length-assign_work bits w [] = refl
length-assign_work bits w (m ∷ ms) = ap suc (length-assign_work bits (advance_nonce bits w) ms)

assign_work-Indexed :
    (bits : ℕ) (w : WorkPackage) (n : ℕ) (ms : List Miner.Miner)
    → Indexed n ms
    → Indexed n (assign_work bits w ms).0
unfolding assign_work
assign_work-Indexed bits w n [] h = tt
assign_work-Indexed bits w n (m ∷ ms) h =
    (index-set_work w m ∙ h.0, assign_work-Indexed bits (advance_nonce bits w) (suc n) ms h.1)

pub set_work-Inv :
    (strtoull : Text → ℕ) (random : ℕ) (w : WorkPackage) {f : Farm}
    → Inv f
    → Inv (set_work strtoull random w f)
unfolding set_work assign_work
set_work-Inv strtoull random w {f} v = record {
  accounts = omega (
    arith,
    v.accounts,
    length-assign_work (segment_bits (length f.miners) f.settings w)
        (record w { start_nonce = base_nonce strtoull random f.settings w }) f.miners,
  );
  indexed = assign_work-Indexed _ _ 0 f.miners v.indexed;
  idle = λ e. rw (v.idle e, assign_work);
}

pub account_solution-Inv :
    (idx : ℕ) (how : SolutionAccounting) (now : ℕ) {f : Farm}
    → Inv f
    → Inv (account_solution idx how now f).0
unfolding account_solution
account_solution-Inv idx how now {f} v = elim (Option-cases (get_elem? f.telemetry.miners idx)) [
  | inl e ↦
      rw (e, account_solution)
        (record { accounts = v.accounts; indexed = v.indexed; idle = v.idle })
  | inr (t, e) ↦
      rw (e, account_solution)
        (record {
          accounts = length-set f.telemetry.miners idx (account_to how now t) ∙ v.accounts;
          indexed = v.indexed;
          idle = v.idle;
        })
]
