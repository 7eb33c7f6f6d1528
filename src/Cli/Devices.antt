-- ===== src/Cli/Devices.antt =====
-- MinerCLI::execute of etcminer/main.cpp: which devices mine, and by which library.
pub mod Choice
use etcminer.Prelude.{
  ℕ, ◌+◌, ◌==◌, Bool, true, false, not, ◌&&◌, ◌||◌, List, [], ◌∷◌, if◌then◌else◌, is_empty,
}
use etcminer.Eth.Miner.Device.{DeviceDescriptor, SubscriptionType, unsubscribed, open_cl, cuda}
use etcminer.Cli.Settings
use etcminer.Cli.Settings.{MinerType, mixed, cl}

-- The miner types under which each library is asked for.
unfoldable pub wants_cuda : MinerType → Bool
wants_cuda mixed = true
wants_cuda cl = false
wants_cuda Settings.cuda = true

unfoldable pub wants_cl : MinerType → Bool
wants_cl mixed = true
wants_cl cl = true
wants_cl Settings.cuda = false

unfoldable pub contains : List ℕ → ℕ → Bool
contains [] d = false
contains (x ∷ xs) d = (x == d) || contains xs d

-- No list of devices selects all of them.
unfoldable pub is_selected : List ℕ → ℕ → Bool
unfolding contains
is_selected chosen d = is_empty chosen || contains chosen d

unfoldable pub is_unsubscribed : DeviceDescriptor → Bool
is_unsubscribed d = elim d.subscription_type [
  | unsubscribed ↦ true
  | open_cl ↦ false
  | cuda ↦ false
]

-- One loop over the devices from number `i` on: those that the library detected, that have no
-- subscription yet, and that are selected.
unfoldable pub subscribe :
    (DeviceDescriptor → Bool)
    → SubscriptionType
    → List ℕ
    → ℕ
    → List DeviceDescriptor
    → List DeviceDescriptor
subscribe detected type chosen i [] = []
subscribe detected type chosen i (d ∷ ds) =
    (if (detected d && is_unsubscribed d) && is_selected chosen i
      then record d { subscription_type = type }
      else d)
    ∷ subscribe detected type chosen (i + 1) ds

-- CUDA first, then OpenCL.
unfoldable pub subscribe_devices :
    MinerType → List ℕ → List DeviceDescriptor → List DeviceDescriptor
subscribe_devices t chosen ds =
    let first = if wants_cuda t then subscribe (λ d. d.cu_detected) cuda chosen 0 ds else ds in
    if wants_cl t then subscribe (λ d. d.cl_detected) open_cl chosen 0 first else first

unfoldable pub subscribed_devices : List DeviceDescriptor → ℕ
subscribed_devices [] = 0
subscribed_devices (d ∷ ds) = (if is_unsubscribed d then 0 else 1) + subscribed_devices ds
