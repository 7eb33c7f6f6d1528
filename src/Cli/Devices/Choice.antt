-- ===== src/Cli/Devices/Choice.antt =====
-- Which library each device is given to.
use etcminer.Prelude.{
  ℕ, zero, suc, ◌+◌, ◌≡◌, refl, ap, ◌∙◌, arith, Bool, true, false, ◌&&◌, List, [], ◌∷◌, some,
  get_elem?, if◌then◌else◌,
}
use etcminer.Eth.Miner.Device.{DeviceDescriptor, SubscriptionType, unsubscribed, open_cl, cuda}
use etcminer.Cli.Settings.{MinerType}
use etcminer.Cli.Devices.{
  wants_cuda, wants_cl, is_selected, is_unsubscribed, subscribe, subscribe_devices,
}

-- The library for a device: CUDA, if it is asked for and has detected the device, and else OpenCL.
abbrev pub choice : MinerType → Bool → DeviceDescriptor → SubscriptionType
choice t selected d =
    if selected && (wants_cuda t && d.cu_detected)
    then cuda
    else (if selected && (wants_cl t && d.cl_detected) then open_cl else unsubscribed)

abbrev subscribed : Bool → SubscriptionType → DeviceDescriptor → DeviceDescriptor
subscribed b type d = if b then record d { subscription_type = type } else d

get_elem?-subscribe :
    (detected : DeviceDescriptor → Bool) (type : SubscriptionType) (chosen : List ℕ) (i k j : ℕ)
    (ds : List DeviceDescriptor) {d : DeviceDescriptor}
    → i + k ≡ j
    → get_elem? ds k ≡ some d
    → get_elem? (subscribe detected type chosen i ds) k
      ≡ some (subscribed ((detected d && is_unsubscribed d) && is_selected chosen j) type d)
unfolding subscribe
get_elem?-subscribe detected type chosen i k j [] e h = cc
get_elem?-subscribe detected type chosen i zero j (x ∷ ds) {d} e h =
    let same : i ≡ j = omega arith in let this : x ≡ d = cc in rw (same, this) refl
get_elem?-subscribe detected type chosen i (suc k) j (x ∷ ds) e h =
    get_elem?-subscribe detected type chosen (i + 1) k j ds (omega arith) h

abbrev typed : DeviceDescriptor → SubscriptionType → DeviceDescriptor
typed d x = record d { subscription_type = x }

subscribed-typed :
    (b : Bool) (type x : SubscriptionType) (d : DeviceDescriptor)
    → subscribed b type (typed d x) ≡ typed d (if b then type else x)
subscribed-typed true type x d = refl
subscribed-typed false type x d = refl

-- One loop, if it is run at all.
abbrev loop :
    Bool
    → (DeviceDescriptor → Bool)
    → SubscriptionType
    → List ℕ
    → List DeviceDescriptor
    → List DeviceDescriptor
loop w detected type chosen ds = if w then subscribe detected type chosen 0 ds else ds

loop-typed :
    (w : Bool) (detected : DeviceDescriptor → Bool) (type x : SubscriptionType) (chosen : List ℕ)
    (ds : List DeviceDescriptor) (i : ℕ) (d : DeviceDescriptor)
    → get_elem? ds i ≡ some (typed d x)
    → get_elem? (loop w detected type chosen ds) i
      ≡ some (
          typed d (
            if w && ((detected (typed d x) && is_unsubscribed (typed d x)) && is_selected chosen i)
            then type
            else x))
loop-typed true detected type x chosen ds i d h =
    get_elem?-subscribe detected type chosen 0 i i ds (omega arith) h
    ∙ ap some (subscribed-typed _ type x d)
loop-typed false detected type x chosen ds i d h = h

-- The two tests, for a device that both libraries may have detected.
choose :
    (by_cuda by_cl selected found_cuda found_cl : Bool)
    → (let x = if by_cuda && ((found_cuda && true) && selected) then cuda else unsubscribed in
        if by_cl
          && ((found_cl && elim x [ unsubscribed ↦ true | open_cl ↦ false | cuda ↦ false ])
              && selected)
        then open_cl
        else x)
      ≡ (if selected && (by_cuda && found_cuda)
          then cuda
          else (if selected && (by_cl && found_cl) then open_cl else unsubscribed))
choose by_cuda by_cl selected found_cuda found_cl = ground arith

-- Each device that has no subscription yet is given to CUDA, if it is selected and CUDA is asked for and
-- has detected it, else to OpenCL on the same terms, and else to none; nothing else of it changes.
pub subscribe_devices-choice :
    (t : MinerType) (chosen : List ℕ) (ds : List DeviceDescriptor) (i : ℕ) {d : DeviceDescriptor}
    → get_elem? ds i ≡ some d
    → d.subscription_type ≡ unsubscribed
    → get_elem? (subscribe_devices t chosen ds) i
      ≡ some (record d { subscription_type = choice t (is_selected chosen i) d })
unfolding subscribe_devices is_unsubscribed
subscribe_devices-choice t chosen ds i {d} h none_yet =
    let start : get_elem? ds i ≡ some (typed d unsubscribed) =
      h ∙ (λ j. some (record d { subscription_type = none_yet j })) in
    let first =
      loop-typed (wants_cuda t) (λ e. e.cu_detected) cuda unsubscribed chosen ds i d start in
    loop-typed (wants_cl t) (λ e. e.cl_detected) open_cl _ chosen _ i d first
    ∙ ap (λ x. some (typed d x))
        (choose (wants_cuda t) (wants_cl t) (is_selected chosen i) d.cu_detected d.cl_detected)
