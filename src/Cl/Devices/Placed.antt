-- ===== src/Cl/Devices/Placed.antt =====
-- The devices that enumDevices of libcl/CLMiner.cpp finds are those that its initDevice looks for.
use etcminer.Prelude.{
  ℕ, zero, suc, ◌+◌, ◌≤◌, ◌<◌, ◌≡◌, refl, sym, ap, arith, true, false, List, [], ◌∷◌, Option, some,
  none, length, get_elem?, All, ◌∙◌,
}
use mathlib.Core.Path.{subst}
use etcminer.Eth.Miner.Device.{DeviceDescriptor, ClPlatformType}
use etcminer.Eth.Miner.Collection.{upsert, find_or_new}
use etcminer.Cl.State.{ClMiner}
use etcminer.Cl.Identity.{Platform, Info, platform_type_of, unique_id}
use etcminer.Cl.Devices.{
  Known, describe, is_counted, add_devices, add_infos, add_platform, add_platforms, enum_devices,
  opened, is_too_old, init_device,
}
use etcminer.Cl.Devices.Opens.{
  Post, elim-Post, Post-any, is_known, Placed, upsert-All, IsAt, describe-IsAt,
  platform_type_of-is_known, init_device-opened,
}

is_counted-le : (info : Info) → is_counted info ≤ 1
unfolding is_counted
is_counted-le info = ground arith

-- The loop over the devices of a platform.
module _ (platforms : List Platform) (k : Known) (all : List Info)
    (at : get_elem? platforms k.number ≡ some k.platform) (has : k.platform.devices ≡ some all)
    (known : is_known k.platform_type ≡ true) where
  IsAt-Placed : (i : ℕ) (d : DeviceDescriptor) → i < length all → IsAt k i d → Placed platforms d
  IsAt-Placed i d below h = record {
    platform = k.platform;
    infos = all;
    at = subst (λ n. get_elem? platforms n ≡ some k.platform) (sym h.number) at;
    has = has;
    below = subst (λ n. n < length all) (sym h.ordinal) below;
    known = subst (λ t. is_known t ≡ true) (sym h.type) known;
  }

  add_devices-Placed :
      (i : ℕ) (infos : List Info) (ds : List DeviceDescriptor)
      → i + length infos ≤ length all
      → All (Placed platforms) ds
      → Post (All (Placed platforms)) (add_devices k i infos ds)
  unfolding add_devices
  add_devices-Placed i [] ds fits h = h
  add_devices-Placed i (info ∷ infos) ds fits h =
      elim-Post (λ key. Unit {0}) (All (Placed platforms))
        (unique_id k.platform_type k.number i info) (add_devices k (i + is_counted info) infos ds)
        (λ key. elim (describe k i key info (find_or_new key ds)) [
          | none ↦ none
          | some d ↦ add_devices k (i + 1) infos (upsert d ds)
        ])
        (Post-any _)
        (add_devices-Placed (i + is_counted info) infos ds
          (let one = is_counted-le info in omega arith) h)
        (λ key a.
          elim-Post (IsAt k i) (All (Placed platforms)) (describe k i key info (find_or_new key ds))
            none (λ d. add_devices k (i + 1) infos (upsert d ds))
            (describe-IsAt k i key info (find_or_new key ds)) tt
            (λ d p.
              add_devices-Placed (i + 1) infos (upsert d ds) (omega arith)
                (upsert-All (Placed platforms) d ds (IsAt-Placed i d (omega arith) p) h)))

add_infos-Placed :
    (platforms : List Platform) (p : ℕ) (platform : Platform) (type : ClPlatformType)
    (ds : List DeviceDescriptor) (x y : Option ℕ) (z : Option (List Info))
    → get_elem? platforms p ≡ some platform
    → is_known type ≡ true
    → platform.devices ≡ z
    → All (Placed platforms) ds
    → Post (All (Placed platforms)) (add_infos p platform type ds x y z)
unfolding add_infos
add_infos-Placed platforms p platform type ds none y z at known has h = tt
add_infos-Placed platforms p platform type ds (some x) none z at known has h = tt
add_infos-Placed platforms p platform type ds (some x) (some y) none at known has h = tt
add_infos-Placed platforms p platform type ds (some x) (some y) (some infos) at known has h =
    add_devices-Placed platforms _ infos at has known 0 infos ds (omega arith) h

add_platform-Placed :
    (platforms : List Platform) (p : ℕ) (platform : Platform) (type : ClPlatformType)
    (ds : List DeviceDescriptor)
    → get_elem? platforms p ≡ some platform
    → is_known type ≡ true
    → All (Placed platforms) ds
    → Post (All (Placed platforms)) (add_platform p platform type ds)
unfolding add_platform
add_platform-Placed platforms p platform type ds at known h =
    add_infos-Placed platforms p platform type ds _ _ platform.devices at known refl h

add_platforms-Placed :
    (platforms : List Platform) (p : ℕ) (rest : List Platform) (ds : List DeviceDescriptor)
    → ((j : ℕ) → get_elem? platforms (p + j) ≡ get_elem? rest j)
    → All (Placed platforms) ds
    → Post (All (Placed platforms)) (add_platforms p rest ds)
unfolding add_platforms
add_platforms-Placed platforms p [] ds same h = h
add_platforms-Placed platforms p (platform ∷ rest) ds same h =
    let next : (es : List DeviceDescriptor)
        → All (Placed platforms) es
        → Post (All (Placed platforms)) (add_platforms (p + 1) rest es) =
      λ es.
        add_platforms-Placed platforms (p + 1) rest es
          (λ j. ap (get_elem? platforms) (omega arith) ∙ same (suc j)) in
    elim-Post (λ t. is_known t ≡ true) (All (Placed platforms)) (platform_type_of platform.name)
      (add_platforms (p + 1) rest ds)
      (λ type. elim (add_platform p platform type ds) [
        | none ↦ none
        | some es ↦ add_platforms (p + 1) rest es
      ])
      (platform_type_of-is_known platform.name) (next ds h)
      (λ type known.
        elim-Post (All (Placed platforms)) (All (Placed platforms))
          (add_platform p platform type ds) none (λ es. add_platforms (p + 1) rest es)
          (add_platform-Placed platforms p platform type ds
            (ap (get_elem? platforms) (omega arith) ∙ same 0) known h)
          tt next)

member-Placed :
    (platforms : List Platform) (ds : List DeviceDescriptor) (i : ℕ) (d : DeviceDescriptor)
    → All (Placed platforms) ds
    → get_elem? ds i ≡ some d
    → Placed platforms d
member-Placed platforms [] i d h e = cc
member-Placed platforms (x ∷ xs) zero d h e =
    let same : x ≡ d = cc in subst (Placed platforms) same h.0
member-Placed platforms (x ∷ xs) (suc i) d h e = member-Placed platforms xs i d h.1 e

-- What enumDevices finds, initDevice opens: for the same platforms, and a miner with one of the
-- descriptors, initDevice returns true. This is for a device whose platform is not older than OpenCL 1.2.
pub enum_devices-opened :
    (platforms : List Platform) (ds : List DeviceDescriptor) (i : ℕ) (s : ClMiner)
    → enum_devices platforms [] ≡ some ds
    → get_elem? ds i ≡ some s.device
    → is_too_old s.device ≡ false
    → (t : ClMiner) × (init_device platforms s ≡ opened t)
unfolding enum_devices
enum_devices-opened platforms ds i s h there new =
    let placed : All (Placed platforms) ds = subst (Post (All (Placed platforms))) h (
      add_platforms-Placed platforms 0 platforms [] (λ j. ap (get_elem? platforms) (omega arith))
        tt) in
    init_device-opened platforms s (member-Placed platforms ds i s.device placed there) new
