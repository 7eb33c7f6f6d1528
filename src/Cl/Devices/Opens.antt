-- ===== src/Cl/Devices/Opens.antt =====
-- Where a descriptor of a device has to point for initDevice of libcl/CLMiner.cpp to open it.
use etcminer.Prelude.{
  ℕ, ◌<◌, ◌≡◌, refl, arith, inl, inr, Bool-cases, Bool, true, false, List, [], ◌∷◌, Option, some,
  none, Text, text_eq, length, get_elem?, All, ltb, is_empty, ◌∙◌, lt_of_get_elem?,
}
use etcminer.Eth.Miner.Device.{DeviceDescriptor, ClPlatformType, amd, clover, nvidia, intel}
use etcminer.Eth.Miner.Collection.{text_lt, upsert}
use etcminer.Cl.State.{ClMiner}
use etcminer.Cl.Identity.{Platform, Info, platform_type_of}
use etcminer.Cl.Devices.{
  Known, fill, described, describe, describe_board, opened, is_too_old, check_version, use_platform,
  devices_of, init_device, set_monitor,
}

abbrev pub Post : {A : Type 0} → (A → Type 0) → Option A → Type 0
Post P none = Unit {0}
Post P (some a) = P a

-- A split on an option keeps a postcondition, if both cases do.
pub elim-Post :
    {A B : Type 0} (P : A → Type 0) (Q : B → Type 0) (x : Option A) (n : Option B)
    (f : A → Option B)
    → Post P x
    → Post Q n
    → ((a : A) → P a → Post Q (f a))
    → Post Q (elim x [ none ↦ n | some a ↦ f a ])
elim-Post P Q none n f p q h = q
elim-Post P Q (some a) n f p q h = h a p

pub Post-any : {A : Type 0} (x : Option A) → Post (λ a. Unit {0}) x
Post-any none = tt
Post-any (some a) = tt

abbrev pub is_known : ClPlatformType → Bool
is_known ClPlatformType.unknown = false
is_known amd = true
is_known clover = true
is_known nvidia = true
is_known intel = true

-- A descriptor names a device among those of a platform, and the platform has a type.
pub record Placed (platforms : List Platform) (d : DeviceDescriptor) : Type 0 where
  pub platform : Platform
  pub infos : List Info
  pub at : get_elem? platforms d.cl_platform_id ≡ some platform
  pub has : platform.devices ≡ some infos
  pub below : d.cl_device_ordinal < length infos
  pub known : is_known d.cl_platform_type ≡ true

pub upsert-All :
    (P : DeviceDescriptor → Type 0) (d : DeviceDescriptor) (ds : List DeviceDescriptor)
    → P d
    → All P ds
    → All P (upsert d ds)
unfolding upsert
upsert-All P d [] p h = (p, h)
upsert-All P d (x ∷ xs) p h = elim (Bool-cases (text_eq x.unique_id d.unique_id)) [
  | inl e ↦ rw e (p, h.1)
  | inr e ↦ elim (Bool-cases (text_lt d.unique_id x.unique_id)) [
    | inl l ↦ rw (e, l) (p, h)
    | inr l ↦ rw (e, l) (h.0, upsert-All P d xs p h.1)
  ]
]

-- What of a descriptor enumDevices writes by the place of the device.
pub record IsAt (k : Known) (i : ℕ) (d : DeviceDescriptor) : Type 0 where
  pub number : d.cl_platform_id ≡ k.number
  pub ordinal : d.cl_device_ordinal ≡ i
  pub type : d.cl_platform_type ≡ k.platform_type

describe_board-IsAt :
    (k : Known) (i : ℕ) (t : ClPlatformType) (info : Info) (d : DeviceDescriptor)
    → IsAt k i d
    → IsAt k i (describe_board t info d)
unfolding describe_board
describe_board-IsAt k i ClPlatformType.unknown info d h = record {
  number = h.number;
  ordinal = h.ordinal;
  type = h.type;
}
describe_board-IsAt k i amd info d h = record {
  number = h.number;
  ordinal = h.ordinal;
  type = h.type;
}
describe_board-IsAt k i clover info d h = record {
  number = h.number;
  ordinal = h.ordinal;
  type = h.type;
}
describe_board-IsAt k i nvidia info d h = record {
  number = h.number;
  ordinal = h.ordinal;
  type = h.type;
}
describe_board-IsAt k i intel info d h = record {
  number = h.number;
  ordinal = h.ordinal;
  type = h.type;
}

described-IsAt :
    (k : Known) (i : ℕ) (key : Text) (info : Info) (d : DeviceDescriptor) (x y : Option ℕ)
    → Post (IsAt k i) (described k i key info d x y)
unfolding described fill
described-IsAt k i key info d none y = tt
described-IsAt k i key info d (some x) none = tt
described-IsAt k i key info d (some x) (some y) =
    describe_board-IsAt k i k.platform_type info (fill k i key info x y d)
      (record { number = refl; ordinal = refl; type = refl })

pub describe-IsAt :
    (k : Known) (i : ℕ) (key : Text) (info : Info) (d : DeviceDescriptor)
    → Post (IsAt k i) (describe k i key info d)
unfolding describe
describe-IsAt k i key info d = described-IsAt k i key info d _ _

pub platform_type_of-is_known :
    (name : Text) → Post (λ t. is_known t ≡ true) (platform_type_of name)
unfolding platform_type_of
platform_type_of-is_known name = ground arith

use_platform-opened :
    (s : ClMiner) (t : ClPlatformType)
    → s.device.cl_platform_type ≡ t
    → is_known t ≡ true
    → is_too_old s.device ≡ false
    → (u : ClMiner) × (use_platform s ≡ opened u)
unfolding use_platform check_version set_monitor
use_platform-opened s ClPlatformType.unknown e known new = cc
use_platform-opened s amd e known new = rw (e, new) (_, refl)
use_platform-opened s clover e known new = rw e (_, refl)
use_platform-opened s nvidia e known new = rw (e, new) (_, refl)
use_platform-opened s intel e known new = rw (e, new) (_, refl)

devices_of-found :
    (platforms : List Platform) (p : ℕ) (platform : Platform)
    → get_elem? platforms p ≡ some platform
    → devices_of platforms p ≡ platform.devices
unfolding devices_of
devices_of-found platforms p platform h =
    let within = lt_of_get_elem? platforms p h in
    let test : ltb p (length platforms) ≡ true = ground arith in rw (devices_of, test, h) refl

is_empty-below : (infos : List Info) (i : ℕ) → i < length infos → is_empty infos ≡ false
is_empty-below [] i h = absurd (omega (arith, h))
is_empty-below (x ∷ xs) i h = refl

-- A device that is placed can be used, unless its platform is too old.
pub init_device-opened :
    (platforms : List Platform) (s : ClMiner)
    → Placed platforms s.device
    → is_too_old s.device ≡ false
    → (t : ClMiner) × (init_device platforms s ≡ opened t)
unfolding init_device
init_device-opened [] s h new =
    absurd (omega (arith, lt_of_get_elem? [] s.device.cl_platform_id h.at))
init_device-opened (p ∷ ps) s h new =
    let found : devices_of (p ∷ ps) s.device.cl_platform_id ≡ some h.infos =
      devices_of-found (p ∷ ps) s.device.cl_platform_id h.platform h.at ∙ h.has in
    let filled = is_empty-below h.infos s.device.cl_device_ordinal h.below in
    let count : ltb s.device.cl_device_ordinal (length h.infos) ≡ true =
      let below = h.below in ground arith in
    rw (found, filled, count)
      (use_platform-opened (record s { miner = (record (s.miner) { initialized = false }) })
        s.device.cl_platform_type refl h.known new)
