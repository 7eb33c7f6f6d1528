-- ===== src/Eth/Miner/Collection/Lookup.antt =====
-- Lookup in the collection of devices after a descriptor has been put there.
use etcminer.Prelude.{
  ◌≡◌, refl, inl, inr, Bool-cases, false, List, [], ◌∷◌, some, Text, text_eq, text_eq→eq,
  eq→text_eq,
}
use etcminer.Eth.Miner.Device.{DeviceDescriptor}
use etcminer.Eth.Miner.Collection.{text_lt, find_device, upsert}

-- The descriptor is found under its id.
pub find_device-upsert :
    (d : DeviceDescriptor) (ds : List DeviceDescriptor)
    → find_device d.unique_id (upsert d ds) ≡ some d
unfolding find_device upsert
find_device-upsert d [] = rw (eq→text_eq d.unique_id d.unique_id refl) refl
find_device-upsert d (x ∷ xs) = elim (Bool-cases (text_eq x.unique_id d.unique_id)) [
  | inl e ↦ rw (e, eq→text_eq d.unique_id d.unique_id refl) refl
  | inr e ↦ elim (Bool-cases (text_lt d.unique_id x.unique_id)) [
    | inl l ↦ rw (e, l, eq→text_eq d.unique_id d.unique_id refl) refl
    | inr l ↦ rw (e, l, e) (find_device-upsert d xs)
  ]
]

-- Under another id, what was found there.
pub find_device-upsert_other :
    (d : DeviceDescriptor) (ds : List DeviceDescriptor) (key : Text)
    → text_eq d.unique_id key ≡ false
    → find_device key (upsert d ds) ≡ find_device key ds
unfolding find_device upsert
find_device-upsert_other d [] key h = rw h refl
find_device-upsert_other d (x ∷ xs) key h = elim (Bool-cases (text_eq x.unique_id d.unique_id)) [
  | inl e ↦ rw (e, h, text_eq→eq x.unique_id d.unique_id e, h) refl
  | inr e ↦ elim (Bool-cases (text_lt d.unique_id x.unique_id)) [
    | inl l ↦ rw (e, l, h) refl
    | inr l ↦ rw (e, l, find_device-upsert_other d xs key h) refl
  ]
]
