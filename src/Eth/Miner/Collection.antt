-- ===== src/Eth/Miner/Collection.antt =====
-- The collection of devices (minerMap of libeth/Miner.h), and the texts of numbers in the ids of devices.
pub mod Lookup
use etcminer.Prelude.{
  ℕ, zero, suc, ◌+◌, ◌/◌, ◌%◌, ltb, ◌==◌, Bool, true, false, ◌&&◌, ◌||◌, List, [], ◌∷◌, ◌++◌,
  Option, some, none, Text, text_eq, if◌then◌else◌,
}
use etcminer.Eth.Miner.Device.{DeviceDescriptor, new_device}

-- The order of the keys of the map, that of std::string.
unfoldable pub text_lt : Text → Text → Bool
text_lt [] [] = false
text_lt [] (y ∷ ys) = true
text_lt (x ∷ xs) [] = false
text_lt (x ∷ xs) (y ∷ ys) = ltb x y || ((x == y) && text_lt xs ys)

-- The map as the list of its descriptors in the order of their keys. The key of a descriptor is its own
-- unique id.
unfoldable pub find_device : Text → List DeviceDescriptor → Option DeviceDescriptor
find_device key [] = none
find_device key (d ∷ ds) = if text_eq d.unique_id key then some d else find_device key ds

-- `_DevicesCollection[uniqueId] = deviceDescriptor`
unfoldable pub upsert : DeviceDescriptor → List DeviceDescriptor → List DeviceDescriptor
upsert d [] = d ∷ []
upsert d (x ∷ xs) =
    let rest = upsert d xs in
    if text_eq x.unique_id d.unique_id
    then d ∷ xs
    else (if text_lt d.unique_id x.unique_id then d ∷ x ∷ xs else x ∷ rest)

-- The descriptor to fill: that of the map, or a new one.
unfoldable pub find_or_new : Text → List DeviceDescriptor → DeviceDescriptor
find_or_new key ds = elim (find_device key ds) [ none ↦ new_device | some d ↦ d ]

-- to_string of a number, on fuel for its digits.
unfoldable pub decimal : ℕ → ℕ → Text
decimal zero n = []
decimal (suc fuel) n =
    let rest = decimal fuel (n / 10) in
    if ltb n 10 then (48 + n) ∷ [] else rest ++ (48 + n % 10) ∷ []

-- Numbers of 32 bits have at most 10 digits.
unfoldable pub to_string : ℕ → Text
to_string n = decimal 10 n
