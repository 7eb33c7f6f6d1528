-- ===== src/Dev/Hex.antt =====
-- libdev/CommonData.h and libdev/CommonData.cpp: bytes as hexadecimal texts.
pub mod RoundTrip
use etcminer.Prelude.{
  ℕ, zero, suc, ◌+◌, ◌-◌, ◌*◌, ◌/◌, ◌%◌, Bool, true, false, ◌&&◌, [], ◌∷◌, ◌++◌, Option, some, none,
  Text, codes, leb, ltb, ◌==◌, if◌then◌else◌, length, drop, replicate,
}
use etcminer.Prelude.Int.{ℤ, pos, minus_one}

-- enum class WhenError and enum class HexPrefix
pub data WhenError : Type 0 where
  dont_throw throw : WhenError

pub data HexPrefix : Type 0 where
  dont_add add : HexPrefix

-- A result, or the exception BadHexCharacter.
pub data Parsed {ℓ} (A : Type ℓ) : Type ℓ where
  parsed : A → Parsed A
  bad_hex_character : Parsed A

-- fromHex of one character without an exception; none stands for -1.
unfoldable pub hex_digit : ℕ → Option ℕ
hex_digit c =
    if leb 48 c && leb c 57
    then some (c - 48)
    else (if leb 97 c && leb c 102
        then some (c - 97 + 10)
        else (if leb 65 c && leb c 70 then some (c - 65 + 10) else none))

unfoldable pub from_hex_char : ℕ → WhenError → Parsed ℤ
from_hex_char c t = elim (hex_digit c) [
  | some v ↦ parsed (pos v)
  | none ↦ elim t [ throw ↦ bad_hex_character | dont_throw ↦ parsed minus_one ]
]

-- Two digits as a byte.
unfoldable pub hex_pair : Option ℕ → Option ℕ → Option ℕ
hex_pair (some h) (some l) = some (h * 16 + l)
hex_pair (some h) none = none
hex_pair none l = none

-- A byte in front of the bytes that follow.
unfoldable pub cons_byte : Option ℕ → Option Text → Option Text
cons_byte (some b) (some bs) = some (b ∷ bs)
cons_byte (some b) none = none
cons_byte none bs = none

-- The loop over pairs; a digit without a second one is followed by the end of the text, a 0.
unfoldable pub hex_pairs : Text → Option Text
hex_pairs [] = some []
hex_pairs (h ∷ []) = cons_byte (hex_pair (hex_digit h) (hex_digit 0)) (some [])
hex_pairs (h ∷ l ∷ s) = cons_byte (hex_pair (hex_digit h) (hex_digit l)) (hex_pairs s)

-- The digit that stands alone where the size is odd.
unfoldable pub hex_odd : Text → Option Text
hex_odd [] = none
hex_odd (c ∷ s) = cons_byte (hex_digit c) (hex_pairs s)

-- The size of the prefix 0x.
unfoldable pub prefix_size : Text → ℕ
prefix_size [] = 0
prefix_size (a ∷ []) = 0
prefix_size (a ∷ b ∷ s) = if a == 48 && b == 120 then 2 else 0

unfoldable pub hex_bytes : Text → Option Text
hex_bytes s =
    let digits = drop (prefix_size s) s in
    if length s % 2 == 0 then hex_pairs digits else hex_odd digits

-- fromHex of a text: bad characters throw, or give no bytes at all.
unfoldable pub from_hex : Text → WhenError → Parsed Text
from_hex s t = elim (hex_bytes s) [
  | some bs ↦ parsed bs
  | none ↦ elim t [ throw ↦ bad_hex_character | dont_throw ↦ parsed [] ]
]

-- One digit of std::hex.
unfoldable pub hex_char : ℕ → ℕ
hex_char d = if ltb d 10 then 48 + d else 87 + d

-- padLeft and padRight
unfoldable pub pad_left : Text → ℕ → ℕ → Text
pad_left value size fill = replicate (size - length value) fill ++ value

unfoldable pub pad_right : Text → ℕ → ℕ → Text
pad_right value size fill = value ++ replicate (size - length value) fill

-- The digits of a number without leading zeroes, on fuel for them.
unfoldable pub compact_hex : ℕ → ℕ → Text
compact_hex zero n = []
compact_hex (suc fuel) n =
    let rest = compact_hex fuel (n / 16) in
    if ltb n 16 then hex_char n ∷ [] else rest ++ hex_char (n % 16) ∷ []

-- A number of at most 64 bits under setfill('0') and setw(width).
unfoldable pub write_hex : ℕ → ℕ → Text
write_hex width n = pad_left (compact_hex 16 n) width 48

-- The bytes after the first one have two digits.
unfoldable pub hex_tail : Text → Text
hex_tail [] = []
hex_tail (b ∷ bs) = write_hex 2 b ++ hex_tail bs

unfoldable pub hex_digits : Text → ℕ → Text
hex_digits [] width = []
hex_digits (b ∷ bs) width = write_hex width b ++ hex_tail bs

unfoldable pub add_prefix : HexPrefix → Text → Text
add_prefix add s = codes "0x" ++ s
add_prefix dont_add s = s

-- toHex of bytes.
unfoldable pub to_hex : Text → ℕ → HexPrefix → Text
to_hex bs width prefix = add_prefix prefix (hex_digits bs width)

-- toHex and toCompactHex of a number; the width is given in digits.
unfoldable pub to_hex_number : ℕ → HexPrefix → ℕ → Text
to_hex_number n prefix width = add_prefix prefix (write_hex width n)

unfoldable pub to_compact_hex : ℕ → HexPrefix → Text
to_compact_hex n prefix = add_prefix prefix (compact_hex 16 n)
