-- ===== src/Examples/ByteCases.antt =====
-- The conversions of bytes at concrete values.
use etcminer.Prelude.{◌≡◌, refl, arith, [], ◌∷◌, Text, codes, length, ltb, ◌+◌, ◌^◌, ◌%◌}
use etcminer.Dev.Endian.{value_of, to_big_endian, from_big_endian, from_big_endian-to_big_endian}
use etcminer.Dev.FixedHash.{hash_lt, increment}
use etcminer.Dev.FixedHash.Order.{hash_lt_lem, increment_lem}
use etcminer.Dev.Hex.{
  throw, add, parsed, from_hex, to_hex, hex_digits, write_hex, hex_tail, add_prefix, pad_left,
  compact_hex, hex_char,
}
use etcminer.Dev.Hex.RoundTrip.{from_hex-to_hex}

abbrev low_hash : Text
low_hash = 0 ∷ 1 ∷ 255 ∷ []

abbrev high_hash : Text
high_hash = 0 ∷ 2 ∷ 7 ∷ []

-- Two bytes under the prefix.
written : to_hex (10 ∷ 255 ∷ []) 2 add ≡ codes "0x0aff"
unfolding to_hex hex_digits write_hex hex_tail add_prefix pad_left compact_hex hex_char
written = refl

from_hex-to_hex_example : from_hex (to_hex low_hash 2 add) throw ≡ parsed low_hash
from_hex-to_hex_example =
    from_hex-to_hex low_hash add throw (omega arith, (omega arith, (omega arith, tt)))

hash_lt_lem_example : hash_lt low_hash high_hash ≡ ltb (value_of low_hash) (value_of high_hash)
hash_lt_lem_example =
    hash_lt_lem low_hash high_hash refl (omega arith, (omega arith, (omega arith, tt)))
      (omega arith, (omega arith, (omega arith, tt)))

increment_lem_example :
    (length (increment low_hash) ≡ length low_hash)
    × (value_of (increment low_hash) ≡ (value_of low_hash + 1) % 256 ^ length low_hash)
increment_lem_example = increment_lem low_hash (omega arith, (omega arith, (omega arith, tt)))

from_big_endian-to_big_endian_example : from_big_endian 64 (to_big_endian 4 70000) ≡ 70000
from_big_endian-to_big_endian_example =
    from_big_endian-to_big_endian 64 4 70000 (omega arith) (omega arith)
