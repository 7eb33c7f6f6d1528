-- ===== src/Dev/Hex/RoundTrip.antt =====
-- fromHex and toHex undo each other.
use etcminer.Prelude.{
  ℕ, suc, ◌+◌, ◌*◌, ◌/◌, ◌%◌, ◌<◌, ◌≤◌, ◌≡◌, refl, ap, arith, false, [], ◌∷◌, ◌++◌, some, Text, ltb,
  ◌==◌, length, All, lt→ltb, ltb→lt, Bool-cases, inl, inr,
}
use etcminer.Dev.Endian.{IsByte}
use etcminer.Dev.Hex.{
  WhenError, HexPrefix, add, dont_add, parsed, hex_digit, hex_pair, cons_byte, hex_pairs,
  prefix_size, hex_bytes, from_hex, hex_char, pad_left, compact_hex, write_hex, hex_tail,
  hex_digits, add_prefix, to_hex,
}

hex_digit-hex_char : (d : ℕ) → d < 16 → hex_digit (hex_char d) ≡ some d
unfolding hex_digit hex_char
hex_digit-hex_char d h = ground arith

compact_hex-small : (fuel n : ℕ) → n < 16 → compact_hex (suc fuel) n ≡ hex_char n ∷ []
unfolding compact_hex
compact_hex-small fuel n h = rw (lt→ltb n 16 h) refl

compact_hex-large :
    (fuel n : ℕ)
    → 16 ≤ n
    → compact_hex (suc fuel) n ≡ compact_hex fuel (n / 16) ++ hex_char (n % 16) ∷ []
unfolding compact_hex
compact_hex-large fuel n h = let test : ltb n 16 ≡ false = ground arith in rw test refl

-- A byte is written as two digits.
write_hex-byte : (b : ℕ) → b < 256 → write_hex 2 b ≡ hex_char (b / 16) ∷ hex_char (b % 16) ∷ []
unfolding write_hex pad_left hex_char
write_hex-byte b h = elim (Bool-cases (ltb b 16)) [
  | inl e ↦
      (let low : b / 16 ≡ 0 = ground arith in
        let same : b % 16 ≡ b = ground arith in
        rw (compact_hex-small 15 b (ltb→lt b 16 e), low, same) refl)
  | inr e ↦
      (let high : b / 16 < 16 = omega arith in
        rw (compact_hex-large 15 b (ground arith), compact_hex-small 14 (b / 16) high) refl)
]

hex_pair-halves : (b : ℕ) → hex_pair (some (b / 16)) (some (b % 16)) ≡ some b
unfolding hex_pair
hex_pair-halves b =
    let whole : b / 16 * 16 + b % 16 ≡ b = omega arith in ap (λ (t : ℕ). some t) whole

cons_byte-some : (b : ℕ) (bs : Text) → cons_byte (some b) (some bs) ≡ some (b ∷ bs)
unfolding cons_byte
cons_byte-some b bs = refl

hex_pairs-hex_tail : (bs : Text) → All IsByte bs → hex_pairs (hex_tail bs) ≡ some bs
unfolding hex_tail hex_pairs
hex_pairs-hex_tail [] h = refl
hex_pairs-hex_tail (b ∷ bs) (h, hs) =
    rw
      (
        write_hex-byte b h,
        hex_digit-hex_char (b / 16) (omega arith),
        hex_digit-hex_char (b % 16) (omega arith),
        hex_pair-halves b,
        hex_pairs-hex_tail bs hs,
      )
      (cons_byte-some b bs)

length-hex_tail : (bs : Text) → All IsByte bs → length (hex_tail bs) ≡ 2 * length bs
unfolding hex_tail
length-hex_tail [] h = refl
length-hex_tail (b ∷ bs) (h, hs) = rw (write_hex-byte b h) (omega (arith, length-hex_tail bs hs))

hex_char-digit : (d : ℕ) → d < 16 → (hex_char d == 120) ≡ false
unfolding hex_char
hex_char-digit d h = ground arith

prefix_size-hex_tail : (bs : Text) → All IsByte bs → prefix_size (hex_tail bs) ≡ 0
unfolding hex_tail prefix_size
prefix_size-hex_tail [] h = refl
prefix_size-hex_tail (b ∷ bs) (h, hs) =
    rw (write_hex-byte b h) (ground (arith, hex_char-digit (b % 16) (omega arith)))

hex_digits-hex_tail : (bs : Text) → hex_digits bs 2 ≡ hex_tail bs
unfolding hex_digits hex_tail
hex_digits-hex_tail [] = refl
hex_digits-hex_tail (b ∷ bs) = refl

prefix_size-prefixed : (s : Text) → prefix_size (48 ∷ 120 ∷ s) ≡ 2
unfolding prefix_size
prefix_size-prefixed s = refl

hex_bytes-to_hex :
    (prefix : HexPrefix) (bs : Text) → All IsByte bs → hex_bytes (to_hex bs 2 prefix) ≡ some bs
unfolding hex_bytes to_hex add_prefix
hex_bytes-to_hex dont_add bs h =
    let even : 2 * length bs % 2 ≡ 0 = omega arith in
    rw
      (
        hex_digits-hex_tail bs,
        length-hex_tail bs h,
        prefix_size-hex_tail bs h,
        even,
        hex_pairs-hex_tail bs h,
      )
      refl
hex_bytes-to_hex add bs h =
    let even : suc (suc (2 * length bs)) % 2 ≡ 0 = omega arith in
    rw (hex_digits-hex_tail bs, length-hex_tail bs h, even, prefix_size-prefixed (hex_tail bs))
      (hex_pairs-hex_tail bs h)

-- fromHex of what toHex wrote gives back the bytes, with and without the prefix 0x, whatever is asked
-- for in case of an error.
pub from_hex-to_hex :
    (bs : Text) (prefix : HexPrefix) (t : WhenError)
    → All IsByte bs
    → from_hex (to_hex bs 2 prefix) t ≡ parsed bs
unfolding from_hex
from_hex-to_hex bs prefix t h = rw (from_hex, hex_bytes-to_hex prefix bs h) refl
