-- ===== src/Dev/FixedHash.antt =====
-- libdev/FixedHash.h: fixed-size hashes as lists of bytes, most significant first.
pub mod Order
use etcminer.Dev.Hex.{throw, parsed, bad_hex_character, from_hex}
use etcminer.Prelude.{
  Option, some, none, ℕ, ◌+◌, ◌-◌, ◌%◌, ◌++◌, take, drop, length, Bool, true, false, not, ◌||◌, [],
  ◌∷◌, Text, text_eq, ltb, ◌==◌, if◌then◌else◌, replicate,
}

-- h256()
abbrev pub zero_hash : Text
zero_hash = replicate 32 0

-- explicit operator bool: any byte is not 0.
unfoldable pub any_byte : Text → Bool
any_byte [] = false
any_byte (x ∷ xs) = not (x == 0) || any_byte xs

-- operator<: the first bytes that differ decide.
unfoldable pub hash_lt : Text → Text → Bool
hash_lt [] ys = false
hash_lt (x ∷ xs) [] = false
hash_lt (x ∷ xs) (y ∷ ys) =
    let rest = hash_lt xs ys in if ltb x y then true else (if ltb y x then false else rest)

-- operator<=
unfoldable pub hash_le : Text → Text → Bool
unfolding hash_lt
hash_le a b = text_eq a b || hash_lt a b

-- operator>
unfoldable pub hash_gt : Text → Text → Bool
unfolding hash_le
hash_gt a b = not (hash_le a b)

-- operator~, and the operators ^=, |= and &=, byte by byte.
unfoldable pub hash_not : Text → Text
hash_not [] = []
hash_not (x ∷ xs) = (255 - x) ∷ hash_not xs

unfoldable pub zip_bytes : (ℕ → ℕ → ℕ) → Text → Text → Text
zip_bytes f [] ys = []
zip_bytes f (x ∷ xs) [] = x ∷ xs
zip_bytes f (x ∷ xs) (y ∷ ys) = f x y ∷ zip_bytes f xs ys

-- operator++ from the last byte on, with whether every byte so far has wrapped to 0.
unfoldable pub carry_into : ℕ → Text × Bool → Text × Bool
carry_into x (ys, false) = (x ∷ ys, false)
carry_into x (ys, true) = ((x + 1) % 256 ∷ ys, (x + 1) % 256 == 0)

unfoldable pub increment_carry : Text → Text × Bool
unfolding carry_into
increment_carry [] = ([], true)
increment_carry (x ∷ xs) = carry_into x (increment_carry xs)

unfoldable pub increment : Text → Text
unfolding increment_carry
increment h = (increment_carry h).0

-- ConstructFromHashType
pub data Alignment : Type 0 where
  align_left align_right fail_if_different : Alignment

-- Bytes cut or filled with zeroes at their end.
abbrev fit : ℕ → Text → Text
fit size bs = take size (bs ++ replicate size 0)

-- FixedHash of `size` bytes from a byte array: other sizes are aligned, or give the empty hash.
unfoldable pub hash_of_bytes : ℕ → Alignment → Text → Text
hash_of_bytes size t bs = if length bs == size then bs else elim t [
  | align_left ↦ fit size bs
  | align_right ↦ replicate (size - length bs) 0 ++ drop (length bs - size) bs
  | fail_if_different ↦ replicate size 0
]

-- FixedHash of `size` bytes from a text; none stands for the exception on a bad character.
unfoldable pub hash_of_text : ℕ → Text → Option Text
hash_of_text size s = elim (from_hex s throw) [
  | parsed bs ↦ some (hash_of_bytes size fail_if_different bs)
  | bad_hex_character ↦ none
]
