-- ===== src/Dev/Endian.antt =====
-- libdev/CommonData.h: the big-endian conversions between numbers and bytes. A number of type T has
-- `bits` bits; what a shift moves out of them is lost.
use etcminer.Prelude.{
  ℕ, zero, suc, ◌+◌, ◌*◌, ◌/◌, ◌%◌, ◌^◌, ◌≤◌, ◌<◌, ◌≡◌, refl, ap, ◌∙◌, arith, [], ◌∷◌, ◌++◌, Text,
  length, All, length-append, ◌==◌, if◌then◌else◌,
}
use native.Mathlib.Nat.{pow-suc, mul-le-mul_right, mul-le-mul_left, one-le-pow, mod-eq_of_lt}

-- toBigEndian into `size` bytes: the loop fills the bytes from the last one back.
unfoldable pub to_big_endian : ℕ → ℕ → Text
to_big_endian zero value = []
to_big_endian (suc size) value = to_big_endian size (value / 256) ++ value % 256 ∷ []

-- The loop of fromBigEndian.
unfoldable pub from_big_endian_from : ℕ → ℕ → Text → ℕ
from_big_endian_from bits ret [] = ret
from_big_endian_from bits ret (b ∷ bs) = from_big_endian_from bits ((ret * 256 % 2 ^ bits) + b) bs

unfoldable pub from_big_endian : ℕ → Text → ℕ
unfolding from_big_endian_from
from_big_endian bits bs = from_big_endian_from bits 0 bs

-- The number of bytes of a value, on fuel; `bits` rounds are enough for a value of `bits` bits.
unfoldable pub bytes_required : ℕ → ℕ → ℕ
bytes_required zero value = 0
bytes_required (suc fuel) value =
    let rest = bytes_required fuel (value / 256) in if value == 0 then 0 else suc rest

abbrev pub IsByte : ℕ → Type 0
IsByte b = b < 256

-- The number that bytes stand for, the most significant one first.
abbrev pub value_of : Text → ℕ
value_of [] = 0
value_of (b ∷ bs) = b * 256 ^ length bs + value_of bs

pow_next : (n m : ℕ) → m ≡ suc n → 256 ^ m ≡ 256 ^ n * 256
pow_next n m e = rw e (pow-suc 256 n)

value_of-append : (bs : Text) (c : ℕ) → value_of (bs ++ c ∷ []) ≡ value_of bs * 256 + c
value_of-append [] c = omega arith
value_of-append (b ∷ bs) c = omega (
  arith,
  value_of-append bs c,
  ap (λ (t : ℕ). b * t)
      (pow_next (length bs) (length (bs ++ c ∷ [])) (omega (arith, length-append bs (c ∷ [])))),
)

pub value_of-bound : (bs : Text) → All IsByte bs → value_of bs < 256 ^ length bs
value_of-bound [] h = omega arith
value_of-bound (b ∷ bs) (h, hs) =
    omega
      (arith, value_of-bound bs hs, mul-le-mul_right (256 ^ length bs) h, pow-suc 256 (length bs))

value_of-to_big_endian :
    (size value : ℕ) → value < 256 ^ size → value_of (to_big_endian size value) ≡ value
unfolding to_big_endian
value_of-to_big_endian zero value h = omega arith
value_of-to_big_endian (suc size) value h = omega (
  arith,
  value_of-append (to_big_endian size (value / 256)) (value % 256),
  value_of-to_big_endian size (value / 256) (omega (arith, pow-suc 256 size)),
)

from_big_endian_from-value_of :
    (bits ret : ℕ) (bs : Text)
    → ret * 256 ^ length bs + value_of bs < 2 ^ bits
    → from_big_endian_from bits ret bs ≡ ret * 256 ^ length bs + value_of bs
unfolding from_big_endian_from
from_big_endian_from-value_of bits ret [] h = omega arith
from_big_endian_from-value_of bits ret (b ∷ bs) h =
    let P : ℕ = 256 ^ length bs in
    let next : 256 ^ suc (length bs) ≡ P * 256 = pow-suc 256 (length bs) in
    let room : (ret * 256 + b) * P + value_of bs < 2 ^ bits =
      omega (arith, next, ap (λ (t : ℕ). ret * t) next) in
    let fits : ret * 256 * 1 ≤ ret * 256 * P =
      mul-le-mul_left (ret * 256) (one-le-pow (length bs) 256 (omega arith)) in
    let same : ret * 256 % 2 ^ bits ≡ ret * 256 = mod-eq_of_lt (omega (arith, room, fits)) in
    rw same (
      omega (
        arith,
        from_big_endian_from-value_of bits (ret * 256 + b) bs room,
        next,
        ap (λ (t : ℕ). ret * t) next,
      ))

-- fromBigEndian of a type of `bits` bits takes back what toBigEndian wrote, if the value fits in the
-- type and in the bytes.
pub from_big_endian-to_big_endian :
    (bits size value : ℕ)
    → value < 2 ^ bits
    → value < 256 ^ size
    → from_big_endian bits (to_big_endian size value) ≡ value
unfolding from_big_endian
from_big_endian-to_big_endian bits size value small fits =
    let whole = value_of-to_big_endian size value fits in
    omega (
      arith,
      from_big_endian_from-value_of bits 0 (to_big_endian size value) (omega (arith, whole)),
      whole,
    )

to_big_endian-last :
    (size value : ℕ)
    → to_big_endian (suc size) value ≡ to_big_endian size (value / 256) ++ value % 256 ∷ []
unfolding to_big_endian
to_big_endian-last size value = refl

to_big_endian-only :
    (b rest value : ℕ) → value % 256 ≡ b → to_big_endian 1 value ≡ b ∷ to_big_endian 0 rest
unfolding to_big_endian
to_big_endian-only b rest value e = ap (λ (t : ℕ). t ∷ []) e

-- The first byte that is written.
to_big_endian-first :
    (size b rest : ℕ)
    → b < 256
    → rest < 256 ^ size
    → to_big_endian (suc size) (b * 256 ^ size + rest) ≡ b ∷ to_big_endian size rest
to_big_endian-first zero b rest small fits =
    to_big_endian-only b rest (b * 256 ^ zero + rest) (omega arith)
to_big_endian-first (suc size) b rest small fits =
    let value : ℕ = b * 256 ^ suc size + rest in
    let next : b * 256 ^ suc size ≡ b * 256 ^ size * 256 =
      omega (arith, ap (λ (t : ℕ). b * t) (pow-suc 256 size)) in
    let high : value / 256 ≡ b * 256 ^ size + rest / 256 = omega (arith, next) in
    let low : value % 256 ≡ rest % 256 = omega (arith, next) in
    let inner = to_big_endian-first size b (rest / 256) small (omega (arith, pow-suc 256 size)) in
    rw (to_big_endian-last (suc size) value, high, low, inner, to_big_endian-last size rest) refl

to_big_endian-value_of : (bs : Text) → All IsByte bs → to_big_endian (length bs) (value_of bs) ≡ bs
unfolding to_big_endian
to_big_endian-value_of [] h = refl
to_big_endian-value_of (b ∷ bs) (h, hs) =
    to_big_endian-first (length bs) b (value_of bs) h (value_of-bound bs hs)
    ∙ ap (λ (t : Text). b ∷ t) (to_big_endian-value_of bs hs)

-- toBigEndian writes back the bytes that fromBigEndian read, if the type has room for them.
pub to_big_endian-from_big_endian :
    (bits : ℕ) (bs : Text)
    → All IsByte bs
    → 256 ^ length bs ≤ 2 ^ bits
    → to_big_endian (length bs) (from_big_endian bits bs) ≡ bs
unfolding from_big_endian
to_big_endian-from_big_endian bits bs bytes room =
    let read : from_big_endian_from bits 0 bs ≡ value_of bs =
      omega
        (arith, from_big_endian_from-value_of bits 0 bs (omega (arith, value_of-bound bs bytes))) in
    rw read (to_big_endian-value_of bs bytes)
