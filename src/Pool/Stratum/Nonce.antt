-- ===== src/Pool/Stratum/Nonce.antt =====
-- The nonce that the pool puts together from its extra nonce and the digits of a submission.
use etcminer.Prelude.{
  ℕ, zero, suc, ◌+◌, ◌-◌, ◌*◌, ◌/◌, ◌%◌, ◌^◌, ◌≤◌, ◌<◌, ◌≡◌, refl, sym, ap, ◌∙◌, arith, true, false,
  [], ◌∷◌, ◌++◌, some, Text, ltb, leb, length, drop, replicate, length-append, Bool-cases, inl, inr,
  lt→ltb, ltb→lt,
}
use native.Mathlib.Nat.{
  pow-suc, pow-succ', suc-add, div-one, div-div-eq-div-mul, div-lt_iff_lt-mul, one-le-pow,
}
use etcminer.Eth.Farm.Nonce.Log.{pow-add_two}
use mathlib.Core.List.{append-nil, append_assoc}
use etcminer.Dev.Hex.{
  dont_add, hex_char, pad_left, compact_hex, write_hex, add_prefix, to_hex_number,
}
use etcminer.Eth.Work.{Solution}
use etcminer.Pool.Stratum.Submitting.{own_digits}

-- A number in exactly `size` digits.
fixed_hex : ℕ → ℕ → Text
fixed_hex zero n = []
fixed_hex (suc size) n = fixed_hex size (n / 16) ++ hex_char (n % 16) ∷ []

length-fixed_hex : (size n : ℕ) → length (fixed_hex size n) ≡ size
unfolding fixed_hex
length-fixed_hex zero n = refl
length-fixed_hex (suc size) n = omega (
  arith,
  length-append (fixed_hex size (n / 16)) (hex_char (n % 16) ∷ []),
  length-fixed_hex size (n / 16),
)

-- The first k of r + k digits are those of the number without its last r digits.
fixed_hex-split : (r k n : ℕ) → fixed_hex (r + k) n ≡ fixed_hex k (n / 16 ^ r) ++ fixed_hex r n
unfolding fixed_hex
fixed_hex-split zero k n =
    let same : 0 + k ≡ k = omega arith in rw (same, div-one n, append-nil (fixed_hex k n)) refl
fixed_hex-split (suc r) k n =
    let power : n / 16 ^ suc r ≡ n / 16 / 16 ^ r =
      rw (pow-succ' 16 r) (sym (div-div-eq-div-mul n 16 (16 ^ r))) in
    rw (suc-add r k, power, fixed_hex-split r k (n / 16))
      (append_assoc (fixed_hex k (n / 16 / 16 ^ r)) (fixed_hex r (n / 16)) (hex_char (n % 16) ∷ []))

replicate-last : (size c : ℕ) → replicate size c ++ c ∷ [] ≡ c ∷ replicate size c
replicate-last zero c = refl
replicate-last (suc size) c = rw (replicate-last size c) refl

fixed_hex-zero : (size : ℕ) → fixed_hex size 0 ≡ replicate size 48
unfolding fixed_hex hex_char
fixed_hex-zero zero = refl
fixed_hex-zero (suc size) = rw (fixed_hex-zero size) (replicate-last size 48)

compact_hex-small : (fuel n : ℕ) → n < 16 → compact_hex (suc fuel) n ≡ hex_char n ∷ []
unfolding compact_hex
compact_hex-small fuel n h = rw (lt→ltb n 16 h) refl

compact_hex-large :
    (fuel n : ℕ)
    → 16 ≤ n
    → compact_hex (suc fuel) n ≡ compact_hex fuel (n / 16) ++ hex_char (n % 16) ∷ []
unfolding compact_hex
compact_hex-large fuel n h = let test : ltb n 16 ≡ false = ground arith in rw test refl

-- Filling a number in front of its last digit.
pad_left-last :
    (t : Text) (size d : ℕ) → pad_left (t ++ d ∷ []) (suc size) 48 ≡ pad_left t size 48 ++ d ∷ []
unfolding pad_left
pad_left-last t size d =
    let same : suc size - length (t ++ d ∷ []) ≡ size - length t =
      omega (arith, length-append t (d ∷ [])) in
    rw same (sym (append_assoc (replicate (size - length t) 48) t (d ∷ [])))

pad_left-one : (size d : ℕ) → pad_left (d ∷ []) (suc size) 48 ≡ replicate size 48 ++ d ∷ []
unfolding pad_left
pad_left-one size d = let same : suc size - 1 ≡ size = omega arith in rw same refl

padded_small :
    (size fuel n : ℕ)
    → n < 16
    → pad_left (compact_hex (suc fuel) n) (suc size) 48 ≡ fixed_hex (suc size) n
unfolding fixed_hex
padded_small size fuel n h =
    let none_left : n / 16 ≡ 0 = omega arith in
    let same : n % 16 ≡ n = omega arith in
    rw (compact_hex-small fuel n h, none_left, same, fixed_hex-zero size)
      (pad_left-one size (hex_char n))

-- A number under setw and setfill has exactly the digits asked for, where they are enough.
padded :
    (size fuel n : ℕ)
    → n < 16 ^ suc size
    → size ≤ fuel
    → pad_left (compact_hex (suc fuel) n) (suc size) 48 ≡ fixed_hex (suc size) n
unfolding fixed_hex
padded zero fuel n h room = padded_small zero fuel n h
padded (suc size) zero n h room = absurd (omega arith)
padded (suc size) (suc fuel) n h room = elim (Bool-cases (ltb n 16)) [
  | inl e ↦ padded_small (suc size) (suc fuel) n (ltb→lt n 16 e)
  | inr e ↦
      (let inner = padded size fuel (n / 16) (omega (arith, pow-suc 16 (suc size))) (omega arith) in
        rw
          (
            compact_hex-large (suc fuel) n (ground arith),
            pad_left-last (compact_hex (suc fuel) (n / 16)) (suc size) (hex_char (n % 16)),
            inner,
          )
          refl)
]

write_hex-fixed_hex :
    (size n : ℕ) → n < 16 ^ suc size → size ≤ 15 → write_hex (suc size) n ≡ fixed_hex (suc size) n
unfolding write_hex
write_hex-fixed_hex size n h room = padded size 15 n h room

drop-append : (a b : Text) (k : ℕ) → length a ≡ k → drop k (a ++ b) ≡ b
drop-append [] b zero e = refl
drop-append [] b (suc k) e = absurd (omega arith)
drop-append (c ∷ a) b zero e = absurd (omega arith)
drop-append (c ∷ a) b (suc k) e = drop-append a b k (omega arith)

shift_bits : (m : ℕ) → 2 ^ (4 * suc m) ≡ 2 ^ (4 * m + 4)
shift_bits m = ap (λ (t : ℕ). 2 ^ t) (omega arith)

pow_of_bits : (m : ℕ) → 16 ^ m ≡ 2 ^ (4 * m)
pow_of_bits zero = refl
pow_of_bits (suc m) =
    omega (arith, pow-suc 16 m, pow_of_bits m, pow-add_two (4 * m) 4, shift_bits m)

nonce_powers : (r k : ℕ) → r + suc k ≡ 16 → 16 ^ suc k * 16 ^ r ≡ 18446744073709551616
nonce_powers r k total =
    let bits : 4 * suc k + 4 * r ≡ 64 = omega (arith, total) in
    rw (pow_of_bits (suc k), pow_of_bits r)
      (sym (pow-add_two (4 * suc k) (4 * r)) ∙ ap (λ (t : ℕ). 2 ^ t) bits)

-- The first digits of a 64-bit number, and the others.
split_nonce :
    (r k n : ℕ)
    → r + suc k ≡ 16
    → n < 18446744073709551616
    → write_hex (suc k) (n / 16 ^ r) ++ drop (suc k) (write_hex 16 n) ≡ write_hex 16 n
split_nonce r k n total small =
    let powers = nonce_powers r k total in
    let high : n / 16 ^ r < 16 ^ suc k =
      (div-lt_iff_lt-mul {k = 16 ^ r} {x = n} {y = 16 ^ suc k} (one-le-pow r 16 (omega arith))).1
        (omega (arith, powers)) in
    let whole : write_hex 16 n ≡ fixed_hex (suc k) (n / 16 ^ r) ++ fixed_hex r n =
      write_hex-fixed_hex 15 n (omega arith) (omega arith)
      ∙ ap (λ (t : ℕ). fixed_hex t n) (sym total)
      ∙ fixed_hex-split r (suc k) n in
    rw
      (
        write_hex-fixed_hex k (n / 16 ^ r) high (omega arith),
        whole,
        drop-append (fixed_hex (suc k) (n / 16 ^ r)) (fixed_hex r n) (suc k)
            (length-fixed_hex (suc k) (n / 16 ^ r)),
      )
      refl

join_nonce :
    (size n e : ℕ)
    → n < 18446744073709551616
    → 0 < size
    → size ≤ 16
    → n / 2 ^ (64 - size * 4) ≡ e
    → write_hex size e ++ drop size (write_hex 16 n) ≡ write_hex 16 n
join_nonce zero n e small some_digits room kept = absurd (omega arith)
join_nonce (suc k) n e small some_digits room kept =
    let bits : 64 - suc k * 4 ≡ 4 * (15 - k) = omega arith in
    let power : 2 ^ (64 - suc k * 4) ≡ 16 ^ (15 - k) =
      ap (λ (t : ℕ). 2 ^ t) bits ∙ sym (pow_of_bits (15 - k)) in
    rw (sym kept, power) (split_nonce (15 - k) k n (omega arith) small)

own_digits-drop :
    (s : Solution) {own : Text}
    → s.work.ex_size_bytes ≤ 16
    → own_digits s ≡ some own
    → own ≡ drop s.work.ex_size_bytes (write_hex 16 s.nonce)
unfolding own_digits to_hex_number add_prefix
own_digits-drop s room given =
    let fits : leb s.work.ex_size_bytes 16 ≡ true = ground arith in cc (rw fits at given)

-- The digits of an extra nonce of 1 to 16 digits, followed by those that the client submits, are the 16
-- digits of the nonce, if the nonce is one of 64 bits and keeps the extra nonce in front.
pub nonce-whole :
    (s : Solution) (e : ℕ) {own : Text}
    → s.nonce < 18446744073709551616
    → 0 < s.work.ex_size_bytes
    → s.work.ex_size_bytes ≤ 16
    → s.nonce / 2 ^ (64 - s.work.ex_size_bytes * 4) ≡ e
    → own_digits s ≡ some own
    → to_hex_number e dont_add s.work.ex_size_bytes ++ own ≡ to_hex_number s.nonce dont_add 16
unfolding to_hex_number add_prefix
nonce-whole s e {own} small some_digits room kept given =
    rw (own_digits-drop s room given)
      (join_nonce s.work.ex_size_bytes s.nonce e small some_digits room kept)
