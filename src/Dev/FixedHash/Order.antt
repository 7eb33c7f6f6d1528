-- ===== src/Dev/FixedHash/Order.antt =====
-- libdev/FixedHash.h: hashes as the numbers that their bytes stand for, most significant first.
use etcminer.Prelude.{
  ℕ, suc, ◌+◌, ◌*◌, ◌%◌, ◌^◌, ◌<◌, ◌≡◌, refl, arith, Bool, true, false, [], ◌∷◌, Text, length, All,
  ltb, if◌then◌else◌, sym, Bool-cases, ==_iff, ◌==◌, inl, inr,
}
use native.Mathlib.Nat.{pow-suc, mul-le-mul_right, mod_self, mod-eq_of_lt}
use etcminer.Dev.Endian.{IsByte, value_of, value_of-bound}
use etcminer.Dev.FixedHash.{hash_lt, increment, increment_carry, carry_into}

lt-block : (x y P u v : ℕ) → u < P → x < y → x * P + u < y * P + v
lt-block x y P u v hu h = omega (arith, mul-le-mul_right {m = suc x} {n = y} P h)

lt-step :
    (x y P u v : ℕ)
    → u < P
    → v < P
    → (if ltb x y then true else (if ltb y x then false else ltb u v)) ≡ ltb (x * P + u) (y * P + v)
lt-step x y P u v hu hv = ground (arith, lt-block x y P u v hu, lt-block y x P v u hv)

-- operator< compares two hashes of the same size as the numbers that their bytes stand for.
pub hash_lt_lem :
    (xs ys : Text)
    → length xs ≡ length ys
    → All IsByte xs
    → All IsByte ys
    → hash_lt xs ys ≡ ltb (value_of xs) (value_of ys)
unfolding hash_lt
hash_lt_lem [] [] e hx hy = refl
hash_lt_lem [] (y ∷ ys) e hx hy = cc
hash_lt_lem (x ∷ xs) [] e hx hy = cc
hash_lt_lem (x ∷ xs) (y ∷ ys) e (hx, hxs) (hy, hys) =
    let same : length xs ≡ length ys = omega (arith, e) in
    let bx : value_of xs < 256 ^ length ys = rw (sym same) (value_of-bound xs hxs) in
    rw (same, hash_lt_lem xs ys same hxs hys)
      (lt-step x y (256 ^ length ys) (value_of xs) (value_of ys) bx (value_of-bound ys hys))

-- The bytes that an increment leaves, and whether it carried out of `n` bytes of value `v`.
abbrev Counted : ℕ → ℕ → Text × Bool → Type 0
Counted n v (ys, carry) = (length ys ≡ n) × (value_of ys + (if carry then 256 ^ n else 0) ≡ v + 1)

carried :
    (x P Q v w : ℕ)
    → x < 256
    → Q ≡ P * 256
    → w + P ≡ v + 1
    → (x + 1) % 256 * P + w + (if (x + 1) % 256 == 0 then Q else 0) ≡ x * P + v + 1
carried x P Q v w h q sum = elim (Bool-cases (x == 255)) [
  | inl e ↦ (let full : x ≡ 255 = (==_iff x 255).0 e in rw full (omega (arith, q, sum)))
  | inr e ↦ (let low : (x + 1) % 256 ≡ x + 1 = ground arith in rw low (ground (arith, sum)))
]

carry_into-Counted :
    (x n v : ℕ) (r : Text × Bool)
    → x < 256
    → Counted n v r
    → Counted (suc n) (x * 256 ^ n + v) (carry_into x r)
unfolding carry_into
carry_into-Counted x n v (ys, false) h (len, sum) = rw len (refl, omega (arith, sum))
carry_into-Counted x n v (ys, true) h (len, sum) =
    rw len (refl, carried x (256 ^ n) (256 ^ suc n) v (value_of ys) h (pow-suc 256 n) sum)

increment_carry-Counted :
    (xs : Text) → All IsByte xs → Counted (length xs) (value_of xs) (increment_carry xs)
unfolding increment_carry
increment_carry-Counted [] h = (refl, refl)
increment_carry-Counted (x ∷ xs) (h, hs) =
    carry_into-Counted x (length xs) (value_of xs) (increment_carry xs) h
      (increment_carry-Counted xs hs)

wraps :
    (a P v : ℕ) (carry : Bool)
    → a < P
    → v < P
    → a + (if carry then P else 0) ≡ v + 1
    → a ≡ (v + 1) % P
wraps a P v true small below sum =
    let full : v + 1 ≡ P = omega (arith, sum) in rw (full, mod_self P) (omega (arith, sum, full))
wraps a P v false small below sum =
    let plain : (v + 1) % P ≡ v + 1 = mod-eq_of_lt (omega (arith, sum)) in omega (arith, plain, sum)

carry_into-IsByte :
    (x : ℕ) (r : Text × Bool) → IsByte x → All IsByte r.0 → All IsByte (carry_into x r).0
unfolding carry_into
carry_into-IsByte x (ys, false) h hs = (h, hs)
carry_into-IsByte x (ys, true) h hs = (omega arith, hs)

increment_carry-IsByte : (xs : Text) → All IsByte xs → All IsByte (increment_carry xs).0
unfolding increment_carry
increment_carry-IsByte [] h = tt
increment_carry-IsByte (x ∷ xs) (h, hs) =
    carry_into-IsByte x (increment_carry xs) h (increment_carry-IsByte xs hs)

-- operator++ keeps the number of bytes and adds 1 to the number that they stand for, modulo 256 to
-- the number of bytes.
pub increment_lem :
    (h : Text)
    → All IsByte h
    → (length (increment h) ≡ length h)
      × (value_of (increment h) ≡ (value_of h + 1) % 256 ^ length h)
unfolding increment
increment_lem h bytes =
    let (len, sum) = increment_carry-Counted h bytes in
    let small = value_of-bound (increment_carry h).0 (increment_carry-IsByte h bytes) in
    (
      len,
      wraps (value_of (increment_carry h).0) (256 ^ length h) (value_of h) (increment_carry h).1
          (rw (sym len) small) (value_of-bound h bytes) sum,
    )
