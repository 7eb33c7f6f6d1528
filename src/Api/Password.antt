-- ===== src/Api/Password.antt =====
-- The test of the password of the API, which compares 500 characters that are filled with zeros.
use etcminer.Prelude.{
  ℕ, zero, suc, ◌≤◌, ◌<◌, ◌≡◌, ◌↔◌, ◌∙◌, ◌&&◌, Bool, true, sym, ap, refl, arith, Bool, true, [],
  ◌∷◌, ◌++◌, Text, length, take, replicate, ltb, ◌^◌, ◌==◌, All,
}
use mathlib.Core.Path.{subst}
use etcminer.Prelude.Bits.{
  xor, or, xor-lt, or-lt, xor-same, xor-zero, or-zero_left, or-zero_right, or-none,
}
use etcminer.Api.Methods.{promoted, accumulate, copied, same_password}

-- The characters of the text are bytes other than 0.
unfoldable pub is_plain : Text → Bool
is_plain [] = true
is_plain (c ∷ t) = (ltb 0 c && ltb c 256) && is_plain t

head_of : Text → ℕ
head_of [] = 0
head_of (c ∷ t) = c

tail_of : Text → Text
tail_of [] = []
tail_of (c ∷ t) = t

plain_head : (c : ℕ) (t : Text) → is_plain (c ∷ t) ≡ true → 0 < c
unfolding is_plain
plain_head c t e = ground (arith, e)

plain_tail : (c : ℕ) (t : Text) → is_plain (c ∷ t) ≡ true → is_plain t ≡ true
unfolding is_plain
plain_tail c t e = ground (arith, e)

-- Filled texts that agree come from the same text.
filled_same :
    (n m : ℕ) (a b : Text)
    → n ≤ m
    → length a ≤ n
    → length b ≤ n
    → is_plain a ≡ true
    → is_plain b ≡ true
    → take n (a ++ replicate m 0) ≡ take n (b ++ replicate m 0)
    → a ≡ b
unfolding head_of tail_of
filled_same n m [] [] room la lb pa pb e = refl
filled_same zero m (x ∷ a) b room la lb pa pb e = absurd (omega arith)
filled_same zero m a (y ∷ b) room la lb pa pb e = absurd (omega arith)
filled_same (suc n) zero (x ∷ a) b room la lb pa pb e = absurd (omega arith)
filled_same (suc n) zero a (y ∷ b) room la lb pa pb e = absurd (omega arith)
filled_same (suc n) (suc m) [] (y ∷ b) room la lb pa pb e =
    let same : 0 ≡ y = ap head_of e in absurd (omega (arith, plain_head y b pb))
filled_same (suc n) (suc m) (x ∷ a) [] room la lb pa pb e =
    let same : x ≡ 0 = ap head_of e in absurd (omega (arith, plain_head x a pa))
filled_same (suc n) (suc m) (x ∷ a) (y ∷ b) room la lb pa pb e =
    let rest =
      filled_same n (suc m) a b (omega arith) (omega arith) (omega arith) (plain_tail x a pa)
        (plain_tail y b pb) (ap tail_of e) in
    let first : x ≡ y = ap head_of e in ap (λ h. h ∷ a) first ∙ ap (λ t. y ∷ t) rest

-- The characters are bytes.
abbrev IsBytes : Text → Type 0
IsBytes t = All (λ c. c < 256) t

plain-IsBytes : (t : Text) → is_plain t ≡ true → IsBytes t
unfolding is_plain
plain-IsBytes [] e = tt
plain-IsBytes (c ∷ t) e = (ground arith, plain-IsBytes t (ground arith))

zeros-IsBytes : (n : ℕ) → IsBytes (replicate n 0)
zeros-IsBytes zero = tt
zeros-IsBytes (suc n) = (omega arith, zeros-IsBytes n)

append-IsBytes : (a b : Text) → IsBytes a → IsBytes b → IsBytes (a ++ b)
append-IsBytes [] b ha hb = hb
append-IsBytes (c ∷ a) b (h, ha) hb = (h, append-IsBytes a b ha hb)

take-IsBytes : (n : ℕ) (t : Text) → IsBytes t → IsBytes (take n t)
take-IsBytes zero t h = tt
take-IsBytes (suc n) [] h = tt
take-IsBytes (suc n) (c ∷ t) (h, hs) = (h, take-IsBytes n t hs)

copied-IsBytes : (t : Text) → is_plain t ≡ true → IsBytes (copied t)
unfolding copied
copied-IsBytes t e =
    take-IsBytes 500 (t ++ replicate 500 0)
      (append-IsBytes t (replicate 500 0) (plain-IsBytes t e) (zeros-IsBytes 500))

length-take_filled : (n m : ℕ) (t : Text) → n ≤ m → length (take n (t ++ replicate m 0)) ≡ n
length-take_filled zero m t h = refl
length-take_filled (suc n) zero t h = absurd (omega arith)
length-take_filled (suc n) (suc m) [] h = ap suc (length-take_filled n m [] (omega arith))
length-take_filled (suc n) (suc m) (c ∷ t) h = ap suc (length-take_filled n (suc m) t (omega arith))

copied-sizes : (a b : Text) → length (copied a) ≡ length (copied b)
unfolding copied
copied-sizes a b =
    length-take_filled 500 500 a (omega arith) ∙ sym (length-take_filled 500 500 b (omega arith))

promoted-lt : (c : ℕ) → c < 256 → promoted c < 2 ^ 32
unfolding promoted
promoted-lt c h = ground arith

promoted-injective : (a b : ℕ) → a < 256 → b < 256 → promoted a ≡ promoted b → a ≡ b
unfolding promoted
promoted-injective a b ha hb e = ground arith

-- The loop keeps every bit that is set, so that 0 at its end means that no characters differ.
accumulate-zero :
    (result : ℕ) (xs ys : Text)
    → result < 2 ^ 32
    → IsBytes xs
    → IsBytes ys
    → length xs ≡ length ys
    → accumulate result xs ys ≡ 0
    → (result ≡ 0) × (xs ≡ ys)
unfolding accumulate
accumulate-zero result [] [] small hx hy same e = (e, refl)
accumulate-zero result [] (y ∷ ys) small hx hy same e = absurd (omega arith)
accumulate-zero result (x ∷ xs) [] small hx hy same e = absurd (omega arith)
accumulate-zero result (x ∷ xs) (y ∷ ys) small (hx, hxs) (hy, hys) same e =
    let differs = xor 32 (promoted x) (promoted y) in
    let (none, rest) =
      accumulate-zero (or 32 result differs) xs ys (or-lt 32 result differs) hxs hys (omega arith)
        e in
    let equal =
      xor-zero 32 (promoted x) (promoted y) (promoted-lt x hx) (promoted-lt y hy)
        (or-zero_right 32 result differs (xor-lt 32 (promoted x) (promoted y)) none) in
    (
      or-zero_left 32 result differs small none,
      ap (λ h. h ∷ xs) (promoted-injective x y hx hy equal) ∙ ap (λ t. y ∷ t) rest,
    )

accumulate-same : (xs : Text) → accumulate 0 xs xs ≡ 0
unfolding accumulate
accumulate-same [] = refl
accumulate-same (x ∷ xs) = rw (xor-same 32 (promoted x), or-none 32) (accumulate-same xs)

-- The test of the password holds just for equal texts, if neither is longer than 500 characters and their
-- characters are bytes other than 0.
pub same_password_lem :
    (a b : Text)
    → length a ≤ 500
    → length b ≤ 500
    → is_plain a ≡ true
    → is_plain b ≡ true
    → (same_password a b ≡ true) ↔ (a ≡ b)
unfolding same_password
same_password_lem a b la lb pa pb = (
  λ e.
      let sizes : length (copied a) ≡ length (copied b) = copied-sizes a b in
      let (none, same) =
        accumulate-zero 0 (copied a) (copied b) (omega arith) (copied-IsBytes a pa)
          (copied-IsBytes b pb) sizes (ground arith) in
      filled_same 500 500 a b (omega arith) la lb pa pb (unfold copied in same),
  λ e.
      subst (λ t. (accumulate 0 (copied a) (copied t) == 0) ≡ true) e
        (rw (accumulate-same (copied a)) refl),
)
