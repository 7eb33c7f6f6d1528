-- ===== src/Pool/Host/RoundTrip.antt =====
-- An address written as host, port and path is read back.
use etcminer.Prelude.{
  ℕ, zero, suc, ◌+◌, ◌-◌, ◌*◌, ◌/◌, ◌%◌, ◌^◌, ◌<◌, ◌≤◌, ◌≡◌, refl, arith, true, false, [], ◌∷◌,
  ◌++◌, Option, some, none, Text, leb, ltb, ◌==◌, length, map, is_empty, All, Bool-cases, inl, inr,
  length-append, lt→ltb, ltb→lt,
}
use native.Mathlib.Nat.{pow-suc}
use etcminer.Pool.Uri.{to_lower, digits_text, port_text}
use etcminer.Pool.Host.{
  split_path, all_dots, all_digits, split_colon, match_host, decimal_from, endpoint, checked,
  read_host, decoded, read_url,
}
use etcminer.Pool.UrlCode.{Encodes, nothing, itself, decode_or_keep, url_decode_lem}

decimal_from-append :
    (n : ℕ) (s : Text) (c : ℕ) → decimal_from n (s ++ c ∷ []) ≡ decimal_from n s * 10 + (c - 48)
unfolding decimal_from
decimal_from-append n [] c = refl
decimal_from-append n (d ∷ s) c = decimal_from-append (n * 10 + (d - 48)) s c

all_digits-append :
    (s : Text) (c : ℕ)
    → all_digits s ≡ true
    → all_digits (c ∷ []) ≡ true
    → all_digits (s ++ c ∷ []) ≡ true
unfolding all_digits
all_digits-append [] c hs hc = hc
all_digits-append (d ∷ s) c hs hc = ground (arith, all_digits-append s c)

-- What a numeral of at most `size` digits that stands for `n` is.
abbrev Numeral : ℕ → ℕ → Text → Type 0
Numeral size n s =
    (all_digits s ≡ true) × (0 < length s) × (length s ≤ size) × (decimal_from 0 s ≡ n)

digits_text-small : (fuel n : ℕ) → n < 10 → digits_text (suc fuel) n ≡ (48 + n) ∷ []
unfolding digits_text
digits_text-small fuel n h = rw (lt→ltb n 10 h) refl

digits_text-large :
    (fuel n : ℕ)
    → 10 ≤ n
    → digits_text (suc fuel) n ≡ digits_text fuel (n / 10) ++ (48 + n % 10) ∷ []
unfolding digits_text
digits_text-large fuel n h = let test : ltb n 10 ≡ false = ground arith in rw test refl

digit : (d : ℕ) → d < 10 → all_digits ((48 + d) ∷ []) ≡ true
unfolding all_digits
digit d h = ground arith

single-Numeral : (size n : ℕ) → n < 10 → Numeral (suc size) n ((48 + n) ∷ [])
unfolding decimal_from
single-Numeral size n h = (digit n h, omega arith, omega arith, omega arith)

longer-Numeral :
    (size n : ℕ) (s : Text)
    → Numeral size (n / 10) s
    → Numeral (suc size) n (s ++ (48 + n % 10) ∷ [])
longer-Numeral size n s (digits, some_digit, short, value) = (
  all_digits-append s (48 + n % 10) digits (digit (n % 10) (omega arith)),
  omega (arith, length-append s ((48 + n % 10) ∷ [])),
  omega (arith, short, length-append s ((48 + n % 10) ∷ [])),
  omega (arith, value, decimal_from-append 0 s (48 + n % 10)),
)

digits_text-Numeral :
    (size n : ℕ) → n < 10 ^ suc size → Numeral (suc size) n (digits_text (suc size) n)
digits_text-Numeral zero n h = rw (digits_text-small zero n h) (single-Numeral zero n h)
digits_text-Numeral (suc size) n h = elim (Bool-cases (ltb n 10)) [
  | inl e ↦
      (let small = ltb→lt n 10 e in
        rw (digits_text-small (suc size) n small) (single-Numeral (suc size) n small))
  | inr e ↦
      (let inner = digits_text-Numeral size (n / 10) (omega (arith, pow-suc 10 (suc size))) in
        rw (digits_text-large (suc size) n (ground arith))
          (longer-Numeral (suc size) n (digits_text (suc size) (n / 10)) inner))
]

split_path-none :
    (s path : Text)
    → All (λ c. (c == 47) ≡ false) s
    → split_path path ≡ ([], path)
    → split_path (s ++ path) ≡ (s, path)
unfolding split_path
split_path-none [] path h e = e
split_path-none (c ∷ s) path (h, hs) e = rw (h, split_path-none s path hs e) refl

split_colon-digits : (s : Text) → all_digits s ≡ true → split_colon s ≡ none
unfolding split_colon all_digits
split_colon-digits [] h = refl
split_colon-digits (c ∷ s) h = ground (arith, split_colon-digits s)

split_colon-last :
    (host port : Text)
    → all_digits port ≡ true
    → split_colon (host ++ 58 ∷ port) ≡ some (host, port)
unfolding split_colon
split_colon-last [] port h = rw (split_colon-digits port h) refl
split_colon-last (c ∷ host) port h = rw (split_colon-last host port h) refl

map-to_lower-digits : (s : Text) → all_digits s ≡ true → map to_lower s ≡ s
unfolding all_digits
map-to_lower-digits [] h = refl
map-to_lower-digits (c ∷ s) h =
    let same : to_lower c ≡ c = ground arith in
    let rest : all_digits s ≡ true = ground arith in rw (same, map-to_lower-digits s rest) refl

map-to_lower-append : (a b : Text) → map to_lower (a ++ b) ≡ map to_lower a ++ map to_lower b
map-to_lower-append [] b = refl
map-to_lower-append (c ∷ a) b = rw (map-to_lower-append a b) refl

is_empty-longer : (s : Text) → 0 < length s → is_empty s ≡ false
is_empty-longer [] h = absurd (omega arith)
is_empty-longer (c ∷ s) h = refl

match_host-Numeral :
    (n : ℕ) (host port : Text)
    → Numeral 5 n port
    → all_dots host ≡ true
    → match_host (host ++ 58 ∷ port) ≡ some (host, port)
unfolding match_host
match_host-Numeral n host port (digits, some_digit, short, value) dots =
    let fits : leb (length port) 5 ≡ true = ground arith in
    rw
      (
        match_host,
        split_colon-last host port digits,
        dots,
        digits,
        is_empty-longer port some_digit,
        fits,
      )
      refl

-- No '/' stands in a text.
abbrev pub NoSlash : Text → Type 0
NoSlash s = All (λ c. (c == 47) ≡ false) s

digits-NoSlash : (s : Text) → all_digits s ≡ true → NoSlash s
unfolding all_digits
digits-NoSlash [] h = tt
digits-NoSlash (c ∷ s) h = (ground arith, digits-NoSlash s (ground arith))

append-NoSlash : (a b : Text) → NoSlash a → NoSlash b → NoSlash (a ++ b)
append-NoSlash [] b ha hb = hb
append-NoSlash (c ∷ a) b (h, ha) hb = (h, append-NoSlash a b ha hb)

front-NoSlash :
    (host port : Text) → NoSlash host → all_digits port ≡ true → NoSlash (host ++ 58 ∷ port)
front-NoSlash host port h digits =
    append-NoSlash host (58 ∷ port) h (refl, digits-NoSlash port digits)

read_host-Numeral :
    (n : ℕ) (host port path : Text)
    → is_empty host ≡ false
    → all_dots host ≡ true
    → n < 65536
    → Numeral 5 n port
    → read_host (host ++ 58 ∷ port) path
      ≡ endpoint (record { hostinfo = host ++ 58 ∷ port; pathinfo = path; host = host; port = n })
unfolding checked read_host
read_host-Numeral n host port path named dots small numeral =
    let (digits, some_digit, short, value) = numeral in
    rw (read_host, match_host-Numeral n host port numeral dots, value, lt→ltb n 65536 small, named)
      refl

-- Characters that stand for themselves: neither '%' nor '+'.
abbrev pub IsItself : ℕ → Type 0
IsItself c = ((c == 37) ≡ false) × ((c == 43) ≡ false)

Encodes-itself : (read_hex : Text → Option ℕ) (s : Text) → All IsItself s → Encodes read_hex s s
Encodes-itself read_hex [] h = nothing
Encodes-itself read_hex (c ∷ s) ((percent, plus), h) =
    itself percent plus (Encodes-itself read_hex s h)

digits-IsItself : (s : Text) → all_digits s ≡ true → All IsItself s
unfolding all_digits
digits-IsItself [] h = tt
digits-IsItself (c ∷ s) h = ((ground arith, ground arith), digits-IsItself s (ground arith))

append-IsItself : (a b : Text) → All IsItself a → All IsItself b → All IsItself (a ++ b)
append-IsItself [] b ha hb = hb
append-IsItself (c ∷ a) b (h, ha) hb = (h, append-IsItself a b ha hb)

decode-Encodes :
    (read_hex : Text → Option ℕ) (s t : Text) → Encodes read_hex s t → decode_or_keep read_hex s ≡ t
unfolding decode_or_keep
decode-Encodes read_hex s t h = rw (decode_or_keep, url_decode_lem read_hex s t h) refl

-- An address that is written as a host in lower case, without '/', '%', '+' or line ends, a port below
-- 65536 in decimal, and a path, empty or from a '/' on, is read back as just these, the path as the text
-- of which it is an encoding.
pub read_url-written :
    (read_hex : Text → Option ℕ) (host path text : Text) (port : ℕ)
    → is_empty host ≡ false
    → NoSlash host
    → All IsItself host
    → all_dots host ≡ true
    → map to_lower host ≡ host
    → split_path path ≡ ([], path)
    → Encodes read_hex path text
    → port < 65536
    → read_url read_hex ((host ++ 58 ∷ port_text port) ++ path)
      ≡ endpoint (record {
        hostinfo = host ++ 58 ∷ port_text port;
        pathinfo = text;
        host = host;
        port = port;
      })
unfolding read_url digits_text decoded
read_url-written read_hex host path text port named no_slash plain dots lower opens encodes small =
    let numeral : Numeral 5 port (port_text port) = digits_text-Numeral 4 port (omega arith) in
    let front = host ++ 58 ∷ port_text port in
    let front_plain : All IsItself front =
      append-IsItself host (58 ∷ port_text port) plain
        ((refl, refl), digits-IsItself (port_text port) numeral.0) in
    rw
      (
        read_url,
        split_path-none front path (front-NoSlash host (port_text port) no_slash numeral.0) opens,
        map-to_lower-append host (58 ∷ port_text port),
        lower,
        map-to_lower-digits (port_text port) numeral.0,
        read_host-Numeral port host (port_text port) path named dots small numeral,
        decode-Encodes read_hex front front (Encodes-itself read_hex front front_plain),
        decode-Encodes read_hex path text encodes,
      )
      refl
