-- ===== src/Pool/UrlCode.antt =====
-- url_decode of libpool/PoolURI.cpp, and the parts of an address that URI::URI decodes by it.
use etcminer.Prelude.{ℕ, ◌≡◌, refl, false, [], ◌∷◌, Option, some, none, Text, ◌==◌, if◌then◌else◌}
use etcminer.Pool.Uri.{Uri}

-- A '+' stands for a space, another character for itself.
unfoldable pub plain : ℕ → ℕ
plain c = if c == 43 then 32 else c

unfoldable pub cons_char : Option ℕ → Option Text → Option Text
cons_char (some c) (some s) = some (c ∷ s)
cons_char (some c) none = none
cons_char none s = none

-- `read_hex` is what a stream of two characters gives for `is >> hex >> value`, as the char that the
-- value is cast to; a '%' with fewer than two characters after it is an error.
unfoldable pub url_decode : (Text → Option ℕ) → Text → Option Text
url_decode read_hex [] = some []
url_decode read_hex (c ∷ []) = if c == 37 then none else some (plain c ∷ [])
url_decode read_hex (c ∷ a ∷ []) =
    let next = url_decode read_hex (a ∷ []) in
    if c == 37 then none else cons_char (some (plain c)) next
url_decode read_hex (c ∷ a ∷ b ∷ s) =
    let next = url_decode read_hex (a ∷ b ∷ s) in
    let after = url_decode read_hex s in
    if c == 37 then cons_char (read_hex (a ∷ b ∷ [])) after else cons_char (some (plain c)) next

-- if (url_decode(m_x, tmpStr)) m_x = tmpStr;
unfoldable pub decode_or_keep : (Text → Option ℕ) → Text → Text
decode_or_keep read_hex s = elim (url_decode read_hex s) [ none ↦ s | some t ↦ t ]

-- The end of URI::URI: the parts are decoded, each of them by itself.
unfoldable pub decode_parts : (Text → Option ℕ) → Uri → Uri
decode_parts read_hex u = record u {
  userinfo = decode_or_keep read_hex u.userinfo;
  urlinfo = decode_or_keep read_hex u.urlinfo;
  hostinfo = decode_or_keep read_hex u.hostinfo;
  pathinfo = decode_or_keep read_hex u.pathinfo;
  path = decode_or_keep read_hex u.path;
  query = decode_or_keep read_hex u.query;
  fragment = decode_or_keep read_hex u.fragment;
  user = decode_or_keep read_hex u.user;
  password = decode_or_keep read_hex u.password;
  worker = decode_or_keep read_hex u.worker;
}

-- Which texts stand for which, by the rules of form encoding.
pub data Encodes (read_hex : Text → Option ℕ) : Text → Text → Type 0 where
  nothing : Encodes read_hex [] []
  itself :
      {c : ℕ} {s t : Text}
      → (c == 37) ≡ false
      → (c == 43) ≡ false
      → Encodes read_hex s t
      → Encodes read_hex (c ∷ s) (c ∷ t)
  space : {s t : Text} → Encodes read_hex s t → Encodes read_hex (43 ∷ s) (32 ∷ t)
  escape :
      {a b v : ℕ} {s t : Text}
      → read_hex (a ∷ b ∷ []) ≡ some v
      → Encodes read_hex s t
      → Encodes read_hex (37 ∷ a ∷ b ∷ s) (v ∷ t)

url_decode-plain :
    (read_hex : Text → Option ℕ) (c : ℕ) (s : Text)
    → (c == 37) ≡ false
    → url_decode read_hex (c ∷ s) ≡ cons_char (some (plain c)) (url_decode read_hex s)
unfolding url_decode cons_char
url_decode-plain read_hex c [] h = rw h refl
url_decode-plain read_hex c (a ∷ []) h = rw h refl
url_decode-plain read_hex c (a ∷ b ∷ s) h = rw h refl

url_decode-escape :
    (read_hex : Text → Option ℕ) (a b : ℕ) (s : Text)
    → url_decode read_hex (37 ∷ a ∷ b ∷ s)
      ≡ cons_char (read_hex (a ∷ b ∷ [])) (url_decode read_hex s)
unfolding url_decode
url_decode-escape read_hex a b s = refl

-- url_decode gives back every text from any encoding of it.
pub url_decode_lem :
    (read_hex : Text → Option ℕ) (s t : Text)
    → Encodes read_hex s t
    → url_decode read_hex s ≡ some t
unfolding url_decode cons_char plain
url_decode_lem read_hex _ _ nothing = refl
url_decode_lem read_hex _ _ (itself {c} {s} {t} e f rest) =
    rw (url_decode-plain read_hex c s e, url_decode_lem read_hex s t rest, f) refl
url_decode_lem read_hex _ _ (space {s} {t} rest) =
    rw (url_decode-plain read_hex 43 s refl, url_decode_lem read_hex s t rest) refl
url_decode_lem read_hex _ _ (escape {a} {b} {v} {s} {t} e rest) =
    rw (url_decode-escape read_hex a b s, e, url_decode_lem read_hex s t rest) refl
