-- ===== src/Pool/Host.antt =====
-- URI::URI of libpool/PoolURI.cpp, from the address without its user on: the host, the port and what
-- stands after them.
pub mod RoundTrip
use etcminer.Prelude.{
  ℕ, ◌+◌, ◌-◌, ◌*◌, Bool, true, false, not, ◌&&◌, ◌||◌, [], ◌∷◌, Option, some, none, Text, leb, ltb,
  ◌==◌, if◌then◌else◌, length, map, is_empty,
}
use etcminer.Pool.UrlCode.{decode_or_keep}
use etcminer.Pool.Uri.{to_lower}

-- A character in front of the first part.
abbrev pub cons_first : ℕ → Text × Text → Text × Text
cons_first c (a, b) = (c ∷ a, b)

-- m_urlinfo at the first '/', which opens the second part.
unfoldable pub split_path : Text → Text × Text
split_path [] = ([], [])
split_path (c ∷ s) = let rest = split_path s in if c == 47 then ([], c ∷ s) else cons_first c rest

-- The characters that '.' of a pattern matches: all but line ends.
unfoldable pub all_dots : Text → Bool
all_dots [] = true
all_dots (c ∷ s) = not (c == 10 || c == 13) && all_dots s

-- [0-9]
unfoldable pub all_digits : Text → Bool
all_digits [] = true
all_digits (c ∷ s) = (leb 48 c && leb c 57) && all_digits s

-- The text before and after the last ':'.
unfoldable pub split_colon : Text → Option (Text × Text)
split_colon [] = none
split_colon (c ∷ s) = elim (split_colon s) [
  | some p ↦ some (cons_first c p)
  | none ↦ if c == 58 then some ([], s) else none
]

-- The match of ^(.*)\:([0-9]{1,5})$, whose digits can hold no further ':'.
unfoldable pub match_host : Text → Option (Text × Text)
match_host s = elim (split_colon s) [
  | none ↦ none
  | some (host, port) ↦
      if (all_dots host && all_digits port) && (not (is_empty port) && leb (length port) 5)
      then some (host, port)
      else none
]

-- The number of a decimal numeral.
unfoldable pub decimal_from : ℕ → Text → ℕ
decimal_from n [] = n
decimal_from n (c ∷ s) = decimal_from (n * 10 + (c - 48)) s

-- The members that are read here. `port` is 0 where none is given, as in the class.
pub record Endpoint : Type 0 where
  pub hostinfo : Text
  pub pathinfo : Text
  pub host : Text
  pub port : ℕ

-- A result, the exception of lexical_cast<uint16_t>, or the one of a missing host.
pub data HostResult : Type 0 where
  endpoint : Endpoint → HostResult
  bad_lexical_cast missing_host : HostResult

unfoldable pub checked : Endpoint → HostResult
checked e = if is_empty e.host then missing_host else endpoint e

unfoldable pub read_host : Text → Text → HostResult
read_host hostinfo pathinfo = elim (match_host hostinfo) [
  | none ↦ checked (record { hostinfo = hostinfo; pathinfo = pathinfo; host = hostinfo; port = 0 })
  | some (host, port) ↦
      if ltb (decimal_from 0 port) 65536
      then checked (record {
        hostinfo = hostinfo;
        pathinfo = pathinfo;
        host = host;
        port = decimal_from 0 port;
      })
      else bad_lexical_cast
]

-- The end of URI::URI for these members: the host itself is not decoded.
unfoldable pub decoded : (Text → Option ℕ) → HostResult → HostResult
decoded read_hex (endpoint e) = endpoint (record e {
  hostinfo = decode_or_keep read_hex e.hostinfo;
  pathinfo = decode_or_keep read_hex e.pathinfo;
})
decoded read_hex bad_lexical_cast = bad_lexical_cast
decoded read_hex missing_host = missing_host

unfoldable pub read_url : (Text → Option ℕ) → Text → HostResult
unfolding decoded
read_url read_hex urlinfo =
    let (front, path) = split_path urlinfo in decoded read_hex (read_host (map to_lower front) path)
