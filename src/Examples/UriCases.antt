-- ===== src/Examples/UriCases.antt =====
-- The decoding of an address at a concrete text.
use etcminer.Prelude.{ℕ, ◌++◌, arith, ◌≡◌, refl, [], ◌∷◌, Option, some, none, Text, codes, All}
use etcminer.Dev.Hex.{hex_digit, hex_pair}
use etcminer.Pool.Uri.{port_text}
use etcminer.Pool.Host.{split_path, all_dots, endpoint, read_url}
use etcminer.Pool.Host.RoundTrip.{IsItself, read_url-written}
use etcminer.Pool.UrlCode.{url_decode, Encodes, nothing, itself, space, escape, url_decode_lem}

-- Two hexadecimal digits.
abbrev read_two : Text → Option ℕ
read_two [] = none
read_two (a ∷ []) = none
read_two (a ∷ b ∷ []) = hex_pair (hex_digit a) (hex_digit b)
read_two (a ∷ b ∷ c ∷ s) = none

encoded_text : Encodes read_two (codes "a+%40") (codes "a @")
unfolding hex_pair hex_digit
encoded_text = itself refl refl (space (escape refl nothing))

url_decode_lem_example : url_decode read_two (codes "a+%40") ≡ some (codes "a @")
url_decode_lem_example = url_decode_lem read_two (codes "a+%40") (codes "a @") encoded_text

plain_host : All IsItself (codes "pool.org")
plain_host = (
  (refl, refl),
  (
    (refl, refl),
    (
      (refl, refl),
      ((refl, refl), ((refl, refl), ((refl, refl), ((refl, refl), ((refl, refl), tt))))),
    ),
  ),
)

read_url-written_example :
    read_url read_two ((codes "pool.org" ++ 58 ∷ port_text 4444) ++ codes "/a+%40")
    ≡ endpoint (record {
      hostinfo = codes "pool.org" ++ 58 ∷ port_text 4444;
      pathinfo = codes "/a @";
      host = codes "pool.org";
      port = 4444;
    })
unfolding split_path all_dots
read_url-written_example =
    read_url-written read_two (codes "pool.org") (codes "/a+%40") (codes "/a @") 4444 refl
      (refl, (refl, (refl, (refl, (refl, (refl, (refl, (refl, tt)))))))) plain_host refl refl refl
      (itself refl refl encoded_text) (omega arith)
