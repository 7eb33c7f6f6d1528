-- ===== src/Pool/Scheme.antt =====
-- libpool/PoolURI.cpp and PoolURI.h: the schemes of a pool's address and what each stands for.
use etcminer.Prelude.{
  ℕ, Bool, true, false, not, ◌&&◌, List, [], ◌∷◌, ◌++◌, Option, some, none, Text, codes, text_eq,
  ◌==◌, if◌then◌else◌,
}

-- enum class SecureLevel
pub data SecureLevel : Type 0 where
  plain tls : SecureLevel

-- enum class ProtocolFamily
pub data ProtocolFamily : Type 0 where
  getwork stratum simulation : ProtocolFamily

pub ProtocolFamily-discrete : Discrete ProtocolFamily
ProtocolFamily-discrete = hlevel

abbrev pub family_eq : ProtocolFamily → ProtocolFamily → Bool
family_eq getwork getwork = true
family_eq stratum stratum = true
family_eq simulation simulation = true
family_eq _ _ = false

-- struct SchemeAttributes
pub record SchemeAttributes : Type 0 where
  pub family : ProtocolFamily
  pub secure : SecureLevel
  pub version : ℕ

-- s_schemes, in the order of the map's keys.
unfoldable pub schemes : List (Text × SchemeAttributes)
schemes =
    (codes "getwork", record { family = getwork; secure = plain; version = 0 })
    ∷ (codes "http", record { family = getwork; secure = plain; version = 0 })
    ∷ (codes "simulation", record { family = simulation; secure = plain; version = 999 })
    ∷ (codes "stratum", record { family = stratum; secure = plain; version = 999 })
    ∷ (codes "stratum+ssl", record { family = stratum; secure = tls; version = 0 })
    ∷ (codes "stratum+tcp", record { family = stratum; secure = plain; version = 0 })
    ∷ (codes "stratum1+ssl", record { family = stratum; secure = tls; version = 1 })
    ∷ (codes "stratum1+tcp", record { family = stratum; secure = plain; version = 1 })
    ∷ (codes "stratum2+ssl", record { family = stratum; secure = tls; version = 2 })
    ∷ (codes "stratum2+tcp", record { family = stratum; secure = plain; version = 2 })
    ∷ (codes "stratum3+ssl", record { family = stratum; secure = tls; version = 3 })
    ∷ (codes "stratum3+tcp", record { family = stratum; secure = plain; version = 3 })
    ∷ (codes "stratums", record { family = stratum; secure = tls; version = 999 })
    ∷ []

-- s_schemes.find
unfoldable pub find_scheme : Text → List (Text × SchemeAttributes) → Option SchemeAttributes
find_scheme k [] = none
find_scheme k ((s, a) ∷ rest) = if text_eq s k then some a else find_scheme k rest

-- s_schemes[m_scheme]: a missing key reads value-initialised attributes.
unfoldable pub attributes : Text → SchemeAttributes
unfolding find_scheme schemes
attributes s = elim (find_scheme s schemes) [
  | none ↦ record { family = getwork; secure = plain; version = 0 }
  | some a ↦ a
]

-- The loop of KnownSchemes.
unfoldable pub list_schemes : ProtocolFamily → List (Text × SchemeAttributes) → Text
list_schemes f [] = []
list_schemes f ((s, a) ∷ rest) =
    let others = list_schemes f rest in
    if family_eq a.family f && not (a.version == 999) then s ++ codes " " ++ others else others

unfoldable pub known_schemes : ProtocolFamily → Text
unfolding list_schemes schemes
known_schemes f = list_schemes f schemes
