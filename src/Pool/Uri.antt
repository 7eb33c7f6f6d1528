-- ===== src/Pool/Uri.antt =====
-- libpool/PoolURI.h: the members of class URI, and the operations that change or combine them.
use etcminer.Prelude.{
  ℕ, zero, suc, ◌+◌, ◌/◌, ◌%◌, Bool, true, ◌&&◌, [], ◌∷◌, ◌++◌, Text, codes, ltb, leb, text_eq, map,
  if◌then◌else◌, is_empty, u64,
}
use etcminer.Pool.Scheme.{ProtocolFamily, SecureLevel, attributes}

-- enum class UriHostNameType
pub data HostNameType : Type 0 where
  unknown basic dns ipv4 ipv6 : HostNameType

-- class URI
pub record Uri : Type 0 where
  pub scheme : Text
  pub authority : Text
  pub userinfo : Text
  pub urlinfo : Text
  pub hostinfo : Text
  pub pathinfo : Text
  pub host : Text
  pub path : Text
  pub query : Text
  pub fragment : Text
  pub user : Text
  pub password : Text
  pub worker : Text
  pub uri : Text
  pub stratum_mode : ℕ  -- unsigned short
  pub port : ℕ  -- unsigned short
  pub stratum_mode_confirmed : Bool
  pub unrecoverable : Bool
  pub responds : Bool
  pub host_type : HostNameType
  pub is_loop_back : Bool
  pub total_duration : ℕ

abbrev pub family : Uri → ProtocolFamily
family u = (attributes u.scheme).family

abbrev pub sec_level : Uri → SecureLevel
sec_level u = (attributes u.scheme).secure

abbrev pub version : Uri → ℕ
version u = (attributes u.scheme).version

unfoldable pub user_dot_worker : Uri → Text
user_dot_worker u = if is_empty u.worker then u.user else u.user ++ codes "." ++ u.worker

-- SetStratumMode, with and without the confirmation.
unfoldable pub confirm_stratum_mode : ℕ → Bool → Uri → Uri
confirm_stratum_mode mode confirmed u = record u {
  stratum_mode = mode % 65536;
  stratum_mode_confirmed = confirmed;
}

unfoldable pub set_stratum_mode : ℕ → Uri → Uri
set_stratum_mode mode u = record u { stratum_mode = mode % 65536 }

unfoldable pub mark_unrecoverable : Uri → Uri
mark_unrecoverable u = record u { unrecoverable = true }

unfoldable pub set_responds : Bool → Uri → Uri
set_responds b u = record u { responds = b }

unfoldable pub add_duration : ℕ → Uri → Uri
add_duration minutes u = record u { total_duration = u64 (u.total_duration + minutes) }

-- to_lower of one character, in the classic locale.
abbrev pub to_lower : ℕ → ℕ
to_lower c = if leb 65 c && leb c 90 then c + 32 else c

-- boost::iequals
unfoldable pub iequals : Text → Text → Bool
iequals a b = text_eq (map to_lower a) (map to_lower b)

-- to_string of a number, on fuel for its digits.
unfoldable pub digits_text : ℕ → ℕ → Text
digits_text zero n = []
digits_text (suc fuel) n =
    let rest = digits_text fuel (n / 10) in
    if ltb n 10 then (48 + n) ∷ [] else rest ++ (48 + n % 10) ∷ []

-- A port has five digits at most.
abbrev pub port_text : ℕ → Text
port_text n = digits_text 5 n
