-- ===== src/Api/Requests.antt =====
-- The state of an ApiConnection, its answers, and the reading of a request's values, in
-- libapi/ApiServer.cpp.
use etcminer.Prelude.{
  ℕ, Bool, true, not, ◌++◌, List, Option, some, none, Text, codes, if◌then◌else◌,
}
use etcminer.Pool.JsonCpp.{JsonCpp}
use etcminer.Pool.Uri.{Uri}
use etcminer.Pool.Manager.State.{Address, Manager}
use etcminer.Pool.Manager.Api.{ConnectionEntry}

-- class ApiConnection, less its sockets and buffers.
pub record Connection : Type 0 where
  pub authenticated : Bool
  pub password : Text
  pub read_only : Bool

-- What a request asks of the system.
pub data Asked : Type 0 where
  posts_restart runs_reboot : Asked

-- What a request can change: the manager, which holds the farm, g_logOptions, and what was asked for.
pub record Program : Type 0 where
  pub manager : Manager
  pub log_options : ℕ
  pub asked : List Asked

-- What the code around the server supplies: the next place for a URI object, the constructor of URI with
-- none for an exception, whether the reboot script was started, and LOG_NEXT of the build.
pub record Env : Type 0 where
  pub fresh : Address
  pub make_uri : Text → Option Uri
  pub reboots : Bool
  pub log_next : ℕ

-- The rest of a response: an error by its code, without the minus sign, and message; a result; or neither.
pub data Reply : Type 0 where
  fails : ℕ → Text → Reply
  told : Bool → Reply
  pong stat1 stat_detail : Reply
  connections : List ConnectionEntry → Reply
  nonce : Text → Reply
  silent : Reply
  throws : Reply  -- an exception, which the caller turns into an error 500
  crashes : Reply  -- undefined behaviour

pub record Answer : Type 0 where
  pub connection : Connection
  pub program : Program
  pub reply : Reply

abbrev pub answer : Connection → Program → Reply → Answer
answer c p r = record { connection = c; program = p; reply = r }

-- What getRequestValue finds.
pub data Read (A : Type 0) : Type 0 where
  missing invalid empty threw : Read A
  found : A → Read A

-- The code and the message that getRequestValue writes.
unfoldable pub quoted : Text → Text → Reply
quoted what name = fails 32602 (what ++ codes " '" ++ name ++ codes "'")

-- A value that a request must have: the request ends where it cannot be read.
unfoldable pub demand : {A : Type 0} → Read A → Text → Connection → Program → (A → Answer) → Answer
demand missing name c p k = answer c p (quoted (codes "Missing") name)
demand invalid name c p k = answer c p (quoted (codes "Invalid type of value") name)
demand empty name c p k = answer c p (quoted (codes "Empty") name)
demand threw name c p k = answer c p throws
demand (found a) name c p k = k a

-- A value that cannot be read, under another error.
unfoldable pub demand_or :
    {A : Type 0} → Read A → Reply → Connection → Program → (A → Answer) → Answer
demand_or missing e c p k = answer c p e
demand_or invalid e c p k = answer c p e
demand_or empty e c p k = answer c p e
demand_or threw e c p k = answer c p throws
demand_or (found a) e c p k = k a

module _ {J : Type 0} (json : JsonCpp J) where
  -- The value of a member, by the test and the conversion of its type.
  unfoldable pub read_member : {A : Type 0} → (J → Bool) → (J → Option A) → Option J → Read A
  read_member is_type convert none = missing
  read_member is_type convert (some x) =
      if not (is_type x)
      then invalid
      else (if json.is_empty_value x
          then empty
          else elim (convert x) [ none ↦ threw | some a ↦ found a ])

  -- getRequestValue
  unfoldable pub get_request_value : {A : Type 0} → (J → Bool) → (J → Option A) → Text → J → Read A
  get_request_value is_type convert name v = elim (json.member v name) [
    | none ↦ threw
    | some o ↦ read_member is_type convert o
  ]

  unfoldable pub get_bool : Text → J → Read Bool
  get_bool name v = get_request_value json.is_bool json.as_bool name v

  unfoldable pub get_uint : Text → J → Read ℕ
  get_uint name v = get_request_value json.is_uint json.as_uint name v

  unfoldable pub get_object : Text → J → Read J
  get_object name v = get_request_value json.is_object (λ x. some x) name v

  unfoldable pub get_text : Text → J → Read Text
  get_text name v = get_request_value json.is_string json.as_string name v

  -- A conversion of the id, for the response.
  unfoldable pub copies : {A : Type 0} → Option A → Read Bool
  copies none = threw
  copies (some a) = found true

  unfoldable pub check_id : Option J → Read Bool
  check_id none = missing
  check_id (some x) =
      if json.is_empty_value x
      then missing
      else (if json.is_uint x
          then copies (json.as_uint x)
          else (if json.is_string x then copies (json.as_string x) else invalid))

  -- parseRequestId
  unfoldable pub parse_request_id : J → Read Bool
  parse_request_id v = elim (json.member v (codes "id")) [ none ↦ threw | some o ↦ check_id o ]
