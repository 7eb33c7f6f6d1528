-- ===== src/Pool/Stratum/Envelope.antt =====
-- The start of processResponse, in EthStratumClient.cpp: what every message is read for.
use etcminer.Prelude.{
  ℕ, Bool, true, false, not, ◌&&◌, ◌||◌, [], Option, some, none, Text, codes, text_eq, ◌==◌,
  if◌then◌else◌, is_empty,
}
use etcminer.Pool.JsonCpp.{JsonCpp, member_text, process_error}

-- The values that processResponse retrieves first.
pub record Envelope : Type 0 where
  pub is_rpc2 : Bool
  pub is_valid : Bool
  pub id : ℕ
  pub is_success : Bool
  pub method : Text
  pub is_notification : Bool

infixl 5 ◌>>=◌
abbrev ◌>>=◌ : {A B : Type 0} → Option A → (A → Option B) → Option B
none >>= k = none
some a >>= k = k a

module _ {J : Type 0} (json : JsonCpp J) where
  -- A test of a member, which is null where it is missing.
  unfoldable pub holds : (J → Bool) → Bool → Option J → Bool
  holds p missing none = missing
  holds p missing (some v) = p v

  -- get("id", 0).asUInt()
  unfoldable pub read_id : Option J → Option ℕ
  read_id none = some 0
  read_id (some v) = json.as_uint v

  -- responseObject.get("jsonrpc", "") is not the text "2.0".
  unfoldable pub is_bad_rpc : Option J → Option Bool
  is_bad_rpc none = some false
  is_bad_rpc (some v) =
      if json.is_string v
      then (do some (not (text_eq (← json.as_string v) (codes "2.0"))))
      else some true

  -- The reason of an error, which is only logged, but whose reading may throw.
  unfoldable pub read_reason : Bool → J → Option Text
  read_reason success msg = if success then some [] else process_error json msg

  unfoldable pub read_envelope : ℕ → J → Option Envelope
  read_envelope mode msg = do
    rpc ← json.member msg (codes "jsonrpc")
    id_value ← json.member msg (codes "id")
    number ← read_id id_value
    error ← json.member msg (codes "error")
    let success = holds json.is_empty_value true error
    reason ← read_reason success msg
    name ← member_text json msg (codes "method")
    result ← json.member msg (codes "result")
    params ← json.member msg (codes "params")
    bad_rpc ← is_bad_rpc rpc
    let notification = not (is_empty name) || (number == 0)
    let proxied =
        notification && (is_empty name && ((mode == 1) && holds json.is_array false result))
    let nothing =
        notification
        && (holds json.is_empty_value true params && holds json.is_empty_value true result)
    some (record {
      is_rpc2 = holds (λ v. true) false rpc;
      is_valid = not (bad_rpc || nothing);
      id = number;
      is_success = success;
      method = if proxied then codes "mining.notify" else name;
      is_notification = notification;
    })
