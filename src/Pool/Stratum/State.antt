-- ===== src/Pool/Stratum/State.antt =====
-- libpool/stratum/EthStratumClient.h: the members of class EthStratumClient, what it asks of others, and
-- how its code runs.
use etcminer.Prelude.{ℕ, Bool, false, not, ◌&&◌, ◌||◌, List, ◌∷◌, Option, some, none, Text}
use etcminer.Dev.Float.{Float}
use etcminer.Eth.Work.{WorkPackage}
use etcminer.Pool.Uri.{Uri}
use etcminer.Pool.Session.{Session}
use etcminer.Pool.JsonCpp.{Field}

-- An outgoing message: the members of the JSON object.
abbrev pub Request : Type 0
Request = List (Text × Field)

-- What the client asks of the io_service, of the sockets and of its handlers. Tasks and asynchronous
-- operations run later, as calls of the functions that they name.
pub data Effect : Type 0 where
  posts_disconnect posts_disconnect_finalize posts_start_connect posts_login_failure : Effect
  resolves starts_connecting starts_shutdown starts_reading : Effect
  writes : List Request → Effect
  arms_timer stops_timer : Effect
  calls_connected calls_disconnected : Effect
  calls_work : WorkPackage → Effect
  calls_accepted : ℕ → ℕ → Bool → Effect
  calls_rejected : ℕ → ℕ → Effect

-- The members, and the URI object behind m_conn, which is set while the client is in use. `socket` is
-- m_socket with whether it is open; a secure stream is open when its socket is. An endpoint is a
-- number. Time stamps are in milliseconds.
pub record StratumClient : Type 0 where
  pub disconnecting : Bool
  pub connecting : Bool
  pub authpending : Bool
  pub connected : Bool
  pub worktimeout : ℕ
  pub responsetimeout : ℕ
  pub current : WorkPackage
  pub current_timestamp : ℕ
  pub socket : Option Bool
  pub message : Text
  pub newjobprocessed : Bool
  pub pleas_count : ℕ
  pub plea_older : ℕ
  pub plea_times : List ℕ
  pub tx_pending : Bool
  pub tx_queue : List Request
  pub endpoints : List ℕ
  pub endpoint : Option ℕ
  pub solution_submitted_max_id : ℕ  -- unsigned
  pub session : Option Session
  pub uri : Uri
  pub effects : List Effect

-- What the code around the client supplies: the program's name, the steady clock, numerals in base 16 as
-- the standard library reads them, with none for its exceptions, and floating point computations.
pub record Env : Type 0 where
  pub project_name : Text
  pub now : ℕ
  pub stoi : Text → Option ℕ
  pub stoul : Text → Option ℕ
  pub stoull : Text → Option ℕ
  pub target_from_diff : Float → Text
  pub is_nonzero : Float → Bool

abbrev pub emit : Effect → StratumClient → StratumClient
emit e c = record c { effects = e ∷ c.effects }

abbrev pub set_uri : Uri → StratumClient → StratumClient
set_uri u c = record c { uri = u }

-- How code ends: with a value, with an exception that the reading of messages catches, or with one that
-- nothing catches.
pub data Result (A : Type 0) : Type 0 where
  ok : A → Result A
  thrown uncaught : Result A

-- Code that changes the client and may throw: what was written stays written.
abbrev pub Action : Type 0 → Type 0
Action A = StratumClient → StratumClient × Result A

module _ {A : Type 0} where
  unfoldable pub pure : A → Action A
  pure a c = (c, ok a)

  -- A call of a library that may throw.
  unfoldable pub attempt : Option A → Action A
  attempt none c = (c, thrown)
  attempt (some a) c = (c, ok a)

  unfoldable pub gets : (StratumClient → A) → Action A
  gets f c = (c, ok (f c))

unfoldable pub modify : (StratumClient → StratumClient) → Action (Unit {0})
modify f c = (f c, ok tt)

infixl 5 ◌>>=◌ ◌>>◌
unfoldable pub ◌>>=◌ : {A B : Type 0} → Action A → (A → Action B) → Action B
◌>>=◌ m f c =
    let (c', r) = m c in
    elim r [ ok a ↦ f a c' | thrown ↦ (c', thrown) | uncaught ↦ (c', uncaught) ]

abbrev pub ◌>>◌ : {A B : Type 0} → Action A → Action B → Action B
m >> k = m >>= λ _. k

-- isPendingState, isConnected, isSubscribed and isAuthorized
unfoldable pub is_pending_state : StratumClient → Bool
is_pending_state c = c.connecting || c.disconnecting

unfoldable pub is_connected : StratumClient → Bool
is_connected c = c.connected && not (c.connecting || c.disconnecting)

unfoldable pub is_subscribed : StratumClient → Bool
is_subscribed c = elim c.session [ none ↦ false | some s ↦ s.subscribed ]

unfoldable pub is_authorized : StratumClient → Bool
is_authorized c = elim c.session [ none ↦ false | some s ↦ s.authorized ]

-- A write to the session; without one it is undefined, and stands as an exception.
unfoldable pub on_session : (Session → Session) → Action (Unit {0})
on_session f c = elim c.session [
  | none ↦ (c, thrown)
  | some s ↦ (record c { session = some (f s) }, ok tt)
]
