-- ===== src/Pool/Stratum/Detection/Steps.antt =====
-- The functions that one attempt of the detection of the stratum mode runs through, in EthStratumClient.cpp.
use etcminer.Prelude.{
  ℕ, suc, ◌-◌, ◌≡◌, ap, refl, arith, Bool, true, false, not, ◌&&◌, List, [], ◌∷◌, Option, some,
  none, ltb, ◌==◌, if◌then◌else◌, Bool-cases, inl, inr,
}
use etcminer.Pool.Uri
use etcminer.Pool.Uri.{Uri}
use etcminer.Pool.Session.{Session}
use etcminer.Pool.JsonCpp.{JsonCpp}
use etcminer.Pool.Stratum.State.{
  ◌>>=◌, modify, gets, Request, StratumClient, Env, starts_shutdown, emit, set_uri,
  posts_start_connect,
}
use etcminer.Pool.Stratum.Pleas.{
  enqueue_response_plea, dequeue_response_plea, clear_response_pleas, pop_plea,
}
use etcminer.Pool.Stratum.Sending.{send, send_socket_data}
use etcminer.Pool.Stratum.Connecting.{
  is_secure, is_open, close_socket, with_socket, try_endpoint, start_connect, settle_mode, log_in,
  connect_handler, disconnect, disconnect_finalize, release_session, give_up, is_detecting,
  on_ssl_shutdown_completed,
}
use etcminer.Pool.Stratum.Login.{on_first_response, post_disconnect, answered}

-- What decides how a connection goes on.
pub record View : Type 0 where
  pub uri : Uri
  pub socket : Option Bool
  pub connecting : Bool
  pub disconnecting : Bool
  pub endpoints : List ℕ
  pub session : Option Session

abbrev pub view : StratumClient → View
view c = record {
  uri = c.uri;
  socket = c.socket;
  connecting = c.connecting;
  disconnecting = c.disconnecting;
  endpoints = c.endpoints;
  session = c.session;
}

pub send-view : (r : Request) (c : StratumClient) → view (send r c) ≡ view c
unfolding send send_socket_data
send-view r c = ground arith

pub dequeue-view : (now : ℕ) (c : StratumClient) → view (dequeue_response_plea now c).0 ≡ view c
unfolding dequeue_response_plea pop_plea
dequeue-view now c = ground arith

pub try_endpoint-view :
    (now e : ℕ) (c : StratumClient)
    → view (try_endpoint now e c) ≡ record (view c) { socket = some true; connecting = true }
unfolding try_endpoint with_socket enqueue_response_plea clear_response_pleas
try_endpoint-view now e c = ground arith

pub log_in-view :
    (env : Env) (c : StratumClient)
    → view (log_in env c) ≡ record (view c) { uri = settle_mode c.uri }
unfolding log_in enqueue_response_plea clear_response_pleas
log_in-view env c = send-view _ _

pub response-view :
    {J : Type 0} (json : JsonCpp J) (env : Env) (v : J) (c : StratumClient)
    → c.uri.stratum_mode_confirmed ≡ false
    → view (on_first_response json env false v c).0 ≡ view c
unfolding on_first_response answered post_disconnect ◌>>=◌ modify gets
response-view json env v c undecided =
    let same : (dequeue_response_plea env.now c).0.uri ≡ c.uri =
      ap (λ (w : View). w.uri) (dequeue-view env.now c) in
    let test : not (dequeue_response_plea env.now c).0.uri.stratum_mode_confirmed ≡ true =
      rw (same, undecided) refl in
    rw test (dequeue-view env.now c)

-- The mode that is tried first, or now.
abbrev pub first_mode : Uri → ℕ
first_mode u = if u.stratum_mode == 999 then 3 else u.stratum_mode

-- The URI when a connection was made.
abbrev pub tried : Uri → Uri
tried u = record u { responds = true; stratum_mode_confirmed = false; stratum_mode = first_mode u }

-- What an answer to the first message starts from: a connection that was made, in the mode `m`, while
-- the mode is being detected.
pub record IsTrying (m : ℕ) (w : View) : Type 0 where
  pub detects : Uri.version w.uri ≡ 999
  pub undecided : w.uri.stratum_mode_confirmed ≡ false
  pub usable : w.uri.unrecoverable ≡ false
  pub mode : first_mode w.uri ≡ m
  pub idle : w.connecting ≡ false
  pub staying : w.disconnecting ≡ false
  pub fresh : w.session ≡ none
  pub somewhere : (e : ℕ) × (es : List ℕ) × (w.endpoints ≡ e ∷ es)

-- start_connect and connect_handler for a connection that succeeds.
abbrev pub connects : Env → StratumClient → StratumClient
connects env c = connect_handler env false false (start_connect env.now c)

-- disconnect, and its end after the shutdown of a TLS stream.
abbrev pub disconnects : Env → StratumClient → StratumClient
disconnects env c =
    let d = disconnect env.now c in
    if is_secure c && is_open c
    then disconnect_finalize env.now (on_ssl_shutdown_completed env.now d)
    else d

pub start-runs :
    (now e : ℕ) (es : List ℕ) (c : StratumClient)
    → c.connecting ≡ false
    → c.endpoints ≡ e ∷ es
    → start_connect now c ≡ try_endpoint now e c
unfolding start_connect
start-runs now e es c idle there = simp (idle, there)

pub no_error : (b : Bool) → (b && false) ≡ false
no_error true = refl
no_error false = refl

-- The client when the connection is made.
abbrev pub connected : StratumClient → StratumClient
connected c = record c {
  connecting = false;
  uri = Uri.set_responds true c.uri;
  connected = true;
  message = [];
  tx_queue = [];
}

pub handler-runs :
    (env : Env) (c : StratumClient)
    → c.socket ≡ some true
    → connect_handler env false false c ≡ log_in env (connected c)
unfolding connect_handler is_open is_secure log_in
handler-runs env c up = simp (up, no_error (is_secure (connected c)))

pub release_session-none :
    (now : ℕ) (c : StratumClient) → c.session ≡ none → release_session now c ≡ c
unfolding release_session
release_session-none now c fresh = ground arith

-- The client when its connection is closed.
abbrev pub closed : StratumClient → StratumClient
closed c = record c {
  socket = none;
  authpending = false;
  disconnecting = false;
  tx_pending = false;
}

pub finalize-again :
    (now : ℕ) (c : StratumClient) (k : ℕ)
    → c.session ≡ none
    → is_detecting c.uri ≡ true
    → c.uri.stratum_mode ≡ suc k
    → disconnect_finalize now c
      ≡ emit posts_start_connect (set_uri (Uri.set_stratum_mode k c.uri) (closed c))
unfolding disconnect_finalize
finalize-again now c k fresh detecting mode =
    let some_mode : ltb 0 c.uri.stratum_mode ≡ true = ground (arith, mode) in
    let less : c.uri.stratum_mode - 1 ≡ k = omega (arith, mode) in
    let kept = release_session-none now c fresh in simp (kept, detecting, some_mode, less)

pub finalize-ends :
    (now : ℕ) (c : StratumClient)
    → c.session ≡ none
    → is_detecting c.uri ≡ true
    → c.uri.stratum_mode ≡ 0
    → disconnect_finalize now c ≡ give_up now (set_uri (Uri.mark_unrecoverable c.uri) (closed c))
unfolding disconnect_finalize
finalize-ends now c fresh detecting mode =
    let no_mode : ltb 0 c.uri.stratum_mode ≡ false = ground (arith, mode) in
    simp (release_session-none now c fresh, detecting, no_mode)

abbrev pub leaving : StratumClient → StratumClient
leaving c = record c { disconnecting = true; connected = false }

-- What disconnect_finalize runs on, after the shutdown of a stream that is secure or without it.
abbrev pub shut : ℕ → Bool → StratumClient → StratumClient
shut now b c =
    if b
    then on_ssl_shutdown_completed now
        (enqueue_response_plea now (emit starts_shutdown (leaving c)))
    else close_socket (leaving c)

pub disconnect-runs :
    (now : ℕ) (c : StratumClient)
    → c.disconnecting ≡ false
    → c.socket ≡ some true
    → disconnect now c ≡ (
        if is_secure c
        then enqueue_response_plea now (emit starts_shutdown (leaving c))
        else disconnect_finalize now (close_socket (leaving c)))
unfolding disconnect is_open is_secure
disconnect-runs now c staying up = simp (staying, up)

pub under_test :
    (f g : StratumClient → StratumClient) (b o : Bool) (d x y : StratumClient)
    → o ≡ true
    → d ≡ (if b then x else f y)
    → (if b && o then f (g d) else d) ≡ f (if b then g x else y)
under_test f g true o d x y up e = rw up (ap (λ t. f (g t)) e)
under_test f g false o d x y up e = e

pub disconnects-runs :
    (env : Env) (c : StratumClient)
    → c.disconnecting ≡ false
    → c.socket ≡ some true
    → disconnects env c ≡ disconnect_finalize env.now (shut env.now (is_secure c) c)
disconnects-runs env c staying up =
    under_test (disconnect_finalize env.now) (on_ssl_shutdown_completed env.now) (is_secure c)
      (is_open c) (disconnect env.now c)
      (enqueue_response_plea env.now (emit starts_shutdown (leaving c))) (close_socket (leaving c))
      (unfold is_open in rw up refl) (disconnect-runs env.now c staying up)

pub shut-view :
    (now : ℕ) (b : Bool) (c : StratumClient)
    → record (view (shut now b c)) { socket = none; disconnecting = false }
      ≡ record (view c) { socket = none; disconnecting = false }
unfolding on_ssl_shutdown_completed close_socket enqueue_response_plea clear_response_pleas
shut-view now true c = refl
shut-view now false c = ground arith

pub settle_mode-tried :
    (u : Uri)
    → Uri.version u ≡ 999
    → u.stratum_mode_confirmed ≡ false
    → settle_mode (Uri.set_responds true u) ≡ tried u
unfolding settle_mode Uri.confirm_stratum_mode Uri.set_responds
settle_mode-tried u detects undecided =
    let free : ltb (Uri.version u) 999 ≡ false = rw detects refl in
    elim (Bool-cases (u.stratum_mode == 999)) [
      | inl e ↦ simp (free, undecided, e)
      | inr e ↦ simp (free, undecided, e) refl
    ]
