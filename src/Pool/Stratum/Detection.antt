-- ===== src/Pool/Stratum/Detection.antt =====
-- The detection of the stratum mode: a pool that refuses the first message of each mode in turn.
mod Steps
use Steps.{
  View, view, try_endpoint-view, log_in-view, response-view, first_mode, tried, connects,
  disconnects, start-runs, connected, handler-runs, finalize-again, finalize-ends, shut,
  disconnects-runs, shut-view, settle_mode-tried, IsTrying,
}
use mathlib.Core.Path.{subst}
use etcminer.Prelude.{
  ℕ, zero, suc, ◌+◌, ◌-◌, ◌%◌, ◌<◌, ◌≤◌, ◌≡◌, ◌∙◌, sym, ap, refl, arith, Bool, true, false, not,
  ◌&&◌, ◌||◌, List, [], ◌∷◌, Option, some, none, Text, leb, ltb, ◌==◌, if◌then◌else◌, is_empty,
  Bool-cases, Option-cases, inl, inr,
}
use etcminer.Pool.Uri
use etcminer.Pool.Uri.{Uri}
use etcminer.Pool.Session.{Session}
use etcminer.Pool.JsonCpp.{JsonCpp}
use etcminer.Pool.Stratum.State.{
  Request, StratumClient, Env, Effect, starts_shutdown, emit, set_uri, posts_start_connect,
  calls_disconnected,
}
use etcminer.Pool.Stratum.Pleas.{
  enqueue_response_plea, dequeue_response_plea, clear_response_pleas, pop_plea,
}
use etcminer.Pool.Stratum.Sending.{send, send_socket_data}
use etcminer.Pool.Stratum.Connecting.{
  is_secure, is_open, close_socket, with_socket, try_endpoint, start_connect, settle_mode,
  login_request, log_in, connect_handler, disconnect, disconnect_finalize, release_session, give_up,
  is_detecting, on_ssl_shutdown_completed,
}
use etcminer.Pool.Stratum.Login.{on_first_response, post_disconnect, answered}

-- start_connect, connect_handler and the response to the first message, which is an error.
module _ {J : Type 0} (json : JsonCpp J) (env : Env) (v : J) where
  abbrev responded : StratumClient → StratumClient
  responded c = (on_first_response json env false v (connects env c)).0

  -- One attempt, which ends when the pool has refused the first message.
  abbrev pub refused : StratumClient → StratumClient
  refused c = disconnects env (responded c)

  -- The view after the response.
  responded-view :
      (c : StratumClient) {m : ℕ}
      → IsTrying m (view c)
      → view (responded c)
        ≡ record (view c) { uri = tried c.uri; socket = some true; connecting = false }
  responded-view c t =
      let (e, es, there) = t.somewhere in
      let started : start_connect env.now c ≡ try_endpoint env.now e c =
        start-runs env.now e es c t.idle there in
      let there_view = try_endpoint-view env.now e c in
      let up : (try_endpoint env.now e c).socket ≡ some true =
        ap (λ (w : View). w.socket) there_view in
      let handled : connects env c ≡ log_in env (connected (try_endpoint env.now e c)) =
        ap (connect_handler env false false) started
        ∙ handler-runs env (try_endpoint env.now e c) up in
      let settled = settle_mode-tried c.uri t.detects t.undecided in
      let seen : view (connects env c)
          ≡ record (view c) { uri = tried c.uri; socket = some true; connecting = false } =
        ap view handled
        ∙ log_in-view env (connected (try_endpoint env.now e c))
        ∙ ap
            (λ (w : View). record w {
              uri = settle_mode (Uri.set_responds true w.uri);
              connecting = false;
            })
            there_view
        ∙ ap (λ (u : Uri). record (view c) { uri = u; socket = some true; connecting = false })
            settled in
      response-view json env v (connects env c)
        (ap (λ (w : View). w.uri.stratum_mode_confirmed) seen)
      ∙ seen

  detecting : (u : Uri) → u.unrecoverable ≡ false → is_detecting (tried u) ≡ true
  unfolding is_detecting
  detecting u usable = rw usable refl

  -- What disconnect_finalize runs on.
  abbrev shutting : StratumClient → StratumClient
  shutting c = shut env.now (is_secure (responded c)) (responded c)

  refused-runs :
      (c : StratumClient) {m : ℕ}
      → IsTrying m (view c)
      → (refused c ≡ disconnect_finalize env.now (shutting c))
        × (record (view (shutting c)) { socket = none; disconnecting = false } ≡ record (view c) {
          uri = tried c.uri;
          socket = none;
          connecting = false;
          disconnecting = false;
        })
  refused-runs c t =
      let seen = responded-view c t in
      (
        disconnects-runs env (responded c) (ap (λ (w : View). w.disconnecting) seen ∙ t.staying)
            (ap (λ (w : View). w.socket) seen),
        shut-view env.now (is_secure (responded c)) (responded c)
            ∙ ap (λ (w : View). record w { socket = none; disconnecting = false }) seen,
      )

  -- What disconnect_finalize meets.
  shutting-detects :
      (c : StratumClient) {m : ℕ}
      → IsTrying m (view c)
      → ((shutting c).session ≡ none)
        × (is_detecting (shutting c).uri ≡ true)
        × ((shutting c).uri.stratum_mode ≡ m)
  shutting-detects c t =
      let (runs, seen) = refused-runs c t in
      let same : (shutting c).uri ≡ tried c.uri = ap (λ (w : View). w.uri) seen in
      (
        ap (λ (w : View). w.session) seen ∙ t.fresh,
        ap is_detecting same ∙ detecting c.uri t.usable,
        ap (λ (u : Uri). u.stratum_mode) same ∙ t.mode,
      )

  next_mode : (k : ℕ) (u : Uri) → k < 999 → first_mode (Uri.set_stratum_mode k u) ≡ k
  unfolding Uri.set_stratum_mode
  next_mode k u small =
      let whole : k % 65536 ≡ k = omega arith in
      let other : (k == 999) ≡ false = ground arith in rw (whole, other) refl

  IsTrying-next :
      (w : View) (k : ℕ)
      → k < 999
      → IsTrying (suc k) w
      → IsTrying k (record w {
        uri = Uri.set_stratum_mode k (tried w.uri);
        socket = none;
        connecting = false;
        disconnecting = false;
      })
  unfolding Uri.set_stratum_mode
  IsTrying-next w k small t = record {
    detects = t.detects;
    undecided = refl;
    usable = t.usable;
    mode = next_mode k (tried w.uri) small;
    idle = refl;
    staying = refl;
    fresh = t.fresh;
    somewhere = t.somewhere;
  }

  -- The next mode is tried.
  refused-again :
      (c : StratumClient) (k : ℕ)
      → k < 999
      → IsTrying (suc k) (view c)
      → ((es : List Effect) × ((refused c).effects ≡ posts_start_connect ∷ es))
        × IsTrying k (view (refused c))
  refused-again c k small t =
      let (runs, seen) = refused-runs c t in
      let (fresh, detects, mode) = shutting-detects c t in
      let out = runs ∙ finalize-again env.now (shutting c) k fresh detects mode in
      let next =
        ap view out ∙ ap (λ (w : View). record w { uri = Uri.set_stratum_mode k w.uri }) seen in
      (
        ((shutting c).effects, ap (λ (d : StratumClient). d.effects) out),
        subst (IsTrying k) (sym next) (IsTrying-next (view c) k small t),
      )

  -- No mode is left.
  refused-ends :
      (c : StratumClient)
      → IsTrying 0 (view c)
      → ((es : List Effect) × ((refused c).effects ≡ calls_disconnected ∷ es))
        × ((refused c).uri.unrecoverable ≡ true)
  unfolding give_up clear_response_pleas Uri.mark_unrecoverable
  refused-ends c t =
      let (runs, seen) = refused-runs c t in
      let (fresh, detects, mode) = shutting-detects c t in
      let out = runs ∙ finalize-ends env.now (shutting c) fresh detects mode in
      (
        (_, ap (λ (d : StratumClient). d.effects) out),
        ap (λ (d : StratumClient). d.uri.unrecoverable) out,
      )

  -- Several attempts, one after the other.
  abbrev pub attempts : ℕ → StratumClient → StratumClient
  attempts zero c = c
  attempts (suc n) c = attempts n (refused c)

  -- The detection of the stratum mode ends. Each attempt makes a connection, gets an error as the answer to its
  -- first message, and disconnects, with the shutdown of a TLS stream where there is one. From mode `m` on,
  -- one of the four, the attempt after `m` such ones marks the connection as unrecoverable, and what it
  -- does last is to call the handler for disconnections. This is for a scheme that names no mode, a
  -- connection that is neither confirmed nor unrecoverable, and a client that is neither connecting nor
  -- disconnecting and has an endpoint and no session.
  pub attempts-end :
      (m : ℕ) (c : StratumClient)
      → m < 4
      → IsTrying m (view c)
      → ((es : List Effect) × ((attempts (suc m) c).effects ≡ calls_disconnected ∷ es))
        × ((attempts (suc m) c).uri.unrecoverable ≡ true)
  attempts-end zero c known t = refused-ends c t
  attempts-end (suc m) c known t =
      attempts-end m (refused c) (omega arith) (refused-again c m (omega arith) t).1
