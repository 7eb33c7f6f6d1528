-- ===== src/Pool/Stratum/Connecting.antt =====
-- Connecting and disconnecting, in EthStratumClient.cpp.
use etcminer.Prelude.{
  ℕ, ◌-◌, Bool, true, false, not, ◌&&◌, ◌||◌, List, [], ◌∷◌, ◌++◌, Option, some, none, Text, codes,
  ltb, ◌==◌, if◌then◌else◌, is_empty,
}
use etcminer.Dev.Hex.{dont_add, to_compact_hex}
use etcminer.Pool.Scheme.{plain, tls}
use etcminer.Pool.Uri
use etcminer.Pool.Uri.{Uri, HostNameType, unknown, basic, dns, ipv4, ipv6}
use etcminer.Pool.Session.{duration}
use etcminer.Pool.JsonCpp.{Field, number, text, texts, named}
use etcminer.Pool.Stratum.State.{
  Request, StratumClient, Env, emit, set_uri, posts_disconnect, posts_disconnect_finalize,
  posts_start_connect, resolves, starts_connecting, starts_shutdown, starts_reading, arms_timer,
  stops_timer, calls_disconnected,
}
use etcminer.Pool.Stratum.Pleas.{enqueue_response_plea, clear_response_pleas}
use etcminer.Pool.Stratum.Sending.{send}

-- m_conn->SecLevel() != SecureLevel::NONE
unfoldable pub is_secure : StratumClient → Bool
is_secure c = elim (Uri.sec_level c.uri) [ plain ↦ false | tls ↦ true ]

-- init_socket where there is none: a socket that is not open yet.
unfoldable pub with_socket : StratumClient → StratumClient
with_socket c = elim c.socket [ none ↦ record c { socket = some false } | some open_now ↦ c ]

-- A close of m_socket.
unfoldable pub close_socket : StratumClient → StratumClient
close_socket c = elim c.socket [ none ↦ c | some open_now ↦ record c { socket = some false } ]

unfoldable pub is_open : StratumClient → Bool
is_open c = elim c.socket [ none ↦ false | some open_now ↦ open_now ]

-- A host that has to be resolved.
unfoldable pub is_name : HostNameType → Bool
is_name unknown = false
is_name basic = true
is_name dns = true
is_name ipv4 = false
is_name ipv6 = false

-- connect. `address` is the endpoint of a host that is an IP address.
unfoldable pub connect : ℕ → StratumClient → StratumClient
connect address c =
    if c.connecting
    then c
    else (let q =
          emit arms_timer
            (record (with_socket c) { authpending = false; endpoints = []; endpoint = none }) in
        if is_name c.uri.host_type
        then emit resolves q
        else emit posts_start_connect (record q { endpoints = address ∷ [] }))

-- The session goes, and its duration is added to the connection's.
unfoldable pub release_session : ℕ → StratumClient → StratumClient
release_session now c = elim c.session [
  | none ↦ c
  | some s ↦ record c { session = none; uri = Uri.add_duration (duration now s) c.uri }
]

-- Whether a disconnection is a failed attempt of the detection of the stratum mode.
unfoldable pub is_detecting : Uri → Bool
is_detecting u = not u.unrecoverable && (not u.stratum_mode_confirmed && u.responds)

-- The end of a disconnection that is not followed by another attempt.
unfoldable pub give_up : ℕ → StratumClient → StratumClient
give_up now c =
    emit calls_disconnected
      (emit stops_timer (record (clear_response_pleas now c) { solution_submitted_max_id = 0 }))

-- disconnect_finalize: while the stratum mode is being detected, the next one is tried.
unfoldable pub disconnect_finalize : ℕ → StratumClient → StratumClient
disconnect_finalize now c =
    let q = record (release_session now c) {
      socket = none;
      authpending = false;
      disconnecting = false;
      tx_pending = false;
    } in
    if is_detecting q.uri
    then (if ltb 0 q.uri.stratum_mode
        then emit posts_start_connect
            (set_uri (Uri.set_stratum_mode (q.uri.stratum_mode - 1) q.uri) q)
        else give_up now (set_uri (Uri.mark_unrecoverable q.uri) q))
    else give_up now q

-- disconnect; a TLS stream is shut down first, and the rest follows when that is done.
unfoldable pub disconnect : ℕ → StratumClient → StratumClient
disconnect now c =
    if c.disconnecting
    then c
    else (let q = record c { disconnecting = true; connected = false } in
        if is_open q
        then (if is_secure q
            then enqueue_response_plea now (emit starts_shutdown q)
            else disconnect_finalize now (close_socket q))
        else disconnect_finalize now q)

-- resolve_handler, with the endpoints that were found or none for an error.
unfoldable pub resolve_handler : ℕ → Option (List ℕ) → StratumClient → StratumClient
resolve_handler now none c = disconnect_finalize now (record c { connecting = false })
resolve_handler now (some found) c =
    emit posts_start_connect (record c { endpoints = c.endpoints ++ found })

-- start_connect; async_connect opens the socket.
unfoldable pub try_endpoint : ℕ → ℕ → StratumClient → StratumClient
try_endpoint now e c =
    let q = enqueue_response_plea now (
      clear_response_pleas now (record (with_socket c) { endpoint = some e; connecting = true })) in
    emit starts_connecting (record q { socket = some true; solution_submitted_max_id = 0 })

unfoldable pub start_connect : ℕ → StratumClient → StratumClient
start_connect now c = if c.connecting then c else elim c.endpoints [
  | [] ↦ disconnect_finalize now (record c { connecting = false })
  | e ∷ es ↦ try_endpoint now e c
]

-- onSSLShutdownCompleted
unfoldable pub on_ssl_shutdown_completed : ℕ → StratumClient → StratumClient
on_ssl_shutdown_completed now c = emit posts_disconnect_finalize (clear_response_pleas now c)

-- The mode of a scheme that names one is confirmed; otherwise the detection starts at 3.
unfoldable pub settle_mode : Uri → Uri
settle_mode u =
    if ltb (Uri.version u) 999
    then Uri.confirm_stratum_mode (Uri.version u) true u
    else (if not u.stratum_mode_confirmed && (u.stratum_mode == 999)
        then Uri.confirm_stratum_mode 3 false u
        else u)

-- A member that is written where its text is not empty.
unfoldable pub optional : Text → Text → Request
optional name t = if is_empty t then [] else (name, text t) ∷ []

unfoldable pub id_member : ℕ → Text × Field
id_member n = (codes "id", number n)

unfoldable pub method_member : Text → Text × Field
method_member name = (codes "method", text name)

unfoldable pub params_member : List Text → Text × Field
params_member ts = (codes "params", texts ts)

unfoldable pub rpc_member : Text × Field
rpc_member = (codes "jsonrpc", text (codes "2.0"))

-- The parameters of eth_submitLogin.
unfoldable pub login_params : Uri → List Text
login_params u = (u.user ++ u.path) ∷ (if is_empty u.password then [] else u.password ∷ [])

-- The first message of each stratum mode.
unfoldable pub login_request : Env → Uri → Request
login_request env u =
    if u.stratum_mode == 0
    then id_member 1 ∷ method_member (codes "mining.subscribe") ∷ params_member [] ∷ rpc_member ∷ []
    else (if u.stratum_mode == 1
        then id_member 1
          ∷ method_member (codes "eth_submitLogin")
          ∷ params_member (login_params u)
          ∷ optional (codes "worker") u.worker
        else (if u.stratum_mode == 2
            then id_member 1
              ∷ method_member (codes "mining.subscribe")
              ∷ params_member (env.project_name ∷ codes "EthereumStratum/1.0.0" ∷ [])
              ∷ []
            else (if u.stratum_mode == 3
                then id_member 1
                  ∷ method_member (codes "mining.hello")
                  ∷ (
                    codes "params",
                    named (
                        (codes "agent", env.project_name)
                        ∷ (codes "host", u.host)
                        ∷ (codes "port", to_compact_hex u.port dont_add)
                        ∷ (codes "proto", codes "EthereumStratum/2.0.0")
                        ∷ []),
                  )
                  ∷ []
                else id_member 1
                  ∷ method_member (codes "mining.subscribe")
                  ∷ params_member []
                  ∷ [])))

-- connect_handler where the connection fails or has timed out: the next endpoint is tried.
unfoldable pub drop_endpoint : StratumClient → StratumClient
drop_endpoint c = record c { endpoints = (elim c.endpoints [ [] ↦ [] | e ∷ es ↦ es ]) }

-- The rest of connect_handler, once the connection is secured where it has to be.
unfoldable pub log_in : Env → StratumClient → StratumClient
log_in env c =
    let q = set_uri (settle_mode c.uri) (clear_response_pleas env.now c) in
    send (login_request env q.uri) (enqueue_response_plea env.now (emit starts_reading q))

-- connect_handler; `refused` is an error of the connection, and `unverified` one of the TLS handshake.
unfoldable pub connect_handler : Env → Bool → Bool → StratumClient → StratumClient
connect_handler env refused unverified c =
    let q = record c { connecting = false } in
    if refused || not (is_open q)
    then emit posts_start_connect (drop_endpoint (close_socket q))
    else (let up = record q {
      uri = Uri.set_responds true q.uri;
      connected = true;
      message = [];
      tx_queue = [];
    } in
        if is_secure up && unverified
        then emit posts_disconnect (set_uri (Uri.mark_unrecoverable up.uri) up)
        else log_in env up)
