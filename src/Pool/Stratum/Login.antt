-- ===== src/Pool/Stratum/Login.antt =====
-- processResponse of EthStratumClient.cpp: the responses to the messages of a login.
use etcminer.Prelude.{
  ℕ, ◌-◌, Bool, true, false, not, ◌&&◌, List, [], ◌∷◌, ◌++◌, Option, some, none, Text, codes,
  text_eq, ◌==◌, if◌then◌else◌, is_empty, length, take, replicate,
}
use etcminer.Pool.Uri
use etcminer.Pool.Uri.{Uri}
use etcminer.Pool.Session.{Session, new_session}
use etcminer.Pool.JsonCpp.{JsonCpp, element_text}
use etcminer.Pool.Stratum.State.{
  Request, StratumClient, Env, Action, pure, attempt, gets, modify, ◌>>=◌, ◌>>◌, emit, set_uri,
  on_session, posts_disconnect, calls_connected,
}
use etcminer.Pool.Stratum.Pleas.{enqueue_response_plea, dequeue_response_plea}
use etcminer.Pool.Stratum.Sending.{send}
use etcminer.Pool.Stratum.Connecting.{id_member, method_member, params_member, rpc_member}
use etcminer.Pool.Stratum.Envelope.{holds}

-- m_io_service.post of disconnect.
unfoldable pub post_disconnect : Action (Unit {0})
post_disconnect = modify (emit posts_disconnect)

unfoldable pub mark_unrecoverable : Action (Unit {0})
mark_unrecoverable = modify (λ c. set_uri (Uri.mark_unrecoverable c.uri) c)

-- A login that the pool does not understand: a confirmed mode makes the connection useless.
unfoldable pub fail_negotiation : Action (Unit {0})
fail_negotiation c =
    ((if c.uri.stratum_mode_confirmed then mark_unrecoverable else pure tt) >> post_disconnect) c

-- A refused subscription or authorization.
unfoldable pub refuse : Action (Unit {0})
refuse = mark_unrecoverable >> post_disconnect

-- A dequeued plea, whose delay is not read.
unfoldable pub answered : ℕ → Action (Unit {0})
answered now = modify (λ c. (dequeue_response_plea now c).0)

-- startSession
unfoldable pub start_session : ℕ → StratumClient → StratumClient
start_session now c =
    emit calls_connected (record c { session = some (new_session now); current_timestamp = now })

-- SetStratumMode with the confirmation, and startSession.
unfoldable pub confirm : ℕ → ℕ → StratumClient → StratumClient
confirm now mode c = start_session now (set_uri (Uri.confirm_stratum_mode mode true c.uri) c)

abbrev pub subscribe : Session → Session
subscribe s = record s { subscribed = true }

abbrev pub authorize : Bool → Session → Session
authorize b s = record s { authorized = b }

-- enonce.resize(16, '0')
unfoldable pub resize16 : Text → Text
resize16 t = take 16 (t ++ replicate (16 - length t) 48)

-- processExtranonce
unfoldable pub process_extranonce : Env → Text → Action (Unit {0})
process_extranonce env enonce = do
  on_session (λ s. record s { extra_nonce_size_bytes = length enonce })
  value ← attempt (env.stoull (resize16 enonce))
  on_session (λ s. record s { extra_nonce = value })

unfoldable pub authorize_params : Uri → List Text
authorize_params u = (Uri.user_dot_worker u ++ u.path) ∷ u.password ∷ []

-- mining.authorize, with the flag that an answer is pending and the plea for it.
unfoldable pub request_authorization : ℕ → Request → StratumClient → StratumClient
request_authorization now extra c =
    let q = enqueue_response_plea now (record c { authpending = true }) in
    send
      (id_member 3
        ∷ method_member (codes "mining.authorize")
        ∷ params_member (authorize_params c.uri)
        ∷ extra)
      q

module _ {J : Type 0} (json : JsonCpp J) (env : Env) where
  -- A member of a value, and a member that is there.
  unfoldable pub has_member : J → Text → Action Bool
  has_member v name = do
    found ← attempt (json.member v name)
    pure (holds json (λ x. true) false found)

  unfoldable pub member_is : J → Text → Text → Action Bool
  member_is v name t = do
    found ← attempt (json.member v name)
    elim found [ none ↦ pure false | some x ↦ do pure (text_eq (← attempt (json.as_string x)) t) ]

  -- The answer to mining.hello.
  unfoldable pub is_hello : J → Action Bool
  is_hello v =
      if json.is_object_like v
      then (do
        proto ← member_is v (codes "proto") (codes "EthereumStratum/2.0.0")
        encoding ← has_member v (codes "encoding")
        resume ← has_member v (codes "resume")
        timeout ← has_member v (codes "timeout")
        maxerrors ← has_member v (codes "maxerrors")
        node ← has_member v (codes "node")
        pure (proto && (encoding && (resume && (timeout && (maxerrors && node))))))
      else pure false

  -- The answer to mining.subscribe of EthereumStratum/1.0.0, from its first element.
  unfoldable pub is_subscription : Option J → Action Bool
  is_subscription none = pure false
  is_subscription (some v) =
      if json.is_array v && (json.size v == 3)
      then (do pure (text_eq (← attempt (element_text json v 2)) (codes "EthereumStratum/1.0.0")))
      else pure false

  unfoldable pub is_nicehash : J → Action Bool
  is_nicehash v =
      if json.is_array v
      then (do first ← attempt (json.element v 0); is_subscription first)
      else pure false

  -- The extra nonce that a subscription may bring.
  unfoldable pub take_extranonce : J → Action (Unit {0})
  take_extranonce v = do
    enonce ← attempt (element_text json v 1)
    if is_empty enonce then pure tt else process_extranonce env enonce

  unfoldable pub first_hello : J → Action (Unit {0})
  first_hello v = do
    understood ← is_hello v
    if understood
        then modify (λ c.
          send (id_member 2 ∷ method_member (codes "mining.subscribe") ∷ [])
            (enqueue_response_plea env.now (confirm env.now 3 c)))
        else fail_negotiation

  unfoldable pub first_nicehash : J → Action (Unit {0})
  first_nicehash v = do
    understood ← is_nicehash v
    if understood
        then (do
          modify (confirm env.now 2)
          on_session subscribe
          modify (
              send (
                id_member 2
                ∷ method_member (codes "mining.extranonce.subscribe")
                ∷ params_member []
                ∷ []))
          take_extranonce v
          modify (request_authorization env.now []))
        else fail_negotiation

  unfoldable pub first_proxy : Bool → Action (Unit {0})
  first_proxy success =
      if success
      then (do
        modify (confirm env.now 1)
        on_session (λ s. authorize true (subscribe s))
        modify (send (id_member 5 ∷ method_member (codes "eth_getWork") ∷ params_member [] ∷ [])))
      else fail_negotiation

  unfoldable pub first_stratum : Bool → Action (Unit {0})
  first_stratum success =
      if success
      then (do
        modify (confirm env.now 0)
        on_session subscribe
        modify (request_authorization env.now (rpc_member ∷ [])))
      else fail_negotiation

  -- The response to the first message, id 1, in the stratum mode of the connection. `v` is the
  -- response's result, or the null value. In no other mode is anything but an empty message sent.
  unfoldable pub first_by_mode : ℕ → Bool → J → Action (Unit {0})
  first_by_mode mode success v =
      if mode == 3
      then first_hello v
      else (if mode == 2
          then first_nicehash v
          else (if mode == 1
              then first_proxy success
              else (if mode == 0 then first_stratum success else modify (send []))))

  unfoldable pub on_first_response : Bool → J → Action (Unit {0})
  on_first_response success v = do
    answered env.now
    u ← gets (λ c. c.uri)
    if not success && not u.stratum_mode_confirmed
        then post_disconnect
        else first_by_mode u.stratum_mode success v

  -- A result that is a text and not empty.
  unfoldable pub read_text : J → Action (Option Text)
  read_text v =
      if json.is_string v
      then (do t ← attempt (json.as_string v); pure (if is_empty t then none else some t))
      else pure none

  -- The response to mining.subscribe of EthereumStratum/2.0.0, id 2.
  unfoldable pub on_subscription : J → Action (Unit {0})
  on_subscription v = do
    answered env.now
    found ← read_text v
    elim found [
      | none ↦ refuse
      | some t ↦ (do
        on_session (λ s. record s { session_id = t; subscribed = true })
        modify (request_authorization env.now []))
    ]

  -- _isSuccess && jResult.isBool() ? jResult.asBool() : _isSuccess
  unfoldable pub reevaluate : Bool → J → Action Bool
  reevaluate success v =
      if success && json.is_bool v then attempt (json.as_bool v) else pure success

  -- The response to mining.authorize, id 3, up to EthereumStratum/1.0.0.
  unfoldable pub on_authorization : Bool → J → Action (Unit {0})
  on_authorization success v = do
    answered env.now
    granted ← reevaluate success v
    modify (λ c. record c { authpending = false })
    on_session (authorize granted)
    if granted then pure tt else refuse

  -- The one of EthereumStratum/2.0.0.
  unfoldable pub on_authorization2 : Bool → J → Action (Unit {0})
  on_authorization2 success v = do
    answered env.now
    found ← (if success then read_text v else pure none)
    elim found [
      | none ↦ refuse
      | some t ↦ (do
        modify (λ c. record c { authpending = false })
        on_session (λ s. record s { authorized = true; worker_id = t }))
    ]
