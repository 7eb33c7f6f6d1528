-- ===== src/Pool/Stratum/Notifications.antt =====
-- processResponse of EthStratumClient.cpp: the notifications other than jobs, and the whole.
use etcminer.Prelude.{
  ℕ, Bool, true, false, not, ◌&&◌, [], ◌∷◌, ◌++◌, Option, some, none, Text, codes, text_eq, ◌==◌,
  if◌then◌else◌, is_empty,
}
use etcminer.Dev.Float.{Float, literal, at_least_ten_thousandth, hashes_to_target}
use etcminer.Dev.Hex.{add, to_hex, pad_left}
use etcminer.Dev.FixedHash.{hash_of_text}
use etcminer.Pool.Session.{Session}
use etcminer.Pool.JsonCpp.{JsonCpp, text, nothing, member_text, element_text}
use etcminer.Pool.Stratum.State.{
  Request, StratumClient, Env, Action, pure, attempt, gets, modify, ◌>>=◌, ◌>>◌, on_session,
}
use etcminer.Pool.Stratum.Sending.{send}
use etcminer.Pool.Stratum.Connecting.{id_member, rpc_member}
use etcminer.Pool.Stratum.Envelope.{Envelope, holds, read_envelope}
use etcminer.Pool.Stratum.Login.{post_disconnect, process_extranonce}
use etcminer.Pool.Stratum.Answers.{on_response}
use etcminer.Pool.Stratum.Jobs.{or_null, on_notify, on_notify2}

-- The answer to client.get_version.
unfoldable pub version_reply : Env → Envelope → Request
version_reply env e =
    id_member e.id
    ∷ (codes "result", text env.project_name)
    ∷ (if e.is_rpc2 then rpc_member else (codes "error", nothing))
    ∷ []

unfoldable pub unknown_reply : Envelope → Request
unknown_reply e =
    id_member e.id
    ∷ (codes "error", text (codes "Method not found"))
    ∷ (if e.is_rpc2 then rpc_member ∷ [] else [])

module _ {J : Type 0} (json : JsonCpp J) (env : Env) where
  -- The parameters of a notification, or the null value.
  unfoldable pub read_params : J → Action J
  read_params msg = do
    params ← attempt (json.member msg (codes "params"))
    pure (or_null json env params)

  -- A target in hexadecimal, filled from the left.
  unfoldable pub set_boundary : Text → Action (Unit {0})
  set_boundary target = do
    boundary ← attempt (hash_of_text 32 (codes "0x" ++ pad_left target 64 48))
    on_session (λ s. record s { next_work_boundary = boundary })

  unfoldable pub on_set_target : J → Action (Unit {0})
  on_set_target msg = do
    prm ← read_params msg
    if json.is_array prm
        then (do target ← attempt (element_text json prm 0); set_boundary target)
        else pure tt

  -- get(0, 1).asDouble()
  unfoldable pub read_difficulty : Option J → Action Float
  read_difficulty none = pure (literal 1)
  read_difficulty (some v) = attempt (json.as_double v)

  -- Reached for EthereumStratum/1.0.0 only.
  unfoldable pub on_set_difficulty : J → Action (Unit {0})
  on_set_difficulty msg = do
    prm ← read_params msg
    if json.is_array prm
        then (do
          first ← attempt (json.element prm 0)
          value ← read_difficulty first
          let difficulty = at_least_ten_thousandth value
          boundary ← attempt (hash_of_text 32 (env.target_from_diff difficulty))
          on_session
              (λ s. record s { next_work_boundary = boundary; next_work_difficulty = difficulty }))
        else pure tt

  unfoldable pub set_extranonce : Text → Action (Unit {0})
  set_extranonce enonce = if is_empty enonce then pure tt else process_extranonce env enonce

  unfoldable pub on_set_extranonce : J → Action (Unit {0})
  on_set_extranonce msg = do
    prm ← read_params msg
    if json.is_array prm
        then (do enonce ← attempt (element_text json prm 0); set_extranonce enonce)
        else pure tt

  -- A number of a mining.set, where its text is not empty.
  unfoldable pub set_number : (Text → Option ℕ) → (ℕ → Session → Session) → Text → Action (Unit {0})
  set_number read write t =
      if is_empty t then pure tt else (do n ← attempt (read t); on_session (write n))

  unfoldable pub set_target2 : Text → Action (Unit {0})
  set_target2 target = if is_empty target then pure tt else (do
    set_boundary target
    on_session (λ s. record s {
      next_work_difficulty = hashes_to_target (to_hex s.next_work_boundary 2 add);
    }))

  unfoldable pub take_settings : J → Action (Unit {0})
  take_settings prm = do
    on_session (λ s. record s { first_mining_set = true })
    timeout ← attempt (member_text json prm (codes "timeout"))
    epoch ← attempt (member_text json prm (codes "epoch"))
    target ← attempt (member_text json prm (codes "target"))
    set_number env.stoi (λ n s. record s { timeout = n }) timeout
    set_number env.stoul (λ n s. record s { epoch = n }) epoch
    set_target2 target
    enonce ← attempt (member_text json prm (codes "extranonce"))
    set_extranonce enonce

  -- mining.set of EthereumStratum/2.0.0
  unfoldable pub on_set : J → Action (Unit {0})
  on_set msg = do
    params ← attempt (json.member msg (codes "params"))
    elim params [
      | none ↦ pure tt
      | some prm ↦
          if json.is_object prm && not (json.is_empty_value prm) then take_settings prm else pure tt
    ]

  -- The notifications by their methods and the stratum mode; another method is answered.
  unfoldable pub on_method : ℕ → Envelope → J → Action (Unit {0})
  on_method mode e msg =
      if text_eq e.method (codes "mining.notify")
      then (if mode == 3 then on_notify2 json env msg else on_notify json env mode msg)
      else (if text_eq e.method (codes "mining.set_target")
          then on_set_target msg
          else (if text_eq e.method (codes "mining.set_difficulty") && (mode == 2)
              then on_set_difficulty msg
              else (if text_eq e.method (codes "mining.set_extranonce") && (mode == 2)
                  then on_set_extranonce msg
                  else (if text_eq e.method (codes "mining.set") && (mode == 3)
                      then on_set msg
                      else (if text_eq e.method (codes "mining.bye") && (mode == 3)
                          then post_disconnect
                          else (if text_eq e.method (codes "client.get_version")
                              then modify (send (version_reply env e))
                              else modify (send (unknown_reply e))))))))

  -- No notification is processed before the stratum mode is confirmed.
  unfoldable pub on_notification : ℕ → Envelope → J → Action (Unit {0})
  on_notification mode e msg = do
    u ← gets (λ c. c.uri)
    if u.stratum_mode_confirmed then on_method mode e msg else pure tt

  -- The response to eth_getWork, id 5, is a job.
  unfoldable pub is_first_work : ℕ → Envelope → Option J → Bool
  is_first_work mode e result =
      (e.id == 5) && ((mode == 1) && holds json json.is_array false result)

  unfoldable pub on_valid : StratumClient → Envelope → J → Action (Unit {0})
  on_valid c e msg = if e.is_notification then on_notification c.uri.stratum_mode e msg else (do
    result ← attempt (json.member msg (codes "result"))
    if is_first_work c.uri.stratum_mode e result
        then on_notification c.uri.stratum_mode (record e { method = codes "mining.notify" }) msg
        else on_response json env c.uri.stratum_mode c.solution_submitted_max_id e msg
            (or_null json env result))

  -- processResponse
  unfoldable pub process_response : J → Action (Unit {0})
  process_response msg = do
    c ← gets (λ c. c)
    e ← attempt (read_envelope json c.uri.stratum_mode msg)
    if e.is_valid then on_valid c e msg else post_disconnect
