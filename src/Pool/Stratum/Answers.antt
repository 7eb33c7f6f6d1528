-- ===== src/Pool/Stratum/Answers.antt =====
-- processResponse of EthStratumClient.cpp: the responses to the client's requests, by their ids.
use etcminer.Prelude.{
  ℕ, ◌-◌, Bool, false, not, ◌&&◌, ◌||◌, Option, some, none, codes, text_eq, leb, ◌==◌,
  if◌then◌else◌, take,
}
use etcminer.Pool.JsonCpp.{JsonCpp, member_text}
use etcminer.Pool.Stratum.State.{
  StratumClient, Env, Action, ok, pure, attempt, gets, modify, ◌>>=◌, emit, calls_accepted,
  calls_rejected, is_subscribed, is_authorized,
}
use etcminer.Pool.Stratum.Pleas.{dequeue_response_plea}
use etcminer.Pool.Stratum.Envelope.{Envelope}
use etcminer.Pool.Stratum.Login.{
  post_disconnect, on_first_response, on_subscription, on_authorization, on_authorization2,
  reevaluate,
}

-- dequeue_response_plea, with the delay that it returns.
unfoldable pub dequeued : ℕ → Action ℕ
dequeued now c = let (q, delay) = dequeue_response_plea now c in (q, ok delay)

-- m_onSolutionAccepted or m_onSolutionRejected, for the miner that the id was made from.
unfoldable pub report : ℕ → ℕ → Bool → Bool → StratumClient → StratumClient
report delay id success stale c =
    if success
    then emit (calls_accepted delay (id - 40) stale) c
    else emit (calls_rejected delay (id - 40)) c

module _ {J : Type 0} (json : JsonCpp J) (env : Env) where
  unfoldable pub on_submission : ℕ → Bool → J → Action (Unit {0})
  on_submission id success v = do
    delay ← dequeued env.now
    accepted ← reevaluate json env success v
    modify (report delay id accepted false)

  -- EthereumStratum/2.0.0: an error whose code begins with 2 is a solution that came late.
  unfoldable pub is_stale : Option J → Action Bool
  is_stale none = pure false
  is_stale (some error) = do
    code ← attempt (member_text json error (codes "code"))
    pure (text_eq (take 1 code) (codes "2"))

  unfoldable pub on_submission2 : ℕ → Bool → J → Action (Unit {0})
  on_submission2 id success msg = do
    delay ← dequeued env.now
    error ← attempt (json.member msg (codes "error"))
    stale ← (if success then pure false else is_stale error)
    modify (report delay id (success || stale) stale)

  -- id 999, by which some pools answer to a login.
  unfoldable pub on_stray_error : Action (Unit {0})
  on_stray_error = do
    c ← gets (λ c. c)
    if not c.uri.stratum_mode_confirmed || (not (is_subscribed c) || not (is_authorized c))
        then post_disconnect
        else pure tt

  -- The responses, less the one to eth_getWork, which is a notification.
  unfoldable pub on_response : ℕ → ℕ → Envelope → J → J → Action (Unit {0})
  on_response mode max_id e msg v =
      if e.id == 1
      then on_first_response json env e.is_success v
      else (if e.id == 2
          then (if mode == 3 then on_subscription json env v else pure tt)
          else (if e.id == 3
              then (if mode == 3
                  then on_authorization2 json env e.is_success v
                  else on_authorization json env e.is_success v)
              else (if leb 40 e.id && leb e.id max_id
                  then (if mode == 3
                      then on_submission2 e.id e.is_success msg
                      else on_submission e.id e.is_success v)
                  else (if (e.id == 999) && not e.is_success then on_stray_error else pure tt))))
