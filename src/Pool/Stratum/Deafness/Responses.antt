-- ===== src/Pool/Stratum/Deafness/Responses.antt =====
-- The responses of a pool leave the job alone.
use etcminer.Prelude.{ℕ, ◌≡◌, refl, arith, Bool, true, false, Option, some, none, Text}
use etcminer.Pool.JsonCpp.{JsonCpp}
use etcminer.Pool.Stratum.State.{Request, StratumClient, Env, Action, modify}
use etcminer.Pool.Stratum.Sending.{send, send_socket_data}
use etcminer.Pool.Stratum.Login.{
  post_disconnect, mark_unrecoverable, request_authorization, refuse, on_subscription, answered,
  read_text, confirm, start_session, fail_negotiation, reevaluate, on_authorization,
  on_authorization2, process_extranonce, take_extranonce, has_member, member_is, is_hello,
  is_subscription, is_nicehash, first_hello, first_nicehash, first_proxy, first_stratum,
  first_by_mode, on_first_response,
}
use etcminer.Pool.Stratum.Envelope.{Envelope}
use etcminer.Pool.Stratum.Answers.{
  dequeued, report, on_submission, on_submission2, is_stale, on_stray_error, on_response,
}
use etcminer.Pool.Stratum.Pleas.{enqueue_response_plea, dequeue_response_plea, pop_plea}
use etcminer.Pool.Stratum.Deafness.Rules.{
  job, Keeps, after_bind, bind-Keeps, modify-Keeps, pure-Keeps, gets-Keeps, attempt-Keeps, if-Keeps,
  on_session-Keeps, KeepsAt, at-KeepsAt, attempt-KeepsAt, gets-KeepsAt, if-KeepsAt, anything_or,
  if_true-KeepsAt, if_false-KeepsAt, actions,
}

pub mark_unrecoverable-Keeps : Keeps mark_unrecoverable
unfolding mark_unrecoverable
mark_unrecoverable-Keeps = modify-Keeps _ (λ c. refl)

pub post_disconnect-Keeps : Keeps post_disconnect
unfolding post_disconnect
post_disconnect-Keeps = modify-Keeps _ (λ c. refl)

pub refuse-Keeps : Keeps refuse
unfolding refuse
refuse-Keeps = bind-Keeps _ _ mark_unrecoverable-Keeps (λ t. post_disconnect-Keeps)

pub dequeue-job : (now : ℕ) (c : StratumClient) → job (dequeue_response_plea now c).0 ≡ job c
unfolding dequeue_response_plea pop_plea
dequeue-job now c = ground arith

pub send-job : (r : Request) (c : StratumClient) → job (send r c) ≡ job c
unfolding send send_socket_data
send-job r c = ground arith

pub answered-Keeps : (now : ℕ) → Keeps (answered now)
unfolding answered
answered-Keeps now = modify-Keeps _ (dequeue-job now)

pub read_text-Keeps :
    {J : Type 0} (json : JsonCpp J) (env : Env) (v : J) → Keeps (read_text json env v)
unfolding read_text
read_text-Keeps json env v = search (actions)

pub request_authorization-job :
    (now : ℕ) (extra : Request) (c : StratumClient)
    → job (request_authorization now extra c) ≡ job c
unfolding request_authorization enqueue_response_plea
request_authorization-job now extra c = send-job _ _

pub request_authorization-Keeps :
    (now : ℕ) (extra : Request) → Keeps (modify (request_authorization now extra))
request_authorization-Keeps now extra = modify-Keeps _ (request_authorization-job now extra)

pub confirm-Keeps : (now mode : ℕ) → Keeps (modify (confirm now mode))
unfolding confirm start_session
confirm-Keeps now mode = modify-Keeps _ (λ c. refl)

pub sends-Keeps : (r : Request) → Keeps (modify (send r))
sends-Keeps r = modify-Keeps _ (send-job r)

pub option-Keeps :
    {A B : Type 0} (o : Option A) (m : Action B) (k : A → Action B)
    → Keeps m
    → ((a : A) → Keeps (k a))
    → Keeps (elim o [ none ↦ m | some a ↦ k a ])
option-Keeps none m k first later = first
option-Keeps (some a) m k first later = later a

pub subscribes-Keeps :
    (now : ℕ) (r : Request)
    → Keeps (modify (λ c. send r (enqueue_response_plea now (confirm now 3 c))))
unfolding enqueue_response_plea confirm start_session
subscribes-Keeps now r = modify-Keeps _ (λ c. send-job r _)

pub fail_negotiation-Keeps : Keeps fail_negotiation
unfolding fail_negotiation
fail_negotiation-Keeps = record {
  same = λ c.
      (bind-Keeps _ _
          (if-Keeps c.uri.stratum_mode_confirmed _ _ mark_unrecoverable-Keeps (pure-Keeps tt))
          (λ t. post_disconnect-Keeps)).same
        c;
}

pub ruleset login = (
  actions, answered-Keeps, mark_unrecoverable-Keeps, post_disconnect-Keeps, refuse-Keeps,
  request_authorization-Keeps, confirm-Keeps, sends-Keeps, fail_negotiation-Keeps,
)

module _ {J : Type 0} (json : JsonCpp J) (env : Env) where
  pub on_subscription-Keeps : (v : J) → Keeps (on_subscription json env v)
  unfolding on_subscription
  on_subscription-Keeps v = bind-Keeps _ _ (answered-Keeps env.now) (λ done.
      bind-Keeps _ _ (read_text-Keeps json env v)
        (λ found. option-Keeps found _ _ refuse-Keeps (λ t. search (login))))

  pub reevaluate-Keeps : (success : Bool) (v : J) → Keeps (reevaluate json env success v)
  unfolding reevaluate
  reevaluate-Keeps success v = search (actions)

  pub on_authorization-Keeps :
      (success : Bool) (v : J) → Keeps (on_authorization json env success v)
  unfolding on_authorization
  on_authorization-Keeps success v = bind-Keeps _ _ (answered-Keeps env.now) (λ done.
      bind-Keeps _ _ (reevaluate-Keeps success v)
        (λ granted. bind-Keeps _ _ (modify-Keeps _ (λ c. refl)) (λ u. search (login))))

  pub on_authorization2-Keeps :
      (success : Bool) (v : J) → Keeps (on_authorization2 json env success v)
  unfolding on_authorization2
  on_authorization2-Keeps success v = bind-Keeps _ _ (answered-Keeps env.now) (λ done.
      bind-Keeps _ _ (if-Keeps success _ _ (read_text-Keeps json env v) (pure-Keeps none)) (λ found.
        option-Keeps found _ _ refuse-Keeps
          (λ t. bind-Keeps _ _ (modify-Keeps _ (λ c. refl)) (λ u. on_session-Keeps _))))

  pub process_extranonce-Keeps : (t : Text) → Keeps (process_extranonce env t)
  unfolding process_extranonce
  process_extranonce-Keeps t = search (actions)

  pub take_extranonce-Keeps : (v : J) → Keeps (take_extranonce json env v)
  unfolding take_extranonce
  take_extranonce-Keeps v = search (actions, process_extranonce-Keeps)

  pub has_member-Keeps : (v : J) (name : Text) → Keeps (has_member json env v name)
  unfolding has_member
  has_member-Keeps v name = search (actions)

  pub member_is-Keeps : (v : J) (name t : Text) → Keeps (member_is json env v name t)
  unfolding member_is
  member_is-Keeps v name t =
      bind-Keeps _ _ (attempt-Keeps (json.member v name))
        (λ found. option-Keeps found _ _ (pure-Keeps false) (λ x. search (actions)))

  pub is_hello-Keeps : (v : J) → Keeps (is_hello json env v)
  unfolding is_hello
  is_hello-Keeps v = search (actions, has_member-Keeps, member_is-Keeps) depth 12

  pub is_subscription-Keeps : (o : Option J) → Keeps (is_subscription json env o)
  unfolding is_subscription
  is_subscription-Keeps none = pure-Keeps false
  is_subscription-Keeps (some v) = search (actions)

  pub is_nicehash-Keeps : (v : J) → Keeps (is_nicehash json env v)
  unfolding is_nicehash
  is_nicehash-Keeps v = search (actions, is_subscription-Keeps)

  pub first_hello-Keeps : (v : J) → Keeps (first_hello json env v)
  unfolding first_hello
  first_hello-Keeps v = search (login, is_hello-Keeps, subscribes-Keeps) depth 12

  pub first_nicehash-Keeps : (v : J) → Keeps (first_nicehash json env v)
  unfolding first_nicehash
  first_nicehash-Keeps v = search (login, is_nicehash-Keeps, take_extranonce-Keeps) depth 12

  pub first_proxy-Keeps : (success : Bool) → Keeps (first_proxy json env success)
  unfolding first_proxy
  first_proxy-Keeps success = search (login) depth 12

  pub first_stratum-Keeps : (success : Bool) → Keeps (first_stratum json env success)
  unfolding first_stratum
  first_stratum-Keeps success = search (login) depth 12

  pub first_by_mode-Keeps :
      (mode : ℕ) (success : Bool) (v : J) → Keeps (first_by_mode json env mode success v)
  unfolding first_by_mode
  first_by_mode-Keeps mode success v =
      search
        (
          if-Keeps, sends-Keeps, first_hello-Keeps, first_nicehash-Keeps, first_proxy-Keeps,
          first_stratum-Keeps,
        )
        depth 12

  pub on_first_response-Keeps :
      (success : Bool) (v : J) → Keeps (on_first_response json env success v)
  unfolding on_first_response
  on_first_response-Keeps success v = search (login, first_by_mode-Keeps) depth 12

  pub dequeued-Keeps : Keeps (dequeued env.now)
  unfolding dequeued
  dequeued-Keeps = record { same = dequeue-job env.now }

  pub report-job :
      (delay id : ℕ) (b stale : Bool) (c : StratumClient) → job (report delay id b stale c) ≡ job c
  unfolding report
  report-job delay id true stale c = refl
  report-job delay id false stale c = refl

  pub on_submission-Keeps :
      (id : ℕ) (success : Bool) (v : J) → Keeps (on_submission json env id success v)
  unfolding on_submission
  on_submission-Keeps id success v = bind-Keeps _ _ dequeued-Keeps (λ delay.
      bind-Keeps _ _ (reevaluate-Keeps success v)
        (λ b. modify-Keeps _ (report-job delay id b false)))

  pub is_stale-Keeps : (o : Option J) → Keeps (is_stale json env o)
  unfolding is_stale
  is_stale-Keeps none = pure-Keeps false
  is_stale-Keeps (some error) = search (actions)

  pub on_submission2-Keeps :
      (id : ℕ) (success : Bool) (v : J) → Keeps (on_submission2 json env id success v)
  unfolding on_submission2
  on_submission2-Keeps id success v = bind-Keeps _ _ dequeued-Keeps (λ delay.
      bind-Keeps _ _ (attempt-Keeps _) (λ error.
        bind-Keeps _ _ (if-Keeps success _ _ (pure-Keeps false) (is_stale-Keeps error))
          (λ stale. modify-Keeps _ (report-job delay id _ stale))))

  pub on_stray_error-Keeps : Keeps (on_stray_error json env)
  unfolding on_stray_error
  on_stray_error-Keeps = search (login)

  pub on_response-Keeps :
      (mode max_id : ℕ) (e : Envelope) (msg v : J)
      → Keeps (on_response json env mode max_id e msg v)
  unfolding on_response
  on_response-Keeps mode max_id e msg v =
      search
        (
          if-Keeps, pure-Keeps, on_first_response-Keeps, on_subscription-Keeps,
          on_authorization-Keeps, on_authorization2-Keeps, on_submission-Keeps,
          on_submission2-Keeps, on_stray_error-Keeps,
        )
        depth 20
