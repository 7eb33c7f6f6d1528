-- ===== src/Pool/Stratum/Deafness.antt =====
-- Which messages of the pool can change the job.
mod Rules
mod Responses
mod Settings
use etcminer.Prelude.{
  ℕ, ◌≡◌, ◌∙◌, sym, ap, refl, arith, Bool, true, false, not, ◌&&◌, ◌||◌, text_eq, ◌==◌, Option,
  some, none, Text, codes, if◌then◌else◌,
}
use etcminer.Eth.Work.{WorkPackage}
use etcminer.Pool.JsonCpp.{JsonCpp}
use etcminer.Pool.Session.{Session}
use etcminer.Pool.Stratum.State.{
  Request, StratumClient, Env, Action, Result, ok, thrown, uncaught, ◌>>=◌, ◌>>◌, modify, pure,
  attempt, on_session, gets,
}
use etcminer.Pool.Stratum.Sending.{send, send_socket_data}
use etcminer.Pool.Stratum.Login.{
  post_disconnect, mark_unrecoverable, request_authorization, refuse, on_subscription, answered,
  read_text, confirm, start_session, fail_negotiation, reevaluate, on_authorization,
  on_authorization2, process_extranonce, take_extranonce, has_member, member_is, is_hello,
  is_subscription, is_nicehash, first_hello, first_nicehash, first_proxy, first_stratum,
  first_by_mode, on_first_response,
}
use etcminer.Pool.Stratum.Envelope.{Envelope, read_envelope}
use etcminer.Pool.Stratum.Answers.{
  report, on_submission, on_submission2, is_stale, on_stray_error, on_response,
}
use etcminer.Pool.Stratum.Jobs.{on_notify, or_null}
use etcminer.Pool.Stratum.Notifications.{
  read_params, set_boundary, on_set_target, read_difficulty, on_set_difficulty, set_extranonce,
  on_set_extranonce, on_method, on_set, version_reply, unknown_reply, on_notification, on_valid,
  process_response, is_first_work,
}
use etcminer.Pool.Stratum.State.{is_subscribed}
use etcminer.Pool.Stratum.Pleas.{enqueue_response_plea, dequeue_response_plea, pop_plea}
use Rules.{
  job, Keeps, after_bind, bind-Keeps, modify-Keeps, pure-Keeps, gets-Keeps, attempt-Keeps, if-Keeps,
  on_session-Keeps, KeepsAt, at-KeepsAt, attempt-KeepsAt, gets-KeepsAt, if-KeepsAt, anything_or,
  if_true-KeepsAt, if_false-KeepsAt, actions,
}
use Responses.{
  mark_unrecoverable-Keeps, post_disconnect-Keeps, refuse-Keeps, dequeue-job, send-job,
  answered-Keeps, read_text-Keeps, request_authorization-job, request_authorization-Keeps,
  confirm-Keeps, sends-Keeps, option-Keeps, subscribes-Keeps, fail_negotiation-Keeps, login,
  on_subscription-Keeps, reevaluate-Keeps, on_authorization-Keeps, on_authorization2-Keeps,
  process_extranonce-Keeps, take_extranonce-Keeps, has_member-Keeps, member_is-Keeps,
  is_hello-Keeps, is_subscription-Keeps, is_nicehash-Keeps, first_hello-Keeps, first_nicehash-Keeps,
  first_proxy-Keeps, first_stratum-Keeps, first_by_mode-Keeps, on_first_response-Keeps, report-job,
  on_submission-Keeps, is_stale-Keeps, on_submission2-Keeps, on_stray_error-Keeps,
  on_response-Keeps,
}
use Settings.{
  read_params-Keeps, set_boundary-Keeps, on_set_target-Keeps, read_difficulty-Keeps,
  on_set_difficulty-Keeps, set_extranonce-Keeps, on_set_extranonce-Keeps,
}

module _ {J : Type 0} (json : JsonCpp J) (env : Env) where
  valid-KeepsAt :
      (c : StratumClient) (e : Envelope) (msg : J)
      → ((method : Text)
          → KeepsAt
              (on_notification json env c.uri.stratum_mode (record e { method = method }) msg)
              c)
      → KeepsAt (on_valid json env c e msg) c
  unfolding on_valid
  valid-KeepsAt c e msg deaf = if-KeepsAt e.is_notification _ _ c (deaf e.method) (
      attempt-KeepsAt _ _ c (λ result.
        if-KeepsAt _ _ _ c (deaf (codes "mining.notify"))
          (at-KeepsAt _ c (on_response-Keeps json env _ _ e msg _))))

  message-KeepsAt :
      (msg : J) (c : StratumClient)
      → ((e : Envelope) → KeepsAt (on_notification json env c.uri.stratum_mode e msg) c)
      → KeepsAt (process_response json env msg) c
  unfolding process_response
  message-KeepsAt msg c deaf = gets-KeepsAt _ _ c (
      attempt-KeepsAt _ _ c (λ e.
        if-KeepsAt e.is_valid _ _ c
          (valid-KeepsAt c e msg (λ name. deaf (record e { method = name })))
          (at-KeepsAt _ c post_disconnect-Keeps)))

  -- Before the stratum mode is confirmed, notifications are passed over.
  on_notification-KeepsAt :
      (mode : ℕ) (e : Envelope) (msg : J) (c : StratumClient)
      → c.uri.stratum_mode_confirmed ≡ false
      → KeepsAt (on_notification json env mode e msg) c
  unfolding on_notification
  on_notification-KeepsAt mode e msg c deaf =
      gets-KeepsAt _ _ c (if_false-KeepsAt _ _ _ c deaf (at-KeepsAt _ c (pure-Keeps tt)))

  -- No message of a pool changes the job, or brings one, as long as the stratum mode of the connection is not
  -- confirmed.
  pub process_response-deaf :
      (msg : J) (c : StratumClient)
      → c.uri.stratum_mode_confirmed ≡ false
      → ((process_response json env msg c).0.current ≡ c.current)
        × ((process_response json env msg c).0.newjobprocessed ≡ c.newjobprocessed)
  process_response-deaf msg c deaf =
      let kept = (message-KeepsAt msg c (λ e. on_notification-KeepsAt _ e msg c deaf)).same in
      (ap (λ t. t.0) kept, ap (λ t. t.1) kept)

  -- A second job.
  on_notify-KeepsAt :
      (mode : ℕ) (msg : J) (c : StratumClient)
      → c.newjobprocessed ≡ true
      → KeepsAt (on_notify json env mode msg) c
  unfolding on_notify
  on_notify-KeepsAt mode msg c taken =
      let test : (not (is_subscribed c) || c.newjobprocessed) ≡ true =
        ap (λ b. not (is_subscribed c) || b) taken ∙ anything_or (not (is_subscribed c)) in
      gets-KeepsAt _ _ c (if_true-KeepsAt _ _ _ c test (at-KeepsAt _ c (pure-Keeps tt)))

  and_false : (b : Bool) → (b && false) ≡ false
  and_false true = refl
  and_false false = refl

  -- Every method of a mode other than EthereumStratum/2.0.0.
  on_method-KeepsAt :
      (mode : ℕ) (e : Envelope) (msg : J) (c : StratumClient)
      → (mode == 3) ≡ false
      → c.newjobprocessed ≡ true
      → KeepsAt (on_method json env mode e msg) c
  unfolding on_method
  on_method-KeepsAt mode e msg c older taken =
      let never : (name : Text) → (text_eq e.method name && (mode == 3)) ≡ false =
        λ name. ap (λ b. text_eq e.method name && b) older ∙ and_false (text_eq e.method name) in
      if-KeepsAt _ _ _ c (if_false-KeepsAt _ _ _ c older (on_notify-KeepsAt mode msg c taken)) (
        if-KeepsAt _ _ _ c (at-KeepsAt _ c (on_set_target-Keeps json env msg)) (
          if-KeepsAt (text_eq e.method (codes "mining.set_difficulty") && (mode == 2)) _ _ c
            (at-KeepsAt _ c (on_set_difficulty-Keeps json env msg))
            (if-KeepsAt (text_eq e.method (codes "mining.set_extranonce") && (mode == 2)) _ _ c
              (at-KeepsAt _ c (on_set_extranonce-Keeps json env msg))
              (if_false-KeepsAt _ (on_set json env msg) _ c (never (codes "mining.set")) (
                if_false-KeepsAt _ post_disconnect _ c (never (codes "mining.bye")) (
                  if-KeepsAt (text_eq e.method (codes "client.get_version")) _ _ c
                    (at-KeepsAt _ c (sends-Keeps (version_reply env e)))
                    (at-KeepsAt _ c (sends-Keeps (unknown_reply e)))))))))

  -- Once a transmission has brought a job, no further message changes the job or withdraws it. This is for the
  -- stratum modes up to EthereumStratum/1.0.0.
  pub process_response-first_job :
      (msg : J) (c : StratumClient)
      → (c.uri.stratum_mode == 3) ≡ false
      → c.newjobprocessed ≡ true
      → ((process_response json env msg c).0.current ≡ c.current)
        × ((process_response json env msg c).0.newjobprocessed ≡ true)
  unfolding on_notification
  process_response-first_job msg c older taken =
      let kept =
        (message-KeepsAt msg c (λ e. gets-KeepsAt _ _ c (
          if-KeepsAt _ _ _ c (on_method-KeepsAt _ e msg c older taken)
            (at-KeepsAt _ c (pure-Keeps tt))))).same in
      (ap (λ t. t.0) kept, ap (λ t. t.1) kept ∙ taken)
