-- ===== src/Pool/Stratum/Solutions.antt =====
-- A solution that is submitted, and the pool's answer to it.
use etcminer.Prelude.{
  ℕ, ◌+◌, ◌-◌, ◌<◌, ◌≤◌, ◌≡◌, ◌∙◌, sym, ap, refl, arith, Bool, true, false, ◌∷◌, Option, some, none,
  leb, ◌==◌, if◌then◌else◌, Option-cases, inl, inr,
}
use etcminer.Eth.Work.{Solution}
use etcminer.Pool.Session.{Session}
use etcminer.Pool.JsonCpp.{JsonCpp}
use etcminer.Pool.Stratum.State.{
  ◌>>=◌, modify, Request, StratumClient, Env, Result, ok, thrown, uncaught, calls_accepted,
  calls_rejected,
}
use etcminer.Pool.Stratum.Pleas.{enqueue_response_plea, dequeue_response_plea, pop_plea, pop_plea}
use etcminer.Pool.Stratum.Sending.{send, send_socket_data}
use etcminer.Pool.Stratum.Envelope.{Envelope}
use etcminer.Pool.Stratum.Login.{reevaluate}
use etcminer.Pool.Stratum.Answers.{report, dequeued, on_submission, on_response}
use etcminer.Pool.Stratum.Submitting.{
  submission_id, larger, note_id, submit_params, submit_request, submit_authorized, submit_solution,
}

send-max_id :
    (r : Request) (c : StratumClient)
    → (send r c).solution_submitted_max_id ≡ c.solution_submitted_max_id
unfolding send send_socket_data
send-max_id r c = ground arith

-- The id of a submission is among those that are answers to submissions.
submission-noted :
    (env : Env) (s : Solution) (session : Session) (c d : StratumClient)
    → submit_authorized env s session c ≡ some d
    → leb (submission_id s) d.solution_submitted_max_id ≡ true
unfolding submit_authorized note_id enqueue_response_plea
submission-noted env s session c d sent = elim (Option-cases (submit_params c.uri session s)) [
  | inl e ↦ (let never : none ≡ some d = rw (e, submit_authorized) at sent in cc)
  | inr (params, e) ↦
      (let q : StratumClient = enqueue_response_plea env.now (note_id (submission_id s) c) in
        let request : Request = submit_request c.uri (submission_id s) params in
        let same : some (send request q) ≡ some d = rw (e, submit_authorized) at sent in
        let kept : d ≡ send request q = cc in
        let most : d.solution_submitted_max_id
            ≡ larger c.solution_submitted_max_id (submission_id s) =
          ap (λ (x : StratumClient). x.solution_submitted_max_id) kept ∙ send-max_id request q in
        rw most (ground arith))
]

report-effects :
    (delay id : ℕ) (b stale : Bool) (c : StratumClient)
    → (report delay id b stale c).effects
      ≡ (if b then calls_accepted delay (id - 40) stale else calls_rejected delay (id - 40))
        ∷ c.effects
unfolding report
report-effects delay id true stale c = refl
report-effects delay id false stale c = refl

dequeue-effects :
    (now : ℕ) (c : StratumClient) → (dequeue_response_plea now c).0.effects ≡ c.effects
unfolding dequeue_response_plea pop_plea
dequeue-effects now c = ground arith

-- The client after the verdict on a submission.
abbrev told : ℕ → ℕ → Bool → StratumClient → StratumClient
told now id b d = report (dequeue_response_plea now d).1 id b false (dequeue_response_plea now d).0

when_true : {A : Type 0} {x z : A} (b : Bool) (y : A) → b ≡ true → (if b then x else y) ≡ z → x ≡ z
when_true true y e same = same
when_true false y e same = absurd (ground (arith, e))

with_session :
    {A : Type 0} {x : Session} {z : A} (o : Option Session) (y : A) (f : Session → A)
    → o ≡ some x
    → (elim o [ none ↦ y | some s ↦ f s ]) ≡ z
    → f x ≡ z
with_session none y f e same = let never : none ≡ some _ = e in cc
with_session (some w) y f e same = sym (ap (λ o. elim o [ none ↦ f w | some v ↦ f v ]) e) ∙ same

-- In an authorized session a solution is not dropped.
submit_solution-authorized :
    (env : Env) (s : Solution) (session : Session) (c d : StratumClient)
    → c.session ≡ some session
    → session.authorized ≡ true
    → submit_solution env s c ≡ some d
    → submit_authorized env s session c ≡ some d
unfolding submit_solution
submit_solution-authorized env s session c d here may sent =
    when_true session.authorized (some c) may (
      with_session c.session (some c)
        (λ t. if t.authorized then submit_authorized env s t c else some c) here sent)

submission-runs :
    {J : Type 0} (json : JsonCpp J) (env : Env) (id : ℕ) (d : StratumClient) (success : Bool)
    (v : J) (b : Bool)
    → ((x : StratumClient) → reevaluate json env success v x ≡ (x, ok b))
    → on_submission json env id success v d ≡ (told env.now id b d, ok tt)
unfolding on_submission dequeued ◌>>=◌ reevaluate modify
submission-runs json env id d success v b read =
    let (q, delay) = dequeue_response_plea env.now d in
    ap
      (λ (t : StratumClient × Result Bool). elim t.1 [
        | ok a ↦ (report delay id a false t.0, ok tt)
        | thrown ↦ (t.0, thrown)
        | uncaught ↦ (t.0, uncaught)
      ])
      (read q)

-- The response with the id of a submission goes to the handlers of solutions.
response-runs :
    {J : Type 0} (json : JsonCpp J) (env : Env) (mode max_id : ℕ) (d : StratumClient) (e : Envelope)
    (msg v : J) (b : Bool)
    → 40 ≤ e.id
    → leb e.id max_id ≡ true
    → (mode == 3) ≡ false
    → ((x : StratumClient) → reevaluate json env e.is_success v x ≡ (x, ok b))
    → on_response json env mode max_id e msg v d ≡ (told env.now e.id b d, ok tt)
unfolding on_response
response-runs json env mode max_id d e msg v b large known older read =
    let t1 : (e.id == 1) ≡ false = ground arith in
    let t2 : (e.id == 2) ≡ false = ground arith in
    let t3 : (e.id == 3) ≡ false = ground arith in
    let t4 : leb 40 e.id ≡ true = ground arith in
    rw (t1, t2, t3, t4, known, older) (submission-runs json env e.id d e.is_success v b read)

-- A solution is submitted in an authorized session. When the pool answers with the id of that submission,
-- by a verdict `b` that is read without an exception, the handler for it is called, as the last thing
-- that happens, with the index of the miner that found the solution. This is for the stratum modes
-- up to EthereumStratum/1.0.0, and an index that leaves room for the ids below 40 in 32 bits.
pub answer-finds_miner :
    {J : Type 0} (json : JsonCpp J) (env : Env) (s : Solution) (session : Session)
    (c d : StratumClient) (e : Envelope) (msg v : J) (b : Bool)
    → c.session ≡ some session
    → session.authorized ≡ true
    → s.midx < 4294967256
    → submit_solution env s c ≡ some d
    → e.id ≡ submission_id s
    → (d.uri.stratum_mode == 3) ≡ false
    → ((x : StratumClient) → reevaluate json env e.is_success v x ≡ (x, ok b))
    → (q : StratumClient) × (delay : ℕ) × (on_response json env d.uri.stratum_mode
          d.solution_submitted_max_id e msg v d
        ≡ (q, ok tt))
      × (q.effects
          ≡ (if b then calls_accepted delay s.midx false else calls_rejected delay s.midx)
            ∷ d.effects)
answer-finds_miner json env s session c d e msg v b here may small sent named older read =
    let id = submission_id s in
    let plain : id ≡ 40 + s.midx = unfold submission_id in omega arith in
    let back : e.id - 40 ≡ s.midx = omega (arith, plain, named) in
    let submitted = submit_solution-authorized env s session c d here may sent in
    let known : leb e.id d.solution_submitted_max_id ≡ true =
      rw named (submission-noted env s session c d submitted) in
    let (q, delay) = dequeue_response_plea env.now d in
    (
      told env.now e.id b d,
      delay,
      response-runs json env d.uri.stratum_mode d.solution_submitted_max_id d e msg v b
          (omega (arith, plain, named)) known older read,
      report-effects delay e.id b false q
          ∙ ap
              (λ t.
                (if b then calls_accepted delay t false else calls_rejected delay t) ∷ q.effects)
              back
          ∙ ap
              (λ es.
                (if b then calls_accepted delay s.midx false else calls_rejected delay s.midx) ∷ es)
              (dequeue-effects env.now d),
    )
