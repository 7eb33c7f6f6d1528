-- ===== src/Pool/Manager/Active.antt =====
-- The active connection's index: every event keeps it in the range of the list of connections, or the
-- list is empty and the index 0.
use etcminer.Prelude.{
  ℕ, suc, ◌+◌, ◌<◌, ◌≡◌, ◌⊎◌, inl, inr, refl, arith, Bool, List, [], ◌∷◌, Option, some, none, Text,
  length, length-append, length-erase_at, length-erase_at_le, leb, Bool-cases, Option-cases,
}
use etcminer.Eth.Work.{WorkPackage}
use etcminer.Pool.Uri
use etcminer.Pool.Manager.State.{Address, Manager, Env, Outcome, ok, throws, crash, is_connected}
use etcminer.Pool.Manager.Rotate.{
  discard, advance, finish, select, launch, dial, rotate_from, rotate_connect, clamp_active,
}
use etcminer.Pool.Manager.Handlers.{
  miner_restart, solution_found, on_connected, on_disconnected, take_work, on_work_received,
  on_solution_accepted, on_solution_rejected,
}
use etcminer.Pool.Manager.Api
use etcminer.Pool.Manager.Timers.{
  failovertimer_elapsed, submithrtimer_elapsed, reconnecttimer_elapsed,
}
use etcminer.Pool.Manager.Step.{
  Event, rotates, connects, disconnects, works, accepts, rejects, finds, restarts, failover_elapses,
  submithr_elapses, reconnect_elapses, starts, stops, adds, removes, activates, activates_text,
  marks, step, run,
}

abbrev pub ActiveInRange : Manager → Type 0
ActiveInRange p =
    (p.active_connection_idx < length p.settings.connections)
    ⊎ ((length p.settings.connections ≡ 0) × (p.active_connection_idx ≡ 0))

-- What a predicate says of the state that an operation ends in, if it ends in one.
abbrev pub Holds : (Manager → Type 0) → Outcome → Type 0
Holds P (ok q) = P q
Holds P (throws e) = Unit
Holds P crash = Unit

pub discard-ActiveInRange :
    (a : Address) (p : Manager) → ActiveInRange p → ActiveInRange (discard a p)
unfolding discard
discard-ActiveInRange a p (inl h) =
    ground (arith, length-erase_at p.settings.connections p.active_connection_idx h)
discard-ActiveInRange a p (inr h) =
    ground (arith, length-erase_at_le p.settings.connections p.active_connection_idx)

pub advance-ActiveInRange : (p : Manager) → ActiveInRange p → ActiveInRange (advance p)
unfolding advance
advance-ActiveInRange p h = ground arith

dial-ActiveInRange : (o : Option Address) (p : Manager) → ActiveInRange p → ActiveInRange (dial o p)
unfolding dial finish select launch
dial-ActiveInRange none p h = h
dial-ActiveInRange (some a) p h = ground arith

clamp-ActiveInRange : (p : Manager) → ActiveInRange (clamp_active p)
clamp-ActiveInRange p = ground arith

rotate_from-ActiveInRange :
    (o : Option Address) (p : Manager) → ActiveInRange p → Holds ActiveInRange (rotate_from o p)
unfolding rotate_from
rotate_from-ActiveInRange none p h = tt
rotate_from-ActiveInRange (some a) p h =
    dial-ActiveInRange _ _ (advance-ActiveInRange (discard a p) (discard-ActiveInRange a p h))

rotate_connect-ActiveInRange :
    (p : Manager) → ActiveInRange p → Holds ActiveInRange (rotate_connect p)
unfolding rotate_connect
rotate_connect-ActiveInRange p h = elim (Bool-cases (is_connected p.client)) [
  | inl up ↦ rw (up, rotate_connect) h
  | inr down ↦
      rw (down, rotate_connect)
        (rotate_from-ActiveInRange _ (clamp_active p) (clamp-ActiveInRange p))
]

removal-ActiveInRange :
    (i : ℕ) (p : Manager) → ActiveInRange p → Holds ActiveInRange (Api.remove_connection i p)
unfolding Api.remove_connection
removal-ActiveInRange i p h = ground (arith, length-erase_at p.settings.connections i)

common-ActiveInRange :
    (i : ℕ) (p : Manager)
    → i < length p.settings.connections
    → Holds ActiveInRange (Api.set_active_connection_common i p)
unfolding Api.set_active_connection_common
common-ActiveInRange i p h = ground arith

activation-ActiveInRange :
    (i : ℕ) (p : Manager) → ActiveInRange p → Holds ActiveInRange (Api.set_active_connection i p)
unfolding Api.set_active_connection
activation-ActiveInRange i p h = elim (Bool-cases (leb (length p.settings.connections) i)) [
  | inl over ↦ rw (over, Api.set_active_connection) tt
  | inr inside ↦ rw (inside, Api.set_active_connection) (common-ActiveInRange i p (ground arith))
]

-- The search gives an index of the list.
find_connection-lt :
    (uris : Address → Uri.Uri) (t : Text) (k : ℕ) (cs : List Address) (i : ℕ)
    → Api.find_connection uris t k cs ≡ some i
    → i < k + length cs
unfolding Api.find_connection
find_connection-lt uris t k [] i e = cc
find_connection-lt uris t k (a ∷ rest) i e =
    ground (arith, find_connection-lt uris t (suc k) rest i)

activation_text-ActiveInRange :
    (t : Text) (p : Manager)
    → ActiveInRange p
    → Holds ActiveInRange (Api.set_active_connection_text t p)
unfolding Api.set_active_connection_text
activation_text-ActiveInRange t p h =
    elim (Option-cases (Api.find_connection p.uris t 0 p.settings.connections)) [
      | inl e ↦ rw (e, Api.set_active_connection_text) tt
      | inr (i, e) ↦
          rw (e, Api.set_active_connection_text)
            (common-ActiveInRange i p
              (omega (arith, find_connection-lt p.uris t 0 p.settings.connections i e)))
    ]

work-ActiveInRange :
    (env : Env) (w : WorkPackage) (p : Manager)
    → ActiveInRange p
    → Holds ActiveInRange (on_work_received env w p)
unfolding on_work_received take_work
work-ActiveInRange env w p h = ground arith

failover-ActiveInRange :
    (b : Bool) (p : Manager) → ActiveInRange p → Holds ActiveInRange (failovertimer_elapsed b p)
unfolding failovertimer_elapsed
failover-ActiveInRange b p h = ground arith

-- Every event keeps the active index in the range of the list, or the
-- list is empty and the index 0; an operation
-- that throws changes nothing.
pub step-ActiveInRange :
    (env : Env) (p : Manager) (e : Event) → ActiveInRange p → Holds ActiveInRange (step env p e)
unfolding step
step-ActiveInRange env p rotates h = rotate_connect-ActiveInRange p h
step-ActiveInRange env p connects h = unfold on_connected in h
step-ActiveInRange env p disconnects h = unfold on_disconnected in ground arith
step-ActiveInRange env p (works w) h = work-ActiveInRange env w p h
step-ActiveInRange env p (accepts i) h = unfold on_solution_accepted in ground arith
step-ActiveInRange env p (rejects i) h = unfold on_solution_rejected in ground arith
step-ActiveInRange env p (finds s) h = unfold solution_found in ground arith
step-ActiveInRange env p restarts h = unfold miner_restart in h
step-ActiveInRange env p (failover_elapses b) h = failover-ActiveInRange b p h
step-ActiveInRange env p (submithr_elapses b) h = unfold submithrtimer_elapsed in ground arith
step-ActiveInRange env p (reconnect_elapses b) h = unfold reconnecttimer_elapsed in ground arith
step-ActiveInRange env p starts h = unfold Api.start in h
step-ActiveInRange env p stops h = unfold Api.stop in ground arith
step-ActiveInRange env p (adds a) h =
    unfold Api.add_connection in ground (arith, length-append p.settings.connections (a ∷ []))
step-ActiveInRange env p (removes i) h = removal-ActiveInRange i p h
step-ActiveInRange env p (activates i) h = activation-ActiveInRange i p h
step-ActiveInRange env p (activates_text t) h = activation_text-ActiveInRange t p h
step-ActiveInRange env p (marks a) h = h

-- If the active index is in the range of the connections, or 0 where there are none, then it is so
-- after every series of events that meets no undefined behaviour on the way.
pub run-ActiveInRange :
    (env : Env) (p q : Manager) (es : List Event)
    → ActiveInRange p
    → run env p es ≡ some q
    → ActiveInRange q
unfolding run
run-ActiveInRange env p q [] h e = ground arith
run-ActiveInRange env p q (ev ∷ es) h e =
    go (step env p ev) refl (λ r. run-ActiveInRange env r q es)
  where
    go :
        (o : Outcome)
        → step env p ev ≡ o
        → ((r : Manager) → ActiveInRange r → run env r es ≡ some q → ActiveInRange q)
        → ActiveInRange q
    go (ok r) s later = later r (rw s at (step-ActiveInRange env p ev h)) (rw (s, run) at e)
    go (throws x) s later = later p h (rw (s, run) at e)
    go crash s later = let bad : none ≡ some q = rw (s, run) at e in cc
