-- ===== src/Pool/Stratum/Order.antt =====
-- The order in which messages are written to the pool, against that in which they are sent.
use etcminer.Prelude.{
  ℕ, ◌+◌, ◌<◌, ◌≤◌, ◌≡◌, ◌∙◌, sym, ap, refl, arith, true, false, List, [], ◌∷◌, ◌++◌, length,
  if◌then◌else◌, is_empty, length-append, lt→ltb, Bool-cases, inl, inr,
}
use mathlib.Core.Path.{subst}
use mathlib.Core.List.{append-nil, append_assoc}
use etcminer.Pool.Stratum.State.{Request, StratumClient, Effect, emit, writes, is_connected}
use etcminer.Pool.Stratum.Pleas.{bounded_push}
use etcminer.Pool.Stratum.Sending.{
  send, send_socket_data, stamp_transmission, on_send_completed, written,
}

-- What happens to the queue: a call of send, or the end of a write.
pub data Event : Type 0 where
  sends : Request → Event
  completes : ℕ → Event

abbrev pub step : Event → StratumClient → StratumClient
step (sends r) c = send r c
step (completes now) c = on_send_completed written now c

abbrev pub run : List Event → StratumClient → StratumClient
run [] c = c
run (e ∷ es) c = run es (step e c)

abbrev pub requested : Event → List Request
requested (sends r) = r ∷ []
requested (completes now) = []

abbrev pub requests : List Event → List Request
requests [] = []
requests (e ∷ es) = requested e ++ requests es

abbrev pub written_by : Effect → List Request
written_by (writes rs) = rs
written_by _ = []

-- What was written, from the first message on.
abbrev pub written_out : List Effect → List Request
written_out [] = []
written_out (e ∷ es) = written_out es ++ written_by e

-- The messages that were written, and those that wait.
abbrev pub line : StratumClient → List Request
line c = written_out c.effects ++ c.tx_queue

-- A client with a connection, which has no message waiting while none is being written.
pub record IsSending (c : StratumClient) : Type 0 where
  pub up : is_connected c ≡ true
  pub idle : c.tx_pending ≡ false → c.tx_queue ≡ []

pushed : (xs : List Request) (r : Request) → length xs < 64 → bounded_push xs r ≡ xs ++ r ∷ []
unfolding bounded_push
pushed xs r room = rw (lt→ltb (length xs) 64 room) refl

send-pending :
    (r : Request) (c : StratumClient)
    → is_connected c ≡ true
    → length c.tx_queue < 64
    → c.tx_pending ≡ true
    → send r c ≡ record c { tx_queue = c.tx_queue ++ r ∷ [] }
unfolding send
send-pending r c up room busy = simp (busy, pushed c.tx_queue r room)

-- Everything that waits is written.
send_socket_data-writes :
    (c : StratumClient)
    → is_connected c ≡ true
    → is_empty c.tx_queue ≡ false
    → send_socket_data c ≡ emit (writes c.tx_queue) (record c { tx_queue = [] })
unfolding send_socket_data
send_socket_data-writes c up waiting = simp (up, waiting)

send-idle :
    (r : Request) (c : StratumClient)
    → is_connected c ≡ true
    → c.tx_pending ≡ false
    → c.tx_queue ≡ []
    → send r c ≡ emit (writes (r ∷ [])) (record c { tx_queue = []; tx_pending = true })
unfolding send is_connected
send-idle r c up idle none_left =
    let one : bounded_push c.tx_queue r ≡ r ∷ [] = rw none_left (pushed [] r (omega arith)) in
    simp (idle, one)
      (send_socket_data-writes (record c { tx_queue = r ∷ []; tx_pending = true }) up refl)

-- One event: what it adds to the line, and what stays true.
record IsInOrder (c d : StratumClient) (rs : List Request) : Type 0 where
  added : line d ≡ line c ++ rs
  stays : IsSending d
  grows : length d.tx_queue ≤ length c.tx_queue + length rs

waits-IsInOrder :
    (r : Request) (c : StratumClient)
    → IsSending c
    → c.tx_pending ≡ true
    → IsInOrder c (record c { tx_queue = c.tx_queue ++ r ∷ [] }) (r ∷ [])
unfolding is_connected
waits-IsInOrder r c sending busy = record {
  added = sym (append_assoc (written_out c.effects) c.tx_queue (r ∷ []));
  stays = record {
    up = sending.up;
    idle = λ e. (let never : true ≡ false = sym busy ∙ e in absurd (ground (arith, never)));
  };
  grows = omega (arith, length-append c.tx_queue (r ∷ []));
}

writes-IsInOrder :
    (r : Request) (c : StratumClient)
    → IsSending c
    → c.tx_queue ≡ []
    → IsInOrder c (emit (writes (r ∷ [])) (record c { tx_queue = []; tx_pending = true })) (r ∷ [])
unfolding is_connected
writes-IsInOrder r c sending none_left = record {
  added =
      append-nil (written_out c.effects ++ r ∷ [])
      ∙ ap (λ t. t ++ r ∷ []) (sym (append-nil (written_out c.effects)))
      ∙ ap (λ t. (written_out c.effects ++ t) ++ r ∷ []) (sym none_left);
  stays = record { up = sending.up; idle = λ e. refl };
  grows = omega arith;
}

send-IsInOrder :
    (r : Request) (c : StratumClient)
    → IsSending c
    → length c.tx_queue < 64
    → IsInOrder c (send r c) (r ∷ [])
send-IsInOrder r c sending room = elim (Bool-cases c.tx_pending) [
  | inl busy ↦
      subst (λ d. IsInOrder c d (r ∷ [])) (sym (send-pending r c sending.up room busy))
        (waits-IsInOrder r c sending busy)
  | inr idle ↦
      subst (λ d. IsInOrder c d (r ∷ [])) (sym (send-idle r c sending.up idle (sending.idle idle)))
        (writes-IsInOrder r c sending (sending.idle idle))
]

stamp-keeps :
    (now : ℕ) (c : StratumClient)
    → (line (stamp_transmission now c) ≡ line c)
      × (is_connected (stamp_transmission now c) ≡ is_connected c)
      × ((stamp_transmission now c).tx_queue ≡ c.tx_queue)
unfolding stamp_transmission is_connected
stamp-keeps now c = (ground arith, ground arith, ground arith)

is_empty-nil : {A : Type 0} (xs : List A) → is_empty xs ≡ true → xs ≡ []
is_empty-nil [] e = refl
is_empty-nil (x ∷ xs) e = absurd (ground (arith, e))

rests-IsInOrder :
    (c : StratumClient)
    → is_connected c ≡ true
    → c.tx_queue ≡ []
    → IsInOrder c (record c { tx_pending = false }) []
unfolding is_connected
rests-IsInOrder c up none_left = record {
  added = sym (append-nil (line c));
  stays = record { up = up; idle = λ e. none_left };
  grows = omega arith;
}

flushes-IsInOrder :
    (c : StratumClient)
    → is_connected c ≡ true
    → IsInOrder c (emit (writes c.tx_queue) (record c { tx_queue = [] })) []
unfolding is_connected
flushes-IsInOrder c up = record {
  added = refl;
  stays = record { up = up; idle = λ e. refl };
  grows = omega arith;
}

-- The end of a write, after the time stamp.
completed-IsInOrder :
    (c : StratumClient)
    → is_connected c ≡ true
    → IsInOrder c
        (if is_empty c.tx_queue then record c { tx_pending = false } else send_socket_data c)
        []
completed-IsInOrder c up = elim (Bool-cases (is_empty c.tx_queue)) [
  | inl e ↦
      subst
        (λ b. IsInOrder c (if b then record c { tx_pending = false } else send_socket_data c) [])
        (sym e) (rests-IsInOrder c up (is_empty-nil c.tx_queue e))
  | inr e ↦
      subst
        (λ b. IsInOrder c (if b then record c { tx_pending = false } else send_socket_data c) [])
        (sym e)
        (subst (λ d. IsInOrder c d []) (sym (send_socket_data-writes c up e))
          (flushes-IsInOrder c up))
]

complete-IsInOrder :
    (now : ℕ) (c : StratumClient) → IsSending c → IsInOrder c (on_send_completed written now c) []
unfolding on_send_completed
complete-IsInOrder now c sending =
    let (same_line, same_up, same_queue) = stamp-keeps now c in
    let done = completed-IsInOrder (stamp_transmission now c) (same_up ∙ sending.up) in
    record {
      added = done.added ∙ ap (λ t. t ++ []) same_line;
      stays = done.stays;
      grows =
          subst (λ q. length (on_send_completed written now c).tx_queue ≤ length q + 0) same_queue
            done.grows;
    }

step-IsInOrder :
    (e : Event) (c : StratumClient)
    → IsSending c
    → length c.tx_queue + length (requested e) ≤ 64
    → IsInOrder c (step e c) (requested e)
step-IsInOrder (sends r) c sending room = send-IsInOrder r c sending (omega arith)
step-IsInOrder (completes now) c sending room = complete-IsInOrder now c sending

-- The messages that were written to the pool, followed by those that wait, are the messages that were sent, in
-- the order of the calls of send, and none waits while no write is going on: for every sequence of such
-- calls and of ends of writes without an error, in a connected client that starts so, if all
-- messages that wait at the start or are sent are 64 at most.
pub written-in_order :
    (es : List Event) (c : StratumClient)
    → IsSending c
    → length c.tx_queue + length (requests es) ≤ 64
    → (line (run es c) ≡ line c ++ requests es)
      × ((run es c).tx_pending ≡ false → (run es c).tx_queue ≡ [])
written-in_order [] c sending room = (sym (append-nil (line c)), sending.idle)
written-in_order (e ∷ es) c sending room =
    let both = length-append (requested e) (requests es) in
    let first = step-IsInOrder e c sending (omega (arith, both)) in
    let (later, idle) =
      written-in_order es (step e c) first.stays (omega (arith, both, first.grows)) in
    (
      later
          ∙ ap (λ t. t ++ requests es) first.added
          ∙ append_assoc (line c) (requested e) (requests es),
      idle,
    )
