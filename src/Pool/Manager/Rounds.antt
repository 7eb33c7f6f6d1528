-- ===== src/Pool/Manager/Rounds.antt =====
-- Any number of calls of rotateConnect while no connection comes up.
use native.Mathlib.Nat.{mod-lt, mod-add-mod, mod-eq_of_lt, zero-div, add-zero, add_assoc}
use etcminer.Prelude.{
  ℕ, zero, suc, ◌+◌, ◌/◌, ◌%◌, ◌<◌, ◌≡◌, refl, sym, ap, ◌∙◌, arith, length, leb, leb→le,
  if◌then◌else◌, Bool-cases, inl, inr,
}
use etcminer.Prelude.Arith.{count_within, count_over}
use etcminer.Pool.Manager.State.{Manager, Outcome, ok, throws, crash}
use etcminer.Pool.Manager.Rotate.{rotate_connect, is_exhausted}
use etcminer.Pool.Manager.RoundRobin.{
  Searching, IsDialled, next_index, next_attempt, rotate_connect-Searching,
}

abbrev pub and_then : Outcome → (Manager → Outcome) → Outcome
and_then (ok p) f = f p
and_then (throws e) f = throws e
and_then crash f = crash

-- `k` calls in a row.
unfoldable pub rotations : ℕ → Manager → Outcome
rotations zero p = ok p
rotations (suc k) p = and_then (rotations k p) rotate_connect

-- Where a search stands after its call number k + 1.
pub record Stands (p : Manager) (k : ℕ) (q : Manager) : Type 0 where
  pub searching : Searching q
  pub dialled : IsDialled q
  pub settled : q.settings ≡ p.settings
  pub at_index :
      q.active_connection_idx
      ≡ (p.active_connection_idx + k / p.settings.connection_max_retries)
        % length p.settings.connections
  pub at_attempt : q.connection_attempt ≡ k % p.settings.connection_max_retries + 1

first_call :
    (p q : Manager)
    → Searching p
    → p.connection_attempt ≡ 0
    → (q.active_connection_idx ≡ next_index p)
    → (q.connection_attempt ≡ next_attempt p)
    → (q.active_connection_idx
        ≡ (p.active_connection_idx + 0 / p.settings.connection_max_retries)
          % length p.settings.connections)
      × (q.connection_attempt ≡ 0 % p.settings.connection_max_retries + 1)
first_call p q s fresh ei ea =
    let still : next_index p ≡ p.active_connection_idx = ground (arith, s.limited) in
    let one : next_attempt p ≡ 1 = ground (arith, s.limited) in
    (
      rw (ei, still, zero-div p.settings.connection_max_retries, add-zero p.active_connection_idx)
          (sym (mod-eq_of_lt s.inside)),
      rw (ea, one, mod-eq_of_lt s.limited),
    )

-- The arithmetic of one more call, at `idx` with `att` attempts made.
count_call :
    (r n start k idx att : ℕ)
    → 0 < r
    → idx ≡ (start + k / r) % n
    → att ≡ k % r + 1
    → ((if leb r att then (idx + 1) % n else idx) ≡ (start + suc k / r) % n)
      × ((if leb r att then 1 else att + 1) ≡ suc k % r + 1)
count_call r n start k idx att pos ei ea = elim (Bool-cases (leb r (k % r + 1))) [
  | inl over ↦
      let step = count_over r k pos (omega (arith, leb→le r (k % r + 1) over, mod-lt k pos)) in
      rw (ei, ea, over, step.0, step.1, mod-add-mod (start + k / r) n 1, add_assoc start (k / r) 1)
        (refl, refl)
  | inr within ↦
      let step = count_within r k (ground arith) in rw (ei, ea, within, step.0, step.1) (refl, refl)
]

-- One more call.
further_call :
    (p q : Manager) (k : ℕ)
    → 0 < p.settings.connection_max_retries
    → Stands p k q
    → (next_index q
        ≡ (p.active_connection_idx + suc k / p.settings.connection_max_retries)
          % length p.settings.connections)
      × (next_attempt q ≡ suc k % p.settings.connection_max_retries + 1)
further_call p q k limited st =
    let r = p.settings.connection_max_retries in
    let n = length p.settings.connections in
    let same_limit : q.settings.connection_max_retries ≡ r =
      ap (λ s. s.connection_max_retries) st.settled in
    let same_count : length q.settings.connections ≡ n =
      ap (λ s. length s.connections) st.settled in
    let test : is_exhausted q ≡ leb r q.connection_attempt = rw same_limit (ground arith) in
    rw (test, same_count)
      (count_call r n p.active_connection_idx k q.active_connection_idx q.connection_attempt limited
        st.at_index st.at_attempt)

-- While no connection comes up, call number k + 1 of a search of at least two usable connections, whose
-- attempts are limited and whose active one is untried, ends with a client for the connection that stands k / limit places on, round the list, at
-- attempt k % limit + 1: each connection gets its whole number of attempts, in turn.
pub rotations-Stands :
    (p : Manager) (k : ℕ)
    → Searching p
    → p.connection_attempt ≡ 0
    → (q : Manager) × (rotations (suc k) p ≡ ok q) × Stands p k q
unfolding rotations
rotations-Stands p zero s fresh =
    let (q, run, on, up, same, ei, ea) = rotate_connect-Searching p s in
    let place = first_call p q s fresh ei ea in
    (
      q,
      run,
      record {
        searching = on;
        dialled = up;
        settled = same;
        at_index = place.0;
        at_attempt = place.1;
      },
    )
rotations-Stands p (suc k) s fresh =
    let (q, run, st) = rotations-Stands p k s fresh in
    let (q', run', on, up, same, ei, ea) = rotate_connect-Searching q st.searching in
    let place = further_call p q k s.limited st in
    (
      q',
      rw run run',
      record {
        searching = on;
        dialled = up;
        settled = same ∙ st.settled;
        at_index = ei ∙ place.0;
        at_attempt = ea ∙ place.1;
      },
    )
