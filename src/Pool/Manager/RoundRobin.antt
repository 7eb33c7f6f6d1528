-- ===== src/Pool/Manager/RoundRobin.antt =====
-- How rotateConnect goes through the connections while none of them comes up: each gets its number of
-- attempts, in the order of the list, round and round.
use etcminer.Prelude.{
  ℕ, ◌+◌, ◌%◌, ◌≤◌, ◌<◌, ◌≡◌, sym, ap, ◌∙◌, arith, Bool, true, false, not, ◌&&◌, some, codes,
  text_eq, get_elem?, length, leb, ◌==◌, if◌then◌else◌, get_elem?-lt,
}
use etcminer.Pool.Uri
use etcminer.Pool.Uri.{Uri}
use etcminer.Pool.Manager.State.{Address, Manager, ok, is_connected}
use etcminer.Pool.Manager.Rotate.{
  discard, advance, select, launch, dial, rotate_from, rotate_connect, clamp_active, is_exhausted,
}

-- A connection that rotateConnect neither discards nor takes for the end.
abbrev pub is_usable : Uri.Uri → Bool
is_usable u = not u.unrecoverable && not (text_eq u.host (codes "exit"))

-- The client is one for the active connection, and not up yet.
pub record IsDialled (q : Manager) : Type 0 where
  pub target : Address
  pub is_active : get_elem? q.settings.connections q.active_connection_idx ≡ some target
  pub client_lem :
      q.client
      ≡ some (record { kind = Uri.family (q.uris target); conn = some target; connected = false })
  pub silent : (q.uris target).responds ≡ false

-- Several usable connections, a limit on the attempts, and no client that is up.
pub record Searching (p : Manager) : Type 0 where
  pub limited : 0 < p.settings.connection_max_retries
  pub limit_word : p.settings.connection_max_retries < 4294967296
  pub several : 2 ≤ length p.settings.connections
  pub count_word : length p.settings.connections < 4294967296
  pub usable : (i a : ℕ) → get_elem? p.settings.connections i ≡ some a → is_usable (p.uris a) ≡ true
  pub inside : p.active_connection_idx < length p.settings.connections
  pub tried : p.connection_attempt ≤ p.settings.connection_max_retries
  pub down : is_connected p.client ≡ false

-- The index and the attempts of the next call.
abbrev pub next_index : Manager → ℕ
next_index p =
    if is_exhausted p
    then (p.active_connection_idx + 1) % length p.settings.connections
    else p.active_connection_idx

abbrev pub next_attempt : Manager → ℕ
next_attempt p = if is_exhausted p then 1 else p.connection_attempt + 1

wrap_index : (i n : ℕ) → i < n → (i + 1) % n ≡ (if leb n (i + 1) then 0 else i + 1)
wrap_index i n h = grind arith

advance-Searching :
    (p : Manager)
    → Searching p
    → ((advance p).active_connection_idx ≡ next_index p)
      × ((advance p).connection_attempt ≡ (if is_exhausted p then 0 else p.connection_attempt))
unfolding advance
advance-Searching p s =
    ground (arith, wrap_index p.active_connection_idx (length p.settings.connections) s.inside)

advance_keeps :
    (p : Manager)
    → ((advance p).settings ≡ p.settings)
      × ((advance p).uris ≡ p.uris)
      × ((advance p).client ≡ p.client)
unfolding advance
advance_keeps p = (ground arith, ground arith, ground arith)

discard_usable :
    (a : Address) (p : Manager)
    → is_usable (p.uris a) ≡ true
    → 2 ≤ length p.settings.connections
    → discard a p ≡ p
unfolding discard
discard_usable a p u h = ground arith

next_index-lt : (p : Manager) → Searching p → next_index p < length p.settings.connections
next_index-lt p s =
    ground (arith, wrap_index p.active_connection_idx (length p.settings.connections) s.inside)

clamp_inside :
    (p : Manager) → p.active_connection_idx < length p.settings.connections → clamp_active p ≡ p
clamp_inside p h = ground arith

-- One call, when it is known which connection is next.
rotate-Searching :
    (p : Manager) (a t : Address)
    → Searching p
    → get_elem? p.settings.connections p.active_connection_idx ≡ some a
    → get_elem? p.settings.connections (next_index p) ≡ some t
    → rotate_connect p ≡ ok (launch (select t (advance p)))
unfolding rotate_connect rotate_from dial
rotate-Searching p a t s ha ht =
    let moved = advance-Searching p s in
    let kept = advance_keeps p in
    let still = discard_usable a p (s.usable _ a ha) s.several in
    let chosen : get_elem? (advance p).settings.connections (advance p).active_connection_idx
        ≡ some t =
      rw (kept.0, moved.0) ht in
    let host : text_eq ((advance p).uris t).host (codes "exit") ≡ false =
      rw kept.1 (ground (arith, s.usable _ t ht)) in
    rw (s.down, rotate_connect, clamp_inside p s.inside, ha, rotate_from, still, chosen, dial, host)

launch_keeps :
    (p : Manager)
    → ((launch p).settings ≡ p.settings)
      × ((launch p).active_connection_idx ≡ p.active_connection_idx)
      × ((launch p).connection_attempt ≡ p.connection_attempt)
      × ((launch p).client ≡ p.client)
      × ((launch p).uris ≡ p.uris)
unfolding launch
launch_keeps p = (ground arith, ground arith, ground arith, ground arith, ground arith)

same_number : (a : ℕ) → (a == a) ≡ true
same_number a = ground arith

-- The object behind the chosen connection changes in one member.
select_uri :
    (t x : Address) (p : Manager)
    → (is_usable ((select t p).uris x) ≡ is_usable (p.uris x))
      × (Uri.family ((select t p).uris x) ≡ Uri.family (p.uris x))
      × (((select t p).uris t).responds ≡ false)
unfolding select Uri.set_responds
select_uri t x p = (ground arith, ground arith, rw (same_number t))

-- What the call leaves of the state.
module _ (p : Manager) (t : Address) (s : Searching p) where
  abbrev chosen_state : Manager
  chosen_state = select t (advance p)

  abbrev after_call : Manager
  after_call = launch chosen_state

  settings_kept : after_call.settings ≡ p.settings
  unfolding select
  settings_kept = (launch_keeps chosen_state).0 ∙ (advance_keeps p).0

  index_moved : after_call.active_connection_idx ≡ next_index p
  unfolding select
  index_moved = (launch_keeps chosen_state).1 ∙ (advance-Searching p s).0

  attempt_counted : after_call.connection_attempt ≡ next_attempt p
  unfolding select
  attempt_counted =
      (launch_keeps chosen_state).2
      ∙ ground (arith, (advance-Searching p s).1, s.tried, s.limit_word)

  uri_kept : (x : Address) → is_usable (after_call.uris x) ≡ is_usable (p.uris x)
  uri_kept x =
      rw ((launch_keeps chosen_state).4, (select_uri t x (advance p)).0, (advance_keeps p).1)

  client_down : is_connected after_call.client ≡ false
  unfolding select
  client_down = rw (launch_keeps chosen_state).3

  Searching-on : Searching after_call
  Searching-on = record {
    limited = rw settings_kept s.limited;
    limit_word = rw settings_kept s.limit_word;
    several = rw settings_kept s.several;
    count_word = rw settings_kept s.count_word;
    usable = λ i a h. uri_kept a ∙ s.usable i a (rw settings_kept at h);
    inside = rw (settings_kept, index_moved) (next_index-lt p s);
    tried = rw (settings_kept, attempt_counted) (ground (arith, s.tried, s.limited));
    down = client_down;
  }

  dialled : get_elem? p.settings.connections (next_index p) ≡ some t → IsDialled after_call
  unfolding select
  dialled ht = record {
    target = t;
    is_active = rw (settings_kept, index_moved) ht;
    client_lem =
        (launch_keeps chosen_state).3
        ∙ ap (λ k. some (record { kind = k; conn = some t; connected = false }))
            (sym (rw (launch_keeps chosen_state).4 ((select_uri t t (advance p)).1)));
    silent = rw (launch_keeps chosen_state).4 (select_uri t t (advance p)).2;
  }

-- One call of rotateConnect while searching: it ends, goes on searching, has a client for the chosen
-- connection, and moves the index and the attempts as `next_index` and `next_attempt` say.
pub rotate_connect-Searching :
    (p : Manager)
    → Searching p
    → (q : Manager) × (rotate_connect p ≡ ok q)
      × Searching q
      × IsDialled q
      × (q.settings ≡ p.settings)
      × (q.active_connection_idx ≡ next_index p)
      × (q.connection_attempt ≡ next_attempt p)
rotate_connect-Searching p s =
    let (a, ha) = get_elem?-lt p.settings.connections p.active_connection_idx s.inside in
    let (t, ht) = get_elem?-lt p.settings.connections (next_index p) (next_index-lt p s) in
    (
      after_call p t s,
      rotate-Searching p a t s ha ht,
      Searching-on p t s,
      dialled p t s ht,
      settings_kept p t s,
      index_moved p t s,
      attempt_counted p t s,
    )
