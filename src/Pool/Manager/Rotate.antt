-- ===== src/Pool/Manager/Rotate.antt =====
-- PoolManager::rotateConnect of libpool/PoolManager.cpp: discard what is unrecoverable, move on when the
-- attempts are used up, and connect to the active pool, or end the program when there is none.
use etcminer.Prelude.{
  ◌+◌, Bool, false, not, ◌&&◌, ◌++◌, Option, some, none, codes, ◌==◌, leb, ltb, if◌then◌else◌,
  is_empty, get_elem?, erase_at, length, text_eq, u32,
}
use etcminer.Eth.Farm.Lifecycle
use etcminer.Pool.Uri
use etcminer.Pool.Manager.State.{
  Address, connect, raise_sigterm, Manager, Outcome, ok, crash, emit, is_connected,
  with_connections, write_uri,
}

-- The second bounds check is the first one again.
abbrev pub clamp_active : Manager → Manager
clamp_active p =
    if leb (length p.settings.connections) p.active_connection_idx
    then record p { active_connection_idx = 0 }
    else p

abbrev pub count_switch : Manager → Manager
count_switch p = record p { connection_switches = u32 (p.connection_switches + 1) }

-- connections.erase at the active index
abbrev pub erase_active : Manager → Manager
erase_active p = with_connections (erase_at p.settings.connections p.active_connection_idx) p

-- The attempts are used up, where their number is limited.
abbrev pub is_exhausted : Manager → Bool
is_exhausted p =
    not (p.settings.connection_max_retries == 0)
    && leb p.settings.connection_max_retries p.connection_attempt

-- The first test: drop the active connection if it is marked unrecoverable, or if it is the only one
-- and its attempts are used up.
unfoldable pub discard : Address → Manager → Manager
discard a p =
    if (p.uris a).unrecoverable
    then count_switch (clamp_active (record (erase_active p) { connection_attempt = 0 }))
    else (if length p.settings.connections == 1
        then (if is_exhausted p then erase_active p else p)
        else p)

-- The second test: go on to the next connection if the attempts are used up.
unfoldable pub advance : Manager → Manager
advance p =
    if not (is_empty p.settings.connections) && is_exhausted p
    then count_switch (
        clamp_active (record p {
          connection_attempt = 0;
          active_connection_idx = u32 (p.active_connection_idx + 1);
        }))
    else p

-- No connection is left, or the one named "exit" was reached.
unfoldable pub finish : Manager → Manager
finish p = emit raise_sigterm (record p {
  farm = (if p.farm.is_mining then (Lifecycle.stop p.farm).0 else p.farm);
  running = false;
})

-- A new client for the connection, which setConnection marks as not responding yet; its handlers are
-- those of Handlers.
unfoldable pub select : Address → Manager → Manager
select a p = write_uri a (Uri.set_responds false) (record p {
  client = some (record { kind = Uri.family (p.uris a); conn = some a; connected = false });
  connection_attempt = u32 (p.connection_attempt + 1);
  selected_host = (p.uris a).host ++ codes ":" ++ Uri.port_text (p.uris a).port;
})

-- Connect, at once or after the delay between attempts.
unfoldable pub launch : Manager → Manager
launch p =
    if ltb 1 p.connection_attempt && ltb 0 p.settings.delay_before_retry
    then record p { reconnect_timer = some p.settings.delay_before_retry }
    else emit connect p

unfoldable pub dial : Option Address → Manager → Manager
dial none p = finish p
dial (some a) p = if text_eq (p.uris a).host (codes "exit") then finish p else launch (select a p)

unfoldable pub rotate_from : Option Address → Manager → Outcome
rotate_from none p = crash
rotate_from (some a) p =
    let q = advance (discard a p) in
    ok (dial (get_elem? q.settings.connections q.active_connection_idx) q)

-- `connections.at` throws where there is no connection at all.
unfoldable pub rotate_connect : Manager → Outcome
rotate_connect p =
    if is_connected p.client
    then ok p
    else (let q = clamp_active p in
        rotate_from (get_elem? q.settings.connections q.active_connection_idx) q)
