-- ===== src/Pool/Manager/Api.antt =====
-- The operations of PoolManager that the program and its API call: start, stop, and the list of
-- connections.
use etcminer.Prelude.{
  ℕ, suc, ◌+◌, ◌-◌, Bool, true, List, [], ◌∷◌, ◌++◌, Option, some, none, Text, ◌==◌, leb, ltb,
  if◌then◌else◌, erase_at, get_elem?, length, u32,
}
use etcminer.Eth.Farm.Lifecycle
use etcminer.Pool.Uri
use etcminer.Pool.Manager.State.{
  Address, disconnect, post_rotate_connect, Manager, outstanding_operations, out_of_bounds,
  active_connection, not_found, Outcome, ok, throws, crash, emit, is_connected, with_connections,
}

-- addConnection of a URI object.
unfoldable pub add_connection : Address → Manager → Manager
add_connection a p = with_connections (p.settings.connections ++ a ∷ []) p

-- The list without the connection at `idx`, and the active index moved along.
abbrev pub without : ℕ → Manager → Manager
without idx p = with_connections (erase_at p.settings.connections idx) (record p {
  active_connection_idx =
      (if ltb idx p.active_connection_idx
        then p.active_connection_idx - 1
        else p.active_connection_idx);
})

unfoldable pub remove_connection : ℕ → Manager → Outcome
remove_connection idx p =
    if p.async_pending
    then throws outstanding_operations
    else (if leb (length p.settings.connections) idx
        then throws out_of_bounds
        else (if idx == p.active_connection_idx
            then throws active_connection
            else ok (without idx p)))

-- p_client->disconnect(), which is undefined where there is no client.
abbrev pub disconnect_client : Manager → Outcome
disconnect_client p = elim p.client [ none ↦ crash | some c ↦ ok (emit disconnect p) ]

-- The flag is claimed, the switch counted, and the attempts start anew.
abbrev pub switched : ℕ → Manager → Manager
switched idx p = record p {
  async_pending = true;
  connection_switches = u32 (p.connection_switches + 1);
  active_connection_idx = idx;
  connection_attempt = 0;
}

unfoldable pub set_active_connection_common : ℕ → Manager → Outcome
set_active_connection_common idx p =
    if p.async_pending
    then throws outstanding_operations
    else (if idx == p.active_connection_idx then ok p else disconnect_client (switched idx p))

unfoldable pub set_active_connection : ℕ → Manager → Outcome
unfolding set_active_connection_common
set_active_connection idx p =
    if leb (length p.settings.connections) idx
    then throws out_of_bounds
    else set_active_connection_common idx p

-- The search of setActiveConnection by text: the first connection whose URI is equal up to case.
unfoldable pub find_connection : (Address → Uri.Uri) → Text → ℕ → List Address → Option ℕ
find_connection uris text idx [] = none
find_connection uris text idx (a ∷ rest) =
    let later = find_connection uris text (suc idx) rest in
    if Uri.iequals (uris a).uri text then some idx else later

unfoldable pub set_active_connection_text : Text → Manager → Outcome
unfolding find_connection set_active_connection_common
set_active_connection_text text p = elim (find_connection p.uris text 0 p.settings.connections) [
  | none ↦ throws not_found
  | some idx ↦ set_active_connection_common idx p
]

unfoldable pub get_active_connection : Manager → Option Address
get_active_connection p = get_elem? p.settings.connections p.active_connection_idx

-- One entry of getConnectionsJson.
pub record ConnectionEntry : Type 0 where
  pub entry_index : ℕ
  pub is_active : Bool
  pub entry_uri : Text

unfoldable pub list_connections : Manager → ℕ → List Address → List ConnectionEntry
list_connections p i [] = []
list_connections p i (a ∷ rest) =
    record { entry_index = i; is_active = i == p.active_connection_idx; entry_uri = (p.uris a).uri }
    ∷ list_connections p (suc i) rest

unfoldable pub get_connections_json : Manager → List ConnectionEntry
unfolding list_connections
get_connections_json p = list_connections p 0 p.settings.connections

unfoldable pub start : Manager → Manager
start p = emit post_rotate_connect (record p {
  running = true;
  async_pending = true;
  connection_switches = u32 (p.connection_switches + 1);
})

-- stop, up to its wait for the client's onDisconnected; then p_client is dropped (`stopped`).
unfoldable pub stop : Manager → Manager
stop p =
    if p.running
    then (let q = record p { async_pending = true; stopping = true } in
        if is_connected q.client then emit disconnect q else record q {
          failover_timer = none;
          submithr_timer = none;
          reconnect_timer = none;
          farm = (if q.farm.is_mining then (Lifecycle.stop q.farm).0 else q.farm);
        })
    else p

-- The end of stop's wait.
unfoldable pub stopped : Manager → Manager
stopped p = if p.running then p else record p { client = none }
