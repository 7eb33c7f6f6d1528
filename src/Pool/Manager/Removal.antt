-- ===== src/Pool/Manager/Removal.antt =====
-- removeConnection and setActiveConnection: which connection is the active one afterwards.
use etcminer.Prelude.{
  ℕ, ◌+◌, ◌-◌, ◌<◌, ◌≡◌, ◌≢◌, ◌⊎◌, inl, inr, refl, ap, ◌∙◌, arith, false, ◌∷◌, some, get_elem?,
  length, ltb, get_elem?-erase_at_lt, get_elem?-erase_at_ge, length-erase_at, lt→ltb,
}
use etcminer.Pool.Manager.State.{
  Manager, ok, throws, outstanding_operations, Client, disconnect, emit,
}
use etcminer.Pool.Manager.Api

lt_cases : (i j : ℕ) → i ≢ j → (i < j) ⊎ (j < i)
lt_cases i j h = ground arith

not_ltb : (i j : ℕ) → j < i → ltb i j ≡ false
not_ltb i j h = ground arith

still_active :
    (i : ℕ) (p : Manager)
    → i ≢ p.active_connection_idx
    → get_elem? (Api.without i p).settings.connections (Api.without i p).active_connection_idx
      ≡ get_elem? p.settings.connections p.active_connection_idx
still_active i p other = elim (lt_cases i p.active_connection_idx other) [
  | inl below ↦ rw (lt→ltb i p.active_connection_idx below) (
      get_elem?-erase_at_ge p.settings.connections i (p.active_connection_idx - 1) (omega arith)
      ∙ ap (get_elem? p.settings.connections) (omega arith))
  | inr above ↦
      rw (not_ltb i p.active_connection_idx above)
        (get_elem?-erase_at_lt p.settings.connections i p.active_connection_idx above)
]

-- With nothing outstanding, an index in range and not the active one, removeConnection takes one
-- connection off the list, and the active index goes on naming the same object.
pub remove_connection-keeps_active :
    (i : ℕ) (p : Manager)
    → p.async_pending ≡ false
    → i < length p.settings.connections
    → i ≢ p.active_connection_idx
    → (q : Manager) × (Api.remove_connection i p ≡ ok q)
      × (Api.get_active_connection q ≡ Api.get_active_connection p)
      × (length q.settings.connections + 1 ≡ length p.settings.connections)
      × (q.client ≡ p.client)
      × (q.farm.miners ≡ p.farm.miners)
unfolding Api.remove_connection Api.get_active_connection
remove_connection-keeps_active i p free inside other = (
  Api.without i p,
  ground arith,
  still_active i p other,
  length-erase_at p.settings.connections i inside,
  refl,
  refl,
)

-- With nothing outstanding, another index in range than the active one, and a client: setActiveConnection
-- moves to that connection with no attempt made, asks the client to disconnect, and until that is
-- done refuses any further change of connections.
pub set_active_connection-claims :
    (i j : ℕ) (p : Manager) {c : Client}
    → p.async_pending ≡ false
    → i < length p.settings.connections
    → i ≢ p.active_connection_idx
    → p.client ≡ some c
    → j < length p.settings.connections
    → (q : Manager) × (Api.set_active_connection i p ≡ ok q)
      × (Api.get_active_connection q ≡ get_elem? p.settings.connections i)
      × (q.connection_attempt ≡ 0)
      × (q.calls ≡ disconnect ∷ p.calls)
      × (Api.set_active_connection j q ≡ throws outstanding_operations)
      × (Api.remove_connection j q ≡ throws outstanding_operations)
unfolding Api.set_active_connection Api.set_active_connection_common Api.get_active_connection
    Api.remove_connection
set_active_connection-claims i j p free inside other up inside_j =
    (emit disconnect (Api.switched i p), ground arith, refl, refl, refl, ground arith, refl)
