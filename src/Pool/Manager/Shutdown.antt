-- ===== src/Pool/Manager/Shutdown.antt =====
-- Losing a connection, and stopping: onDisconnected, stop and the miners.
use etcminer.Prelude.{
  ◌≡◌, refl, arith, true, false, List, [], ◌∷◌, map, Option, some, none, text_eq_refl, All,
}
use etcminer.Dev.FixedHash.{zero_hash}
use etcminer.Eth.Work.{has_work}
use etcminer.Eth.Miner
use etcminer.Eth.Miner.{Miner}
use etcminer.Eth.Miner.Flags.{farm_paused}
use etcminer.Eth.Farm.Lifecycle
use etcminer.Eth.Farm.Pausing.{pause-idle}
use etcminer.Pool.Manager.State.{Client, post_rotate_connect, Manager, Env, ok}
use etcminer.Pool.Manager.Handlers.{on_disconnected, unset_connection}
use etcminer.Pool.Manager.Step.{disconnects, set_connected, step}

-- A miner that is paused, with no work.
abbrev pub IsIdle : Miner.Miner → Type 0
IsIdle m = (Miner.paused m ≡ true) × (has_work m.work ≡ false)

pause-All-IsIdle : (ms : List Miner.Miner) → All IsIdle (map (Miner.pause farm_paused) ms)
pause-All-IsIdle [] = tt
pause-All-IsIdle (m ∷ ms) = (pause-idle farm_paused m, pause-All-IsIdle ms)

-- A client that is not connected and holds no URI.
abbrev pub LetGo : Client → Type 0
LetGo c = (c.connected ≡ false) × (c.conn ≡ none)

abbrev pub listed : Option Client → List Client
listed none = []
listed (some c) = c ∷ []

let_go : (c : Option Client) → All LetGo (listed (unset_connection (set_connected false c)))
let_go none = tt
let_go (some c) = ((refl, refl), tt)

-- A connection lost while the manager is not stopping: every miner is paused with no work, the current
-- package is void, the client, if there is one, is not connected and has let go of its URI, neither timer
-- runs, a search is posted, and the flag of a pending operation is set.
pub disconnects-IsIdle :
    (env : Env) (p : Manager)
    → p.stopping ≡ false
    → (q : Manager) × (step env p disconnects ≡ ok q)
      × All IsIdle q.farm.miners
      × (has_work q.current_wp ≡ false)
      × (q.calls ≡ post_rotate_connect ∷ p.calls)
      × (q.async_pending ≡ true)
      × All LetGo (listed q.client)
      × (q.failover_timer ≡ none)
      × (q.submithr_timer ≡ none)
      × (q.running ≡ p.running)
unfolding step on_disconnected Lifecycle.pause has_work
disconnects-IsIdle env p going = (
  on_disconnected (record p { client = set_connected false p.client }),
  refl,
  rw (going, on_disconnected) (pause-All-IsIdle p.farm.miners),
  ground (arith, text_eq_refl zero_hash),
  ground arith,
  ground arith,
  rw (going, on_disconnected) (let_go p.client),
  ground arith,
  ground arith,
  ground arith,
)
