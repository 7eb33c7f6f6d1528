-- ===== src/Pool/Simulation.antt =====
-- libpool/testing/SimulateClient.cpp: the client that stands in for a pool. Its callbacks are the
-- manager's, which setClientHandlers installs in every client.
use etcminer.Prelude.{ℕ, ◌-◌, Bool, true, false, Option, some, none, Text, ltb, if◌then◌else◌}
use etcminer.Prelude.Int.{ℤ, pos, negsuc}
use etcminer.Dev.FixedHash.{hash_le}
use etcminer.Dev.Worker.{Worker, new_worker, start_working}
use etcminer.Eth.Work.{WorkPackage, no_work, Solution}
use etcminer.Pool.Uri
use etcminer.Pool.Session.{Session, new_session, duration}
use etcminer.Pool.Manager.State.{Client, Manager, Env, Outcome, write_uri}
use etcminer.Pool.Manager.Handlers.{
  on_connected, on_disconnected, on_work_received, on_solution_accepted, on_solution_rejected,
}
use etcminer.Pool.Manager.Step.{set_connected}

-- class SimulateClient, less what it shares with the manager: m_conn and m_connected.
pub record Simulation : Type 0 where
  pub session : Option Session
  pub worker : Worker
  pub block : ℕ  -- unsigned

unfoldable pub new_simulation : ℕ → Simulation
new_simulation block = record { session = none; worker = new_worker; block = block }

-- isSubscribed and isAuthorized of PoolClient
unfoldable pub is_subscribed : Simulation → Bool
is_subscribed c = elim c.session [ none ↦ false | some s ↦ s.subscribed ]

unfoldable pub is_authorized : Simulation → Bool
is_authorized c = elim c.session [ none ↦ false | some s ↦ s.authorized ]

-- connect: a new session, the manager's handler, and the worker.
unfoldable pub connect : Env → ℕ → Simulation → Manager → Simulation × Manager
connect env now c p = (
  record c {
    session = some (record (new_session now) { subscribed = true; authorized = true });
    worker = start_working c.worker;
  },
  on_connected env (record p { client = set_connected true p.client }),
)

-- m_conn of the client that the manager holds.
unfoldable pub connection : Option Client → Option ℕ
connection none = none
connection (some c) = c.conn

-- disconnect, which is undefined without a session or a connection; none stands for that.
unfoldable pub disconnect : ℕ → Simulation → Manager → Option (Simulation × Manager)
disconnect now c p = elim c.session [
  | none ↦ none
  | some s ↦ elim (connection p.client) [
    | none ↦ none
    | some a ↦
        (let q = write_uri a (Uri.add_duration (duration now s)) p in
          some (
            record c { session = none },
            on_disconnected (record q { client = set_connected false q.client }),
          ))
  ]
]

-- submitSolution: a local check against the boundary. `eval` is EthashAux::eval.
unfoldable pub submit_solution : (ℤ → Text → ℕ → Text × Text) → Env → Solution → Manager → Outcome
submit_solution eval env s p =
    if hash_le (eval s.work.epoch s.work.header s.nonce).0 s.work.boundary
    then on_solution_accepted env s.midx p
    else on_solution_rejected env s.midx p

-- An unsigned as an int.
unfoldable pub to_int : ℕ → ℤ
to_int n = if ltb n 2147483648 then pos n else negsuc (4294967295 - n)

-- The package of workLoop, with the random seed and header that it draws and the boundary of
-- difficulty 1.
unfoldable pub first_package : Text → Text → Text → ℕ → WorkPackage
first_package seed header boundary block = record no_work {
  seed = seed;
  header = header;
  block = to_int block;
  boundary = boundary;
}

-- The start of workLoop; the loop after it only measures.
unfoldable pub begin_work : Env → Text → Text → Text → Simulation → Manager → Outcome
begin_work env seed header boundary c p =
    on_work_received env (first_package seed header boundary c.block) p
