-- ===== src/Pool/Stratum/Pleas.antt =====
-- The queue of the times at which responses were asked for, in EthStratumClient.cpp.
use etcminer.Prelude.{ℕ, ◌+◌, ◌-◌, List, [], ◌∷◌, ◌++◌, ltb, ◌==◌, if◌then◌else◌, length}
use etcminer.Pool.Stratum.State.{StratumClient}

-- bounded_push of a lockfree queue: a queue that is full takes nothing. Those of the client hold 64.
unfoldable pub bounded_push : {A : Type 0} → List A → A → List A
bounded_push xs x = if ltb (length xs) 64 then xs ++ x ∷ [] else xs

unfoldable pub enqueue_response_plea : ℕ → StratumClient → StratumClient
enqueue_response_plea now c = record c {
  pleas_count = c.pleas_count + 1;
  plea_older = (if c.pleas_count == 0 then now else c.plea_older);
  plea_times = bounded_push c.plea_times now;
}

-- m_response_plea_times.pop(response_plea_time)
unfoldable pub pop_plea : StratumClient → StratumClient
pop_plea c = elim c.plea_times [ [] ↦ c | t ∷ ts ↦ record c { plea_older = t; plea_times = ts } ]

-- The delay in milliseconds, which is 0 where nothing was asked for.
unfoldable pub dequeue_response_plea : ℕ → StratumClient → StratumClient × ℕ
dequeue_response_plea now c =
    if c.pleas_count == 0
    then (pop_plea c, 0)
    else (record (pop_plea c) { pleas_count = c.pleas_count - 1 }, now - c.plea_older)

unfoldable pub clear_response_pleas : ℕ → StratumClient → StratumClient
clear_response_pleas now c = record c { pleas_count = 0; plea_times = []; plea_older = now }
