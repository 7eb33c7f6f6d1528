-- ===== src/Cl/Buffers.antt =====
-- libcl/CLMiner.h and libcl/CLMiner.cpp: free_buffers, kick_miner, and the calls of OpenCL one after
-- the other.
use etcminer.Prelude.{true, false, List, [], ◌∷◌, some, none, if◌then◌else◌}
use etcminer.Eth.Miner
use etcminer.Eth.Miner.Flags.{MinerPause}
use etcminer.Cl.State.{
  ClMiner, Call, OpenCl, abort_search, Ending, returns, throws, locks_again, ◌>>◌,
}

-- m_abortMutex.lock()
unfoldable pub lock_abort : ClMiner → Ending (Unit {0})
lock_abort s =
    if s.abort_locked then locks_again s else returns tt (record s { abort_locked = true })

unfoldable pub unlock_abort : ClMiner → ClMiner
unlock_abort s = record s { abort_locked = false }

-- free_buffers locks the mutex and leaves it locked.
unfoldable pub free_buffers : ClMiner → Ending (Unit {0})
unfolding lock_abort
free_buffers s = lock_abort s >> λ t. returns tt (record t {
  first_dag = false;
  second_dag = false;
  light = false;
  header = false;
  search_buffer = false;
  queue = false;
  abort_queue = false;
  context = false;
})

-- One call, and what it sets if it does not throw.
unfoldable pub call : OpenCl → Call → (ClMiner → ClMiner) → ClMiner → Ending (Unit {0})
call gpu c set s = elim (gpu c) [ none ↦ returns tt (set s) | some e ↦ throws e s ]

-- Calls in their order, up to the first that throws.
unfoldable pub perform : OpenCl → List (Call × (ClMiner → ClMiner)) → ClMiner → Ending (Unit {0})
unfolding call
perform gpu [] s = returns tt s
perform gpu ((c, set) ∷ cs) s = call gpu c set s >> λ t. perform gpu cs t

-- kick_miner. The flag is written to the search buffer over the second queue; an error there leaves
-- the mutex locked.
unfoldable pub kick_miner : OpenCl → ClMiner → Ending (Unit {0})
unfolding lock_abort unlock_abort call
kick_miner gpu s = lock_abort s >> λ t.
    (if t.abort_queue then call gpu abort_search (λ u. u) t else returns tt t) >> λ u.
    returns tt (record (unlock_abort u) { miner = Miner.kick_miner u.miner })

-- Miner::pause, which calls kick_miner of this class; the count of kicks is its own.
unfoldable pub pause : OpenCl → MinerPause → ClMiner → Ending (Unit {0})
unfolding kick_miner
pause gpu what s =
    kick_miner gpu
      (record s { miner = (record (Miner.pause what s.miner) { kicks = s.miner.kicks }) })

unfoldable pub resume : MinerPause → ClMiner → ClMiner
resume what s = record s { miner = Miner.resume what s.miner }
