-- ===== src/Eth/Farm/Accounts.antt =====
-- Farm::accountSolution and Farm::submitProofAsync of libeth/Farm.cpp.
use etcminer.Prelude.{
  ℕ, ◌+◌, Bool, true, false, Option, none, some, Text, get_elem?, set, u32, if◌then◌else◌,
}
use etcminer.Prelude.Int.{ℤ}
use etcminer.Dev.FixedHash.{hash_gt}
use etcminer.Eth.Work.{Solution}
use etcminer.Eth.Miner.Device.{
  SolutionAccount, SolutionAccounting, accept, reject, waste, fail, TelemetryAccount, no_solutions,
}
use etcminer.Eth.Farm.State.{Farm}

-- The counters of one account that a solution moves; the counters are unsigned.
unfoldable pub count_solution : SolutionAccounting → SolutionAccount → SolutionAccount
count_solution accept a = record a {
  accepted = u32 (a.accepted + 1);
  collect_acceptd = u32 (a.collect_acceptd + 1);
}
count_solution waste a = record a { wasted = u32 (a.wasted + 1) }
count_solution reject a = record a { rejected = u32 (a.rejected + 1) }
count_solution fail a = record a { failed = u32 (a.failed + 1) }

unfoldable pub account_to : SolutionAccounting → ℕ → TelemetryAccount → TelemetryAccount
unfolding count_solution
account_to how now t = record t {
  solutions = (record (count_solution how t.solutions) { tstamp = now });
}

-- The farm's account, then the miner's. `true` tells that `miners.at` threw out_of_range, after the
-- farm's account was written.
unfoldable pub account_solution : ℕ → SolutionAccounting → ℕ → Farm → Farm × Bool
unfolding account_to
account_solution idx how now f =
    let counted = record (f.telemetry) { farm = account_to how now f.telemetry.farm } in
    elim (get_elem? f.telemetry.miners idx) [
      | none ↦ (record f { telemetry = counted }, true)
      | some t ↦ (
        record f {
          telemetry = (record counted {
            miners = set f.telemetry.miners idx (account_to how now t);
          });
        },
        false,
      )
    ]

-- getSolutions(idx): an index out of range reads the static account of no solutions, whose time
-- stamp is `born`.
unfoldable pub get_solutions : ℕ → ℕ → Farm → SolutionAccount
get_solutions idx born f = elim (get_elem? f.telemetry.miners idx) [
  | none ↦ no_solutions born
  | some t ↦ t.solutions
]

-- What submitProofAsync leaves: the farm, and the solution that it passes to m_onSolutionFound.
pub record Submission : Type 0 where
  pub farm : Farm
  pub forwarded : Option Solution
  pub threw : Bool

-- `eval` is EthashAux::eval: the final hash and the mix hash of an epoch, a header and a nonce.
unfoldable pub submit_proof_async : (ℤ → Text → ℕ → Text × Text) → Solution → ℕ → Farm → Submission
unfolding account_solution
submit_proof_async eval s now f =
    let (value, mix) = eval s.work.epoch s.work.header s.nonce in
    if hash_gt value s.work.boundary
    then (let (f', threw) = account_solution s.midx fail now f in
        record { farm = f'; forwarded = none; threw = threw })
    else record { farm = f; forwarded = some (record s { mix_hash = mix }); threw = false }
