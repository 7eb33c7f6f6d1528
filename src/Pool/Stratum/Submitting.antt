-- ===== src/Pool/Stratum/Submitting.antt =====
-- submitSolution and submitHashrate, in EthStratumClient.cpp.
use etcminer.Prelude.{
  ℕ, ◌+◌, List, [], ◌∷◌, ◌++◌, Option, some, none, Text, codes, leb, ◌==◌, if◌then◌else◌, drop, u32,
}
use etcminer.Dev.Hex.{add, dont_add, to_hex, to_hex_number, to_compact_hex}
use etcminer.Eth.Work.{Solution}
use etcminer.Pool.Uri
use etcminer.Pool.Uri.{Uri}
use etcminer.Pool.Session.{Session}
use etcminer.Pool.Stratum.State.{Request, StratumClient, Env, is_connected}
use etcminer.Pool.Stratum.Pleas.{enqueue_response_plea}
use etcminer.Pool.Stratum.Sending.{send}
use etcminer.Pool.Stratum.Connecting.{id_member, method_member, params_member, rpc_member, optional}

-- The nonce without the digits that the pool has fixed; substr throws where there are not so many.
unfoldable pub own_digits : Solution → Option Text
own_digits s =
    if leb s.work.ex_size_bytes 16
    then some (drop s.work.ex_size_bytes (to_hex_number s.nonce dont_add 16))
    else none

-- The parameters of a submission by the stratum mode; a mode that is none of the four sends none.
unfoldable pub submit_params : Uri → Session → Solution → Option (List Text)
submit_params u session s =
    let nonce = to_hex_number s.nonce add 16 in
    let header = to_hex s.work.header 2 add in
    let mix = to_hex s.mix_hash 2 add in
    if u.stratum_mode == 0
    then some (u.user ∷ s.work.job ∷ nonce ∷ header ∷ mix ∷ [])
    else (if u.stratum_mode == 1 then some (nonce ∷ header ∷ mix ∷ []) else elim (own_digits s) [
      | none ↦ if leb u.stratum_mode 3 then none else some []
      | some own ↦
          if u.stratum_mode == 2
          then some (Uri.user_dot_worker u ∷ s.work.job ∷ own ∷ [])
          else (if u.stratum_mode == 3
              then some (s.work.job ∷ own ∷ session.worker_id ∷ [])
              else some [])
    ])

unfoldable pub submit_method : ℕ → Text
submit_method mode = if mode == 1 then codes "eth_submitWork" else codes "mining.submit"

unfoldable pub submit_request : Uri → ℕ → List Text → Request
submit_request u id params =
    id_member id
    ∷ method_member (submit_method u.stratum_mode)
    ∷ params_member params
    ∷ ((if u.stratum_mode == 0 then rpc_member ∷ [] else [])
        ++ (if leb u.stratum_mode 1 then optional (codes "worker") u.worker else []))

abbrev pub larger : ℕ → ℕ → ℕ
larger a b = if leb a b then b else a

-- The id by which the answer finds the miner.
unfoldable pub submission_id : Solution → ℕ
submission_id s = u32 (40 + s.midx)

unfoldable pub note_id : ℕ → StratumClient → StratumClient
note_id id c = record c { solution_submitted_max_id = larger c.solution_submitted_max_id id }

-- none stands for the exception of substr.
unfoldable pub submit_authorized : Env → Solution → Session → StratumClient → Option StratumClient
submit_authorized env s session c = elim (submit_params c.uri session s) [
  | none ↦ none
  | some params ↦ some (
      send (submit_request c.uri (submission_id s) params)
        (enqueue_response_plea env.now (note_id (submission_id s) c)))
]

-- A solution is dropped without an authorized session.
unfoldable pub submit_solution : Env → Solution → StratumClient → Option StratumClient
submit_solution env s c = elim c.session [
  | none ↦ some c
  | some session ↦ if session.authorized then submit_authorized env s session c else some c
]

unfoldable pub hashrate_request : ℕ → Text → Text → Uri → Request
hashrate_request rate id worker_id u =
    if u.stratum_mode == 3
    then id_member 9
      ∷ method_member (codes "mining.hashrate")
      ∷ params_member (to_compact_hex rate dont_add ∷ worker_id ∷ [])
      ∷ []
    else id_member 9
      ∷ rpc_member
      ∷ method_member (codes "eth_submitHashrate")
      ∷ params_member (to_hex_number rate add 32 ∷ id ∷ [])
      ∷ optional (codes "worker") u.worker

-- submitHashrate. In EthereumStratum/2.0.0 it reads the session; without one that is undefined, and none
-- stands for it.
unfoldable pub submit_hashrate : ℕ → Text → StratumClient → Option StratumClient
submit_hashrate rate id c =
    if is_connected c
    then elim c.session [
      | none ↦
          if c.uri.stratum_mode == 3
          then none
          else some (send (hashrate_request rate id [] c.uri) c)
      | some session ↦ some (send (hashrate_request rate id session.worker_id c.uri) c)
    ]
    else some c
