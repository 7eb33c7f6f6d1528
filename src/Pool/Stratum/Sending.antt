-- ===== src/Pool/Stratum/Sending.antt =====
-- The queue of outgoing messages, in EthStratumClient.cpp.
use etcminer.Prelude.{ℕ, true, false, not, ◌||◌, [], some, none, ◌==◌, if◌then◌else◌, is_empty}
use etcminer.Pool.Stratum.State.{
  Request, writes, posts_disconnect, StratumClient, emit, is_connected,
}
use etcminer.Pool.Stratum.Pleas.{bounded_push}

-- Every message of the queue is written at once; without a connection they are dropped.
unfoldable pub send_socket_data : StratumClient → StratumClient
send_socket_data c =
    if not (is_connected c) || is_empty c.tx_queue
    then record c { tx_queue = []; tx_pending = false }
    else emit (writes c.tx_queue) (record c { tx_queue = [] })

unfoldable pub send : Request → StratumClient → StratumClient
send r c =
    let q = record c { tx_queue = bounded_push c.tx_queue r } in
    if c.tx_pending then q else send_socket_data (record q { tx_pending = true })

-- How a write ended; `shut_down` is the error of a TLS stream that is shut down.
pub data Written : Type 0 where
  written shut_down failed : Written

-- The time of the last transmission, for EthereumStratum/2.0.0.
unfoldable pub stamp_transmission : ℕ → StratumClient → StratumClient
stamp_transmission now c = elim c.session [
  | none ↦ c
  | some s ↦
      if c.uri.stratum_mode == 3
      then record c { session = some (record s { last_tx_stamp = now }) }
      else c
]

unfoldable pub drop_queue : StratumClient → StratumClient
drop_queue c = record c { tx_queue = []; tx_pending = false }

unfoldable pub disconnect_if_connected : StratumClient → StratumClient
disconnect_if_connected c = if is_connected c then emit posts_disconnect c else c

unfoldable pub on_send_completed : Written → ℕ → StratumClient → StratumClient
on_send_completed written now c =
    let s = stamp_transmission now c in
    if is_empty s.tx_queue then record s { tx_pending = false } else send_socket_data s
on_send_completed shut_down now c = disconnect_if_connected (emit posts_disconnect (drop_queue c))
on_send_completed failed now c = disconnect_if_connected (drop_queue c)
