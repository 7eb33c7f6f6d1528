-- ===== src/Pool/Getwork.antt =====
-- libpool/getwork/EthGetworkClient.h, libpool/getwork/EthGetworkClient.cpp: the client that asks for work
-- over HTTP, with one connection for each request.
pub mod Queue
use etcminer.Prelude.{
  ℕ, ◌+◌, ◌-◌, ◌*◌, ◌/◌, Bool, true, false, not, ◌&&◌, List, [], ◌∷◌, ◌++◌, Option, some, none,
  Text, codes, text_eq, length, leb, ltb, ◌==◌, if◌then◌else◌,
}
use etcminer.Dev.Hex.{add, dont_add, to_hex, to_hex_number}
use etcminer.Dev.FixedHash.{hash_of_text}
use etcminer.Eth.Work.{WorkPackage, no_work, Solution}
use etcminer.Pool.Uri
use etcminer.Pool.Uri.{Uri}
use etcminer.Pool.Session.{Session, new_session, duration}
use etcminer.Pool.JsonCpp.{JsonCpp, Field, element_text, process_error}
use etcminer.Pool.Stratum.State.{Request}
use etcminer.Pool.Stratum.Connecting.{is_name, id_member, method_member, params_member, rpc_member}
use etcminer.Pool.Stratum.Envelope.{holds}
use etcminer.Pool.Stratum.Submitting.{larger, submission_id}

-- What the client asks of asio and of its handlers.
pub data Call : Type 0 where
  resolves closes cancels_timer : Call
  connects : ℕ → Call
  posts : Request → Call
  awaits_response : Call
  arms_timer : ℕ → Call
  calls_connected calls_disconnected : Call
  calls_work : WorkPackage → Call
  calls_accepted calls_rejected : ℕ → ℕ → Call

-- The members, with m_pendingJReq by its id, and the URI object behind m_conn. An endpoint is a number.
-- m_txQueue is constructed without a capacity: `tx_capacity` is how many lines the queue of boost then
-- takes by bounded_push, which is not known here.
pub record GetworkClient : Type 0 where
  pub recheck_period : ℕ
  pub work_timeout : ℕ
  pub connecting : Bool
  pub connected : Bool
  pub tx_pending : Bool
  pub tx_queue : List Request
  pub tx_capacity : ℕ
  pub pending_id : ℕ
  pub pending_stamp : ℕ
  pub endpoints : List ℕ
  pub session : Option Session
  pub current : WorkPackage
  pub current_stamp : ℕ
  pub max_id : ℕ  -- m_solution_submitted_max_id
  pub uri : Uri
  pub calls : List Call

abbrev pub ask : Call → GetworkClient → GetworkClient
ask x c = record c { calls = x ∷ c.calls }

-- m_jsonGetWork
unfoldable pub get_work : Request
get_work = id_member 1 ∷ rpc_member ∷ method_member (codes "eth_getWork") ∷ params_member [] ∷ []

unfoldable pub end_session : ℕ → GetworkClient → GetworkClient
end_session now c = elim c.session [
  | none ↦ c
  | some s ↦ record c { session = none; uri = Uri.add_duration (duration now s) c.uri }
]

unfoldable pub disconnect : ℕ → GetworkClient → GetworkClient
disconnect now c =
    let q = end_session now c in
    ask calls_disconnected (
      ask cancels_timer
        (record q { connected = false; connecting = false; tx_pending = false; tx_queue = [] }))

unfoldable pub begin_connect : ℕ → GetworkClient → GetworkClient
begin_connect now c = elim c.endpoints [ [] ↦ disconnect now c | e ∷ es ↦ ask (connects e) c ]

-- send. A line of JSON is never empty.
unfoldable pub send : ℕ → Request → GetworkClient → GetworkClient
send now r c =
    let q = record c {
      tx_queue =
          (if ltb (length c.tx_queue) c.tx_capacity then c.tx_queue ++ r ∷ [] else c.tx_queue);
    } in
    if c.tx_pending then q else begin_connect now (record q { tx_pending = true })

-- connect. `address` is the endpoint of a host that is an IP address.
unfoldable pub connect : ℕ → ℕ → GetworkClient → GetworkClient
connect now address c =
    if c.connecting
    then c
    else (let q = ask cancels_timer (record c { connecting = true; endpoints = [] }) in
        if is_name c.uri.host_type
        then ask resolves q
        else send now get_work (record q { endpoints = address ∷ [] }))

-- handle_resolve, with the endpoints that were found or none for an error.
unfoldable pub handle_resolve : ℕ → Option (List ℕ) → GetworkClient → GetworkClient
handle_resolve now none c = disconnect now c
handle_resolve now (some found) c =
    send now get_work (record c { endpoints = c.endpoints ++ found })

-- The next endpoint, after an error.
unfoldable pub next_endpoint : ℕ → GetworkClient → GetworkClient
next_endpoint now c =
    begin_connect now (record c { endpoints = (elim c.endpoints [ [] ↦ [] | e ∷ es ↦ es ]) })

-- The first connection starts a session.
unfoldable pub open_session : ℕ → GetworkClient → GetworkClient
open_session now c =
    if c.connecting
    then ask calls_connected (record c {
      connected = true;
      connecting = false;
      session = some (record (new_session now) { subscribed = true; authorized = true });
      current_stamp = now;
    })
    else c

-- The first message of the queue is posted; the ids of the requests are read by `id_of`.
unfoldable pub post_first : (Request → ℕ) → ℕ → GetworkClient → GetworkClient
post_first id_of now c = elim c.tx_queue [
  | [] ↦ record c { tx_pending = false }
  | r ∷ rs ↦ ask (posts r) (record c { tx_queue = rs; pending_id = id_of r; pending_stamp = now })
]

-- How an operation of asio ended.
pub data Ended : Type 0 where
  succeeded aborted failed : Ended

unfoldable pub handle_connect : (Request → ℕ) → Ended → ℕ → GetworkClient → GetworkClient
handle_connect id_of succeeded now c = post_first id_of now (open_session now c)
handle_connect id_of aborted now c = c
handle_connect id_of failed now c = next_endpoint now c

unfoldable pub handle_write : Ended → ℕ → GetworkClient → GetworkClient
handle_write succeeded now c = ask awaits_response c
handle_write aborted now c = c
handle_write failed now c = next_endpoint now c

-- submitSolution, and submitHashrate with the rate as it is written.
unfoldable pub submit_solution : ℕ → Solution → GetworkClient → GetworkClient
submit_solution now s c = elim c.session [
  | none ↦ c
  | some session ↦
      (let nonce = codes "0x" ++ to_hex_number s.nonce dont_add 16 in
        let params = nonce ∷ to_hex s.work.header 2 add ∷ to_hex s.mix_hash 2 add ∷ [] in
        send now
          (id_member (submission_id s)
            ∷ rpc_member
            ∷ method_member (codes "eth_submitWork")
            ∷ params_member params
            ∷ [])
          (record c { max_id = larger c.max_id (submission_id s) }))
]

unfoldable pub submit_hashrate : ℕ → ℕ → Text → GetworkClient → GetworkClient
submit_hashrate now rate id c = elim c.session [
  | none ↦ c
  | some session ↦
      send now
        (id_member 9
          ∷ rpc_member
          ∷ method_member (codes "eth_submitHashrate")
          ∷ params_member (to_hex_number rate add 16 ∷ id ∷ [])
          ∷ [])
        c
]

-- getwork_timer_elapsed, where the timer was not cancelled.
unfoldable pub timer_elapsed : ℕ → GetworkClient → GetworkClient
timer_elapsed now c =
    if ltb c.work_timeout ((now - c.current_stamp) / 1000)
    then disconnect now (record c { endpoints = (elim c.endpoints [ [] ↦ [] | e ∷ es ↦ es ]) })
    else send now get_work c

-- The end of handle_read, after the response was processed.
unfoldable pub after_response : ℕ → GetworkClient → GetworkClient
after_response now c = elim c.tx_queue [
  | [] ↦ record c { tx_pending = false }
  | r ∷ rs ↦ begin_connect now c
]

-- A package that differs from the current one by its header.
unfoldable pub take_package : ℕ → WorkPackage → GetworkClient → GetworkClient
take_package now w c = ask (arms_timer c.recheck_period) (
    if text_eq c.current.header w.header
    then c
    else ask (calls_work w) (record c { current = w; current_stamp = now }))

module _ {J : Type 0} (json : JsonCpp J) where
  -- The package of a response's result; none for an exception, which nothing catches.
  unfoldable pub read_work : J → Option WorkPackage
  read_work result = elim (element_text json result 0) [
    | none ↦ none
    | some t0 ↦ elim (hash_of_text 32 t0) [
      | none ↦ none
      | some header ↦ elim (element_text json result 1) [
        | none ↦ none
        | some t1 ↦ elim (hash_of_text 32 t1) [
          | none ↦ none
          | some seed ↦ elim (element_text json result 2) [
            | none ↦ none
            | some t2 ↦ elim (hash_of_text 32 t2) [
              | none ↦ none
              | some boundary ↦ some (record no_work {
                header = header;
                seed = seed;
                boundary = boundary;
                job = to_hex header 2 dont_add;
              })
            ]
          ]
        ]
      ]
    ]
  ]

  -- The response to eth_getWork. One without a result, which is not an error, leaves the timer alone.
  unfoldable pub on_work : ℕ → Bool → J → GetworkClient → Option GetworkClient
  on_work now false msg c = some (ask (arms_timer 30000) c)
  on_work now true msg c = elim (json.member msg (codes "result")) [
    | none ↦ none
    | some none ↦ some c
    | some (some result) ↦ elim (read_work result) [
      | none ↦ none
      | some w ↦ some (take_package now w c)
    ]
  ]

  -- The verdict on a submission, with the time since it was posted.
  unfoldable pub report : ℕ → Bool → GetworkClient → GetworkClient
  report now accepted c =
      if accepted
      then ask (calls_accepted (now - c.pending_stamp) (c.pending_id - 40)) c
      else ask (calls_rejected (now - c.pending_stamp) (c.pending_id - 40)) c

  unfoldable pub read_verdict : Option J → Option Bool
  read_verdict result =
      let v : J = elim result [ none ↦ json.null_value | some r ↦ r ] in
      if json.is_bool_like v then json.as_bool v else some true

  unfoldable pub on_submission : ℕ → Bool → J → GetworkClient → Option GetworkClient
  on_submission now false msg c = some (report now false c)
  on_submission now true msg c = elim (json.member msg (codes "result")) [
    | none ↦ none
    | some result ↦ elim (read_verdict result) [ none ↦ none | some b ↦ some (report now b c) ]
  ]

  -- A response, by the id of the request that is pending.
  unfoldable pub by_pending : ℕ → Bool → J → GetworkClient → Option GetworkClient
  by_pending now success msg c =
      if leb c.pending_id 1
      then on_work now success msg c
      else (if not (c.pending_id == 9) && (leb 40 c.pending_id && leb c.pending_id c.max_id)
          then on_submission now success msg c
          else some c)

  -- The reading of the error, which may throw.
  unfoldable pub check_error : ℕ → Option J → J → GetworkClient → Option GetworkClient
  check_error now error msg c =
      if holds json json.is_empty_value true error
      then by_pending now true msg c
      else elim (process_error json msg) [ none ↦ none | some t ↦ by_pending now false msg c ]

  -- processResponse; none for an exception, which nothing catches. A response without an id is ignored.
  unfoldable pub process_response : ℕ → J → GetworkClient → Option GetworkClient
  process_response now msg c = elim (json.member msg (codes "id")) [
    | none ↦ none
    | some none ↦ some c
    | some (some id) ↦ elim (json.member msg (codes "error")) [
      | none ↦ none
      | some error ↦ check_error now error msg c
    ]
  ]
