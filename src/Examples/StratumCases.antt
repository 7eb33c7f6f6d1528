-- ===== src/Examples/StratumCases.antt =====
-- The stratum client's theorems at concrete inputs, with values of a small type for those of jsoncpp.
use etcminer.Prelude.{
  ℕ, ◌++◌, ◌≡◌, refl, arith, Bool, true, false, [], ◌∷◌, List, Option, some, none, Text, codes,
  text_eq, if◌then◌else◌, is_empty,
}
use etcminer.Dev.Hex.{
  dont_add, to_hex_number, add_prefix, write_hex, pad_left, compact_hex, hex_char,
}
use etcminer.Dev.FixedHash.{zero_hash}
use etcminer.Eth.Work.{Solution, no_work}
use etcminer.Pool.Scheme.{attributes}
use etcminer.Pool.Session.{Session, new_session}
use etcminer.Pool.JsonCpp.{JsonCpp, number}
use etcminer.Pool.Lines.{feed, take_lines, put_first, concat, feed-concat}
use etcminer.Pool.Stratum.State.{
  attempt, is_connected, StratumClient, Env, Effect, ok, calls_accepted, calls_disconnected,
}
use etcminer.Pool.Stratum.Envelope.{Envelope}
use etcminer.Pool.Stratum.Answers.{on_response}
use etcminer.Pool.Stratum.Notifications.{process_response}
use etcminer.Pool.Stratum.Submitting.{
  submit_solution, submit_authorized, submit_params, submission_id, note_id, own_digits,
}
use etcminer.Pool.Stratum.Login.{reevaluate}
use etcminer.Pool.Stratum.Sending.{send, send_socket_data}
use etcminer.Pool.Stratum.Pleas.{bounded_push, enqueue_response_plea}
use etcminer.Pool.Stratum.Solutions.{answer-finds_miner}
use etcminer.Pool.Stratum.Nonce.{nonce-whole}
use etcminer.Pool.Stratum.Detection.{attempts, attempts-end}
use etcminer.Pool.Stratum.Order.{Event, sends, completes, run, requests, line, written-in_order}
use etcminer.Pool.Stratum.Deafness.{process_response-deaf, process_response-first_job}
use etcminer.Pool.Getwork
use etcminer.Pool.Getwork.Queue
use etcminer.Examples.Fixtures.{a_job, a_uri}

-- Values without arrays and without objects in objects.
pub data Json : Type 0 where
  null : Json
  truth : Bool → Json
  word : Text → Json
  object : List (Text × Text) → Json

abbrev find_member : Text → List (Text × Text) → Option Json
find_member name [] = none
find_member name ((key, t) ∷ rest) =
    if text_eq key name then some (word t) else find_member name rest

abbrev pub a_library : JsonCpp Json
a_library = record {
  member = λ v name. elim v [
    | null ↦ some none
    | truth b ↦ none
    | word t ↦ none
    | object fields ↦ some (find_member name fields)
  ];
  element = λ v i. none;
  size = λ v. 0;
  null_value = null;
  is_null = λ v. elim v [ null ↦ true | truth b ↦ false | word t ↦ false | object fields ↦ false ];
  is_empty_value = λ v. elim v [
    | null ↦ true
    | truth b ↦ false
    | word t ↦ false
    | object fields ↦ is_empty fields
  ];
  is_array = λ v. false;
  is_object =
      λ v. elim v [ null ↦ false | truth b ↦ false | word t ↦ false | object fields ↦ true ];
  is_string =
      λ v. elim v [ null ↦ false | truth b ↦ false | word t ↦ true | object fields ↦ false ];
  is_bool = λ v. elim v [ null ↦ false | truth b ↦ true | word t ↦ false | object fields ↦ false ];
  is_uint = λ v. false;
  is_object_like = λ v. false;
  as_string =
      λ v. elim v [ null ↦ some [] | truth b ↦ none | word t ↦ some t | object fields ↦ none ];
  as_bool =
      λ v. elim v [ null ↦ some false | truth b ↦ some b | word t ↦ none | object fields ↦ none ];
  as_uint = λ v. none;
  as_double = λ v. none;
  is_string_like = λ v. false;
  is_bool_like = λ v. false;
  is_array_like = λ v. false;
  elements = λ v. [];
  members = λ v. [];
}

abbrev an_env : Env
an_env = record {
  project_name = codes "etcminer";
  now = 9000;
  stoi = λ t. none;
  stoul = λ t. none;
  stoull = λ t. none;
  target_from_diff = λ d. zero_hash;
  is_nonzero = λ d. false;
}

-- A client that waits to be connected, to a pool whose stratum mode is not known.
abbrev a_client : StratumClient
a_client = record {
  disconnecting = false;
  connecting = false;
  authpending = false;
  connected = false;
  worktimeout = 180;
  responsetimeout = 2;
  current = no_work;
  current_timestamp = 0;
  socket = none;
  message = [];
  newjobprocessed = false;
  pleas_count = 0;
  plea_older = 0;
  plea_times = [];
  tx_pending = false;
  tx_queue = [];
  endpoints = 7 ∷ [];
  endpoint = none;
  solution_submitted_max_id = 0;
  session = none;
  uri = record (a_uri (codes "pool.org")) { scheme = codes "stratum" };
  effects = [];
}

abbrev a_session : Session
a_session = record (new_session 0) { subscribed = true; authorized = true }

-- One with a session, in stratum mode 0.
abbrev mining : StratumClient
mining = record a_client {
  connected = true;
  socket = some true;
  session = some a_session;
  uri = record a_client.uri { stratum_mode = 0; stratum_mode_confirmed = true };
}

feed-concat_example :
    feed (codes "ab") ((codes "c" ++ 10 ∷ codes "d") ∷ (101 ∷ 10 ∷ []) ∷ [])
    ≡ take_lines (codes "ab" ++ concat ((codes "c" ++ 10 ∷ codes "d") ∷ (101 ∷ 10 ∷ []) ∷ []))
unfolding take_lines put_first
feed-concat_example =
    feed-concat (codes "ab") ((codes "c" ++ 10 ∷ codes "d") ∷ (101 ∷ 10 ∷ []) ∷ []) refl

-- The nonce 0xab00000000000005, of which the pool has fixed the first two digits.
abbrev a_solution : Solution
a_solution = record { nonce = 12321848580485677061; mix_hash = zero_hash; work = a_job; midx = 1 }

nonce-whole_example :
    to_hex_number 171 dont_add 2 ++ codes "00000000000005"
    ≡ to_hex_number 12321848580485677061 dont_add 16
unfolding own_digits to_hex_number add_prefix write_hex pad_left compact_hex hex_char
nonce-whole_example = nonce-whole a_solution 171 (omega arith) (omega arith) (omega arith) refl refl

abbrev the_client : Option StratumClient → StratumClient
the_client none = mining
the_client (some c) = c

abbrev submitted : StratumClient
submitted = the_client (submit_solution an_env a_solution mining)

abbrev accepted : Envelope
accepted = record {
  is_rpc2 = false;
  is_valid = true;
  id = 41;
  is_success = true;
  method = [];
  is_notification = false;
}

answer-finds_miner_example :
    (q : StratumClient) × (delay : ℕ) × (on_response a_library an_env 0
        submitted.solution_submitted_max_id accepted
        (truth true)
        (truth true)
        submitted
      ≡ (q, ok tt))
    × (q.effects ≡ calls_accepted delay 1 false ∷ submitted.effects)
unfolding submit_solution submit_authorized submit_params submission_id reevaluate attempt send
    send_socket_data enqueue_response_plea note_id is_connected bounded_push
answer-finds_miner_example =
    answer-finds_miner a_library an_env a_solution a_session mining submitted accepted (truth true)
      (truth true) true refl refl (omega arith) refl refl refl (λ x. refl)

abbrev a_notification : Json
a_notification =
    object ((codes "method", codes "mining.notify") ∷ (codes "params", codes "job") ∷ [])

process_response-deaf_example :
    ((process_response a_library an_env a_notification a_client).0.current ≡ no_work)
    × ((process_response a_library an_env a_notification a_client).0.newjobprocessed ≡ false)
process_response-deaf_example = process_response-deaf a_library an_env a_notification a_client refl

-- A client that has read a job.
abbrev with_job : StratumClient
with_job = record mining { newjobprocessed = true; current = a_job }

process_response-first_job_example :
    ((process_response a_library an_env a_notification with_job).0.current ≡ a_job)
    × ((process_response a_library an_env a_notification with_job).0.newjobprocessed ≡ true)
process_response-first_job_example =
    process_response-first_job a_library an_env a_notification with_job refl refl

abbrev some_events : List Event
some_events = sends [] ∷ sends ((codes "id", number 3) ∷ []) ∷ completes 5 ∷ []

written-in_order_example :
    (line (run some_events mining) ≡ line mining ++ requests some_events)
    × ((run some_events mining).tx_pending ≡ false → (run some_events mining).tx_queue ≡ [])
unfolding is_connected
written-in_order_example =
    written-in_order some_events mining (record { up = refl; idle = λ e. refl }) (omega arith)

attempts-end_example :
    ((es : List Effect) × ((attempts a_library an_env null 4 a_client).effects
        ≡ calls_disconnected ∷ es))
    × ((attempts a_library an_env null 4 a_client).uri.unrecoverable ≡ true)
unfolding attributes text_eq
attempts-end_example = attempts-end a_library an_env null 3 a_client (omega arith) (record {
  detects = refl;
  undecided = refl;
  usable = refl;
  mode = refl;
  idle = refl;
  staying = refl;
  fresh = refl;
  somewhere = (7, [], refl);
})

-- A getwork client before its first connection.
abbrev getwork_client : Getwork.GetworkClient
getwork_client = record {
  recheck_period = 500;
  work_timeout = 180;
  connecting = false;
  connected = false;
  tx_pending = false;
  tx_queue = [];
  tx_capacity = 1;
  pending_id = 0;
  pending_stamp = 0;
  endpoints = [];
  session = none;
  current = no_work;
  current_stamp = 0;
  max_id = 0;
  uri = a_client.uri;
  calls = [];
}

abbrev getwork_events : List (ℕ × Queue.Event)
getwork_events =
    (1, Queue.connects 7)
    ∷ (2, Queue.resolved (some (7 ∷ [])))
    ∷ (3, Queue.connection_ends Getwork.succeeded)
    ∷ (4, Queue.response_ends)
    ∷ []
