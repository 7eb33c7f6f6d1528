-- ===== src/Api/Receiving.antt =====
-- onRecvSocketDataCompleted of ApiConnection, in libapi/ApiServer.cpp: HTTP requests and lines of JSON.
use etcminer.Prelude.{
  ◌||◌, List, [], ◌∷◌, ◌++◌, Option, some, none, Text, codes, text_eq, ltb, if◌then◌else◌, is_empty,
  length,
}
use etcminer.Pool.JsonCpp.{JsonCpp}
use etcminer.Pool.Lines.{take_lines}
use etcminer.Api.Requests.{Connection, Program, Env, Reply, fails}
use etcminer.Api.Methods.{process_request}

-- What is asked of the socket, which is open: a JSON response, an HTTP response with the status 405 or 404 or with a
-- page, after whose writing the client is disconnected, another read, or the disconnection.
pub data Output : Type 0 where
  responds : Reply → Output
  method_not_allowed path_not_found page : Text → Output
  reads disconnects : Output

-- The connection with m_message, and what it has asked for, newest first.
pub record Receiver : Type 0 where
  pub connection : Connection
  pub program : Program
  pub message : Text
  pub outputs : List Output

-- boost::trim, Json::Reader, and the regular expression of an HTTP request line, with the method and
-- the path that it finds.
pub record Parsers (J : Type 0) : Type 0 where
  pub trim : Text → Text
  pub parse : Text → Option J
  pub match_http : Text → Option (Text × Text)

abbrev pub output : Output → Receiver → Receiver
output o r = record r { outputs = o ∷ r.outputs }

-- GET of the three pages; everything else is an error.
unfoldable pub serve_http : Text → Text → Receiver → Receiver
serve_http method path r =
    let q = record r { message = [] } in
    if text_eq method (codes "GET")
    then (if text_eq path (codes "/")
          || (text_eq path (codes "/getstat1") || text_eq path (codes "/metrics"))
        then output (page path) q
        else output (path_not_found path) q)
    else output (method_not_allowed method) q

module _ {J : Type 0} (json : JsonCpp J) (env : Env) (parsers : Parsers J) where
  -- The message of the parser, which is added to the error, is left out.
  unfoldable pub process_parsed : Option J → Receiver → Receiver
  process_parsed none r = output (responds (fails 32700 (codes "Json parse error"))) r
  process_parsed (some v) r =
      let a = process_request json env r.connection r.program v in
      output (responds a.reply) (record r { connection = a.connection; program = a.program })

  unfoldable pub process_line : Text → Receiver → Receiver
  process_line line r =
      let trimmed = parsers.trim line in
      if is_empty line || is_empty trimmed then r else process_parsed (parsers.parse trimmed) r

  unfoldable pub process_lines : List Text → Receiver → Receiver
  process_lines [] r = r
  process_lines (l ∷ ls) r = process_lines ls (process_line l r)

  unfoldable pub process_json : Receiver → Receiver
  process_json r =
      let found = take_lines r.message in
      output reads (process_lines found.0 (record r { message = found.1 }))

  -- Less than 4 characters wait for more, for which nothing is asked.
  unfoldable pub process_message : Receiver → Receiver
  process_message r = if ltb (length r.message) 4 then r else elim (parsers.match_http r.message) [
    | none ↦ process_json r
    | some (method, path) ↦ serve_http method path r
  ]

  -- The data that has arrived, or none for an error or no data.
  unfoldable pub on_recv_socket_data : Option Text → Receiver → Receiver
  on_recv_socket_data none r = output disconnects r
  on_recv_socket_data (some rx) r = process_message (record r { message = r.message ++ rx })

  -- Transmissions, one after the other.
  abbrev pub receive_all : List (Option Text) → Receiver → Receiver
  receive_all [] r = r
  receive_all (rx ∷ later) r = receive_all later (on_recv_socket_data rx r)
