-- ===== src/Pool/Stratum/Receiving.antt =====
-- onRecvSocketDataCompleted, in EthStratumClient.cpp: the lines of a transmission are processed one by
-- one, and at most one job is dispatched at its end.
use etcminer.Prelude.{
  ◌||◌, false, List, [], ◌∷◌, ◌++◌, Option, some, none, Text, if◌then◌else◌, is_empty,
}
use etcminer.Pool.Uri
use etcminer.Pool.Lines.{take_lines}
use etcminer.Pool.JsonCpp.{JsonCpp}
use etcminer.Pool.Stratum.State.{
  StratumClient, Env, ok, thrown, uncaught, emit, set_uri, is_connected, calls_work,
  posts_disconnect, starts_reading,
}
use etcminer.Pool.Stratum.Notifications.{process_response}

-- What is done with the text of a line: boost::trim and Json::Reader.
pub record Reader (J : Type 0) : Type 0 where
  pub trim : Text → Text
  pub parse : Text → Option J

-- At the end of a transmission the job that m_current holds goes to the handler, if there was a new one.
unfoldable pub dispatch : StratumClient → StratumClient
dispatch c = if c.newjobprocessed then emit (calls_work c.current) c else c

unfoldable pub keep_reading : StratumClient → StratumClient
keep_reading c = if is_connected c then emit starts_reading c else c

-- A read that failed.
unfoldable pub on_read_error : StratumClient → StratumClient
on_read_error c =
    if is_connected c
    then emit posts_disconnect
        (if c.authpending then set_uri (Uri.mark_unrecoverable c.uri) c else c)
    else c

module _ {J : Type 0} (json : JsonCpp J) (env : Env) (reader : Reader J) where
  -- processResponse of a parsed line. An exception is only logged, unless nothing catches it: then the
  -- program ends, which `none` stands for.
  unfoldable pub process_parsed : Option J → StratumClient → Option StratumClient
  process_parsed none c = some c
  process_parsed (some msg) c =
      let (d, r) = process_response json env msg c in
      elim r [ ok a ↦ some d | thrown ↦ some d | uncaught ↦ none ]

  unfoldable pub process_line : Text → StratumClient → Option StratumClient
  process_line line c =
      let trimmed = reader.trim line in
      if is_empty line || is_empty trimmed then some c else process_parsed (reader.parse trimmed) c

  unfoldable pub process_lines : List Text → StratumClient → Option StratumClient
  process_lines [] c = some c
  process_lines (l ∷ ls) c = elim (process_line l c) [ none ↦ none | some d ↦ process_lines ls d ]

  unfoldable pub finish_transmission : Option StratumClient → Option StratumClient
  finish_transmission none = none
  finish_transmission (some c) = some (keep_reading (dispatch c))

  -- Data has arrived. Each line is taken off m_message when it has been processed.
  unfoldable pub on_recv_socket_data : Text → StratumClient → Option StratumClient
  on_recv_socket_data rx c =
      let found = take_lines (c.message ++ rx) in
      finish_transmission
        (process_lines found.0 (record c { message = found.1; newjobprocessed = false }))
