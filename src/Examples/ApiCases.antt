-- ===== src/Examples/ApiCases.antt =====
-- The theorems on the API at concrete inputs.
use etcminer.Prelude.{
  ◌≡◌, ◌↔◌, refl, arith, true, false, [], ◌∷◌, ◌++◌, List, Option, some, none, Text, codes,
}
use etcminer.Api.Requests.{Connection, Program, Env}
use etcminer.Api.Methods.{process_request, same_password}
use etcminer.Api.ReadOnly.{receive_all-read_only}
use etcminer.Api.Locks.{KnowsPassword, process_request-locked}
use etcminer.Api.Password.{is_plain, same_password_lem}
use etcminer.Api.Receiving.{Receiver, Parsers, receive_all}
use etcminer.Examples.Fixtures.{a_manager}
use etcminer.Examples.Fixtures
use etcminer.Examples.StratumCases.{Json, a_library, object}

abbrev an_api : Env
an_api = record { fresh = 9; make_uri = λ t. none; reboots = false; log_next = 4 }

abbrev a_program : Program
a_program = record { manager = a_manager (0 ∷ []) Fixtures.a_client; log_options = 0; asked = [] }

abbrev a_connection : Connection
a_connection = record { authenticated = true; password = codes "secret"; read_only = true }

abbrev a_request : Json
a_request = object (
    (codes "id", codes "1")
    ∷ (codes "jsonrpc", codes "2.0")
    ∷ (codes "method", codes "miner_restart")
    ∷ [])

abbrev a_stranger : Connection
a_stranger = record a_connection { authenticated = false; read_only = false }

process_request-locked_example :
    ((process_request a_library an_api a_stranger a_program a_request).program ≡ a_program)
    × ((process_request a_library an_api a_stranger a_program a_request).connection.authenticated
          ≡ true
        → KnowsPassword a_library an_api a_stranger a_request)
process_request-locked_example =
    process_request-locked a_library an_api a_stranger a_program a_request refl

same_password_lem_example :
    (same_password (codes "secret") (codes "Secret") ≡ true) ↔ (codes "secret" ≡ codes "Secret")
unfolding is_plain
same_password_lem_example =
    same_password_lem (codes "secret") (codes "Secret") (omega arith) (omega arith) refl refl

abbrev the_parsers : Parsers Json
the_parsers = record { trim = λ t. t; parse = λ t. some a_request; match_http = λ t. none }

abbrev a_receiver : Receiver
a_receiver = record {
  connection = a_connection;
  program = a_program;
  message = codes "{";
  outputs = [];
}

abbrev some_data : List (Option Text)
some_data = some (codes "{}" ++ 10 ∷ []) ∷ none ∷ []

receive_all-read_only_example :
    (receive_all a_library an_api the_parsers some_data a_receiver).program ≡ a_program
receive_all-read_only_example =
    receive_all-read_only a_library an_api the_parsers some_data a_receiver refl
