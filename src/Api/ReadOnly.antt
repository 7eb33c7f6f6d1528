-- ===== src/Api/ReadOnly.antt =====
-- A connection that is read only, over everything that its client sends.
use etcminer.Prelude.{
  ◌≡◌, ◌∙◌, refl, Bool, true, false, List, [], ◌∷◌, ◌++◌, Option, some, none, Text, codes, text_eq,
  ltb, length, ◌||◌, if◌then◌else◌,
}
use etcminer.Pool.JsonCpp.{JsonCpp}
use etcminer.Pool.Lines.{take_lines}
use etcminer.Api.Requests.{Program, Env}
use etcminer.Api.Access.{process_request-Unchanged}
use etcminer.Api.Receiving.{
  Output, output, page, path_not_found, method_not_allowed, Receiver, Parsers, serve_http,
  process_parsed, process_line, process_lines, process_json, process_message, on_recv_socket_data,
  receive_all,
}

-- What was received left the program alone, and the connection read only.
record IsUntouched (g : Program) (r : Receiver) : Type 0 where
  same : r.program ≡ g
  stays : r.connection.read_only ≡ true

if-IsUntouched :
    (g : Program) (b : Bool) (x y : Receiver)
    → IsUntouched g x
    → IsUntouched g y
    → IsUntouched g (if b then x else y)
if-IsUntouched g true x y first second = first
if-IsUntouched g false x y first second = second

http-IsUntouched :
    (g : Program) (method path : Text) (r : Receiver)
    → IsUntouched g r
    → IsUntouched g (serve_http method path r)
unfolding serve_http
http-IsUntouched g method path r idle =
    let sent : (o : Output) → IsUntouched g (output o (record r { message = [] })) =
      λ o. record { same = idle.same; stays = idle.stays } in
    if-IsUntouched g (text_eq method (codes "GET")) _ _
      (if-IsUntouched g
        (text_eq path (codes "/")
          || (text_eq path (codes "/getstat1") || text_eq path (codes "/metrics")))
        _ _ (sent (page path)) (sent (path_not_found path)))
      (sent (method_not_allowed method))

module _ {J : Type 0} (json : JsonCpp J) (env : Env) (parsers : Parsers J) where
  parsed-IsUntouched :
      (g : Program) (o : Option J) (r : Receiver)
      → IsUntouched g r
      → IsUntouched g (process_parsed json env parsers o r)
  unfolding process_parsed
  parsed-IsUntouched g none r idle = record { same = idle.same; stays = idle.stays }
  parsed-IsUntouched g (some v) r idle =
      let kept = process_request-Unchanged json env r.connection r.program v idle.stays in
      record { same = kept.same ∙ idle.same; stays = kept.stays }

  line-IsUntouched :
      (g : Program) (line : Text) (r : Receiver)
      → IsUntouched g r
      → IsUntouched g (process_line json env parsers line r)
  unfolding process_line
  line-IsUntouched g line r idle =
      if-IsUntouched g _ _ _ idle (parsed-IsUntouched g (parsers.parse (parsers.trim line)) r idle)

  lines-IsUntouched :
      (g : Program) (ls : List Text) (r : Receiver)
      → IsUntouched g r
      → IsUntouched g (process_lines json env parsers ls r)
  unfolding process_lines
  lines-IsUntouched g [] r idle = idle
  lines-IsUntouched g (l ∷ ls) r idle =
      lines-IsUntouched g ls (process_line json env parsers l r) (line-IsUntouched g l r idle)

  json-IsUntouched :
      (g : Program) (r : Receiver)
      → IsUntouched g r
      → IsUntouched g (process_json json env parsers r)
  unfolding process_json
  json-IsUntouched g r idle =
      let kept =
        lines-IsUntouched g (take_lines r.message).0
          (record r { message = (take_lines r.message).1 })
          (record { same = idle.same; stays = idle.stays }) in
      record { same = kept.same; stays = kept.stays }

  matched-IsUntouched :
      (g : Program) (o : Option (Text × Text)) (r : Receiver)
      → IsUntouched g r
      → IsUntouched g (elim o [
        | none ↦ process_json json env parsers r
        | some (method, path) ↦ serve_http method path r
      ])
  matched-IsUntouched g none r idle = json-IsUntouched g r idle
  matched-IsUntouched g (some (method, path)) r idle = http-IsUntouched g method path r idle

  received-IsUntouched :
      (g : Program) (rx : Option Text) (r : Receiver)
      → IsUntouched g r
      → IsUntouched g (on_recv_socket_data json env parsers rx r)
  unfolding on_recv_socket_data process_message
  received-IsUntouched g none r idle = record { same = idle.same; stays = idle.stays }
  received-IsUntouched g (some rx) r idle =
      let next : Receiver = record r { message = r.message ++ rx } in
      let still : IsUntouched g next = record { same = idle.same; stays = idle.stays } in
      if-IsUntouched g (ltb (length next.message) 4) _ _ still
        (matched-IsUntouched g (parsers.match_http next.message) next still)

  all-IsUntouched :
      (g : Program) (data_in : List (Option Text)) (r : Receiver)
      → IsUntouched g r
      → IsUntouched g (receive_all json env parsers data_in r)
  all-IsUntouched g [] r idle = idle
  all-IsUntouched g (rx ∷ later) r idle =
      all-IsUntouched g later (on_recv_socket_data json env parsers rx r)
        (received-IsUntouched g rx r idle)

  -- Whatever the client of a connection that is read only sends, in any number of transmissions, nothing of the
  -- program changes: not the farm, the pool manager or the verbosity, and no restart or reboot is asked
  -- for.
  pub receive_all-read_only :
      (data_in : List (Option Text)) (r : Receiver)
      → r.connection.read_only ≡ true
      → (receive_all json env parsers data_in r).program ≡ r.program
  receive_all-read_only data_in r closed =
      (all-IsUntouched r.program data_in r (record { same = refl; stays = closed })).same
