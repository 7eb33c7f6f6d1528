-- ===== src/Api/Methods.antt =====
-- ApiConnection::processRequest and the methods that it serves, in libapi/ApiServer.cpp.
use etcminer.Prelude.{
  ltb, ◌==◌, ◌+◌, ℕ, ◌-◌, Bool, true, false, ◌&&◌, ◌||◌, [], ◌∷◌, ◌++◌, some, none, Text, codes,
  text_eq, leb, if◌then◌else◌, get_elem?, set, take, replicate,
}
use etcminer.Prelude.Bits.{xor, or}
use etcminer.Eth.Miner
use etcminer.Eth.Miner.Flags.{api_request}
use etcminer.Eth.Farm.State.{Farm, set_nonce}
use etcminer.Pool.JsonCpp.{JsonCpp}
use etcminer.Pool.Uri.{digits_text}
use etcminer.Pool.Manager.State.{
  Outcome, ok, throws, crash, write_uri, PoolError, outstanding_operations, out_of_bounds,
  active_connection, not_found,
}
use etcminer.Pool.Manager.Api
use etcminer.Api.Requests
use etcminer.Api.Requests.{
  Connection, Program, Env, Reply, Answer, answer, fails, told, pong, stat1, stat_detail,
  connections, nonce, silent, crashes, Read, missing, invalid, empty, threw, found, demand,
  demand_or, get_bool, get_uint, get_object, get_text, parse_request_id, posts_restart, runs_reboot,
}

abbrev pub with_farm : (Farm → Farm) → Program → Program
with_farm f g = record g { manager = (record (g.manager) { farm = f (g.manager.farm) }) }

-- what(), which is passed on in the response.
unfoldable pub error_message : PoolError → Text
error_message outstanding_operations = codes "Outstanding operations. Retry ..."
error_message out_of_bounds = codes "Index out-of bounds."
error_message active_connection = codes "Can't remove active connection"
error_message not_found = codes "Not found."

-- The end of an operation of the manager that may throw.
unfoldable pub after_manager : Connection → Program → Outcome → Answer
after_manager c g (ok p) = answer c (record g { manager = p }) (told true)
after_manager c g (throws e) = answer c g (fails 422 (error_message e))
after_manager c g crash = answer c g crashes

-- checkApiWriteAccess
unfoldable pub check_write_access : Connection → Program → Answer → Answer
check_write_access c g k =
    if c.read_only then answer c g (fails 32601 (codes "Method not available")) else k

-- A hexadecimal digit of either case.
unfoldable pub is_hex_char : ℕ → Bool
is_hex_char c = (leb 48 c && leb c 57) || ((leb 97 c && leb c 102) || (leb 65 c && leb c 70))

unfoldable pub all_hex : Text → Bool
all_hex [] = true
all_hex (c ∷ t) = is_hex_char c && all_hex t

-- char copy[500] = {0}, and a copy of the text into it.
unfoldable pub copied : Text → Text
copied t = take 500 (t ++ replicate 500 0)

-- A char as an int of 32 bits: it is signed.
unfoldable pub promoted : ℕ → ℕ
promoted c = if ltb c 128 then c else c + 4294967040

-- The loop over the two copies: `result |= input_copy[i] ^ password_copy[i]`.
unfoldable pub accumulate : ℕ → Text → Text → ℕ
unfolding promoted
accumulate result [] ys = result
accumulate result (x ∷ xs) [] = result
accumulate result (x ∷ xs) (y ∷ ys) =
    accumulate (or 32 result (xor 32 (promoted x) (promoted y))) xs ys

-- The test of the password.
unfoldable pub same_password : Text → Text → Bool
unfolding accumulate
same_password a b = accumulate 0 (copied a) (copied b) == 0

unfoldable pub restart : Connection → Program → Answer
restart c g = answer c (record g { asked = posts_restart ∷ g.asked }) (told true)

unfoldable pub reboot : Env → Connection → Program → Answer
reboot env c g = answer c (record g { asked = runs_reboot ∷ g.asked }) (told env.reboots)

unfoldable pub add_connection : Env → Connection → Program → Text → Answer
add_connection env c g uri = elim (env.make_uri uri) [
  | none ↦ answer c g (fails 422 (codes "Bad URI : " ++ uri))
  | some u ↦
      answer c
        (record g {
          manager = Api.add_connection env.fresh (write_uri env.fresh (λ x. u) g.manager);
        })
        (told true)
]

-- A pause or a resumption of one miner.
unfoldable pub pause_gpu : Connection → Program → ℕ → Bool → Answer
pause_gpu c g index pause = elim (get_elem? g.manager.farm.miners index) [
  | none ↦ answer c g (fails 422 (codes "Index out of bounds"))
  | some miner ↦
      (let changed =
          (if pause then Miner.pause api_request miner else Miner.resume api_request miner) in
        answer c (with_farm (λ f. record f { miners = set f.miners index changed }) g) (told true))
]

unfoldable pub set_verbosity : Env → Connection → Program → ℕ → Answer
set_verbosity env c g verbosity =
    if leb env.log_next verbosity
    then answer c g (
        fails 422
          (codes "Verbosity out of bounds (0-" ++ digits_text 10 (env.log_next - 1) ++ codes ")"))
    else answer c (record g { log_options = verbosity }) (told true)

unfoldable pub change_nonce : Connection → Program → Text → Answer
change_nonce c g t =
    if all_hex t
    then answer c (with_farm (set_nonce t) g) (told true)
    else answer c g (fails 422 (codes "Invalid nonce"))

module _ {J : Type 0} (json : JsonCpp J) (env : Env) where
  -- jRequestParams, of a method that writes.
  unfoldable pub with_params : J → Connection → Program → (J → Answer) → Answer
  with_params v c g k =
      check_write_access c g (demand (get_object json (codes "params") v) (codes "params") c g k)

  unfoldable pub set_active_connection : Connection → Program → J → Answer
  set_active_connection c g params = elim (json.member params (codes "index")) [
    | none ↦ answer c g Requests.throws
    | some (some x) ↦
        demand_or (get_uint json (codes "index") params) (fails 422 (codes "Invalid index")) c g
          (λ index. after_manager c g (Api.set_active_connection index g.manager))
    | some none ↦
        demand_or (get_text json (codes "URI") params) (fails 422 (codes "Invalid index")) c g
          (λ uri. after_manager c g (Api.set_active_connection_text uri g.manager))
  ]

  unfoldable pub remove_connection : Connection → Program → J → Answer
  remove_connection c g params =
      demand (get_uint json (codes "index") params) (codes "index") c g
        (λ index. after_manager c g (Api.remove_connection index g.manager))

  unfoldable pub read_pause : Connection → Program → J → Answer
  read_pause c g params =
      demand (get_uint json (codes "index") params) (codes "index") c g (λ index.
        demand (get_bool json (codes "pause") params) (codes "pause") c g
          (λ pause. pause_gpu c g index pause))

  -- A request without a nonce succeeds.
  unfoldable pub read_nonce : Connection → Program → J → Answer
  read_nonce c g params = elim (json.member params (codes "nonce")) [
    | none ↦ answer c g Requests.throws
    | some none ↦ answer c g (told true)
    | some (some x) ↦
        demand_or (get_text json (codes "nonce") params) (fails 422 (codes "Invalid nonce")) c g
          (λ t. change_nonce c g t)
  ]

  -- api_authorize, from whose start on the client is not authenticated.
  unfoldable pub authorize : Connection → Program → J → Answer
  authorize c g v =
      let closed = record c { authenticated = false } in
      demand (get_object json (codes "params") v) (codes "params") closed g (λ params.
        demand (get_text json (codes "psw") params) (codes "psw") closed g (λ psw.
          if same_password psw c.password
          then answer (record c { authenticated = true }) g silent
          else answer closed g (fails 401 (codes "Invalid password"))))

  -- The methods that write, by their names.
  unfoldable pub serve_write : Connection → Program → J → Text → Answer
  serve_write c g v method =
      if text_eq method (codes "miner_restart")
      then check_write_access c g (restart c g)
      else (if text_eq method (codes "miner_reboot")
          then check_write_access c g (reboot env c g)
          else (if text_eq method (codes "miner_addconnection")
              then with_params v c g (λ params.
                demand (get_text json (codes "uri") params) (codes "uri") c g
                  (add_connection env c g))
              else (if text_eq method (codes "miner_setactiveconnection")
                  then with_params v c g (set_active_connection c g)
                  else (if text_eq method (codes "miner_removeconnection")
                      then with_params v c g (remove_connection c g)
                      else (if text_eq method (codes "miner_pausegpu")
                          then with_params v c g (read_pause c g)
                          else (if text_eq method (codes "miner_setverbosity")
                              then with_params v c g (λ params.
                                demand (get_uint json (codes "verbosity") params)
                                  (codes "verbosity") c g (set_verbosity env c g))
                              else (if text_eq method (codes "miner_setnonce")
                                  then with_params v c g (read_nonce c g)
                                  else answer c g (fails 32601 (codes "Method not found")))))))))

  -- The methods that only read come from the same chain of tests, whose order does not matter.
  unfoldable pub serve : Connection → Program → J → Text → Answer
  serve c g v method =
      if text_eq method (codes "miner_getstat1")
      then answer c g stat1
      else (if text_eq method (codes "miner_getstatdetail")
          then answer c g stat_detail
          else (if text_eq method (codes "miner_ping")
              then answer c g pong
              else (if text_eq method (codes "miner_getconnections")
                  then answer c g (connections (Api.get_connections_json g.manager))
                  else (if text_eq method (codes "miner_getnonce")
                      then answer c g (nonce g.manager.farm.settings.nonce)
                      else serve_write c g v method))))

  -- The authentication, which comes before every method.
  unfoldable pub authenticate : Connection → Program → J → Text → Answer
  authenticate c g v method =
      if text_eq method (codes "api_authorize")
      then authorize c g v
      else (if c.authenticated
          then serve c g v method
          else answer c g (fails 403 (codes "Authorization needed")))

  unfoldable pub check_method : Connection → Program → J → Read Text → Answer
  check_method c g v method =
      demand_or method (fails 32600 (codes "Invalid Request")) c g (authenticate c g v)

  unfoldable pub check_version : Connection → Program → J → Text → Answer
  check_version c g v version =
      if text_eq version (codes "2.0")
      then check_method c g v (get_text json (codes "method") v)
      else answer c g (fails 32600 (codes "Invalid Request"))

  -- The error of a request whose id is missing, empty or of another type.
  unfoldable pub check_id_then : Connection → Program → J → Read Bool → Answer
  check_id_then c g v (found b) =
      demand_or (get_text json (codes "jsonrpc") v) (fails 32600 (codes "Invalid Request")) c g
        (check_version c g v)
  check_id_then c g v threw = answer c g Requests.throws
  check_id_then c g v missing =
      answer c g (fails 32600 (codes "Invalid Request (missing or empty id)"))
  check_id_then c g v empty =
      answer c g (fails 32600 (codes "Invalid Request (missing or empty id)"))
  check_id_then c g v invalid =
      answer c g (fails 32600 (codes "Invalid Request (id has invalid type)"))

  -- processRequest
  unfoldable pub process_request : Connection → Program → J → Answer
  process_request c g v = check_id_then c g v (parse_request_id json v)
