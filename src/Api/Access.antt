-- ===== src/Api/Access.antt =====
-- Who can change what through the API.
use etcminer.Prelude.{◌≡◌, refl, arith, Bool, true, false, Text, codes, if◌then◌else◌}
use etcminer.Pool.JsonCpp.{JsonCpp}
use etcminer.Api.Requests
use etcminer.Api.Requests.{
  Connection, Program, Env, Reply, Answer, answer, fails, told, pong, stat1, stat_detail,
  connections, nonce, silent, crashes, Read, missing, invalid, empty, threw, found, demand,
  demand_or, get_bool, get_uint, get_object, get_text, parse_request_id,
}
use etcminer.Api.Methods.{
  check_write_access, with_params, authorize, serve_write, serve, authenticate, check_method,
  check_version, check_id_then, process_request,
}

-- An answer that leaves the program alone, over a connection that stays read only.
pub record Unchanged (g : Program) (a : Answer) : Type 0 where
  pub same : a.program ≡ g
  pub stays : a.connection.read_only ≡ true

answer-Unchanged :
    (c : Connection) (g : Program) (r : Reply) → c.read_only ≡ true → Unchanged g (answer c g r)
answer-Unchanged c g r closed = record { same = refl; stays = closed }

if-Unchanged :
    (g : Program) (b : Bool) (x y : Answer)
    → Unchanged g x
    → Unchanged g y
    → Unchanged g (if b then x else y)
if-Unchanged g true x y first second = first
if-Unchanged g false x y first second = second

demand-Unchanged :
    {A : Type 0} (r : Read A) (name : Text) (c : Connection) (g : Program) (k : A → Answer)
    → c.read_only ≡ true
    → ((a : A) → Unchanged g (k a))
    → Unchanged g (demand r name c g k)
unfolding demand Requests.quoted
demand-Unchanged missing name c g k closed later = record { same = refl; stays = closed }
demand-Unchanged invalid name c g k closed later = record { same = refl; stays = closed }
demand-Unchanged empty name c g k closed later = record { same = refl; stays = closed }
demand-Unchanged threw name c g k closed later = record { same = refl; stays = closed }
demand-Unchanged (found a) name c g k closed later = later a

demand_or-Unchanged :
    {A : Type 0} (r : Read A) (e : Reply) (c : Connection) (g : Program) (k : A → Answer)
    → c.read_only ≡ true
    → ((a : A) → Unchanged g (k a))
    → Unchanged g (demand_or r e c g k)
unfolding demand_or
demand_or-Unchanged missing e c g k closed later = record { same = refl; stays = closed }
demand_or-Unchanged invalid e c g k closed later = record { same = refl; stays = closed }
demand_or-Unchanged empty e c g k closed later = record { same = refl; stays = closed }
demand_or-Unchanged threw e c g k closed later = record { same = refl; stays = closed }
demand_or-Unchanged (found a) e c g k closed later = later a

ruleset answers = (answer-Unchanged, if-Unchanged, demand-Unchanged, demand_or-Unchanged)

-- A server that is read only passes no method that writes.
check_write_access-Unchanged :
    (c : Connection) (g : Program) (k : Answer)
    → c.read_only ≡ true
    → Unchanged g (check_write_access c g k)
unfolding check_write_access
check_write_access-Unchanged c g k closed = record {
  same = ground (arith, closed);
  stays = ground (arith, closed);
}

module _ {J : Type 0} (json : JsonCpp J) (env : Env) where
  with_params-Unchanged :
      (v : J) (c : Connection) (g : Program) (k : J → Answer)
      → c.read_only ≡ true
      → Unchanged g (with_params json env v c g k)
  unfolding with_params
  with_params-Unchanged v c g k closed = check_write_access-Unchanged c g _ closed

  authorize-Unchanged :
      (c : Connection) (g : Program) (v : J)
      → c.read_only ≡ true
      → Unchanged g (authorize json env c g v)
  unfolding authorize
  authorize-Unchanged c g v closed =
      let shut : Connection = record c { authenticated = false } in
      demand-Unchanged _ _ shut g _ closed (λ params. demand-Unchanged _ _ shut g _ closed (λ psw.
        if-Unchanged g _ _ _ (answer-Unchanged (record c { authenticated = true }) g _ closed)
          (answer-Unchanged shut g _ closed)))

  serve_write-Unchanged :
      (c : Connection) (g : Program) (v : J) (method : Text)
      → c.read_only ≡ true
      → Unchanged g (serve_write json env c g v method)
  unfolding serve_write
  serve_write-Unchanged c g v method closed =
      search (if-Unchanged, answer-Unchanged, check_write_access-Unchanged, with_params-Unchanged)
        depth 20

  serve-Unchanged :
      (c : Connection) (g : Program) (v : J) (method : Text)
      → c.read_only ≡ true
      → Unchanged g (serve json env c g v method)
  unfolding serve
  serve-Unchanged c g v method closed =
      search (if-Unchanged, answer-Unchanged, serve_write-Unchanged) depth 20

  version-Unchanged :
      (c : Connection) (g : Program) (v : J) (version : Text)
      → c.read_only ≡ true
      → ((method : Text) → Unchanged g (authenticate json env c g v method))
      → Unchanged g (check_version json env c g v version)
  unfolding check_version check_method
  version-Unchanged c g v version closed later =
      if-Unchanged g _ _ _
        (demand_or-Unchanged (get_text json (codes "method") v) _ c g _ closed later)
        (answer-Unchanged c g _ closed)

  id-Unchanged :
      (c : Connection) (g : Program) (v : J) (r : Read Bool)
      → c.read_only ≡ true
      → ((method : Text) → Unchanged g (authenticate json env c g v method))
      → Unchanged g (check_id_then json env c g v r)
  unfolding check_id_then
  id-Unchanged c g v (found b) closed later =
      demand_or-Unchanged _ _ c g _ closed (λ version. version-Unchanged c g v version closed later)
  id-Unchanged c g v threw closed later = answer-Unchanged c g _ closed
  id-Unchanged c g v missing closed later = answer-Unchanged c g _ closed
  id-Unchanged c g v empty closed later = answer-Unchanged c g _ closed
  id-Unchanged c g v invalid closed later = answer-Unchanged c g _ closed

  pub process_request-Unchanged :
      (c : Connection) (g : Program) (v : J)
      → c.read_only ≡ true
      → Unchanged g (process_request json env c g v)
  unfolding process_request authenticate
  process_request-Unchanged c g v closed =
      id-Unchanged c g v (parse_request_id json v) closed (λ method.
        if-Unchanged g _ _ _ (authorize-Unchanged c g v closed) (
          if-Unchanged g _ _ _ (serve-Unchanged c g v method closed)
            (answer-Unchanged c g _ closed)))
