-- ===== src/Api/Locks.antt =====
-- What a client of the API that is not authenticated can do.
use etcminer.Prelude.{
  ◌≡◌, ◌∙◌, sym, refl, arith, Bool, true, false, Text, codes, text_eq, if◌then◌else◌,
}
use etcminer.Pool.JsonCpp.{JsonCpp}
use etcminer.Api.Requests
use etcminer.Api.Requests.{
  Connection, Program, Env, Reply, Answer, answer, fails, silent, Read, missing, invalid, empty,
  threw, found, demand, demand_or, get_object, get_text, parse_request_id,
}
use etcminer.Api.Methods.{
  authorize, authenticate, check_method, check_version, check_id_then, process_request,
  same_password,
}

module _ {J : Type 0} (json : JsonCpp J) (env : Env) where
  -- The request carries a text as its psw that passes the test of the password.
  abbrev pub KnowsPassword : Connection → J → Type 0
  KnowsPassword c v =
      (params : J) × (psw : Text) × (get_object json (codes "params") v ≡ found params)
      × (get_text json (codes "psw") params ≡ found psw)
      × (same_password psw c.password ≡ true)

  -- An answer that changes nothing, and opens the connection only for the password.
  record IsLocked (c : Connection) (v : J) (g : Program) (a : Answer) : Type 0 where
    same : a.program ≡ g
    opens : a.connection.authenticated ≡ true → KnowsPassword c v

  answer-IsLocked :
      (c d : Connection) (v : J) (g : Program) (r : Reply)
      → d.authenticated ≡ false
      → IsLocked c v g (answer d g r)
  answer-IsLocked c d v g r closed = record {
    same = refl;
    opens = λ e. (let never : true ≡ false = sym e ∙ closed in absurd (ground (arith, never)));
  }

  if-IsLocked :
      (c : Connection) (v : J) (g : Program) (b : Bool) (x y : Answer)
      → (b ≡ true → IsLocked c v g x)
      → IsLocked c v g y
      → IsLocked c v g (if b then x else y)
  if-IsLocked c v g true x y first second = first refl
  if-IsLocked c v g false x y first second = second

  demand-IsLocked :
      {A : Type 0} (r : Read A) (name : Text) (c d : Connection) (v : J) (g : Program)
      (k : A → Answer)
      → d.authenticated ≡ false
      → ((a : A) → r ≡ found a → IsLocked c v g (k a))
      → IsLocked c v g (demand r name d g k)
  unfolding demand Requests.quoted
  demand-IsLocked missing name c d v g k closed later = answer-IsLocked c d v g _ closed
  demand-IsLocked invalid name c d v g k closed later = answer-IsLocked c d v g _ closed
  demand-IsLocked empty name c d v g k closed later = answer-IsLocked c d v g _ closed
  demand-IsLocked threw name c d v g k closed later = answer-IsLocked c d v g _ closed
  demand-IsLocked (found a) name c d v g k closed later = later a refl

  demand_or-IsLocked :
      {A : Type 0} (r : Read A) (e : Reply) (c : Connection) (v : J) (g : Program) (k : A → Answer)
      → c.authenticated ≡ false
      → ((a : A) → IsLocked c v g (k a))
      → IsLocked c v g (demand_or r e c g k)
  unfolding demand_or
  demand_or-IsLocked missing e c v g k closed later = answer-IsLocked c c v g _ closed
  demand_or-IsLocked invalid e c v g k closed later = answer-IsLocked c c v g _ closed
  demand_or-IsLocked empty e c v g k closed later = answer-IsLocked c c v g _ closed
  demand_or-IsLocked threw e c v g k closed later = answer-IsLocked c c v g _ closed
  demand_or-IsLocked (found a) e c v g k closed later = later a

  authorize-IsLocked :
      (c : Connection) (g : Program) (v : J) → IsLocked c v g (authorize json env c g v)
  unfolding authorize
  authorize-IsLocked c g v = demand-IsLocked _ _ c _ v g _ refl (λ params read_params.
      demand-IsLocked _ _ c _ v g _ refl (λ psw read_psw.
        if-IsLocked c v g _ _ _
          (λ passed. record {
            same = refl;
            opens = λ e. (params, psw, read_params, read_psw, passed);
          })
          (answer-IsLocked c _ v g _ refl)))

  authenticate-IsLocked :
      (c : Connection) (g : Program) (v : J) (method : Text)
      → c.authenticated ≡ false
      → IsLocked c v g (authenticate json env c g v method)
  unfolding authenticate
  authenticate-IsLocked c g v method closed =
      if-IsLocked c v g _ _ _ (λ e. authorize-IsLocked c g v)
        (if-IsLocked c v g _ _ _
          (λ e. (let never : true ≡ false = sym e ∙ closed in absurd (ground (arith, never))))
          (answer-IsLocked c c v g _ closed))

  version-IsLocked :
      (c : Connection) (g : Program) (v : J) (version : Text)
      → c.authenticated ≡ false
      → IsLocked c v g (check_version json env c g v version)
  unfolding check_version check_method
  version-IsLocked c g v version closed =
      let invalid_request = fails 32600 (codes "Invalid Request") in
      let later =
        demand_or-IsLocked (get_text json (codes "method") v) invalid_request c v g _ closed
          (λ method. authenticate-IsLocked c g v method closed) in
      if-IsLocked c v g (text_eq version (codes "2.0")) _ _ (λ e. later)
        (answer-IsLocked c c v g invalid_request closed)

  id-IsLocked :
      (c : Connection) (g : Program) (v : J) (r : Read Bool)
      → c.authenticated ≡ false
      → IsLocked c v g (check_id_then json env c g v r)
  unfolding check_id_then
  id-IsLocked c g v (found b) closed =
      demand_or-IsLocked _ _ c v g _ closed (λ version. version-IsLocked c g v version closed)
  id-IsLocked c g v threw closed = answer-IsLocked c c v g _ closed
  id-IsLocked c g v missing closed = answer-IsLocked c c v g _ closed
  id-IsLocked c g v empty closed = answer-IsLocked c c v g _ closed
  id-IsLocked c g v invalid closed = answer-IsLocked c c v g _ closed

  -- A request of a client that is not authenticated changes nothing of the program, and the client is
  -- authenticated after it only if the request carries, as psw in its params, a text that passes the test
  -- against the password.
  pub process_request-locked :
      (c : Connection) (g : Program) (v : J)
      → c.authenticated ≡ false
      → ((process_request json env c g v).program ≡ g)
        × ((process_request json env c g v).connection.authenticated ≡ true → KnowsPassword c v)
  unfolding process_request
  process_request-locked c g v closed =
      let locked = id-IsLocked c g v (parse_request_id json v) closed in (locked.same, locked.opens)
