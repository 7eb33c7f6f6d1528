-- ===== src/Pool/Stratum/Deafness/Settings.antt =====
-- The notifications of a pool that only change what later jobs are made of.
use etcminer.Prelude.{Option, some, none, Text}
use etcminer.Pool.JsonCpp.{JsonCpp}
use etcminer.Pool.Stratum.State.{Env}
use etcminer.Pool.Stratum.Notifications.{
  read_params, set_boundary, on_set_target, read_difficulty, on_set_difficulty, set_extranonce,
  on_set_extranonce,
}
use etcminer.Pool.Stratum.Deafness.Rules.{Keeps, pure-Keeps, attempt-Keeps, actions}
use etcminer.Pool.Stratum.Deafness.Responses.{process_extranonce-Keeps}

module _ {J : Type 0} (json : JsonCpp J) (env : Env) where
  pub read_params-Keeps : (msg : J) → Keeps (read_params json env msg)
  unfolding read_params
  read_params-Keeps msg = search (actions)

  pub set_boundary-Keeps : (t : Text) → Keeps (set_boundary json env t)
  unfolding set_boundary
  set_boundary-Keeps t = search (actions)

  pub on_set_target-Keeps : (msg : J) → Keeps (on_set_target json env msg)
  unfolding on_set_target
  on_set_target-Keeps msg = search (actions, read_params-Keeps, set_boundary-Keeps)

  pub read_difficulty-Keeps : (o : Option J) → Keeps (read_difficulty json env o)
  unfolding read_difficulty
  read_difficulty-Keeps none = pure-Keeps _
  read_difficulty-Keeps (some v) = attempt-Keeps _

  pub on_set_difficulty-Keeps : (msg : J) → Keeps (on_set_difficulty json env msg)
  unfolding on_set_difficulty
  on_set_difficulty-Keeps msg = search (actions, read_params-Keeps, read_difficulty-Keeps) depth 12

  pub set_extranonce-Keeps : (t : Text) → Keeps (set_extranonce json env t)
  unfolding set_extranonce
  set_extranonce-Keeps t = search (actions, process_extranonce-Keeps)

  pub on_set_extranonce-Keeps : (msg : J) → Keeps (on_set_extranonce json env msg)
  unfolding on_set_extranonce
  on_set_extranonce-Keeps msg = search (actions, read_params-Keeps, set_extranonce-Keeps) depth 12
