-- ===== src/TaskState.antt =====
-- mognet/state/state.py and mognet/state/redis_state_backend.py: state that a task keeps across its
-- restarts, in one hash of the server for each request. Values are JSON values.
pub mod Laws
use Prim.Native.String.{◌++◌ as ◌⧺◌}
use project_mognet.Prelude.{
  ℕ, String, Bool, Option, none, some, List, [], ◌∷◌, is_some, if◌then◌else◌,
}
use project_mognet.Prelude.Dict
use project_mognet.Prelude.Dict.{Dict}
use project_mognet.Prelude.Eq.{string_eq}
use project_mognet.Redis.{Redis}
use project_mognet.Model.Value.{Value}
use project_mognet.Backend.Redis.Encoding.{Codec}

-- The settings that the backend reads, with the name of the application.
pub record Settings : Type 0 where
  pub app_name : String
  pub state_ttl : ℕ

module _ (c : Codec) (settings : Settings) where
  open settings use {app_name, state_ttl}

  unfoldable pub format_key : ℕ → String
  format_key request_id = ◌⧺◌ app_name (◌⧺◌ ".mognet.state." (c.show_id request_id))

  module _ (redis : Redis) where
    open redis use {Store, hgetall, hset, hdel, expire}

    -- HEXISTS and HGET, by what the hash has for the field.
    loaded : Value → Option String → Value
    loaded default none = default
    loaded default (some raw) = c.load_value raw

    unfoldable pub get : ℕ → String → Value → Store → Value × Store
    unfolding loaded
    get request_id key default s =
        let state_key = format_key request_id in
        (loaded default (Dict.lookup key (hgetall state_key s)), expire state_key state_ttl s)

    unfoldable pub set : ℕ → String → Value → Store → Store
    set request_id key value s =
        let state_key = format_key request_id in
        expire state_key state_ttl (hset state_key ((key, c.dump_value value) ∷ []) s)

    unfoldable pub pop : ℕ → String → Value → Store → Value × Store
    unfolding loaded
    pop request_id key default s =
        let state_key = format_key request_id in
        (
          loaded default (Dict.lookup key (hgetall state_key s)),
          expire state_key state_ttl (hdel state_key key s),
        )

    unfoldable pub clear : ℕ → Store → Store
    clear request_id s = redis.delete (format_key request_id ∷ []) s
