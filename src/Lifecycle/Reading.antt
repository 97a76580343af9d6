-- ===== src/Lifecycle/Reading.antt =====
-- What a caller reads back from a result that was finished through its methods (result.py).
use project_mognet.Prelude.{◌≡◌, ◌⊎◌, ℕ, some, none, if◌then◌else◌, arith}
use project_mognet.Prelude.Dict
use project_mognet.Prelude.Eq.{nat_eq}
use project_mognet.Model.State.{ResultState, success, failure, invalid, revoked}
use project_mognet.Model.Value.{
  Python, Value, null, Exn, plain, revoked_error, result_value_lost, info, from_exception, hold,
  deserialize, ValueHolder, value, exception, exception_of,
}
use project_mognet.Model.Result.{Result, done}
use project_mognet.Backend.Memory.{Backend, Answer, ok, raised, get_value, set_value}
use project_mognet.Backend.Memory
use project_mognet.Lifecycle.{set_result, set_error, get, revoke}

-- A value holder that was stored is the one that is found.
get_value-set_value_self :
    (id : ℕ) (h : ValueHolder) (b : Backend) → get_value id (set_value id h b) ≡ ok h
unfolding get_value set_value
get_value-set_value_self id h b = ground (arith, Dict.lookup-insert id id h b.values)

module _ (py : Python) where
  -- `set_result` stores a value that `get` returns, for any value that its own type validates,
  -- whatever the object, through which no value was read before, and the backend were.
  pub get-set_result :
      (v : Value) (now : ℕ) (r : Result) (b : Backend)
      → py.validate (py.type_name v) v ≡ some v
      → let (r', b') = set_result py v success now r b in get py r' b' ≡ ok v
  unfolding set_result get hold get_value set_value Memory.set deserialize done
  get-set_result null now r b e =
      ground (arith, Dict.lookup-insert r.id r.id (hold py (value null)) b.values)
  get-set_result v now r b e =
      ground (arith, Dict.lookup-insert r.id r.id (hold py (value v)) b.values)

  -- `set_error` stores an exception from which `get` raises, in the states FAILURE and INVALID, if the
  -- record of the exception is validated by its type: what unpickling gives of the exception where it
  -- can be pickled, else what it gives of a plain one with its text. Where unpickling gives back what
  -- was pickled, that is the exception itself, or the plain one. Through the object no value was read
  -- before.
  pub get-set_error :
      (exc : Exn) (state : ResultState) (now : ℕ) (r : Result) (b : Backend)
      → py.validate (py.type_name (info (from_exception py exc))) (info (from_exception py exc))
        ≡ some (info (from_exception py exc))
      → (state ≡ failure) ⊎ (state ≡ invalid)
      → let (r', b') = set_error py exc state now r b in
        get py r' b'
        ≡ raised (py.unpickled (if py.picklable exc then exc else plain (py.message exc)))
  unfolding set_error get hold get_value set_value Memory.set deserialize done exception_of
      from_exception
  get-set_error exc state now r b e s =
      ground (arith, Dict.lookup-insert r.id r.id (hold py (exception exc)) b.values)

  -- A result that is set to REVOKED raises `Revoked` from `get`, whatever exception was stored.
  pub get-set_error_revoked :
      (exc : Exn) (now : ℕ) (r : Result) (b : Backend)
      → py.validate (py.type_name (info (from_exception py exc))) (info (from_exception py exc))
        ≡ some (info (from_exception py exc))
      → let (r', b') = set_error py exc revoked now r b in
        get py r' b' ≡ raised (revoked_error r.id)
  unfolding set_error get hold get_value set_value Memory.set deserialize done exception_of
      from_exception
  get-set_error_revoked exc now r b e =
      ground (arith, Dict.lookup-insert r.id r.id (hold py (exception exc)) b.values)

  -- A result that is revoked while no value is stored for it raises `ResultValueLost` from `get`,
  -- and not `Revoked`.
  pub get-revoke_lost :
      (now : ℕ) (r : Result) (b : Backend)
      → Dict.lookup r.id b.values ≡ none
      → let (r', b') = revoke now r b in get py r' b' ≡ raised (result_value_lost r.id)
  unfolding get revoke get_value Memory.set done
  get-revoke_lost now r b e = ground arith
