-- ===== src/Examples/Asking.antt =====
-- Results as objects, requests that are run through the application, and results that are gathered,
-- each at a concrete input.
use project_mognet.Prelude.{◌≡◌, refl, true, none, some, [], ◌∷◌}
use project_mognet.Prelude.Dict
use project_mognet.Prelude.Eq.{nat_eq}
use project_mognet.Model.State.{success}
use project_mognet.Model.Value.{Exn, Value, json, hold, value, deserialize}
use project_mognet.Model.Result.{Result, fresh, done, failed}
use project_mognet.Backend.Memory.{Backend, ok, raised}
use project_mognet.Backend.Memory
use project_mognet.Backend.Base.{wait}
use project_mognet.Lifecycle.{set_result, settle}
use project_mognet.Lifecycle.Counting
use project_mognet.Lifecycle.Counting.{sets_result}
use project_mognet.Lifecycle.Objects.{Object, get_raw_value, calls_on, get, get_after_read}
use project_mognet.App.{submit}
use project_mognet.App.Asking.{Argument, request, function, run, run_function}
use project_mognet.App.Asking
use project_mognet.App.Asking.Answers.{run-set_result}
use project_mognet.Examples.{config, registry, python, backend, add_request, busy, around}

-- A finished result with the value 3.
abbrev finished : Result
finished = record (fresh 1) { state = success }

abbrev with_three : Backend
with_three = record backend { values = (1, hold python (value (json "3"))) ∷ [] }

abbrev object : Object
object = record { result = finished; value_holder = none }

-- It is set to 4 behind the read, and 3 is what it still answers.
get_after_read_example :
    (get python
      (calls_on python
        (sets_result (json "4") success 20 ∷ [])
        (get_raw_value python object with_three).1
        with_three).0
      with_three).0
    ≡ ok (json "3")
unfolding get_raw_value calls_on settle Memory.get_value Dict.lookup deserialize hold set_result
    done Counting.call failed
get_after_read_example =
    get_after_read python (sets_result (json "4") success 20 ∷ []) object with_three with_three
      with_three (json "3") refl refl

-- Every argument is held as the same value.
abbrev held : Argument → Value
held x = json "0"

run_function_example :
    (e : Exn) × (run config around
        (λ v. true)
        held
        python
        registry
        6
        10
        (function 7)
        (Asking.value (json "1") ∷ Asking.value (json "2") ∷ [])
        []
        []
        with_three
        busy
      ≡ some (raised e, busy))
run_function_example =
    run_function config around (λ v. true) held python registry 6 10 7
      (Asking.value (json "1") ∷ Asking.value (json "2") ∷ []) [] [] with_three busy

abbrev answered_backend : Backend
answered_backend = (set_result python (json "3") success 12 (fresh 1) backend).1

run-set_result_example :
    run config around
      (λ v. true)
      held
      python
      registry
      6
      10
      (request add_request)
      []
      []
      (backend ∷ answered_backend ∷ [])
      answered_backend
      busy
    ≡ some (ok (json "3"), (submit config around 10 none add_request busy).1)
unfolding set_result wait Memory.get Memory.set Dict.lookup Dict.insert done Memory.set_value
run-set_result_example =
    run-set_result config around (λ v. true) held python registry 6 10 12 (json "3") add_request
      (fresh 1) (backend ∷ answered_backend ∷ []) backend busy refl refl refl refl refl
