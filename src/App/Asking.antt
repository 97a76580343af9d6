-- ===== src/App/Asking.antt =====
-- mognet/app/app.py: `run`, which submits a request and waits for its result, with the call's arguments
-- as Python binds them to parameters.
pub mod Answers
use project_mognet.Prelude.{
  ℕ, String, ◌≡◌, refl, Bool, true, false, ◌&&◌, Option, none, some, List, [], ◌∷◌, if◌then◌else◌,
  is_some, arith, Option-cases, inl, inr,
}
use project_mognet.Prelude.Dict
use project_mognet.Prelude.Dict.{Dict}
use project_mognet.Prelude.Eq.{string_eq, ◌==◌}
use project_mognet.Model.Value.{
  Python, Value, null, Exn, type_error, key_error, improperly_configured, could_not_submit,
}
use project_mognet.Model.Result.{Result}
use project_mognet.Backend.Memory.{Backend, Answer, ok, raised, Answer-cases}
use project_mognet.Config.{AppConfig}
use project_mognet.Lifecycle
use project_mognet.Registry.{TaskRegistry, get_task_name}
use project_mognet.Request.{Request}
use project_mognet.Worker.Node.{Node}
use project_mognet.App.{Surroundings, create_request, submit}

-- What a caller passes: a plain value, a task function, a context (told by its request), or a request.
pub data Argument : Type 0 where
  value : Value → Argument
  function : (ident : ℕ) → Argument
  context : Request → Argument
  request : Request → Argument

-- `hashable` tells the values that can be keys, and `held` is how a request holds an argument.
module _ (config : AppConfig) (around : Surroundings) (hashable : Value → Bool)
    (held : Argument → Value) where
  -- Looking up what is no function in the table of the registry.
  name_error : Argument → Exn
  name_error (value v) = if hashable v then key_error else type_error
  name_error (request req) = type_error
  name_error _ = key_error

  held_all : List Argument → List Value
  held_all [] = []
  held_all (x ∷ xs) = held x ∷ held_all xs

  held_dict : Dict String Argument → Dict String Value
  held_dict [] = []
  held_dict ((name, x) ∷ rest) = (name, held x) ∷ held_dict rest

  -- `create_request` of an argument that was bound to `func`.
  create_of : ℕ → Argument → List Argument → Dict String Argument → TaskRegistry → Answer Request
  unfolding held_all held_dict name_error
  create_of id (function f) args kwargs reg =
      create_request id f (held_all args) (held_dict kwargs) reg
  create_of id other args kwargs reg = raised (name_error other)

  -- `self.create_request(*args, **kwargs)`: the first argument is `func`, unless it is named.
  unfoldable pub create_call :
      ℕ → List Argument → Dict String Argument → TaskRegistry → Answer Request
  unfolding create_of
  create_call id [] kwargs reg = elim (Dict.lookup "func" kwargs) [
    | none ↦ raised type_error
    | some func ↦ create_of id func [] (Dict.remove "func" kwargs) reg
  ]
  create_call id (func ∷ args) kwargs reg =
      if is_some (Dict.lookup "func" kwargs)
      then raised type_error
      else create_of id func args kwargs reg

  only_context : Dict String Argument → Bool
  only_context [] = true
  only_context ((name, x) ∷ rest) = (name == "context") && only_context rest

  -- `self.submit(request, *args, **kwargs)`: one argument more at most, which is `context`.
  bind_context : List Argument → Dict String Argument → Answer (Option Argument)
  unfolding only_context
  bind_context [] kwargs =
      if only_context kwargs then ok (Dict.lookup "context" kwargs) else raised type_error
  bind_context (x ∷ []) [] = ok (some x)
  bind_context _ _ = raised type_error

  -- What has no attribute `request` fails under `try`, behind the test for a broker.
  no_context : Exn
  no_context = if around.has_broker then could_not_submit else improperly_configured

  unfoldable pub submit_in : ℕ → Option Argument → Request → Node → Answer Result × Node
  unfolding no_context
  submit_in now none req n = submit config around now none req n
  submit_in now (some (context parent)) req n = submit config around now (some parent) req n
  submit_in now (some (value null)) req n = submit config around now none req n
  submit_in now (some _) req n = (raised no_context, n)

  submit_call : ℕ → Request → List Argument → Dict String Argument → Node → Answer Result × Node
  unfolding bind_context submit_in
  submit_call now req args kwargs n = elim (bind_context args kwargs) [
    | raised e ↦ (raised e, n)
    | ok bound ↦ submit_in now bound req n
  ]

  -- `return await res`, over what the polls see; `none` means that it is still waiting.
  await_result :
      Python → List Backend → Backend → Answer Result × Node → Option (Answer Value × Node)
  await_result py polls b (raised e, n) = some (raised e, n)
  await_result py polls b (ok r, n) = elim (Lifecycle.await py r polls b) [
    | none ↦ none
    | some (r', v) ↦ some (v, n)
  ]

  -- What is no request is made one, from the other arguments alone.
  chosen : ℕ → Argument → List Argument → Dict String Argument → TaskRegistry → Answer Request
  unfolding create_call
  chosen id (request req) args kwargs reg = ok req
  chosen id other args kwargs reg = create_call id args kwargs reg

  -- `run`. The node is the one that submitting left.
  unfoldable pub run :
      Python
      → TaskRegistry
      → ℕ
      → ℕ
      → Argument
      → List Argument
      → Dict String Argument
      → List Backend
      → Backend
      → Node
      → Option (Answer Value × Node)
  unfolding chosen submit_call await_result
  run py reg id now first args kwargs polls b n = elim (chosen id first args kwargs reg) [
    | raised e ↦ some (raised e, n)
    | ok req ↦ await_result py polls b (submit_call now req args kwargs n)
  ]

  -- A call in which `func` is named does not name `context` alone.
  named_otherwise :
      (kwargs : Dict String Argument) (func : Argument)
      → Dict.lookup "func" kwargs ≡ some func
      → only_context kwargs ≡ false
  unfolding only_context Dict.lookup
  named_otherwise [] func e = absurd (cc)
  named_otherwise ((name, x) ∷ rest) func e = ground (
    arith,
    string_eq.beq_iff name "func",
    string_eq.beq_iff name "context",
    string_eq.beq_iff "func" "context",
    named_otherwise rest func,
  )

  submit_call_raises :
      (id now : ℕ) (args : List Argument) (kwargs : Dict String Argument) (reg : TaskRegistry)
      (req : Request) (n : Node)
      → create_call id args kwargs reg ≡ ok req
      → (e : Exn) × (submit_call now req args kwargs n ≡ (raised e, n))
  unfolding create_call submit_call bind_context create_of
  submit_call_raises id now [] kwargs reg req n made =
      elim (Option-cases (Dict.lookup "func" kwargs)) [
        | inl missing ↦ absurd (ground (arith, missing))
        | inr (func, given) ↦ (type_error, rw (submit_call, named_otherwise kwargs func given) refl)
      ]
  submit_call_raises id now (function f ∷ []) [] reg req n made = (no_context, refl)
  submit_call_raises id now (x ∷ []) [] reg req n made = absurd (ground (arith, made))
  submit_call_raises id now (x ∷ []) (k ∷ kwargs) reg req n made = (type_error, refl)
  submit_call_raises id now (x ∷ y ∷ args) kwargs reg req n made = (type_error, refl)

  -- Running a task function always raises: nothing is stored, and nothing is sent. The other
  -- arguments do not matter, by position and by name.
  pub run_function :
      (py : Python) (reg : TaskRegistry) (id now f : ℕ) (args : List Argument)
      (kwargs : Dict String Argument) (polls : List Backend) (b : Backend) (n : Node)
      → (e : Exn) × (run py reg id now (function f) args kwargs polls b n ≡ some (raised e, n))
  unfolding run chosen await_result
  run_function py reg id now f args kwargs polls b n =
      elim (Answer-cases (create_call id args kwargs reg)) [
        | inr (e, refused) ↦ (e, rw (run, refused) refl)
        | inl (req, made) ↦
            let (e, failed) = submit_call_raises id now args kwargs reg req n made in
            (e, rw (run, made, failed) refl)
      ]
