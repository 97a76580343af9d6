-- ===== src/Registry.antt =====
-- mognet/tasks/task_registry.py, mognet/decorators/task_decorator.py: the names of task functions.
pub mod Naming
use Prim.Native.String.{◌++◌ as ◌⧺◌}
use project_mognet.Prelude.{
  ℕ, String, ◌≡◌, refl, Bool, true, false, ◌&&◌, not, is_some, Option, none, some, List, [], ◌∷◌,
  if◌then◌else◌,
}
use project_mognet.Prelude.Dict
use project_mognet.Prelude.Dict.{Dict}
use project_mognet.Prelude.Eq.{nat_eq, string_eq, ◌==◌}
use project_mognet.Model.Value.{unknown_task, runtime_error, key_error}
use project_mognet.Backend.Memory.{Answer, ok, raised}

-- A function object: `ident` is its identity, the rest its attributes.
pub record Function : Type 0 where
  pub ident : ℕ
  pub in_module : Option String
  pub qualname : Option String
  pub name : Option String

-- Functions are keys by their identity.
pub record TaskRegistry : Type 0 where
  pub names_to_tasks : Dict String ℕ
  pub tasks_to_names : Dict ℕ String

abbrev pub empty : TaskRegistry
empty = record { names_to_tasks = []; tasks_to_names = [] }

-- An empty text counts as missing.
truthy : Option String → Option String
truthy none = none
truthy (some s) = if s == "" then none else some s

-- `".".join(n for n in [a, b] if n)`
joined : Option String → Option String → String
joined none none = ""
joined none (some b) = b
joined (some a) none = a
joined (some a) (some b) = ◌⧺◌ a (◌⧺◌ "." b)

-- `_get_full_func_name`
unfoldable pub get_full_func_name : Function → String
unfolding truthy joined
get_full_func_name f =
    let func_name : Option String = elim (truthy f.qualname) [
      | some q ↦ some q
      | none ↦ truthy f.name
    ] in
    joined (truthy f.in_module) func_name

unfoldable pub get_task_function : String → TaskRegistry → Answer ℕ
get_task_function name reg = elim (Dict.lookup name reg.names_to_tasks) [
  | none ↦ raised (unknown_task name)
  | some f ↦ ok f
]

unfoldable pub get_task_name : ℕ → TaskRegistry → Answer String
get_task_name f reg = elim (Dict.lookup f reg.tasks_to_names) [
  | none ↦ raised key_error
  | some name ↦ ok name
]

unfoldable pub registered_task_names : TaskRegistry → List String
registered_task_names reg = Dict.keys reg.names_to_tasks

-- A name that another function has is refused.
taken : String → ℕ → TaskRegistry → Bool
taken name f reg = elim (Dict.lookup name reg.names_to_tasks) [
  | none ↦ false
  | some g ↦ not (f == g)
]

register : String → ℕ → TaskRegistry → TaskRegistry
register name f reg = record {
  names_to_tasks = Dict.insert name f reg.names_to_tasks;
  tasks_to_names = Dict.insert f name reg.tasks_to_names;
}

-- The name given, or the full name of the function.
abbrev pub name_for : Function → Option String → String
name_for f none = get_full_func_name f
name_for f (some name) = name

unfoldable pub add_task_function : Function → Option String → TaskRegistry → Answer TaskRegistry
unfolding taken register
add_task_function f name reg =
    let full = name_for f name in
    if taken full f.ident reg then raised runtime_error else ok (register full f.ident reg)

-- The decorator `task(name=name)`: it makes the global registry where there is none yet.
unfoldable pub task : Option String → Function → Option TaskRegistry → Answer TaskRegistry
unfolding add_task_function
task name f global = add_task_function f name (elim global [ none ↦ empty | some reg ↦ reg ])
