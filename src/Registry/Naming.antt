-- ===== src/Registry/Naming.antt =====
-- The two tables of the registry agree, so that a request made from a function runs that function.
use project_mognet.Prelude.{
  ℕ, String, ◌≡◌, ◌≢◌, ◌⊎◌, false, Option, none, some, arith, Bool-cases, inl, inr,
}
use mathlib.Core.Path.{subst}
use project_mognet.Prelude.Dict
use project_mognet.Prelude.Eq.{nat_eq, string_eq, ==_refl}
use project_mognet.Model.Value.{runtime_error}
use project_mognet.Backend.Memory.{ok, raised}
use project_mognet.Registry.{
  Function, TaskRegistry, get_task_function, get_task_name, add_task_function, taken, register,
  name_for,
}

-- The name that a function has leads back to it.
abbrev IsConsistent : TaskRegistry → Type 0
IsConsistent reg =
    (f : ℕ) (name : String) → get_task_name f reg ≡ ok name → get_task_function name reg ≡ ok f

ok-injective : (a b : TaskRegistry) → ok a ≡ ok b → a ≡ b
ok-injective a b e = cc

-- Registering under a name that is free, or the function's own, keeps the tables consistent.
register-IsConsistent :
    (full : String) (f : ℕ) (reg : TaskRegistry)
    → taken full f reg ≡ false
    → IsConsistent reg
    → IsConsistent (register full f reg)
unfolding taken register get_task_function get_task_name
register-IsConsistent full f reg free h g n found = ground (
  arith,
  Dict.lookup-insert f g full reg.tasks_to_names,
  Dict.lookup-insert full n f reg.names_to_tasks,
  nat_eq.beq_iff f g,
  string_eq.beq_iff full n,
  h g n,
)

add_task_function-IsConsistent :
    (f : Function) (name : Option String) (reg reg' : TaskRegistry)
    → add_task_function f name reg ≡ ok reg'
    → IsConsistent reg
    → IsConsistent reg'
unfolding add_task_function
add_task_function-IsConsistent f name reg reg' e h =
    elim (Bool-cases (taken (name_for f name) f.ident reg)) [
      | inl clash ↦ absurd (ground arith)
      | inr free ↦
          subst IsConsistent
            (ok-injective (register (name_for f name) f.ident reg) reg' (ground arith))
            (register-IsConsistent (name_for f name) f.ident reg free h)
    ]

-- A registration that is accepted keeps the tables consistent: if before it the name of each function
-- led back to the function, then so does any name that a function has after it.
get_task_function-get_task_name :
    (f : Function) (name : Option String) (reg reg' : TaskRegistry) (g : ℕ) (n : String)
    → IsConsistent reg
    → add_task_function f name reg ≡ ok reg'
    → get_task_name g reg' ≡ ok n
    → get_task_function n reg' ≡ ok g
get_task_function-get_task_name f name reg reg' g n h e =
    add_task_function-IsConsistent f name reg reg' e h g n

-- A name that belongs to another function is refused.
pub add_task_function_clash :
    (f : Function) (n : String) (reg : TaskRegistry) (g : ℕ)
    → Dict.lookup n reg.names_to_tasks ≡ some g
    → f.ident ≢ g
    → add_task_function f (some n) reg ≡ raised runtime_error
unfolding add_task_function
add_task_function_clash f n reg g e other = ground (arith, nat_eq.beq_iff f.ident g)

-- Under a name that is free, or the function's own, a function is registered: the name then leads to
-- the function and the function to the name, and any other name leads where it led.
pub add_task_function_registers :
    (f : Function) (n m : String) (reg : TaskRegistry)
    → (Dict.lookup n reg.names_to_tasks ≡ none) ⊎ (Dict.lookup n reg.names_to_tasks ≡ some f.ident)
    → n ≢ m
    → (reg' : TaskRegistry) × (add_task_function f (some n) reg ≡ ok reg')
      × (get_task_function n reg' ≡ ok f.ident)
      × (get_task_name f.ident reg' ≡ ok n)
      × (get_task_function m reg' ≡ get_task_function m reg)
unfolding add_task_function get_task_function get_task_name
add_task_function_registers f n m reg free other = (
  register n f.ident reg,
  ground arith,
  ground (arith, Dict.lookup-insert n n f.ident reg.names_to_tasks, ==_refl n),
  ground (arith, Dict.lookup-insert f.ident f.ident n reg.tasks_to_names),
  ground (arith, Dict.lookup-insert n m f.ident reg.names_to_tasks, string_eq.beq_iff n m),
)
