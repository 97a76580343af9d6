-- ===== src/Cli/Tasks.antt =====
-- mognet/cli/tasks.py, without the connecting and closing around a command, and with one round of the
-- loop of `tree`.
pub mod Order
use project_mognet.Prelude.Int.{ℤ}
use project_mognet.Prelude.{
  ℕ, String, ◌≡◌, refl, Bool, true, false, Option, none, some, List, [], ◌∷◌, ◌++◌, if◌then◌else◌,
}
use project_mognet.Prelude.Dict.{Dict}
use project_mognet.Model.State.{ResultState}
use project_mognet.Model.Value.{Python, Value, Exn, info, result_value_lost, runtime_error}
use project_mognet.Model.Result.{Result, unexpected_retry_count, queue_time, duration}
use project_mognet.Backend.Memory
use project_mognet.Backend.Memory.{Backend, Answer, ok, raised}
use project_mognet.Lifecycle
use project_mognet.Lifecycle.Tree.{Tree, Trees, node, nil, cons, tree}
use project_mognet.Config.{AppConfig}
use project_mognet.App.{Surroundings}
use project_mognet.App
use project_mognet.Worker.Node.{Node}
use project_mognet.Cli.{Ended, printed, exits, fails}

-- What stands in a cell of the table.
pub data Cell : Type 0 where
  number : ℕ → Cell
  text : Option String → Cell
  state : ResultState → Cell
  id : Option ℕ → Cell
  time : Option ℕ → Cell
  span : Option ℤ → Cell
  metadata : Dict String Value → Cell
  traceback : String → Cell
  shown : Value → Cell
  lost : Cell

unfoldable pub table_data : Result → Backend → Dict String Cell
table_data r b =
    ("ID", id (some r.id))
    ∷ ("Name", text r.name)
    ∷ ("Arguments", text r.request_kwargs_repr)
    ∷ ("State", state r.state)
    ∷ ("Number of starts", number r.number_of_starts)
    ∷ ("Number of stops", number r.number_of_stops)
    ∷ ("Unexpected retry count", number (unexpected_retry_count r))
    ∷ ("Parent", id r.parent_id)
    ∷ ("Created at", time r.created)
    ∷ ("Started at", time r.started)
    ∷ ("Time in queue", span (queue_time r))
    ∷ ("Finished at", time r.finished)
    ∷ ("Runtime duration", span (duration r))
    ∷ ("Node ID", text r.node_id)
    ∷ ("Metadata", metadata (Memory.get_metadata r.id b))
    ∷ []

-- The row for the value; an error that is not caught goes on.
unfoldable pub value_row : Answer Value → Answer (String × Cell)
value_row (ok (info i)) = ok ("Error raised", traceback i.traceback)
value_row (ok v) = ok ("Result value", shown v)
value_row (raised (result_value_lost missing)) = ok ("Result value", lost)
value_row (raised e) = raised e

with_value : Dict String Cell → Answer (String × Cell) → Ended (Dict String Cell)
with_value rows (raised e) = fails e
with_value rows (ok row) = printed (rows ++ row ∷ [])

unfoldable pub get : Python → (include_value : Bool) → ℕ → Backend → Ended (Dict String Cell)
unfolding table_data value_row with_value
get py include_value task_id b = elim (Memory.get task_id b) [
  | none ↦ exits 1
  | some r ↦
      if include_value
      then with_value (table_data r b) (value_row (Lifecycle.get_raw_value py r.id b))
      else printed (table_data r b)
]

-- `revoke`: the request is revoked whether or not there is a result, and the answer is the code that
-- the command exits with. `none` means that the fuel of
-- the application's method ran out.
unfoldable pub revoke :
    AppConfig → Surroundings → ℕ → (force : Bool) → (now : ℕ) → ℕ → Node → Option (Answer ℕ × Node)
revoke config around fuel force now task_id n =
    let code : ℕ = elim (Memory.get task_id n.backend) [ none ↦ 1 | some r ↦ 0 ] in
    elim (App.revoke config around fuel force now task_id n) [
      | none ↦ none
      | some (raised e, n') ↦ some (raised e, n')
      | some (ok r, n') ↦ some (ok code, n')
    ]

-- The calls of `create_node`: the identifier, and that of the parent.
unfoldable mutual
  pub build_tree : Option ℕ → Tree → List (ℕ × Option ℕ)
  build_tree parent (node r ts) = (r.id, parent) ∷ build_trees (some r.id) ts

  pub build_trees : Option ℕ → Trees → List (ℕ × Option ℕ)
  build_trees parent nil = []
  build_trees parent (cons t ts) = build_tree parent t ++ build_trees parent ts

-- What `tree` prints: the nodes of a treelib tree, or the tree as JSON.
pub data Shown : Type 0 where
  nodes : List (ℕ × Option ℕ) → Shown
  as_json : Tree → Shown

show : (is_text : Bool) → Answer Tree → Ended Shown
unfolding build_tree
show is_text (raised e) = fails e
show is_text (ok t) = printed (if is_text then nodes (build_tree none t) else as_json t)

unfoldable pub show_tree :
    (is_text : Bool) → (now max_depth max_width : ℕ) → ℕ → Backend → Ended Shown
unfolding show
show_tree is_text now max_depth max_width task_id b = elim (Memory.get task_id b) [
  | none ↦ fails runtime_error
  | some r ↦ show is_text (tree now max_depth max_width b r)
]
