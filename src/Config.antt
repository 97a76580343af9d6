-- ===== src/Config.antt =====
-- mognet/app/app_config.py, and the queue names and routes that mognet/app/app.py takes from it.
pub mod Queues
use project_mognet.Prelude.{
  ℕ, String, Bool, true, false, not, ◌&&◌, ltb, length, Option, none, some, List, [], ◌∷◌, ◌++◌,
  if◌then◌else◌, contains, update,
}
use project_mognet.Prelude.Dict
use project_mognet.Prelude.Dict.{Dict}
use project_mognet.Prelude.Eq.{string_eq}
use project_mognet.Model.Value.{value_error}
use project_mognet.Backend.Memory.{Answer, ok, raised}
use project_mognet.Request.{Request}

pub record Selection : Type 0 where
  pub include : List String
  pub exclude : List String

-- The fields that the code modelled here reads.
pub record AppConfig : Type 0 where
  pub node_id : String
  pub max_recursion : ℕ
  pub max_retries : ℕ
  pub default_task_route : String
  pub task_routes : Dict String String
  pub task_queues : Selection
  pub minimum_concurrency : ℕ
  pub maximum_concurrency : Option ℕ

-- The class's defaults.
abbrev pub default_config : String → AppConfig
default_config node_id = record {
  node_id = node_id;
  max_recursion = 64;
  max_retries = 3;
  default_task_route = "tasks";
  task_routes = [];
  task_queues = record { include = []; exclude = [] };
  minimum_concurrency = 1;
  maximum_concurrency = none;
}

unfoldable pub is_valid : Selection → Bool
is_valid q = not (ltb 0 (length q.include) && ltb 0 (length q.exclude))

unfoldable pub ensure_valid : Selection → Answer (Unit {0})
unfolding is_valid
ensure_valid q = if is_valid q then ok tt else raised value_error

-- `{*task_routes.values(), default_task_route}`
unfoldable pub all_queues : AppConfig → List String
all_queues config = update [] (Dict.values config.task_routes ++ config.default_task_route ∷ [])

-- The members of a set that are, or are not, in another: `&` and `-`.
unfoldable pub select : Bool → List String → List String → List String
select wanted [] other = []
select wanted (q ∷ qs) other =
    let rest = select wanted qs other in
    if contains q other
    then (if wanted then q ∷ rest else rest)
    else (if wanted then rest else q ∷ rest)

-- Exclusions first, then inclusions.
choose : List String → Selection → List String
unfolding select
choose all chosen =
    if ltb 0 (length chosen.exclude)
    then select false all chosen.exclude
    else if ltb 0 (length chosen.include)
    then select true all chosen.include
    else all

unfoldable pub get_task_queue_names : AppConfig → Answer (List String)
unfolding choose ensure_valid all_queues
get_task_queue_names config = elim (ensure_valid config.task_queues) [
  | raised e ↦ raised e
  | ok _ ↦ ok (choose (all_queues config) config.task_queues)
]

-- `_get_task_route` of a task name, and of a request.
unfoldable pub route_of_name : AppConfig → String → String
unfolding Dict.get_or
route_of_name config name = Dict.get_or name config.default_task_route config.task_routes

unfoldable pub get_task_route : AppConfig → Request → String
unfolding route_of_name
get_task_route config req = elim req.queue_name [
  | some q ↦ q
  | none ↦ route_of_name config req.name
]
