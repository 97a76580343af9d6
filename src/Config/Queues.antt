-- ===== src/Config/Queues.antt =====
-- Which queues a node consumes, and where its requests go (app.py, app_config.py).
use project_mognet.Prelude.{
  String, ◌≡◌, refl, Bool, true, false, not, ◌&&◌, ◌||◌, ltb, length, none, some, List, [], ◌∷◌,
  ◌++◌, arith, if◌then◌else◌, contains, contains-update, contains-append, inl, inr, Option-cases,
  Bool-cases,
}
use project_mognet.Prelude.Dict
use project_mognet.Prelude.Dict.{Dict}
use project_mognet.Prelude.Eq.{string_eq, ◌==◌, ==_eq, ==_refl}
use project_mognet.Model.Value.{value_error}
use project_mognet.Backend.Memory.{ok, raised}
use project_mognet.Request.{Request}
use project_mognet.Config.{
  Selection, AppConfig, is_valid, all_queues, select, choose, get_task_queue_names, route_of_name,
  get_task_route,
}

contains-select :
    (wanted : Bool) (q : String) (qs other : List String)
    → contains q (select wanted qs other)
      ≡ (contains q qs && (if wanted then contains q other else not (contains q other)))
unfolding contains select
contains-select wanted q [] other = refl
contains-select wanted q (p ∷ qs) other = elim (Bool-cases (p == q)) [
  | inl same ↦ rw (==_eq p q same) (ground (arith, contains-select wanted q qs other, ==_refl q))
  | inr differ ↦ ground (arith, contains-select wanted q qs other)
]

contains-values :
    (k v : String) (m : Dict String String)
    → Dict.lookup k m ≡ some v
    → contains v (Dict.values m) ≡ true
unfolding Dict.lookup Dict.values contains
contains-values k v [] e = cc
contains-values k v ((j, w) ∷ m) e = ground (arith, contains-values k v m, string_eq.beq_iff w v)

contains-all_queues :
    (config : AppConfig) (q : String)
    → contains q (all_queues config)
      ≡ (contains q (Dict.values config.task_routes) || config.default_task_route == q)
unfolding all_queues contains
contains-all_queues config q =
    let routes = Dict.values config.task_routes in
    ground (
      arith,
      contains-update q [] (routes ++ config.default_task_route ∷ []),
      contains-append q routes (config.default_task_route ∷ []),
    )

route-all_queues :
    (config : AppConfig) (name : String)
    → contains (route_of_name config name) (all_queues config) ≡ true
unfolding route_of_name
route-all_queues config name = elim (Option-cases (Dict.lookup name config.task_routes)) [
  | inl missing ↦ ground (
    arith,
    contains-all_queues config config.default_task_route,
    ==_refl config.default_task_route,
  )
  | inr (q, found) ↦
      ground (arith, contains-all_queues config q, contains-values name q config.task_routes)
]

contains-choose :
    (q : String) (all include exclude : List String)
    → let chosen : Selection = record { include = include; exclude = exclude } in
      is_valid chosen ≡ true
      → contains q (choose all chosen) ≡ (
          contains q all
          && not (contains q exclude)
          && (not (ltb 0 (length include)) || contains q include))
unfolding choose is_valid contains
contains-choose q all [] [] e = ground arith
contains-choose q all (i ∷ is) [] e = ground (arith, contains-select true q all (i ∷ is))
contains-choose q all [] (x ∷ xs) e = ground (arith, contains-select false q all (x ∷ xs))
contains-choose q all (i ∷ is) (x ∷ xs) e = ground arith

-- `get_task_queue_names` raises `ValueError` where queues are both included and excluded.
pub get_task_queue_names_invalid :
    (config : AppConfig)
    → is_valid config.task_queues ≡ false
    → get_task_queue_names config ≡ raised value_error
unfolding get_task_queue_names
get_task_queue_names_invalid config e = ground arith

-- Where queues are not both included and excluded, the queues that a node consumes are those of the
-- configuration that are not excluded and, where some are included, are included.
get_task_queue_names-contains :
    (config : AppConfig)
    → is_valid config.task_queues ≡ true
    → let chosen = config.task_queues in
      (qs : List String) × (get_task_queue_names config ≡ ok qs)
      × ((q : String)
          → contains q qs ≡ (
              contains q (all_queues config)
              && not (contains q chosen.exclude)
              && (not (ltb 0 (length chosen.include)) || contains q chosen.include)))
unfolding get_task_queue_names
get_task_queue_names-contains config e = (
  choose (all_queues config) config.task_queues,
  ground arith,
  λ q.
      contains-choose q (all_queues config) config.task_queues.include config.task_queues.exclude e,
)

-- A request with no queue of its own goes to a queue that a node without inclusions and exclusions
-- consumes.
pub get_task_route-consumed :
    (config : AppConfig) (req : Request) (qs : List String)
    → req.queue_name ≡ none
    → config.task_queues.include ≡ []
    → config.task_queues.exclude ≡ []
    → get_task_queue_names config ≡ ok qs
    → contains (get_task_route config req) qs ≡ true
unfolding get_task_queue_names get_task_route
get_task_route-consumed config req qs own included excluded e =
    ground (arith, route-all_queues config req.name)
