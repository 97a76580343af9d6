-- ===== src/App/Running.antt =====
-- mognet/app/app.py: how an application starts, connects and stops. What is done to its parts stands
-- in a log; which of these calls raise is a parameter.
pub mod Life
use project_mognet.Prelude.{
  ℕ, String, Bool, true, false, Option, none, some, List, [], ◌∷◌, ◌++◌, ◌||◌, contains,
  if◌then◌else◌,
}
use project_mognet.Prelude.Dict
use project_mognet.Prelude.Dict.{Dict}
use project_mognet.Prelude.Eq.{nat_eq, string_eq, ◌==◌}
use project_mognet.Model.Value.{Exn, cancelled_error}
use project_mognet.Backend.Memory.{Answer, ok, raised}
use project_mognet.Config.{AppConfig, get_task_queue_names}

-- The four calls of a middleware around the life of an application.
pub data Moment : Type 0 where
  starting started stopping stopped : Moment

-- The key under which a service is kept: a class derived from ClassService, of which an instance is
-- made, an object that is such an instance itself, or any other callable.
pub data Key : Type 0 where
  class object callable : (id : ℕ) → Key

unfoldable pub same_key : Key → Key → Bool
same_key (class i) (class j) = i == j
same_key (object i) (object j) = i == j
same_key (callable i) (callable j) = i == j
same_key _ _ = false

unfoldable pub has_key : Key → List Key → Bool
unfolding same_key
has_key key [] = false
has_key key (other ∷ keys) = same_key other key || has_key key keys

-- What is done to the parts: the hook of a middleware, the broker, the backends, the background
-- tasks, the worker and the services.
pub data Event : Type 0 where
  hook : Moment → (middleware : ℕ) → Event
  broker_connect broker_close : Event
  queue_setup queue_purge : (queue : String) → Event
  control_purge : Event
  results_connect results_close state_connect state_close : Event
  heartbeat_start heartbeat_cancel control_start control_cancel : Event
  worker_start worker_close worker_cancel : Event
  service_enter service_close : (service : Key) → Event

-- `services` are the keys of the dictionary. The last event stands in front.
pub record App : Type 0 where
  pub middleware : List ℕ
  pub connected : Bool
  pub has_heartbeat : Bool
  pub has_control : Bool
  pub has_worker : Bool
  pub services : List Key
  pub events : List Event

abbrev pub initial : App
initial = record {
  middleware = [];
  connected = false;
  has_heartbeat = false;
  has_control = false;
  has_worker = false;
  services = [];
  events = [];
}

-- Middleware that was added before is not added again.
unfoldable pub add_middleware : ℕ → App → App
add_middleware mw a =
    if contains mw a.middleware then a else record a { middleware = a.middleware ++ mw ∷ [] }

-- `Context.get_service`, up to the call of what it finds: the exceptions of a constructor are left out.
unfoldable pub get_service : Key → App → App
unfolding has_key
get_service key a =
    let known = record a { services = a.services ++ key ∷ [] } in
    if has_key key a.services then a else elim key [
      | class i ↦ record known { events = service_enter (class i) ∷ a.events }
      | _ ↦ known
    ]

infixr 20 ◌>>◌
unfoldable pub ◌>>◌ : {A B : Type 0} → Answer A × App → (App → Answer B × App) → Answer B × App
◌>>◌ (raised e, a) next = (raised e, a)
◌>>◌ (ok x, a) next = next a

module _ (config : AppConfig) (fails : List Event → Event → Option Exn)
    (purged : List Event → Event → ℕ) where
  outcome : Option Exn → Answer (Unit {0})
  outcome none = ok tt
  outcome (some e) = raised e

  unfoldable pub call : Event → App → Answer (Unit {0}) × App
  unfolding outcome
  call event a = (outcome (fails a.events event), record a { events = event ∷ a.events })

  -- A call of which nothing gets out, not even a cancellation.
  unfoldable pub attempt : Event → App → App
  attempt event a = record a { events = event ∷ a.events }

  -- What `except Exception` lets through: a cancellation.
  unfoldable pub unlogged : Option Exn → Option Exn
  unlogged (some cancelled_error) = some cancelled_error
  unlogged _ = none

  -- A call whose exception is only logged.
  unfoldable pub guarded : Event → App → Answer (Unit {0}) × App
  unfolding outcome unlogged
  guarded event a =
      (outcome (unlogged (fails a.events event)), record a { events = event ∷ a.events })

  call_each : Moment → List ℕ → App → Answer (Unit {0}) × App
  unfolding guarded ◌>>◌
  call_each moment [] a = (ok tt, a)
  call_each moment (mw ∷ more) a = guarded (hook moment mw) a >> call_each moment more

  unfoldable pub call_middleware : Moment → App → Answer (Unit {0}) × App
  unfolding call_each
  call_middleware moment a = call_each moment a.middleware a

  setup_queues : List String → App → Answer (Unit {0}) × App
  unfolding call ◌>>◌
  setup_queues [] a = (ok tt, a)
  setup_queues (queue ∷ queues) a = call (queue_setup queue) a >> setup_queues queues

  with_queues :
      Answer (List String)
      → (List String → App → Answer (Unit {0}) × App)
      → App
      → Answer (Unit {0}) × App
  with_queues (raised e) next a = (raised e, a)
  with_queues (ok queues) next a = next queues a

  unfoldable pub setup_broker : App → Answer (Unit {0}) × App
  unfolding setup_queues with_queues call ◌>>◌
  setup_broker a = call broker_connect a >> with_queues (get_task_queue_names config) setup_queues

  -- The application counts as connected before its parts are.
  unfoldable pub connect : App → Answer (Unit {0}) × App
  unfolding setup_broker call ◌>>◌
  connect a =
      if a.connected
      then (ok tt, a)
      else setup_broker (record a { connected = true })
        >> (λ a1. call results_connect a1 >> call state_connect)

  -- The background tasks and the worker.
  start_tasks : App → App
  unfolding attempt
  start_tasks a =
      record (attempt worker_start (attempt control_start (attempt heartbeat_start a))) {
        has_heartbeat = true;
        has_control = true;
        has_worker = true;
      }

  -- `start` up to where it waits for the end; listing the queues may raise first.
  unfoldable pub start : App → Answer (Unit {0}) × App
  unfolding start_tasks call_middleware connect with_queues ◌>>◌
  start a = with_queues (get_task_queue_names config) (λ queues a1. (ok tt, a1)) a >> (λ a1.
      call_middleware starting a1
      >> (λ a2. connect a2 >> (λ a3. call_middleware started (start_tasks a3))))

  unfoldable pub cancel_heartbeat : App → App
  unfolding attempt
  cancel_heartbeat a =
      if a.has_heartbeat then record (attempt heartbeat_cancel a) { has_heartbeat = false } else a

  unfoldable pub cancel_control : App → App
  unfolding attempt
  cancel_control a =
      if a.has_control then record (attempt control_cancel a) { has_control = false } else a

  -- The worker's task is cancelled only where closing the worker did not raise.
  cancel_worker : Answer (Unit {0}) × App → App
  unfolding attempt
  cancel_worker (raised e, a) = a
  cancel_worker (ok x, a) = attempt worker_cancel a

  unfoldable pub stop_worker : App → App
  unfolding cancel_worker call
  stop_worker a =
      if a.has_worker
      then record (cancel_worker (call worker_close a)) { has_worker = false }
      else a

  -- `isinstance(svc, ClassService)`, for a key of the dictionary.
  is_service : Key → Bool
  is_service (object i) = true
  is_service _ = false

  close_services : List Key → App → Answer (Unit {0}) × App
  unfolding guarded is_service ◌>>◌
  close_services [] a = (ok tt, a)
  close_services (svc ∷ services) a =
      (if is_service svc then guarded (service_close svc) a else (ok tt, a))
      >> close_services services

  -- What `_stop` does behind the end of the worker.
  unfoldable pub close_parts : App → Answer (Unit {0}) × App
  unfolding close_services guarded call_middleware ◌>>◌
  close_parts idle = close_services idle.services idle >> (λ a1.
      guarded results_close (record a1 { services = [] }) >> (λ a2.
        guarded state_close a2
        >> (λ a3. call_middleware stopped (record a3 { connected = false }))))

  -- What `_stop` does behind the broker's end.
  unfoldable pub close_rest : App → Answer (Unit {0}) × App
  unfolding stop_worker close_parts
  close_rest a = close_parts (stop_worker a)

  -- The part of `_stop` behind the hooks of the middleware.
  unfoldable pub close_all : App → Answer (Unit {0}) × App
  unfolding cancel_heartbeat cancel_control close_rest call ◌>>◌
  close_all a = call broker_close (cancel_control (cancel_heartbeat a)) >> close_rest

  -- `_stop`, for an application that was connected once: before that it has no attribute `broker`.
  unfoldable pub stop : App → Answer (Unit {0}) × App
  unfolding close_all call_middleware ◌>>◌
  stop a = call_middleware stopping a >> close_all

  purge_each : List String → App → Answer (Dict String ℕ) × App
  unfolding call ◌>>◌
  purge_each [] a = (ok [], a)
  purge_each (queue ∷ queues) a = call (queue_purge queue) a >> (λ a1.
      let (rest, a2) = purge_each queues a1 in
      elim rest [
        | raised e ↦ (raised e, a2)
        | ok counts ↦ (ok ((queue, purged a.events (queue_purge queue)) ∷ counts), a2)
      ])

  -- The names of the queues are those of a set, each once.
  unfoldable pub purge_task_queues : App → Answer (Dict String ℕ) × App
  unfolding purge_each
  purge_task_queues a = elim (get_task_queue_names config) [
    | raised e ↦ (raised e, a)
    | ok queues ↦ purge_each queues a
  ]

  unfoldable pub purge_control_queue : App → Answer ℕ × App
  unfolding call ◌>>◌
  purge_control_queue a = call control_purge a >> (λ a1. (ok (purged a.events control_purge), a1))
