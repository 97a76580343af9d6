-- ===== src/Examples/Running.antt =====
-- An application that is stopped: with every part in order, and with a broker that does not close.
use project_mognet.Prelude.{ℕ, ◌≡◌, refl, true, false, Option, none, some, List, [], ◌∷◌}
use project_mognet.Model.Value.{Exn, user}
use project_mognet.Backend.Memory.{ok}
use project_mognet.Config.{AppConfig, default_config}
use project_mognet.App.Running.{
  App, Event, class, object, initial, stop, stopped, broker_close, worker_close, state_close,
  results_close, unlogged, stop_worker,
}
use project_mognet.App.Running.Life.{
  IsCalm, stop_complete, listeners_gone, called, closed, broker_gone,
}

abbrev config : AppConfig
config = default_config "node"

-- The worker does not close; in the second case the broker neither.
abbrev worker_hangs : List Event → Event → Option Exn
worker_hangs events worker_close = some (user "worker")
worker_hangs events _ = none

abbrev broker_hangs : List Event → Event → Option Exn
broker_hangs events worker_close = some (user "worker")
broker_hangs events broker_close = some (user "broker")
broker_hangs events _ = none

abbrev purged : List Event → Event → ℕ
purged events event = 0

-- An application that has started, with two middlewares and services of both kinds.
abbrev running : App
running = record initial {
  middleware = 1 ∷ 2 ∷ [];
  connected = true;
  has_heartbeat = true;
  has_control = true;
  has_worker = true;
  services = class 1 ∷ object 2 ∷ [];
}

calm : IsCalm config worker_hangs purged
unfolding unlogged
calm events worker_close = refl
calm events _ = refl

stop_complete_example :
    let idle = stop_worker config worker_hangs purged (
      broker_gone config worker_hangs purged (listeners_gone config worker_hangs purged running)) in
    let (answer, b) = stop config worker_hangs purged running in
    (answer ≡ ok tt)
    × (b.has_heartbeat ≡ false)
    × (b.has_control ≡ false)
    × (b.has_worker ≡ false)
    × (b.services ≡ [])
    × (b.connected ≡ false)
    × (b.events
        ≡ called config worker_hangs purged stopped (1 ∷ 2 ∷ []) (
            state_close
            ∷ results_close
            ∷ closed config worker_hangs purged (class 1 ∷ object 2 ∷ []) idle.events))
stop_complete_example = stop_complete config worker_hangs purged running calm refl
