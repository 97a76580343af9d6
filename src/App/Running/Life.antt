-- ===== src/App/Running/Life.antt =====
-- What stopping an application leaves, whatever exceptions its parts raise.
use project_mognet.Prelude.{ℕ, ◌≡◌, refl, ap, ◌∙◌, false, Option, none, some, List, [], ◌∷◌, arith}
use project_mognet.Prelude.Eq.{nat_eq}
use project_mognet.Model.Value.{Exn}
use project_mognet.Backend.Memory.{Answer, ok, raised}
use project_mognet.Config.{AppConfig}
use project_mognet.App.Running.{
  App, Event, Key, Moment, hook, stopping, stopped, broker_close, service_close, results_close,
  state_close, class, object, callable, call, outcome, attempt, unlogged, guarded, close_parts,
  close_all, call_each, call_middleware, stop, stop_worker, close_services, close_rest,
  cancel_heartbeat, cancel_control, cancel_worker, is_service, ◌>>◌,
}

module _ (config : AppConfig) (fails : List Event → Event → Option Exn)
    (purged : List Event → Event → ℕ) where
  -- The log behind the hooks of the middleware, and behind the services that are closed.
  abbrev pub called : Moment → List ℕ → List Event → List Event
  called moment [] events = events
  called moment (mw ∷ more) events = called moment more (hook moment mw ∷ events)

  abbrev pub closed : List Key → List Event → List Event
  closed [] events = events
  closed (object i ∷ keys) events = closed keys (service_close (object i) ∷ events)
  closed (class i ∷ keys) events = closed keys events
  closed (callable i ∷ keys) events = closed keys events

  -- No call of a part is cancelled: what they raise are exceptions that `except Exception` catches.
  abbrev pub IsCalm : Type 0
  IsCalm =
      (events : List Event) (event : Event)
      → unlogged config fails purged (fails events event) ≡ none

  guarded_lem :
      (event : Event) (a : App)
      → IsCalm
      → guarded config fails purged event a ≡ (ok tt, record a { events = event ∷ a.events })
  unfolding guarded outcome
  guarded_lem event a calm = rw (guarded, calm a.events event) refl

  call_each_lem :
      (moment : Moment) (mws : List ℕ) (a : App)
      → IsCalm
      → call_each config fails purged moment mws a
        ≡ (ok tt, record a { events = called moment mws a.events })
  unfolding call_each ◌>>◌
  call_each_lem moment [] a calm = refl
  call_each_lem moment (mw ∷ more) a calm =
      ap (λ (t : Answer (Unit {0}) × App). t >> call_each config fails purged moment more)
        (guarded_lem (hook moment mw) a calm)
      ∙ call_each_lem moment more (record a { events = hook moment mw ∷ a.events }) calm

  close_services_lem :
      (keys : List Key) (a : App)
      → IsCalm
      → close_services config fails purged keys a
        ≡ (ok tt, record a { events = closed keys a.events })
  unfolding close_services is_service ◌>>◌
  close_services_lem [] a calm = refl
  close_services_lem (object i ∷ keys) a calm =
      ap (λ (t : Answer (Unit {0}) × App). t >> close_services config fails purged keys)
        (guarded_lem (service_close (object i)) a calm)
      ∙ close_services_lem keys (record a { events = service_close (object i) ∷ a.events }) calm
  close_services_lem (class i ∷ keys) a calm = close_services_lem keys a calm
  close_services_lem (callable i ∷ keys) a calm = close_services_lem keys a calm

  abbrev hooked : App → App
  hooked a = record a { events = called stopping a.middleware a.events }

  -- The application without its background tasks, before the broker is closed.
  abbrev pub listeners_gone : App → App
  listeners_gone a =
      cancel_control config fails purged (cancel_heartbeat config fails purged (hooked a))

  listeners_gone_lem :
      (a : App)
      → ((listeners_gone a).has_worker ≡ a.has_worker)
        × ((listeners_gone a).services ≡ a.services)
        × ((listeners_gone a).connected ≡ a.connected)
        × ((listeners_gone a).has_heartbeat ≡ false)
        × ((listeners_gone a).has_control ≡ false)
        × ((listeners_gone a).middleware ≡ a.middleware)
  unfolding cancel_control cancel_heartbeat attempt
  listeners_gone_lem a = ground arith

  abbrev pub broker_gone : App → App
  broker_gone g = record g { events = broker_close ∷ g.events }

  abbrev ended : App → Answer (Unit {0}) × App
  unfolding ◌>>◌ call
  ended g = call config fails purged broker_close g >> close_rest config fails purged

  ended_broken :
      (exc : Exn) (g : App)
      → fails g.events broker_close ≡ some exc
      → ended g ≡ (raised exc, broker_gone g)
  unfolding ended call outcome ◌>>◌
  ended_broken exc g fails_so = rw (fails_so) refl

  ended_well :
      (g : App)
      → fails g.events broker_close ≡ none
      → ended g ≡ close_rest config fails purged (broker_gone g)
  unfolding ended call outcome ◌>>◌
  ended_well g closes = rw (closes) refl

  stop_lem : (a : App) → IsCalm → stop config fails purged a ≡ ended (listeners_gone a)
  unfolding stop ended call_middleware close_all ◌>>◌
  stop_lem a calm =
      ap (λ (t : Answer (Unit {0}) × App). t >> close_all config fails purged)
        (call_each_lem stopping a.middleware a calm)

  -- Where no call is cancelled and closing the broker raises, `stop` raises the same, and that was the last thing it did: the
  -- worker, the services and the connection of the application are as before it.
  pub stop_broken :
      (exc : Exn) (a : App)
      → IsCalm
      → fails (listeners_gone a).events broker_close ≡ some exc
      → ((stop config fails purged a).0 ≡ raised exc)
        × ((stop config fails purged a).1.events ≡ broker_close ∷ (listeners_gone a).events)
        × ((stop config fails purged a).1.has_worker ≡ a.has_worker)
        × ((stop config fails purged a).1.services ≡ a.services)
        × ((stop config fails purged a).1.connected ≡ a.connected)
  stop_broken exc a calm fails_so =
      let g = listeners_gone a in
      let run = stop_lem a calm ∙ ended_broken exc g fails_so in
      let (worker, services, connected, heartbeat, control, hooks) = listeners_gone_lem a in
      (
        ap (λ t. t.0) run,
        ap (λ t. t.1.events) run,
        ap (λ t. t.1.has_worker) run ∙ worker,
        ap (λ t. t.1.services) run ∙ services,
        ap (λ t. t.1.connected) run ∙ connected,
      )

  stop_worker_lem :
      (a : App)
      → ((stop_worker config fails purged a).has_worker ≡ false)
        × ((stop_worker config fails purged a).services ≡ a.services)
        × ((stop_worker config fails purged a).has_heartbeat ≡ a.has_heartbeat)
        × ((stop_worker config fails purged a).has_control ≡ a.has_control)
        × ((stop_worker config fails purged a).middleware ≡ a.middleware)
  unfolding stop_worker cancel_worker call outcome attempt
  stop_worker_lem a = ground arith

  -- What is done behind the end of the broker: the services that are closed are the objects among
  -- the keys, and then both backends are closed.
  -- What the parts of the end leave.
  abbrev backends_closed : App → App
  backends_closed c = record c {
    services = [];
    connected = false;
    events = state_close ∷ results_close ∷ c.events;
  }

  close_parts_lem :
      (idle : App)
      → IsCalm
      → close_parts config fails purged idle ≡ (
        ok tt,
        record idle {
          services = [];
          connected = false;
          events =
              called stopped idle.middleware
                (state_close ∷ results_close ∷ closed idle.services idle.events);
        },
      )
  unfolding close_parts call_middleware ◌>>◌
  close_parts_lem idle calm =
      let c : App = record idle { events = closed idle.services idle.events } in
      let unserved : App = record c { services = [] } in
      let without : App = record unserved { events = results_close ∷ c.events } in
      ap
        (λ (t : Answer (Unit {0}) × App). t >> (λ a1.
          guarded config fails purged results_close (record a1 { services = [] }) >> (λ a2.
            guarded config fails purged state_close a2 >> (λ a3.
              call_middleware config fails purged stopped (record a3 { connected = false })))))
        (close_services_lem idle.services idle calm)
      ∙ ap
          (λ (t : Answer (Unit {0}) × App). t >> (λ a2.
            guarded config fails purged state_close a2 >> (λ a3.
              call_middleware config fails purged stopped (record a3 { connected = false }))))
          (guarded_lem results_close unserved calm)
      ∙ ap
          (λ (t : Answer (Unit {0}) × App). t >> (λ a3.
            call_middleware config fails purged stopped (record a3 { connected = false })))
          (guarded_lem state_close without calm)
      ∙ call_each_lem stopped idle.middleware (backends_closed c) calm

  -- Where closing the broker does not raise and no call of a part is cancelled, `stop` ends well,
  -- whatever exceptions its other parts raise: no background task, no worker and no service is left, and the application is not connected. The
  -- last things done are closing both backends and then the hooks of the middleware; before them the
  -- services are closed that are kept under an object, and none that is kept under its class.
  pub stop_complete :
      (a : App)
      → IsCalm
      → fails (listeners_gone a).events broker_close ≡ none
      → let idle = stop_worker config fails purged (broker_gone (listeners_gone a)) in
        let (answer, b) = stop config fails purged a in
        (answer ≡ ok tt)
        × (b.has_heartbeat ≡ false)
        × (b.has_control ≡ false)
        × (b.has_worker ≡ false)
        × (b.services ≡ [])
        × (b.connected ≡ false)
        × (b.events
            ≡ called stopped a.middleware
                (state_close ∷ results_close ∷ closed a.services idle.events))
  unfolding close_rest
  stop_complete a calm closes =
      let g = listeners_gone a in
      let idle = stop_worker config fails purged (broker_gone g) in
      let run = stop_lem a calm ∙ ended_well g closes ∙ close_parts_lem idle calm in
      let (g_worker, g_services, g_connected, g_heartbeat, g_control, g_hooks) =
        listeners_gone_lem a in
      let (worker, services, heartbeat, control, hooks) = stop_worker_lem (broker_gone g) in
      (
        ap (λ t. t.0) run,
        ap (λ t. t.1.has_heartbeat) run ∙ heartbeat ∙ g_heartbeat,
        ap (λ t. t.1.has_control) run ∙ control ∙ g_control,
        ap (λ t. t.1.has_worker) run ∙ worker,
        ap (λ t. t.1.services) run,
        ap (λ t. t.1.connected) run,
        ap (λ t. t.1.events) run
            ∙ ap
                (λ mws.
                  called stopped mws
                    (state_close ∷ results_close ∷ closed idle.services idle.events))
                (hooks ∙ g_hooks)
            ∙ ap
                (λ keys.
                  called stopped a.middleware
                    (state_close ∷ results_close ∷ closed keys idle.events))
                (services ∙ g_services),
      )
