-- ===== src/Backend/Redis/Client.antt =====
-- The connection of the Redis backend: the client behind the property `_redis`, and the tasks that
-- `wait` spawned.
use project_mognet.Prelude.{
  ℕ, ◌≡◌, refl, Bool, true, false, ◌||◌, Option, none, some, List, [], ◌∷◌, arith, contains,
  if◌then◌else◌,
}
use project_mognet.Prelude.Eq.{nat_eq}
use project_mognet.Model.Value.{Exn, not_connected}
use project_mognet.Backend.Memory.{Answer, ok, raised}

-- `waiters` has the task that was spawned last in front; `cancelled` are those that were cancelled.
pub record Client : Type 0 where
  pub connected : Bool
  pub has_redis : Bool
  pub waiters : List ℕ
  pub cancelled : List ℕ

abbrev pub initial : Client
initial = record { connected = false; has_redis = false; waiters = []; cancelled = [] }

-- The property `_redis`, before the use that is made of it.
unfoldable pub reach : {A : Type 0} → A → Client → Answer A
reach value k = if k.has_redis then ok value else raised not_connected

-- `_connect`, by what the ping raises in the end.
unfoldable pub open_redis : Option Exn → Client → Answer (Unit {0}) × Client
open_redis ping k = (elim ping [ none ↦ ok tt | some e ↦ raised e ], record k { has_redis = true })

unfoldable pub connect : Option Exn → Client → Answer (Unit {0}) × Client
unfolding open_redis
connect ping k = if k.connected then (ok tt, k) else open_redis ping (record k { connected = true })

-- `wait` notes the task that it spawns.
unfoldable pub add_waiter : ℕ → Client → Client
add_waiter task k = record k { waiters = task ∷ k.waiters }

-- The loop of `_close_waiters`, which drops what the tasks raise.
cancel_waiters : List ℕ → List ℕ → List ℕ
cancel_waiters [] done = done
cancel_waiters (task ∷ waiters) done = cancel_waiters waiters (task ∷ done)

unfoldable pub close_waiters : Client → Client
unfolding cancel_waiters
close_waiters k = record k { waiters = []; cancelled = cancel_waiters k.waiters k.cancelled }

unfoldable pub disconnect : Client → Client
disconnect k = record k { has_redis = false }

unfoldable pub close : Client → Client
unfolding close_waiters disconnect
close k = disconnect (close_waiters (record k { connected = false }))

contains-cancel_waiters :
    (task : ℕ) (waiters done : List ℕ)
    → contains task (cancel_waiters waiters done) ≡ (contains task done || contains task waiters)
unfolding contains cancel_waiters
contains-cancel_waiters task [] done = ground arith
contains-cancel_waiters task (w ∷ waiters) done =
    ground (arith, contains-cancel_waiters task waiters (w ∷ done))

-- Closing cancels every task that waits, and besides these only those that were cancelled before
-- are; then no task waits, every use of the server raises NotConnected, and connecting again with an
-- answered ping makes the server reachable.
pub close_lem :
    {A : Type 0} (value : A) (k : Client)
    → ((task : ℕ)
        → contains task (close k).cancelled
          ≡ (contains task k.cancelled || contains task k.waiters))
      × ((close k).waiters ≡ [])
      × (reach value (close k) ≡ raised not_connected)
      × ((connect none (close k)).0 ≡ ok tt)
      × (reach value (connect none (close k)).1 ≡ ok value)
unfolding close connect reach
close_lem value k =
    ((λ task. contains-cancel_waiters task k.waiters k.cancelled), refl, refl, refl, refl)

-- A client that could not connect counts as connected: where the first attempt of a client that is
-- not connected raises, the next one does not try, and returns.
pub connect-connect :
    (exc : Exn) (ping : Option Exn) (k : Client)
    → k.connected ≡ false
    → ((connect (some exc) k).0 ≡ raised exc)
      × (connect ping (connect (some exc) k).1 ≡ (ok tt, (connect (some exc) k).1))
unfolding connect
connect-connect exc ping k e = ground arith
