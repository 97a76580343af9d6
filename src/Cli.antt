-- ===== src/Cli.antt =====
-- mognet/cli: the commands, up to how texts, tables and trees are printed.
pub mod Tasks
pub mod Nodes
use project_mognet.Prelude.{
  ℕ, String, Bool, true, false, Option, none, some, List, [], ◌∷◌, if◌then◌else◌, update,
}
use project_mognet.Prelude.Dict.{Dict}
use project_mognet.Prelude.Eq.{string_eq}
use project_mognet.Model.Value.{Exn}
use project_mognet.Backend.Memory.{Answer, ok, raised}
use project_mognet.Config.{AppConfig, Selection, ensure_valid}
use project_mognet.App.Running
use project_mognet.App.Running.{App, Event, ◌>>◌}

-- How a command ends: it prints something, it leaves with a code, or an exception ends it.
pub data Ended {ℓ} (A : Type ℓ) : Type ℓ where
  printed : A → Ended A
  exits : (code : ℕ) → Ended A
  fails : Exn → Ended A

-- The options of `run`, where `pieces` splits a text at its commas and strips the parts: each makes a
-- set of them.
unfoldable pub chosen_queues :
    (pieces : String → List String) → Option String → Option String → Selection → Answer Selection
chosen_queues pieces include exclude queues =
    let changed : Selection = record {
      include = elim include [ none ↦ queues.include | some text ↦ update [] (pieces text) ];
      exclude = elim exclude [ none ↦ queues.exclude | some text ↦ update [] (pieces text) ];
    } in
    elim (ensure_valid changed) [ raised e ↦ raised e | ok x ↦ ok changed ]

-- What the event loop hands to `custom_exception_handler`: a context without an exception, a
-- GracefulShutdown, or another exception.
pub data Reported : Type 0 where
  no_exception graceful : Reported
  exception : Exn → Reported

-- The exception that `run` raises in the end: `none` stands for `SystemExit(0)`.
unfoldable pub pending_exception : Option Exn → List Reported → Option Exn
pending_exception pending [] = pending
pending_exception pending (no_exception ∷ more) = pending_exception pending more
pending_exception pending (graceful ∷ more) = pending_exception pending more
pending_exception pending (exception e ∷ more) = pending_exception (some e) more

module _ (config : AppConfig) (refuses : List Event → Event → Option Exn)
    (purged : List Event → Event → ℕ) where
  -- The end of `async with app`: an exception of closing takes the place of what the body gave.
  leave : {A : Type 0} → Answer A → Answer (Unit {0}) × App → Answer A × App
  leave answer (ok x, a) = (answer, a)
  leave answer (raised e, a) = (raised e, a)

  closing : {A : Type 0} → Answer A × App → Answer A × App
  unfolding leave
  closing (answer, a) = leave answer (Running.stop config refuses purged a)

  -- `async with app`, around a body: it connects first, and closes where it was connected.
  unfoldable pub with_app : {A : Type 0} → (App → Answer A × App) → App → Answer A × App
  unfolding closing
  with_app body a = Running.connect config refuses purged a >> (λ a1. closing (body a1))

  both : Answer (Dict String ℕ) → Answer ℕ → Answer (Dict String ℕ × ℕ)
  both (raised e) control = raised e
  both (ok counts) (raised e) = raised e
  both (ok counts) (ok n) = ok (counts, n)

  purge_queues : App → Answer (Dict String ℕ × ℕ) × App
  unfolding both
  purge_queues a =
      let (counts, a1) = Running.purge_task_queues config refuses purged a in
      (counts, a1) >> (λ a2.
        let (control, a3) = Running.purge_control_queue config refuses purged a2 in
        (both counts control, a3))

  -- The body of `queues purge`, and the command: without `--force` it only leaves with a code.
  purge_body : App → Answer (Dict String ℕ × ℕ) × App
  unfolding purge_queues
  purge_body a = Running.connect config refuses purged a >> purge_queues

  ended : {A : Type 0} → Answer A → Ended A
  ended (ok shown) = printed shown
  ended (raised e) = fails e

  unfoldable pub purge : (force : Bool) → App → Ended (Dict String ℕ × ℕ) × App
  unfolding with_app purge_body ended
  purge force a =
      let (answer, a') = with_app purge_body a in if force then (ended answer, a') else (exits 1, a)
