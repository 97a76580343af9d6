-- ===== src/Context.antt =====
-- mognet/context/context.py: the context of a running request, which counts the requests that it
-- waits for. What happens while they are awaited is a parameter.
pub mod Waiting
pub mod Gathering
use project_mognet.Prelude.{
  ℕ, String, Bool, true, false, not, ◌&&◌, Option, none, some, List, [], ◌∷◌, if◌then◌else◌, add,
  update, discard, contains,
}
use project_mognet.Prelude.Dict.{Dict}
use project_mognet.Prelude.Eq.{nat_eq}
use project_mognet.Model.State.{running, suspended, state_eq}
use project_mognet.Model.Value.{Value, Exn, key_error, cancelled_error, result_lost, null}
use project_mognet.Model.Result.{Result}
use project_mognet.Backend.Memory.{Answer, ok, raised}
use project_mognet.Backend.Memory
use project_mognet.Config.{AppConfig}
use project_mognet.Lifecycle
use project_mognet.Request.{Request}
use project_mognet.Worker.Node.{Node, with_backend, add_waiting_task, remove_suspended_task}

-- A context: the ids that its request waits for, and the node that it runs on.
pub record Place : Type 0 where
  pub dependencies : List ℕ
  pub node : Node

-- How awaiting ends.
pub data Wait : Type 0 where
  answered : List Value → Wait
  failed : Exn → Wait
  cancelled : Wait

unfoldable pub is_empty : List ℕ → Bool
is_empty [] = true
is_empty (x ∷ xs) = false

unfoldable pub get_result : Request → Node → Answer Result
get_result req n = elim (Memory.get req.id n.backend) [
  | none ↦ raised (result_lost req.id)
  | some r ↦ ok r
]

unfoldable pub set_metadata : Request → Dict String Value → Node → Answer Node
unfolding get_result
set_metadata req entries n = elim (get_result req n) [
  | raised e ↦ raised e
  | ok r ↦ ok (with_backend (Memory.set_metadata r.id entries n.backend) n)
]

module _ (config : AppConfig) (req : Request) where
  -- `_suspend` of a result that was found, and `_suspend`.
  unfoldable pub suspend_found : Result → Node → Node
  suspend_found r n =
      let b = if state_eq r.state running then (Lifecycle.suspend r n.backend).1 else n.backend in
      add_waiting_task config req.id (with_backend b n)

  unfoldable pub suspend : Node → Answer Node
  unfolding suspend_found get_result
  suspend n = elim (get_result req n) [ raised e ↦ raised e | ok r ↦ ok (suspend_found r n) ]

  -- `_resume` of a result that was found, and `_resume`.
  unfoldable pub resume_found : Result → Node → Node
  resume_found r n =
      let b =
        if state_eq r.state suspended then (Lifecycle.resume none r n.backend).1 else n.backend in
      remove_suspended_task config req.id (with_backend b n)

  unfoldable pub resume : Node → Answer Node
  unfolding resume_found get_result
  resume n = elim (get_result req n) [ raised e ↦ raised e | ok r ↦ ok (resume_found r n) ]

  -- The step from having no dependencies to having some: it suspends.
  unfoldable pub enter : List ℕ → Place → Answer Place
  unfolding suspend is_empty
  enter ids p =
      let more = update p.dependencies ids in
      if is_empty p.dependencies && not (is_empty more)
      then (elim (suspend p.node) [
        | raised e ↦ raised e
        | ok n ↦ ok (record { dependencies = more; node = n })
      ])
      else ok (record p { dependencies = more })

  unfoldable pub difference : List ℕ → List ℕ → List ℕ
  difference ids [] = ids
  difference ids (x ∷ xs) = difference (discard x ids) xs

  unfoldable pub has_all : List ℕ → List ℕ → Bool
  has_all [] dependencies = true
  has_all (id ∷ ids) dependencies = contains id dependencies && has_all ids dependencies

  -- The `finally` block: it resumes where no dependency is left, unless the wait was cancelled. `run`
  -- takes its id away with `remove`, which raises where it is gone; `gather` does not mind.
  unfoldable pub leave : Bool → List ℕ → Bool → Place → Answer Place
  unfolding difference resume is_empty has_all
  leave strict ids was_cancelled p =
      let left = difference p.dependencies ids in
      if strict && not (has_all ids p.dependencies)
      then raised key_error
      else if is_empty left && not was_cancelled
      then (elim (resume p.node) [
        | raised e ↦ raised e
        | ok n ↦ ok (record { dependencies = left; node = n })
      ])
      else ok (record p { dependencies = left })

  -- What a wait gives its caller. `run` hides a cancellation, and `gather` raises it.
  unfoldable pub outcome : Bool → Wait → Answer (List Value)
  outcome hides (answered vs) = ok vs
  outcome hides (failed e) = raised e
  outcome hides cancelled = if hides then ok (null ∷ []) else raised cancelled_error

  unfoldable pub was_cancelled : Wait → Bool
  was_cancelled cancelled = true
  was_cancelled _ = false

  -- The part behind the wait, with an outcome of the `finally` block. An exception of the
  -- block takes the place of the outcome.
  unfoldable pub conclude :
      Answer (List Value) → List ℕ → Place → Answer Place → Answer (List Value) × Place
  unfolding difference
  conclude answer ids p (ok last) = (answer, last)
  conclude answer ids p (raised e) =
      (raised e, record p { dependencies = difference p.dependencies ids })

  unfoldable pub finish : Bool → List ℕ → Place × Wait → Answer (List Value) × Place
  unfolding conclude leave outcome was_cancelled
  finish hides ids (p, wait) =
      conclude (outcome hides wait) ids p (leave hides ids (was_cancelled wait) p)

  unfoldable pub entered :
      (Place → Place × Wait) → Bool → List ℕ → Place → Answer Place → Answer (List Value) × Place
  unfolding finish
  entered during hides ids p (ok waiting) = finish hides ids (during waiting)
  entered during hides ids p (raised e) =
      let kept : Place = record p { dependencies = update p.dependencies ids } in
      conclude (raised e) ids kept (leave hides ids false kept)

  -- The part that `run` and `gather` share.
  unfoldable pub await :
      (Place → Place × Wait) → Bool → List ℕ → Place → Answer (List Value) × Place
  unfolding enter entered
  await during hides ids p = entered during hides ids p (enter ids p)

  unfoldable pub gather : (Place → Place × Wait) → List ℕ → Place → Answer (List Value) × Place
  unfolding await
  gather during ids p = await during false ids p

  unfoldable pub run : (Place → Place × Wait) → ℕ → Place → Answer (List Value) × Place
  unfolding await
  run during id p = await during true (id ∷ []) p
