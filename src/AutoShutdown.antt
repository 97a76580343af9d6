-- ===== src/AutoShutdown.antt =====
-- demo/mognet_demo/middleware/auto_shutdown.py: the middleware that ends a node behind a time without
-- tasks, or behind a number of tasks. The timers of the event loop are part of the state; what the
-- loop does next is an event.
pub mod Timers
pub mod Drain
use project_mognet.Prelude.{
  ℕ, suc, ◌+◌, ◌<◌, ◌≡◌, refl, ◌⊎◌, inl, inr, Bool, true, false, ◌&&◌, ◌||◌, not, Option, none,
  some, List, [], ◌∷◌, ltb, leb, contains, discard, if◌then◌else◌, arith, Option-cases, Bool-cases,
  zero,
}
use project_mognet.Prelude.Eq.{nat_eq, ◌==◌, ==_refl}

-- `stop_consuming_after` and `shutdown_after_idle`; 0 stands for what is not above 0.
pub record Limits : Type 0 where
  pub max_completed_tasks : ℕ
  pub idle_timeout : ℕ

-- `handle` is `_current_shutdown_handle`. Of the loop there are the timers that run, those that ran
-- out and whose task `_shutdown` was not run yet, and a number for the next timer. `stops` counts the
-- calls of `stop_consuming`, `shutdowns` those that raise GracefulShutdown.
pub record State : Type 0 where
  pub completed_task_count : ℕ
  pub drain_called : Bool
  pub handle : Option ℕ
  pub timers : List ℕ
  pub due : List ℕ
  pub next_timer : ℕ
  pub stops : ℕ
  pub shutdowns : ℕ

abbrev pub initial : State
initial = record {
  completed_task_count = 0;
  drain_called = false;
  handle = none;
  timers = [];
  due = [];
  next_timer = 0;
  stops = 0;
  shutdowns = 0;
}

-- `_shutdown`
shut : State → State
shut s = record s { handle = none; shutdowns = s.shutdowns + 1 }

cancel_handle : Option ℕ → State → State
cancel_handle none s = s
cancel_handle (some timer) s = record s { handle = none; timers = discard timer s.timers }

-- `_cancel_current_shutdown_timer`
cancel_timer : State → State
unfolding cancel_handle
cancel_timer s = cancel_handle s.handle s

set_timer : State → State
set_timer s = record s {
  handle = some s.next_timer;
  timers = s.next_timer ∷ s.timers;
  next_timer = s.next_timer + 1;
}

module _ (limits : Limits) where
  -- Behind the tests for a worker and for the number of completed tasks.
  drain : Option ℕ → State → State
  drain none s = s
  drain (some waiting) s =
      if ltb limits.max_completed_tasks s.completed_task_count && not (ltb 0 waiting)
      then record s { drain_called = true; stops = s.stops + 1 }
      else s

  -- `_stop_worker_from_consuming`, by the worker's number of waiting tasks, if there is a worker.
  stop_worker_from_consuming : Option ℕ → State → State
  unfolding drain
  stop_worker_from_consuming waiting s =
      if not (ltb 0 limits.max_completed_tasks) || s.drain_called then s else drain waiting s

  unfoldable pub on_task_completed : Option ℕ → State → State
  unfolding stop_worker_from_consuming
  on_task_completed waiting s =
      stop_worker_from_consuming waiting
        (record s { completed_task_count = s.completed_task_count + 1 })

  -- The part behind the first two statements, where no task runs.
  idle : State → State
  unfolding shut set_timer
  idle s = if s.drain_called then shut s else if ltb 0 limits.idle_timeout then set_timer s else s

  unfoldable pub on_running_task_count_changed : ℕ → State → State
  unfolding idle cancel_timer
  on_running_task_count_changed running s =
      let s' = cancel_timer s in if ltb 0 running then s' else idle s'

  -- What happens next: a call of the two hooks, a timer that runs out, or the task that it started.
  pub data Event : Type 0 where
    completes : (waiting : Option ℕ) → Event
    changes : (running : ℕ) → Event
    runs_out : (timer : ℕ) → Event
    shuts_down : (timer : ℕ) → Event

  -- `_schedule_shutdown`, of a timer that runs.
  run_out : ℕ → State → State
  run_out timer s =
      if contains timer s.timers
      then record s { timers = discard timer s.timers; due = timer ∷ s.due }
      else s

  end_due : ℕ → State → State
  unfolding shut
  end_due timer s =
      if contains timer s.due then shut (record s { due = discard timer s.due }) else s

  unfoldable pub step : Event → State → State
  unfolding run_out end_due
  step (completes waiting) = on_task_completed waiting
  step (changes running) = on_running_task_count_changed running
  step (runs_out timer) = run_out timer
  step (shuts_down timer) = end_due timer

  -- A run of events; the last one stands in front.
  unfoldable pub run : List Event → State
  unfolding step
  run [] = initial
  run (event ∷ earlier) = step event (run earlier)

  -- The number of running tasks that was reported last.
  abbrev pub last_count : List Event → Option ℕ
  last_count [] = none
  last_count (changes running ∷ earlier) = some running
  last_count (completes waiting ∷ earlier) = last_count earlier
  last_count (runs_out timer ∷ earlier) = last_count earlier
  last_count (shuts_down timer ∷ earlier) = last_count earlier

  -- The tasks that were reported as completed.
  abbrev pub completions : List Event → ℕ
  completions [] = 0
  completions (completes waiting ∷ earlier) = suc (completions earlier)
  completions (changes running ∷ earlier) = completions earlier
  completions (runs_out timer ∷ earlier) = completions earlier
  completions (shuts_down timer ∷ earlier) = completions earlier
