-- ===== src/AutoShutdown/Timers.antt =====
-- The timers of the middleware (demo/mognet_demo/middleware/auto_shutdown.py).
use project_mognet.Prelude.{
  ℕ, suc, ◌<◌, ◌≡◌, refl, ◌⊎◌, inl, inr, Option, none, some, List, [], ◌∷◌, ltb, contains, discard,
  arith, Option-cases, Bool-cases, zero,
}
use project_mognet.Prelude.Eq.{nat_eq, ◌==◌, ==_refl}
use project_mognet.AutoShutdown.{
  Limits, State, cancel_timer, drain, on_task_completed, idle, on_running_task_count_changed, Event,
  completes, changes, runs_out, shuts_down, run_out, end_due, run, last_count,
}

module _ (limits : Limits) where
  -- At most one timer runs: the one that is held, behind a report that no task runs.
  abbrev pub IsTimed : Option ℕ → State → Type 0
  IsTimed last s =
      (s.timers ≡ [])
      ⊎ ((timer : ℕ) × (s.timers ≡ timer ∷ []) × (s.handle ≡ some timer) × (last ≡ some 0))

  -- The same, until the node shuts down.
  abbrev pub IsTimedYet : Option ℕ → State → Type 0
  IsTimedYet last s = (0 < s.shutdowns) ⊎ IsTimed last s

  completes-IsTimed :
      (waiting last : Option ℕ) (s : State)
      → IsTimedYet last s
      → IsTimedYet last (on_task_completed limits waiting s)
  unfolding on_task_completed drain
  completes-IsTimed none last s t = ground arith
  completes-IsTimed (some w) last s t = ground arith

  cancel_timer_none :
      (last : Option ℕ) (s : State)
      → IsTimedYet last s
      → (0 < (cancel_timer s).shutdowns) ⊎ ((cancel_timer s).timers ≡ [])
  unfolding cancel_timer discard
  cancel_timer_none last s (inl over) = elim (Option-cases s.handle) [
    | inl e ↦ inl (rw e over)
    | inr (timer, e) ↦ inl (rw e over)
  ]
  cancel_timer_none last s (inr (inl gone)) = elim (Option-cases s.handle) [
    | inl e ↦ inr (rw e gone)
    | inr (timer, e) ↦ inr (rw (e, gone) refl)
  ]
  cancel_timer_none last s (inr (inr (timer, alone, held, quiet))) =
      inr (rw (held, alone, ==_refl timer) refl)

  idle-IsTimed :
      (s : State) → (0 < s.shutdowns) ⊎ (s.timers ≡ []) → IsTimedYet (some 0) (idle limits s)
  unfolding idle
  idle-IsTimed s (inl over) = ground arith
  idle-IsTimed s (inr gone) = elim (Bool-cases s.drain_called) [
    | inl drained ↦ inl (rw drained (omega arith))
    | inr open_yet ↦ elim (Bool-cases (ltb 0 limits.idle_timeout)) [
      | inl timed ↦ inr (inr (s.next_timer, ground arith, ground arith, refl))
      | inr untimed ↦ inr (inl (ground arith))
    ]
  ]

  changes-IsTimed :
      (running : ℕ) (last : Option ℕ) (s : State)
      → IsTimedYet last s
      → IsTimedYet (some running) (on_running_task_count_changed limits running s)
  unfolding on_running_task_count_changed
  changes-IsTimed zero last s t = idle-IsTimed (cancel_timer s) (cancel_timer_none last s t)
  changes-IsTimed (suc running) last s t = elim (cancel_timer_none last s t) [
    | inl over ↦ inl (ground (arith, over))
    | inr gone ↦ inr (inl (ground (arith, gone)))
  ]

  runs_out-IsTimed :
      (timer : ℕ) (last : Option ℕ) (s : State)
      → IsTimedYet last s
      → IsTimedYet last (run_out limits timer s)
  unfolding run_out discard contains
  runs_out-IsTimed timer last s (inl over) = ground arith
  runs_out-IsTimed timer last s (inr (inl gone)) = ground arith
  runs_out-IsTimed timer last s (inr (inr (held_timer, alone, held, quiet))) =
      elim (Bool-cases (held_timer == timer)) [
        | inl same ↦ inr (inl (ground (arith, alone, same)))
        | inr other ↦
            inr (inr (held_timer, ground (arith, alone, other), ground (arith, held), quiet))
      ]

  shuts_down-IsTimed :
      (timer : ℕ) (last : Option ℕ) (s : State)
      → IsTimedYet last s
      → IsTimedYet last (end_due limits timer s)
  unfolding end_due
  shuts_down-IsTimed timer last s t = elim (Bool-cases (contains timer s.due)) [
    | inl due ↦ inl (ground (arith, due))
    | inr early ↦ rw early t
  ]

  run-IsTimed :
      (events : List (Event limits)) → IsTimedYet (last_count limits events) (run limits events)
  unfolding run
  run-IsTimed [] = inr (inl refl)
  run-IsTimed (completes w ∷ es) =
      completes-IsTimed w (last_count limits es) (run limits es) (run-IsTimed es)
  run-IsTimed (changes n ∷ es) =
      changes-IsTimed n (last_count limits es) (run limits es) (run-IsTimed es)
  run-IsTimed (runs_out t ∷ es) =
      runs_out-IsTimed t (last_count limits es) (run limits es) (run-IsTimed es)
  run-IsTimed (shuts_down t ∷ es) =
      shuts_down-IsTimed t (last_count limits es) (run limits es) (run-IsTimed es)

  -- As long as a node was not shut down, at most one timer runs, whatever happened: it is the one
  -- that is held, and the last report was that no task runs.
  pub run_timers :
      (events : List (Event limits))
      → (run limits events).shutdowns ≡ 0
      → IsTimed (last_count limits events) (run limits events)
  run_timers events open_yet = elim (run-IsTimed events) [
    | inl over ↦ absurd (omega arith)
    | inr timed ↦ timed
  ]
