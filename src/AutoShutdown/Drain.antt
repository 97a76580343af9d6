-- ===== src/AutoShutdown/Drain.antt =====
-- How often the middleware tells the worker to stop consuming, and when
-- (demo/mognet_demo/middleware/auto_shutdown.py).
use project_mognet.Prelude.{
  ℕ, suc, ◌<◌, ◌≡◌, refl, true, Option, none, some, List, [], ◌∷◌, if◌then◌else◌, arith,
}
use project_mognet.Prelude.Eq.{nat_eq}
use project_mognet.AutoShutdown.{
  Limits, State, cancel_handle, drain, on_task_completed, on_running_task_count_changed, Event,
  completes, changes, runs_out, shuts_down, run_out, end_due, step, run, completions,
}

module _ (limits : Limits) where
  -- The worker was told to stop consuming once at most, behind more completed tasks than the limit.
  pub record IsDrained (completed : ℕ) (s : State) : Type 0 where
    pub counted : s.completed_task_count ≡ completed
    pub told : s.stops ≡ (if s.drain_called then 1 else 0)
    pub many :
        s.drain_called ≡ true
        → (0 < limits.max_completed_tasks) × (limits.max_completed_tasks < completed)

  completes-IsDrained :
      (waiting : Option ℕ) (completed : ℕ) (s : State)
      → IsDrained completed s
      → IsDrained (suc completed) (on_task_completed limits waiting s)
  unfolding on_task_completed drain
  completes-IsDrained none completed s d = ground arith
  completes-IsDrained (some w) completed s d = ground arith

  -- What the invariant speaks of.
  abbrev pub SameBooks : State → State → Type 0
  SameBooks s t =
      (t.completed_task_count ≡ s.completed_task_count)
      × (t.drain_called ≡ s.drain_called)
      × (t.stops ≡ s.stops)

  cancel_handle-SameBooks : (handle : Option ℕ) (s : State) → SameBooks s (cancel_handle handle s)
  unfolding cancel_handle
  cancel_handle-SameBooks none s = (refl, refl, refl)
  cancel_handle-SameBooks (some timer) s = (refl, refl, refl)

  changes-SameBooks :
      (running : ℕ) (s : State) → SameBooks s (on_running_task_count_changed limits running s)
  unfolding on_running_task_count_changed
  changes-SameBooks running s =
      let (counted, called, told) = cancel_handle-SameBooks s.handle s in
      (ground arith, ground arith, ground arith)

  run_out-SameBooks : (timer : ℕ) (s : State) → SameBooks s (run_out limits timer s)
  unfolding run_out
  run_out-SameBooks timer s = (ground arith, ground arith, ground arith)

  end_due-SameBooks : (timer : ℕ) (s : State) → SameBooks s (end_due limits timer s)
  unfolding end_due
  end_due-SameBooks timer s = (ground arith, ground arith, ground arith)

  SameBooks-IsDrained :
      (completed : ℕ) (s t : State) → SameBooks s t → IsDrained completed s → IsDrained completed t
  SameBooks-IsDrained completed s t (counted, called, told) d = ground arith

  -- Whatever happened, the worker was told to stop consuming once at most, and only where the limit
  -- is above 0 and more tasks than it were reported as completed.
  pub run-IsDrained :
      (events : List (Event limits)) → IsDrained (completions limits events) (run limits events)
  unfolding run step
  run-IsDrained [] = ground arith
  run-IsDrained (completes w ∷ es) =
      completes-IsDrained w (completions limits es) (run limits es) (run-IsDrained es)
  run-IsDrained (changes n ∷ es) =
      SameBooks-IsDrained (completions limits es) (run limits es)
        (on_running_task_count_changed limits n (run limits es))
        (changes-SameBooks n (run limits es)) (run-IsDrained es)
  run-IsDrained (runs_out t ∷ es) =
      SameBooks-IsDrained (completions limits es) (run limits es) (run_out limits t (run limits es))
        (run_out-SameBooks t (run limits es)) (run-IsDrained es)
  run-IsDrained (shuts_down t ∷ es) =
      SameBooks-IsDrained (completions limits es) (run limits es) (end_due limits t (run limits es))
        (end_due-SameBooks t (run limits es)) (run-IsDrained es)
