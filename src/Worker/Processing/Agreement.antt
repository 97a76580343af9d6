-- ===== src/Worker/Processing/Agreement.antt =====
-- The prefetch count stays agreed with the broker while requests are run and cancelled (worker.py).
use project_mognet.Prelude.{ℕ, ◌∙◌, Option, none, some, List, [], ◌∷◌, if◌then◌else◌, if_ind}
use project_mognet.Prelude.Dict
use project_mognet.Prelude.Eq.{nat_eq}
use project_mognet.Model.State.{ResultState}
use project_mognet.Model.Value.{Exn}
use project_mognet.Model.Result.{Result, done}
use project_mognet.Request.{Request}
use project_mognet.Worker.Node.{
  Node, Effect, CancellationAction, nothing, ack, nack, acked, nacked, task_starting,
  task_completed, Holder, prefetch_set, count_changed, emit, remove_suspended_task,
  add_running_task, remove_running_task,
}
use project_mognet.Worker.Admission.{Verdict, already_done, refuse, proceed}
use project_mognet.Worker.Processing.{
  Outcome, returned, failed, paused, cancelled, rejected, Ending, finished, interrupted, Setting,
  on_complete, refuse_request, settle, execute, proceed_by, run_request, conclude, run_found,
  suspend_holder, is_running, act, cancel_found, process_request_message, cancel_holder,
  suspend_own, cancel, cancel_each, cancel_all_tasks,
}
use project_mognet.Worker.Throttling.{
  broker_prefetch-append, IsAgreed, adjust_prefetch-IsAgreed, remove_suspended_task-IsAgreed,
}

-- Effects that are no prefetch counts.
abbrev IsOther : Effect → Type 0
IsOther (prefetch_set p) = ⊥
IsOther _ = Unit

emit-IsAgreed : (e : Effect) (n : Node) → IsOther e → IsAgreed n → IsAgreed (emit e n)
emit-IsAgreed (prefetch_set p) n o h = absurd o
emit-IsAgreed (acked m) n o h = broker_prefetch-append 1 n.effects (acked m ∷ []) ∙ h
emit-IsAgreed e n o h = broker_prefetch-append 1 n.effects (e ∷ []) ∙ h

module _ (setting : Setting) where
  open setting use {config, code}

  on_complete-IsAgreed :
      (id : ℕ) (r : Result) (n : Node) → IsAgreed n → IsAgreed (on_complete setting id r n)
  unfolding on_complete
  on_complete-IsAgreed id r n h =
      let cleared : Node = record n {
        states = if done r then Dict.remove id n.states else n.states;
      } in
      emit-IsAgreed (task_completed id r) (remove_suspended_task config id cleared) tt
        (remove_suspended_task-IsAgreed config id cleared h)

  refuse_request-IsAgreed :
      (exc : Exn) (state : ResultState) (time : ℕ) (r : Result) (req : Request) (n : Node)
      → IsAgreed n
      → IsAgreed (refuse_request setting exc state time r req n)
  unfolding refuse_request
  refuse_request-IsAgreed exc state time r req n h = on_complete-IsAgreed req.id _ _ h

  -- The task functions, and what runs while they are awaited, leave the count with the broker right.
  pub record CodeIsAgreed : Type 0 where
    pub body_agrees : (req : Request) (n : Node) → IsAgreed n → IsAgreed (code.body req n).0
    pub stop_agrees : (req : Request) (n : Node) → IsAgreed n → IsAgreed (code.stop req n)

  suspend_holder-IsAgreed :
      (o : Option Holder) (r : Result) (req : Request) (n : Node)
      → IsAgreed n
      → IsAgreed (suspend_holder setting o r req n)
  unfolding suspend_holder
  suspend_holder-IsAgreed none r req n h = h
  suspend_holder-IsAgreed (some holder) r req n h = emit-IsAgreed (nacked holder.message) n tt h

  settle-IsAgreed :
      (r : Result) (req : Request) (o : Node × Outcome)
      → IsAgreed o.0
      → IsAgreed (settle setting r req o).0
  unfolding settle
  settle-IsAgreed r req (n, returned v) h =
      if_ind IsAgreed (is_running setting req.id n) (on_complete-IsAgreed req.id _ _ h) h
  settle-IsAgreed r req (n, paused) h =
      suspend_holder-IsAgreed (Dict.lookup req.id n.running_tasks) r req n h
  settle-IsAgreed r req (n, cancelled) h = h
  settle-IsAgreed r req (n, rejected) h = refuse_request-IsAgreed _ _ _ r req n h
  settle-IsAgreed r req (n, failed exc) h =
      if_ind IsAgreed (is_running setting req.id n) (refuse_request-IsAgreed exc _ _ r req n h) h

  module _ (c : CodeIsAgreed) where
    execute-IsAgreed :
        (r : Result) (req : Request) (n : Node) → IsAgreed n → IsAgreed (execute setting r req n).0
    unfolding execute
    execute-IsAgreed r req n h =
        let started = emit-IsAgreed (task_starting req.id) n tt h in
        if_ind {A = Node × Ending} (λ o. IsAgreed o.0) (code.accepts req)
          (settle-IsAgreed _ req _ (c.body_agrees req _ started))
          (refuse_request-IsAgreed _ _ _ _ req _ started)

    proceed_by-IsAgreed :
        (v : Verdict) (r : Result) (req : Request) (n : Node)
        → IsAgreed n
        → IsAgreed (proceed_by setting v r req n).0
    unfolding proceed_by
    proceed_by-IsAgreed already_done r req n h = on_complete-IsAgreed req.id r n h
    proceed_by-IsAgreed (refuse exc state) r req n h = refuse_request-IsAgreed exc state _ r req n h
    proceed_by-IsAgreed proceed r req n h = execute-IsAgreed r req n h

    run_found-IsAgreed :
        (o : Option Result) (req : Request) (n : Node)
        → IsAgreed n
        → IsAgreed (run_found setting o req n).0
    unfolding run_found
    run_found-IsAgreed none req n h = remove_suspended_task-IsAgreed config req.id n h
    run_found-IsAgreed (some r) req n h = proceed_by-IsAgreed _ r req n h

    conclude-IsAgreed :
        (message id : ℕ) (o : Node × Ending)
        → IsAgreed o.0
        → IsAgreed (conclude setting message id o)
    unfolding conclude remove_running_task
    conclude-IsAgreed message id (n, finished) h =
        emit-IsAgreed count_changed (emit (acked message) n) tt
          (emit-IsAgreed (acked message) n tt h)
    conclude-IsAgreed message id (n, interrupted) h = emit-IsAgreed count_changed n tt h

    -- Processing a message from its arrival to its end keeps the worker's prefetch count equal to the
    -- one that the broker was last given, on every path, if the task functions keep it so.
    pub process_request_message-IsAgreed :
        (message : ℕ) (req : Request) (n : Node)
        → IsAgreed n
        → IsAgreed (process_request_message setting message req n)
    unfolding process_request_message run_request add_running_task
    process_request_message-IsAgreed message req n h =
        conclude-IsAgreed message req.id _
          (run_found-IsAgreed _ req _ (emit-IsAgreed count_changed n tt h))

    act-IsAgreed :
        (action : CancellationAction) (message : ℕ) (n : Node)
        → IsAgreed n
        → IsAgreed (act setting action message n)
    unfolding act
    act-IsAgreed nothing message n h = h
    act-IsAgreed ack message n h = emit-IsAgreed (acked message) n tt h
    act-IsAgreed nack message n h = emit-IsAgreed (nacked message) n tt h

    cancel_found-IsAgreed :
        (o : Option Holder) (action : CancellationAction) (id : ℕ) (n : Node)
        → IsAgreed n
        → IsAgreed (cancel_found setting o action id n)
    unfolding cancel_found cancel_holder suspend_own remove_running_task
    cancel_found-IsAgreed none action id n h = h
    cancel_found-IsAgreed (some o) action id n h =
        let acted = act setting action o.message (suspend_own setting id n) in
        let settled = act-IsAgreed action o.message (suspend_own setting id n) h in
        if_ind IsAgreed o.has_task
          (emit-IsAgreed count_changed (code.stop o.request acted) tt
            (c.stop_agrees o.request acted settled))
          settled

    cancel-IsAgreed :
        (action : CancellationAction) (id : ℕ) (n : Node)
        → IsAgreed n
        → IsAgreed (cancel setting action id n)
    unfolding cancel remove_running_task
    cancel-IsAgreed action id n h =
        cancel_found-IsAgreed _ action id _ (emit-IsAgreed count_changed n tt h)

    cancel_each-IsAgreed :
        (action : CancellationAction) (ids : List ℕ) (n : Node)
        → IsAgreed n
        → IsAgreed (cancel_each setting action ids n)
    unfolding cancel_each
    cancel_each-IsAgreed action [] n h = h
    cancel_each-IsAgreed action (id ∷ ids) n h =
        cancel_each-IsAgreed action ids _ (cancel-IsAgreed action id n h)

    -- Cancelling all tasks, as closing and a lost connection do, keeps the worker's prefetch count
    -- equal to the one that the broker was last given, if the task functions keep it so.
    pub cancel_all_tasks-IsAgreed :
        (action : CancellationAction) (n : Node)
        → IsAgreed n
        → IsAgreed (cancel_all_tasks setting action n)
    unfolding cancel_all_tasks
    cancel_all_tasks-IsAgreed action n h =
        adjust_prefetch-IsAgreed config _
          (cancel_each-IsAgreed action (Dict.keys n.running_tasks) n h)
