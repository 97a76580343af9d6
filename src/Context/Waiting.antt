-- ===== src/Context/Waiting.antt =====
-- A request that waits for another one is suspended and resumed (mognet/context/context.py).
use project_mognet.Prelude.{
  ℕ, ◌+◌, ◌≡◌, refl, ap, true, false, some, [], ◌∷◌, arith, contains, contains-discard, add, update,
  contains-add, discard, ◌∙◌,
}
use project_mognet.Prelude.Dict
use project_mognet.Prelude.Eq.{nat_eq, ==_refl}
use project_mognet.Model.State.{running, suspended, state_eq}
use project_mognet.Model.Result.{Result}
use project_mognet.Backend.Memory
use project_mognet.Backend.Memory.{Answer, ok, raised}
use project_mognet.Config.{AppConfig}
use project_mognet.Lifecycle
use project_mognet.Request.{Request}
use project_mognet.Worker.Node.{Node, add_waiting_task, remove_suspended_task, adjust_prefetch}
use project_mognet.Context.{
  Place, Wait, get_result, suspend_found, suspend, resume_found, resume, enter, difference, leave,
  has_all, was_cancelled, await, run, is_empty, outcome, conclude, finish, entered,
}

module _ (config : AppConfig) (req : Request) where
  -- The result while its request waits, and behind that.
  abbrev pub paused : Result → Result
  paused r = record r { state = suspended; number_of_stops = r.number_of_stops + 1 }

  abbrev pub resumed : Result → Result
  resumed r = record r {
    state = running;
    number_of_stops = r.number_of_stops + 1;
    number_of_starts = r.number_of_starts + 1;
  }

  difference_self : (id : ℕ) → difference config req (id ∷ []) (id ∷ []) ≡ []
  unfolding difference discard
  difference_self id = ground (arith, ==_refl id)

  enter_first :
      (id : ℕ) (r : Result) (n : Node)
      → Memory.get req.id n.backend ≡ some r
      → enter config req (id ∷ []) (record { dependencies = []; node = n })
        ≡ ok (record { dependencies = id ∷ []; node = suspend_found config req r n })
  unfolding enter update add contains suspend get_result is_empty
  enter_first id r n there = rw (enter, suspend, get_result, there) refl

  resumes :
      (r : Result) (n : Node)
      → Memory.get req.id n.backend ≡ some r
      → resume config req n ≡ ok (resume_found config req r n)
  unfolding resume get_result
  resumes r n there = rw (resume, get_result, there) refl

  resume_found-stored :
      (r : Result) (n : Node)
      → r.id ≡ req.id
      → Memory.get req.id n.backend ≡ some (paused r)
      → (Memory.get req.id (resume_found config req (paused r) n).backend ≡ some (resumed r))
        × (contains req.id (resume_found config req (paused r) n).waiting_tasks ≡ false)
  unfolding resume_found remove_suspended_task Lifecycle.resume Lifecycle.save Memory.get Memory.set
      state_eq adjust_prefetch
  resume_found-stored r n same there = (
    ground (arith, Dict.lookup-insert r.id req.id (resumed r) n.backend.results, same),
    ground (arith, contains-discard req.id req.id n.waiting_tasks, ==_refl req.id),
  )

  leave_last :
      (id : ℕ) (r : Result) (p : Place)
      → p.dependencies ≡ id ∷ []
      → Memory.get req.id p.node.backend ≡ some r
      → leave config req true (id ∷ []) false p
        ≡ ok (record { dependencies = []; node = resume_found config req r p.node })
  unfolding leave is_empty has_all contains
  leave_last id r p alone there =
      ground (arith, alone, difference_self id, resumes r p.node there, ==_refl id)

  run_await :
      (during : Place → Place × Wait) (id : ℕ) (r : Result) (n : Node) (awake last : Place)
      (wait : Wait)
      → Memory.get req.id n.backend ≡ some r
      → during (record { dependencies = id ∷ []; node = suspend_found config req r n })
        ≡ (awake, wait)
      → leave config req true (id ∷ []) (was_cancelled config req wait) awake ≡ ok last
      → run config req during id (record { dependencies = []; node = n })
        ≡ (outcome config req true wait, last)
  unfolding run await finish entered conclude
  run_await during id r n awake last wait there waited left =
      ap (λ p. entered config req during true (id ∷ []) (record { dependencies = []; node = n }) p)
        (enter_first id r n there)
      ∙ ap (λ w. finish config req true (id ∷ []) w) waited
      ∙ ap (λ p. conclude config req (outcome config req true wait) (id ∷ []) awake p) left

  suspend_found-stored :
      (r : Result) (n : Node)
      → r.id ≡ req.id
      → r.state ≡ running
      → (Memory.get req.id (suspend_found config req r n).backend ≡ some (paused r))
        × (contains req.id (suspend_found config req r n).waiting_tasks ≡ true)
  unfolding suspend_found add_waiting_task Lifecycle.suspend Lifecycle.save Memory.get Memory.set
      state_eq adjust_prefetch
  suspend_found-stored r n same active = (
    ground (arith, active, Dict.lookup-insert r.id req.id (paused r) n.backend.results, same),
    ground (arith, contains-add req.id req.id n.waiting_tasks, ==_refl req.id),
  )

  -- A request that runs, waits for nothing and runs another one is suspended while it waits: its
  -- result is SUSPENDED, with one stop more, and it is a waiting task of the node. If meanwhile
  -- nothing else waits in the context and nothing writes its result, and the wait is not cancelled,
  -- then afterwards it waits for nothing, it is no waiting task of the node, its result is RUNNING
  -- again with one start and one stop more, and the outcome of the wait is returned.
  pub run-resumed :
      (during : Place → Place × Wait) (id : ℕ) (r : Result) (n : Node) (awake : Place) (wait : Wait)
      → Memory.get req.id n.backend ≡ some r
      → r.id ≡ req.id
      → r.state ≡ running
      → let waiting = suspend_found config req r n in
        during (record { dependencies = id ∷ []; node = waiting }) ≡ (awake, wait)
        → awake.dependencies ≡ id ∷ []
        → Memory.get req.id awake.node.backend ≡ Memory.get req.id waiting.backend
        → was_cancelled config req wait ≡ false
        → let (answer, last) = run config req during id (record { dependencies = []; node = n }) in
          (enter config req (id ∷ []) (record { dependencies = []; node = n })
            ≡ ok (record { dependencies = id ∷ []; node = waiting }))
          × (Memory.get req.id waiting.backend ≡ some (paused r))
          × (contains req.id waiting.waiting_tasks ≡ true)
          × (last.dependencies ≡ [])
          × (Memory.get req.id last.node.backend ≡ some (resumed r))
          × (contains req.id last.node.waiting_tasks ≡ false)
          × (answer ≡ outcome config req true wait)
  run-resumed during id r n awake wait there same active waited alone held calm =
      let (kept, waits) = suspend_found-stored r n same active in
      let (stored, idle) = resume_found-stored r awake.node same (held ∙ kept) in
      let after : Place = record {
        dependencies = [];
        node = resume_found config req (paused r) awake.node;
      } in
      let ran =
        run_await during id r n awake after wait there waited
          (rw calm (leave_last id (paused r) awake alone (held ∙ kept))) in
      (
        enter_first id r n there,
        kept,
        waits,
        ap (λ out. out.1.dependencies) ran,
        ap (λ out. Memory.get req.id out.1.node.backend) ran ∙ stored,
        ap (λ out. contains req.id out.1.node.waiting_tasks) ran ∙ idle,
        ap (λ out. out.0) ran,
      )
