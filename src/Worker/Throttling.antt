-- ===== src/Worker/Throttling.antt =====
-- The prefetch count of a worker follows its waiting tasks (worker.py).
use mathlib.Core.Path.{subst}
use project_mognet.Prelude.{
  ap, sym, ◌∙◌, false, contains-add, contains-discard, Option, none, some, Bool-cases, inl, inr,
  leb, ◌+◌, ◌≤◌, ◌⊎◌, contains, length, ◌||◌, if◌then◌else◌, ℕ, ◌≡◌, refl, true, List, [], ◌∷◌,
  ◌++◌, arith, add, discard,
}
use project_mognet.Prelude.Eq.{nat_eq, ◌==◌}
use project_mognet.Config.{AppConfig}
use project_mognet.Worker.Node.{
  Node, Effect, prefetch_set, target_prefetch, waiting_task_count, adjust_prefetch,
  add_waiting_task, remove_suspended_task,
}

-- The count that the broker was last given, from `start` on.
abbrev pub broker_prefetch : ℕ → List Effect → ℕ
broker_prefetch start [] = start
broker_prefetch start (prefetch_set p ∷ es) = broker_prefetch p es
broker_prefetch start (_ ∷ es) = broker_prefetch start es

-- The broker has the count that the worker believes it to have.
abbrev pub IsAgreed : Node → Type 0
IsAgreed n = broker_prefetch 1 n.effects ≡ n.current_prefetch

pub broker_prefetch-append :
    (start : ℕ) (es fs : List Effect)
    → broker_prefetch start (es ++ fs) ≡ broker_prefetch (broker_prefetch start es) fs
broker_prefetch-append start [] fs = refl
broker_prefetch-append start (prefetch_set q ∷ es) fs = broker_prefetch-append q es fs
broker_prefetch-append start (_ ∷ es) fs = broker_prefetch-append start es fs

-- The lesser of two numbers.
lesser :
    (a b : ℕ)
    → ((if leb a b then a else b) ≤ a)
      × ((if leb a b then a else b) ≤ b)
      × (((if leb a b then a else b) ≡ a) ⊎ ((if leb a b then a else b) ≡ b))
lesser a b = (
  ground arith,
  ground arith,
  elim (Bool-cases (leb a b)) [ inl e ↦ inl (rw e refl) | inr e ↦ inr (rw e refl) ],
)

length-snoc : (x : ℕ) (xs : List ℕ) → length (xs ++ x ∷ []) ≡ length xs + 1
length-snoc x [] = refl
length-snoc x (y ∷ ys) = ground (arith, length-snoc x ys)

length-add :
    (x : ℕ) (xs : List ℕ) → length (add x xs) ≡ (if contains x xs then length xs else length xs + 1)
unfolding add
length-add x xs = ground (arith, length-snoc x xs)

module _ (config : AppConfig) where
  pub adjust_prefetch-IsAgreed : (n : Node) → IsAgreed n → IsAgreed (adjust_prefetch config n)
  unfolding adjust_prefetch
  adjust_prefetch-IsAgreed n h =
      let p = target_prefetch config (waiting_task_count n) in
      ground (arith, broker_prefetch-append 1 n.effects (prefetch_set p ∷ []))

  pub remove_suspended_task-IsAgreed :
      (id : ℕ) (n : Node) → IsAgreed n → IsAgreed (remove_suspended_task config id n)
  unfolding remove_suspended_task
  remove_suspended_task-IsAgreed id n h =
      adjust_prefetch-IsAgreed (record n { waiting_tasks = discard id n.waiting_tasks }) h

  -- The prefetch count of a node with `waiting` waiting tasks: the lesser of the maximum, where there
  -- is one, and of the minimum with one for each waiting task.
  abbrev pub IsPrefetch : Option ℕ → ℕ → ℕ → Type 0
  IsPrefetch none waiting p = p ≡ waiting + config.minimum_concurrency
  IsPrefetch (some most) waiting p =
      (p ≤ most)
      × (p ≤ waiting + config.minimum_concurrency)
      × ((p ≡ most) ⊎ (p ≡ waiting + config.minimum_concurrency))

  target-IsPrefetch :
      (most : Option ℕ) (waiting : ℕ)
      → config.maximum_concurrency ≡ most
      → IsPrefetch most waiting (target_prefetch config waiting)
  unfolding target_prefetch
  target-IsPrefetch none waiting e = rw (target_prefetch, e) refl
  target-IsPrefetch (some most) waiting e =
      rw (target_prefetch, e) (lesser most (waiting + config.minimum_concurrency))

  -- An adjustment of a node that consumes brings the count to the target, whatever it was.
  adjust_prefetch-count :
      (n : Node)
      → n.consuming ≡ true
      → (adjust_prefetch config n).current_prefetch ≡ target_prefetch config (waiting_task_count n)
  unfolding adjust_prefetch
  adjust_prefetch-count n on = ground arith

  -- What is kept of the waiting tasks when the prefetch count is adjusted.
  adjust_prefetch-waits : (n : Node) → (adjust_prefetch config n).waiting_tasks ≡ n.waiting_tasks
  unfolding adjust_prefetch
  adjust_prefetch-waits n = ground arith

  adjust_prefetch-IsPrefetch :
      (n : Node)
      → n.consuming ≡ true
      → let n' = adjust_prefetch config n in
        IsPrefetch config.maximum_concurrency (length n'.waiting_tasks) n'.current_prefetch
  unfolding waiting_task_count
  adjust_prefetch-IsPrefetch n on =
      subst
        (λ ws.
          IsPrefetch config.maximum_concurrency (length ws)
            (adjust_prefetch config n).current_prefetch)
        (sym (adjust_prefetch-waits n))
        (subst (λ p. IsPrefetch config.maximum_concurrency (length n.waiting_tasks) p)
          (sym (adjust_prefetch-count n on))
          (target-IsPrefetch config.maximum_concurrency (length n.waiting_tasks) refl))

  -- On a node that consumes, a task that begins to wait is from then on among its waiting tasks,
  -- counted once, and one that ends to wait is not, and no other task is affected. In both cases the
  -- prefetch count follows at once: it is the minimum with one for each waiting task, or the
  -- maximum where that is less, and the broker was last given it.
  pub waiting_IsThrottled :
      (id : ℕ) (n : Node)
      → n.consuming ≡ true
      → IsAgreed n
      → let more = add_waiting_task config id n in
        let fewer = remove_suspended_task config id n in
        (IsPrefetch config.maximum_concurrency (length more.waiting_tasks) more.current_prefetch
          × IsAgreed more
          × ((j : ℕ) → contains j more.waiting_tasks ≡ ((id == j) || contains j n.waiting_tasks))
          × (length more.waiting_tasks ≡ (
              if contains id n.waiting_tasks
              then length n.waiting_tasks
              else length n.waiting_tasks + 1)))
        × IsPrefetch config.maximum_concurrency (length fewer.waiting_tasks) fewer.current_prefetch
        × IsAgreed fewer
        × ((j : ℕ)
            → contains j fewer.waiting_tasks
              ≡ (if id == j then false else contains j n.waiting_tasks))
  unfolding add_waiting_task remove_suspended_task
  waiting_IsThrottled id n on h =
      let more : Node = record n { waiting_tasks = add id n.waiting_tasks } in
      let fewer : Node = record n { waiting_tasks = discard id n.waiting_tasks } in
      (
        (
          adjust_prefetch-IsPrefetch more on,
          adjust_prefetch-IsAgreed more h,
          λ j. ap (contains j) (adjust_prefetch-waits more) ∙ contains-add id j n.waiting_tasks,
          ap length (adjust_prefetch-waits more) ∙ length-add id n.waiting_tasks,
        ),
        adjust_prefetch-IsPrefetch fewer on,
        adjust_prefetch-IsAgreed fewer h,
        λ j. ap (contains j) (adjust_prefetch-waits fewer) ∙ contains-discard id j n.waiting_tasks,
      )
