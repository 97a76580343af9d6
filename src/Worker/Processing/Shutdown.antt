-- ===== src/Worker/Processing/Shutdown.antt =====
-- Cancelling, closing and the loss of the connection (worker.py).
use project_mognet.Prelude.{
  ℕ, ◌≡◌, refl, true, Option, none, some, List, [], ◌∷◌, arith, Bool-cases, inl, inr, ◌⊎◌, contains,
  if_ind,
}
use mathlib.Core.Path.{subst}
use project_mognet.Prelude.Dict
use project_mognet.Prelude.Dict.{Dict}
use project_mognet.Prelude.Eq.{nat_eq, ◌==◌, ==_eq}
use project_mognet.Request.{Request}
use project_mognet.Worker.Node.{
  Node, CancellationAction, nothing, ack, nack, Holder, adjust_prefetch, remove_running_task,
  waiting_task_count, target_prefetch,
}
use project_mognet.Worker.Processing.{
  TaskCode, Setting, act, cancel_holder, suspend_own, cancel_found, cancel, cancel_each,
  cancel_all_tasks,
}

-- Whether no running task stands under the id.
abbrev pub IsGone : ℕ → Node → Type 0
IsGone j n = Dict.lookup j n.running_tasks ≡ none

-- A task function that is being cancelled starts no other request on the node.
abbrev pub StopIsQuiet : TaskCode → Type 0
StopIsQuiet code =
    (req : Request) (n : Node) (j : ℕ)
    → Dict.lookup j n.running_tasks ≡ none
    → Dict.lookup j (code.stop req n).running_tasks ≡ none

removed_gone :
    (j id : ℕ) (d : Dict ℕ Holder)
    → Dict.lookup j d ≡ none
    → Dict.lookup j (Dict.remove id d) ≡ none
removed_gone j id d g = ground (arith, Dict.lookup-remove id j d)

removed_self : (id : ℕ) (d : Dict ℕ Holder) → Dict.lookup id (Dict.remove id d) ≡ none
removed_self id d = ground (arith, Dict.lookup-remove id id d)

keys_complete :
    (j : ℕ) (d : Dict ℕ Holder) → (Dict.lookup j d ≡ none) ⊎ (contains j (Dict.keys d) ≡ true)
unfolding Dict.lookup Dict.keys contains
keys_complete j [] = inl refl
keys_complete j ((i, h) ∷ d) = elim (Bool-cases (i == j)) [
  | inl same ↦ inr (ground (arith, same))
  | inr other ↦ elim (keys_complete j d) [
    | inl g ↦ inl (ground (arith, other, g))
    | inr c ↦ inr (ground (arith, c))
  ]
]

module _ (setting : Setting) (quiet : StopIsQuiet setting.code) where
  act-IsGone :
      (action : CancellationAction) (m j : ℕ) (n : Node)
      → IsGone j n
      → IsGone j (act setting action m n)
  unfolding act
  act-IsGone nothing m j n g = g
  act-IsGone ack m j n g = g
  act-IsGone nack m j n g = g

  cancel_holder-IsGone :
      (h : Holder) (action : CancellationAction) (j : ℕ) (n : Node)
      → IsGone j n
      → IsGone j (cancel_holder setting h action n)
  unfolding cancel_holder remove_running_task
  cancel_holder-IsGone h action j n g =
      let settled = act setting action h.message n in
      let g' : IsGone j settled = act-IsGone action h.message j n g in
      if_ind {A = Node} (λ m. IsGone j m) h.has_task
        (removed_gone j h.request.id (setting.code.stop h.request settled).running_tasks
          (quiet h.request settled j g'))
        g'

  suspend_own-IsGone : (id j : ℕ) (n : Node) → IsGone j n → IsGone j (suspend_own setting id n)
  unfolding suspend_own
  suspend_own-IsGone id j n g = g

  cancel_found-IsGone :
      (holder : Option Holder) (action : CancellationAction) (id j : ℕ) (n : Node)
      → IsGone j n
      → IsGone j (cancel_found setting holder action id n)
  unfolding cancel_found
  cancel_found-IsGone none action id j n g = g
  cancel_found-IsGone (some h) action id j n g =
      cancel_holder-IsGone h action j (suspend_own setting id n) (suspend_own-IsGone id j n g)

  cancel_keeps_IsGone :
      (action : CancellationAction) (id j : ℕ) (n : Node)
      → IsGone j n
      → IsGone j (cancel setting action id n)
  unfolding cancel remove_running_task
  cancel_keeps_IsGone action id j n g =
      cancel_found-IsGone (Dict.lookup id n.running_tasks) action id j (remove_running_task id n).1
        (removed_gone j id n.running_tasks g)

  pub cancel-IsGone :
      (action : CancellationAction) (id : ℕ) (n : Node) → IsGone id (cancel setting action id n)
  unfolding cancel remove_running_task
  cancel-IsGone action id n =
      cancel_found-IsGone (Dict.lookup id n.running_tasks) action id id (remove_running_task id n).1
        (removed_self id n.running_tasks)

  cancel_each_keeps_IsGone :
      (action : CancellationAction) (ids : List ℕ) (j : ℕ) (n : Node)
      → IsGone j n
      → IsGone j (cancel_each setting action ids n)
  unfolding cancel_each
  cancel_each_keeps_IsGone action [] j n g = g
  cancel_each_keeps_IsGone action (id ∷ ids) j n g =
      cancel_each_keeps_IsGone action ids j (cancel setting action id n)
        (cancel_keeps_IsGone action id j n g)

  cancel_each-IsGone :
      (action : CancellationAction) (ids : List ℕ) (j : ℕ) (n : Node)
      → contains j ids ≡ true
      → IsGone j (cancel_each setting action ids n)
  unfolding cancel_each contains
  cancel_each-IsGone action [] j n c = ground (arith, c)
  cancel_each-IsGone action (id ∷ ids) j n c =
      let rest = cancel setting action id n in
      elim (Bool-cases (id == j)) [
        | inl same ↦
            cancel_each_keeps_IsGone action ids j rest
              (subst (λ k. IsGone k rest) (==_eq id j same) (cancel-IsGone action id n))
        | inr other ↦ cancel_each-IsGone action ids j rest (ground (arith, c, other))
      ]

  adjust_prefetch-IsGone :
      (j : ℕ) (n : Node) → IsGone j n → IsGone j (adjust_prefetch setting.config n)
  unfolding adjust_prefetch
  adjust_prefetch-IsGone j n g = ground (arith, g)

  cancel_each_all-IsGone :
      (action : CancellationAction) (j : ℕ) (n : Node)
      → IsGone j (cancel_each setting action (Dict.keys n.running_tasks) n)
  cancel_each_all-IsGone action j n = elim (keys_complete j n.running_tasks) [
    | inl g ↦ cancel_each_keeps_IsGone action (Dict.keys n.running_tasks) j n g
    | inr c ↦ cancel_each-IsGone action (Dict.keys n.running_tasks) j n c
  ]

  -- After all tasks are cancelled, no task runs and none waits, provided that a task function which
  -- is being cancelled starts no request.
  cancel_all_tasks-empty :
      (action : CancellationAction) (n : Node)
      → ((j : ℕ) → Dict.lookup j (cancel_all_tasks setting action n).running_tasks ≡ none)
        × ((cancel_all_tasks setting action n).waiting_tasks ≡ [])
  unfolding cancel_all_tasks
  cancel_all_tasks-empty action n =
      let cut = cancel_each setting action (Dict.keys n.running_tasks) n in
      (λ j. adjust_prefetch-IsGone j cut (cancel_each_all-IsGone action j n), refl)

-- While a node consumes, cancelling all tasks leaves the prefetch count that fits the tasks which
-- still waited when the cancellations were over, and no task waits any longer.
pub cancel_all_tasks_stale :
    (setting : Setting) (action : CancellationAction) (n : Node)
    → (cancel_each setting action (Dict.keys n.running_tasks) n).consuming ≡ true
    → ((cancel_all_tasks setting action n).current_prefetch
        ≡ target_prefetch setting.config
            (waiting_task_count (cancel_each setting action (Dict.keys n.running_tasks) n)))
      × (waiting_task_count (cancel_all_tasks setting action n) ≡ 0)
unfolding cancel_all_tasks adjust_prefetch waiting_task_count
cancel_all_tasks_stale setting action n on = (ground (arith, on), refl)
