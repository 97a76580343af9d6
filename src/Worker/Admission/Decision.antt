-- ===== src/Worker/Admission/Decision.antt =====
-- Which requests may run, independently of the order of the checks (worker.py, `_run_request`).
use mathlib.Core.Path.{subst}
use mathlib.Core.List.{reverse, reverse-cons}
use project_mognet.Prelude.{
  ℕ, ◌≤◌, ◌≡◌, ◌↔◌, inl, inr, refl, sym, ◌∙◌, true, false, Option, none, some, List, [], ◌∷◌,
  length, arith, contains, contains-append, Option-cases, Bool-cases, All,
}
use project_mognet.Prelude.Eq.{nat_eq, ◌==◌, ==_eq, ==_refl}
use project_mognet.Model.State.{ResultState, revoked, state_eq, is_in, error_states}
use project_mognet.Model.Value.{Exn}
use project_mognet.Model.Result.{Result, done, unexpected_retry_count}
use project_mognet.Backend.Memory.{Backend, Answer-cases, ok, get}
use project_mognet.Registry.{TaskRegistry, get_task_function}
use project_mognet.Request.{Request, Deadline, within, until}
use project_mognet.Config.{AppConfig}
use project_mognet.Worker.Admission.{
  refuse, proceed, check_parents, is_late, check_task, check_rest, admit,
}

-- The result of a parent is there and was not revoked.
abbrev pub IsAlive : Backend → ℕ → Type 0
IsAlive b p = (r : Result) × (get p b ≡ some r) × (state_eq r.state revoked ≡ false)

contains-reverse : (p : ℕ) (xs : List ℕ) → contains p (reverse xs) ≡ contains p xs
unfolding contains
contains-reverse p [] = refl
contains-reverse p (x ∷ xs) =
    rw reverse-cons (ground (arith, contains-append p (reverse xs) (x ∷ []), contains-reverse p xs))

check_parents-none :
    (b : Backend) (ps : List ℕ)
    → check_parents b ps ≡ none
    → (p : ℕ) → contains p ps ≡ true
    → IsAlive b p
unfolding check_parents contains
check_parents-none b [] e p m = cc
check_parents-none b (q ∷ ps) e p m = elim (Option-cases (get q b)) [
  | inl missing ↦ absurd (ground arith)
  | inr (r, there) ↦ elim (Bool-cases (q == p)) [
    | inl same ↦ (r, rw (← ==_eq q p same) there, ground arith)
    | inr other ↦ check_parents-none b ps (ground arith) p (ground arith)
  ]
]

check_parents_all :
    (b : Backend) (ps : List ℕ)
    → ((p : ℕ) → contains p ps ≡ true → IsAlive b p)
    → check_parents b ps ≡ none
unfolding check_parents contains
check_parents_all b [] h = refl
check_parents_all b (q ∷ ps) h =
    let (r, there, alive) = h q (ground arith) in
    ground (arith, check_parents_all b ps (λ p m. h p (ground arith)))

-- A deadline that is a point in time is not past.
abbrev pub IsInTime : ℕ → Option Deadline → Type 0
IsInTime now (some (until time)) = now ≤ time
IsInTime now _ = Unit

late_iff : (now : ℕ) (d : Option Deadline) → (is_late now d ≡ false) ↔ IsInTime now d
unfolding is_late
late_iff now none = (λ e. tt, λ h. refl)
late_iff now (some (within time)) = (λ e. tt, λ h. refl)
late_iff now (some (until time)) = (λ e. ground (arith, e), λ h. ground arith)

All-collect : {P : ℕ → Type 0} (xs : List ℕ) → ((x : ℕ) → contains x xs ≡ true → P x) → All P xs
unfolding contains
All-collect [] h = tt
All-collect (x ∷ xs) h =
    (h x (ground (arith, ==_refl x)), All-collect xs (λ y m. h y (ground (arith, m))))

All-at : (P : ℕ → Type 0) (xs : List ℕ) → All P xs → (x : ℕ) → contains x xs ≡ true → P x
unfolding contains
All-at P [] h x m = absurd (ground (arith, m))
All-at P (y ∷ ys) h x m = elim (Bool-cases (y == x)) [
  | inl same ↦ subst P (==_eq y x same) h.0
  | inr other ↦ All-at P ys h.1 x (ground (arith, m, other))
]

-- What is asked of a request with the result `r`.
pub record MayRun (config : AppConfig) (reg : TaskRegistry) (now : ℕ) (req : Request) (r : Result)
    (b : Backend) : Type 0 where
  pub open_yet : done r ≡ false
  pub few_retries : unexpected_retry_count r ≤ config.max_retries
  pub shallow : length req.stack ≤ config.max_recursion
  pub parents_alive : All (IsAlive b) req.stack
  pub in_time : IsInTime now req.deadline
  pub known : (f : ℕ) × (get_task_function req.name reg ≡ ok f)

module _ (config : AppConfig) (reg : TaskRegistry) (now : ℕ) (req : Request) (r : Result)
    (b : Backend) where
  -- A request proceeds exactly where its result is not done, it was not retried too often, its stack
  -- is not too deep, every request on the stack has a result that was not revoked, its deadline is no
  -- point of time in the past, and its task is registered.
  pub admit-proceed_iff : (admit config reg now req r b ≡ proceed) ↔ MayRun config reg now req r b
  unfolding admit is_late check_rest check_task
  admit-proceed_iff = (
    λ e. record {
      open_yet = ground arith;
      few_retries = ground arith;
      shallow = ground arith;
      parents_alive = All-collect req.stack (λ p m.
          check_parents-none b (reverse req.stack) (ground arith) p
            (contains-reverse p req.stack ∙ m));
      in_time = (late_iff now req.deadline).0 (ground arith);
      known = elim (Answer-cases (get_task_function req.name reg)) [
        | inl found ↦ found
        | inr (x, fails) ↦ absurd (ground arith)
      ];
    },
    λ h.
        let alive = check_parents_all b (reverse req.stack) (λ p m.
          All-at (IsAlive b) req.stack h.parents_alive p
            (sym (contains-reverse p req.stack) ∙ m)) in
        let (f, found) = h.known in
        let early = (late_iff now req.deadline).1 h.in_time in
        ground (arith, h.open_yet, h.few_retries, h.shallow),
  )

  -- A request that is refused is finished in an error state, and the exception says why.
  pub admit-refuse_error :
      (exc : Exn) (state : ResultState)
      → admit config reg now req r b ≡ refuse exc state
      → is_in state error_states ≡ true
  unfolding admit check_rest check_task is_in
  admit-refuse_error exc state e = ground arith

  -- A request that is not done, was not retried too often and is not too deep is refused as REVOKED
  -- if any request on its stack has no result or a revoked one.
  pub admit_orphan :
      (p : ℕ)
      → contains p req.stack ≡ true
      → ¬ IsAlive b p
      → done r ≡ false
      → unexpected_retry_count r ≤ config.max_retries
      → length req.stack ≤ config.max_recursion
      → (exc : Exn) × (admit config reg now req r b ≡ refuse exc revoked)
  unfolding admit check_rest
  admit_orphan p m dead fresh few shallow =
      elim (Option-cases (check_parents b (reverse req.stack))) [
        | inl fine ↦ absurd (
            dead
              (check_parents-none b (reverse req.stack) fine p (contains-reverse p req.stack ∙ m)))
        | inr (exc, found) ↦ (exc, ground arith)
      ]
