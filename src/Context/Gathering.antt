-- ===== src/Context/Gathering.antt =====
-- mognet/context/context.py: `gather` over results and ids, and the requests that a context submits.
use project_mognet.Prelude.{
  ℕ, String, ◌≡◌, refl, Bool, true, false, not, ◌&&◌, Option, none, some, List, [], ◌∷◌,
  if◌then◌else◌, arith, contains, update, discard, contains-update, contains-discard,
}
use project_mognet.Prelude.Dict.{Dict}
use project_mognet.Prelude.Eq.{nat_eq}
use project_mognet.Model.Value.{Value, attribute_error}
use project_mognet.Model.Result.{Result}
use project_mognet.Backend.Memory.{Backend, Answer, ok, raised}
use project_mognet.Backend.Memory
use project_mognet.Config.{AppConfig}
use project_mognet.Registry.{TaskRegistry}
use project_mognet.Request.{Request}
use project_mognet.App.{Surroundings, create_request}
use project_mognet.App
use project_mognet.Worker.Node.{Node}
use project_mognet.Context.{Place, Wait, difference, gather, run}

-- What `gather` is given: a result, or the id of one.
pub data Awaited : Type 0 where
  result : Result → Awaited
  by_id : (id : ℕ) → Awaited

-- The list `results`; an id without a result gives None.
unfoldable pub look_up : List Awaited → Backend → List (Option Result)
look_up [] b = []
look_up (result r ∷ more) b = some r ∷ look_up more b
look_up (by_id id ∷ more) b = Memory.get id b ∷ look_up more b

-- The ids that the generator `r.id for r in results` gives, until it meets None, which has no
-- attribute `id`.
unfoldable pub ids_before_none : List (Option Result) → List ℕ
ids_before_none [] = []
ids_before_none (none ∷ more) = []
ids_before_none (some r ∷ more) = r.id ∷ ids_before_none more

unfoldable pub has_none : List (Option Result) → Bool
has_none [] = false
has_none (none ∷ more) = true
has_none (some r ∷ more) = has_none more

module _ (config : AppConfig) (req : Request) where
  -- Where the generator raises, it does so under `try` and again in the `finally` block, behind the
  -- ids that it gives; neither `_suspend` nor `_resume` is reached.
  unfoldable pub gather_all :
      (Place → Place × Wait) → List Awaited → Place → Answer (List Value) × Place
  gather_all during items p =
      let results = look_up items p.node.backend in
      let ids = ids_before_none results in
      if has_none results
      then (
        raised attribute_error,
        record p { dependencies = difference config req (update p.dependencies ids) ids },
      )
      else gather config req during ids p

  -- `submit`, in the context of its request.
  unfoldable pub submit : Surroundings → ℕ → Request → Node → Answer Result × Node
  submit around now request n = App.submit config around now (some req) request n

  -- `run` of a task function, of which a request is made first.
  unfoldable pub run_function :
      (Place → Place × Wait)
      → (id func : ℕ) → List Value
      → Dict String Value
      → TaskRegistry
      → Place
      → Answer (List Value) × Place
  run_function during id func args kwargs reg p = elim (create_request id func args kwargs reg) [
    | raised e ↦ (raised e, p)
    | ok request ↦ run config req during request.id p
  ]

  difference-contains :
      (j : ℕ) (ids xs : List ℕ)
      → contains j (difference config req ids xs) ≡ (contains j ids && not (contains j xs))
  unfolding difference contains
  difference-contains j ids [] = ground arith
  difference-contains j ids (x ∷ xs) =
      ground (arith, difference-contains j (discard x ids) xs, contains-discard x j ids)

  left_over :
      (j : ℕ) (old ids : List ℕ)
      → contains j (difference config req (update old ids) ids)
        ≡ (contains j old && not (contains j ids))
  left_over j old ids =
      ground (arith, difference-contains j (update old ids) ids, contains-update j old ids)

  -- Where one of the ids has no result, `gather` raises AttributeError and leaves the node as it is,
  -- whatever it waits for: the request is neither suspended nor resumed. Its dependencies are those
  -- of before, less the ones that stand before the missing result.
  gather_missing :
      (during : Place → Place × Wait) (items : List Awaited) (p : Place)
      → has_none (look_up items p.node.backend) ≡ true
      → let (answer, last) = gather_all during items p in
        (answer ≡ raised attribute_error)
        × (last.node ≡ p.node)
        × ((j : ℕ)
            → contains j last.dependencies ≡ (
                contains j p.dependencies
                && not (contains j (ids_before_none (look_up items p.node.backend)))))
  unfolding gather_all
  gather_missing during items p missing = (
    rw (gather_all, missing) refl,
    rw (gather_all, missing) refl,
    λ j.
        rw (gather_all, missing)
          (left_over j p.dependencies (ids_before_none (look_up items p.node.backend))),
  )
