-- ===== src/App/Submission.antt =====
-- What `App.submit` records and sends (mognet/app/app.py).
use mathlib.Core.List.{append-nil}
use project_mognet.Prelude.{
  ap, sym, ◌∙◌, ℕ, String, ◌≡◌, refl, true, inl, inr, Option, none, some, [], ◌∷◌, ◌++◌, arith,
  Bool-cases, ◌&&◌, if◌then◌else◌, contains,
}
use project_mognet.Prelude.Dict
use project_mognet.Prelude.Eq.{nat_eq, ==_refl}
use project_mognet.Model.Value.{Value, could_not_submit, improperly_configured}
use project_mognet.Model.State.{pending}
use project_mognet.Model.Result.{Result}
use project_mognet.Backend.Memory
use project_mognet.Backend.Memory.{Backend, ok, raised}
use project_mognet.Backend.Memory.Children.{contains-add_children}
use project_mognet.Config.{AppConfig, get_task_route}
use project_mognet.Request.{Request, Message}
use project_mognet.Request
use project_mognet.Worker.Node.{Node, task_sent}
use project_mognet.App.{
  Surroundings, on_submitting, prepare, pending_result, store_metadata, record_request,
  request_message, submit,
}

module _ (config : AppConfig) (around : Surroundings) (now : ℕ) where
  store_metadata-keeps :
      (id : ℕ) (m : Dict.Dict String Value) (b : Backend)
      → ((store_metadata config around id m b).results ≡ b.results)
        × ((store_metadata config around id m b).tree ≡ b.tree)
  unfolding store_metadata Memory.set_metadata
  store_metadata-keeps id [] b = (refl, refl)
  store_metadata-keeps id (entry ∷ m) b = (refl, refl)

  pub record_request-stored :
      (context : Option Request) (req : Request) (b : Backend)
      → Memory.get req.id (record_request config around now context req b)
        ≡ some (pending_result config around now context req)
  unfolding record_request Memory.get Memory.set pending_result
  record_request-stored none req b =
      let r = pending_result config around now none req in
      rw ((store_metadata-keeps req.id req.metadata (Memory.set req.id r b)).0)
        (ground (arith, Dict.lookup-insert req.id req.id r b.results))
  record_request-stored (some parent) req b =
      let r = pending_result config around now (some parent) req in
      let linked = Memory.add_children parent.id (req.id ∷ []) b in
      rw ((store_metadata-keeps req.id req.metadata (Memory.set req.id r linked)).0)
        (ground (arith, Dict.lookup-insert req.id req.id r linked.results))

  record_request-linked :
      (parent req : Request) (b : Backend)
      → contains req.id
          (Memory.children parent.id (record_request config around now (some parent) req b))
        ≡ true
  unfolding record_request Memory.set Memory.children contains
  record_request-linked parent req b =
      let r = pending_result config around now (some parent) req in
      let linked = Memory.add_children parent.id (req.id ∷ []) b in
      rw ((store_metadata-keeps req.id req.metadata (Memory.set req.id r linked)).1) (
        ground (
          arith,
          contains-add_children parent.id parent.id req.id (req.id ∷ []) b,
          ==_refl parent.id,
        ))

  pub submit-backend :
      (context : Option Request) (req : Request) (n : Node)
      → around.has_broker ≡ true
      → (submit config around now context req n).1.backend
        ≡ record_request config around now context (prepare config around context req) n.backend
  unfolding submit
  submit-backend context req n has = ground (arith, has)

  pub submit_accepted :
      (req : Request) (n : Node)
      → around.has_broker ≡ true
      → (let sent =
            on_submitting config around around.middleware (prepare config around none req) in
          around.accepts (get_task_route config sent) (request_message config around sent) ≡ true)
      → (submit config around now none req n).0
        ≡ ok (pending_result config around now none (prepare config around none req))
  unfolding submit
  submit_accepted req n has taken = rw (submit, has, taken) refl

  -- The message that carries a request.
  abbrev pub carrying : Request → Message
  carrying sent = record {
    id = sent.id;
    kind = "Request";
    payload = Request.request sent;
    priority = sent.priority;
    reply_to = none;
  }

  ready_id :
      (context : Option Request) (req : Request) → (prepare config around context req).id ≡ req.id
  unfolding prepare
  ready_id none req = refl
  ready_id (some parent) req = refl

  -- Submitting sends exactly one message where there is a broker that takes it, the prepared request
  -- as the middleware leave it, to its queue, and just then it returns a result. It raises
  -- `ImproperlyConfigured` without a broker and `CouldNotSubmit` where the broker refuses, and sends
  -- nothing. With a broker the pending result is stored, also where `CouldNotSubmit` is raised, and
  -- what is returned is what is stored; without one nothing is stored for the request.
  pub submit-sends_once :
      (context : Option Request) (req : Request) (n : Node)
      → let sent =
          on_submitting config around around.middleware (prepare config around context req) in
        let queue = get_task_route config sent in
        let taken = around.has_broker && around.accepts queue (carrying sent) in
        let (answer, n') = submit config around now context req n in
        (n'.effects ≡ n.effects ++ (if taken then task_sent queue (carrying sent) ∷ [] else []))
        × ((r : Result) × (r.id ≡ req.id)
            × (r.state ≡ pending)
            × (answer ≡ (
                if taken
                then ok r
                else raised
                    (if around.has_broker then could_not_submit else improperly_configured)))
            × (Memory.get req.id n'.backend
                ≡ (if around.has_broker then some r else Memory.get req.id n.backend)))
  unfolding submit prepare pending_result request_message
  submit-sends_once context req n =
      let ready = prepare config around context req in
      let sent = on_submitting config around around.middleware ready in
      let r = pending_result config around now context ready in
      let id_kept = ready_id context req in
      elim (Bool-cases around.has_broker) [
        | inr none_there ↦ (
          rw (submit, none_there) (sym (append-nil n.effects)),
          (r, id_kept, refl, rw (submit, none_there) refl, rw (submit, none_there) refl),
        )
        | inl has ↦
            let stored : Memory.get req.id (submit config around now context req n).1.backend
                ≡ some r =
              ap (Memory.get req.id) (submit-backend context req n has)
              ∙ ap (λ i. Memory.get i (record_request config around now context ready n.backend))
                  (sym id_kept)
              ∙ record_request-stored context ready n.backend in
            elim (Bool-cases (around.accepts (get_task_route config sent) (carrying sent))) [
              | inl taken ↦ (
                rw (submit, has, taken) refl,
                (
                  r,
                  id_kept,
                  refl,
                  rw (submit, has, taken) refl,
                  stored ∙ sym (ap (λ t. if t then some r else Memory.get req.id n.backend) has),
                ),
              )
              | inr refused ↦ (
                rw (submit, has, refused) (sym (append-nil n.effects)),
                (
                  r,
                  id_kept,
                  refl,
                  rw (submit, has, refused) refl,
                  stored ∙ sym (ap (λ t. if t then some r else Memory.get req.id n.backend) has),
                ),
              )
            ]
      ]

  -- With a broker, a request that is submitted in the context of another one is stored as pending,
  -- under its name, with that one as its parent, and with its id added to the parent's stack, and it
  -- is among the parent's children: also where `CouldNotSubmit` is raised.
  pub submit-child :
      (parent req : Request) (n : Node)
      → around.has_broker ≡ true
      → let ready = prepare config around (some parent) req in
        let after = (submit config around now (some parent) req n).1.backend in
        ((r : Result) × (Memory.get req.id after ≡ some r)
          × (r.id ≡ req.id)
          × (r.state ≡ pending)
          × (r.name ≡ some req.name)
          × (r.created ≡ some now)
          × (r.parent_id ≡ some parent.id))
        × (ready.stack ≡ parent.stack ++ parent.id ∷ [])
        × (contains req.id (Memory.children parent.id after) ≡ true)
  unfolding prepare pending_result
  submit-child parent req n has =
      let ready = prepare config around (some parent) req in
      (
        (
          pending_result config around now (some parent) ready,
          rw (submit-backend (some parent) req n has)
              (record_request-stored (some parent) ready n.backend),
          refl,
          refl,
          refl,
          refl,
          refl,
        ),
        refl,
        rw (submit-backend (some parent) req n has) (record_request-linked parent ready n.backend),
      )
