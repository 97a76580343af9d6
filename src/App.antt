-- ===== src/App.antt =====
-- mognet/app/app.py: submitting and revoking requests, and the messages of the control queue. The
-- state is the worker's node, which holds the result backend and the effects.
pub mod Submission
pub mod Revocation
pub mod Control
pub mod Running
pub mod Asking
use project_mognet.Prelude.{
  ℕ, zero, suc, String, Bool, true, false, not, ◌&&◌, Option, none, some, List, [], ◌∷◌, ◌++◌,
  if◌then◌else◌,
}
use project_mognet.Prelude.Dict
use project_mognet.Prelude.Dict.{Dict}
use project_mognet.Prelude.Eq.{nat_eq, string_eq, ◌==◌}
use project_mognet.Model.State.{pending}
use project_mognet.Model.Value.{Value, Exn, improperly_configured, could_not_submit}
use project_mognet.Model.Result.{Result, fresh, done}
use project_mognet.Backend.Memory.{Backend, Answer, ok, raised}
use project_mognet.Backend.Memory
use project_mognet.Backend.Base.{get_or_create}
use project_mognet.Config.{AppConfig, get_task_route}
use project_mognet.Lifecycle
use project_mognet.Registry.{TaskRegistry, get_task_name}
use project_mognet.Request.{Request, Message, Payload, plain_request}
use project_mognet.Request
use project_mognet.Worker.Node.{
  Node, ack, acked, task_sent, control_sent, reply_sent, emit, with_backend,
}
use project_mognet.Worker.Processing.{Setting, cancel}

-- What a middleware's `on_request_submitting` makes of the request; whether it raises in the end is
-- of no effect, as the exception is logged.
abbrev pub Hook : Type 0
Hook = Request → Request

-- What the code around gives: whether there is a broker, whether it takes a message for a queue, what
-- it raises for a control message, the middleware, the id that `uuid4` gives, and how the arguments are printed.
pub record Surroundings : Type 0 where
  pub has_broker : Bool
  pub accepts : String → Message → Bool
  pub refuses : Message → Node → Option Exn
  pub middleware : List Hook
  pub new_id : Node → ℕ
  pub format : List Value → Dict String Value → String

-- `create_request`; the id is the one that `uuid4` gives.
unfoldable pub create_request :
    ℕ → ℕ → List Value → Dict String Value → TaskRegistry → Answer Request
create_request id func args kwargs reg = elim (get_task_name func reg) [
  | raised e ↦ raised e
  | ok name ↦ ok (record (plain_request id name) { args = args; kwargs = kwargs })
]

module _ (config : AppConfig) (around : Surroundings) where
  open around use {has_broker, accepts, refuses, middleware, new_id, format}

  unfoldable pub on_submitting : List Hook → Request → Request
  on_submitting [] req = req
  on_submitting (hook ∷ hooks) req = on_submitting hooks (hook req)

  -- The request with its default representation and with its stack.
  unfoldable pub prepare : Option Request → Request → Request
  prepare context req =
      let shown : Request = record req {
        kwargs_repr = elim req.kwargs_repr [
          | none ↦ some (format req.args req.kwargs)
          | some s ↦ some s
        ];
      } in
      elim context [
        | none ↦ shown
        | some parent ↦ record shown { stack = parent.stack ++ parent.id ∷ [] }
      ]

  unfoldable pub pending_result : ℕ → Option Request → Request → Result
  pending_result now context req = record (fresh req.id) {
    name = some req.name;
    state = pending;
    created = some now;
    request_kwargs_repr = req.kwargs_repr;
    parent_id = elim context [ none ↦ none | some parent ↦ some parent.id ];
  }

  -- Only metadata that is not empty is stored.
  unfoldable pub store_metadata : ℕ → Dict String Value → Backend → Backend
  store_metadata id [] b = b
  store_metadata id (entry ∷ m) b = Memory.set_metadata id (entry ∷ m) b

  -- The child, the result and the metadata are stored in this order.
  unfoldable pub record_request : ℕ → Option Request → Request → Backend → Backend
  unfolding pending_result store_metadata
  record_request now context req b =
      let linked : Backend = elim context [
        | none ↦ b
        | some parent ↦ Memory.add_children parent.id (req.id ∷ []) b
      ] in
      let stored = Memory.set req.id (pending_result now context req) linked in
      store_metadata req.id req.metadata stored

  unfoldable pub request_message : Request → Message
  request_message req = record {
    id = req.id;
    kind = "Request";
    payload = Request.request req;
    priority = req.priority;
    reply_to = none;
  }

  -- `submit`; the context is the request that it belongs to.
  unfoldable pub submit : ℕ → Option Request → Request → Node → Answer Result × Node
  unfolding on_submitting prepare record_request pending_result request_message
  submit now context req n =
      let ready = prepare context req in
      let recorded = with_backend (record_request now context ready n.backend) n in
      let sent = on_submitting middleware ready in
      let queue = get_task_route config sent in
      let msg = request_message sent in
      if has_broker
      then (if accepts queue msg
          then (ok (pending_result now context ready), emit (task_sent queue msg) recorded)
          else (raised could_not_submit, recorded))
      else (raised improperly_configured, n)

  unfoldable pub revoke_message : ℕ → Node → Message
  revoke_message id n = record {
    id = new_id n;
    kind = "Revoke";
    payload = Request.revoke id;
    priority = 5;
    reply_to = none;
  }

  -- The loop of `revoke` over the children, which an exception ends; `none` means that the fuel ran
  -- out.
  unfoldable pub revoke_each :
      (ℕ → Node → Option (Answer Result × Node)) → List ℕ → Node → Option (Answer (Unit {0}) × Node)
  revoke_each revoke_one [] n = some (ok tt, n)
  revoke_each revoke_one (c ∷ cs) n = elim (revoke_one c n) [
    | none ↦ none
    | some (raised e, n') ↦ some (raised e, n')
    | some (ok r, n') ↦ revoke_each revoke_one cs n'
  ]

  -- The end of a call, behind the loop.
  unfoldable pub revoked_with :
      Result → Option (Answer (Unit {0}) × Node) → Option (Answer Result × Node)
  revoked_with r none = none
  revoked_with r (some (raised e, n)) = some (raised e, n)
  revoked_with r (some (ok x, n)) = some (ok r, n)

  -- `revoke` on fuel for the depth of the recursion. The object that it returns is the one that was
  -- revoked first. Where the control message cannot be sent, the exception ends it.
  unfoldable pub revoke : ℕ → Bool → ℕ → ℕ → Node → Option (Answer Result × Node)
  unfolding revoke_each revoke_message revoked_with
  revoke zero force now id n = none
  revoke (suc fuel) force now id n =
      let (r, b) = get_or_create id n.backend in
      let (r', b') = Lifecycle.revoke now r b in
      let marked = with_backend b' n in
      let told = emit (control_sent (revoke_message id n)) marked in
      elim (not force && done r) [
        | true ↦ some (ok r, with_backend b n)
        | false ↦ elim (refuses (revoke_message id n) n) [
          | some e ↦ some (raised e, marked)
          | none ↦
              revoked_with r' (revoke_each (revoke fuel force now) (Memory.children r'.id b') told)
        ]
      ]

module _ (setting : Setting) (has_worker : Bool) (reply_id : ℕ) where
  -- The reply to a status query, under the id that `uuid4` gives.
  unfoldable pub status_reply : Node → Message
  status_reply n = record {
    id = reply_id;
    kind = "StatusResponse";
    payload =
        Request.status setting.config.node_id
          (if has_worker then Dict.keys n.running_tasks else []);
    priority = 5;
    reply_to = none;
  }

  unfoldable pub reply : Option String → Node → Node
  unfolding status_reply
  reply none n = n
  reply (some to) n = emit (reply_sent to (status_reply n)) n

  -- A payload that no model validates, and a reply without an addressee, raise, which is logged.
  unfoldable pub on_revoke : Payload → Node → Node
  on_revoke (Request.revoke id) n = if has_worker then cancel setting ack id n else n
  on_revoke _ n = n

  unfoldable pub on_query : Option String → Payload → Node → Node
  unfolding reply
  on_query to (Request.query name) n = if name == "Status" then reply to n else n
  on_query to _ n = n

  -- The part under `try`.
  unfoldable pub dispatch : Message → Node → Node
  unfolding on_revoke on_query
  dispatch msg n =
      if msg.kind == "Revoke"
      then on_revoke msg.payload n
      else if msg.kind == "Query"
      then on_query msg.reply_to msg.payload n
      else n

  -- `_process_control_message`: the message is acknowledged in any case.
  unfoldable pub process_control_message : Message → Node → Node
  unfolding dispatch
  process_control_message msg n = emit (acked msg.id) (dispatch msg n)
