-- ===== src/App/Control.antt =====
-- What `App._process_control_message` does with each kind of message (mognet/app/app.py).
use project_mognet.Prelude.{ℕ, String, ◌≡◌, refl, true, false, Option, none, some, if_ind}
use project_mognet.Prelude.Dict
use project_mognet.Prelude.Eq.{nat_eq, string_eq, ◌==◌}
use project_mognet.Request.{Message, Payload}
use project_mognet.Request
use project_mognet.Worker.Node.{Node, ack, acked, reply_sent, emit}
use project_mognet.Worker.Processing.{Setting}
use project_mognet.Worker.Processing.Shutdown.{StopIsQuiet, cancel-IsGone}
use project_mognet.App.{
  Surroundings, revoke_message, status_reply, reply, on_revoke, on_query, dispatch,
  process_control_message,
}

-- A query for the status, as it arrives with an address for the reply.
abbrev pub status_query : ℕ → Option String → Message
status_query id to = record {
  id = id;
  kind = "Query";
  payload = Request.query "Status";
  priority = 5;
  reply_to = to;
}

-- Where a node has a worker, the message that `revoke` sends for a request ends its run: no task runs
-- for the request behind it, provided that a task function which is being cancelled starts no
-- request.
pub process_control_message-revoke_message :
    (setting : Setting) (around : Surroundings) (reply_id id : ℕ) (sender n : Node)
    → StopIsQuiet setting.code
    → Dict.lookup id
        (process_control_message setting true reply_id
          (revoke_message setting.config around id sender)
          n).running_tasks
      ≡ none
unfolding process_control_message dispatch on_revoke revoke_message
process_control_message-revoke_message setting around reply_id id sender n quiet =
    cancel-IsGone setting quiet ack id n

-- Nothing on a node differs but its effects.
abbrev pub IsSilent : Node → Node → Type 0
IsSilent n m = record m { effects = n.effects } ≡ n

on_revoke-IsSilent :
    (setting : Setting) (reply_id : ℕ) (p : Payload) (n : Node)
    → IsSilent n (on_revoke setting false reply_id p n)
unfolding on_revoke
on_revoke-IsSilent setting reply_id (Request.revoke id) n = refl
on_revoke-IsSilent setting reply_id _ n = refl

reply-IsSilent :
    (setting : Setting) (reply_id : ℕ) (to : Option String) (n : Node)
    → IsSilent n (reply setting false reply_id to n)
unfolding reply
reply-IsSilent setting reply_id none n = refl
reply-IsSilent setting reply_id (some a) n = refl

on_query-IsSilent :
    (setting : Setting) (reply_id : ℕ) (to : Option String) (p : Payload) (n : Node)
    → IsSilent n (on_query setting false reply_id to p n)
unfolding on_query
on_query-IsSilent setting reply_id to (Request.query name) n =
    if_ind (IsSilent n) (name == "Status") (reply-IsSilent setting reply_id to n) refl
on_query-IsSilent setting reply_id to _ n = refl

dispatch-IsSilent :
    (setting : Setting) (reply_id : ℕ) (msg : Message) (n : Node)
    → IsSilent n (dispatch setting false reply_id msg n)
unfolding dispatch
dispatch-IsSilent setting reply_id msg n =
    if_ind (IsSilent n) (msg.kind == "Revoke") (on_revoke-IsSilent setting reply_id msg.payload n) (
      if_ind (IsSilent n) (msg.kind == "Query")
        (on_query-IsSilent setting reply_id msg.reply_to msg.payload n) refl)

-- Without a worker, a message of any kind changes nothing on a node but its effects, and what a
-- revocation adds to them is its own acknowledgement alone.
pub process_control_message_idle :
    (setting : Setting) (around : Surroundings) (reply_id id : ℕ) (msg : Message) (sender n : Node)
    → IsSilent n (process_control_message setting false reply_id msg n)
      × (process_control_message setting false reply_id
            (revoke_message setting.config around id sender)
            n
          ≡ emit (acked (revoke_message setting.config around id sender).id) n)
unfolding process_control_message dispatch on_revoke revoke_message
process_control_message_idle setting around reply_id id msg sender n =
    (dispatch-IsSilent setting reply_id msg n, refl)

-- A query for the status with an address is answered there, once, with the ids of the requests that
-- run on the node, and then acknowledged; without an address it is only acknowledged.
pub process_control_message-status_query :
    (setting : Setting) (reply_id id : ℕ) (to : String) (n : Node)
    → let answer : Message = record {
      id = reply_id;
      kind = "StatusResponse";
      payload = Request.status setting.config.node_id (Dict.keys n.running_tasks);
      priority = 5;
      reply_to = none;
    } in
      (process_control_message setting true reply_id (status_query id (some to)) n
        ≡ emit (acked id) (emit (reply_sent to answer) n))
      × (process_control_message setting true reply_id (status_query id none) n ≡ emit (acked id) n)
unfolding process_control_message dispatch on_query reply status_reply
process_control_message-status_query setting reply_id id to n = (refl, refl)
