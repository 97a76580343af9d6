-- ===== src/Examples/Queries.antt =====
-- Replies to a query and the report on them, and the middleware that ends a node, each at a concrete
-- input.
use project_mognet.Prelude.{◌≡◌, refl, Option, none, some, List, [], ◌∷◌, ◌++◌, arith}
use project_mognet.Prelude.Dict
use project_mognet.Prelude.Eq.{nat_eq}
use project_mognet.Model.Value.{value_error}
use project_mognet.Request.{Message, Payload, malformed}
use project_mognet.Request
use project_mognet.Broker.Amqp.{
  Server, Names, initial, delete, reject_message, ack_message, callback_queue_name, start_query,
}
use project_mognet.Broker.Amqp.Acknowledging.{Delivered}
use project_mognet.Broker.Amqp.Querying.{
  Response, Validated, object, read_replies, dictionary, Pydantic, parse, send_query_message,
  get_current_status_of_nodes,
}
use project_mognet.Broker.Amqp.Querying.Replies.{
  TakesAll, replies_of, send_query_message_stops, get_current_status_of_nodes-none,
}
use project_mognet.Backend.Memory.{ok}
use project_mognet.Cli.Nodes.{NodeStatus, status}
use project_mognet.Cli.Nodes.Reports.{AreKeyed, Reports, status-Reports}
use project_mognet.AutoShutdown.{
  Limits, Event, completes, changes, run, on_running_task_count_changed, last_count,
}
use project_mognet.AutoShutdown.Timers.{IsTimed, run_timers}
use project_mognet.AutoShutdown.Drain.{IsDrained, run-IsDrained}
use project_mognet.Examples.{backend}

abbrev names : Names
names = record { app_name = "demo"; node_id = "node" }

abbrev willing : Server
willing = record {
  fails = λ calls call. none;
  purged = λ calls queue. 0;
  messages = λ calls queue. 0;
  consumers = λ calls queue. 0;
}

willing-TakesAll : TakesAll willing
willing-TakesAll calls call = refl

abbrev query : Message
query = record {
  id = 7;
  kind = "Query";
  payload = Request.query "Status";
  priority = 5;
  reply_to = none;
}

abbrev first_node : Response
first_node = record { node_id = "first"; running_request_ids = 2 ∷ 1 ∷ [] }

abbrev unreadable : Delivered
unreadable = record { body = none; tag = 4; reply_to = none }

send_query_message_stops_example :
    let asked = (start_query names willing query initial).1 in
    send_query_message names willing query
      (replies_of ((3, first_node) ∷ []) ++ unreadable ∷ unreadable ∷ [])
      initial
    ≡ (
      first_node ∷ [],
      some value_error,
      record asked {
        calls = delete (callback_queue_name names) ∷ reject_message 4 ∷ ack_message 3 ∷ asked.calls;
      },
    )
unfolding parse
send_query_message_stops_example =
    send_query_message_stops names willing willing-TakesAll query ((3, first_node) ∷ []) unreadable
      (unreadable ∷ []) initial refl

-- It takes the dictionaries of statuses, and nothing else.
abbrev status_of : Validated → Option Response
status_of (dictionary (Request.status node ids)) =
    some (record { node_id = node; running_request_ids = ids })
status_of _ = none

abbrev pydantic : Pydantic
pydantic = record {
  status_of = status_of;
  takes_dictionary = λ node ids. refl;
  refuses_object = λ r. refl;
}

get_current_status_of_nodes-none_example :
    let asked = (start_query names willing query initial).1 in
    get_current_status_of_nodes status_of names willing query
      (replies_of ((3, first_node) ∷ (4, first_node) ∷ []))
      initial
    ≡ (
      [],
      none,
      record asked {
        calls = delete (callback_queue_name names) ∷ ack_message 4 ∷ ack_message 3 ∷ asked.calls;
      },
    )
get_current_status_of_nodes-none_example =
    get_current_status_of_nodes-none pydantic names willing willing-TakesAll query
      ((3, first_node) ∷ (4, first_node) ∷ []) initial

backend-AreKeyed : AreKeyed backend.results
unfolding Dict.lookup
backend-AreKeyed j r e = ground arith

-- A validation that takes the attributes of an object.
abbrev from_attributes : Validated → Option Response
from_attributes (object r) = some r
from_attributes _ = none

status-Reports_example :
    let asked =
      get_current_status_of_nodes from_attributes names willing query
        (replies_of ((3, first_node) ∷ (4, first_node) ∷ []))
        initial in
    (rows : List NodeStatus) × (status from_attributes names willing query
        (replies_of ((3, first_node) ∷ (4, first_node) ∷ []))
        9
        backend
        initial
      ≡ (ok rows, asked.2))
    × Reports 9 backend asked.0 rows
unfolding get_current_status_of_nodes send_query_message start_query read_replies parse
status-Reports_example =
    status-Reports from_attributes names willing query
      (replies_of ((3, first_node) ∷ (4, first_node) ∷ [])) 9 backend initial backend-AreKeyed refl

abbrev limits : Limits
limits = record { max_completed_tasks = 1; idle_timeout = 900 }

-- A task begins and ends, and the next begins.
abbrev events : List (Event limits)
events =
    changes 0 ∷ completes (some 0) ∷ changes 1 ∷ changes 0 ∷ completes (some 0) ∷ changes 1 ∷ []

run_timers_example :
    IsTimed limits
      (last_count limits (changes 0 ∷ changes 1 ∷ changes 0 ∷ []))
      (run limits (changes 0 ∷ changes 1 ∷ changes 0 ∷ []))
unfolding run on_running_task_count_changed
run_timers_example = run_timers limits (changes 0 ∷ changes 1 ∷ changes 0 ∷ []) refl

run-IsDrained_example : IsDrained limits 2 (run limits events)
run-IsDrained_example = run-IsDrained limits events
