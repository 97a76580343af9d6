-- ===== src/Broker/Memory.antt =====
-- mognet/broker/memory_broker.py: queues of messages, and the count of messages that are not
-- acknowledged, against which the prefetch count is held.
pub mod Flow
pub mod Order
use project_mognet.Prelude.{
  ℕ, ◌+◌, ◌-◌, String, Bool, true, false, ltb, length, Option, none, some, List, [], ◌∷◌, ◌++◌,
  if◌then◌else◌,
}
use project_mognet.Prelude.Dict
use project_mognet.Prelude.Dict.{Dict}
use project_mognet.Prelude.Eq.{string_eq}
use project_mognet.Model.Value.{key_error, value_error}
use project_mognet.Backend.Memory.{Answer, ok, raised}
use project_mognet.Request.{Message}

-- `task_event` is whether the event is set.
pub record Broker : Type 0 where
  pub control_prefetch : ℕ
  pub unacked_task_count : ℕ
  pub task_prefetch : ℕ
  pub task_event : Bool
  pub task_queues : Dict String (List Message)
  pub control_queue : List Message
  pub callback_queues : Dict String (List Message)

-- `InMemoryBroker()`; the event starts unset.
abbrev pub initial : Broker
initial = record {
  control_prefetch = 1;
  unacked_task_count = 0;
  task_prefetch = 1;
  task_event = false;
  task_queues = [];
  control_queue = [];
  callback_queues = [];
}

-- A message as it arrives, with the queue that it came from: `none` stands for the control queue.
pub record Incoming : Type 0 where
  pub message : Message
  pub from_queue : Option String

unfoldable pub update_task_event : Broker → Broker
update_task_event b = record b { task_event = ltb b.unacked_task_count b.task_prefetch }

unfoldable pub ack_task : Broker → Broker
unfolding update_task_event
ack_task b = update_task_event (record b { unacked_task_count = b.unacked_task_count - 1 })

unfoldable pub set_task_prefetch : ℕ → Broker → Broker
unfolding update_task_event
set_task_prefetch prefetch b = update_task_event (record b { task_prefetch = prefetch })

unfoldable pub set_control_prefetch : ℕ → Broker → Broker
set_control_prefetch prefetch b = record b { control_prefetch = prefetch }

unfoldable pub setup_task_queue : String → Broker → Broker
setup_task_queue queue b = record b { task_queues = Dict.insert queue [] b.task_queues }

-- `queue.put` at the end of a task queue that exists.
unfoldable pub put : String → Message → Broker → Answer Broker
put queue msg b = elim (Dict.lookup queue b.task_queues) [
  | none ↦ raised key_error
  | some ms ↦ ok (record b { task_queues = Dict.insert queue (ms ++ msg ∷ []) b.task_queues })
]

unfoldable pub send_task_message : String → Message → Broker → Answer Broker
unfolding put
send_task_message = put

unfoldable pub send_control_message : Message → Broker → Broker
send_control_message msg b = record b { control_queue = b.control_queue ++ msg ∷ [] }

-- What is handed out: the address for a reply is dropped, and the priority is the default one.
unfoldable pub handed_out : Message → Message
handed_out msg = record msg { reply_to = none; priority = 5 }

unfoldable pub taken : String → List Message → Broker → Option (Incoming × Broker)
unfolding handed_out update_task_event
taken queue [] b = none
taken queue (msg ∷ ms) b = some (
  record { message = handed_out msg; from_queue = some queue },
  update_task_event (record b {
    unacked_task_count = b.unacked_task_count + 1;
    task_queues = Dict.insert queue ms b.task_queues;
  }),
)

-- The two waits of `consume_tasks`: whether it goes on from the event, and, behind it, what it takes
-- from the queue. `none` means that it waits for a message.
unfoldable pub passes : Broker → Bool
passes b = b.task_event

unfoldable pub take_task : String → Broker → Answer (Option (Incoming × Broker))
unfolding taken
take_task queue b = elim (Dict.lookup queue b.task_queues) [
  | none ↦ raised key_error
  | some ms ↦ ok (taken queue ms b)
]

-- One step of `consume_control_queue`.
unfoldable pub from_control : List Message → Broker → Option (Incoming × Broker)
unfolding handed_out
from_control [] b = none
from_control (msg ∷ ms) b =
    some (record { message = handed_out msg; from_queue = none }, record b { control_queue = ms })

unfoldable pub consume_control : Broker → Option (Incoming × Broker)
unfolding from_control
consume_control b = from_control b.control_queue b

-- `ack` and `nack` of an incoming message, whichever queue it came from.
unfoldable pub ack : Incoming → Broker → Broker
unfolding ack_task
ack msg b = ack_task b

unfoldable pub nack : Incoming → Broker → Broker
nack msg b = elim msg.from_queue [
  | none ↦ record b { control_queue = b.control_queue ++ msg.message ∷ [] }
  | some queue ↦ record b {
    task_queues =
        Dict.insert queue (Dict.get_or queue [] b.task_queues ++ msg.message ∷ []) b.task_queues;
  }
]

-- The part of `send_query_message` before its loop; `queue_id` is the id that `uuid4` gives.
unfoldable pub start_query : String → Message → Broker → Broker
start_query queue_id payload b = record b {
  callback_queues =
      Dict.insert queue_id (Dict.get_or queue_id [] b.callback_queues) b.callback_queues;
  control_queue = b.control_queue ++ record payload { reply_to = some queue_id; priority = 5 } ∷ [];
}

-- One step of its loop, and its end.
unfoldable pub next_response : String → Broker → Option (Message × Broker)
next_response queue_id b = elim (Dict.lookup queue_id b.callback_queues) [
  | none ↦ none
  | some [] ↦ none
  | some (msg ∷ ms) ↦
      some (msg, record b { callback_queues = Dict.insert queue_id ms b.callback_queues })
]

unfoldable pub end_query : String → Broker → Broker
end_query queue_id b = record b { callback_queues = Dict.remove queue_id b.callback_queues }

-- `send_reply`: an empty address counts as none.
unfoldable pub send_reply : Message → Message → Broker → Answer Broker
send_reply message reply b = elim message.reply_to [
  | none ↦ raised value_error
  | some to ↦ elim (Dict.lookup to b.callback_queues) [
    | none ↦ raised value_error
    | some q ↦
        ok (record b { callback_queues = Dict.insert to (q ++ reply ∷ []) b.callback_queues })
  ]
]

-- `_purge_queue`: the size before, and the queue when it is empty.
unfoldable pub purge_queue : List Message → ℕ × List Message
purge_queue [] = (0, [])
purge_queue (m ∷ ms) = let (n, rest) = purge_queue ms in (n + 1, rest)

unfoldable pub purge_task_queue : String → Broker → Answer (ℕ × Broker)
unfolding purge_queue
purge_task_queue queue b = elim (Dict.lookup queue b.task_queues) [
  | none ↦ raised key_error
  | some ms ↦
      let (n, rest) = purge_queue ms in
      ok (n, record b { task_queues = Dict.insert queue rest b.task_queues })
]

unfoldable pub purge_control_queue : Broker → ℕ × Broker
unfolding purge_queue
purge_control_queue b =
    let (n, rest) = purge_queue b.control_queue in (n, record b { control_queue = rest })

-- `message_count` of `task_queue_stats`.
unfoldable pub message_count : String → Broker → Answer ℕ
message_count queue b = elim (Dict.lookup queue b.task_queues) [
  | none ↦ raised key_error
  | some ms ↦ ok (length ms)
]
