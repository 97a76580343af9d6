-- ===== src/Examples/Amqp.antt =====
-- The AMQP broker on a server that refuses some calls, and two tasks that declare a queue.
use project_mognet.Prelude.{
  true, ℕ, String, ◌≡◌, refl, false, Option, none, some, List, [], ◌∷◌, contains,
}
use project_mognet.Model.Value.{Exn, user}
use project_mognet.Request.{Message, malformed}
use project_mognet.Broker.Amqp.{Call, Server, Names, initial, open_connection, bind, ack_message}
use project_mognet.Broker.Amqp.Acknowledging.{
  Incoming, Delivered, ack, nack, answer_all, answer_all_once, consume, consume_lem, readable,
  all_open, tags,
}
use project_mognet.Broker.Amqp.Declaring.{
  Steps, State, here, more, start, IsOnce, steps-IsOnce, misses_it, locks, declares, is_declared,
  is_bound, finds_it_then,
}

abbrev names : Names
names = record { app_name = "demo"; node_id = "node" }

-- It refuses connections and bindings.
abbrev refusal : Call → Option Exn
refusal open_connection = some (user "refused")
refusal (bind queue exchange) = some (user "refused")
refusal _ = none

abbrev server : Server
server = record {
  fails = λ calls call. refusal call;
  purged = λ calls queue. 0;
  messages = λ calls queue. 0;
  consumers = λ calls queue. 0;
}

abbrev message : Message
message = record { id = 7; kind = "Request"; payload = malformed; priority = 5; reply_to = none }

abbrev incoming : Incoming
incoming = record { message = message; tag = 3; processed = false }

answer_all_once_example :
    (answer_all names server (ack ∷ nack ∷ ack ∷ []) incoming initial).2.calls ≡ ack_message 3 ∷ []
answer_all_once_example = answer_all_once names server ack (nack ∷ ack ∷ []) incoming initial refl

abbrev deliveries : List Delivered
deliveries =
    record { body = some message; tag = 1; reply_to = none }
    ∷ record { body = none; tag = 2; reply_to = none }
    ∷ record { body = some message; tag = 3; reply_to = some "demo.callback" }
    ∷ []

consume_lem_example :
    (tags names server (consume names server deliveries initial).0
      ≡ readable names server deliveries)
    × (all_open names server (consume names server deliveries initial).0 ≡ true)
    × ((consume names server deliveries initial).1.calls ≡ ack_message 2 ∷ [])
consume_lem_example = consume_lem names server deliveries initial

-- Two tasks ask for one queue: both miss it, the first declares it, the second finds it then.
abbrev queue_of : ℕ → String
queue_of task = "demo.tasks"

abbrev both_ask : (s : State) × Steps queue_of (start queue_of) s
unfolding contains
both_ask = (
  _,
  more _ _
      (more _ _
        (more _ _
          (more _ _
            (more _ _
              (more _ _ (more _ _ (more _ _ here (misses_it 0 refl refl)) (misses_it 1 refl refl))
                (locks 0 refl refl))
              (declares 0 refl refl))
            (is_declared 0 refl))
          (is_bound 0 refl))
        (locks 1 refl refl))
      (finds_it_then 1 refl refl),
)

steps-IsOnce_example :
    IsOnce queue_of both_ask.0.declared × (both_ask.0.declared ≡ both_ask.0.task_queues)
steps-IsOnce_example = steps-IsOnce queue_of both_ask.0 both_ask.1
