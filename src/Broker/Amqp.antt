-- ===== src/Broker/Amqp.antt =====
-- mognet/broker/amqp_broker.py: the broker that speaks to an AMQP server. The server and the library
-- that speaks to it are a parameter: which of the calls that are sent to it raise, what it counts,
-- and how a body is parsed. Sending again after an error is the decorator's part (Tools.Retries).
pub mod Acknowledging
pub mod Queues
pub mod Connecting
pub mod Declaring
pub mod Querying
use Prim.Native.String.{◌++◌ as ◌⧺◌}
use project_mognet.Prelude.{
  ℕ, zero, suc, String, Bool, true, false, Option, none, some, List, [], ◌∷◌, ◌++◌, contains,
  if◌then◌else◌,
}
use project_mognet.Prelude.Eq.{string_eq, ◌==◌}
use project_mognet.Model.Value.{Exn, not_connected, value_error, queue_not_found}
use project_mognet.Backend.Memory.{Answer, ok, raised}
use project_mognet.Request.{Message}

-- The two channels, with a prefetch count each.
pub data Channel : Type 0 where
  task control : Channel

pub data ExchangeType : Type 0 where
  direct fanout : ExchangeType

-- A message as it is published: the body is the payload as JSON.
pub record Sent : Type 0 where
  pub body : Message
  pub message_id : ℕ
  pub priority : Option ℕ
  pub expiration : Option ℕ
  pub reply_to : Option String

-- The arguments with which queues are declared.
pub data Arguments : Type 0 where
  expiring : (expires message_ttl : ℕ) → Arguments
  prioritized : (max_priority : ℕ) → Arguments

-- What is sent to the server. `tag` tells the message that is acknowledged.
pub data Call : Type 0 where
  open_connection close_connection : Call
  open_channel : Channel → Call
  set_qos : Channel → (prefetch_count : ℕ) (global : Bool) → Call
  declare_exchange : Channel → (name : String) → ExchangeType → (durable : Bool) → Call
  declare_queue : Channel → (name : String) (durable auto_delete : Bool) → Arguments → Call
  bind : (queue exchange : String) → Call
  publish : (exchange : String) → Sent → (routing_key : String) → Call
  ack_message nack_message reject_message : (tag : ℕ) → Call
  purge delete : (queue : String) → Call
  get_stats : (queue : String) → Call

-- What the server answers, by the calls that came before, the last one in front: the exception that
-- a call raises, how many messages a purge deletes, and the counts of a queue.
pub record Server : Type 0 where
  pub fails : List Call → Call → Option Exn
  pub purged : List Call → String → ℕ
  pub messages : List Call → String → ℕ
  pub consumers : List Call → String → ℕ

-- The names that the application is configured with.
pub record Names : Type 0 where
  pub app_name : String
  pub node_id : String

-- `calls` are those that were sent, the last one in front. `task_queues` are the keys of the
-- dictionary; a queue is told by its name.
pub record Broker : Type 0 where
  pub connected : Bool
  pub has_connection : Bool
  pub task_queues : List String
  pub has_control_queue : Bool
  pub on_connection_failed : List ℕ
  pub calls : List Call

abbrev pub initial : Broker
initial = record {
  connected = false;
  has_connection = false;
  task_queues = [];
  has_control_queue = false;
  on_connection_failed = [];
  calls = [];
}

-- One statement after another, where the first may raise.
infixr 20 ◌>>=◌
unfoldable pub ◌>>=◌ :
    {A B : Type 0} → Answer A × Broker → (A → Broker → Answer B × Broker) → Answer B × Broker
◌>>=◌ (raised e, b) next = (raised e, b)
◌>>=◌ (ok a, b) next = next a b

infixr 20 ◌>>◌
unfoldable pub ◌>>◌ :
    {A B : Type 0} → Answer A × Broker → (Broker → Answer B × Broker) → Answer B × Broker
◌>>◌ (raised e, b) next = (raised e, b)
◌>>◌ (ok a, b) next = next b

module _ (names : Names) where
  open names use {app_name, node_id}

  unfoldable pub task_queue_name : String → String
  task_queue_name name = ◌⧺◌ app_name (◌⧺◌ "." name)

  abbrev pub control_queue_name : String
  control_queue_name = ◌⧺◌ app_name (◌⧺◌ ".mognet.control." node_id)

  abbrev pub callback_queue_name : String
  callback_queue_name = ◌⧺◌ app_name (◌⧺◌ ".mognet.callback." node_id)

  abbrev pub control_exchange_name : String
  control_exchange_name = ◌⧺◌ app_name ".mognet.control"

  abbrev pub direct_exchange_name : String
  direct_exchange_name = ◌⧺◌ app_name ".mognet.direct"

  module _ (server : Server) where
    answer_of : Option Exn → Answer (Unit {0})
    answer_of none = ok tt
    answer_of (some e) = raised e

    unfoldable pub send : Call → Broker → Answer (Unit {0}) × Broker
    unfolding answer_of
    send call b = (answer_of (server.fails b.calls call), record b { calls = call ∷ b.calls })

    unfoldable pub set_task_prefetch : ℕ → Broker → Answer (Unit {0}) × Broker
    unfolding send
    set_task_prefetch prefetch b = send (set_qos task prefetch true) b

    unfoldable pub set_control_prefetch : ℕ → Broker → Answer (Unit {0}) × Broker
    unfolding send
    set_control_prefetch prefetch b = send (set_qos control prefetch false) b

    unfoldable pub send_task_message : String → Message → Broker → Answer (Unit {0}) × Broker
    unfolding send task_queue_name
    send_task_message queue payload b =
        send
          (publish direct_exchange_name
            (record {
              body = payload;
              message_id = payload.id;
              priority = some payload.priority;
              expiration = none;
              reply_to = none;
            })
            (task_queue_name queue))
          b

    -- No routing key, since the exchange is a fanout.
    unfoldable pub send_control_message : Message → Broker → Answer (Unit {0}) × Broker
    unfolding send
    send_control_message payload b =
        send
          (publish control_exchange_name
            (record {
              body = payload;
              message_id = payload.id;
              priority = none;
              expiration = some 300;
              reply_to = none;
            })
            "")
          b

    -- `if not message.reply_to`
    unfoldable pub send_reply : Option String → Message → Broker → Answer (Unit {0}) × Broker
    unfolding send
    send_reply none reply b = (raised value_error, b)
    send_reply (some reply_to) reply b =
        if reply_to == ""
        then (raised value_error, b)
        else send
            (publish direct_exchange_name
              (record {
                body = reply;
                message_id = reply.id;
                priority = none;
                expiration = none;
                reply_to = none;
              })
              reply_to)
            b

    unfoldable pub get_or_create_control_queue : Broker → Answer String × Broker
    unfolding send ◌>>◌
    get_or_create_control_queue b =
        if b.has_control_queue
        then (ok control_queue_name, b)
        else send (declare_queue control control_queue_name false true (expiring 30000 30000)) b
          >> (λ b1.
              send (bind control_queue_name control_exchange_name)
                (record b1 { has_control_queue = true })
              >> (λ b2. (ok control_queue_name, b2)))

    -- The queue stands in the dictionary before it is bound.
    unfoldable pub get_or_create_task_queue : String → ℕ → Broker → Answer String × Broker
    unfolding send ◌>>◌ task_queue_name
    get_or_create_task_queue queue max_priority b =
        let name = task_queue_name queue in
        if contains name b.task_queues
        then (ok name, b)
        else send (declare_queue task name true false (prioritized max_priority)) b >> (λ b1.
          send (bind name direct_exchange_name) (record b1 { task_queues = name ∷ b1.task_queues })
          >> (λ b2. (ok name, b2)))

    unfoldable pub create_exchanges : Broker → Answer (Unit {0}) × Broker
    unfolding send ◌>>◌
    create_exchanges b =
        send (declare_exchange task direct_exchange_name direct true) b
        >> send (declare_exchange control control_exchange_name fanout false)

    -- `connect`; the client counts as connected before it has a connection.
    unfoldable pub connect : Broker → Answer (Unit {0}) × Broker
    unfolding send ◌>>◌ set_task_prefetch set_control_prefetch create_exchanges
    connect b =
        if b.connected
        then (ok tt, b)
        else send open_connection (record b { connected = true }) >> (λ b1.
          send (open_channel task) (record b1 { has_connection = true }) >> (λ b2.
            set_task_prefetch 1 b2 >> (λ b3.
              send (open_channel control) b3
              >> (λ b4. set_control_prefetch 4 b4 >> create_exchanges))))

    unfoldable pub close : Broker → Answer (Unit {0}) × Broker
    unfolding send
    close b =
        if b.has_connection
        then send close_connection (record b { connected = false; has_connection = false })
        else (ok tt, record b { connected = false })

    unfoldable pub add_connection_failed_callback : ℕ → Broker → Broker
    add_connection_failed_callback cb b = record b {
      on_connection_failed = b.on_connection_failed ++ cb ∷ [];
    }

    -- The callbacks for which a task is started.
    unfoldable pub send_connection_failed_events : Broker → List ℕ
    send_connection_failed_events b = if b.connected then b.on_connection_failed else []

    unfoldable pub purge_task_queue : String → Broker → Answer ℕ × Broker
    unfolding send ◌>>◌ task_queue_name
    purge_task_queue queue b =
        let name = task_queue_name queue in
        if contains name b.task_queues
        then send (purge name) b >> (λ b1. (ok (server.purged b.calls name), b1))
        else (ok 0, b)

    unfoldable pub purge_control_queue : Broker → Answer ℕ × Broker
    unfolding send ◌>>◌
    purge_control_queue b =
        if b.has_control_queue
        then send (purge control_queue_name) b
          >> (λ b1. (ok (server.purged b.calls control_queue_name), b1))
        else (ok 0, b)

    -- Declaring the callback queue, binding it, and asking.
    unfoldable pub start_query : Message → Broker → Answer String × Broker
    unfolding send ◌>>◌
    start_query payload b =
        send (declare_queue task callback_queue_name false true (expiring 30000 30000)) b >> (λ b1.
          send (bind callback_queue_name direct_exchange_name) b1 >> (λ b2.
            send
              (publish control_exchange_name
                (record {
                  body = payload;
                  message_id = payload.id;
                  priority = none;
                  expiration = some 300;
                  reply_to = some callback_queue_name;
                })
                "")
              b2
            >> (λ b3. (ok callback_queue_name, b3))))

    -- Which exceptions of the server mean that a queue does not exist, and its counts otherwise.
    not_found : (Exn → Bool) → String → Answer (Unit {0}) → ℕ → ℕ → Answer (String × ℕ × ℕ)
    not_found missing queue (ok _) messages consumers = ok (queue, messages, consumers)
    not_found missing queue (raised e) messages consumers =
        if missing e then raised (queue_not_found queue) else raised e

    -- The channel for this alone, and `get_queue` with `declare` on it, are one call.
    unfoldable pub task_queue_stats :
        (missing : Exn → Bool) → String → Broker → Answer (String × ℕ × ℕ) × Broker
    unfolding send not_found task_queue_name
    task_queue_stats missing queue b =
        let name = task_queue_name queue in
        let (answer, b1) = send (get_stats name) b in
        if b.has_connection
        then (
          not_found missing queue answer (server.messages b.calls name)
              (server.consumers b.calls name),
          b1,
        )
        else (raised not_connected, b)
