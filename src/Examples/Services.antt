-- ===== src/Examples/Services.antt =====
-- The theorems on the registry, the queues, the broker in memory and the tools, each at a concrete
-- input.
use project_mognet.Prelude.{ℕ, zero, ◌≡◌, refl, true, false, ltb, none, some, [], ◌∷◌, map}
use project_mognet.Prelude.Eq.{string_eq}
use project_mognet.Model.Value.{plain}
use project_mognet.Backend.Memory.{ok, raised}
use project_mognet.Request.{Message, malformed}
use project_mognet.Tools.Retries.{Script, listed, returned, retryableasyncmethod}
use project_mognet.Tools.Retries.Outcomes.{backoff, retryableasyncmethod_exhausted}
use project_mognet.Broker.Memory.{
  Broker, Incoming, initial, handed_out, set_task_prefetch, setup_task_queue, passes, ack,
}
use project_mognet.Broker.Memory.Flow.{start, counted, acks, passes_iff_room}
use project_mognet.Broker.Memory.Order.{take_many, send_many, take_many-send_many}

-- The first attempt fails, and each one behind it returns 5.
abbrev script : Script ℕ
script = record {
  outcome = λ k. elim k [ zero ↦ listed (plain "lost") | _ ↦ returned 5 ];
  locked = λ k. false;
  recovery = λ k. none;
}

retryableasyncmethod_exhausted_example :
    let (result, log) = retryableasyncmethod script 60 1 in
    (result ≡ raised (plain "lost")) × (log.tries ≡ 1) × (log.waits ≡ backoff 60 0 1)
retryableasyncmethod_exhausted_example =
    retryableasyncmethod_exhausted script 60 (λ k. plain "lost") 0 (refl, refl, tt)

abbrev hello : Message
hello = record { id = 70; kind = "Request"; payload = malformed; priority = 5; reply_to = none }

abbrev arrived : Incoming
arrived = record { message = hello; from_queue = some "tasks" }

passes_iff_room_example :
    passes (ack arrived (set_task_prefetch 2 initial))
    ≡ ltb
        (ack arrived (set_task_prefetch 2 initial)).unacked_task_count
        (ack arrived (set_task_prefetch 2 initial)).task_prefetch
passes_iff_room_example = passes_iff_room 2 initial (ack arrived (set_task_prefetch 2 initial)) (
    counted (set_task_prefetch 2 initial) (set_task_prefetch 2 initial)
      (ack arrived (set_task_prefetch 2 initial)) (start (set_task_prefetch 2 initial))
      (acks arrived (set_task_prefetch 2 initial)))

-- A broker with a message for its only queue, and what is left of it when the message is taken.
abbrev full : Broker
full = record initial { task_event = true; task_queues = ("tasks", hello ∷ []) ∷ [] }

abbrev emptied : Broker
emptied = record initial { unacked_task_count = 1; task_queues = ("tasks", []) ∷ [] }

take_many-send_many_example :
    (c : Broker) × (send_many "tasks" (hello ∷ hello ∷ []) (setup_task_queue "tasks" initial)
      ≡ ok c)
    × (take_many 2 "tasks" c ≡ map handed_out (hello ∷ hello ∷ []))
take_many-send_many_example = take_many-send_many "tasks" (hello ∷ hello ∷ []) initial
