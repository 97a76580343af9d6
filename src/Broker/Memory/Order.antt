-- ===== src/Broker/Memory/Order.antt =====
-- A task queue in memory is first in, first out (mognet/broker/memory_broker.py).
use project_mognet.Prelude.{
  ℕ, zero, suc, ◌+◌, String, ◌≡◌, refl, ap, ◌∙◌, some, List, [], ◌∷◌, ◌++◌, map, length, arith,
}
use project_mognet.Prelude.Dict
use project_mognet.Prelude.Eq.{string_eq, ==_refl}
use project_mognet.Backend.Memory.{Answer, ok, raised}
use project_mognet.Request.{Message}
use project_mognet.Broker.Memory.{
  Broker, send_task_message, setup_task_queue, update_task_event, handed_out, taken, take_task,
}
use project_mognet.Broker.Memory.Flow.{put_there, take_there}

-- `n` messages taken from a queue, one after the other.
abbrev pub take_many : ℕ → String → Broker → List Message
take_many zero queue b = []
take_many (suc n) queue b = elim (take_task queue b) [
  | ok (some (msg, c)) ↦ msg.message ∷ take_many n queue c
  | _ ↦ []
]

abbrev pub send_many : String → List Message → Broker → Answer Broker
send_many queue [] b = ok b
send_many queue (m ∷ ms) b = elim (send_task_message queue m b) [
  | ok c ↦ send_many queue ms c
  | raised e ↦ raised e
]

holds :
    (queue : String) (v : List Message) (m : Dict.Dict String (List Message))
    → Dict.lookup queue (Dict.insert queue v m) ≡ some v
holds queue v m = ground (arith, Dict.lookup-insert queue queue v m, ==_refl queue)

append_nil : (xs : List Message) → xs ≡ xs ++ []
append_nil [] = refl
append_nil (x ∷ xs) = ap (λ l. x ∷ l) (append_nil xs)

append_one : (xs ys : List Message) (m : Message) → (xs ++ m ∷ []) ++ ys ≡ xs ++ m ∷ ys
append_one [] ys m = refl
append_one (x ∷ xs) ys m = ap (λ l. x ∷ l) (append_one xs ys m)

send_many-lookup :
    (queue : String) (xs ms : List Message) (b : Broker)
    → Dict.lookup queue b.task_queues ≡ some ms
    → (c : Broker) × (send_many queue xs b ≡ ok c)
      × (Dict.lookup queue c.task_queues ≡ some (ms ++ xs))
unfolding send_task_message
send_many-lookup queue [] ms b e = (b, refl, e ∙ ap (λ l. some l) (append_nil ms))
send_many-lookup queue (x ∷ xs) ms b e =
    let b' : Broker = record b { task_queues = Dict.insert queue (ms ++ x ∷ []) b.task_queues } in
    let (c, run, last) =
      send_many-lookup queue xs (ms ++ x ∷ []) b' (holds queue (ms ++ x ∷ []) b.task_queues) in
    (c, rw (send_many, put_there queue x ms b e) run, last ∙ ap (λ l. some l) (append_one ms xs x))

take_many-lookup :
    (queue : String) (ms : List Message) (b : Broker)
    → Dict.lookup queue b.task_queues ≡ some ms
    → take_many (length ms) queue b ≡ map handed_out ms
unfolding taken update_task_event
take_many-lookup queue [] b e = refl
take_many-lookup queue (m ∷ ms) b e =
    rw (take_many, take_there queue (m ∷ ms) b e)
      (ap (λ l. handed_out m ∷ l)
        (take_many-lookup queue ms
          (update_task_event (record b {
            unacked_task_count = b.unacked_task_count + 1;
            task_queues = Dict.insert queue ms b.task_queues;
          }))
          (holds queue ms b.task_queues)))

-- What is sent to a queue that was just set up is handed out in the order in which it was sent, each
-- message once.
pub take_many-send_many :
    (queue : String) (xs : List Message) (b : Broker)
    → (c : Broker) × (send_many queue xs (setup_task_queue queue b) ≡ ok c)
      × (take_many (length xs) queue c ≡ map handed_out xs)
unfolding setup_task_queue
take_many-send_many queue xs b =
    let (c, run, e) =
      send_many-lookup queue xs [] (setup_task_queue queue b) (holds queue [] b.task_queues) in
    (c, run, take_many-lookup queue xs c e)
