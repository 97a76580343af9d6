-- ===== src/Broker/Amqp/Queues.antt =====
-- The queues that the AMQP broker declares: which calls are sent, and what is left where one fails.
use project_mognet.Prelude.{
  ℕ, String, ◌≡◌, refl, ap, true, false, Option, none, some, ◌∷◌, arith, contains,
}
use project_mognet.Prelude.Eq.{string_eq, ==_refl}
use project_mognet.Model.Value.{Exn}
use project_mognet.Backend.Memory.{Answer, ok, raised}
use project_mognet.Broker.Amqp.{
  Broker, Call, Server, Names, bind, declare_queue, prioritized, task, send, answer_of,
  task_queue_name, direct_exchange_name, get_or_create_task_queue, ◌>>◌, purge_task_queue,
}

module _ (names : Names) (server : Server) (queue : String) (max_priority : ℕ) where
  known :
      (b : Broker)
      → contains (task_queue_name names queue) b.task_queues ≡ true
      → get_or_create_task_queue names server queue max_priority b
        ≡ (ok (task_queue_name names queue), b)
  unfolding get_or_create_task_queue
  known b e = rw (get_or_create_task_queue, e) refl

  known_later :
      (b b1 : Broker) (answer : Answer String)
      → get_or_create_task_queue names server queue max_priority b ≡ (answer, b1)
      → contains (task_queue_name names queue) b1.task_queues ≡ true
      → get_or_create_task_queue names server queue max_priority
          (get_or_create_task_queue names server queue max_priority b).1
        ≡ (
          ok (task_queue_name names queue),
          (get_or_create_task_queue names server queue max_priority b).1,
        )
  known_later b b1 answer run e = rw (run) (known b1 e)

module _ (names : Names) (server : Server) (queue : String) (max_priority : ℕ) (b : Broker)
    (unknown : contains (task_queue_name names queue) b.task_queues ≡ false) where
  abbrev name : String
  name = task_queue_name names queue

  abbrev declared : Call
  declared = declare_queue task name true false (prioritized max_priority)

  abbrev bound : Call
  bound = bind name (direct_exchange_name names)

  -- The broker behind both calls.
  abbrev after : Broker
  after = record b { task_queues = name ∷ b.task_queues; calls = bound ∷ declared ∷ b.calls }

  after_known : contains name after.task_queues ≡ true
  after_known = unfold contains in rw (==_refl name) refl

  run :
      (last : Option Exn)
      → server.fails b.calls declared ≡ none
      → server.fails (declared ∷ b.calls) bound ≡ last
      → get_or_create_task_queue names server queue max_priority b
        ≡ (elim last [ none ↦ ok name | some e ↦ raised e ], after)
  unfolding get_or_create_task_queue send answer_of ◌>>◌
  run none declares binds = rw (unknown, declares, binds) refl
  run (some e) declares binds = rw (unknown, declares, binds) refl

  -- Where the server takes both calls, a queue that is not known is declared and bound, once: a
  -- second use of the queue sends nothing.
  pub get_or_create_task_queue_once :
      server.fails b.calls declared ≡ none
      → server.fails (declared ∷ b.calls) bound ≡ none
      → ((get_or_create_task_queue names server queue max_priority b).0 ≡ ok name)
        × ((get_or_create_task_queue names server queue max_priority b).1.calls
            ≡ bound ∷ declared ∷ b.calls)
        × (get_or_create_task_queue names server queue max_priority
              (get_or_create_task_queue names server queue max_priority b).1
            ≡ (ok name, (get_or_create_task_queue names server queue max_priority b).1))
  get_or_create_task_queue_once declares binds =
      let runs = run none declares binds in
      (
        ap (λ t. t.0) runs,
        ap (λ t. t.1.calls) runs,
        known_later names server queue max_priority b after (ok name) runs after_known,
      )

  -- Where the queue is declared but the server refuses to bind it, the error is raised; the next use
  -- of the queue is a success that sends nothing, so the queue stays unbound.
  pub get_or_create_task_queue_unbound :
      (exc : Exn)
      → server.fails b.calls declared ≡ none
      → server.fails (declared ∷ b.calls) bound ≡ some exc
      → ((get_or_create_task_queue names server queue max_priority b).0 ≡ raised exc)
        × (get_or_create_task_queue names server queue max_priority
              (get_or_create_task_queue names server queue max_priority b).1
            ≡ (ok name, (get_or_create_task_queue names server queue max_priority b).1))
  get_or_create_task_queue_unbound exc declares binds =
      let runs = run (some exc) declares binds in
      (
        ap (λ t. t.0) runs,
        known_later names server queue max_priority b after (raised exc) runs after_known,
      )

  -- A queue that is not declared here is not purged.
  purge_task_queue_unknown : purge_task_queue names server queue b ≡ (ok 0, b)
  unfolding purge_task_queue
  purge_task_queue_unknown = ground arith
