-- ===== src/Broker/Amqp/Connecting.antt =====
-- Connecting and closing: what is sent to the server, and who is told of a lost connection.
use project_mognet.Prelude.{
  String, ◌≡◌, refl, ap, ◌∙◌, Bool, true, false, none, some, List, [], ◌∷◌, arith,
}
use project_mognet.Model.Value.{Exn, not_connected}
use project_mognet.Backend.Memory.{Answer, ok, raised}
use project_mognet.Broker.Amqp.{
  Broker, Call, Server, Names, open_connection, open_channel, set_qos, declare_exchange, task,
  control, direct, fanout, connect, close, send, answer_of, ◌>>◌, set_task_prefetch,
  set_control_prefetch, create_exchanges, direct_exchange_name, control_exchange_name,
  send_connection_failed_events, task_queue_stats,
}

module _ (names : Names) (server : Server) (b : Broker) where
  -- What is sent while connecting, the last call in front.
  abbrev pub connecting : List Call
  connecting =
      declare_exchange control (control_exchange_name names) fanout false
      ∷ declare_exchange task (direct_exchange_name names) direct true
      ∷ set_qos control 4 false
      ∷ open_channel control
      ∷ set_qos task 1 true
      ∷ open_channel task
      ∷ open_connection
      ∷ b.calls

  again : (b1 : Broker) → b1.connected ≡ true → connect names server b1 ≡ (ok tt, b1)
  unfolding connect
  again b1 e = ground arith

  again_later :
      (b1 : Broker) (answer : Answer (Unit {0}))
      → connect names server b ≡ (answer, b1)
      → b1.connected ≡ true
      → connect names server (connect names server b).1 ≡ (ok tt, (connect names server b).1)
  again_later b1 answer run e = rw (run) (again b1 e)

  run :
      b.connected ≡ false
      → ((before : List Call) (call : Call) → server.fails before call ≡ none)
      → connect names server b
        ≡ (ok tt, record b { connected = true; has_connection = true; calls = connecting })
  unfolding connect send answer_of ◌>>◌ set_task_prefetch set_control_prefetch create_exchanges
  run apart takes = simp (apart, takes)

  fails_first :
      (exc : Exn)
      → b.connected ≡ false
      → server.fails b.calls open_connection ≡ some exc
      → connect names server b
        ≡ (raised exc, record b { connected = true; calls = open_connection ∷ b.calls })
  unfolding connect send answer_of ◌>>◌
  fails_first exc apart fails = rw (apart, fails) refl

  -- A broker that is not connected, on a server that takes every call, opens the connection and the
  -- two channels, each with its prefetch count, and declares the exchanges, in this order; connecting
  -- again sends nothing.
  pub connect_lem :
      b.connected ≡ false
      → ((before : List Call) (call : Call) → server.fails before call ≡ none)
      → ((connect names server b).0 ≡ ok tt)
        × ((connect names server b).1.calls ≡ connecting)
        × (connect names server (connect names server b).1 ≡ (ok tt, (connect names server b).1))
  connect_lem apart takes =
      let runs = run apart takes in
      (
        ap (λ t. t.0) runs,
        ap (λ t. t.1.calls) runs,
        again_later (record b { connected = true; has_connection = true; calls = connecting })
            (ok tt) runs refl,
      )

  -- Where the server cannot be reached, `connect` raises; called again, it returns without an error,
  -- sends nothing, and leaves the broker without a connection.
  pub connect_unreachable :
      (exc : Exn)
      → b.connected ≡ false
      → b.has_connection ≡ false
      → server.fails b.calls open_connection ≡ some exc
      → ((connect names server b).0 ≡ raised exc)
        × (connect names server (connect names server b).1 ≡ (ok tt, (connect names server b).1))
        × ((connect names server b).1.has_connection ≡ false)
  connect_unreachable exc apart without fails =
      let runs = fails_first exc apart fails in
      (
        ap (λ t. t.0) runs,
        again_later (record b { connected = true; calls = open_connection ∷ b.calls }) (raised exc)
            runs refl,
        ap (λ t. t.1.has_connection) runs ∙ without,
      )

  -- Behind `close`, the counts of a queue raise NotConnected, and nobody is told of lost connections.
  pub close_disconnects :
      (missing : Exn → Bool) (queue : String)
      → ((task_queue_stats names server missing queue (close names server b).1).0
          ≡ raised not_connected)
        × (send_connection_failed_events names server (close names server b).1 ≡ [])
  unfolding close send answer_of task_queue_stats send_connection_failed_events
  close_disconnects missing queue = ground arith
