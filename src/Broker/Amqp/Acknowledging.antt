-- ===== src/Broker/Amqp/Acknowledging.antt =====
-- Messages as the AMQP broker hands them out: each is acknowledged or given back once, and those that
-- cannot be parsed are discarded.
use project_mognet.Prelude.{
  ℕ, ◌≡◌, String, refl, ap, ◌∙◌, Bool, true, false, not, ◌&&◌, inl, inr, Option, none, some, List,
  [], ◌∷◌, arith, Option-cases, if◌then◌else◌,
}
use project_mognet.Backend.Memory.{Answer, ok, raised}
use project_mognet.Request.{Message}
use project_mognet.Broker.Amqp.{Broker, Call, Server, Names, ack_message, nack_message, send}

-- `_AmqpIncomingMessagePayload`: the tag tells the message of the library that it stands for.
pub record Incoming : Type 0 where
  pub message : Message
  pub tag : ℕ
  pub processed : Bool

-- `ack` and `nack`.
pub data Reply : Type 0 where
  ack nack : Reply

abbrev pub call_of : Reply → ℕ → Call
call_of ack tag = ack_message tag
call_of nack tag = nack_message tag

-- A message of the library: its body may not be what `json.loads` and the model take.
pub record Delivered : Type 0 where
  pub body : Option Message
  pub tag : ℕ
  pub reply_to : Option String

module _ (names : Names) (server : Server) where
  succeeded : Answer (Unit {0}) → Bool
  succeeded (ok _) = true
  succeeded (raised e) = false

  -- What the method returns, the message and the broker behind it. An exception is logged.
  unfoldable pub answer : Reply → Incoming → Broker → Bool × Incoming × Broker
  unfolding succeeded send
  answer reply incoming b =
      let (sent, b1) = send names server (call_of reply incoming.tag) b in
      if incoming.processed
      then (true, incoming, b)
      else (succeeded sent, record incoming { processed = true }, b1)

  unfoldable pub answer_all : List Reply → Incoming → Broker → List Bool × Incoming × Broker
  unfolding answer
  answer_all [] incoming b = ([], incoming, b)
  answer_all (reply ∷ replies) incoming b =
      let (returned, incoming1, b1) = answer reply incoming b in
      let (rest, last, b2) = answer_all replies incoming1 b1 in (returned ∷ rest, last, b2)

  -- `_consume`: the payloads that are handed out, in order. What the consumer does in between is
  -- left out; an error of the acknowledgement of a discarded message is only logged.
  unfoldable pub consume : List Delivered → Broker → List Incoming × Broker
  unfolding send
  consume [] b = ([], b)
  consume (msg ∷ msgs) b = elim msg.body [
    | some body ↦
        let (rest, last) = consume msgs b in
        (
          record {
            message = record body { reply_to = msg.reply_to };
            tag = msg.tag;
            processed = false;
          }
              ∷ rest,
          last,
        )
    | none ↦ let (discarded, b1) = send names server (ack_message msg.tag) b in consume msgs b1
  ]

  answer_processed :
      (reply : Reply) (incoming : Incoming) (b : Broker)
      → incoming.processed ≡ true
      → answer reply incoming b ≡ (true, incoming, b)
  unfolding answer
  answer_processed reply incoming b e = ground arith

  answered_again :
      (replies : List Reply) (incoming : Incoming) (b : Broker)
      → incoming.processed ≡ true
      → ((answer_all replies incoming b).1 ≡ incoming) × ((answer_all replies incoming b).2 ≡ b)
  unfolding answer_all answer
  answered_again [] incoming b e = (refl, refl)
  answered_again (reply ∷ replies) incoming b e =
      let done = answer_processed reply incoming b e in
      let (same, silent) = answered_again replies incoming b e in
      (
        ap (λ (t : Bool × Incoming × Broker). (answer_all replies t.1 t.2).1) done ∙ same,
        ap (λ (t : Bool × Incoming × Broker). (answer_all replies t.1 t.2).2) done ∙ silent,
      )

  -- However often a message that was not acknowledged yet is acknowledged or given back, the server
  -- is sent the first of these calls alone.
  pub answer_all_once :
      (reply : Reply) (replies : List Reply) (incoming : Incoming) (b : Broker)
      → incoming.processed ≡ false
      → (answer_all (reply ∷ replies) incoming b).2.calls ≡ call_of reply incoming.tag ∷ b.calls
  unfolding answer_all answer send
  answer_all_once reply replies incoming b e =
      rw
        (
          e,
          (answered_again replies (record incoming { processed = true })
              (record b { calls = call_of reply incoming.tag ∷ b.calls }) refl).1,
        )
        refl

  -- The tags of the messages that can be parsed.
  abbrev pub readable : List Delivered → List ℕ
  readable [] = []
  readable (msg ∷ msgs) =
      let rest = readable msgs in elim msg.body [ some body ↦ msg.tag ∷ rest | none ↦ rest ]

  -- The tags of the others.
  abbrev pub unreadable : List Delivered → List ℕ
  unreadable [] = []
  unreadable (msg ∷ msgs) =
      let rest = unreadable msgs in elim msg.body [ some body ↦ rest | none ↦ msg.tag ∷ rest ]

  -- The calls of a broker behind acknowledgements in this order.
  abbrev pub acknowledged : List ℕ → List Call → List Call
  acknowledged [] calls = calls
  acknowledged (tag ∷ tags) calls = acknowledged tags (ack_message tag ∷ calls)

  abbrev pub tags : List Incoming → List ℕ
  tags [] = []
  tags (incoming ∷ rest) = incoming.tag ∷ tags rest

  abbrev pub all_open : List Incoming → Bool
  all_open [] = true
  all_open (incoming ∷ rest) = not incoming.processed && all_open rest

  -- Consuming hands out the messages that can be parsed, in the order of their arrival, none of them
  -- answered yet, and what it sends is an acknowledgement for each of the others, in their order, and
  -- nothing else.
  pub consume_lem :
      (msgs : List Delivered) (b : Broker)
      → (tags (consume msgs b).0 ≡ readable msgs)
        × (all_open (consume msgs b).0 ≡ true)
        × ((consume msgs b).1.calls ≡ acknowledged (unreadable msgs) b.calls)
  unfolding consume send
  consume_lem [] b = (refl, refl, refl)
  consume_lem (msg ∷ msgs) b = elim (Option-cases msg.body) [
    | inl none_read ↦
        let (same, open_still, sent) =
          consume_lem msgs (record b { calls = ack_message msg.tag ∷ b.calls }) in
        (ground arith, ground arith, ground arith)
    | inr (body, read) ↦
        let (same, open_still, sent) = consume_lem msgs b in
        (ground arith, ground arith, ground arith)
  ]
