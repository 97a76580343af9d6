-- ===== src/Broker/Amqp/Querying/Replies.antt =====
-- What a query yields, by the replies that arrive (mognet/broker/amqp_broker.py, mognet/app/app.py).
use mathlib.Core.List.{append-nil}
use project_mognet.Prelude.{ℕ, ◌≡◌, refl, String, Option, none, some, List, [], ◌∷◌, ◌++◌, ap, ◌∙◌}
use project_mognet.Model.Value.{Exn, value_error}
use project_mognet.Backend.Memory.{Answer, ok}
use project_mognet.Request.{Message, Payload}
use project_mognet.Request
use project_mognet.Broker.Amqp.{
  Broker, Call, Server, Names, ack_message, reject_message, delete, callback_queue_name, send,
  start_query, ◌>>◌,
}
use project_mognet.Broker.Amqp.Acknowledging.{Delivered}
use project_mognet.Broker.Amqp.Querying.{
  Response, response_of, parse, Generated, yield_first, reject, acknowledge, read_replies, deleted,
  delete_queue, query_with, send_query_message, Pydantic, statuses, get_current_status_of_nodes,
}

-- Calls that are all taken.
abbrev pub TakesAll : Server → Type 0
TakesAll server = (calls : List Call) (call : Call) → server.fails calls call ≡ none

-- The message of a node that replies to a query for the status.
abbrev pub status_reply : ℕ → Response → Delivered
status_reply tag r = record {
  body = some (record {
    id = tag;
    kind = "StatusResponse";
    payload = Request.status r.node_id r.running_request_ids;
    priority = 5;
    reply_to = none;
  });
  tag = tag;
  reply_to = none;
}

-- Replies that arrive under their tags.
abbrev pub replies_of : List (ℕ × Response) → List Delivered
replies_of [] = []
replies_of ((tag, r) ∷ rest) = status_reply tag r ∷ replies_of rest

abbrev pub responses : List (ℕ × Response) → List Response
responses [] = []
responses ((tag, r) ∷ rest) = r ∷ responses rest

-- The acknowledgements of these, in front of earlier calls.
abbrev pub acked_onto : List (ℕ × Response) → List Call → List Call
acked_onto [] calls = calls
acked_onto ((tag, r) ∷ rest) calls = acked_onto rest (ack_message tag ∷ calls)

module _ (names : Names) (server : Server) (takes : TakesAll server) where
  send_taken :
      (c : Call) (b : Broker) → send names server c b ≡ (ok tt, record b { calls = c ∷ b.calls })
  unfolding send
  send_taken c b = rw (takes b.calls c) refl

  read_replies-append :
      (given : List (ℕ × Response)) (more : List Delivered) (b : Broker)
      → let (rs, end, b') =
          read_replies names server more (record b { calls = acked_onto given b.calls }) in
        read_replies names server (replies_of given ++ more) b ≡ (responses given ++ rs, end, b')
  unfolding read_replies acknowledge yield_first parse response_of
  read_replies-append [] more b = refl
  read_replies-append ((tag, r) ∷ given) more b =
      ap (acknowledge names server r (read_replies names server (replies_of given ++ more)))
        (send_taken (ack_message tag) b)
      ∙ ap (yield_first names server r)
          (read_replies-append given more (record b { calls = ack_message tag ∷ b.calls }))

  read_replies-given :
      (given : List (ℕ × Response)) (b : Broker)
      → read_replies names server (replies_of given) b
        ≡ (responses given, none, record b { calls = acked_onto given b.calls })
  unfolding read_replies acknowledge yield_first parse response_of
  read_replies-given [] b = refl
  read_replies-given ((tag, r) ∷ given) b =
      ap (acknowledge names server r (read_replies names server (replies_of given)))
        (send_taken (ack_message tag) b)
      ∙ ap (yield_first names server r)
          (read_replies-given given (record b { calls = ack_message tag ∷ b.calls }))

  then_taken :
      {A : Type 0} (c : Call) (b : Broker) (next : Broker → Answer A × Broker)
      → (send names server c b >> next) ≡ next (record b { calls = c ∷ b.calls })
  unfolding ◌>>◌
  then_taken c b next = rw (send_taken c b) refl

  start_query-taken :
      (payload : Message) (b : Broker)
      → start_query names server payload b
        ≡ (ok (callback_queue_name names), (start_query names server payload b).1)
  unfolding start_query
  start_query-taken payload b = simp then_taken

  query_with-ended :
      (replies : List Delivered) (b last : Broker) (queue : String) (rs : List Response)
      (end : Option Exn)
      → read_replies names server replies b ≡ (rs, end, last)
      → query_with names server replies (ok queue, b)
        ≡ (rs, end, record last { calls = delete queue ∷ last.calls })
  unfolding query_with delete_queue
  query_with-ended replies b last queue rs end e =
      ap (delete_queue names server queue) e
      ∙ ap (deleted names server rs end) (send_taken (delete queue) last)

  rejected :
      (bad : Delivered) (rest : List Delivered) (b : Broker)
      → parse bad.body ≡ none
      → read_replies names server (bad ∷ rest) b
        ≡ ([], some value_error, record b { calls = reject_message bad.tag ∷ b.calls })
  unfolding read_replies reject
  rejected bad rest b unreadable =
      rw (read_replies, unreadable, send_taken (reject_message bad.tag) b) refl

  -- A reply that cannot be parsed ends a query with an error, where the server takes all calls: the
  -- responses of the replies before it were yielded and these are acknowledged, the reply is
  -- rejected, those behind it are left alone, and the queue for the replies is deleted.
  pub send_query_message_stops :
      (payload : Message) (given : List (ℕ × Response)) (bad : Delivered) (rest : List Delivered)
      (b : Broker)
      → parse bad.body ≡ none
      → let asked = (start_query names server payload b).1 in
        send_query_message names server payload (replies_of given ++ bad ∷ rest) b ≡ (
          responses given,
          some value_error,
          record asked {
            calls =
                delete (callback_queue_name names)
                ∷ reject_message bad.tag
                ∷ acked_onto given asked.calls;
          },
        )
  unfolding send_query_message
  send_query_message_stops payload given bad rest b unreadable =
      let asked = (start_query names server payload b).1 in
      let read = record asked { calls = acked_onto given asked.calls } in
      let last = record read { calls = reject_message bad.tag ∷ read.calls } in
      ap (query_with names server (replies_of given ++ bad ∷ rest)) (start_query-taken payload b)
      ∙ query_with-ended (replies_of given ++ bad ∷ rest) asked last (callback_queue_name names)
          (responses given) (some value_error)
          (read_replies-append given (bad ∷ rest) asked
            ∙ rw (rejected bad rest read unreadable)
                (ap (λ (rs : List Response). (rs, some value_error, last)) (append-nil _)))

module _ (pydantic : Pydantic) where
  statuses_none : (rs : List Response) → statuses pydantic.status_of rs ≡ []
  unfolding statuses
  statuses_none [] = refl
  statuses_none (r ∷ rs) = rw (statuses, pydantic.refuses_object r) (statuses_none rs)

  -- However many nodes reply to the query for their status, and in the form in which nodes reply,
  -- `get_current_status_of_nodes` yields the status of none: each reply is acknowledged, its response
  -- is skipped, and the queue for the replies is deleted. The server takes all calls, and pydantic
  -- keeps to its documentation.
  pub get_current_status_of_nodes-none :
      (names : Names) (server : Server)
      → TakesAll server
      → (payload : Message) (given : List (ℕ × Response)) (b : Broker)
      → let asked = (start_query names server payload b).1 in
        get_current_status_of_nodes pydantic.status_of names server payload (replies_of given) b ≡ (
          [],
          none,
          record asked {
            calls = delete (callback_queue_name names) ∷ acked_onto given asked.calls;
          },
        )
  unfolding get_current_status_of_nodes send_query_message
  get_current_status_of_nodes-none names server takes payload given b =
      let asked = (start_query names server payload b).1 in
      let last = record asked {
        calls = delete (callback_queue_name names) ∷ acked_onto given asked.calls;
      } in
      let sent =
        ap (query_with names server (replies_of given))
          (start_query-taken names server takes payload b)
        ∙ query_with-ended names server takes (replies_of given) asked
            (record asked { calls = acked_onto given asked.calls }) (callback_queue_name names)
            (responses given) none (read_replies-given names server takes given asked) in
      ap (λ (g : Generated). (statuses pydantic.status_of g.0, g.1, g.2)) sent
      ∙ ap (λ (rs : List Response). (rs, none, last)) (statuses_none (responses given))
