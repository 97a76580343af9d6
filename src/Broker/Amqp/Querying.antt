-- ===== src/Broker/Amqp/Querying.antt =====
-- mognet/broker/amqp_broker.py: `send_query_message` with the loop over the replies, up to where the
-- wait for the next one is cancelled, and `get_current_status_of_nodes` of mognet/app/app.py. The
-- context of a message of the library (`message.process()`) acknowledges it, or rejects it where an
-- exception leaves the block.
pub mod Replies
use project_mognet.Prelude.{
  ℕ, ◌≡◌, refl, String, Option, none, some, List, [], ◌∷◌, ◌++◌, arith, ap, ◌∙◌,
}
use project_mognet.Model.Value.{Exn, value_error}
use project_mognet.Backend.Memory.{Answer, ok, raised}
use project_mognet.Request.{Message, Payload}
use project_mognet.Request
use project_mognet.Broker.Amqp.{
  Broker, Call, Server, Names, ack_message, reject_message, delete, callback_queue_name, send,
  start_query, ◌>>◌,
}
use project_mognet.Broker.Amqp.Acknowledging.{Delivered}

-- `QueryResponseMessage`, as far as it is read.
pub record Response : Type 0 where
  pub node_id : String
  pub running_request_ids : List ℕ

-- `QueryResponseMessage.model_validate(msg.payload)`
unfoldable pub response_of : Payload → Option Response
response_of (Request.status node ids) = some (record { node_id = node; running_request_ids = ids })
response_of _ = none

-- The body as JSON, and the payload as a response.
unfoldable pub parse : Option Message → Option Response
unfolding response_of
parse none = none
parse (some msg) = response_of msg.payload

-- What a generator has yielded, the exception that ended it, if any, and the broker.
abbrev pub Generated : Type 0
Generated = List Response × Option Exn × Broker

module _ (names : Names) (server : Server) where
  yield_first : Response → Generated → Generated
  yield_first r (rs, end, b) = (r ∷ rs, end, b)

  -- The end of the block behind an exception; one of the rejection itself takes its place.
  reject : Exn → Answer (Unit {0}) × Broker → Generated
  reject exc (ok x, b) = ([], some exc, b)
  reject exc (raised e, b) = ([], some e, b)

  -- The end of the block behind the `yield`, and the rest of the loop.
  acknowledge : Response → (Broker → Generated) → Answer (Unit {0}) × Broker → Generated
  unfolding yield_first
  acknowledge r rest (ok x, b) = yield_first r (rest b)
  acknowledge r rest (raised e, b) = (r ∷ [], some e, b)

  unfoldable pub read_replies : List Delivered → Broker → Generated
  unfolding acknowledge reject
  read_replies [] b = ([], none, b)
  read_replies (msg ∷ msgs) b = elim (parse msg.body) [
    | none ↦ reject value_error (send names server (reject_message msg.tag) b)
    | some r ↦ acknowledge r (read_replies msgs) (send names server (ack_message msg.tag) b)
  ]

  -- The `finally` block, with the answer to the deletion.
  deleted : List Response → Option Exn → Answer (Unit {0}) × Broker → Generated
  deleted rs end (ok x, b) = (rs, end, b)
  deleted rs end (raised e, b) = (rs, some e, b)

  delete_queue : String → Generated → Generated
  unfolding deleted
  delete_queue queue (rs, end, b) = deleted rs end (send names server (delete queue) b)

  query_with : List Delivered → Answer String × Broker → Generated
  unfolding delete_queue
  query_with replies (raised e, b) = ([], some e, b)
  query_with replies (ok queue, b) = delete_queue queue (read_replies replies b)

  unfoldable pub send_query_message : Message → List Delivered → Broker → Generated
  unfolding query_with
  send_query_message payload replies b = query_with replies (start_query names server payload b)

-- What pydantic's validation is given: a dictionary, or an object of another model.
pub data Validated : Type 0 where
  dictionary : Payload → Validated
  object : Response → Validated

-- `StatusResponseMessage.model_validate`. Pydantic takes a dictionary or an object of the model
-- itself: an object of `QueryResponseMessage`, from which the model is derived, is neither.
pub record Pydantic : Type 0 where
  pub status_of : Validated → Option Response
  pub takes_dictionary :
      (node : String) (ids : List ℕ)
      → status_of (dictionary (Request.status node ids))
        ≡ some (record { node_id = node; running_request_ids = ids })
  pub refuses_object : (r : Response) → status_of (object r) ≡ none

module _ (status_of : Validated → Option Response) where
  -- The loop of `get_current_status_of_nodes`: a response that is not valid is logged and skipped.
  statuses : List Response → List Response
  statuses [] = []
  statuses (r ∷ rs) =
      let rest = statuses rs in
      elim (status_of (object r)) [ none ↦ rest | some status ↦ status ∷ rest ]

  unfoldable pub get_current_status_of_nodes :
      Names → Server → Message → List Delivered → Broker → Generated
  unfolding statuses
  get_current_status_of_nodes names server payload replies b =
      let (rs, end, b') = send_query_message names server payload replies b in
      (statuses rs, end, b')
