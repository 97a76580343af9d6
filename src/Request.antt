-- ===== src/Request.antt =====
-- mognet/primitives: requests, the control messages, and the messages that carry them
-- (mognet/broker/base_broker.py).
use project_mognet.Prelude.{ℕ, String, Option, none, List, []}
use project_mognet.Prelude.Dict.{Dict}
use project_mognet.Model.Value.{Value}

-- `Union[timedelta, datetime]`: a time to run in, or a time to be done by.
pub data Deadline : Type 0 where
  within : (length : ℕ) → Deadline
  until : (time : ℕ) → Deadline

pub record Request : Type 0 where
  pub id : ℕ
  pub name : String
  pub args : List Value
  pub kwargs : Dict String Value
  pub stack : List ℕ
  pub metadata : Dict String Value
  pub deadline : Option Deadline
  pub queue_name : Option String
  pub kwargs_repr : Option String
  pub priority : ℕ

-- `Request(id=id, name=name)`
abbrev pub plain_request : ℕ → String → Request
plain_request id name = record {
  id = id;
  name = name;
  args = [];
  kwargs = [];
  stack = [];
  metadata = [];
  deadline = none;
  queue_name = none;
  kwargs_repr = none;
  priority = 5;
}

-- The dictionaries that `model_dump` makes: a request, `Revoke`, `QueryRequestMessage`,
-- `StatusResponseMessage`, and anything that no model validates.
pub data Payload : Type 0 where
  request : Request → Payload
  revoke : (id : ℕ) → Payload
  query : (name : String) → Payload
  status : (node_id : String) (running_request_ids : List ℕ) → Payload
  malformed : Payload

pub record Message : Type 0 where
  pub id : ℕ
  pub kind : String
  pub payload : Payload
  pub priority : ℕ
  pub reply_to : Option String
