-- ===== src/Backend/Redis/Encoding.antt =====
-- How mognet/backend/redis_result_backend.py writes results, values and children as fields of hashes
-- and members of sets. The JSON and gzip libraries, pydantic's validation and its forms of ids and
-- times, and `UUID.bytes` are a parameter. Only the backend writes these hashes, with JSON texts
-- throughout, so reading JSON is total.
pub mod RoundTrip
use project_mognet.Prelude.{
  ℕ, String, ◌≡◌, refl, Bool, true, false, not, Option, none, some, List, [], ◌∷◌, map,
  if◌then◌else◌,
}
use project_mognet.Prelude.Texts.{has_slash}
use project_mognet.Prelude.Dict
use project_mognet.Prelude.Dict.{Dict}
use project_mognet.Prelude.Eq.{string_eq, ◌==◌}
use project_mognet.Model.State.{
  ResultState, pending, running, suspended, success, failure, revoked, invalid,
}
use project_mognet.Model.Value.{Value, ValueHolder, value_error, key_error}
use project_mognet.Model.Result.{Result}
use project_mognet.Backend.View.{is_json}
use project_mognet.Backend.Memory.{Answer, ok, raised}

-- The JSON values that a result's fields have; `other` stands for all further ones.
pub data Json : Type 0 where
  null : Json
  number : ℕ → Json
  text : String → Json
  other : String → Json

unfoldable pub state_name : ResultState → String
state_name pending = "PENDING"
state_name running = "RUNNING"
state_name suspended = "SUSPENDED"
state_name success = "SUCCESS"
state_name failure = "FAILURE"
state_name revoked = "REVOKED"
state_name invalid = "INVALID"

-- What the libraries give: `dumps` and `loads` of `json`, for the fields of results and for values, `model_dump_json` and
-- `model_validate_json` of a value holder, gzip, pydantic's validation of single fields (`none` is an
-- error), its texts of ids and times, and the bytes of an id.
pub record Codec : Type 0 where
  pub dumps : Json → String
  pub loads : String → Json
  pub dump_value : Value → String
  pub load_value : String → Value
  pub dump_holder : ValueHolder → String
  pub load_holder : String → Option ValueHolder
  pub compress : String → String
  pub decompress : String → String
  pub show_id : ℕ → String
  pub show_time : ℕ → String
  pub valid_text : Json → Option String
  pub valid_number : Json → Option ℕ
  pub valid_state : Json → Option ResultState
  pub valid_id : Json → Option ℕ
  pub valid_time : Json → Option ℕ
  pub to_bytes : ℕ → String
  pub from_bytes : String → ℕ

-- What the code relies on: reading gives back what was written, `null` is written as such,
-- and the text of an id has no slash.
pub record IsFaithful (c : Codec) : Type 0 where
  pub loads-dumps : (j : Json) → c.loads (c.dumps j) ≡ j
  pub load-dump_value : (v : Value) → is_json v ≡ true → c.load_value (c.dump_value v) ≡ v
  pub dumps_null : c.dumps null ≡ "null"
  pub load-dump_holder : (h : ValueHolder) → c.load_holder (c.dump_holder h) ≡ some h
  pub decompress-compress : (s : String) → c.decompress (c.compress s) ≡ s
  pub valid_text_text : (s : String) → c.valid_text (text s) ≡ some s
  pub valid_number_number : (n : ℕ) → c.valid_number (number n) ≡ some n
  pub valid_state_name : (s : ResultState) → c.valid_state (text (state_name s)) ≡ some s
  pub valid_id-show_id : (i : ℕ) → c.valid_id (text (c.show_id i)) ≡ some i
  pub valid_time-show_time : (t : ℕ) → c.valid_time (text (c.show_time t)) ≡ some t
  pub show_id_plain : (i : ℕ) → has_slash (c.show_id i) ≡ false
  pub from-to_bytes : (i : ℕ) → c.from_bytes (c.to_bytes i) ≡ i

-- A validation error, or the value.
checked : {A : Type 0} → Option A → Answer A
checked none = raised value_error
checked (some a) = ok a

-- A result's fields are validated together.
applied : {A B : Type 0} → Option (A → B) → Option A → Option B
applied none a = none
applied (some f) none = none
applied (some f) (some a) = some (f a)

present : {A : Type 0} → Option A → Option (Option A)
present none = none
present (some a) = some (some a)

make :
    ℕ
    → Option String
    → ResultState
    → ℕ
    → ℕ
    → Option ℕ
    → Option ℕ
    → Option ℕ
    → Option ℕ
    → Option String
    → Option String
    → Result
make id name state starts stops parent_id created started finished node_id repr = record {
  id = id;
  name = name;
  state = state;
  number_of_starts = starts;
  number_of_stops = stops;
  parent_id = parent_id;
  created = created;
  started = started;
  finished = finished;
  node_id = node_id;
  request_kwargs_repr = repr;
}

-- A field that may be `None`.
unfoldable pub as_optional : {A : Type 0} → (Json → Option A) → Json → Option (Option A)
unfolding present
as_optional valid null = some none
as_optional valid (number n) = present (valid (number n))
as_optional valid (text s) = present (valid (text s))
as_optional valid (other s) = present (valid (other s))

unfoldable pub dict_to_json_dict :
    {A : Type 0} (dumps : A → String) → Dict String A → Dict String String
dict_to_json_dict dumps [] = []
dict_to_json_dict dumps ((k, v) ∷ rest) = (k, dumps v) ∷ dict_to_json_dict dumps rest

unfoldable pub decode_json_dict :
    {A : Type 0} (loads : String → A) → Dict String String → Dict String A
decode_json_dict loads [] = []
decode_json_dict loads ((k, v) ∷ rest) = (k, loads v) ∷ decode_json_dict loads rest

module _ (c : Codec) where
  open c use {
    dumps, loads, dump_holder, load_holder, compress, decompress, show_id, show_time, valid_text,
    valid_number, valid_state, valid_id, valid_time, to_bytes, from_bytes,
  }

  -- The fields of `model_dump_json`.
  optional : {A : Type 0} → (A → Json) → Option A → Json
  optional f none = null
  optional f (some a) = f a

  id_json : ℕ → Json
  id_json i = text (show_id i)

  time_json : ℕ → Json
  time_json t = text (show_time t)

  fields : Result → Dict String Json
  unfolding optional id_json time_json state_name
  fields r =
      ("id", id_json r.id)
      ∷ ("name", optional text r.name)
      ∷ ("state", text (state_name r.state))
      ∷ ("number_of_starts", number r.number_of_starts)
      ∷ ("number_of_stops", number r.number_of_stops)
      ∷ ("parent_id", optional id_json r.parent_id)
      ∷ ("created", optional time_json r.created)
      ∷ ("started", optional time_json r.started)
      ∷ ("finished", optional time_json r.finished)
      ∷ ("node_id", optional text r.node_id)
      ∷ ("request_kwargs_repr", optional text r.request_kwargs_repr)
      ∷ []

  unfoldable pub encode_result : Result → Dict String String
  unfolding fields dict_to_json_dict
  encode_result r = dict_to_json_dict dumps (fields r)

  -- A field that is missing has its default.
  field : {A : Type 0} → (Json → Option A) → Option A → Option Json → Option A
  field valid default none = default
  field valid default (some j) = valid j

  -- `Result(self, **value)`, by what the dictionary holds for each field. The id has no default.
  validate_result : (String → Option Json) → Option Result
  unfolding applied as_optional field make
  validate_result read =
      let id = field valid_id none (read "id") in
      let name = field (as_optional valid_text) (some none) (read "name") in
      let state = field valid_state (some pending) (read "state") in
      let starts = field valid_number (some 0) (read "number_of_starts") in
      let stops = field valid_number (some 0) (read "number_of_stops") in
      let parent_id = field (as_optional valid_id) (some none) (read "parent_id") in
      let created = field (as_optional valid_time) (some none) (read "created") in
      let started = field (as_optional valid_time) (some none) (read "started") in
      let finished = field (as_optional valid_time) (some none) (read "finished") in
      let node_id = field (as_optional valid_text) (some none) (read "node_id") in
      let repr = field (as_optional valid_text) (some none) (read "request_kwargs_repr") in
      applied
        (applied
          (applied
            (applied
              (applied
                (applied
                  (applied (applied (applied (applied (applied (some make) id) name) state) starts)
                    stops)
                  parent_id)
                created)
              started)
            finished)
          node_id)
        repr

  unfoldable pub decode_result : Dict String String → Answer Result
  unfolding checked validate_result decode_json_dict
  decode_result json_dict =
      let value = decode_json_dict loads json_dict in
      checked (validate_result (λ k. Dict.lookup k value))

  json_bytes : String → String
  json_bytes value = dumps (text value)

  unfoldable pub encode_result_value : (gzip : Bool) → ValueHolder → Dict String String
  unfolding json_bytes
  encode_result_value gzip value =
      let contents = dump_holder value in
      ("contents", if gzip then compress contents else contents)
      ∷ ("encoding", if gzip then json_bytes "gzip" else "null")
      ∷ ("content_type", json_bytes "application/json")
      ∷ []

  is_given : String → Option String → Bool
  is_given wanted none = false
  is_given wanted (some given) = given == wanted

  -- By the three fields: the contents are needed whatever the type is.
  decode_parts : (contents encoding content_type : Option String) → Answer ValueHolder
  unfolding json_bytes is_given checked
  decode_parts none encoding content_type = raised key_error
  decode_parts (some raw) encoding content_type =
      if is_given (json_bytes "application/json") content_type
      then checked
          (load_holder (if is_given (json_bytes "gzip") encoding then decompress raw else raw))
      else raised value_error

  unfoldable pub decode_result_value : Dict String String → Answer ValueHolder
  unfolding decode_parts
  decode_result_value encoded =
      decode_parts (Dict.lookup "contents" encoded) (Dict.lookup "encoding" encoded)
        (Dict.lookup "content_type" encoded)

  unfoldable pub encode_children : List ℕ → List String
  encode_children [] = []
  encode_children (child ∷ children) = to_bytes child ∷ encode_children children

  unfoldable pub decode_children : List String → List ℕ
  decode_children [] = []
  decode_children (raw ∷ rest) = from_bytes raw ∷ decode_children rest
