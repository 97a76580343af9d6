-- ===== src/Examples/Codec.antt =====
-- A codec that gives back what it wrote: texts are packed with marks before their characters.
use Prim.Native.Char.{Char}
use project_mognet.Prelude.{
  false, ℕ, zero, suc, ◌≡◌, refl, ap, ◌∙◌, String, Option, none, some, List, [], ◌∷◌, if◌then◌else◌,
}
use project_mognet.Prelude.Eq.{string_eq, ◌==◌}
use project_mognet.Prelude.Texts.{len, has_slash, is_slash}
use project_mognet.Model.State.{
  ResultState, pending, running, suspended, success, failure, revoked, invalid,
}
use project_mognet.Model.Value.{
  Value, ValueHolder, Exn, plain, user, result_not_ready, pause, cancelled_error, timeout_error,
  recursion_error, invalid_task_arguments, key_error, value_error, runtime_error,
  improperly_configured, not_connected, could_not_submit, not_implemented, revoked_error,
  result_failed, result_value_lost, result_lost, too_many_retries, parent_missing, parent_revoked,
  unknown_task, queue_not_found, type_error, attribute_error,
}
use project_mognet.Backend.Redis.Encoding.{
  Codec, IsFaithful, Json, null, number, text, other, state_name,
}

abbrev unary : ℕ → String
unary zero = ""
unary (suc n) = String.◌∷◌ "x" (unary n)

len-unary : (n : ℕ) → len (unary n) ≡ n
unfolding len
len-unary zero = refl
len-unary (suc n) = ap suc (len-unary n)

unary_plain : (n : ℕ) → has_slash (unary n) ≡ false
unfolding has_slash is_slash
unary_plain zero = refl
unary_plain (suc n) = unary_plain n

abbrev marked : String → String → String
marked String.[] rest = String.◌∷◌ "e" rest
marked (String.◌∷◌ a s) rest = String.◌∷◌ "x" (String.◌∷◌ a (marked s rest))

abbrev pack : List String → String
pack [] = ""
pack (s ∷ ss) = marked s (pack ss)

abbrev push : Char → List String → List String
push a [] = []
push a (s ∷ ss) = String.◌∷◌ a s ∷ ss

abbrev unpack : String → List String
unpack String.[] = []
unpack (String.◌∷◌ m String.[]) = "" ∷ []
unpack (String.◌∷◌ m (String.◌∷◌ a rest)) =
    if String.◌∷◌ m "" == "e" then "" ∷ unpack (String.◌∷◌ a rest) else push a (unpack rest)

unpack-marked : (s rest : String) → unpack (marked s rest) ≡ s ∷ unpack rest
unpack-marked String.[] String.[] = refl
unpack-marked String.[] (String.◌∷◌ a rest) = refl
unpack-marked (String.◌∷◌ a s) rest = ap (push a) (unpack-marked s rest)

unpack-pack : (ss : List String) → unpack (pack ss) ≡ ss
unpack-pack [] = refl
unpack-pack (s ∷ ss) = unpack-marked s (pack ss) ∙ ap (λ l. s ∷ l) (unpack-pack ss)

abbrev dump_exn : Exn → List String
dump_exn (plain t) = "plain" ∷ t ∷ []
dump_exn (user t) = "user" ∷ t ∷ []
dump_exn result_not_ready = "not ready" ∷ []
dump_exn pause = "pause" ∷ []
dump_exn cancelled_error = "cancelled" ∷ []
dump_exn timeout_error = "timeout" ∷ []
dump_exn recursion_error = "recursion" ∷ []
dump_exn invalid_task_arguments = "arguments" ∷ []
dump_exn key_error = "key" ∷ []
dump_exn value_error = "value" ∷ []
dump_exn runtime_error = "runtime" ∷ []
dump_exn improperly_configured = "configured" ∷ []
dump_exn not_connected = "connected" ∷ []
dump_exn could_not_submit = "submit" ∷ []
dump_exn not_implemented = "implemented" ∷ []
dump_exn type_error = "type" ∷ []
dump_exn attribute_error = "attribute" ∷ []
dump_exn (revoked_error i) = "revoked" ∷ unary i ∷ []
dump_exn (result_failed i) = "failed" ∷ unary i ∷ []
dump_exn (result_value_lost i) = "value lost" ∷ unary i ∷ []
dump_exn (result_lost i) = "lost" ∷ unary i ∷ []
dump_exn (too_many_retries i a m) = "retries" ∷ unary i ∷ unary a ∷ unary m ∷ []
dump_exn (parent_missing i) = "parent" ∷ unary i ∷ []
dump_exn (parent_revoked i) = "parent revoked" ∷ unary i ∷ []
dump_exn (unknown_task n) = "task" ∷ n ∷ []
dump_exn (queue_not_found n) = "queue" ∷ n ∷ []

abbrev bare : String → Exn
bare t =
    if t == "not ready"
    then result_not_ready
    else if t == "pause"
    then pause
    else if t == "cancelled"
    then cancelled_error
    else if t == "timeout"
    then timeout_error
    else if t == "recursion"
    then recursion_error
    else if t == "arguments"
    then invalid_task_arguments
    else if t == "key"
    then key_error
    else if t == "value"
    then value_error
    else if t == "runtime"
    then runtime_error
    else if t == "configured"
    then improperly_configured
    else if t == "connected"
    then not_connected
    else if t == "submit"
    then could_not_submit
    else if t == "type"
    then type_error
    else if t == "attribute"
    then attribute_error
    else not_implemented

abbrev about : String → String → Exn
about t s =
    if t == "plain"
    then plain s
    else if t == "user"
    then user s
    else if t == "queue"
    then queue_not_found s
    else if t == "task"
    then unknown_task s
    else if t == "revoked"
    then revoked_error (len s)
    else if t == "failed"
    then result_failed (len s)
    else if t == "value lost"
    then result_value_lost (len s)
    else if t == "lost"
    then result_lost (len s)
    else if t == "parent"
    then parent_missing (len s)
    else parent_revoked (len s)

abbrev load_exn : List String → Exn
load_exn (t ∷ []) = bare t
load_exn (t ∷ s ∷ []) = about t s
load_exn (t ∷ i ∷ a ∷ m ∷ []) = too_many_retries (len i) (len a) (len m)
load_exn _ = pause

load-dump_exn : (e : Exn) → load_exn (dump_exn e) ≡ e
load-dump_exn (plain t) = refl
load-dump_exn (user t) = refl
load-dump_exn result_not_ready = refl
load-dump_exn pause = refl
load-dump_exn type_error = refl
load-dump_exn attribute_error = refl
load-dump_exn cancelled_error = refl
load-dump_exn timeout_error = refl
load-dump_exn recursion_error = refl
load-dump_exn invalid_task_arguments = refl
load-dump_exn key_error = refl
load-dump_exn value_error = refl
load-dump_exn runtime_error = refl
load-dump_exn improperly_configured = refl
load-dump_exn not_connected = refl
load-dump_exn could_not_submit = refl
load-dump_exn not_implemented = refl
load-dump_exn (revoked_error i) = ap revoked_error (len-unary i)
load-dump_exn (result_failed i) = ap result_failed (len-unary i)
load-dump_exn (result_value_lost i) = ap result_value_lost (len-unary i)
load-dump_exn (result_lost i) = ap result_lost (len-unary i)
load-dump_exn (too_many_retries i a m) = rw (len-unary i, len-unary a, len-unary m) refl
load-dump_exn (parent_missing i) = ap parent_missing (len-unary i)
load-dump_exn (parent_revoked i) = ap parent_revoked (len-unary i)
load-dump_exn (unknown_task n) = refl
load-dump_exn (queue_not_found n) = refl

abbrev tail : String → String
tail String.[] = ""
tail (String.◌∷◌ a s) = s

abbrev dump_option : Option String → String
dump_option none = ""
dump_option (some s) = String.◌∷◌ "s" s

abbrev load_option : String → Option String
load_option String.[] = none
load_option (String.◌∷◌ a s) = some s

load-dump_option : (o : Option String) → load_option (dump_option o) ≡ o
load-dump_option none = refl
load-dump_option (some s) = refl

abbrev dump_raw : Option Exn → List String
dump_raw none = []
dump_raw (some e) = "some" ∷ dump_exn e

abbrev load_raw : List String → Option Exn
load_raw [] = none
load_raw (t ∷ more) = some (load_exn more)

load-dump_raw : (o : Option Exn) → load_raw (dump_raw o) ≡ o
load-dump_raw none = refl
load-dump_raw (some e) = ap some (load-dump_exn e)

abbrev dump_fields : Value → List String
dump_fields Value.null = "null" ∷ []
dump_fields (Value.json t) = "json" ∷ t ∷ []
dump_fields (Value.info i) =
    i.name ∷ i.message ∷ i.traceback ∷ dump_option i.raw_data_encoding ∷ dump_raw i.raw_data

abbrev load_fields : List String → Value
load_fields (k ∷ t ∷ []) = Value.json t
load_fields (n ∷ m ∷ t ∷ e ∷ raw) = Value.info (record {
  name = n;
  message = m;
  traceback = t;
  raw_data = load_raw raw;
  raw_data_encoding = load_option e;
})
load_fields _ = Value.null

load-dump_fields : (v : Value) → load_fields (dump_fields v) ≡ v
load-dump_fields Value.null = refl
load-dump_fields (Value.json t) = refl
load-dump_fields (Value.info i) =
    rw (load-dump_raw i.raw_data, load-dump_option i.raw_data_encoding) refl

abbrev load_holder : List String → Option ValueHolder
load_holder [] = none
load_holder (t ∷ v) = some (record { value_type = t; raw_value = load_fields v })

abbrev dumps : Json → String
dumps null = "null"
dumps (number n) = String.◌∷◌ "#" (unary n)
dumps (text t) = String.◌∷◌ "t" t
dumps (other t) = String.◌∷◌ "o" t

abbrev loads : String → Json
loads String.[] = null
loads (String.◌∷◌ a s) =
    let k = String.◌∷◌ a "" in
    if k == "n"
    then null
    else if k == "#"
    then number (len s)
    else if k == "t"
    then text s
    else other s

abbrev time_text : Json → Option ℕ
time_text (text t) = some (len t)
time_text _ = none

abbrev state_text : Json → Option ResultState
state_text (text t) =
    if t == "PENDING"
    then some pending
    else if t == "RUNNING"
    then some running
    else if t == "SUSPENDED"
    then some suspended
    else if t == "SUCCESS"
    then some success
    else if t == "FAILURE"
    then some failure
    else if t == "REVOKED"
    then some revoked
    else some invalid
state_text _ = none

abbrev plain_text : Json → Option String
plain_text (text t) = some t
plain_text _ = none

abbrev plain_number : Json → Option ℕ
plain_number (number n) = some n
plain_number _ = none

abbrev pub codec : Codec
codec = record {
  dumps = dumps;
  loads = loads;
  dump_value = λ v. pack (dump_fields v);
  load_value = λ s. load_fields (unpack s);
  dump_holder = λ h. pack (h.value_type ∷ dump_fields h.raw_value);
  load_holder = λ s. load_holder (unpack s);
  compress = λ s. String.◌∷◌ "z" s;
  decompress = tail;
  show_id = unary;
  show_time = unary;
  valid_text = plain_text;
  valid_number = plain_number;
  valid_state = state_text;
  valid_id = time_text;
  valid_time = time_text;
  to_bytes = unary;
  from_bytes = len;
}

loads-dumps : (j : Json) → loads (dumps j) ≡ j
loads-dumps null = refl
loads-dumps (number n) = ap number (len-unary n)
loads-dumps (text t) = refl
loads-dumps (other t) = refl

state_text_name : (s : ResultState) → state_text (text (state_name s)) ≡ some s
unfolding state_name
state_text_name pending = refl
state_text_name running = refl
state_text_name suspended = refl
state_text_name success = refl
state_text_name failure = refl
state_text_name revoked = refl
state_text_name invalid = refl

pub codec-IsFaithful : IsFaithful codec
codec-IsFaithful = record {
  loads-dumps = loads-dumps;
  load-dump_value = λ v json. ap load_fields (unpack-pack (dump_fields v)) ∙ load-dump_fields v;
  dumps_null = refl;
  load-dump_holder = λ h.
      ap load_holder (unpack-pack (h.value_type ∷ dump_fields h.raw_value))
      ∙ rw (load-dump_fields h.raw_value) refl;
  decompress-compress = λ s. refl;
  valid_text_text = λ s. refl;
  valid_number_number = λ n. refl;
  valid_state_name = state_text_name;
  valid_id-show_id = λ i. ap some (len-unary i);
  valid_time-show_time = λ t. ap some (len-unary t);
  show_id_plain = unary_plain;
  from-to_bytes = len-unary;
}
