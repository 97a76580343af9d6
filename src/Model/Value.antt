-- ===== src/Model/Value.antt =====
-- mognet/exceptions, and the stored values of mognet/model/result.py: `_ExceptionInfo`,
-- `ResultValueHolder` and the name of a type.
use project_mognet.Prelude.Eq.{◌==◌, string_eq}
use project_mognet.Prelude.{◌≡◌, refl, ℕ, String, Bool, Option, none, some, if◌then◌else◌}

-- The exceptions that the code raises or catches. `user` is any exception of a task's own.
pub data Exn : Type 0 where
  plain user : (text : String) → Exn
  result_not_ready pause cancelled_error timeout_error recursion_error : Exn
  invalid_task_arguments key_error value_error runtime_error improperly_configured : Exn
  type_error attribute_error : Exn
  not_connected could_not_submit not_implemented : Exn
  revoked_error result_failed result_value_lost result_lost : (id : ℕ) → Exn
  too_many_retries : (id actual_retries max_retries : ℕ) → Exn
  parent_missing parent_revoked : (id : ℕ) → Exn
  unknown_task queue_not_found : (name : String) → Exn

-- `raw_data` is pickled data, told by the exception that was pickled.
pub record ExceptionInfo : Type 0 where
  pub name : String
  pub message : String
  pub traceback : String
  pub raw_data : Option Exn
  pub raw_data_encoding : Option String

-- A value as it is stored: `None`, JSON, or the record of an exception.
pub data Value : Type 0 where
  null : Value
  json : (text : String) → Value
  info : ExceptionInfo → Value

-- What `set_raw_value` is given: a value, or an exception object.
pub data Given : Type 0 where
  value : Value → Given
  exception : Exn → Given

-- What the Python runtime and its libraries supply: the serialized name of the type of a value or
-- an exception, `str(exc)`, the formatted traceback, whether `pickle.dumps` accepts an exception, what
-- raising `pickle.loads` of its data raises (the exception again, another one, or an error of the
-- loading), and the validation of a raw value against a named type.
pub record Python : Type 0 where
  pub type_name : Value → String
  pub exception_name : Exn → String
  pub message : Exn → String
  pub traceback : Exn → String
  pub picklable : Exn → Bool
  pub unpickled : Exn → Exn
  pub validate : String → Value → Option Value

abbrev pub pickle_encoding : String
pickle_encoding = "application/python-pickle"

module _ (py : Python) where
  open py use {type_name, exception_name, message, traceback, picklable, validate}

  -- An exception that cannot be pickled is replaced by a plain one with its text.
  unfoldable pub from_exception : Exn → ExceptionInfo
  from_exception exc = record {
    name = exception_name exc;
    message = message exc;
    traceback = traceback exc;
    raw_data = some (if picklable exc then exc else plain (message exc));
    raw_data_encoding = some pickle_encoding;
  }

pub record ValueHolder : Type 0 where
  pub value_type : String
  pub raw_value : Value

-- What raising the property `exception` raises: what unpickling gives, or a plain exception with the
-- message.
unfoldable pub exception_of : Python → ExceptionInfo → Exn
exception_of py i = elim i.raw_data [
  | none ↦ plain i.message
  | some e ↦ elim i.raw_data_encoding [
    | none ↦ plain i.message
    | some encoding ↦ if encoding == pickle_encoding then py.unpickled e else plain i.message
  ]
]

module _ (py : Python) where
  -- `set_raw_value` before it stores: an exception becomes its record, and the holder notes the type.
  unfoldable pub to_value : Given → Value
  unfolding from_exception
  to_value (value v) = v
  to_value (exception exc) = info (from_exception py exc)

  unfoldable pub hold : Given → ValueHolder
  unfolding to_value
  hold given = let v = to_value given in record { value_type = py.type_name v; raw_value = v }

  -- `deserialize`: `none` is a validation error.
  unfoldable pub deserialize : ValueHolder → Option Value
  deserialize h = elim h.raw_value [ null ↦ some null | _ ↦ py.validate h.value_type h.raw_value ]

  -- `ResultValueHolder.not_ready`
  unfoldable pub not_ready : ValueHolder
  unfolding hold
  not_ready = hold (exception result_not_ready)

  -- An exception that is stored and read back is what unpickling gives of it if it can be pickled, and
  -- what it gives of a plain one with its text otherwise.
  pub exception_of-from_exception :
      (exc : Exn)
      → exception_of py (from_exception py exc)
        ≡ py.unpickled (if py.picklable exc then exc else plain (py.message exc))
  unfolding exception_of from_exception
  exception_of-from_exception exc = refl
