-- ===== src/Backend/Redis/Encoding/RoundTrip.antt =====
-- What is read back from the hashes of a result and of its value.
use project_mognet.Prelude.{
  ◌≡◌, refl, ap, sym, ◌∙◌, ℕ, String, Bool, true, false, Option, none, some, [], ◌∷◌, arith, All,
  Bool-cases, inl, inr, if◌then◌else◌,
}
use mathlib.Core.Path.{fun_ext}
use project_mognet.Redis.{over}
use project_mognet.Prelude.Dict
use project_mognet.Prelude.Dict.{Dict}
use project_mognet.Prelude.Eq.{string_eq, ◌==◌, ==_refl, ==_eq}
use project_mognet.Model.Value.{ValueHolder}
use project_mognet.Model.Result.{Result, fresh}
use project_mognet.Backend.Memory.{ok}
use project_mognet.Backend.Redis.Encoding.{
  Codec, IsFaithful, Json, null, text, number, as_optional, present, optional, checked, applied,
  field, fields, make, encode_result, validate_result, decode_result, decode_json_dict,
  dict_to_json_dict, encode_result_value, decode_result_value, decode_parts, json_bytes, is_given,
  id_json, time_json, state_name,
}

-- A value of a dictionary, read.
abbrev pub read : {A : Type 0} → (String → A) → Option String → Option A
read loads none = none
read loads (some raw) = some (loads raw)

module _ {A : Type 0} (dumps : A → String) (loads : String → A) where
  pub lookup-decode_json_dict :
      (k : String) (m : Dict String String)
      → Dict.lookup k (decode_json_dict loads m) ≡ read loads (Dict.lookup k m)
  unfolding Dict.lookup decode_json_dict
  lookup-decode_json_dict k [] = refl
  lookup-decode_json_dict k ((j, v) ∷ m) = ground (arith, lookup-decode_json_dict k m)

  -- What was written is read back, of a dictionary whose values are all ones that are.
  pub lookup-dict_to_json_dict :
      (k : String) (m : Dict String A)
      → All (λ entry. loads (dumps (entry.1)) ≡ entry.1) m
      → read loads (Dict.lookup k (dict_to_json_dict dumps m)) ≡ Dict.lookup k m
  unfolding Dict.lookup dict_to_json_dict
  lookup-dict_to_json_dict k [] h = refl
  lookup-dict_to_json_dict k ((j, v) ∷ m) (same, h) = ground (arith, lookup-dict_to_json_dict k m h)

text≢null : {s : String} → ¬ (text s ≡ null)
text≢null e = cc

pub read-over :
    {A : Type 0} (loads : String → A) (new old : Option String)
    → read loads (over new old) ≡ over (read loads new) (read loads old)
read-over loads none old = refl
read-over loads (some raw) old = refl

module _ (c : Codec) (faithful : IsFaithful c) where
  open faithful use {
    loads-dumps, dumps_null, load-dump_holder, decompress-compress, valid_text_text,
    valid_number_number, valid_state_name, valid_id-show_id, valid_time-show_time, from-to_bytes,
  }

  fields_faithful : (m : Dict String Json) → All (λ entry. c.loads (c.dumps (entry.1)) ≡ entry.1) m
  fields_faithful [] = tt
  fields_faithful ((k, j) ∷ m) = (loads-dumps j, fields_faithful m)

  valid_optional :
      {A : Type 0} (valid : Json → Option A) (write : A → Json)
      → ((a : A) → valid (write a) ≡ some a)
      → ((a : A) → as_optional valid (write a) ≡ present (valid (write a)))
      → (o : Option A) → as_optional valid (optional c write o) ≡ some o
  unfolding as_optional optional present
  valid_optional valid write reads plain none = refl
  valid_optional valid write reads plain (some a) = rw (plain a, reads a) refl

  optional_text : (o : Option String) → as_optional c.valid_text (optional c text o) ≡ some o
  optional_text = valid_optional c.valid_text text valid_text_text (λ a. unfold as_optional in refl)

  valid_id_json : (i : ℕ) → c.valid_id (id_json c i) ≡ some i
  unfolding id_json
  valid_id_json = valid_id-show_id

  optional_id : (o : Option ℕ) → as_optional c.valid_id (optional c (id_json c) o) ≡ some o
  unfolding id_json
  optional_id =
      valid_optional c.valid_id (id_json c) valid_id-show_id (λ a. unfold as_optional in refl)

  optional_time : (o : Option ℕ) → as_optional c.valid_time (optional c (time_json c) o) ≡ some o
  unfolding time_json
  optional_time =
      valid_optional c.valid_time (time_json c) valid_time-show_time
        (λ a. unfold as_optional in refl)

  validate-fields : (r : Result) → validate_result c (λ k. Dict.lookup k (fields c r)) ≡ some r
  unfolding validate_result fields field applied Dict.lookup make
  validate-fields r =
      rw
        (
          valid_id_json r.id,
          optional_text r.name,
          valid_state_name r.state,
          valid_number_number r.number_of_starts,
          valid_number_number r.number_of_stops,
          optional_id r.parent_id,
          optional_time r.created,
          optional_time r.started,
          optional_time r.finished,
          optional_text r.node_id,
          optional_text r.request_kwargs_repr,
        )
        refl

  validate_holding :
      (r : Result) (f : String → Option Json)
      → ((k : String) (j : Json) → Dict.lookup k (fields c r) ≡ some j → f k ≡ some j)
      → validate_result c f ≡ some r
  unfolding validate_result field applied fields Dict.lookup make
  validate_holding r f holds =
      rw
        (
          holds "id" (id_json c r.id) refl,
          holds "name" (optional c text r.name) refl,
          holds "state" (text (state_name r.state)) refl,
          holds "number_of_starts" (number r.number_of_starts) refl,
          holds "number_of_stops" (number r.number_of_stops) refl,
          holds "parent_id" (optional c (id_json c) r.parent_id) refl,
          holds "created" (optional c (time_json c) r.created) refl,
          holds "started" (optional c (time_json c) r.started) refl,
          holds "finished" (optional c (time_json c) r.finished) refl,
          holds "node_id" (optional c text r.node_id) refl,
          holds "request_kwargs_repr" (optional c text r.request_kwargs_repr) refl,
        )
        (validate-fields r)

  -- A hash that holds the id alone reads as a result with the defaults.
  pub decode_result-claimed :
      (i : ℕ) (m : Dict String String)
      → ((g : String)
          → Dict.lookup g m ≡ (if "id" == g then some (c.dumps (text (c.show_id i))) else none))
      → decode_result c m ≡ ok (fresh i)
  unfolding decode_result checked validate_result field applied make
  decode_result-claimed i m claimed =
      let reads : (g : String)
          → Dict.lookup g (decode_json_dict c.loads m)
            ≡ read c.loads (if "id" == g then some (c.dumps (text (c.show_id i))) else none) =
        λ g. lookup-decode_json_dict c.dumps c.loads g m ∙ ap (read c.loads) (claimed g) in
      rw
        (
          reads "id",
          reads "name",
          reads "state",
          reads "number_of_starts",
          reads "number_of_stops",
          reads "parent_id",
          reads "created",
          reads "started",
          reads "finished",
          reads "node_id",
          reads "request_kwargs_repr",
          loads-dumps (text (c.show_id i)),
          valid_id-show_id i,
        )
        refl

  -- A hash over which a result was written reads as that result, whatever it held before.
  pub decode_result-encode_result :
      (r : Result) (m old : Dict String String)
      → ((k : String)
          → Dict.lookup k m ≡ over (Dict.lookup k (encode_result c r)) (Dict.lookup k old))
      → decode_result c m ≡ ok r
  unfolding decode_result checked encode_result
  decode_result-encode_result r m old written =
      rw
        (validate_holding r (λ k. Dict.lookup k (decode_json_dict c.loads m))
          (λ k j e.
            let raws = dict_to_json_dict c.dumps (fields c r) in
            let same =
              lookup-dict_to_json_dict c.dumps c.loads k (fields c r)
                (fields_faithful (fields c r)) in
            lookup-decode_json_dict c.dumps c.loads k m
            ∙ ap (read c.loads) (written k)
            ∙ read-over c.loads (Dict.lookup k raws) (Dict.lookup k old)
            ∙ ap (λ o. over o (read c.loads (Dict.lookup k old))) (same ∙ e)))
        refl

  null_is_not_gzip : ("null" == c.dumps (text "gzip")) ≡ false
  null_is_not_gzip = elim (Bool-cases ("null" == c.dumps (text "gzip"))) [
    | inr other ↦ other
    | inl same ↦
        let e = ==_eq "null" (c.dumps (text "gzip")) same in
        absurd (
          text≢null (
            sym (loads-dumps (text "gzip"))
            ∙ ap c.loads (sym e ∙ sym dumps_null)
            ∙ loads-dumps null))
  ]

  -- The holder of a value is read back as it was written, with and without compression.
  pub decode_result_value-encode_result_value :
      (gzip : Bool) (h : ValueHolder) (m old : Dict String String)
      → ((k : String)
          → Dict.lookup k m
            ≡ over (Dict.lookup k (encode_result_value c gzip h)) (Dict.lookup k old))
      → decode_result_value c m ≡ ok h
  unfolding decode_result_value decode_parts encode_result_value checked is_given json_bytes
      Dict.lookup
  decode_result_value-encode_result_value true h m old written =
      rw
        (
          written "contents",
          written "content_type",
          written "encoding",
          ==_refl (c.dumps (text "application/json")),
          ==_refl (c.dumps (text "gzip")),
          decompress-compress (c.dump_holder h),
          load-dump_holder h,
        )
        refl
  decode_result_value-encode_result_value false h m old written =
      rw
        (
          written "contents",
          written "content_type",
          written "encoding",
          ==_refl (c.dumps (text "application/json")),
          null_is_not_gzip,
          load-dump_holder h,
        )
        refl

-- Decoding depends on what is read of the fields only.
module _ (c : Codec) (m m' : Dict String String)
    (same : (k : String) → Dict.lookup k m' ≡ Dict.lookup k m) where
  pub decode_result_cong : decode_result c m' ≡ decode_result c m
  unfolding decode_result
  decode_result_cong =
      ap (λ f. checked (validate_result c f))
        (fun_ext (λ k.
          lookup-decode_json_dict c.dumps c.loads k m'
          ∙ ap (read c.loads) (same k)
          ∙ sym (lookup-decode_json_dict c.dumps c.loads k m)))

  pub decode_result_value_cong : decode_result_value c m' ≡ decode_result_value c m
  unfolding decode_result_value
  decode_result_value_cong = rw (same "contents", same "encoding", same "content_type") refl
