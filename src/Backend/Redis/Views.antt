-- ===== src/Backend/Redis/Views.antt =====
-- What can be read of a Redis backend, and the calls that change it.
pub mod Writes
pub mod Parts
pub mod Results
pub mod Entries
pub mod Agreement
use mathlib.Core.Path.{fun_ext}
use project_mognet.Prelude.{
  ℕ, ◌<◌, ◌≡◌, refl, ap, sym, ◌∙◌, String, Bool, true, false, ◌&&◌, ◌||◌, Option, none, some, List,
  [], ◌∷◌, arith, if◌then◌else◌, contains, All, Bool_ext, Bool-cases, inl, inr,
}
use project_mognet.Redis.{Redis, over}
use project_mognet.Prelude.Dict
use project_mognet.Prelude.Dict.{Dict}
use project_mognet.Prelude.Eq.{nat_eq, string_eq, ◌==◌, ==_refl, ==_eq}
use project_mognet.Model.Value.{Value}
use project_mognet.Backend.Memory.{Answer, ok, raised}
use project_mognet.Backend.Redis.Encoding.{
  Codec, IsFaithful, Json, encode_result, decode_result, encode_result_value, decode_result_value,
  encode_children, dict_to_json_dict, decode_json_dict,
}
use project_mognet.Backend.Redis.Encoding.RoundTrip.{
  read, read-over, lookup-decode_json_dict, lookup-dict_to_json_dict, decode_result-encode_result,
  decode_result_value-encode_result_value, decode_result_cong, decode_result_value_cong,
}
use project_mognet.Backend.Redis.Keys.{suffix, format_key_same}
use project_mognet.Backend.Redis.{
  Settings, format_key, get, set, add_children, get_value, set_value, get_metadata, set_metadata,
  iterate_children_ids, expire_if, decode_children, found,
}
use project_mognet.Backend.View.{
  View, Change, saved, value_saved, children_added, metadata_set, change, change_all, IsCall,
  View_ext,
}

-- Times to live are positive.
pub record IsLasting (settings : Settings) : Type 0 where
  pub result_ttl_positive : (ttl : ℕ) → settings.result_ttl ≡ some ttl → 0 < ttl
  pub result_value_ttl_positive : (ttl : ℕ) → settings.result_value_ttl ≡ some ttl → 0 < ttl

module _ (c : Codec) (settings : Settings) (redis : Redis) where
  open redis use {Store, exists, hgetall, members, hset, sadd, expire}

  -- What can be read of a backend.
  unfoldable pub view : Store → View
  unfolding get get_value iterate_children_ids get_metadata
  view s = record {
    result = λ j. get c settings redis j s;
    value = λ j. get_value c settings redis j s;
    child = λ j x. contains x (iterate_children_ids c settings redis j s);
    metadata = λ j k. Dict.lookup k (get_metadata c settings redis j s);
  }

  unfoldable pub perform : Change → Store → Store
  unfolding set set_value add_children set_metadata
  perform (saved id r) s = set c settings redis id r s
  perform (value_saved id h) s = set_value c settings redis id h s
  perform (children_added id ids) s = add_children c settings redis id ids s
  perform (metadata_set id kwargs) s = set_metadata c settings redis id kwargs s

  unfoldable pub perform_all : List Change → Store → Store
  unfolding perform
  perform_all [] s = s
  perform_all (ch ∷ more) s = perform_all more (perform ch s)
