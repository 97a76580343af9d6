-- ===== src/Backend/Redis/Views/Results.antt =====
-- Saving a result or its value changes what is read of that one alone, to what was saved.
use project_mognet.Prelude.{
  length, ℕ, ◌<◌, ◌≡◌, refl, ap, String, false, Option, none, some, arith, if◌then◌else◌, contains,
  Bool-cases, inl, inr,
}
use project_mognet.Redis.{Redis}
use project_mognet.Prelude.Eq.{nat_eq, string_eq, ◌==◌}
use project_mognet.Model.Value.{ValueHolder}
use project_mognet.Model.Result.{Result}
use project_mognet.Backend.Memory.{ok}
use project_mognet.Backend.Redis.Encoding.{Codec, IsFaithful, encode_result, encode_result_value}
use project_mognet.Backend.Redis.Encoding.RoundTrip.{
  decode_result-encode_result, decode_result_value-encode_result_value,
}
use project_mognet.Backend.Redis.Keys.{suffix}
use project_mognet.Backend.Redis.{
  Settings, format_key, key_of, value_key, get, set, get_value, set_value, found,
}
use project_mognet.Backend.View.{saved, value_saved, change, View_ext}
use project_mognet.Backend.Redis.Views.{IsLasting, view}
use project_mognet.Backend.Redis.Views.Writes.{
  Same, IsPositive, get-Same, get_value-Same, iterate_children_ids-same, get_metadata-Same,
}
use project_mognet.Backend.Redis.Views.Parts.{keeps_part, keeps_other, is_there, reads}

module _ (c : Codec) (faithful : IsFaithful c) (settings : Settings) (lasting : IsLasting settings)
    (redis : Redis) where
  open redis use {Store, exists, hgetall, members, hset, sadd, expire}

  result_kept : IsPositive c settings redis settings.result_ttl
  result_kept = lasting.result_ttl_positive

  value_kept : IsPositive c settings redis settings.result_value_ttl
  value_kept = lasting.result_value_ttl_positive

  pub get-set :
      (id j : ℕ) (r : Result) (s : Store)
      → get c settings redis j (set c settings redis id r s)
        ≡ (if id == j then ok (some r) else get c settings redis j s)
  unfolding set get found
  get-set id j r s =
      let m = encode_result c r in
      let filled : 0 < length m = unfold encode_result in omega arith in
      elim (Bool-cases (id == j)) [
        | inl same ↦
            rw
              (
                same,
                is_there c faithful settings redis settings.result_ttl result_kept id none m filled
                    s j same,
                decode_result-encode_result c faithful r
                    (hgetall (key_of c settings j) (set c settings redis id r s))
                    (hgetall (key_of c settings j) s)
                    (reads c faithful settings redis settings.result_ttl result_kept id none m
                      filled s j same),
              )
              refl
        | inr other ↦ rw (other) (
            get-Same c settings redis s (set c settings redis id r s) j (
              keeps_other c faithful settings redis settings.result_ttl result_kept id none m filled
                s j other))
      ]

  pub view-set :
      (id : ℕ) (r : Result) (s : Store)
      → view c settings redis (set c settings redis id r s)
        ≡ change (saved id r) (view c settings redis s)
  unfolding view change
  view-set id r s =
      let t = set c settings redis id r s in
      let m = encode_result c r in
      let filled : 0 < length m = unfold encode_result in omega arith in
      let keeps : (j : ℕ) (part : String)
          → ("" == suffix (some part)) ≡ false
          → Same c settings redis (format_key c settings j (some part)) s t =
        λ j part e.
          unfold set in
          keeps_part c faithful settings redis settings.result_ttl result_kept id none m filled s j
            (some part) e in
      View_ext (view c settings redis t) (change (saved id r) (view c settings redis s)) (
        (λ j. get-set id j r s),
        (λ j. get_value-Same c settings redis s t j (keeps j "value" refl)),
        (λ j x.
            ap (λ ids. contains x ids)
              (iterate_children_ids-same c settings redis s t j
                (keeps j "children" refl).same_members)),
        (λ j k. get_metadata-Same c settings redis s t j k (keeps j "metadata" refl)),
      )

  pub get_value-set_value :
      (id j : ℕ) (h : ValueHolder) (s : Store)
      → get_value c settings redis j (set_value c settings redis id h s)
        ≡ (if id == j then ok h else get_value c settings redis j s)
  unfolding set_value get_value
  get_value-set_value id j h s =
      let m = encode_result_value c settings.gzip h in
      let filled : 0 < length m = unfold encode_result_value in omega arith in
      let part : Option String = some "value" in
      elim (Bool-cases (id == j)) [
        | inl same ↦
            rw
              (
                same,
                is_there c faithful settings redis settings.result_value_ttl value_kept id part m
                    filled s j same,
              )
              (decode_result_value-encode_result_value c faithful settings.gzip h
                (hgetall (value_key c settings j) (set_value c settings redis id h s))
                (hgetall (value_key c settings j) s)
                (reads c faithful settings redis settings.result_value_ttl value_kept id part m
                  filled s j same))
        | inr other ↦ rw (other) (
            get_value-Same c settings redis s (set_value c settings redis id h s) j (
              keeps_other c faithful settings redis settings.result_value_ttl value_kept id part m
                filled s j other))
      ]

  pub view-set_value :
      (id : ℕ) (h : ValueHolder) (s : Store)
      → view c settings redis (set_value c settings redis id h s)
        ≡ change (value_saved id h) (view c settings redis s)
  unfolding view change
  view-set_value id h s =
      let t = set_value c settings redis id h s in
      let m = encode_result_value c settings.gzip h in
      let filled : 0 < length m = unfold encode_result_value in omega arith in
      let keeps : (j : ℕ) (sub : Option String)
          → (suffix (some "value") == suffix sub) ≡ false
          → Same c settings redis (format_key c settings j sub) s t =
        λ j sub e.
          unfold set_value in
          keeps_part c faithful settings redis settings.result_value_ttl value_kept id
            (some "value") m filled s j sub e in
      View_ext (view c settings redis t) (change (value_saved id h) (view c settings redis s)) (
        (λ j. get-Same c settings redis s t j (keeps j none refl)),
        (λ j. get_value-set_value id j h s),
        (λ j x.
            ap (λ ids. contains x ids)
              (iterate_children_ids-same c settings redis s t j
                (keeps j (some "children") refl).same_members)),
        (λ j k. get_metadata-Same c settings redis s t j k (keeps j (some "metadata") refl)),
      )
