-- ===== src/Backend/Redis/Views/Entries.antt =====
-- Setting metadata and adding children change what is read of those alone.
use project_mognet.Prelude.{
  length, ℕ, ◌<◌, ◌≡◌, refl, ap, ◌∙◌, String, true, false, ◌||◌, Option, none, some, List, [], ◌∷◌,
  arith, if◌then◌else◌, contains, All, Bool-cases, inl, inr,
}
use project_mognet.Redis.{Redis, over}
use project_mognet.Prelude.Dict
use project_mognet.Prelude.Dict.{Dict}
use project_mognet.Prelude.Eq.{nat_eq, string_eq, ◌==◌}
use project_mognet.Model.Value.{Value}
use project_mognet.Backend.Redis.Encoding.{Codec, IsFaithful, encode_children, dict_to_json_dict}
use project_mognet.Backend.Redis.Encoding.RoundTrip.{
  read, read-over, lookup-decode_json_dict, lookup-dict_to_json_dict,
}
use project_mognet.Backend.Redis.Keys.{suffix}
use project_mognet.Backend.Redis.{
  Settings, format_key, children_key, metadata_key, add_children, get_metadata, set_metadata,
  iterate_children_ids,
}
use project_mognet.Backend.View.{children_added, metadata_set, change, View_ext, is_json}
use project_mognet.Backend.Redis.Members.{contains-decode_children}
use project_mognet.Backend.Redis.Views.{IsLasting, view}
use project_mognet.Backend.Redis.Views.Writes.{
  Same, IsPositive, Same-join, members-join, get-Same, get_value-Same, iterate_children_ids-same,
  get_metadata-Same,
}
use project_mognet.Backend.Redis.Views.Parts.{apart, alike, keeps_part, keeps_other, reads}

module _ (c : Codec) (faithful : IsFaithful c) (settings : Settings) (lasting : IsLasting settings)
    (redis : Redis) where
  open redis use {Store, exists, hgetall, members, hset, sadd, expire}

  result_kept : IsPositive c settings redis settings.result_ttl
  result_kept = lasting.result_ttl_positive

  value_kept : IsPositive c settings redis settings.result_value_ttl
  value_kept = lasting.result_value_ttl_positive

  lookup-get_metadata :
      (j : ℕ) (k : String) (s : Store)
      → Dict.lookup k (get_metadata c settings redis j s)
        ≡ read c.load_value (Dict.lookup k (hgetall (metadata_key c settings j) s))
  unfolding get_metadata
  lookup-get_metadata j k s =
      lookup-decode_json_dict c.dump_value c.load_value k (hgetall (metadata_key c settings j) s)

  writable :
      (kwargs : Dict String Value)
      → All (λ entry. is_json (entry.1) ≡ true) kwargs
      → All (λ entry. c.load_value (c.dump_value (entry.1)) ≡ entry.1) kwargs
  writable [] json = tt
  writable ((k, v) ∷ kwargs) (is, json) = (faithful.load-dump_value v is, writable kwargs json)

  lookup-set_metadata :
      (id j : ℕ) (k : String) (kwargs : Dict String Value) (s : Store)
      → All (λ entry. is_json (entry.1) ≡ true) kwargs
      → Dict.lookup k (get_metadata c settings redis j (set_metadata c settings redis id kwargs s))
        ≡ (if id == j
            then over (Dict.lookup k kwargs) (Dict.lookup k (get_metadata c settings redis j s))
            else Dict.lookup k (get_metadata c settings redis j s))
  unfolding set_metadata
  lookup-set_metadata id j k [] s json = unfold Dict.lookup in ground arith
  lookup-set_metadata id j k (kwarg ∷ kwargs) s json =
      let m = dict_to_json_dict c.dump_value (kwarg ∷ kwargs) in
      let filled : 0 < length m = unfold dict_to_json_dict in omega arith in
      let part : Option String = some "metadata" in
      let t = set_metadata c settings redis id (kwarg ∷ kwargs) s in
      let old = hgetall (metadata_key c settings j) s in
      elim (Bool-cases (id == j)) [
        | inl same ↦
            rw
              (
                same,
                lookup-get_metadata j k t,
                reads c faithful settings redis settings.result_ttl result_kept id part m filled s j
                    same k,
                read-over c.load_value (Dict.lookup k m) (Dict.lookup k old),
                lookup-dict_to_json_dict c.dump_value c.load_value k (kwarg ∷ kwargs)
                    (writable (kwarg ∷ kwargs) json),
                ← lookup-get_metadata j k s,
              )
              refl
        | inr other ↦ rw (other) (
            get_metadata-Same c settings redis s t j k (
              keeps_other c faithful settings redis settings.result_ttl result_kept id part m filled
                s j other))
      ]

  pub view-set_metadata :
      (id : ℕ) (kwargs : Dict String Value) (s : Store)
      → All (λ entry. is_json (entry.1) ≡ true) kwargs
      → view c settings redis (set_metadata c settings redis id kwargs s)
        ≡ change (metadata_set id kwargs) (view c settings redis s)
  unfolding view change set_metadata
  view-set_metadata id [] s json =
      View_ext (view c settings redis s) (change (metadata_set id []) (view c settings redis s))
        ((λ j. refl), (λ j. refl), (λ j x. refl), (λ j k. lookup-set_metadata id j k [] s json))
  view-set_metadata id (kwarg ∷ kwargs) s json =
      let t = set_metadata c settings redis id (kwarg ∷ kwargs) s in
      let m = dict_to_json_dict c.dump_value (kwarg ∷ kwargs) in
      let filled : 0 < length m = unfold dict_to_json_dict in omega arith in
      let keeps : (j : ℕ) (sub : Option String)
          → (suffix (some "metadata") == suffix sub) ≡ false
          → Same c settings redis (format_key c settings j sub) s t =
        keeps_part c faithful settings redis settings.result_ttl result_kept id (some "metadata") m
          filled s in
      View_ext (view c settings redis t)
        (change (metadata_set id (kwarg ∷ kwargs)) (view c settings redis s))
        (
          (λ j. get-Same c settings redis s t j (keeps j none refl)),
          (λ j. get_value-Same c settings redis s t j (keeps j (some "value") refl)),
          (λ j x.
              ap (λ ids. contains x ids)
                (iterate_children_ids-same c settings redis s t j
                  (keeps j (some "children") refl).same_members)),
          (λ j k. lookup-set_metadata id j k (kwarg ∷ kwargs) s json),
        )

  pub children-add_children :
      (id j x : ℕ) (ids : List ℕ) (s : Store)
      → contains x
          (iterate_children_ids c settings redis j (add_children c settings redis id ids s))
        ≡ (contains x (iterate_children_ids c settings redis j s)
            || (if id == j then contains x ids else false))
  unfolding add_children
  children-add_children id j x [] s = unfold contains in ground arith
  children-add_children id j x (child ∷ ids) s =
      unfold iterate_children_ids in
      contains-decode_children c faithful (child ∷ ids) (id == j)
        (members (children_key c settings j) s)
        (members (children_key c settings j) (add_children c settings redis id (child ∷ ids) s))
        (λ raw.
          let raws = encode_children c (child ∷ ids) in
          members-join c settings redis settings.result_ttl result_kept (children_key c settings id)
            (children_key c settings j) s raws raw
          ∙ ap
              (λ b.
                contains raw (members (children_key c settings j) s)
                || (if b then contains raw raws else false))
              (alike c faithful settings redis id j (some "children")))
        x

  pub view-add_children :
      (id : ℕ) (ids : List ℕ) (s : Store)
      → view c settings redis (add_children c settings redis id ids s)
        ≡ change (children_added id ids) (view c settings redis s)
  unfolding view change add_children
  view-add_children id [] s =
      View_ext (view c settings redis s) (change (children_added id []) (view c settings redis s))
        ((λ j. refl), (λ j. refl), (λ j x. children-add_children id j x [] s), (λ j k. refl))
  view-add_children id (child ∷ ids) s =
      let t = add_children c settings redis id (child ∷ ids) s in
      let keeps : (j : ℕ) (sub : Option String)
          → (suffix (some "children") == suffix sub) ≡ false
          → Same c settings redis (format_key c settings j sub) s t =
        λ j sub e.
          Same-join c settings redis settings.result_ttl result_kept (children_key c settings id)
            (format_key c settings j sub) s (encode_children c (child ∷ ids))
            (apart c faithful settings redis id j (some "children") sub e) in
      View_ext (view c settings redis t)
        (change (children_added id (child ∷ ids)) (view c settings redis s))
        (
          (λ j. get-Same c settings redis s t j (keeps j none refl)),
          (λ j. get_value-Same c settings redis s t j (keeps j (some "value") refl)),
          (λ j x. children-add_children id j x (child ∷ ids) s),
          (λ j k. get_metadata-Same c settings redis s t j k (keeps j (some "metadata") refl)),
        )
