-- ===== src/Backend/Redis/Views/Writes.antt =====
-- What the commands that the backend sends change and keep, each with its time to live, and that
-- what is read of a result depends on its own keys only.
use project_mognet.Prelude.{
  length, ℕ, ◌<◌, ◌≡◌, refl, ap, ◌∙◌, String, true, false, ◌||◌, Option, none, some, List,
  if◌then◌else◌, contains,
}
use project_mognet.Redis.{Redis, over}
use project_mognet.Prelude.Dict
use project_mognet.Prelude.Dict.{Dict}
use project_mognet.Prelude.Eq.{nat_eq, string_eq, ◌==◌}
use project_mognet.Backend.Redis.Encoding.{Codec, decode_result}
use project_mognet.Backend.Redis.Encoding.RoundTrip.{
  lookup-decode_json_dict, decode_result_cong, decode_result_value_cong,
}
use project_mognet.Backend.Redis.{
  Settings, key_of, value_key, children_key, metadata_key, get, get_value, get_metadata,
  iterate_children_ids, expire_if,
}

module _ (c : Codec) (settings : Settings) (redis : Redis) where
  open redis use {Store, exists, hgetall, members, hset, sadd, expire}

  -- Whether two states of the server read the same at a key.
  pub record Same (key : String) (s t : Store) : Type 0 where
    pub same_exists : exists key t ≡ exists key s
    pub same_fields : (f : String) → Dict.lookup f (hgetall key t) ≡ Dict.lookup f (hgetall key s)
    pub same_members : members key t ≡ members key s

  abbrev pub IsPositive : Option ℕ → Type 0
  IsPositive ttl = (n : ℕ) → ttl ≡ some n → 0 < n

  pub Same-expire_if :
      (ttl : Option ℕ) (key other : String) (s : Store)
      → IsPositive ttl
      → Same other s (expire_if c settings redis ttl key s)
  unfolding expire_if
  Same-expire_if none key other s positive = record {
    same_exists = refl;
    same_fields = λ f. refl;
    same_members = refl;
  }
  Same-expire_if (some n) key other s positive = record {
    same_exists = redis.exists-expire key other n s (positive n refl);
    same_fields =
        λ f. ap (λ m. Dict.lookup f m) (redis.hgetall-expire key other n s (positive n refl));
    same_members = redis.members-expire key other n s (positive n refl);
  }

  -- A hash that is written, and a set to which members are added, each with its time to live.
  abbrev pub write : Option ℕ → String → Dict String String → Store → Store
  write ttl key m s = expire_if c settings redis ttl key (hset key m s)

  abbrev pub join : Option ℕ → String → List String → Store → Store
  join ttl key raws s = expire_if c settings redis ttl key (sadd key raws s)

  module _ (ttl : Option ℕ) (positive : IsPositive ttl) (key other : String) (s : Store) where
    module _ (m : Dict String String) (filled : 0 < length m) where
      pub Same-write : (key == other) ≡ false → Same other s (write ttl key m s)
      Same-write apart =
          let later = Same-expire_if ttl key other (hset key m s) positive in
          record {
            same_exists =
                later.same_exists
                ∙ redis.exists-hset key other m s filled
                ∙ ap (λ b. if b then true else exists other s) apart;
            same_fields = λ g.
                later.same_fields g
                ∙ redis.hgetall-hset key other g m s
                ∙ ap
                    (λ b.
                      if b
                      then over (Dict.lookup g m) (Dict.lookup g (hgetall other s))
                      else Dict.lookup g (hgetall other s))
                    apart;
            same_members = later.same_members ∙ redis.members-hset key other m s;
          }

      pub members-write : members other (write ttl key m s) ≡ members other s
      members-write =
          let later = Same-expire_if ttl key other (hset key m s) positive in
          later.same_members ∙ redis.members-hset key other m s

      pub exists-write : (key == other) ≡ true → exists other (write ttl key m s) ≡ true
      exists-write alike =
          let later = Same-expire_if ttl key other (hset key m s) positive in
          later.same_exists
          ∙ redis.exists-hset key other m s filled
          ∙ ap (λ b. if b then true else exists other s) alike

      pub hgetall-write :
          (key == other) ≡ true
          → (g : String)
          → Dict.lookup g (hgetall other (write ttl key m s))
            ≡ over (Dict.lookup g m) (Dict.lookup g (hgetall other s))
      hgetall-write alike g =
          let later = Same-expire_if ttl key other (hset key m s) positive in
          later.same_fields g
          ∙ redis.hgetall-hset key other g m s
          ∙ ap
              (λ b.
                if b
                then over (Dict.lookup g m) (Dict.lookup g (hgetall other s))
                else Dict.lookup g (hgetall other s))
              alike

    pub Same-join :
        (raws : List String) → (key == other) ≡ false → Same other s (join ttl key raws s)
    Same-join raws apart =
        let later = Same-expire_if ttl key other (sadd key raws s) positive in
        record {
          same_exists = later.same_exists ∙ redis.exists-sadd key other raws s apart;
          same_fields = λ g.
              later.same_fields g ∙ ap (λ m. Dict.lookup g m) (redis.hgetall-sadd key other raws s);
          same_members = later.same_members ∙ redis.members-sadd_elsewhere key other raws s apart;
        }

    pub members-join :
        (raws : List String) (x : String)
        → contains x (members other (join ttl key raws s))
          ≡ (contains x (members other s) || (if key == other then contains x raws else false))
    members-join raws x =
        let later = Same-expire_if ttl key other (sadd key raws s) positive in
        ap (λ ms. contains x ms) later.same_members ∙ redis.members-sadd key other x raws s

  module _ (s t : Store) where
    pub get-Same :
        (j : ℕ)
        → Same (key_of c settings j) s t
        → get c settings redis j t ≡ get c settings redis j s
    unfolding get decode_result
    get-Same j same =
        rw
          (
            same.same_exists,
            decode_result_cong c (hgetall (key_of c settings j) s) (hgetall (key_of c settings j) t)
                same.same_fields,
          )
          refl

    pub get_value-Same :
        (j : ℕ)
        → Same (value_key c settings j) s t
        → get_value c settings redis j t ≡ get_value c settings redis j s
    unfolding get_value
    get_value-Same j same =
        rw
          (
            same.same_exists,
            decode_result_value_cong c (hgetall (value_key c settings j) s)
                (hgetall (value_key c settings j) t) same.same_fields,
          )
          refl

    pub iterate_children_ids-same :
        (j : ℕ)
        → members (children_key c settings j) t ≡ members (children_key c settings j) s
        → iterate_children_ids c settings redis j t ≡ iterate_children_ids c settings redis j s
    unfolding iterate_children_ids
    iterate_children_ids-same j same = rw (same) refl

    pub get_metadata-Same :
        (j : ℕ) (k : String)
        → Same (metadata_key c settings j) s t
        → Dict.lookup k (get_metadata c settings redis j t)
          ≡ Dict.lookup k (get_metadata c settings redis j s)
    unfolding get_metadata
    get_metadata-Same j k same =
        rw
          (
            lookup-decode_json_dict c.dump_value c.load_value k
                (hgetall (metadata_key c settings j) t),
            lookup-decode_json_dict c.dump_value c.load_value k
                (hgetall (metadata_key c settings j) s),
            same.same_fields k,
          )
          refl
