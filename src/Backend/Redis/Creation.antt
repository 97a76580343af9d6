-- ===== src/Backend/Redis/Creation.antt =====
-- `get_or_create` of the Redis backend, and waiting for what it created.
use project_mognet.Prelude.{
  ℕ, ◌≡◌, refl, ap, sym, ◌∙◌, String, true, false, ◌&&◌, Option, none, some, List, [], ◌∷◌, arith,
  length, ltb, if◌then◌else◌,
}
use project_mognet.Redis.{Redis, over}
use project_mognet.Prelude.Dict
use project_mognet.Prelude.Dict.{Dict}
use project_mognet.Prelude.Eq.{nat_eq, string_eq, ◌==◌, ==_refl}
use project_mognet.Model.Value.{Python, not_ready, result_value_lost}
use project_mognet.Model.Result.{fresh}
use project_mognet.Backend.Memory.{ok, raised}
use project_mognet.Backend.Redis.Encoding.{
  Codec, IsFaithful, Json, null, encode_result_value, as_optional,
}
use project_mognet.Backend.Redis.Encoding.RoundTrip.{
  decode_result_value-encode_result_value, decode_result-claimed,
}
use project_mognet.Backend.Redis.{
  Settings, key_of, value_key, get, get_or_create, get_value, expire_if, claim_id, hsetnx_all, wait,
  found, round, final, state_of, or_null,
}
use project_mognet.Backend.Redis.Views.{IsLasting}
use project_mognet.Backend.Redis.Views.Writes.{Same, Same-expire_if}
use project_mognet.Backend.Redis.Views.Parts.{apart}

over-none : {A : Type 0} (o : Option A) → over none o ≡ over o none
over-none none = refl
over-none (some a) = refl

module _ (c : Codec) (faithful : IsFaithful c) (settings : Settings) (lasting : IsLasting settings)
    (redis : Redis) (py : Python) where
  open redis use {Store, exists, hgetall, hsetnx}

  id_text : ℕ → String
  id_text id = c.dumps (Json.text (c.show_id id))

  claimed_fields :
      (id : ℕ) (g : String) (s : Store)
      → exists (key_of c settings id) s ≡ false
      → Dict.lookup g (hgetall (key_of c settings id) (claim_id c settings redis id s))
        ≡ (if "id" == g then some (id_text id) else none)
  unfolding claim_id id_text
  claimed_fields id g s absent =
      redis.hgetall-hsetnx (key_of c settings id) (key_of c settings id) "id" g (id_text id) s
      ∙ rw (==_refl (key_of c settings id), redis.hgetall_absent (key_of c settings id) g s absent)
          refl

  claimed_exists :
      (id : ℕ) (s : Store) → exists (key_of c settings id) (claim_id c settings redis id s) ≡ true
  unfolding claim_id id_text
  claimed_exists id s =
      let key = key_of c settings id in
      redis.exists-hsetnx key key "id" (id_text id) s
      ∙ ap (λ b. if b then true else exists key s) (==_refl key)

  claimed_value :
      (id : ℕ) (g : String) (s : Store)
      → exists (value_key c settings id) s ≡ false
      → Dict.lookup g (hgetall (value_key c settings id) (claim_id c settings redis id s)) ≡ none
  unfolding claim_id id_text
  claimed_value id g s absent =
      let key = value_key c settings id in
      redis.hgetall-hsetnx (key_of c settings id) key "id" g (id_text id) s
      ∙ rw (apart c faithful settings redis id id none (some "value") refl)
          (redis.hgetall_absent key g s absent)

  hgetall-hsetnx_all :
      (k j g : String) (m : Dict String String) (s : Store)
      → Dict.lookup g (hgetall j (hsetnx_all c settings redis k m s)) ≡ (
          if k == j
          then over (Dict.lookup g (hgetall j s)) (Dict.lookup g m)
          else Dict.lookup g (hgetall j s))
  unfolding hsetnx_all Dict.lookup
  hgetall-hsetnx_all k j g [] s = ground arith
  hgetall-hsetnx_all k j g ((f, v) ∷ m) s =
      ground (arith, hgetall-hsetnx_all k j g m (hsetnx k f v s), redis.hgetall-hsetnx k j f g v s)

  exists-hsetnx_all :
      (k j : String) (m : Dict String String) (s : Store)
      → exists j (hsetnx_all c settings redis k m s)
        ≡ (if (k == j) && ltb 0 (length m) then true else exists j s)
  unfolding hsetnx_all
  exists-hsetnx_all k j [] s = ground arith
  exists-hsetnx_all k j ((f, v) ∷ m) s =
      ground (arith, exists-hsetnx_all k j m (hsetnx k f v s), redis.exists-hsetnx k j f v s)

  module _ (id : ℕ) (s : Store) where
    abbrev created : Store
    created = (get_or_create c settings redis py id s).1

    abbrev claimed : Store
    claimed = claim_id c settings redis id s

    abbrev kept : Store
    kept =
        expire_if c settings redis settings.result_value_ttl (value_key c settings id)
          (expire_if c settings redis settings.result_ttl (key_of c settings id) claimed)

    kept-Same : (other : String) → Same c settings redis other claimed kept
    kept-Same other =
        let first =
          Same-expire_if c settings redis settings.result_ttl (key_of c settings id) other claimed
            lasting.result_ttl_positive in
        let second =
          Same-expire_if c settings redis settings.result_value_ttl (value_key c settings id) other
            (expire_if c settings redis settings.result_ttl (key_of c settings id) claimed)
            lasting.result_value_ttl_positive in
        record {
          same_exists = second.same_exists ∙ first.same_exists;
          same_fields = λ g. second.same_fields g ∙ first.same_fields g;
          same_members = second.same_members ∙ first.same_members;
        }

    created_key :
        (g : String)
        → Dict.lookup g (hgetall (key_of c settings id) created)
          ≡ Dict.lookup g (hgetall (key_of c settings id) claimed)
    unfolding get_or_create
    created_key g =
        hgetall-hsetnx_all (value_key c settings id) (key_of c settings id) g
          (encode_result_value c settings.gzip (not_ready py)) kept
        ∙ ap
            (λ b.
              if b
              then over (Dict.lookup g (hgetall (key_of c settings id) kept))
                  (Dict.lookup g (encode_result_value c settings.gzip (not_ready py)))
              else Dict.lookup g (hgetall (key_of c settings id) kept))
            (apart c faithful settings redis id id (some "value") none refl)
        ∙ (kept-Same (key_of c settings id)).same_fields g

    created_exists : exists (key_of c settings id) created ≡ true
    unfolding get_or_create
    created_exists =
        let key = key_of c settings id in
        exists-hsetnx_all (value_key c settings id) key
          (encode_result_value c settings.gzip (not_ready py)) kept
        ∙ rw
            (
              apart c faithful settings redis id id (some "value") none refl,
              (kept-Same key).same_exists,
              claimed_exists id s,
            )
            refl

    created_value :
        (g : String)
        → exists (value_key c settings id) s ≡ false
        → Dict.lookup g (hgetall (value_key c settings id) created)
          ≡ over (Dict.lookup g (encode_result_value c settings.gzip (not_ready py))) none
    unfolding get_or_create
    created_value g absent =
        let key = value_key c settings id in
        hgetall-hsetnx_all key key g (encode_result_value c settings.gzip (not_ready py)) kept
        ∙ rw (==_refl key, (kept-Same key).same_fields g, claimed_value id g s absent)
            (over-none (Dict.lookup g (encode_result_value c settings.gzip (not_ready py))))

    created_value_exists : exists (value_key c settings id) created ≡ true
    unfolding get_or_create encode_result_value
    created_value_exists =
        exists-hsetnx_all (value_key c settings id) (value_key c settings id)
          (encode_result_value c settings.gzip (not_ready py)) kept
        ∙ rw (==_refl (value_key c settings id)) refl

  -- Where a result and its value are not on the server, `get_or_create` gives a pending result with
  -- the defaults, `get` then gives the same, and the value that is read is that of a result that is
  -- not ready. Times to live are positive, and the server and the libraries keep to their
  -- documentation.
  pub get_or_create-fresh :
      (id : ℕ) (s : Store)
      → exists (key_of c settings id) s ≡ false
      → exists (value_key c settings id) s ≡ false
      → ((get_or_create c settings redis py id s).0 ≡ ok (fresh id))
        × (get c settings redis id (created id s) ≡ ok (some (fresh id)))
        × (get_value c settings redis id (created id s) ≡ ok (not_ready py))
  unfolding get_or_create get found get_value id_text Dict.lookup
  get_or_create-fresh id s absent no_value = (
    decode_result-claimed c faithful id (hgetall (key_of c settings id) (claimed id s))
        (λ g. claimed_fields id g s absent),
    rw
        (
          created_exists id s,
          decode_result-claimed c faithful id (hgetall (key_of c settings id) (created id s))
              (λ g. created_key id s g ∙ claimed_fields id g s absent),
        )
        refl,
    rw (created_value_exists id s) (
        decode_result_value-encode_result_value c faithful settings.gzip (not_ready py)
          (hgetall (value_key c settings id) (created id s)) []
          (λ g. created_value id s g no_value)),
  )

  null_text : c.loads "null" ≡ null
  null_text = ap c.loads (sym faithful.dumps_null) ∙ faithful.loads-dumps null

  state_of-created :
      (id : ℕ) (s : Store)
      → exists (key_of c settings id) s ≡ false
      → state_of c settings redis id (created id s) ≡ some none
  unfolding state_of or_null as_optional
  state_of-created id s absent =
      rw (created_key id s "state", claimed_fields id "state" s absent, null_text) refl

  -- Waiting for a result that `get_or_create` has just created ends at the first poll with
  -- ResultValueLost, although the result is pending: its hash has no state yet. The result was not on
  -- the server; times to live are positive, and the server and the libraries keep to their
  -- documentation.
  pub wait-get_or_create_lost :
      (id : ℕ) (s t : Store) (polls : List (Store × Store))
      → exists (key_of c settings id) s ≡ false
      → wait c settings redis id ((created id s, t) ∷ polls) ≡ some (raised (result_value_lost id))
  unfolding wait round
  wait-get_or_create_lost id s t polls absent =
      ap
        (λ state.
          round c settings redis id state (final c settings redis (get c settings redis id t))
            (wait c settings redis id polls))
        (state_of-created id s absent)
