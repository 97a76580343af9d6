-- ===== src/Backend/Redis/Deletion.antt =====
-- `delete` of the Redis backend without the children: what is left of the result and of the others.
pub mod Descent
use project_mognet.Prelude.{
  ℕ, suc, ◌≡◌, refl, ap, sym, ◌∙◌, String, Bool, true, false, ◌&&◌, ◌||◌, Option, none, some, List,
  [], ◌∷◌, arith, if◌then◌else◌, contains, Bool-cases, inl, inr,
}
use project_mognet.Redis.{Redis}
use project_mognet.Prelude.Dict
use project_mognet.Prelude.Eq.{nat_eq, string_eq, ◌==◌}
use project_mognet.Model.Value.{result_value_lost}
use project_mognet.Backend.Memory.{Answer, ok, raised}
use project_mognet.Backend.Redis.Encoding.{Codec, IsFaithful, decode_children, decode_json_dict}
use project_mognet.Backend.Redis.Keys.{suffix, format_key_same}
use project_mognet.Backend.Redis.{
  Settings, format_key, key_of, children_key, value_key, metadata_key, get, get_value,
  iterate_children_ids, get_metadata, forget, delete,
}

-- A suffix that is one of the four parts.
abbrev is_part : Option String → Bool
is_part part =
    (suffix none == suffix part)
    || (suffix (some "children") == suffix part)
    || (suffix (some "value") == suffix part)
    || (suffix (some "metadata") == suffix part)

module _ (c : Codec) (faithful : IsFaithful c) (settings : Settings) (redis : Redis) (id : ℕ) where
  open redis use {Store, exists, hgetall, members}

  abbrev keys : List String
  keys =
      key_of c settings id
      ∷ children_key c settings id
      ∷ value_key c settings id
      ∷ metadata_key c settings id
      ∷ []

  distribute :
      (a p q r s : Bool)
      → ((a && p) || ((a && q) || ((a && r) || ((a && s) || false)))) ≡ (a && (p || q || r || s))
  distribute a p q r s = ground arith

  contains-keys :
      (j : ℕ) (part : Option String)
      → contains (format_key c settings j part) keys ≡ ((id == j) && is_part part)
  unfolding contains
  contains-keys j part =
      rw
        (
          format_key_same c faithful settings id j none part,
          format_key_same c faithful settings id j (some "children") part,
          format_key_same c faithful settings id j (some "value") part,
          format_key_same c faithful settings id j (some "metadata") part,
        )
        (distribute (id == j) (suffix none == suffix part) (suffix (some "children") == suffix part)
          (suffix (some "value") == suffix part) (suffix (some "metadata") == suffix part))

  and_true : (a b : Bool) → b ≡ true → (a && b) ≡ a
  and_true a b e = ground arith

  deleted :
      (j : ℕ) (part : Option String)
      → is_part part ≡ true
      → contains (format_key c settings j part) keys ≡ (id == j)
  deleted j part e = contains-keys j part ∙ and_true (id == j) (is_part part) e

  abbrev left : Store → Store
  left s = forget c settings redis id s

  get-left :
      (s : Store) (j : ℕ)
      → get c settings redis j (left s) ≡ (if id == j then ok none else get c settings redis j s)
  unfolding get forget
  get-left s j =
      let key = key_of c settings j in
      rw (redis.exists-delete keys key s, redis.hgetall-delete keys key s, deleted j none refl)
        (ground arith)

  get_value-left :
      (s : Store) (j : ℕ)
      → get_value c settings redis j (left s)
        ≡ (if id == j then raised (result_value_lost j) else get_value c settings redis j s)
  unfolding get_value forget
  get_value-left s j =
      let key = value_key c settings j in
      rw
        (
          redis.exists-delete keys key s,
          redis.hgetall-delete keys key s,
          deleted j (some "value") refl,
        )
        (ground arith)

  iterate_children_ids-left :
      (s : Store) (j : ℕ)
      → iterate_children_ids c settings redis j (left s)
        ≡ (if id == j then [] else iterate_children_ids c settings redis j s)
  unfolding iterate_children_ids forget decode_children
  iterate_children_ids-left s j =
      rw (redis.members-delete keys (children_key c settings j) s, deleted j (some "children") refl)
        (ground arith)

  get_metadata-left :
      (s : Store) (j : ℕ)
      → get_metadata c settings redis j (left s)
        ≡ (if id == j then [] else get_metadata c settings redis j s)
  unfolding get_metadata forget decode_json_dict
  get_metadata-left s j =
      rw (redis.hgetall-delete keys (metadata_key c settings j) s, deleted j (some "metadata") refl)
        (ground arith)

  -- Deleting a result without its children ends, and leaves no result, value, child and metadata of
  -- it, and those of every other id as they were. The server and the libraries keep to their
  -- documentation.
  pub delete_alone :
      (fuel j : ℕ) (s : Store)
      → (t : Store) × (delete c settings redis (suc fuel) false id s ≡ some t)
        × (get c settings redis j t ≡ (if id == j then ok none else get c settings redis j s))
        × (get_value c settings redis j t
            ≡ (if id == j then raised (result_value_lost j) else get_value c settings redis j s))
        × (iterate_children_ids c settings redis j t
            ≡ (if id == j then [] else iterate_children_ids c settings redis j s))
        × (get_metadata c settings redis j t
            ≡ (if id == j then [] else get_metadata c settings redis j s))
  unfolding delete
  delete_alone fuel j s = (
    left s,
    refl,
    get-left s j,
    get_value-left s j,
    iterate_children_ids-left s j,
    get_metadata-left s j,
  )
