-- ===== src/Backend/Redis.antt =====
-- mognet/backend/redis_result_backend.py: the operations on a server. Each is what the method does
-- once the property `_redis` has given the client; Client has the property and the connection.
pub mod Encoding
pub mod Keys
pub mod Members
pub mod Views
pub mod Creation
pub mod Client
pub mod Deletion
use Prim.Native.String.append
use Prim.Native.String.{◌++◌ as ◌⧺◌}
use project_mognet.Prelude.{
  ℕ, zero, suc, String, Bool, true, false, Option, none, some, List, [], ◌∷◌, if◌then◌else◌,
}
use project_mognet.Prelude.Dict
use project_mognet.Prelude.Dict.{Dict}
use project_mognet.Prelude.Eq.{string_eq, ◌==◌}
use project_mognet.Redis.{Redis}
use project_mognet.Model.State.{ResultState, is_in, ready_states}
use project_mognet.Model.Value.{
  Value, ValueHolder, Python, not_ready, result_value_lost, value_error, runtime_error,
}
use project_mognet.Model.Result.{Result}
use project_mognet.Backend.Memory.{Answer, ok, raised}
use project_mognet.Backend.Redis.Encoding.{
  Codec, as_optional, Json, encode_result, decode_result, encode_result_value, decode_result_value,
  encode_children, decode_children, dict_to_json_dict, decode_json_dict,
}

-- The settings that the backend reads, with the name of the application.
pub record Settings : Type 0 where
  pub app_name : String
  pub result_ttl : Option ℕ
  pub result_value_ttl : Option ℕ
  pub gzip : Bool

module _ (c : Codec) (settings : Settings) where
  open settings use {app_name, result_ttl, result_value_ttl, gzip}

  with_subkey : String → Option String → String
  with_subkey key none = key
  with_subkey key (some subkey) = if subkey == "" then key else ◌⧺◌ key (◌⧺◌ "/" subkey)

  unfoldable pub format_key : ℕ → Option String → String
  unfolding with_subkey
  format_key id subkey = with_subkey (◌⧺◌ app_name (◌⧺◌ ".mognet.result." (c.show_id id))) subkey

  abbrev pub key_of : ℕ → String
  key_of id = format_key id none

  abbrev pub value_key : ℕ → String
  value_key id = format_key id (some "value")

  abbrev pub children_key : ℕ → String
  children_key id = format_key id (some "children")

  abbrev pub metadata_key : ℕ → String
  metadata_key id = format_key id (some "metadata")

  module _ (redis : Redis) where
    open redis use {Store, exists, hgetall, members, scard, hset, hsetnx, sadd, expire}

    unfoldable pub expire_if : Option ℕ → String → Store → Store
    expire_if none key s = s
    expire_if (some ttl) key s = expire key ttl s

    found : Answer Result → Answer (Option Result)
    found (ok r) = ok (some r)
    found (raised e) = raised e

    -- A hash that does not exist reads as an empty one, so its existence is tested.
    unfoldable pub get : ℕ → Store → Answer (Option Result)
    unfolding found
    get id s =
        if exists (key_of id) s then found (decode_result c (hgetall (key_of id) s)) else ok none

    hsetnx_all : String → Dict String String → Store → Store
    hsetnx_all key [] s = s
    hsetnx_all key ((k, v) ∷ rest) s = hsetnx_all key rest (hsetnx key k v s)

    -- The commands of `get_or_create` up to the reading, and those behind it.
    claim_id : ℕ → Store → Store
    claim_id id s = hsetnx (key_of id) "id" (c.dumps (Json.text (c.show_id id))) s

    unfoldable pub get_or_create : Python → ℕ → Store → Answer Result × Store
    unfolding expire_if hsetnx_all claim_id
    get_or_create py id s =
        let claimed = claim_id id s in
        let kept =
          expire_if result_value_ttl (value_key id) (expire_if result_ttl (key_of id) claimed) in
        (
          decode_result c (hgetall (key_of id) claimed),
          hsetnx_all (value_key id) (encode_result_value c gzip (not_ready py)) kept,
        )

    unfoldable pub set : ℕ → Result → Store → Store
    unfolding expire_if
    set id r s = expire_if result_ttl (key_of id) (hset (key_of id) (encode_result c r) s)

    unfoldable pub add_children : ℕ → List ℕ → Store → Store
    unfolding expire_if
    add_children id [] s = s
    add_children id (child ∷ children) s =
        expire_if result_ttl (children_key id)
          (sadd (children_key id) (encode_children c (child ∷ children)) s)

    unfoldable pub get_value : ℕ → Store → Answer ValueHolder
    get_value id s =
        if exists (value_key id) s
        then decode_result_value c (hgetall (value_key id) s)
        else raised (result_value_lost id)

    unfoldable pub set_value : ℕ → ValueHolder → Store → Store
    unfolding expire_if
    set_value id value s =
        expire_if result_value_ttl (value_key id)
          (hset (value_key id) (encode_result_value c gzip value) s)

    unfoldable pub get_children_count : ℕ → Store → ℕ
    get_children_count id s = scard (children_key id) s

    -- `count` is only a hint to the server on how much to send at once.
    unfoldable pub iterate_children_ids : ℕ → Store → List ℕ
    iterate_children_ids id s = decode_children c (members (children_key id) s)

    present : List ℕ → Store → Answer (List Result)
    unfolding get
    present [] s = ok []
    present (id ∷ ids) s =
        let rest = present ids s in
        elim (get id s) [
          | raised e ↦ raised e
          | ok none ↦ rest
          | ok (some r) ↦ elim rest [ ok rs ↦ ok (r ∷ rs) | raised e ↦ raised e ]
        ]

    unfoldable pub iterate_children : ℕ → Store → Answer (List Result)
    unfolding present iterate_children_ids
    iterate_children id s = present (iterate_children_ids id s) s

    unfoldable pub get_metadata : ℕ → Store → Dict String Value
    get_metadata id s = decode_json_dict c.load_value (hgetall (metadata_key id) s)

    unfoldable pub set_metadata : ℕ → Dict String Value → Store → Store
    unfolding expire_if
    set_metadata id [] s = s
    set_metadata id (kwarg ∷ kwargs) s =
        expire_if result_ttl (metadata_key id)
          (hset (metadata_key id) (dict_to_json_dict c.dump_value (kwarg ∷ kwargs)) s)

    -- The part of `delete` behind its loop.
    unfoldable pub forget : ℕ → Store → Store
    forget id s = redis.delete (key_of id ∷ children_key id ∷ value_key id ∷ metadata_key id ∷ []) s

    -- The loop over the children.
    unfoldable pub each_child : (ℕ → Store → Option Store) → List ℕ → Store → Option Store
    each_child act [] s = some s
    each_child act (id ∷ ids) s = elim (act id s) [ none ↦ none | some t ↦ each_child act ids t ]

    -- On fuel for the depth of the recursion; `none` means that the fuel ran out. The scan of the
    -- children is not changed by the deletion of the children.
    unfoldable pub delete : ℕ → Bool → ℕ → Store → Option Store
    unfolding each_child forget iterate_children_ids
    delete zero include_children id s = none
    delete (suc fuel) include_children id s = elim include_children [
      | false ↦ some (forget id s)
      | true ↦ elim (each_child (delete fuel true) (iterate_children_ids id s) s) [
        | none ↦ none
        | some t ↦ some (forget id t)
      ]
    ]

    -- What `set_ttl` does for the result itself.
    expire_parts : ℕ → ℕ → Store → Store
    expire_parts id ttl s =
        expire (metadata_key id) ttl
          (expire (value_key id) ttl (expire (children_key id) ttl (expire (key_of id) ttl s)))

    unfoldable pub set_ttl : ℕ → ℕ → Bool → ℕ → Store → Option Store
    unfolding each_child expire_parts iterate_children_ids
    set_ttl zero ttl include_children id s = none
    set_ttl (suc fuel) ttl include_children id s = elim include_children [
      | false ↦ some (expire_parts id ttl s)
      | true ↦ elim (each_child (set_ttl fuel ttl true) (iterate_children_ids id s) s) [
        | none ↦ none
        | some t ↦ some (expire_parts id ttl t)
      ]
    ]

    -- `raw or b"null"`
    or_null : Option String → String
    or_null none = "null"
    or_null (some raw) = if raw == "" then "null" else raw

    -- The state that the waiter reads: `none` is a validation error.
    state_of : ℕ → Store → Option (Option ResultState)
    unfolding or_null
    state_of id s =
        as_optional c.valid_state (c.loads (or_null (Dict.lookup "state" (hgetall (key_of id) s))))

    -- `get` behind a state that is ready.
    final : Answer (Option Result) → Answer Result
    final (raised e) = raised e
    final (ok none) = raised runtime_error
    final (ok (some r)) = ok r

    -- One round of the waiter, by the state that it reads, what `get` gives behind it, and how the
    -- later rounds end.
    round :
        ℕ
        → Option (Option ResultState)
        → Answer Result
        → Option (Answer Result)
        → Option (Answer Result)
    unfolding is_in
    round id none now later = some (raised value_error)
    round id (some none) now later = some (raised (result_value_lost id))
    round id (some (some state)) now later = if is_in state ready_states then some now else later

    -- `wait` against the server at each poll: when the state is read, and when the result is read
    -- behind it. `none` means that it is still waiting at the end of the polls.
    unfoldable pub wait : ℕ → List (Store × Store) → Option (Answer Result)
    unfolding state_of final get round
    wait id [] = none
    wait id ((s, t) ∷ polls) =
        let later = wait id polls in round id (state_of id s) (final (get id t)) later
