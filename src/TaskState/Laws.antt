-- ===== src/TaskState/Laws.antt =====
-- The state of each request is a dictionary of its own, whatever calls are made in which order.
use Prim.Native.String.{◌++◌ as ◌⧺◌}
use project_mognet.Prelude.{
  ℕ, ◌<◌, ◌≡◌, refl, ap, sym, ◌∙◌, String, Bool, true, false, ◌&&◌, ◌||◌, Option, none, some, List,
  [], ◌∷◌, arith, if◌then◌else◌, contains, All, Bool_ext,
}
use project_mognet.Prelude.Dict
use project_mognet.Prelude.Dict.{Dict}
use project_mognet.Prelude.Eq.{nat_eq, string_eq, ◌==◌, ==_refl, ==_eq}
use project_mognet.Prelude.Texts.{append_cancel}
use project_mognet.Redis.{Redis, over}
use project_mognet.Model.Value.{Value}
use project_mognet.Backend.View.{is_json}
use project_mognet.Backend.Redis.Encoding.{Codec, IsFaithful, text}
use project_mognet.Backend.Redis.Encoding.RoundTrip.{read}
use project_mognet.TaskState.{Settings, format_key, get, set, pop, clear, loaded}

-- The calls of a task, of `State` and of the backend.
pub data Call : Type 0 where
  getting : (request_id : ℕ) (key : String) (default : Value) → Call
  setting : (request_id : ℕ) (key : String) (value : Value) → Call
  popping : (request_id : ℕ) (key : String) (default : Value) → Call
  clearing : (request_id : ℕ) → Call

-- What is kept for each request and key.
abbrev pub Kept : Type 0
Kept = ℕ → String → Option Value

abbrev pub value_or : Value → Option Value → Value
value_or default none = default
value_or default (some v) = v

-- One call on dictionaries: what it gives back, if anything, and what is kept then.
abbrev pub ideal : Call → Kept → Option Value × Kept
ideal (getting id key default) kept = (some (value_or default (kept id key)), kept)
ideal (setting id key value) kept =
    (none, λ j k. if (id == j) && (key == k) then some value else kept j k)
ideal (popping id key default) kept = (
  some (value_or default (kept id key)),
  (λ j k. if (id == j) && (key == k) then none else kept j k),
)
ideal (clearing id) kept = (none, λ j k. if id == j then none else kept j k)

unfoldable pub ideal_all : List Call → Kept → List (Option Value) × Kept
ideal_all [] kept = ([], kept)
ideal_all (call ∷ calls) kept =
    let (answer, kept') = ideal call kept in
    let (answers, last) = ideal_all calls kept' in (answer ∷ answers, last)

abbrev pub IsCall : Call → Type 0
IsCall (setting id key value) = is_json value ≡ true
IsCall _ = Unit

module _ (c : Codec) (settings : Settings) (redis : Redis) where
  open redis use {Store, hgetall}

  abbrev pub kept : Store → Kept
  kept s = λ j k. read c.load_value (Dict.lookup k (hgetall (format_key c settings j) s))

  unfoldable pub perform : Call → Store → Option Value × Store
  unfolding get set pop clear
  perform (getting id key default) s =
      let (v, t) = get c settings redis id key default s in (some v, t)
  perform (setting id key value) s = (none, set c settings redis id key value s)
  perform (popping id key default) s =
      let (v, t) = pop c settings redis id key default s in (some v, t)
  perform (clearing id) s = (none, clear c settings redis id s)

  unfoldable pub perform_all : List Call → Store → List (Option Value) × Store
  unfolding perform
  perform_all [] s = ([], s)
  perform_all (call ∷ calls) s =
      let (answer, t) = perform call s in
      let (answers, last) = perform_all calls t in (answer ∷ answers, last)

  loaded_lem :
      (default : Value) (raw : Option String)
      → loaded c settings redis default raw ≡ value_or default (read c.load_value raw)
  unfolding loaded
  loaded_lem default none = refl
  loaded_lem default (some raw) = refl

  module _ (faithful : IsFaithful c) (lasting : 0 < settings.state_ttl) where
    read_written :
        (b : Bool) (key k : String) (value : Value) (old : Option String)
        → is_json value ≡ true
        → read c.load_value
            (if b then over (Dict.lookup k ((key, c.dump_value value) ∷ [])) old else old)
          ≡ (if b && (key == k) then some value else read c.load_value old)
    unfolding Dict.lookup
    read_written b key k value old json = ground (arith, faithful.load-dump_value value json)

    read_if :
        (b : Bool) (old : Option String)
        → read c.load_value (if b then none else old) ≡ (if b then none else read c.load_value old)
    read_if b old = ground arith

    read_empty :
        (b : Bool) (k : String) (m : Dict String String)
        → read c.load_value (Dict.lookup k (if b || false then [] else m))
          ≡ (if b then none else read c.load_value (Dict.lookup k m))
    unfolding Dict.lookup
    read_empty b k m = ground arith

    some_injective : {A : Type 0} {a b : A} → some a ≡ some b → a ≡ b
    some_injective e = cc

    -- Different requests have different keys.
    format_key_same : (i j : ℕ) → (format_key c settings i == format_key c settings j) ≡ (i == j)
    unfolding format_key
    format_key_same i j =
        Bool_ext
          (λ h.
            let e = ==_eq (format_key c settings i) (format_key c settings j) h in
            let ids = append_cancel ".mognet.state." (c.show_id i) (c.show_id j) (
              append_cancel settings.app_name (◌⧺◌ ".mognet.state." (c.show_id i))
                (◌⧺◌ ".mognet.state." (c.show_id j)) e) in
            let same = some_injective (
              sym (faithful.valid_id-show_id i)
              ∙ ap (λ t. c.valid_id (text t)) ids
              ∙ faithful.valid_id-show_id j) in
            rw (same) (==_refl j))
          (λ h. rw (==_eq i j h) (==_refl (format_key c settings j)))

    kept_expired :
        (key : String) (s : Store) → kept (redis.expire key settings.state_ttl s) ≡ kept s
    kept_expired key s = λ d j k. read c.load_value (
        Dict.lookup k
          (redis.hgetall-expire key (format_key c settings j) settings.state_ttl s lasting d))

    kept-set :
        (id j : ℕ) (key k : String) (value : Value) (s : Store)
        → is_json value ≡ true
        → kept (set c settings redis id key value s) j k
          ≡ (if (id == j) && (key == k) then some value else kept s j k)
    unfolding set
    kept-set id j key k value s json =
        let at = format_key c settings id in
        let m = (key, c.dump_value value) ∷ [] in
        ap (λ (f : Kept). f j k) (kept_expired at (redis.hset at m s))
        ∙ ap (read c.load_value) (redis.hgetall-hset at (format_key c settings j) k m s)
        ∙ rw (format_key_same id j) (
            read_written (id == j) key k value (Dict.lookup k (hgetall (format_key c settings j) s))
              json)

    kept-pop :
        (id j : ℕ) (key k : String) (default : Value) (s : Store)
        → kept (pop c settings redis id key default s).1 j k
          ≡ (if (id == j) && (key == k) then none else kept s j k)
    unfolding pop
    kept-pop id j key k default s =
        let at = format_key c settings id in
        ap (λ (f : Kept). f j k) (kept_expired at (redis.hdel at key s))
        ∙ ap (read c.load_value) (redis.hgetall-hdel at (format_key c settings j) key k s)
        ∙ rw (format_key_same id j) (
            read_if ((id == j) && (key == k)) (Dict.lookup k (hgetall (format_key c settings j) s)))

    kept-clear :
        (id j : ℕ) (k : String) (s : Store)
        → kept (clear c settings redis id s) j k ≡ (if id == j then none else kept s j k)
    unfolding clear
    kept-clear id j k s =
        ap (λ m. read c.load_value (Dict.lookup k m))
          (redis.hgetall-delete (format_key c settings id ∷ []) (format_key c settings j) s)
        ∙ unfold contains in
          rw (format_key_same id j) (read_empty (id == j) k (hgetall (format_key c settings j) s))

    perform_lem :
        (call : Call) (s : Store)
        → IsCall call
        → ((perform call s).0 ≡ (ideal call (kept s)).0)
          × (kept (perform call s).1 ≡ (ideal call (kept s)).1)
    unfolding perform
    perform_lem (getting id key default) s is =
        unfold get in
        (
          ap some (loaded_lem default (Dict.lookup key (hgetall (format_key c settings id) s))),
          kept_expired (format_key c settings id) s,
        )
    perform_lem (setting id key value) s is = (refl, λ d j k. kept-set id j key k value s is d)
    perform_lem (popping id key default) s is =
        unfold pop in
        (
          ap some (loaded_lem default (Dict.lookup key (hgetall (format_key c settings id) s))),
          λ d j k. kept-pop id j key k default s d,
        )
    perform_lem (clearing id) s is = (refl, λ d j k. kept-clear id j k s d)

    -- Whatever calls are made on the states of requests, in whatever order, each gives back what it
    -- would on a dictionary for each request, and these dictionaries are what the server keeps. The
    -- values are ones that JSON can write, and the time to live is positive.
    pub perform_all_lem :
        (calls : List Call) (s : Store)
        → All IsCall calls
        → ((perform_all calls s).0 ≡ (ideal_all calls (kept s)).0)
          × (kept (perform_all calls s).1 ≡ (ideal_all calls (kept s)).1)
    unfolding perform_all ideal_all
    perform_all_lem [] s are = (refl, refl)
    perform_all_lem (call ∷ calls) s (is, are) =
        let (answers, keeps) = perform_lem call s is in
        let (later, last) = perform_all_lem calls (perform call s).1 are in
        rw (answers, later, last, keeps) (refl, refl)
