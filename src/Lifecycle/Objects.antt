-- ===== src/Lifecycle/Objects.antt =====
-- mognet/model/result.py: a `Result` as an object, which keeps the value holder that it has read, and
-- its methods that pass on to the backend. `_value_holder` is set once: neither `set_raw_value` nor
-- `_refresh`, which copies the fields of the model alone, touches it.
use project_mognet.Prelude.{
  ◌≡◌, refl, ap, ℕ, String, Bool, true, Option, none, some, List, [], ◌∷◌, if◌then◌else◌, arith,
  Option-cases, inl, inr, ◌∙◌,
}
use project_mognet.Prelude.Dict.{Dict}
use project_mognet.Model.Value.{
  Python, Value, ValueHolder, Exn, result_not_ready, value_error, deserialize,
}
use project_mognet.Model.Result.{Result, done}
use project_mognet.Backend.Memory
use project_mognet.Backend.Memory.{Backend, Answer, ok, raised, Answer-cases}
use project_mognet.Backend.Base.{wait}
use project_mognet.Lifecycle
use project_mognet.Lifecycle.{settle, refresh}
use project_mognet.Lifecycle.Counting.{Call, call}

pub record Object : Type 0 where
  pub result : Result
  pub value_holder : Option ValueHolder

-- The object behind a read of the backend.
remember : Answer ValueHolder → Object → Object
remember (ok h) o = record o { value_holder = some h }
remember (raised e) o = o

unfoldable pub get_value_holder : Object → Backend → Answer ValueHolder × Object
unfolding remember
get_value_holder o b = elim o.value_holder [
  | some h ↦ (ok h, o)
  | none ↦ (Memory.get_value o.result.id b, remember (Memory.get_value o.result.id b) o)
]

module _ (py : Python) where
  raw_value : Answer ValueHolder → Answer Value
  raw_value (raised e) = raised e
  raw_value (ok h) = elim (deserialize py h) [ none ↦ raised value_error | some v ↦ ok v ]

  unfoldable pub get_raw_value : Object → Backend → Answer Value × Object
  unfolding raw_value get_value_holder
  get_raw_value o b = let (h, o') = get_value_holder o b in (raw_value h, o')

  settle_value : Result → Answer Value → Answer Value
  settle_value r (raised e) = raised e
  settle_value r (ok v) = settle py r v

  unfoldable pub get : Object → Backend → Answer Value × Object
  unfolding settle_value get_raw_value
  get o b =
      let (v, o') = get_raw_value o b in
      if done o.result then (settle_value o.result v, o') else (raised result_not_ready, o)

  -- The methods that write.
  unfoldable pub call_on : Call → Object → Backend → Object × Backend
  call_on c o b = let (r, b') = call py c o.result b in (record o { result = r }, b')

  unfoldable pub calls_on : List Call → Object → Backend → Object × Backend
  unfolding call_on
  calls_on [] o b = (o, b)
  calls_on (c ∷ cs) o b = let (o', b') = call_on c o b in calls_on cs o' b'

  -- `__await__`, over what the polls see.
  unfoldable pub await : Object → List Backend → Backend → Option (Answer Value × Object)
  unfolding get
  await o polls b = elim (wait o.result.id polls) [
    | none ↦ none
    | some updated ↦ some (get (record o { result = refresh py updated o.result }) b)
  ]

-- `ResultChildren`, and the methods for metadata, deletion and the time to live.
unfoldable pub count : Object → Backend → ℕ
count o b = Memory.get_children_count o.result.id b

unfoldable pub iter_ids : Option ℕ → Object → Backend → Answer (List ℕ)
iter_ids most o b = Memory.iterate_children_ids o.result.id most b

unfoldable pub iter_instances : Option ℕ → Object → Backend → Answer (List Result)
iter_instances most o b = Memory.iterate_children o.result.id most b

unfoldable pub add : List ℕ → Object → Backend → Backend
add ids o b = Memory.add_children o.result.id ids b

unfoldable pub get_metadata : Object → Backend → Dict String Value
get_metadata o b = Memory.get_metadata o.result.id b

unfoldable pub set_metadata : Dict String Value → Object → Backend → Backend
set_metadata kwargs o b = Memory.set_metadata o.result.id kwargs b

-- On fuel for the depth of the children.
unfoldable pub delete : ℕ → Bool → Object → Backend → Option Backend
delete fuel include_children o b = Memory.delete fuel include_children o.result.id b

unfoldable pub set_ttl : ℕ → Bool → Object → Backend → Backend
set_ttl ttl include_children o b = Memory.set_ttl o.result.id ttl include_children b

module _ (py : Python) where
  -- Through an object that has read no value, `get` is that of the fields alone.
  pub get_unread :
      (r : Result) (b : Backend)
      → (get py (record { result = r; value_holder = none }) b).0 ≡ Lifecycle.get py r b
  unfolding get settle_value get_raw_value raw_value get_value_holder Lifecycle.get
      Lifecycle.get_raw_value
  get_unread r b = ground arith

  calls_on_keep :
      (cs : List Call) (o : Object) (b : Backend)
      → (calls_on py cs o b).0.value_holder ≡ o.value_holder
  unfolding calls_on call_on
  calls_on_keep [] o b = refl
  calls_on_keep (c ∷ cs) o b = calls_on_keep cs (call_on py c o b).0 (call_on py c o b).1

  valid_of : (h : ValueHolder) (v : Value) → raw_value py (ok h) ≡ ok v → deserialize py h ≡ some v
  unfolding raw_value
  valid_of h v e = elim (Option-cases (deserialize py h)) [
    | inl refused ↦ absurd (ground (arith, refused))
    | inr (w, read) ↦ ground (arith, read)
  ]

  raw_lost : (x : Exn) (v : Value) → ¬ (raw_value py (raised x) ≡ ok v)
  unfolding raw_value
  raw_lost x v e = cc

  -- A value that was read is kept.
  read_keeps :
      (o : Object) (b : Backend) (v : Value)
      → (get_raw_value py o b).0 ≡ ok v
      → (h : ValueHolder) × ((get_raw_value py o b).1.value_holder ≡ some h)
        × (deserialize py h ≡ some v)
  unfolding get_raw_value get_value_holder
  read_keeps o b v e = elim (Option-cases o.value_holder) [
    | inr (h, held) ↦ (h, ground (arith, held), valid_of h v (ground (arith, held)))
    | inl unread ↦ elim (Answer-cases (Memory.get_value o.result.id b)) [
      | inl (h, found) ↦
          (h, ground (arith, unread, found), valid_of h v (ground (arith, unread, found)))
      | inr (x, lost) ↦ absurd (raw_lost x v (ground (arith, unread, lost)))
    ]
  ]

  get_held :
      (o : Object) (b : Backend) (h : ValueHolder) (v : Value)
      → o.value_holder ≡ some h
      → deserialize py h ≡ some v
      → done o.result ≡ true
      → (get py o b).0 ≡ settle py o.result v
  unfolding get settle_value get_raw_value raw_value get_value_holder
  get_held o b h v held valid over =
      let read : raw_value py (ok h) ≡ ok v = ground (arith, valid) in
      rw (held, over) (ap (settle_value py o.result) read)

  -- Once a value was read through an object, `get` through the same object goes by that value for
  -- good: whatever methods of the object write to whatever backend after that, also with other
  -- values, and whatever the backend holds then.
  pub get_after_read :
      (cs : List Call) (o : Object) (b later now : Backend) (v : Value)
      → (get_raw_value py o b).0 ≡ ok v
      → let written = (calls_on py cs (get_raw_value py o b).1 later).0 in
        done written.result ≡ true → (get py written now).0 ≡ settle py written.result v
  get_after_read cs o b later now v e over =
      let (h, held, valid) = read_keeps o b v e in
      let object = (get_raw_value py o b).1 in
      get_held (calls_on py cs object later).0 now h v (calls_on_keep cs object later ∙ held) valid
        over
