-- ===== src/Examples/Redis.antt =====
-- The Redis backend on the server of Server with the codec of Codec.
use project_mognet.Prelude.{
  sym, ◌∙◌, contains, true, arith, if◌then◌else◌, ℕ, zero, suc, ◌<◌, ◌≡◌, refl, true, none, some,
  List, [], ◌∷◌, arith,
}
use project_mognet.Prelude.Dict
use project_mognet.Prelude.Dict.{Dict}
use project_mognet.Prelude.Eq.{nat_eq, string_eq, ◌==◌}
use project_mognet.Model.State.{running}
use project_mognet.Model.Value.{Value, Python, not_ready, json, result_value_lost}
use project_mognet.Model.Result.{fresh}
use project_mognet.Backend.Memory
use project_mognet.Backend.Memory.{ok, raised}
use project_mognet.Backend.Memory.Views
use project_mognet.Backend.View.{Change, saved, value_saved, children_added, metadata_set}
use project_mognet.Backend.Redis.{
  add_children, iterate_children_ids, delete, Settings, get, get_or_create, get_value, wait,
}
use project_mognet.Backend.Redis.Encoding.{decode_children}
use project_mognet.Backend.Redis.Views.{IsLasting, perform_all}
use project_mognet.Backend.Redis.{iterate_children_ids}
use project_mognet.Backend.Redis.Creation.{get_or_create-fresh, wait-get_or_create_lost}
use project_mognet.Backend.Memory.Deletion.{here, down}
use project_mognet.Backend.Redis.Deletion.Descent.{IsGone, delete_descends}
use project_mognet.Backend.Redis.Views.Entries.{children-add_children}
use project_mognet.TaskState
use project_mognet.TaskState.Laws
use project_mognet.TaskState.Laws.{
  Call, setting, getting, popping, clearing, ideal_all, kept, perform_all_lem,
}
use project_mognet.Examples.Codec.{codec, codec-IsFaithful}
use project_mognet.Examples.Server.{server, nothing_stored}

positive : (ttl : ℕ) → some 1814400 ≡ some ttl → 0 < ttl
positive zero e = absurd (cc)
positive (suc ttl) e = omega arith

-- The backend's settings in these examples.
abbrev pub settings : Settings
settings = record {
  app_name = "demo";
  result_ttl = some 1814400;
  result_value_ttl = none;
  gzip = true;
}

settings-IsLasting : IsLasting settings
settings-IsLasting = record {
  result_ttl_positive = λ ttl e. positive ttl e;
  result_value_ttl_positive = λ ttl e. absurd (cc);
}

-- A result with a value, a child and metadata, kept by both backends.
abbrev calls : List Change
calls =
    saved 1 (record (fresh 1) { state = running; number_of_starts = 1 })
    ∷ value_saved 1 (record { value_type = "builtins.str"; raw_value = json "done" })
    ∷ children_added 1 (2 ∷ 3 ∷ [])
    ∷ metadata_set 1 (("user", json "me") ∷ ("attempt", Value.null) ∷ [])
    ∷ []

-- A runtime that names nothing.
abbrev py : Python
py = record {
  type_name = λ v. "type";
  exception_name = λ e. "exception";
  message = λ e. "message";
  traceback = λ e. "";
  picklable = λ e. true;
  unpickled = λ e. e;
  validate = λ t v. some v;
}

get_or_create-fresh_example :
    ((get_or_create codec settings server py 1 nothing_stored).0 ≡ ok (fresh 1))
    × (get codec settings server 1 (get_or_create codec settings server py 1 nothing_stored).1
        ≡ ok (some (fresh 1)))
    × (get_value codec settings server 1 (get_or_create codec settings server py 1 nothing_stored).1
        ≡ ok (not_ready py))
get_or_create-fresh_example =
    get_or_create-fresh codec codec-IsFaithful settings settings-IsLasting server py 1
      nothing_stored refl refl

wait-get_or_create_lost_example :
    wait codec settings server 1
      (((get_or_create codec settings server py 1 nothing_stored).1, nothing_stored) ∷ [])
    ≡ some (raised (result_value_lost 1))
wait-get_or_create_lost_example =
    wait-get_or_create_lost codec codec-IsFaithful settings settings-IsLasting server py 1
      nothing_stored nothing_stored [] refl

-- A task's state: a value is set, read, taken away and missed, and another request's is not there.
abbrev state_settings : TaskState.Settings
state_settings = record { app_name = "demo"; state_ttl = 7200 }

abbrev state_calls : List Call
state_calls =
    setting 1 "step" (json "2")
    ∷ getting 1 "step" Value.null
    ∷ getting 2 "step" (json "0")
    ∷ popping 1 "step" Value.null
    ∷ popping 1 "step" (json "none")
    ∷ clearing 2
    ∷ []

perform_all_lem_example :
    ((TaskState.Laws.perform_all codec state_settings server state_calls nothing_stored).0
      ≡ (ideal_all state_calls (kept codec state_settings server nothing_stored)).0)
    × (kept codec state_settings server
          (TaskState.Laws.perform_all codec state_settings server state_calls nothing_stored).1
        ≡ (ideal_all state_calls (kept codec state_settings server nothing_stored)).1)
perform_all_lem_example =
    perform_all_lem codec state_settings server codec-IsFaithful (omega arith) state_calls
      nothing_stored (refl, (tt, (tt, (tt, (tt, (tt, tt))))))

-- A result with a child.
abbrev family : server.Store
family = add_children codec settings server 1 (2 ∷ []) nothing_stored

abbrev rank_of : ℕ → ℕ
rank_of i = if i == 1 then 1 else 0

acyclic :
    (i k : ℕ)
    → contains k (iterate_children_ids codec settings server i family) ≡ true
    → rank_of k < rank_of i
unfolding contains iterate_children_ids decode_children
acyclic i k m =
    let known =
      children-add_children codec codec-IsFaithful settings settings-IsLasting server 1 i k (2 ∷ [])
        nothing_stored in
    ground (arith, sym known ∙ m)

is_child : contains 2 (iterate_children_ids codec settings server 1 family) ≡ true
unfolding contains
is_child =
    children-add_children codec codec-IsFaithful settings settings-IsLasting server 1 1 2 (2 ∷ [])
      nothing_stored
    ∙ ground arith

delete_descends_example :
    (t : server.Store) × (delete codec settings server 2 true 1 family ≡ some t)
    × IsGone codec codec-IsFaithful settings server 2 t
delete_descends_example =
    delete_descends codec codec-IsFaithful settings server family rank_of acyclic 2 1 2
      (omega arith) (down 1 2 is_child here)
