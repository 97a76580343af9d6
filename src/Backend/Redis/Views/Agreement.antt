-- ===== src/Backend/Redis/Views/Agreement.antt =====
-- The Redis backend keeps what a backend promises, so it answers as the memory backend does.
use project_mognet.Model.Value.{key_error}
use project_mognet.Prelude.{ℕ, false, contains, ◌≡◌, refl, ap, ◌∙◌, List, [], ◌∷◌, All}
use project_mognet.Redis.{Redis}
use project_mognet.Prelude.Eq.{nat_eq, string_eq}
use project_mognet.Backend.Memory.{Answer, ok, raised}
use project_mognet.Backend.Redis.Encoding.{Codec, IsFaithful}
use project_mognet.Backend.Redis.{Settings}
use project_mognet.Backend.View.{
  Change, saved, value_saved, children_added, metadata_set, change, change_all, IsCall,
}
use project_mognet.Backend.Redis.Views.{IsLasting, view, perform, perform_all}
use project_mognet.Backend.Memory
use project_mognet.Backend.Memory.Views
use project_mognet.Backend.Redis.Views.Results.{view-set, view-set_value}
use project_mognet.Backend.Redis.Views.Entries.{view-set_metadata, view-add_children}

-- The children that the Redis backend yields, by what the generator of the memory backend does:
-- none where that raises `KeyError`, and else the same ones.
abbrev pub YieldsAs : Answer (List ℕ) → List ℕ → Type 0
YieldsAs (raised e) yielded = (e ≡ key_error) × ((x : ℕ) → contains x yielded ≡ false)
YieldsAs (ok ids) yielded = (x : ℕ) → contains x yielded ≡ contains x ids

module _ (c : Codec) (faithful : IsFaithful c) (settings : Settings) (lasting : IsLasting settings)
    (redis : Redis) where
  open redis use {Store, exists, hgetall, members, hset, sadd, expire}

  view-perform :
      (ch : Change) (s : Store)
      → IsCall ch
      → view c settings redis (perform c settings redis ch s) ≡ change ch (view c settings redis s)
  unfolding perform
  view-perform (saved id r) s call = view-set c faithful settings lasting redis id r s
  view-perform (value_saved id h) s call = view-set_value c faithful settings lasting redis id h s
  view-perform (children_added id ids) s call =
      view-add_children c faithful settings lasting redis id ids s
  view-perform (metadata_set id kwargs) s call =
      view-set_metadata c faithful settings lasting redis id kwargs s call.1

  pub redis_keeps :
      (changes : List Change) (s : Store)
      → All IsCall changes
      → view c settings redis (perform_all c settings redis changes s)
        ≡ change_all changes (view c settings redis s)
  unfolding perform_all change_all
  redis_keeps [] s calls = refl
  redis_keeps (ch ∷ more) s (call, calls) =
      redis_keeps more (perform c settings redis ch s) calls
      ∙ ap (change_all more) (view-perform ch s call)
