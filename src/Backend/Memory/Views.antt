-- ===== src/Backend/Memory/Views.antt =====
-- The memory backend keeps what a backend promises.
use project_mognet.Prelude.{
  ℕ, ◌≡◌, refl, ap, sym, ◌∙◌, ◌⊎◌, ◌||◌, none, Option-cases, inl, inr, false, String, List, [], ◌∷◌,
  arith, if◌then◌else◌, contains, All,
}
use project_mognet.Redis.{over}
use project_mognet.Prelude.Dict
use project_mognet.Prelude.Dict.{Dict}
use project_mognet.Prelude.Eq.{nat_eq, string_eq, ◌==◌}
use project_mognet.Model.Value.{Value, key_error}
use project_mognet.Backend.Memory.{
  Backend, Answer, ok, raised, iterate_children_ids, get, set, children, add_children, get_value,
  set_value, get_metadata, set_metadata, merge,
}
use project_mognet.Backend.Memory.Children.{contains-add_children, iterate_from_all}
use project_mognet.Backend.View.{
  View, Change, saved, value_saved, children_added, metadata_set, change, change_all, IsCall,
  View_ext,
}

-- The items of a generator, of which there are none where it raises at once.
abbrev pub items : Answer (List ℕ) → List ℕ
items (ok ids) = ids
items (raised e) = []

items-children : (j : ℕ) (b : Backend) → items (iterate_children_ids j none b) ≡ children j b
unfolding iterate_children_ids children Dict.get_or
items-children j b = elim (Option-cases (Dict.lookup j b.tree)) [
  | inl e ↦ rw (iterate_children_ids, children, Dict.get_or, e) refl
  | inr (ids, e) ↦ rw (iterate_children_ids, children, Dict.get_or, e) (iterate_from_all 0 ids)
]

-- What the generator of the ids of children does, beside its items: it raises `KeyError` just where
-- no children were ever added.
pub iterate_children_ids-cases :
    (j : ℕ) (b : Backend)
    → ((iterate_children_ids j none b ≡ raised key_error)
        × (items (iterate_children_ids j none b) ≡ []))
      ⊎ (iterate_children_ids j none b ≡ ok (items (iterate_children_ids j none b)))
unfolding iterate_children_ids
iterate_children_ids-cases j b = elim (Option-cases (Dict.lookup j b.tree)) [
  | inl e ↦ inl (rw (iterate_children_ids, e) refl, rw (iterate_children_ids, e) refl)
  | inr (ids, e) ↦ inr (rw (iterate_children_ids, e) refl)
]

-- What can be read of a backend. For the members of the children, a generator that raises counts as
-- one without items.
unfoldable pub view : Backend → View
unfolding get get_value iterate_children_ids get_metadata
view b = record {
  result = λ j. ok (get j b);
  value = λ j. get_value j b;
  child = λ j x. contains x (items (iterate_children_ids j none b));
  metadata = λ j k. Dict.lookup k (get_metadata j b);
}

unfoldable pub perform : Change → Backend → Backend
unfolding set set_value add_children set_metadata
perform (saved id r) b = set id r b
perform (value_saved id h) b = set_value id h b
perform (children_added id ids) b = add_children id ids b
perform (metadata_set id kwargs) b = set_metadata id kwargs b

unfoldable pub perform_all : List Change → Backend → Backend
unfolding perform
perform_all [] b = b
perform_all (ch ∷ more) b = perform_all more (perform ch b)

lookup-merge :
    (k : String) (m kwargs : Dict String Value)
    → Dict.IsDistinct kwargs
    → Dict.lookup k (merge m kwargs) ≡ over (Dict.lookup k kwargs) (Dict.lookup k m)
unfolding merge Dict.lookup
lookup-merge k m [] d = refl
lookup-merge k m ((j, v) ∷ rest) (first, d) = ground (
  arith,
  lookup-merge k (Dict.insert j v m) rest d,
  Dict.lookup-insert j k v m,
  string_eq.beq_iff j k,
)

lookup-set_metadata :
    (id j : ℕ) (k : String) (kwargs : Dict String Value) (b : Backend)
    → Dict.IsDistinct kwargs
    → Dict.lookup k (get_metadata j (set_metadata id kwargs b)) ≡ (
        if id == j
        then over (Dict.lookup k kwargs) (Dict.lookup k (get_metadata j b))
        else Dict.lookup k (get_metadata j b))
unfolding get_metadata set_metadata
lookup-set_metadata id j k kwargs b d = ground (
  arith,
  Dict.lookup-insert id j (merge (get_metadata id b) kwargs) b.metadata,
  lookup-merge k (get_metadata id b) kwargs d,
  nat_eq.beq_iff id j,
)

view-perform : (ch : Change) (b : Backend) → IsCall ch → view (perform ch b) ≡ change ch (view b)
unfolding view perform change
view-perform (saved id r) b call = View_ext (view (set id r b)) (change (saved id r) (view b)) (
  (λ j. unfold get set in ground (arith, Dict.lookup-insert id j r b.results)),
  (λ j. refl),
  (λ j x. refl),
  (λ j k. refl),
)
view-perform (value_saved id h) b call =
    View_ext (view (set_value id h b)) (change (value_saved id h) (view b)) (
      (λ j. refl),
      (λ j. unfold get_value set_value in ground (arith, Dict.lookup-insert id j h b.values)),
      (λ j x. refl),
      (λ j k. refl),
    )
view-perform (children_added id ids) b call =
    View_ext (view (add_children id ids b)) (change (children_added id ids) (view b)) (
      (λ j. refl),
      (λ j. refl),
      (λ j x.
          ap (contains x) (items-children j (add_children id ids b))
          ∙ contains-add_children id j x ids b
          ∙ ap (λ held. contains x held || (if id == j then contains x ids else false))
              (sym (items-children j b))),
      (λ j k. refl),
    )
view-perform (metadata_set id kwargs) b call =
    View_ext (view (set_metadata id kwargs b)) (change (metadata_set id kwargs) (view b))
      ((λ j. refl), (λ j. refl), (λ j x. refl), (λ j k. lookup-set_metadata id j k kwargs b call.0))

-- Whatever calls change a memory backend, what is read of it changes as promised.
pub view-perform_all :
    (changes : List Change) (b : Backend)
    → All IsCall changes
    → view (perform_all changes b) ≡ change_all changes (view b)
unfolding perform_all change_all
view-perform_all [] b calls = refl
view-perform_all (ch ∷ more) b (call, calls) =
    view-perform_all more (perform ch b) calls ∙ ap (change_all more) (view-perform ch b call)
