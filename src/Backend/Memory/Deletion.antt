-- ===== src/Backend/Memory/Deletion.antt =====
-- `delete` of the memory backend with its recursion over the children.
use project_mognet.Prelude.{
  ℕ, String, zero, suc, ◌<◌, ◌≡◌, refl, ap, ◌∙◌, true, ◌⊎◌, Option, none, some, List, [], ◌∷◌,
  arith, if◌then◌else◌, contains, Bool-cases, inl, inr,
}
use mathlib.Core.Path.{fun_ext}
use project_mognet.Prelude.Dict
use project_mognet.Prelude.Dict.{Dict}
use project_mognet.Model.Value.{Value, ValueHolder}
use project_mognet.Prelude.Eq.{nat_eq, ◌==◌, ==_eq}
use project_mognet.Model.Result.{Result}
use project_mognet.Backend.Memory.{Backend, get, children, forget, delete, delete_all}

-- `j` is `i` or a descendant of it, by a table of children.
pub data Below (ch : ℕ → List ℕ) (j : ℕ) : ℕ → Type 0 where
  here : Below ch j j
  down : (i c : ℕ) → contains c (ch i) ≡ true → Below ch j c → Below ch j i

abbrev pub table : Backend → ℕ → List ℕ
table b i = children i b

-- What the backend holds for an id beside its children.
abbrev pub Entry : Type 0
Entry = Option Result × Option ValueHolder × Option (Dict String Value)

abbrev pub entry : ℕ → Backend → Entry
entry j b = (get j b, Dict.lookup j b.values, Dict.lookup j b.metadata)

abbrev pub nothing : Entry
nothing = (none, none, none)

entry-forget :
    (id j : ℕ) (b : Backend) → entry j (forget id b) ≡ (if id == j then nothing else entry j b)
unfolding get forget
entry-forget id j b = ground (
  arith,
  Dict.lookup-remove id j b.results,
  Dict.lookup-remove id j b.values,
  Dict.lookup-remove id j b.metadata,
)

-- What a deletion of everything in `Gone` leaves.
record Removes (Gone : ℕ → Type 0) (b b' : Backend) : Type 0 where
  same_tree : b'.tree ≡ b.tree
  gone : (j : ℕ) → Gone j → entry j b' ≡ nothing
  kept : (j : ℕ) → Gone j ⊎ (entry j b' ≡ entry j b)

stays_gone :
    {Gone : ℕ → Type 0} {b b' : Backend}
    → Removes Gone b b'
    → (j : ℕ) → entry j b ≡ nothing
    → entry j b' ≡ nothing
stays_gone h j e = elim (h.kept j) [ inl g ↦ h.gone j g | inr same ↦ same ∙ e ]

Removes-trans :
    {G H : ℕ → Type 0} (K : ℕ → Type 0) {b c d : Backend}
    → Removes G b c
    → Removes H c d
    → ((j : ℕ) → K j → G j ⊎ H j)
    → ((j : ℕ) → G j ⊎ H j → K j)
    → Removes K b d
Removes-trans K f g split join = record {
  same_tree = g.same_tree ∙ f.same_tree;
  gone = λ j k. elim (split j k) [ inl x ↦ stays_gone g j (f.gone j x) | inr y ↦ g.gone j y ];
  kept = λ j. elim (g.kept j) [
    | inl y ↦ inl (join j (inr y))
    | inr e ↦ elim (f.kept j) [ inl x ↦ inl (join j (inl x)) | inr e' ↦ inr (e ∙ e') ]
  ];
}

forget-Removes : (id : ℕ) (b : Backend) → Removes (λ j. id ≡ j) b (forget id b)
forget-Removes id b = record {
  same_tree = unfold forget in refl;
  gone = λ j e. ground (arith, entry-forget id j b);
  kept = λ j. elim (Bool-cases (id == j)) [
    | inl same ↦ inl (==_eq id j same)
    | inr other ↦ inr (ground (arith, entry-forget id j b))
  ];
}

table_cong : (b b' : Backend) → b'.tree ≡ b.tree → table b' ≡ table b
unfolding children
table_cong b b' e = fun_ext (λ i. ap (λ (t : Dict ℕ (List ℕ)). Dict.get_or i [] t) e)

module _ (ch : ℕ → List ℕ) where
  -- What the calls for the members of a list remove.
  abbrev BelowAny : List ℕ → ℕ → Type 0
  BelowAny cs j = (c : ℕ) × (contains c cs ≡ true) × Below ch j c

  BelowAny-split :
      (c : ℕ) (cs : List ℕ) (j : ℕ) → BelowAny (c ∷ cs) j → Below ch j c ⊎ BelowAny cs j
  unfolding contains
  BelowAny-split c cs j (d, m, h) = elim (Bool-cases (c == d)) [
    | inl same ↦ inl (rw (==_eq c d same) h)
    | inr other ↦ inr (d, ground arith, h)
  ]

  BelowAny-join : (c : ℕ) (cs : List ℕ) (j : ℕ) → Below ch j c ⊎ BelowAny cs j → BelowAny (c ∷ cs) j
  unfolding contains
  BelowAny-join c cs j (inl h) = (c, ground arith, h)
  BelowAny-join c cs j (inr (d, m, h)) = (d, ground arith, h)

  Below-split : (i j : ℕ) → Below ch j i → BelowAny (ch i) j ⊎ (i ≡ j)
  Below-split i j here = inr refl
  Below-split i j (down _ c m h) = inl (c, m, h)

  Below-join : (i j : ℕ) → BelowAny (ch i) j ⊎ (i ≡ j) → Below ch j i
  Below-join i j (inl (c, m, h)) = down i c m h
  Below-join i j (inr e) = rw e here

  abbrev Works : (ℕ → Backend → Option Backend) → ℕ → Type 0
  Works delete_one c =
      (b : Backend)
      → table b ≡ ch
      → (b' : Backend) × (delete_one c b ≡ some b') × Removes (λ j. Below ch j c) b b'

  delete_all-Works :
      (delete_one : ℕ → Backend → Option Backend) (cs : List ℕ)
      → ((c : ℕ) → contains c cs ≡ true → Works delete_one c)
      → (b : Backend) → table b ≡ ch
      → (b' : Backend) × (delete_all delete_one cs b ≡ some b') × Removes (BelowAny cs) b b'
  unfolding delete_all contains
  delete_all-Works delete_one [] one b t =
      (b, refl, record { same_tree = refl; gone = λ j (d, m, h). cc; kept = λ j. inr refl })
  delete_all-Works delete_one (c ∷ cs) one b t =
      let (d, run, f) = one c (ground arith) b t in
      let (d', run', g) =
        delete_all-Works delete_one cs (λ k m. one k (ground arith)) d
          (table_cong b d f.same_tree ∙ t) in
      (
        d',
        rw (run, delete_all) run',
        Removes-trans (BelowAny (c ∷ cs)) f g (BelowAny-split c cs) (BelowAny-join c cs),
      )

  module _ (rank : ℕ → ℕ) (acyclic : (i c : ℕ) → contains c (ch i) ≡ true → rank c < rank i) where
    delete-Works : (fuel id : ℕ) → rank id < fuel → Works (delete fuel true) id
    unfolding delete
    delete-Works zero id h b t = absurd (omega arith)
    delete-Works (suc fuel) id h b t =
        let ids : List ℕ = children id b in
        let e : ids ≡ ch id = ap (λ (f : ℕ → List ℕ). f id) t in
        let (d, run, f) =
          delete_all-Works (delete fuel true) (ch id)
            (λ c m. delete-Works fuel c (omega (arith, acyclic id c m))) b t in
        (
          forget id d,
          rw (e, delete_all, run, delete) refl,
          Removes-trans (λ j. Below ch j id) f (forget-Removes id d) (Below-split id)
              (Below-join id),
        )

-- A deletion with the children ends, where the children form no cycle (each has a lower rank than
-- its parent) and the fuel is above the rank of the root: then the backend holds no result, no value
-- and no metadata for the root and each of its descendants, and the table of children is as it was.
pub delete_removes :
    (rank : ℕ → ℕ) (fuel id j : ℕ) (b : Backend)
    → ((i c : ℕ) → contains c (children i b) ≡ true → rank c < rank i)
    → rank id < fuel
    → Below (table b) j id
    → (b' : Backend) × (delete fuel true id b ≡ some b')
      × (entry j b' ≡ nothing)
      × (b'.tree ≡ b.tree)
delete_removes rank fuel id j b acyclic h below =
    let (b', run, f) = delete-Works (table b) rank acyclic fuel id h b refl in
    (b', run, f.gone j below, f.same_tree)

-- Under the same conditions (no cycle of children by a rank, and fuel above the rank of the root), a
-- deletion with the children leaves the result, the value and the metadata of an id that is neither
-- the root nor a descendant of it as they were.
pub delete_keeps :
    (rank : ℕ → ℕ) (fuel id j : ℕ) (b : Backend)
    → ((i c : ℕ) → contains c (children i b) ≡ true → rank c < rank i)
    → rank id < fuel
    → ¬ Below (table b) j id
    → (b' : Backend) × (delete fuel true id b ≡ some b') × (entry j b' ≡ entry j b)
delete_keeps rank fuel id j b acyclic h far =
    let (b', run, f) = delete-Works (table b) rank acyclic fuel id h b refl in
    (b', run, elim (f.kept j) [ inl near ↦ absurd (far near) | inr same ↦ same ])
