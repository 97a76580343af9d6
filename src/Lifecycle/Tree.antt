-- ===== src/Lifecycle/Tree.antt =====
-- `Result.tree` of mognet/model/result.py, and mognet/model/result_tree.py.
pub mod Bounds
use project_mognet.Prelude.{
  ℕ, zero, suc, ◌-◌, ltb, Option, none, some, List, [], ◌∷◌, if◌then◌else◌,
}
use project_mognet.Prelude.Eq.{◌==◌, nat_eq}
use project_mognet.Model.Result.{Result}
use project_mognet.Backend.Memory.{
  Backend, Answer, ok, raised, get_children_count, iterate_children,
}

-- `ResultTree`: a result and the list of the trees of its children.
mutual
  pub data Tree : Type 0 where
    node : Result → Trees → Tree

  pub data Trees : Type 0 where
    nil : Trees
    cons : Tree → Trees → Trees

abbrev pub result_of : Tree → Result
result_of (node r ts) = r

abbrev pub width : Trees → ℕ
width nil = 0
width (cons t ts) = suc (width ts)

-- The key `r.result.created or now_utc()`.
abbrev pub sort_key : ℕ → Tree → ℕ
sort_key now t = elim (result_of t).created [ none ↦ now | some c ↦ c ]

-- `list.sort` is stable: a tree goes in front of the first one whose key is not smaller.
insert_sorted : ℕ → Tree → Trees → Trees
insert_sorted now t nil = cons t nil
insert_sorted now t (cons u us) =
    if ltb (sort_key now u) (sort_key now t)
    then cons u (insert_sorted now t us)
    else cons t (cons u us)

unfoldable pub sort : ℕ → Trees → Trees
unfolding insert_sorted
sort now nil = nil
sort now (cons t ts) = insert_sorted now t (sort now ts)

-- The loop over the children: the first error ends it.
build_each : (Result → Answer Tree) → List Result → Answer Trees
build_each build [] = ok nil
build_each build (c ∷ cs) = elim (build c) [
  | raised e ↦ raised e
  | ok t ↦ elim (build_each build cs) [ raised e ↦ raised e | ok ts ↦ ok (cons t ts) ]
]

-- `get_tree` with `levels` levels left below this one, `max_depth - depth`. Where none is left, a
-- result that has children is a leaf.
unfoldable pub get_tree : ℕ → ℕ → ℕ → Backend → Result → Answer Tree
unfolding build_each sort
get_tree now max_width zero b r =
    if get_children_count r.id b == 0
    then elim (iterate_children r.id (some max_width) b) [
      | raised e ↦ raised e
      | ok cs ↦ ok (node r nil)
    ]
    else ok (node r nil)
get_tree now max_width (suc levels) b r = elim (iterate_children r.id (some max_width) b) [
  | raised e ↦ raised e
  | ok cs ↦ elim (build_each (get_tree now max_width levels b) cs) [
    | raised e ↦ raised e
    | ok ts ↦ ok (node r (sort now ts))
  ]
]

-- `depth` starts at 1, and `depth >= max_depth` where no level is left.
unfoldable pub tree : ℕ → ℕ → ℕ → Backend → Result → Answer Tree
unfolding get_tree
tree now max_depth max_width = get_tree now max_width (max_depth - 1)
