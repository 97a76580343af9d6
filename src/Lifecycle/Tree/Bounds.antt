-- ===== src/Lifecycle/Tree/Bounds.antt =====
-- The shape of the trees that `Result.tree` builds, over the memory backend.
use project_mognet.Prelude.{ℕ, zero, suc, ◌-◌, ◌≤◌, ◌≡◌, none, arith}
use project_mognet.Prelude.Dict
use project_mognet.Prelude.Eq.{nat_eq}
use project_mognet.Model.Result.{Result}
use project_mognet.Model.Value.{key_error}
use project_mognet.Backend.Memory.{
  Backend, raised, get_children_count, iterate_children, iterate_children_ids, children,
}
use project_mognet.Lifecycle.Tree.{Tree, Trees, node, nil, cons, width, sort_key, get_tree, tree}

abbrev pub Each : (Tree → Type 0) → Trees → Type 0
Each P nil = Unit
Each P (cons t ts) = P t × Each P ts

-- The keys ascend.
abbrev pub IsSorted : ℕ → Trees → Type 0
IsSorted now nil = Unit
IsSorted now (cons t nil) = Unit
IsSorted now (cons t (cons u us)) = (sort_key now t ≤ sort_key now u) × IsSorted now (cons u us)

-- At most `levels` levels of children, at most `w` children to a node, sorted by their key.
abbrev pub Fits : ℕ → ℕ → ℕ → Tree → Type 0
Fits now w zero (node r ts) = ts ≡ nil
Fits now w (suc levels) (node r ts) = (width ts ≤ w) × IsSorted now ts × Each (Fits now w levels) ts

-- For a result to which no children were ever added the tree is not a leaf: building it raises
-- `KeyError`, whatever the limits are.
pub tree_childless :
    (now max_depth max_width : ℕ) (b : Backend) (r : Result)
    → Dict.lookup r.id b.tree ≡ none
    → tree now max_depth max_width b r ≡ raised key_error
unfolding tree get_tree get_children_count children iterate_children iterate_children_ids
tree_childless now max_depth max_width b r e = leaf (max_depth - 1)
  where
    leaf : (levels : ℕ) → get_tree now max_width levels b r ≡ raised key_error
    leaf zero = ground arith
    leaf (suc levels) = ground arith
