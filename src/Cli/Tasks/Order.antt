-- ===== src/Cli/Tasks/Order.antt =====
-- In which order `tree` creates the nodes of the printed tree (mognet/cli/tasks.py).
use project_mognet.Prelude.{
  ℕ, ◌≡◌, refl, true, Option, none, some, List, [], ◌∷◌, ◌++◌, contains, arith,
}
use project_mognet.Prelude.Eq.{nat_eq, ==_refl}
use project_mognet.Model.Result.{Result}
use project_mognet.Lifecycle.Tree.{Tree, Trees, node, nil, cons}
use project_mognet.Cli.Tasks.{build_tree, build_trees}

-- Each parent is among the identifiers of earlier calls: treelib refuses one that it does not know.
abbrev pub AreKnown : List ℕ → List (ℕ × Option ℕ) → Type 0
AreKnown known [] = Unit
AreKnown known ((id, none) ∷ calls) = AreKnown (id ∷ known) calls
AreKnown known ((id, some parent) ∷ calls) =
    (contains parent known ≡ true) × AreKnown (id ∷ known) calls

-- The identifiers that are known behind some calls.
created : List ℕ → List (ℕ × Option ℕ) → List ℕ
created known [] = known
created known ((id, parent) ∷ calls) = created (id ∷ known) calls

created-contains :
    (j : ℕ) (known : List ℕ) (calls : List (ℕ × Option ℕ))
    → contains j known ≡ true
    → contains j (created known calls) ≡ true
unfolding created
created-contains j known [] h = h
created-contains j known ((id, parent) ∷ calls) h =
    created-contains j (id ∷ known) calls (unfold contains in ground (arith, h))

AreKnown-append :
    (known : List ℕ) (calls more : List (ℕ × Option ℕ))
    → AreKnown known calls
    → AreKnown (created known calls) more
    → AreKnown known (calls ++ more)
unfolding created
AreKnown-append known [] more h k = k
AreKnown-append known ((id, none) ∷ calls) more h k = AreKnown-append (id ∷ known) calls more h k
AreKnown-append known ((id, some parent) ∷ calls) more h k =
    (h.0, AreKnown-append (id ∷ known) calls more h.1 k)

known_self : (id : ℕ) (known : List ℕ) → contains id (id ∷ known) ≡ true
unfolding contains
known_self id known = ground (arith, ==_refl id)

mutual
  unfolding build_tree build_trees

  build_tree-AreKnown :
      (parent : ℕ) (known : List ℕ) (t : Tree)
      → contains parent known ≡ true
      → AreKnown known (build_tree (some parent) t)
  build_tree-AreKnown parent known (node r ts) h =
      (h, build_trees-AreKnown r.id (r.id ∷ known) ts (known_self r.id known))

  build_trees-AreKnown :
      (parent : ℕ) (known : List ℕ) (ts : Trees)
      → contains parent known ≡ true
      → AreKnown known (build_trees (some parent) ts)
  build_trees-AreKnown parent known nil h = tt
  build_trees-AreKnown parent known (cons t ts) h =
      AreKnown-append known (build_tree (some parent) t) (build_trees (some parent) ts)
        (build_tree-AreKnown parent known t h)
        (build_trees-AreKnown parent (created known (build_tree (some parent) t)) ts
          (created-contains parent known (build_tree (some parent) t) h))

-- Whatever the tree, its root is created first and without a parent, and each other node under a
-- parent that was created before it.
pub build_tree_ordered :
    (r : Result) (ts : Trees)
    → (build_tree none (node r ts) ≡ (r.id, none) ∷ build_trees (some r.id) ts)
      × AreKnown [] (build_tree none (node r ts))
unfolding build_tree
build_tree_ordered r ts = (refl, build_trees-AreKnown r.id (r.id ∷ []) ts (known_self r.id []))
