-- ===== src/App/Revocation.antt =====
-- What one call of `App.revoke` does to the backend before it goes on to the children
-- (mognet/app/app.py).
pub mod Descent
use project_mognet.Prelude.{
  ℕ, zero, suc, ◌+◌, ◌<◌, ◌≡◌, refl, ap, sym, ◌∙◌, Bool, true, false, not, ◌&&◌, ◌||◌, ◌⊎◌, inl,
  inr, Option, none, some, List, [], ◌∷◌, ◌++◌, arith, Bool-cases, Option-cases, contains,
  if◌then◌else◌, if_ind,
}
use project_mognet.Prelude.Dict
use project_mognet.Prelude.Eq.{nat_eq, ◌==◌, ==_refl, ==_eq}
use project_mognet.Model.Result.{Result, fresh, done}
use project_mognet.Backend.Memory
use project_mognet.Backend.Memory.{Backend, children}
use project_mognet.Backend.Base.{get_or_create}
use project_mognet.Config.{AppConfig}
use project_mognet.Lifecycle
use project_mognet.Worker.Node.{Node, control_sent, emit, with_backend}
use project_mognet.App.{Surroundings, revoke_message, revoke_each, revoke}

-- Whether the backend holds a result for the id that is done.
abbrev pub is_done : ℕ → Backend → Bool
is_done j b = elim (Memory.get j b) [ none ↦ false | some r ↦ done r ]

-- The children's table forms no cycle: each child has a lower rank than its parent.
abbrev pub IsRanked : (ℕ → ℕ) → Backend → Type 0
IsRanked rank b = (i c : ℕ) → contains c (children i b) ≡ true → rank c < rank i

-- Each result stands under its own id.
abbrev pub IsKeyed : Backend → Type 0
IsKeyed b = (id : ℕ) (r : Result) → Memory.get id b ≡ some r → r.id ≡ id

-- What revoking leaves of a backend: the children's table is as it was, what was done is still done,
-- and if it is not forced as it was; and in a full sweep, where a result became done, so did those of its
-- children.
pub record Sweeps (force full : Bool) (b c : Backend) : Type 0 where
  pub same_tree : c.tree ≡ b.tree
  pub keyed : IsKeyed c
  pub stays : (j : ℕ) → is_done j b ≡ true → is_done j c ≡ true
  pub kept : force ≡ false → (j : ℕ) → is_done j b ≡ true → Memory.get j c ≡ Memory.get j b
  pub closed :
      full ≡ true
      → (j k : ℕ) → is_done j b ≡ false
      → is_done j c ≡ true
      → contains k (children j b) ≡ true
      → is_done k c ≡ true

pub same_children : (b c : Backend) → c.tree ≡ b.tree → (j : ℕ) → children j c ≡ children j b
unfolding children
same_children b c e j = ap (λ (t : Dict.Dict ℕ (List ℕ)). Dict.get_or j [] t) e

pub true_or_false : {b : Bool} → b ≡ true → ¬ (b ≡ false)
true_or_false p q = ground (arith, p, q)

pub Sweeps-stay : (force full : Bool) (b : Backend) → IsKeyed b → Sweeps force full b b
Sweeps-stay force full b key = record {
  same_tree = refl;
  keyed = key;
  stays = λ j d. d;
  kept = λ f j d. refl;
  closed = λ w j k n d m. absurd (true_or_false d n);
}

pub Sweeps-trans :
    {force full : Bool} {b c d : Backend}
    → Sweeps force true b c
    → Sweeps force full c d
    → Sweeps force full b d
Sweeps-trans {force} {full} {b} {c} {d} s t = record {
  same_tree = t.same_tree ∙ s.same_tree;
  keyed = t.keyed;
  stays = λ j e. t.stays j (s.stays j e);
  kept = λ f j e. t.kept f j (s.stays j e) ∙ s.kept f j e;
  closed = λ w j k n e m. elim (Bool-cases (is_done j c)) [
    | inl e' ↦ t.stays k (s.closed refl j k n e' m)
    | inr n' ↦ t.closed w j k n' e (rw (same_children b c s.same_tree j) m)
  ];
}

-- The result is looked up or created, and marked as revoked.
abbrev pub found : ℕ → Backend → Result
found id b = (get_or_create id b).0

abbrev pub marked : ℕ → ℕ → Backend → Result × Backend
marked now id b = Lifecycle.revoke now (found id b) (get_or_create id b).1

found_new :
    (id : ℕ) (b : Backend)
    → Memory.get id b ≡ none
    → get_or_create id b ≡ (fresh id, Memory.set id (fresh id) b)
unfolding get_or_create
found_new id b e = rw (e, get_or_create) refl

found_old :
    (id : ℕ) (b : Backend) (r : Result) → Memory.get id b ≡ some r → get_or_create id b ≡ (r, b)
unfolding get_or_create
found_old id b r e = rw (e, get_or_create) refl

pub found-done : (id : ℕ) (b : Backend) → done (found id b) ≡ is_done id b
found-done id b = elim (Option-cases (Memory.get id b)) [
  | inl e ↦ rw (found, found_new id b e, is_done, e) (unfold done in refl)
  | inr (r, e) ↦ rw (found, found_old id b r e, is_done, e) refl
]

pub found-id : (id : ℕ) (b : Backend) → IsKeyed b → (found id b).id ≡ id
found-id id b key = elim (Option-cases (Memory.get id b)) [
  | inl e ↦ rw (found, found_new id b e) refl
  | inr (r, e) ↦ rw (found, found_old id b r e) (key id r e)
]

pub found-kept : (id : ℕ) (b : Backend) → is_done id b ≡ true → (get_or_create id b).1 ≡ b
found-kept id b d = elim (Option-cases (Memory.get id b)) [
  | inl e ↦ absurd (ground (arith, e, d))
  | inr (r, e) ↦ rw (found_old id b r e) refl
]

stands_there :
    (id j : ℕ) (b : Backend) (r : Result)
    → Memory.get id b ≡ some r
    → Memory.get j b ≡ (if id == j then some r else Memory.get j b)
stands_there id j b r e = elim (Bool-cases (id == j)) [
  | inl same ↦ rw (same, ← ==_eq id j same) e
  | inr other ↦ rw other refl
]

found-get :
    (id j : ℕ) (b : Backend)
    → Memory.get j (get_or_create id b).1 ≡ (if id == j then some (found id b) else Memory.get j b)
found-get id j b = elim (Option-cases (Memory.get id b)) [
  | inl e ↦
      rw (found, found_new id b e)
        (unfold Memory.get Memory.set in Dict.lookup-insert id j (fresh id) b.results)
  | inr (r, e) ↦ rw (found, found_old id b r e) (stands_there id j b r e)
]

found-tree : (id : ℕ) (b : Backend) → (get_or_create id b).1.tree ≡ b.tree
found-tree id b = elim (Option-cases (Memory.get id b)) [
  | inl e ↦ rw (found_new id b e) (unfold Memory.set in refl)
  | inr (r, e) ↦ rw (found_old id b r e) refl
]

pub marked-id : (now id : ℕ) (b : Backend) → (marked now id b).0.id ≡ (found id b).id
unfolding Lifecycle.revoke
marked-id now id b = refl

pub marked-done : (now id : ℕ) (b : Backend) → done (marked now id b).0 ≡ true
unfolding Lifecycle.revoke done
marked-done now id b = refl

pub marked-tree : (now id : ℕ) (b : Backend) → (marked now id b).1.tree ≡ b.tree
unfolding Lifecycle.revoke Lifecycle.save Memory.set
marked-tree now id b = found-tree id b

pub marked-get :
    (now id j : ℕ) (b : Backend)
    → IsKeyed b
    → Memory.get j (marked now id b).1
      ≡ (if id == j then some (marked now id b).0 else Memory.get j b)
unfolding Lifecycle.revoke Lifecycle.save Memory.set Memory.get
marked-get now id j b key = ground (
  arith,
  Dict.lookup-insert (found id b).id j (marked now id b).0 (get_or_create id b).1.results,
  found-id id b key,
  found-get id j b,
)

pub marked-is_done :
    (now id j : ℕ) (b : Backend)
    → IsKeyed b
    → is_done j (marked now id b).1 ≡ (if id == j then true else is_done j b)
marked-is_done now id j b key = elim (Bool-cases (id == j)) [
  | inl same ↦ rw (is_done, marked-get now id j b key, same) (marked-done now id b)
  | inr other ↦ rw (is_done, marked-get now id j b key, other) refl
]

id_of : Option Result → ℕ
id_of none = 0
id_of (some r) = r.id

same_id : {r s : Result} → some r ≡ some s → r.id ≡ s.id
unfolding id_of
same_id e = ap id_of e

pub marked-IsKeyed : (now id : ℕ) (b : Backend) → IsKeyed b → IsKeyed (marked now id b).1
marked-IsKeyed now id b key j r e = elim (Bool-cases (id == j)) [
  | inl same ↦
      let held : some r ≡ some (marked now id b).0 =
        sym e ∙ ground (arith, marked-get now id j b key, same) in
      same_id held ∙ marked-id now id b ∙ found-id id b key ∙ ==_eq id j same
  | inr other ↦ key j r (ground (arith, marked-get now id j b key, other, e))
]
