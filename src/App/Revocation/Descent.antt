-- ===== src/App/Revocation/Descent.antt =====
-- `App.revoke` with its recursion over the children (mognet/app/app.py).
pub mod Marks
use project_mognet.Prelude.{
  ℕ, zero, suc, ◌<◌, ◌≡◌, refl, ap, sym, ◌∙◌, Bool, true, false, not, ◌&&◌, inl, inr, Option, some,
  List, [], ◌∷◌, arith, Bool-cases, Option-cases, none, contains,
}
use project_mognet.Prelude.Eq.{nat_eq, ◌==◌, ==_refl, ==_eq}
use project_mognet.Model.Result.{Result, done}
use project_mognet.Backend.Memory
use project_mognet.Backend.Memory.{Backend, Answer, ok, raised, children}
use project_mognet.Backend.Base.{get_or_create}
use project_mognet.Config.{AppConfig}
use project_mognet.Worker.Node.{Node, control_sent, emit, with_backend}
use project_mognet.App.{Surroundings, revoke_message, revoke_each, revoked_with, revoke}
use project_mognet.App.Revocation.{
  is_done, IsRanked, IsKeyed, Sweeps, same_children, true_or_false, Sweeps-stay, Sweeps-trans,
  found, marked, found-done, found-id, found-kept, marked-id, marked-tree, marked-get,
  marked-is_done, marked-IsKeyed,
}

abbrev is_ok : {A : Type 0} → Answer A → Bool
is_ok (ok x) = true
is_ok (raised e) = false

-- The requests that revoking `root` reaches: itself, and the children of each that was not done.
pub data Reached (b : Backend) (root : ℕ) : ℕ → Type 0 where
  here : Reached b root root
  down :
      (i c : ℕ)
      → Reached b root i
      → is_done i b ≡ false
      → contains c (children i b) ≡ true
      → Reached b root c

-- A request that is marked, and whose children are then all swept, is swept.
marked-Sweeps :
    (force full : Bool) (now id : ℕ) (b c : Backend)
    → IsKeyed b
    → (force ≡ false → is_done id b ≡ false)
    → Sweeps force full (marked now id b).1 c
    → (full ≡ true → (k : ℕ) → contains k (children id b) ≡ true → is_done k c ≡ true)
    → Sweeps force full b c
marked-Sweeps force full now id b c key undone s all = record {
  same_tree = s.same_tree ∙ marked-tree now id b;
  keyed = s.keyed;
  stays = λ j d. s.stays j (ground (arith, marked-is_done now id j b key, d));
  kept = λ f j d. elim (Bool-cases (id == j)) [
    | inl same ↦ absurd (true_or_false (rw (==_eq id j same) d) (undone f))
    | inr other ↦
        s.kept f j (ground (arith, marked-is_done now id j b key, d))
        ∙ ground (arith, marked-get now id j b key, other)
  ];
  closed = λ w j k n d m. elim (Bool-cases (id == j)) [
    | inl same ↦ all w k (rw (==_eq id j same) m)
    | inr other ↦
        s.closed w j k (ground (arith, marked-is_done now id j b key, other, n)) d
          (rw (same_children b (marked now id b).1 (marked-tree now id b) j) m)
  ];
}

and_right : (a b : Bool) → (a && b) ≡ true → b ≡ true
and_right a b h = ground (arith, h)

unforced : (force b : Bool) → force ≡ false → (not force && b) ≡ false → b ≡ false
unforced force b f h = ground (arith, f, h)

module _ (config : AppConfig) (around : Surroundings) (force : Bool) (now : ℕ) where
  abbrev Ends : (ℕ → Node → Option (Answer Result × Node)) → ℕ → Node → Type 0
  Ends one c n =
      (out : Answer Result × Node) × (one c n ≡ some out)
      × Sweeps force (is_ok out.0) n.backend out.1.backend
      × (is_done c out.1.backend ≡ true)

  abbrev Works : (ℕ → Node → Option (Answer Result × Node)) → Backend → ℕ → Type 0
  Works one b c = (n : Node) → IsKeyed n.backend → n.backend.tree ≡ b.tree → Ends one c n

  abbrev EndsEach : (ℕ → Node → Option (Answer Result × Node)) → List ℕ → Node → Type 0
  EndsEach one cs n =
      (out : Answer (Unit {0}) × Node) × (revoke_each config around one cs n ≡ some out)
      × Sweeps force (is_ok out.0) n.backend out.1.backend
      × (is_ok out.0 ≡ true → (k : ℕ) → contains k cs ≡ true → is_done k out.1.backend ≡ true)

  -- The loop behind its first round, which ended with an answer.
  each_next :
      (one : ℕ → Node → Option (Answer Result × Node)) (c : ℕ) (cs : List ℕ) (n : Node)
      (answer : Answer Result) (m : Node)
      → one c n ≡ some (answer, m)
      → Sweeps force (is_ok answer) n.backend m.backend
      → is_done c m.backend ≡ true
      → (Sweeps force true n.backend m.backend → EndsEach one cs m)
      → EndsEach one (c ∷ cs) n
  unfolding revoke_each contains
  each_next one c cs n (raised e) m run s d rest =
      ((raised e, m), rw (run, revoke_each) refl, s, λ w. absurd (cc))
  each_next one c cs n (ok r) m run s d rest =
      let (out, run', s', all) = rest s in
      (
        out,
        rw (run, revoke_each) run',
        Sweeps-trans s s',
        λ w k h. elim (Bool-cases (c == k)) [
          | inl same ↦ s'.stays k (rw (← ==_eq c k same) d)
          | inr other ↦ all w k (ground (arith, other, h))
        ],
      )

  each-Works :
      (one : ℕ → Node → Option (Answer Result × Node)) (b : Backend) (cs : List ℕ)
      → ((c : ℕ) → contains c cs ≡ true → Works one b c)
      → (n : Node) → IsKeyed n.backend
      → n.backend.tree ≡ b.tree
      → EndsEach one cs n
  unfolding revoke_each contains
  each-Works one b [] works n key t = (
    (ok tt, n),
    refl,
    Sweeps-stay force true n.backend key,
    λ w k h. absurd (true_or_false h refl),
  )
  each-Works one b (c ∷ cs) works n key t =
      let (out, run, s, d) = works c (ground (arith, ==_refl c)) n key t in
      each_next one c cs n out.0 out.1 run s d (λ whole.
        each-Works one b cs (λ k m. works k (ground (arith, m))) out.1 whole.keyed
          (whole.same_tree ∙ t))

  marked-children :
      (id : ℕ) (a : Backend)
      → IsKeyed a
      → children (marked now id a).0.id (marked now id a).1 ≡ children id a
  marked-children id a key =
      same_children a (marked now id a).1 (marked-tree now id a) (marked now id a).0.id
      ∙ ap (λ i. children i a) (marked-id now id a ∙ found-id id a key)

  -- A request that was told to the nodes, behind the loop over its children.
  told_next :
      (fuel id : ℕ) (n : Node)
      → IsKeyed n.backend
      → not force && done (found id n.backend) ≡ false
      → around.refuses (revoke_message config around id n) n ≡ none
      → (let r = (marked now id n.backend).0 in
          let told =
            emit
              (control_sent (revoke_message config around id n))
              (with_backend (marked now id n.backend).1 n) in
          (answer : Answer (Unit {0})) (last : Node)
          → revoke_each config around
              (revoke config around fuel force now)
              (children r.id (marked now id n.backend).1)
              told
            ≡ some (answer, last)
          → Sweeps force (is_ok answer) told.backend last.backend
          → (is_ok answer ≡ true
              → (k : ℕ) → contains k (children id n.backend) ≡ true
              → is_done k last.backend ≡ true)
          → Ends (revoke config around (suc fuel) force now) id n)
  unfolding revoke revoked_with
  told_next fuel id n key go heard (raised e) last run s all = (
    (raised e, last),
    rw (revoke, go, heard, run) refl,
    marked-Sweeps force false now id n.backend last.backend key
        (λ f. sym (found-done id n.backend) ∙ unforced force (done (found id n.backend)) f go) s
        all,
    s.stays id (ground (arith, marked-is_done now id id n.backend key, ==_refl id)),
  )
  told_next fuel id n key go heard (ok x) last run s all = (
    (ok (marked now id n.backend).0, last),
    rw (revoke, go, heard, run) refl,
    marked-Sweeps force true now id n.backend last.backend key
        (λ f. sym (found-done id n.backend) ∙ unforced force (done (found id n.backend)) f go) s
        all,
    s.stays id (ground (arith, marked-is_done now id id n.backend key, ==_refl id)),
  )

  module _ (rank : ℕ → ℕ) (b : Backend) (ranked : IsRanked rank b) where
    revoke-Works : (fuel id : ℕ) → rank id < fuel → Works (revoke config around fuel force now) b id
    unfolding revoke
    revoke-Works zero id h n key t = absurd (omega arith)
    revoke-Works (suc fuel) id h n key t =
        let a : Backend = n.backend in
        let ids : List ℕ = children (marked now id a).0.id (marked now id a).1 in
        let own : ids ≡ children id a = marked-children id a key in
        let below : (c : ℕ) → contains c ids ≡ true → rank c < rank id =
          λ c m. ranked id c (rw (← same_children b a t id, ← own) m) in
        let marks = marked-is_done now id id a key in
        elim (Bool-cases (not force && done (found id a))) [
          | inl skip ↦
              let d : is_done id a ≡ true =
                sym (found-done id a) ∙ and_right (not force) (done (found id a)) skip in
              (
                (ok (found id a), with_backend (get_or_create id a).1 n),
                rw (revoke, skip) refl,
                rw (found-kept id a d) (Sweeps-stay force true a key),
                rw (found-kept id a d) d,
              )
          | inr go ↦ elim (Option-cases (around.refuses (revoke_message config around id n) n)) [
            | inr (e, silent) ↦ (
              (raised e, with_backend (marked now id a).1 n),
              rw (revoke, go, silent) refl,
              marked-Sweeps force false now id a (marked now id a).1 key
                  (λ f. sym (found-done id a) ∙ unforced force (done (found id a)) f go)
                  (Sweeps-stay force false (marked now id a).1 (marked-IsKeyed now id a key))
                  (λ w. absurd (cc)),
              ground (arith, marks, ==_refl id),
            )
            | inl heard ↦
                let told : Node =
                  emit (control_sent (revoke_message config around id n))
                    (with_backend (marked now id a).1 n) in
                let (out, run, s, all) =
                  each-Works (revoke config around fuel force now) b ids
                    (λ c m. revoke-Works fuel c (omega (arith, below c m))) told
                    (marked-IsKeyed now id a key) (marked-tree now id a ∙ t) in
                told_next fuel id n key go heard out.0 out.1 run s (λ w k m. all w k (rw own m))
          ]
        ]

-- Revoking without force, where results stand under their ids, the children form no cycle and the
-- fuel is above the rank of the request, ends, and leaves a result as it is that was done, also where
-- an exception of sending a control message is raised.
pub revoke_spares :
    (config : AppConfig) (around : Surroundings) (now : ℕ) (rank : ℕ → ℕ) (fuel id j : ℕ) (n : Node)
    → IsKeyed n.backend
    → IsRanked rank n.backend
    → rank id < fuel
    → is_done j n.backend ≡ true
    → (out : Answer Result × Node) × (revoke config around fuel false now id n ≡ some out)
      × (Memory.get j out.1.backend ≡ Memory.get j n.backend)
revoke_spares config around now rank fuel id j n key ranked h d =
    let (out, run, s, _) =
      revoke-Works config around false now rank n.backend ranked fuel id h n key refl in
    (out, run, s.kept refl j d)
