-- ===== src/App/Revocation/Descent/Marks.antt =====
-- The result that `revoke` leaves for the request itself (mognet/app/app.py).
use project_mognet.Prelude.{
  Option-cases, none, inl, inr, ℕ, zero, suc, ◌≡◌, refl, ◌∙◌, ◌<◌, true, false, some, List, arith,
  contains,
}
use project_mognet.Prelude.Eq.{nat_eq, ==_refl}
use project_mognet.Model.Result.{Result, done}
use project_mognet.Backend.Memory.{Backend, Answer, ok, raised, children}
use project_mognet.Backend.Memory
use project_mognet.Config.{AppConfig}
use project_mognet.Worker.Node.{Node, emit, with_backend, control_sent}
use project_mognet.App.Revocation.{
  is_done, IsRanked, IsKeyed, found, marked, found-done, marked-get, marked-is_done, marked-IsKeyed,
  marked-tree,
}
use project_mognet.App.Revocation.Descent.{each-Works, revoke-Works, marked-children}
use project_mognet.App.{Surroundings, revoke, revoke_each, revoked_with, revoke_message}

marks_next :
    (config : AppConfig) (around : Surroundings) (now fuel id : ℕ) (n : Node)
    → done (found id n.backend) ≡ false
    → around.refuses (revoke_message config around id n) n ≡ none
    → (answer : Answer (Unit {0})) (last : Node)
    → (let r = (marked now id n.backend).0 in
        let told =
          emit
            (control_sent (revoke_message config around id n))
            (with_backend (marked now id n.backend).1 n) in
        revoke_each config around
          (revoke config around fuel false now)
          (children r.id (marked now id n.backend).1)
          told
        ≡ some (answer, last))
    → Memory.get id last.backend ≡ some (marked now id n.backend).0
    → (out : Answer Result × Node) × (revoke config around (suc fuel) false now id n ≡ some out)
      × (Memory.get id out.1.backend ≡ some (marked now id n.backend).0)
unfolding revoke revoked_with
marks_next config around now fuel id n go heard (raised e) last run kept =
    ((raised e, last), rw (revoke, go, heard, run) refl, kept)
marks_next config around now fuel id n go heard (ok x) last run kept =
    ((ok (marked now id n.backend).0, last), rw (revoke, go, heard, run) refl, kept)

-- Revoking a request that was not done ends with its result marked as revoked, also where an
-- exception of sending a control message ends it.
pub revoke_marks :
    (config : AppConfig) (around : Surroundings) (now : ℕ) (rank : ℕ → ℕ) (fuel id : ℕ) (n : Node)
    → IsKeyed n.backend
    → IsRanked rank n.backend
    → rank id < fuel
    → is_done id n.backend ≡ false
    → (out : Answer Result × Node) × (revoke config around fuel false now id n ≡ some out)
      × (Memory.get id out.1.backend ≡ some (marked now id n.backend).0)
unfolding revoke revoked_with
revoke_marks config around now rank zero id n key ranked h undone = absurd (omega arith)
revoke_marks config around now rank (suc fuel) id n key ranked h undone =
    let a : Backend = n.backend in
    let ids : List ℕ = children (marked now id a).0.id (marked now id a).1 in
    let own : ids ≡ children id a = marked-children config around false now id a key in
    let below : (c : ℕ) → contains c ids ≡ true → rank c < rank id =
      λ c m. ranked id c (rw (← own) m) in
    let go : done (found id a) ≡ false = found-done id a ∙ undone in
    let held : Memory.get id (marked now id a).1 ≡ some (marked now id a).0 =
      ground (arith, marked-get now id id a key, ==_refl id) in
    elim (Option-cases (around.refuses (revoke_message config around id n) n)) [
      | inr (e, silent) ↦
          ((raised e, with_backend (marked now id a).1 n), rw (revoke, go, silent) refl, held)
      | inl heard ↦
          let told : Node =
            emit (control_sent (revoke_message config around id n))
              (with_backend (marked now id a).1 n) in
          let (out, run, s, all) =
            each-Works config around false now (revoke config around fuel false now) a ids
              (λ c m.
                revoke-Works config around false now rank a ranked fuel c
                  (omega (arith, below c m)))
              told (marked-IsKeyed now id a key) (marked-tree now id a) in
          let kept : Memory.get id out.1.backend ≡ some (marked now id a).0 =
            s.kept refl id (ground (arith, marked-is_done now id id a key, ==_refl id)) ∙ held in
          marks_next config around now fuel id n go heard out.0 out.1 run kept
    ]
