-- ===== src/Examples/Revoking.antt =====
-- Requests and jobs that are revoked, each at a concrete input.
use project_mognet.Prelude.{
  ℕ, ◌≡◌, sym, ap, ◌∙◌, inl, inr, refl, true, false, Option, none, some, [], ◌∷◌, arith, contains,
}
use project_mognet.Prelude.Dict
use project_mognet.Prelude.Eq.{nat_eq, ◌==◌, ==_eq}
use project_mognet.Model.State.{revoked, success, is_in}
use project_mognet.Model.Result.{Result, fresh, done}
use project_mognet.Backend.Memory
use project_mognet.Backend.Memory.{Backend, Answer, ok, raised}
use project_mognet.Worker.Node.{Node}
use project_mognet.Backend.Memory.{ok, raised}
use project_mognet.Prelude.{if◌then◌else◌, Bool-cases}
use project_mognet.App.{revoke}
use project_mognet.Demo.Service.{answered, revoke_job, get_job_result}
use project_mognet.Demo.Service.Revoking.{revoke_job-get_job_result}
use project_mognet.App.Revocation.{IsKeyed, IsRanked}
use project_mognet.App.Revocation.Descent.{revoke_spares}
use project_mognet.Examples.{config, python, backend, busy, around}

abbrev finished : Result
finished = record (fresh 1) { state = success }

abbrev finished_node : Node
finished_node = record busy { backend = record backend { results = (1, finished) ∷ [] } }

-- The request 1 above its child 2.
abbrev rank : ℕ → ℕ
rank i = if i == 1 then 1 else 0

-- A node that holds no result yet beside the table of children.
abbrev unheard : Node
unheard = record busy { backend = record backend { results = [] } }

abbrev id_of : Option Result → ℕ
id_of none = 0
id_of (some r) = r.id

abbrev with_result : Result → Backend
with_result r = record backend { results = (1, r) ∷ [] }

IsKeyed-one : (r : Result) → r.id ≡ 1 → IsKeyed (with_result r)
unfolding Memory.get Dict.lookup
IsKeyed-one held own id r e = elim (Bool-cases (1 == id)) [
  | inl same ↦
      let found : some held ≡ some r = ground (arith, e, same) in
      sym (ap id_of found) ∙ own ∙ ==_eq 1 id same
  | inr other ↦ absurd (ground (arith, e, other))
]

ranked : IsRanked rank backend
unfolding Memory.children Dict.get_or Dict.lookup contains
ranked i c m = ground (arith, m)

revoke_spares_example :
    (out : Answer Result × Node) × (revoke config around 2 false 10 1 finished_node ≡ some out)
    × (Memory.get 1 out.1.backend ≡ Memory.get 1 finished_node.backend)
unfolding Memory.get Memory.children Dict.get_or Dict.lookup contains done is_in
revoke_spares_example =
    revoke_spares config around 10 rank 2 1 1 finished_node (IsKeyed-one finished refl) ranked
      (omega arith) refl

abbrev open_job : Node
open_job = record busy { backend = with_result (fresh 1) }

revoke_job-get_job_result_example :
    (out : Answer (Unit {0}) × Node) × (revoke_job config around 2 10 1 open_job ≡ some out)
    × (get_job_result python some 1 true out.1.backend [] out.1.backend
        ≡ answered (record { job_id = 1; job_status = revoked; result = none }))
unfolding Memory.get Memory.children Dict.get_or Dict.lookup contains done is_in
revoke_job-get_job_result_example =
    revoke_job-get_job_result config around python some 10 rank 2 1 open_job true []
      (IsKeyed-one (fresh 1) refl) ranked (omega arith) refl
