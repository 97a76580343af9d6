-- ===== src/Cli/Nodes.antt =====
-- mognet/cli/nodes.py: the report of `status`, in one round of its loop.
pub mod Sorting
pub mod Reports
use project_mognet.Prelude.{
  ℕ, ltb, String, ◌≡◌, refl, Bool, true, false, Option, none, some, List, [], ◌∷◌, ◌++◌,
  if◌then◌else◌, update,
}
use project_mognet.Prelude.Dict
use project_mognet.Prelude.Dict.{Dict}
use project_mognet.Prelude.Eq.{nat_eq}
use project_mognet.Model.Result.{Result}
use project_mognet.Backend.Memory.{Backend, Answer, ok, raised}
use project_mognet.Backend.Base.{get_many}
use project_mognet.Broker.Amqp.Querying.{
  Response, Validated, Generated, get_current_status_of_nodes,
}
use project_mognet.Broker.Amqp.{Broker, Server, Names}
use project_mognet.Broker.Amqp.Acknowledging.{Delivered}
use project_mognet.Request.{Message}

-- `_CliStatusReport.NodeStatus`
pub record NodeStatus : Type 0 where
  pub node_id : String
  pub running_requests : List Result

-- The loop that fills `all_result_ids`.
unfoldable pub all_result_ids : List ℕ → List Response → List ℕ
all_result_ids ids [] = ids
all_result_ids ids (r ∷ rs) = all_result_ids (update ids r.running_request_ids) rs

-- `{r.id: r for r in results}`
unfoldable pub by_id : Dict ℕ Result → List Result → Dict ℕ Result
by_id results [] = results
by_id results (r ∷ rs) = by_id (Dict.insert r.id r results) rs

-- The results of those ids that have one.
unfoldable pub found : Dict ℕ Result → List ℕ → List Result
found results [] = []
found results (id ∷ ids) =
    let rest = found results ids in
    elim (Dict.lookup id results) [ none ↦ rest | some r ↦ r ∷ rest ]

-- The key `r.created or now_utc()`.
abbrev pub created_key : ℕ → Result → ℕ
created_key now r = elim r.created [ none ↦ now | some c ↦ c ]

-- `list.sort`, which is stable.
insert_by_created : ℕ → Result → List Result → List Result
insert_by_created now r [] = r ∷ []
insert_by_created now r (s ∷ rest) =
    if ltb (created_key now s) (created_key now r)
    then s ∷ insert_by_created now r rest
    else r ∷ s ∷ rest

unfoldable pub sort_by_created : ℕ → List Result → List Result
unfolding insert_by_created
sort_by_created now [] = []
sort_by_created now (r ∷ rs) = insert_by_created now r (sort_by_created now rs)

report_rows : ℕ → Dict ℕ Result → List Response → List NodeStatus
unfolding found sort_by_created
report_rows now results [] = []
report_rows now results (r ∷ rs) =
    record {
      node_id = r.node_id;
      running_requests = sort_by_created now (found results r.running_request_ids);
    }
    ∷ report_rows now results rs

-- The report of one round of `status` on the responses that were yielded in time.
unfoldable pub report : ℕ → List Response → Backend → List NodeStatus
unfolding all_result_ids by_id report_rows
report now responses b =
    report_rows now (by_id [] (get_many (all_result_ids [] responses) b)) responses

status_from : ℕ → Backend → Generated → Answer (List NodeStatus) × Broker
status_from now results (rs, none, b) = (ok (report now rs results), b)
status_from now results (rs, some exc, b) = (raised exc, b)

-- One round of `status`: the nodes are asked, and what `get_current_status_of_nodes` yields until it
-- ends, or until the timeout cancels it, is reported. `replies` are the ones that arrive till then.
unfoldable pub status :
    (Validated → Option Response)
    → Names
    → Server
    → Message
    → (replies : List Delivered) (now : ℕ) (results : Backend) → Broker
    → Answer (List NodeStatus) × Broker
unfolding status_from
status status_of names server payload replies now results b =
    status_from now results (get_current_status_of_nodes status_of names server payload replies b)
