-- ===== src/Cli/Nodes/Reports.antt =====
-- What `status` reports of each node that replied (mognet/cli/nodes.py).
use project_mognet.Prelude.{
  ℕ, ◌≡◌, refl, true, Option, none, some, List, [], ◌∷◌, ◌||◌, update, contains, arith, inl, inr,
  is_some, ◌&&◌, Option-cases, contains-update,
}
use project_mognet.Prelude.Dict
use project_mognet.Prelude.Dict.{Dict}
use project_mognet.Prelude.Eq.{nat_eq}
use project_mognet.Model.Result.{Result}
use project_mognet.Backend.Memory.{Backend, ok}
use project_mognet.Backend.Memory
use project_mognet.Backend.Base.{get_many}
use project_mognet.Broker.Amqp.Querying.{
  Response, Validated, Generated, get_current_status_of_nodes,
}
use project_mognet.Broker.Amqp.{Broker, Server, Names}
use project_mognet.Broker.Amqp.Acknowledging.{Delivered}
use project_mognet.Request.{Message}
use project_mognet.Cli.Nodes.{
  NodeStatus, all_result_ids, by_id, found, sort_by_created, report_rows, report, status,
  status_from,
}
use project_mognet.Cli.Nodes.Sorting.{IsSorted, sort-IsSorted, ids_of, sort-contains}

-- The results of a dictionary, and of a backend, stand under their ids.
abbrev pub AreKeyed : Dict ℕ Result → Type 0
AreKeyed results = (j : ℕ) (r : Result) → Dict.lookup j results ≡ some r → r.id ≡ j

found-contains :
    (j : ℕ) (results : Dict ℕ Result) (ids : List ℕ)
    → AreKeyed results
    → contains j (ids_of (found results ids)) ≡ (contains j ids && is_some (Dict.lookup j results))
unfolding found contains
found-contains j results [] keyed = refl
found-contains j results (id ∷ ids) keyed = elim (Option-cases (Dict.lookup id results)) [
  | inl missing ↦ ground (arith, missing, found-contains j results ids keyed)
  | inr (r, there) ↦ ground (arith, there, keyed id r there, found-contains j results ids keyed)
]

by_id-AreKeyed :
    (results : Dict ℕ Result) (rs : List Result) → AreKeyed results → AreKeyed (by_id results rs)
unfolding by_id
by_id-AreKeyed results [] keyed = keyed
by_id-AreKeyed results (s ∷ rs) keyed =
    by_id-AreKeyed (Dict.insert s.id s results) rs (λ j r e.
      ground (arith, Dict.lookup-insert s.id j s results, keyed j r, nat_eq.beq_iff s.id j))

by_id-lookup :
    (j : ℕ) (ids : List ℕ) (results : Dict ℕ Result) (b : Backend)
    → AreKeyed b.results
    → is_some (Dict.lookup j (by_id results (get_many ids b)))
      ≡ (is_some (Dict.lookup j results) || (contains j ids && is_some (Memory.get j b)))
unfolding by_id get_many contains Memory.get
by_id-lookup j [] results b keyed = ground arith
by_id-lookup j (id ∷ ids) results b keyed = elim (Option-cases (Memory.get id b)) [
  | inl missing ↦ ground (arith, missing, by_id-lookup j ids results b keyed)
  | inr (r, there) ↦ ground (
    arith,
    there,
    keyed id r there,
    by_id-lookup j ids (Dict.insert r.id r results) b keyed,
    Dict.lookup-insert r.id j r results,
  )
]

-- A reply is reported where each id that it names is among those that were looked up.
abbrev pub AreSought : List ℕ → List Response → Type 0
AreSought sought [] = Unit
AreSought sought (r ∷ rs) =
    ((j : ℕ) → contains j r.running_request_ids ≡ true → contains j sought ≡ true)
    × AreSought sought rs

all_result_ids-contains :
    (j : ℕ) (ids : List ℕ) (rs : List Response)
    → contains j ids ≡ true
    → contains j (all_result_ids ids rs) ≡ true
unfolding all_result_ids
all_result_ids-contains j ids [] h = h
all_result_ids-contains j ids (r ∷ rs) h =
    all_result_ids-contains j (update ids r.running_request_ids) rs
      (ground (arith, contains-update j ids r.running_request_ids, h))

all_result_ids-AreSought :
    (ids : List ℕ) (rs : List Response) → AreSought (all_result_ids ids rs) rs
unfolding all_result_ids
all_result_ids-AreSought ids [] = tt
all_result_ids-AreSought ids (r ∷ rs) = (
  λ j h.
      all_result_ids-contains j (update ids r.running_request_ids) rs
        (ground (arith, contains-update j ids r.running_request_ids, h)),
  all_result_ids-AreSought (update ids r.running_request_ids) rs,
)

-- One row for each reply: the node's name, and the requests that it named and that have a result, in
-- the order of their creation.
abbrev pub Reports : ℕ → Backend → List Response → List NodeStatus → Type 0
Reports now b [] [] = Unit
Reports now b [] (s ∷ ss) = ⊥
Reports now b (r ∷ rs) [] = ⊥
Reports now b (r ∷ rs) (s ∷ ss) =
    (s.node_id ≡ r.node_id)
    × IsSorted now s.running_requests
    × ((j : ℕ)
        → contains j (ids_of s.running_requests)
          ≡ (contains j r.running_request_ids && is_some (Memory.get j b)))
    × Reports now b rs ss

row-contains :
    (now j : ℕ) (sought : List ℕ) (r : Response) (b : Backend)
    → AreKeyed b.results
    → (contains j r.running_request_ids ≡ true → contains j sought ≡ true)
    → contains j
        (ids_of (sort_by_created now (found (by_id [] (get_many sought b)) r.running_request_ids)))
      ≡ (contains j r.running_request_ids && is_some (Memory.get j b))
unfolding Dict.lookup
row-contains now j sought r b keyed asked =
    let results = by_id [] (get_many sought b) in
    ground (
      arith,
      sort-contains now j (found results r.running_request_ids),
      found-contains j results r.running_request_ids
          (by_id-AreKeyed [] (get_many sought b) (λ i s e. absurd (cc))),
      by_id-lookup j sought [] b keyed,
    )

report_rows-Reports :
    (now : ℕ) (sought : List ℕ) (rs : List Response) (b : Backend)
    → AreKeyed b.results
    → AreSought sought rs
    → Reports now b rs (report_rows now (by_id [] (get_many sought b)) rs)
unfolding report_rows
report_rows-Reports now sought [] b keyed a = tt
report_rows-Reports now sought (r ∷ rs) b keyed a = (
  refl,
  sort-IsSorted now (found (by_id [] (get_many sought b)) r.running_request_ids),
  λ j. row-contains now j sought r b keyed (a.0 j),
  report_rows-Reports now sought rs b keyed a.1,
)

-- The report on the responses that were yielded.
report-Reports :
    (now : ℕ) (rs : List Response) (b : Backend)
    → AreKeyed b.results
    → Reports now b rs (report now rs b)
unfolding report
report-Reports now rs b keyed =
    report_rows-Reports now (all_result_ids [] rs) rs b keyed (all_result_ids-AreSought [] rs)

status_from-ended :
    (now : ℕ) (results : Backend) (g : Generated)
    → g.1 ≡ none
    → status_from now results g ≡ (ok (report now g.0 results), g.2)
unfolding status_from
status_from-ended now results (rs, none, b) e = refl
status_from-ended now results (rs, some x, b) e = absurd (cc)

-- Where the query for the status does not raise and results stand under their ids, `status` reports a
-- row for each status that `get_current_status_of_nodes` yields, in their order, with the name of the
-- node and with the requests that it named and that have a result, no others, in the order of their
-- creation. The responses are validated by any function, also one that refuses all of them, which
-- leaves the report empty.
pub status-Reports :
    (status_of : Validated → Option Response) (names : Names) (server : Server) (payload : Message)
    (replies : List Delivered) (now : ℕ) (results : Backend) (b : Broker)
    → AreKeyed results.results
    → let asked = get_current_status_of_nodes status_of names server payload replies b in
      asked.1 ≡ none
      → (rows : List NodeStatus) × (status status_of names server payload replies now results b
          ≡ (ok rows, asked.2))
        × Reports now results asked.0 rows
unfolding status
status-Reports status_of names server payload replies now results b keyed ended =
    let asked = get_current_status_of_nodes status_of names server payload replies b in
    (
      report now asked.0 results,
      status_from-ended now results asked ended,
      report-Reports now asked.0 results keyed,
    )
