-- ===== src/LanggraphAgent/ApprovalStore.antt =====
-- langgraph_agent/checkpoints/sqlite_checkpointer.py: the requests for approvals, and the decisions on them.
pub mod Approvals
use ops_incident_collector.Prelude.{
  ℕ, String, Bool, true, false, ◌&&◌, ◌||◌, Option, none, some, List, [], ◌∷◌, ◌++◌, ◌+◌, map, keep,
  length, ltb, ◌===◌, truthy, one_of, lower, ends_with, Result, ok, raise, key_error, ◌<>◌,
  if◌then◌else◌,
}
use ops_incident_collector.Core.Json.{
  Value, Items, Fields, null, boolean, number, text, array, object, nil, cons, end, field,
  get_field,
}
use ops_incident_collector.LanggraphAgent.RunStore.{
  GraphApproval, GraphRunStore, sanitize_for_storage,
}

-- `run_id = ? AND node_name = ? AND status = 'pending'`
unfoldable pub awaits : (run_id node_name : String) → GraphApproval → Bool
awaits run_id node_name a =
    (a.run_id === run_id) && (a.node_name === node_name) && (a.status === "pending")

-- `ORDER BY created_at DESC LIMIT 1`; of two at one time SQLite may give either, and this is the
-- older one.
unfoldable pub latest_approval : List GraphApproval → Option GraphApproval
latest_approval [] = none
latest_approval (a ∷ rows) = elim (latest_approval rows) [
  | none ↦ some a
  | some b ↦ if ltb a.created_at b.created_at then some b else some a
]

abbrev pub new_approval :
    ℕ → (approval_id run_id graph_name node_name approval_type : String) → Value → GraphApproval
new_approval now approval_id run_id graph_name node_name approval_type request = record {
  approval_id = approval_id;
  run_id = run_id;
  graph_name = graph_name;
  node_name = node_name;
  approval_type = approval_type;
  status = "pending";
  request = sanitize_for_storage request;
  response = none;
  created_at = now;
  decided_at = none;
}

abbrev pub ensured : Option GraphApproval → GraphApproval → GraphRunStore → String × GraphRunStore
ensured (some a) fresh s = (a.approval_id, s)
ensured none fresh s =
    (fresh.approval_id, record s { graph_approvals = s.graph_approvals ++ fresh ∷ [] })

unfoldable pub ensure_approval :
    ℕ
    → (approval_id run_id graph_name node_name approval_type : String) → Value
    → GraphRunStore
    → String × GraphRunStore
unfolding awaits latest_approval sanitize_for_storage
ensure_approval now approval_id run_id graph_name node_name approval_type request s =
    ensured (latest_approval (keep (awaits run_id node_name) s.graph_approvals))
      (new_approval now approval_id run_id graph_name node_name approval_type request) s

unfoldable pub find_approval : String → List GraphApproval → Option GraphApproval
find_approval i [] = none
find_approval i (a ∷ rows) = if a.approval_id === i then some a else find_approval i rows

unfoldable pub get_approval : String → GraphRunStore → Option GraphApproval
unfolding find_approval
get_approval i s = find_approval i s.graph_approvals

abbrev pub decided : ℕ → Bool → Value → GraphApproval → GraphApproval
decided now approved response a = record a {
  status = if approved then "approved" else "rejected";
  response = some (sanitize_for_storage response);
  decided_at = some now;
}

abbrev pub or_unknown_approval : String → Option GraphApproval → Result GraphApproval
or_unknown_approval i none = raise (key_error ("approval not found: " <> i))
or_unknown_approval i (some a) = ok a

-- The response is given by every caller, and is not empty.
unfoldable pub decide_approval :
    ℕ
    → (approval_id : String) → (approved : Bool) → (response : Value) → GraphRunStore
    → Result GraphApproval × GraphRunStore
unfolding sanitize_for_storage get_approval
decide_approval now i approved response s =
    let t = record s {
      graph_approvals =
          map (λ a. if a.approval_id === i then decided now approved response a else a)
            s.graph_approvals;
    } in
    (or_unknown_approval i (get_approval i t), t)

-- An approval before those that were created later.
unfoldable pub insert_approval : GraphApproval → List GraphApproval → List GraphApproval
insert_approval a [] = a ∷ []
insert_approval a (b ∷ rows) =
    let rest = insert_approval a rows in
    if ltb b.created_at a.created_at then b ∷ rest else a ∷ b ∷ rows

unfoldable pub sort_approvals : List GraphApproval → List GraphApproval
unfolding insert_approval
sort_approvals [] = []
sort_approvals (a ∷ rows) = insert_approval a (sort_approvals rows)

abbrev pub of_run : Option String → GraphApproval → Bool
of_run none a = true
of_run (some i) a = if truthy i then a.run_id === i else true

unfoldable pub list_pending_approvals : Option String → GraphRunStore → List GraphApproval
unfolding sort_approvals
list_pending_approvals run_id s =
    sort_approvals (keep (λ a. (a.status === "pending") && of_run run_id a) s.graph_approvals)
