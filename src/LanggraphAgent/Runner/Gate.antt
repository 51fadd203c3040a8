-- ===== src/LanggraphAgent/Runner/Gate.antt =====
-- langgraph_agent/nodes/common.py: the gate of the approval on a state that needs one and has none.
use ops_incident_collector.Prelude.{
  Bool, true, false, not, ◌||◌, Option, none, some, [], ◌∷◌, ◌≡◌, refl,
}
use ops_incident_collector.Core.Json.{
  Value, Fields, null, text, boolean, number, array, object, get_field,
}
use ops_incident_collector.Adapters.Http.{truthy_value}
use ops_incident_collector.LanggraphAgent.State.{flag, is_in, text_in}
use ops_incident_collector.LanggraphAgent.State.Updates.{or_else}
use ops_incident_collector.LanggraphAgent.Nodes.Syncing.{
  gated, stopped_statuses, requires_approval, is_approved,
}
use ops_incident_collector.LanggraphAgent.Runner.Guards.{is_false, is_api, IsGuarded}

-- A flag that is false where it is missing.
unset :
    (o : Option Value)
    → is_false o ≡ true
    → (elim o as (λ x. Bool) [ none ↦ false | some v ↦ truthy_value v ]) ≡ false
unset none h = refl
unset (some v) h = not_true (truthy_value v) h
  where
    not_true : (b : Bool) → not b ≡ true → b ≡ false
    not_true true g = absurd cc
    not_true false g = refl

api :
    (o : Option Value)
    → is_api o ≡ true
    → (elim o as (λ x. Bool) [ none ↦ true | some v ↦ text_in ("api" ∷ []) o ]) ≡ true
api none h = refl
api (some v) h = h

-- The gate asks for the approval, which is not given.
pub requires_approval-guarded : (fs : Fields) → IsGuarded fs → requires_approval fs ≡ true
unfolding requires_approval flag is_in
requires_approval-guarded fs (a, (s, (d, (r, (q, (t, u)))))) =
    rw (r, q, api (get_field "export_target" fs) t, unset (get_field "dry_run" fs) d) refl

pub is_approved-guarded : (fs : Fields) → IsGuarded fs → is_approved fs ≡ false
unfolding is_approved flag
is_approved-guarded fs (a, (s, rest)) =
    rw (unset (get_field "approved" fs) a, unset (get_field "sync_approved" fs) s) refl

halts : (a p r c : Bool) → a || (c || false) ≡ true → a || (p || (r || (c || false))) ≡ true
halts true p r c h = refl
halts false true r c h = refl
halts false false true c h = refl
halts false false false c h = h

pub still_stopped :
    (o : Option Value)
    → text_in ("failed" ∷ "core_unavailable" ∷ []) o ≡ true
    → text_in stopped_statuses o ≡ true
still_stopped none h = absurd cc
still_stopped (some (text t)) h = halts _ _ _ _ h
still_stopped (some null) h = absurd cc
still_stopped (some (boolean b)) h = absurd cc
still_stopped (some (number n)) h = absurd cc
still_stopped (some (array vs)) h = absurd cc
still_stopped (some (object fs)) h = absurd cc

pub stopped_by_gate :
    (b : Bool) (state : Fields)
    → (b ≡ true → text_in stopped_statuses (get_field "status" state) ≡ true)
    → text_in stopped_statuses
        (or_else (get_field "status" (gated b true false state)) (get_field "status" state))
      ≡ true
unfolding get_field
stopped_by_gate true state h = h refl
stopped_by_gate false state h = refl
