-- ===== src/LanggraphAgent/Runner/Settling.antt =====
-- The nodes of langgraph_agent/nodes in a run that is approved: none of them waits for an approval.
use ops_incident_collector.Prelude.{
  Bool, true, false, not, ◌||◌, Option, none, some, [], ◌∷◌, ◌≡◌, refl, ap, sym, subst,
  if◌then◌else◌,
}
use ops_incident_collector.Core.Json.{
  Value, Fields, null, number, array, object, text, boolean, get_field,
}
use ops_incident_collector.Core.Machine.{Machine}
use ops_incident_collector.Adapters.Http.{truthy_value}
use ops_incident_collector.LanggraphAgent.State.{flag, is_in, text_in, text_or, get_text_or}
use ops_incident_collector.LanggraphAgent.Nodes.{Agent, Node}
use ops_incident_collector.LanggraphAgent.Nodes.Local.{
  load_config_node, validate_path_policy_node, inspect_sources_node, preview_redaction_summary_node,
  compute_coverage_node, compute_rag_readiness_node, plan_sync_node, policy_update,
}
use ops_incident_collector.LanggraphAgent.Nodes.Syncing.{
  approval_gate_node, gated, is_approved, requires_approval, sync_source_node, verify_sync_node,
}
use ops_incident_collector.LanggraphAgent.Nodes.Summaries.{
  summarize_source_onboarding_node, onboarding_status,
}
use ops_incident_collector.LanggraphAgent.Nodes.Outputs.{
  Writes, load_config_node-Writes, validate_path_policy_node-Writes, inspect_sources_node-Writes,
  preview_redaction_summary_node-Writes, compute_coverage_node-Writes,
  compute_rag_readiness_node-Writes, plan_sync_node-Writes, sync_source_node-Writes,
  verify_sync_node-Writes, summarize_source_onboarding_node-Writes,
}

-- A status that is not that of a run which waits for an approval.
abbrev pub is_settled : Option Value → Bool
is_settled none = true
is_settled (some v) = not (text_in ("pending_approval" ∷ []) (some v))

abbrev pub Approved : Fields → Type 0
Approved fs = get_field "approved" fs ≡ some (boolean true)

-- An update that neither waits nor writes the approval.
abbrev pub Settles : Fields → Type 0
Settles delta = (is_settled (get_field "status" delta) ≡ true) × (get_field "approved" delta ≡ none)

pub record IsSettling (node : Node) : Type 0 where
  pub update :
      (state : Fields) (m : Machine)
      → Approved state
      → is_settled (get_field "status" state) ≡ true
      → Writes Settles (node state m).0

-- The gate in front of an approval.
gated-Settles :
    (stopped requires : Bool) (state : Fields)
    → is_settled (get_field "status" state) ≡ true
    → Settles (gated stopped requires true state)
unfolding get_field
gated-Settles true requires state h = (refl, refl)
gated-Settles false true state h = (refl, refl)
gated-Settles false false state h = (kept (get_field "status" state) h, refl)
  where
    kept :
        (o : Option Value)
        → is_settled o ≡ true
        → is_settled (some (elim o as (λ x. Value) [ none ↦ text "running" | some v ↦ v ])) ≡ true
    kept none g = refl
    kept (some v) g = g

is_approved-Approved : (state : Fields) → Approved state → is_approved state ≡ true
unfolding is_approved flag
is_approved-Approved state h =
    ap
      (λ o.
        (elim o as (λ x. Bool) [ none ↦ false | some v ↦ truthy_value v ])
        || flag "sync_approved" false state)
      h

pub approval_gate_node-IsSettling : IsSettling approval_gate_node
unfolding approval_gate_node
approval_gate_node-IsSettling = record {
  update = λ state m h settled.
      subst
        (λ a. Settles (
          gated (is_in "status" ("failed" ∷ "core_unavailable" ∷ []) state)
            (requires_approval state) a state))
        (sym (is_approved-Approved state h))
        (gated-Settles (is_in "status" ("failed" ∷ "core_unavailable" ∷ []) state)
          (requires_approval state) state settled);
}

-- The status at the end.
onboarding_status-settled :
    (state : Fields)
    → is_settled (get_field "status" state) ≡ true
    → is_settled (some (text (onboarding_status state))) ≡ true
unfolding is_in get_text_or
onboarding_status-settled state h = by (get_field "status" state) h
  where
    by :
        (o : Option Value)
        → is_settled o ≡ true
        → is_settled (
            some (
              text (
                if text_in ("failed" ∷ "pending_approval" ∷ "rejected" ∷ []) o
                then text_or "completed" o
                else "completed")))
          ≡ true
    by none g = refl
    by (some (text t)) g =
        chosen (text_in ("failed" ∷ "pending_approval" ∷ "rejected" ∷ []) (some (text t)))
      where
        chosen : (b : Bool) → is_settled (some (text (if b then t else "completed"))) ≡ true
        chosen true = g
        chosen false = refl
    by (some null) g = refl
    by (some (boolean b)) g = refl
    by (some (number n)) g = refl
    by (some (array vs)) g = refl
    by (some (object fs)) g = refl

module _ (agent : Agent) where
  pub load_config_node-IsSettling : IsSettling (load_config_node agent)
  unfolding get_field
  load_config_node-IsSettling = record {
    update =
        λ state m h s. load_config_node-Writes agent Settles state m (λ settings. (refl, refl));
  }

  pub validate_path_policy_node-IsSettling : IsSettling (validate_path_policy_node agent)
  unfolding get_field
  validate_path_policy_node-IsSettling = record {
    update = λ state m h s.
        validate_path_policy_node-Writes agent Settles state m (refl, refl)
          (λ resolved allowed settings.
            elim allowed as (λ b. Settles (policy_update agent resolved b settings state)) [
              | true ↦ (refl, refl)
              | false ↦ (refl, refl)
            ]);
  }

  pub inspect_sources_node-IsSettling : IsSettling (inspect_sources_node agent)
  unfolding get_field
  inspect_sources_node-IsSettling = record {
    update = λ state m h s.
        inspect_sources_node-Writes agent Settles state m (refl, refl) (λ i. (refl, refl));
  }

  pub preview_redaction_summary_node-IsSettling : IsSettling (preview_redaction_summary_node agent)
  unfolding get_field
  preview_redaction_summary_node-IsSettling = record {
    update = λ state m h s.
        preview_redaction_summary_node-Writes agent Settles state m (refl, refl)
          (λ i settings. (refl, refl));
  }

  pub compute_coverage_node-IsSettling : IsSettling (compute_coverage_node agent)
  unfolding get_field
  compute_coverage_node-IsSettling = record {
    update = λ state m h s.
        compute_coverage_node-Writes agent Settles state m (refl, refl) (λ c. (refl, refl));
  }

  pub compute_rag_readiness_node-IsSettling : IsSettling (compute_rag_readiness_node agent)
  unfolding get_field
  compute_rag_readiness_node-IsSettling = record {
    update = λ state m h s.
        compute_rag_readiness_node-Writes agent Settles state m (refl, refl) (λ r. (refl, refl));
  }

  pub plan_sync_node-IsSettling : IsSettling (plan_sync_node agent)
  unfolding get_field
  plan_sync_node-IsSettling = record {
    update = λ state m h s. plan_sync_node-Writes agent Settles state m (λ plan. (refl, refl));
  }

  pub sync_source_node-IsSettling : IsSettling (sync_source_node agent)
  unfolding get_field
  sync_source_node-IsSettling = record {
    update = λ state m h s.
        sync_source_node-Writes agent Settles state m (refl, refl) (λ summary. (refl, refl));
  }

  pub verify_sync_node-IsSettling : IsSettling (verify_sync_node agent)
  unfolding get_field
  verify_sync_node-IsSettling = record {
    update = λ state m h s.
        verify_sync_node-Writes agent Settles state m
          (λ summary uploads quality warnings. (refl, refl));
  }

  pub summarize_source_onboarding_node-IsSettling :
      IsSettling (summarize_source_onboarding_node agent)
  unfolding get_field
  summarize_source_onboarding_node-IsSettling = record {
    update = λ state m h s.
        summarize_source_onboarding_node-Writes agent Settles state m
          (λ report. (onboarding_status-settled state s, refl));
  }
