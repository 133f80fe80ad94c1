-- ===== src/Events/Idempotent.antt =====
-- Freezing frozen data changes nothing: what `RunEvent` does to it once more on construction, before
-- and after its own validation.
mod Rules
mod Planning
mod Execution
use governed_analytics_agent.Common.{
  ◌≡◌, refl, ◌∙◌, String, Bool, true, false, Option, none, some, List, Dict, arith, Option-cases,
  inl, inr,
}
use governed_analytics_agent.Common.Maybe.{◌>>=◌, check}
use governed_analytics_agent.Events.Values.{Value, distinct, keys, snapshot_mapping}
use governed_analytics_agent.Events.Freeze.{freeze_values, freeze_event_data}
use governed_analytics_agent.Events.Vocabulary.{
  EventType, run_created, run_started, behavior_decided, context_retrieved, plan_created,
  hypothesis_updated, tool_started, tool_completed, tool_failed, observation_validated,
  evidence_assessed, repair_started, repair_completed, budget_warning, run_terminal, member,
  event_nodes, event_type_of,
}
use Rules.{Settles, Settles_frozen}
use Planning.{
  freeze_status-Settles, freeze_behavior-Settles, freeze_context-Settles, freeze_plan-Settles,
  freeze_hypothesis-Settles,
}
use Execution.{
  freeze_tool_started-Settles, freeze_tool_completed-Settles, freeze_tool_failed-Settles,
  freeze_observation-Settles, freeze_evidence-Settles, freeze_repair-Settles, freeze_budget-Settles,
  freeze_terminal-Settles,
}

freeze_values-Settles :
    (t : EventType) (d : Dict Value) → Settles (freeze_values t) (freeze_values t d)
unfolding freeze_values
freeze_values-Settles run_created d = freeze_status-Settles "queued" d
freeze_values-Settles run_started d = freeze_status-Settles "running" d
freeze_values-Settles behavior_decided d = freeze_behavior-Settles d
freeze_values-Settles context_retrieved d = freeze_context-Settles d
freeze_values-Settles plan_created d = freeze_plan-Settles d
freeze_values-Settles hypothesis_updated d = freeze_hypothesis-Settles d
freeze_values-Settles tool_started d = freeze_tool_started-Settles d
freeze_values-Settles tool_completed d = freeze_tool_completed-Settles d
freeze_values-Settles tool_failed d = freeze_tool_failed-Settles d
freeze_values-Settles observation_validated d = freeze_observation-Settles d
freeze_values-Settles evidence_assessed d = freeze_evidence-Settles d
freeze_values-Settles repair_started d = freeze_repair-Settles true d
freeze_values-Settles repair_completed d = freeze_repair-Settles false d
freeze_values-Settles budget_warning d = freeze_budget-Settles d
freeze_values-Settles run_terminal d = freeze_terminal-Settles d

-- Data that was frozen for an event is accepted again for that event, and frozen to itself.
pub freeze_event_data_idem :
    (node type : String) (d : Dict Value) {f : Dict Value}
    → freeze_event_data node type d ≡ some f
    → freeze_event_data node type f ≡ some f
unfolding freeze_event_data ◌>>=◌ snapshot_mapping
freeze_event_data_idem node type d {f} h = elim (Option-cases (event_type_of type)) [
  | inl unknown ↦ absurd (ground arith)
  | inr (t, e) ↦
      ground (arith, Settles_frozen (freeze_values t) {f = f} (freeze_values-Settles t d))
]
