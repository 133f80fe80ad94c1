-- ===== src/Events/Freeze.antt =====
-- `_freeze_event_data` of runtime/events.py: which data an event may carry, and what is kept of it.
use governed_analytics_agent.Common.{
  ◌+◌, String, Bool, true, false, not, ◌&&◌, ◌||◌, Option, none, some, List, [], ◌∷◌, leb, ◌==◌,
  if◌then◌else◌, Dict, lookup,
}
use governed_analytics_agent.Common.Maybe.{◌>>=◌, ◌>>◌, check}
use governed_analytics_agent.Events.Values.{
  Value, text, snapshot_mapping, expect_keys, enum, identifier, optional_identifier,
  nonnegative_int, default_maximum, boolean, identifier_tuple, columns, query_id, money, is_text,
  is_null, is_true, is_nonempty_tuple, number, tuple_within,
}
use governed_analytics_agent.Events.Vocabulary.{
  EventType, run_created, run_started, behavior_decided, context_retrieved, plan_created,
  hypothesis_updated, tool_started, tool_completed, tool_failed, observation_validated,
  evidence_assessed, repair_started, repair_completed, budget_warning, run_terminal, member,
  behavior_actions, behavior_reasons, behavior_reason_by_action, missing_fields, analysis_types,
  hypothesis_statuses, analysis_tools, safe_tool_errors, validation_errors, budget_reasons,
  terminal_reasons, final_statuses, stop_reasons, event_nodes, event_type_of,
}

-- `reason in table[key]`
unfoldable pub within : Dict (List String) → Value → Value → Bool
within [] key reason = false
within ((k, reasons) ∷ table) key reason =
    if is_text key k
    then elim (enum reason reasons) [ none ↦ false | some v ↦ true ]
    else within table key reason

unfoldable pub eqb : Bool → Bool → Bool
eqb true b = b
eqb false b = not b

-- `_validate_tool_identity`
unfoldable pub validate_tool_identity : Dict Value → Option (Value × Value)
validate_tool_identity values = do
  tool_name ← (lookup "tool_name" values >>= λ v. enum v analysis_tools)
  purpose ← (lookup "purpose" values >>= identifier)
  check (not (is_text tool_name "profile" && not (is_text purpose "profile_context")))
  some (tool_name, purpose)

unfoldable pub freeze_status : String → Dict Value → Option (Dict Value)
freeze_status allowed values = do
  expect_keys values ("status" ∷ [])
  status ← (lookup "status" values >>= λ v. enum v (allowed ∷ []))
  some (("status", status) ∷ [])

unfoldable pub freeze_behavior : Dict Value → Option (Dict Value)
unfolding within eqb
freeze_behavior values = do
  expect_keys values ("action" ∷ "reason_code" ∷ "missing_fields" ∷ [])
  fields ← (lookup "missing_fields" values >>= λ v. identifier_tuple v 5 true)
  check (tuple_within missing_fields fields)
  action ← (lookup "action" values >>= λ v. enum v behavior_actions)
  reason_code ← (lookup "reason_code" values >>= λ v. enum v behavior_reasons)
  check (within behavior_reason_by_action action reason_code)
  check (eqb (is_text action "clarify") (is_nonempty_tuple fields))
  some (("action", action) ∷ ("reason_code", reason_code) ∷ ("missing_fields", fields) ∷ [])

unfoldable pub freeze_context : Dict Value → Option (Dict Value)
freeze_context values = do
  expect_keys values ("metric_count" ∷ "table_count" ∷ "success" ∷ [])
  metric_count ← (lookup "metric_count" values >>= λ v. nonnegative_int v 10000)
  table_count ← (lookup "table_count" values >>= λ v. nonnegative_int v 10000)
  success ← (lookup "success" values >>= boolean)
  some (("metric_count", metric_count) ∷ ("table_count", table_count) ∷ ("success", success) ∷ [])

unfoldable pub freeze_plan : Dict Value → Option (Dict Value)
freeze_plan values = do
  expect_keys values
      ("plan_id" ∷ "revision" ∷ "analysis_type" ∷ "metric_id" ∷ "hypothesis_ids" ∷ [])
  revision ← (lookup "revision" values >>= λ v. nonnegative_int v default_maximum)
  check (not (number revision == 0))
  plan_id ← (lookup "plan_id" values >>= identifier)
  analysis_type ← (lookup "analysis_type" values >>= λ v. enum v analysis_types)
  metric_id ← (lookup "metric_id" values >>= identifier)
  hypothesis_ids ← (lookup "hypothesis_ids" values >>= λ v. identifier_tuple v 16 false)
  some (
      ("plan_id", plan_id)
      ∷ ("revision", revision)
      ∷ ("analysis_type", analysis_type)
      ∷ ("metric_id", metric_id)
      ∷ ("hypothesis_ids", hypothesis_ids)
      ∷ [])

unfoldable pub freeze_hypothesis : Dict Value → Option (Dict Value)
freeze_hypothesis values = do
  expect_keys values ("hypothesis_id" ∷ "status" ∷ [])
  hypothesis_id ← (lookup "hypothesis_id" values >>= identifier)
  status ← (lookup "status" values >>= λ v. enum v hypothesis_statuses)
  some (("hypothesis_id", hypothesis_id) ∷ ("status", status) ∷ [])

-- `value == other` of two texts.
unfoldable pub same_text : Value → Value → Bool
same_text (text s) v = is_text v s
same_text _ v = false

unfoldable pub freeze_tool_started : Dict Value → Option (Dict Value)
unfolding validate_tool_identity same_text eqb
freeze_tool_started values = do
  expect_keys values ("tool_name" ∷ "purpose" ∷ "contract_id" ∷ [])
  (tool_name, purpose) ← validate_tool_identity values
  contract_id ← (lookup "contract_id" values >>= optional_identifier)
  check (eqb (is_text tool_name "profile") (is_null contract_id))
  check (is_null contract_id || same_text purpose contract_id)
  some (("tool_name", tool_name) ∷ ("purpose", purpose) ∷ ("contract_id", contract_id) ∷ [])

unfoldable pub freeze_tool_completed : Dict Value → Option (Dict Value)
unfolding validate_tool_identity
freeze_tool_completed values = do
  expect_keys values
      ("tool_name" ∷ "purpose" ∷ "query_id" ∷ "columns" ∷ "row_count" ∷ "possibly_truncated" ∷ [])
  (tool_name, purpose) ← validate_tool_identity values
  query ← (lookup "query_id" values >>= query_id)
  check (not (is_null query))
  names ← (lookup "columns" values >>= columns)
  row_count ← (lookup "row_count" values >>= λ v. nonnegative_int v 500)
  possibly_truncated ← (lookup "possibly_truncated" values >>= boolean)
  some (
      ("tool_name", tool_name)
      ∷ ("purpose", purpose)
      ∷ ("query_id", query)
      ∷ ("columns", names)
      ∷ ("row_count", row_count)
      ∷ ("possibly_truncated", possibly_truncated)
      ∷ [])

unfoldable pub freeze_tool_failed : Dict Value → Option (Dict Value)
unfolding validate_tool_identity
freeze_tool_failed values = do
  expect_keys values ("tool_name" ∷ "purpose" ∷ "safe_error" ∷ [])
  (tool_name, purpose) ← validate_tool_identity values
  safe_error ← (lookup "safe_error" values >>= λ v. enum v safe_tool_errors)
  some (("tool_name", tool_name) ∷ ("purpose", purpose) ∷ ("safe_error", safe_error) ∷ [])

-- `None`, or one of the choices.
unfoldable pub optional_enum : Value → List String → Option Value
optional_enum v choices = if is_null v then some v else enum v choices

unfoldable pub freeze_observation : Dict Value → Option (Dict Value)
unfolding optional_enum eqb
freeze_observation values = do
  expect_keys values ("contract_id" ∷ "valid" ∷ "error_code" ∷ "repairable" ∷ [])
  valid ← (lookup "valid" values >>= boolean)
  error ← (lookup "error_code" values >>= λ v. optional_enum v validation_errors)
  repairable ← (lookup "repairable" values >>= boolean)
  check (eqb (is_true valid) (is_null error) && not (is_true valid && is_true repairable))
  contract_id ← (lookup "contract_id" values >>= identifier)
  some (
      ("contract_id", contract_id)
      ∷ ("valid", valid)
      ∷ ("error_code", error)
      ∷ ("repairable", repairable)
      ∷ [])

unfoldable pub freeze_evidence : Dict Value → Option (Dict Value)
freeze_evidence values = do
  expect_keys values ("verified_count" ∷ "gaps" ∷ "partial" ∷ "complete" ∷ [])
  partial ← (lookup "partial" values >>= boolean)
  complete ← (lookup "complete" values >>= boolean)
  check (not (is_true partial && is_true complete))
  verified_count ← (lookup "verified_count" values >>= λ v. nonnegative_int v default_maximum)
  gaps ← (lookup "gaps" values >>= λ v. identifier_tuple v 16 true)
  some (
      ("verified_count", verified_count)
      ∷ ("gaps", gaps)
      ∷ ("partial", partial)
      ∷ ("complete", complete)
      ∷ [])

-- `started` tells `repair.started` from `repair.completed`.
unfoldable pub freeze_repair : Bool → Dict Value → Option (Dict Value)
freeze_repair started values = do
  expect_keys values ("repair_count" ∷ "error_code" ∷ "success" ∷ [])
  repair_count ← (lookup "repair_count" values >>= λ v. nonnegative_int v 1)
  success ← (lookup "success" values >>= boolean)
  check (number repair_count == 1 && not (started && is_true success))
  error_code ← (lookup "error_code" values >>= λ v. enum v validation_errors)
  some (("repair_count", repair_count) ∷ ("error_code", error_code) ∷ ("success", success) ∷ [])

unfoldable pub freeze_budget : Dict Value → Option (Dict Value)
freeze_budget values = do
  expect_keys values (
      "reason" ∷ "llm_calls" ∷ "tool_calls" ∷ "execute_calls" ∷ "profile_calls" ∷ "repair_count"
      ∷ "committed_cost_cny" ∷ [])
  llm_calls ← (lookup "llm_calls" values >>= λ v. nonnegative_int v default_maximum)
  tool_calls ← (lookup "tool_calls" values >>= λ v. nonnegative_int v default_maximum)
  execute_calls ← (lookup "execute_calls" values >>= λ v. nonnegative_int v default_maximum)
  profile_calls ← (lookup "profile_calls" values >>= λ v. nonnegative_int v default_maximum)
  check (leb (number execute_calls + number profile_calls) (number tool_calls))
  reason ← (lookup "reason" values >>= λ v. enum v budget_reasons)
  repair_count ← (lookup "repair_count" values >>= λ v. nonnegative_int v 1)
  committed ← (lookup "committed_cost_cny" values >>= money)
  some (
      ("reason", reason)
      ∷ ("llm_calls", llm_calls)
      ∷ ("tool_calls", tool_calls)
      ∷ ("execute_calls", execute_calls)
      ∷ ("profile_calls", profile_calls)
      ∷ ("repair_count", repair_count)
      ∷ ("committed_cost_cny", committed)
      ∷ [])

unfoldable pub freeze_terminal : Dict Value → Option (Dict Value)
unfolding within
freeze_terminal values = do
  expect_keys values ("final_status" ∷ "stop_reason" ∷ [])
  final_status ← (lookup "final_status" values >>= λ v. enum v final_statuses)
  stop_reason ← (lookup "stop_reason" values >>= λ v. enum v stop_reasons)
  check (within terminal_reasons final_status stop_reason)
  some (("final_status", final_status) ∷ ("stop_reason", stop_reason) ∷ [])

-- The branches on the event's type.
unfoldable pub freeze_values : EventType → Dict Value → Option (Dict Value)
freeze_values run_created values = freeze_status "queued" values
freeze_values run_started values = freeze_status "running" values
freeze_values behavior_decided values = freeze_behavior values
freeze_values context_retrieved values = freeze_context values
freeze_values plan_created values = freeze_plan values
freeze_values hypothesis_updated values = freeze_hypothesis values
freeze_values tool_started values = freeze_tool_started values
freeze_values tool_completed values = freeze_tool_completed values
freeze_values tool_failed values = freeze_tool_failed values
freeze_values observation_validated values = freeze_observation values
freeze_values evidence_assessed values = freeze_evidence values
freeze_values repair_started values = freeze_repair true values
freeze_values repair_completed values = freeze_repair false values
freeze_values budget_warning values = freeze_budget values
freeze_values run_terminal values = freeze_terminal values

unfoldable pub freeze_event_data : String → String → Dict Value → Option (Dict Value)
freeze_event_data node event_type data_values = do
  type ← event_type_of event_type
  check (member node (event_nodes type))
  values ← snapshot_mapping data_values
  freeze_values type values
