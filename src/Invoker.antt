-- ===== src/Invoker.antt =====
-- `StructuredModelInvoker` of agent/modeling.py. What its ports answer is in the arguments: the
-- clock, the fresh ids, and what the provider replies to a call. The size of a prompt in bytes is
-- the parameter `prompt_length`.
pub mod Accounting
pub mod Types
pub mod Closing
pub mod Calls
pub mod Spending
pub mod Replies
pub mod Paths
pub mod Promises
pub mod Single
pub mod Unrepaired
mod Tests
use governed_analytics_agent.Common.{
  ℕ, String, Bool, true, false, not, ◌&&◌, Option, none, some, List, [], ◌∷◌, ◌++◌, if◌then◌else◌,
  str_eq, ok, err,
}
use Accounting.{
  AgentModelError, Closed, settle_or_fail, error_trace, settle_model_error, cancel, fail_closed,
}
use Types.{
  Reply, replied, model_error, other_error, interrupted, Attempt, Script, StructuredInvocation,
  Outcome, returned, raised, cancelled_task, invalid_repair_request, unsafe_model, Invoker, append,
  allows_repair, stop_reason_of, repair_record, blocked_reason, reservation_category,
  blocked_governance, provider_failed, fail_with,
}
use governed_analytics_agent.Budget.{BudgetLedger, reserve_model_call, consume_repair}
use governed_analytics_agent.Contracts.Enums.{AgentModelErrorCategory, StopReason}
use governed_analytics_agent.Contracts.Evidence.{success, failed, blocked}
use governed_analytics_agent.Contracts.Governance.{
  ModelRequest, ModelReservation, GovernanceSnapshot,
}
use governed_analytics_agent.Contracts.Request.{
  StructuredModelRequest, StructuredModelResult, for_repair,
}
use governed_analytics_agent.Contracts.Trace.{ModelCallTrace, CallOutcome, is_completed}

-- What the ledger reads of a request.
abbrev pub sizes : (StructuredModelRequest → ℕ) → StructuredModelRequest → ModelRequest
sizes prompt_length request = record {
  prompt_length = prompt_length request;
  max_output_tokens = request.max_output_tokens;
}

module _ {T : Type 0} where
  -- `invoke` after the first call returned.
  unfoldable pub first_result :
      StructuredModelRequest
      → ModelReservation
      → StructuredModelResult T
      → Invoker
      → Outcome T × Invoker
  first_result request reservation result s =
      let c = settle_or_fail request reservation result s.budget in
      let answer : Outcome T =
        if is_completed c.trace.outcome
        then returned (record {
          result = result;
          traces = c.trace ∷ [];
          repair_record = none;
          governance = c.governance;
        })
        else fail_with AgentModelErrorCategory.accounting_contract_failed (c.trace ∷ []) none
            c.governance StopReason.internal_error in
      (answer, append c s)

  -- `_handle_first_model_error` after the second call returned or raised.
  unfoldable pub repair_reply :
      StructuredModelRequest
      → StructuredModelRequest
      → AgentModelErrorCategory
      → ModelCallTrace
      → String
      → ModelReservation
      → ℕ
      → Reply T
      → Invoker
      → Outcome T × Invoker
  repair_reply request repair_request category first_trace repair_id reservation elapsed_ms
        (replied result) s =
      let c = settle_or_fail repair_request reservation result s.budget in
      let traces = first_trace ∷ c.trace ∷ [] in
      let answer : Outcome T =
        if is_completed c.trace.outcome
        then returned (record {
          result = result;
          traces = traces;
          repair_record = some (repair_record repair_id request category success);
          governance = c.governance;
        })
        else fail_with AgentModelErrorCategory.accounting_contract_failed traces
            (some (repair_record repair_id request category failed)) c.governance
            StopReason.repair_failed in
      (answer, append c s)
  repair_reply request repair_request category first_trace repair_id reservation elapsed_ms
        (model_error error) s =
      let c = settle_model_error s.model repair_request reservation error s.budget in
      (
        fail_with error.category (first_trace ∷ c.trace ∷ [])
            (some (repair_record repair_id request category failed)) c.governance
            StopReason.repair_failed,
        append c s,
      )
  repair_reply request repair_request category first_trace repair_id reservation elapsed_ms
        other_error s =
      let (governance, l) = fail_closed reservation s.budget in
      elim (provider_failed s.model) [
        | none ↦ (unsafe_model, record s { budget = l })
        | some error ↦
            let trace = error_trace s.model repair_request reservation error CallOutcome.failed in
            (
              fail_with AgentModelErrorCategory.provider_call_failed (first_trace ∷ trace ∷ [])
                  (some (repair_record repair_id request category failed)) governance
                  StopReason.repair_failed,
              append (record { governance = governance; trace = trace; budget = l }) s,
            )
      ]
  repair_reply request repair_request category first_trace repair_id reservation elapsed_ms
        interrupted s =
      (cancelled_task, append (cancel s.model repair_request reservation elapsed_ms s.budget) s)

module _ (prompt_length : StructuredModelRequest → ℕ) {T : Type 0} where
  -- `_handle_first_model_error` from the reservation of the second call; `governance` is what
  -- `consume_repair` returned.
  unfoldable pub repair_call :
      StructuredModelRequest
      → StructuredModelRequest
      → AgentModelErrorCategory
      → ModelCallTrace
      → Script T
      → GovernanceSnapshot
      → Invoker
      → Outcome T × Invoker
  unfolding repair_reply
  repair_call request repair_request category first_trace script governance s =
      let attempt = script.second in
      let (reserved, l) =
        reserve_model_call attempt.now attempt.reservation_id (sizes prompt_length repair_request)
          s.budget in
      elim reserved [
        | ok reservation ↦
            repair_reply request repair_request category first_trace script.repair_id reservation
              attempt.elapsed_ms attempt.reply (record s { budget = l })
        | err e ↦ (
          fail_with AgentModelErrorCategory.repair_blocked (first_trace ∷ [])
              (some (repair_record script.repair_id request category blocked))
              (blocked_governance e governance l.snapshot) (blocked_reason e),
          record s { budget = l },
        )
      ]

  -- `_handle_first_model_error` from `consume_repair`.
  unfoldable pub attempt_repair :
      StructuredModelRequest
      → AgentModelErrorCategory
      → ModelCallTrace
      → Script T
      → Invoker
      → Outcome T × Invoker
  unfolding repair_call
  attempt_repair request category first_trace script s =
      let (consumed, l) = consume_repair script.repair_now true s.budget in
      elim consumed [
        | ok governance ↦ elim (for_repair category request) [
          | some repair_request ↦
              repair_call request repair_request category first_trace script governance
                (record s { budget = l })
          | none ↦ (invalid_repair_request, record s { budget = l })
        ]
        | err e ↦ (
          fail_with AgentModelErrorCategory.repair_blocked (first_trace ∷ [])
              (some (repair_record script.repair_id request category blocked)) l.snapshot
              (blocked_reason e),
          record s { budget = l },
        )
      ]

  -- `_handle_first_model_error`
  unfoldable pub handle_first_model_error :
      StructuredModelRequest
      → ModelReservation
      → AgentModelError
      → Script T
      → Invoker
      → Outcome T × Invoker
  unfolding attempt_repair
  handle_first_model_error request reservation error script s =
      let c = settle_model_error s.model request reservation error s.budget in
      let repaired = attempt_repair request error.category c.trace script (append c s) in
      if allows_repair request error.category error then repaired else (
        fail_with error.category (c.trace ∷ []) none c.governance (stop_reason_of error.category),
        append c s,
      )

  -- `invoke` from the reply to the first call.
  unfoldable pub first_reply :
      StructuredModelRequest → ModelReservation → Script T → Reply T → Invoker → Outcome T × Invoker
  unfolding handle_first_model_error first_result
  first_reply request reservation script (replied result) s =
      first_result request reservation result s
  first_reply request reservation script (model_error error) s =
      handle_first_model_error request reservation error script s
  first_reply request reservation script other_error s = elim (provider_failed s.model) [
    | none ↦ (unsafe_model, s)
    | some error ↦ handle_first_model_error request reservation error script s
  ]
  first_reply request reservation script interrupted s = (
    cancelled_task,
    append (cancel s.model request reservation script.first.elapsed_ms s.budget) s,
  )

  -- `invoke`; `output_type` is `output_type.__name__`.
  unfoldable pub invoke : StructuredModelRequest → String → Script T → Invoker → Outcome T × Invoker
  unfolding first_reply
  invoke request output_type script s =
      let attempt = script.first in
      let (reserved, l) =
        reserve_model_call attempt.now attempt.reservation_id (sizes prompt_length request)
          s.budget in
      let answer : Outcome T × Invoker = elim reserved [
        | ok reservation ↦
            first_reply request reservation script attempt.reply (record s { budget = l })
        | err e ↦ (
          fail_with (reservation_category e) [] none l.snapshot (blocked_reason e),
          record s { budget = l },
        )
      ] in
      if str_eq request.output_schema_name output_type then answer else (
        fail_with AgentModelErrorCategory.schema_identity_mismatch [] none s.budget.snapshot
            StopReason.structured_output_invalid,
        s,
      )
