-- ===== src/Invoker/Unrepaired.antt =====
-- A repair follows only a reply that allows it: an answer that is no valid JSON or has the wrong
-- structure, was not cut off, and is not itself an answer to a repair.
use governed_analytics_agent.Common.{
  ℕ, ◌+◌, ◌≤◌, Bool, false, ◌≡◌, refl, String, none, [], ◌∷◌, arith, lookup, Bool-cases, inl, inr,
  str_eq,
}
use governed_analytics_agent.Invoker.{
  sizes, first_result, handle_first_model_error, first_reply, invoke,
}
use governed_analytics_agent.Budget.{BudgetLedger, reserve_model_call}
use governed_analytics_agent.Budget.Atomic.{reserve_model_call-Keeps}
use governed_analytics_agent.Contracts.Enums.{AgentModelErrorCategory}
use governed_analytics_agent.Contracts.Governance.{ModelReservation}
use governed_analytics_agent.Contracts.Request.{StructuredModelRequest}
use governed_analytics_agent.Contracts.Trace.{ModelCallTrace}
use governed_analytics_agent.Invoker.Accounting.{
  AgentModelError, settle_or_fail, settle_model_error, cancel, safe_model, is_provider_model,
}
use governed_analytics_agent.Invoker.Calls.{
  settle_or_fail-ClosesCall, settle_model_error-ClosesCall, cancel-ClosesCall,
}
use governed_analytics_agent.Invoker.Spending.{Spends, Opens, reserve_Opens, call_Spends}
use governed_analytics_agent.Invoker.Types.{
  Reply, replied, model_error, other_error, interrupted, Script, Invoker, append, allows_repair,
  provider_failed, provider_error,
}
use governed_analytics_agent.Invoker.Replies.{IsSound}
use governed_analytics_agent.Invoker.Paths.{ends}

-- Whether the reply to the first call leads to a repair.
unfoldable pub asks_repair : {T : Type 0} → StructuredModelRequest → Reply T → Bool
asks_repair q (model_error error) = allows_repair q error.category error
asks_repair q _ = false

-- At most one call was made, and no repair.
pub record IsSingle (s s' : Invoker) : Type 0 where
  pub unrepaired : s'.budget.snapshot.repair_count ≡ s.budget.snapshot.repair_count
  pub called_once : s'.budget.snapshot.llm_calls ≤ s.budget.snapshot.llm_calls + 1

Spends-IsSingle : (s s' : Invoker) (t : ModelCallTrace) → Spends s s' (t ∷ []) 0 → IsSingle s s'
Spends-IsSingle s s' t h = ground arith

-- An exception of the provider that is no `AgentModelError` allows no repair.
provider_error_lem :
    (q : StructuredModelRequest) (model : String)
    → allows_repair q AgentModelErrorCategory.provider_call_failed (provider_error model) ≡ false
unfolding allows_repair
provider_error_lem q model = ground arith

module _ (prompt_length : StructuredModelRequest → ℕ) {T : Type 0} where
  refused-IsSingle :
      (q : StructuredModelRequest) (r : ModelReservation) (error : AgentModelError)
      (script : Script T) (s : Invoker) (l : BudgetLedger)
      → Opens r s.budget l
      → allows_repair q error.category error ≡ false
      → IsSingle s
          (handle_first_model_error prompt_length q r error script (record s { budget = l })).1
  unfolding handle_first_model_error
  refused-IsSingle q r error script s l o refused =
      let c = settle_model_error s.model q r error l in
      let k = settle_model_error-ClosesCall s.model q r error s.budget.reservations l o.holds in
      rw (handle_first_model_error, refused)
        (Spends-IsSingle s (append c (record s { budget = l })) c.trace (call_Spends s l r c o k))

  first_reply-IsSingle :
      (q : StructuredModelRequest) (r : ModelReservation) (script : Script T) (reply : Reply T)
      (s : Invoker) (l : BudgetLedger)
      → Opens r s.budget l
      → IsSound reply
      → asks_repair q reply ≡ false
      → IsSingle s (first_reply prompt_length q r script reply (record s { budget = l })).1
  unfolding first_reply first_result asks_repair provider_failed
  first_reply-IsSingle q r script (replied result) s l o v h =
      let c = settle_or_fail q r result l in
      Spends-IsSingle s (append c (record s { budget = l })) c.trace (
        call_Spends s l r c o
          (settle_or_fail-ClosesCall q r result s.budget.reservations l o.holds v))
  first_reply-IsSingle q r script (model_error error) s l o v h =
      refused-IsSingle q r error script s l o h
  first_reply-IsSingle q r script other_error s l o v h =
      elim (Bool-cases (is_provider_model (safe_model s.model))) [
        | inl named ↦
            rw (first_reply, provider_failed, named)
              (refused-IsSingle q r (provider_error s.model) script s l o
                (provider_error_lem q s.model))
        | inr unnamed ↦
            rw (first_reply, provider_failed, unnamed)
              (record { unrepaired = o.unrepaired; called_once = omega (arith, o.called) })
      ]
  first_reply-IsSingle q r script interrupted s l o v h =
      let c = cancel s.model q r script.first.elapsed_ms l in
      Spends-IsSingle s (append c (record s { budget = l })) c.trace (
        call_Spends s l r c o
          (cancel-ClosesCall s.model q r script.first.elapsed_ms s.budget.reservations l o.holds))

  -- Unless the first reply is a model error that allows a repair, the invocation makes at most one
  -- call and consumes no repair; the first reservation id is not in use, and a result that the
  -- provider returned has passed its validator.
  pub invoke-IsSingle :
      (q : StructuredModelRequest) (output_type : String) (script : Script T) (s : Invoker)
      → lookup script.first.reservation_id s.budget.reservations ≡ none
      → IsSound script.first.reply
      → asks_repair q script.first.reply ≡ false
      → IsSingle s (invoke prompt_length q output_type script s).1
  unfolding invoke
  invoke-IsSingle q output_type script s fresh v h =
      let attempt = script.first in
      let sizes_of = sizes prompt_length q in
      elim (Bool-cases (str_eq q.output_schema_name output_type)) [
        | inr other ↦ rw (invoke, other) (record { unrepaired = refl; called_once = omega arith })
        | inl same ↦
            elim (ends s.budget
              (reserve_model_call attempt.now attempt.reservation_id sizes_of s.budget)
              (reserve_model_call-Keeps attempt.now attempt.reservation_id sizes_of s.budget)) [
                | inr (x, e) ↦
                    rw (invoke, same, e, e)
                      (record { unrepaired = refl; called_once = omega arith })
                | inl (r, l, e) ↦
                    rw (invoke, same, e, e)
                      (first_reply-IsSingle q r script attempt.reply s l
                        (reserve_Opens attempt.now attempt.reservation_id sizes_of s.budget l fresh
                          e)
                        v h)
              ]
      ]
