-- ===== src/Invoker/Promises.antt =====
-- What `StructuredModelInvoker` promises its callers about the budget, whatever the provider does.
use governed_analytics_agent.Common.{
  ℕ, ◌+◌, ◌≤◌, ◌≡◌, String, true, none, some, refl, arith, lookup,
}
use governed_analytics_agent.Budget.Invariant.{IsValid}
use governed_analytics_agent.Contracts.Request.{StructuredModelRequest}
use governed_analytics_agent.Invoker.{invoke}
use governed_analytics_agent.Invoker.Paths.{invoke-Accounts}
use governed_analytics_agent.Invoker.Replies.{IsSound}
use governed_analytics_agent.Invoker.Types.{Script, Invoker, provider_failed, provider_error}
use governed_analytics_agent.Invoker.Accounting.{safe_model, is_provider_model}

-- A name that `AgentModelError` takes names the error of other exceptions.
provider_failed_lem :
    (model : String)
    → is_provider_model (safe_model model) ≡ true
    → provider_failed model ≡ some (provider_error model)
unfolding provider_failed
provider_failed_lem model h = rw (provider_failed, h) refl

module _ (prompt_length : StructuredModelRequest → ℕ) {T : Type 0} where
  -- However an invocation ends, cancellation included, it holds no reservation that was not held
  -- before, and a valid ledger stays valid; the two reservation ids are not in use, a result that the
  -- provider returned has passed its validator, and the model's name, as `_safe_model` passes it, is
  -- one that `AgentModelError` takes.
  pub invoke_releases :
      (q : StructuredModelRequest) (output_type : String) (script : Script T) (s : Invoker)
      → IsValid s.budget
      → lookup script.first.reservation_id s.budget.reservations ≡ none
      → lookup script.second.reservation_id s.budget.reservations ≡ none
      → IsSound script.first.reply
      → IsSound script.second.reply
      → is_provider_model (safe_model s.model) ≡ true
      → ((invoke prompt_length q output_type script s).1.budget.reservations
          ≡ s.budget.reservations)
        × IsValid (invoke prompt_length q output_type script s).1.budget
  invoke_releases q output_type script s v fresh fresh' sound sound' named =
      let a =
        invoke-Accounts prompt_length q output_type script s fresh fresh' sound sound'
          (provider_failed_lem s.model named) in
      (a.spends.released, a.spends.valid v)

  -- An invocation counts at most one repair, and at most one model call more than repairs; under the
  -- conditions of `invoke_releases` on ids, results
  -- and the model's name.
  pub invoke_bounded :
      (q : StructuredModelRequest) (output_type : String) (script : Script T) (s : Invoker)
      → lookup script.first.reservation_id s.budget.reservations ≡ none
      → lookup script.second.reservation_id s.budget.reservations ≡ none
      → IsSound script.first.reply
      → IsSound script.second.reply
      → is_provider_model (safe_model s.model) ≡ true
      → (repairs : ℕ) × (repairs ≤ 1)
        × ((invoke prompt_length q output_type script s).1.budget.snapshot.repair_count
            ≡ s.budget.snapshot.repair_count + repairs)
        × ((invoke prompt_length q output_type script s).1.budget.snapshot.llm_calls
            ≤ s.budget.snapshot.llm_calls + 1 + repairs)
  invoke_bounded q output_type script s fresh fresh' sound sound' named =
      let a =
        invoke-Accounts prompt_length q output_type script s fresh fresh' sound sound'
          (provider_failed_lem s.model named) in
      (a.repairs, a.once, a.spends.repaired, omega (arith, a.spends.called, a.few))
