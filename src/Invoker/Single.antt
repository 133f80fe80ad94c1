-- ===== src/Invoker/Single.antt =====
-- When an invocation makes a single call: a reply that allows no repair, and a reply that settles.
use mathlib.Core.Path.{subst}
use governed_analytics_agent.Common.{
  ℕ, ◌+◌, ◌-◌, ◌≤◌, ◌<◌, ◌≡◌, refl, sym, ap, String, true, none, some, [], ◌∷◌, ok, arith, lookup,
  lookup-insert_self, str_eq, eq_iff,
}
use governed_analytics_agent.Budget.{
  BudgetLedger, reserve_model_call, settle_model_call, reservation_for,
}
use governed_analytics_agent.Budget.Calls.{settle_within_reservation}
use governed_analytics_agent.Contracts.Governance.{
  ModelRequest, ModelReservation, GovernanceSnapshot,
}
use governed_analytics_agent.Contracts.Request.{StructuredModelRequest, StructuredModelResult}
use governed_analytics_agent.Contracts.Trace.{CallOutcome}
use governed_analytics_agent.Invoker.{sizes, first_result, first_reply, invoke}
use governed_analytics_agent.Invoker.Accounting.{settle_or_fail, result_trace}
use governed_analytics_agent.Invoker.Types.{
  replied, Script, StructuredInvocation, returned, Invoker,
}
use governed_analytics_agent.Pricing.{cost, estimate_cost_cny, provider_model_has_pricing}

-- The ledger has room for the call at the time `now`: the deadline is ahead, a call is left, the
-- prompt lies within the price bracket, and the cost at the upper bounds stays under the hard cap.
pub record HasRoom (now : ℕ) (q : ModelRequest) (l : BudgetLedger) : Type 0 where
  pub in_time : now < l.snapshot.deadline_monotonic
  pub call_left : l.snapshot.llm_calls < l.limits.max_llm_calls
  pub in_bracket : q.prompt_length ≤ l.pricing.input_token_upper_bound
  pub affordable :
      l.snapshot.committed_cost_cny
        + l.snapshot.reserved_cost_cny
        + cost q.prompt_length q.max_output_tokens l.pricing
      ≤ l.limits.hard_cost_cny

reserve_granted :
    (now : ℕ) (id : String) (q : ModelRequest) (l : BudgetLedger)
    → HasRoom now q l
    → (reserve_model_call now id q l).0
      ≡ ok (reservation_for id q (cost q.prompt_length q.max_output_tokens l.pricing))
unfolding reserve_model_call estimate_cost_cny
reserve_granted now id q l h = ground arith

reserve_kept :
    (now : ℕ) (id : String) (q : ModelRequest) (l : BudgetLedger)
    → HasRoom now q l
    → (lookup id (reserve_model_call now id q l).1.reservations
        ≡ some (reservation_for id q (cost q.prompt_length q.max_output_tokens l.pricing)))
      × ((reserve_model_call now id q l).1.pricing ≡ l.pricing)
unfolding reserve_model_call estimate_cost_cny
reserve_kept now id q l h = ground (
  arith,
  lookup-insert_self id (reservation_for id q (cost q.prompt_length q.max_output_tokens l.pricing))
      l.reservations,
)

pair_of : {A B : Type 0} (p : A × B) {a : A} → p.0 ≡ a → p ≡ (a, p.1)
pair_of (x, y) e = ap (λ z. (z, y)) e

module _ {T : Type 0} where
  -- A call that settles is answered with its result.
  settled_result :
      (q : StructuredModelRequest) (r : ModelReservation) (result : StructuredModelResult T)
      (s : Invoker) {g : GovernanceSnapshot} {l' : BudgetLedger}
      → settle_model_call r result.usage result.provider_model s.budget ≡ (ok g, l')
      → (i : StructuredInvocation T) × ((first_result q r result s).0 ≡ returned i)
        × (i.result ≡ result)
        × (i.repair_record ≡ none)
  unfolding first_result settle_or_fail
  settled_result q r result s {g} {l'} e = (
    record {
      result = result;
      traces =
          result_trace q result CallOutcome.completed none
            (g.committed_cost_cny - s.budget.snapshot.committed_cost_cny)
          ∷ [];
      repair_record = none;
      governance = g;
    },
    rw (first_result, settle_or_fail, e) refl,
    refl,
    refl,
  )

module _ (prompt_length : StructuredModelRequest → ℕ) {T : Type 0} where
  -- With room in the ledger for one call, a result whose usage stays within the size of the prompt
  -- and the cap of output tokens, from a priced model, is returned, with no repair; the schema's name
  -- is that of the output type.
  pub invoke_answers :
      (q : StructuredModelRequest) (output_type : String) (script : Script T) (s : Invoker)
      (result : StructuredModelResult T)
      → q.output_schema_name ≡ output_type
      → HasRoom script.first.now (sizes prompt_length q) s.budget
      → script.first.reply ≡ replied result
      → result.usage.input_tokens ≤ prompt_length q
      → result.usage.output_tokens ≤ q.max_output_tokens
      → provider_model_has_pricing result.provider_model s.budget.pricing ≡ true
      → (i : StructuredInvocation T) × ((invoke prompt_length q output_type script s).0
          ≡ returned i)
        × (i.result ≡ result)
        × (i.repair_record ≡ none)
  unfolding invoke first_reply
  invoke_answers q output_type script s result same room says hi ho known =
      let attempt = script.first in
      let sizes_of = sizes prompt_length q in
      let made = reserve_granted attempt.now attempt.reservation_id sizes_of s.budget room in
      let (held, priced) = reserve_kept attempt.now attempt.reservation_id sizes_of s.budget room in
      let l = (reserve_model_call attempt.now attempt.reservation_id sizes_of s.budget).1 in
      let e =
        pair_of (reserve_model_call attempt.now attempt.reservation_id sizes_of s.budget) made in
      let settles =
        settle_within_reservation attempt.now attempt.reservation_id sizes_of result.usage
          result.provider_model s.budget l made held priced hi ho
          (subst (λ p. provider_model_has_pricing result.provider_model p ≡ true) (sym priced)
            known) in
      let r =
        reservation_for attempt.reservation_id sizes_of
          (cost sizes_of.prompt_length sizes_of.max_output_tokens s.budget.pricing) in
      let (i, answered, its, unrepaired) =
        settled_result q r result (record s { budget = l }) settles in
      (i, rw (invoke, eq_same, e, says) answered, its, unrepaired)
    where
      eq_same : str_eq q.output_schema_name output_type ≡ true
      eq_same = ground (arith, eq_iff q.output_schema_name output_type)
