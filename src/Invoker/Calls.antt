-- ===== src/Invoker/Calls.antt =====
-- The three ways to close a model call: each closes the reservation, returns the current snapshot,
-- keeps the ledger valid and writes a trace that validates.
use governed_analytics_agent.Common.{
  ℕ, ◌-◌, ◌&&◌, not, none, some, ◌≡◌, refl, ap, String, true, ltb, ok, arith, Dict, Option-cases,
  Bool-cases, inl, inr,
}
use mathlib.Core.Path.{subst}
use governed_analytics_agent.Budget.{BudgetLedger, settle_model_call, commit}
use governed_analytics_agent.Budget.Invariant.{IsValid, settle_model_call-IsValid}
use governed_analytics_agent.Contracts.Governance.{ModelUsage, ModelReservation, GovernanceSnapshot}
use governed_analytics_agent.Contracts.Request.{
  StructuredModelRequest, StructuredModelResult, validate_result,
}
use governed_analytics_agent.Contracts.Trace.{ModelCallTrace, CallOutcome, validate_model_call}
use governed_analytics_agent.Events.Identifiers.{codes, matches_identifier}
use governed_analytics_agent.Invoker.Accounting.{
  AgentModelError, Closed, close, safe_model, is_credential, result_trace, model_of, settle_or_fail,
  settle_error_usage, error_trace, settle_model_error, cancel,
}
use governed_analytics_agent.Invoker.Closing.{
  Holds, Closes, commit-Closes, fail_closed-Closes, fail_closed-IsValid, settle_ends,
}
use governed_analytics_agent.Pricing.{cost}

-- A call that is closed, and what the method returns of it.
pub record ClosesCall (d : Dict ModelReservation) (l : BudgetLedger) (c : Closed) : Type 0 where
  pub closes : Closes d c.trace.estimated_cost_cny l c.budget
  pub current : c.governance ≡ c.budget.snapshot
  pub valid : IsValid l → IsValid c.budget
  pub sound : validate_model_call c.trace ≡ true

pub close-ClosesCall :
    (r : ModelReservation) (d : Dict ModelReservation) (t : ModelCallTrace) (l : BudgetLedger)
    → Holds r d l
    → t.estimated_cost_cny ≡ r.reserved_cost_cny
    → validate_model_call t ≡ true
    → ClosesCall d l (close r t l)
close-ClosesCall r d t l h e v = ground (arith, fail_closed-Closes r d l h, fail_closed-IsValid r l)

-- The committed amount is read off the two snapshots.
paid_exactly :
    (r : ModelReservation) (d : Dict ModelReservation) (amount : ℕ) (u : ModelUsage)
    (l : BudgetLedger)
    → Holds r d l
    → Closes d
        ((commit r amount u l).snapshot.committed_cost_cny - l.snapshot.committed_cost_cny)
        l
        (commit r amount u l)
paid_exactly r d amount u l h = ground (arith, commit-Closes r d amount u l h)

-- What a settlement that succeeds leaves is valid.
settled-IsValid :
    (r : ModelReservation) (u : ModelUsage) (model : String) (l l' : BudgetLedger)
    {g : GovernanceSnapshot}
    → settle_model_call r u model l ≡ (ok g, l')
    → IsValid l
    → IsValid l'
settled-IsValid r u model l l' e v =
    subst IsValid (ap (λ p. p.1) e) (settle_model_call-IsValid r u model l v)

default_lem : matches_identifier (codes "unknown-model") ≡ true
unfolding matches_identifier
default_lem = refl

-- A safe model's name is an identifier.
safe_model_lem : (value : String) → matches_identifier (codes (safe_model value)) ≡ true
unfolding safe_model
safe_model_lem value =
    elim (Bool-cases (matches_identifier (codes value) && not (is_credential (codes value)))) [
      | inl safe ↦ rw (safe_model, safe) (ground arith)
      | inr unsafe ↦ rw (safe_model, unsafe) default_lem
    ]

-- The three traces validate.
result_trace_sound :
    {T : Type 0} (q : StructuredModelRequest) (result : StructuredModelResult T) (amount : ℕ)
    → validate_result result ≡ true
    → (validate_model_call (result_trace q result CallOutcome.completed none amount) ≡ true)
      × ((e : String)
          → validate_model_call (result_trace q result CallOutcome.failed (some e) amount) ≡ true)
unfolding validate_model_call validate_result
result_trace_sound q result amount h = ground (arith, safe_model_lem result.provider_model)

pub error_trace_sound :
    (model : String) (q : StructuredModelRequest) (r : ModelReservation) (e : AgentModelError)
    → validate_model_call (error_trace model q r e CallOutcome.failed) ≡ true
unfolding validate_model_call error_trace
error_trace_sound model q r e = ground (arith, safe_model_lem (model_of e.provider_model model))

pub settle_or_fail-ClosesCall :
    {T : Type 0} (q : StructuredModelRequest) (r : ModelReservation)
    (result : StructuredModelResult T) (d : Dict ModelReservation) (l : BudgetLedger)
    → Holds r d l
    → validate_result result ≡ true
    → ClosesCall d l (settle_or_fail q r result l)
unfolding settle_or_fail
settle_or_fail-ClosesCall q r result d l h v =
    let u = result.usage in
    elim (settle_ends r d u result.provider_model l h) [
      | inl done ↦
          rw (settle_or_fail, done, done)
            (record {
              closes = paid_exactly r d (cost u.input_tokens u.output_tokens l.pricing) u l h;
              current = refl;
              valid = settled-IsValid r u result.provider_model l _ done;
              sound = (result_trace_sound q result _ v).0;
            })
      | inr (e, kept) ↦
          rw (settle_or_fail, kept, kept)
            (close-ClosesCall r d _ l h refl ((result_trace_sound q result _ v).1 _))
    ]

-- The cost of a trace is no matter to its validator.
priced_sound :
    (t : ModelCallTrace) (amount : ℕ)
    → validate_model_call t ≡ true
    → validate_model_call (record t { estimated_cost_cny = amount }) ≡ true
unfolding validate_model_call
priced_sound t amount h = h

settle_error_usage-ClosesCall :
    (r : ModelReservation) (t : ModelCallTrace) (model : String) (d : Dict ModelReservation)
    (l : BudgetLedger)
    → Holds r d l
    → t.estimated_cost_cny ≡ r.reserved_cost_cny
    → validate_model_call t ≡ true
    → ClosesCall d l (settle_error_usage r t model l)
unfolding settle_error_usage
settle_error_usage-ClosesCall r t model d l h same v =
    let u : ModelUsage = record {
      input_tokens = t.input_tokens;
      output_tokens = t.output_tokens;
    } in
    elim (settle_ends r d u model l h) [
      | inl done ↦
          rw (settle_error_usage, done, done)
            (record {
              closes = paid_exactly r d (cost u.input_tokens u.output_tokens l.pricing) u l h;
              current = refl;
              valid = settled-IsValid r u model l _ done;
              sound = priced_sound t _ v;
            })
      | inr (e, kept) ↦ rw (settle_error_usage, kept, kept) (close-ClosesCall r d _ l h same v)
    ]

pub settle_model_error-ClosesCall :
    (model : String) (q : StructuredModelRequest) (r : ModelReservation) (e : AgentModelError)
    (d : Dict ModelReservation) (l : BudgetLedger)
    → Holds r d l
    → ClosesCall d l (settle_model_error model q r e l)
unfolding settle_model_error error_trace
settle_model_error-ClosesCall model q r e d l h =
    let v = error_trace_sound model q r e in
    elim (Option-cases e.provider_model) [
      | inl missing ↦ rw (settle_model_error, missing) (close-ClosesCall r d _ l h refl v)
      | inr (m, given) ↦ elim (Bool-cases (ltb 0 e.input_tokens && ltb 0 e.output_tokens)) [
        | inl used ↦
            rw (settle_model_error, given, used) (settle_error_usage-ClosesCall r _ m d l h refl v)
        | inr unused ↦ rw (settle_model_error, given, unused) (close-ClosesCall r d _ l h refl v)
      ]
    ]

pub cancel-ClosesCall :
    (model : String) (q : StructuredModelRequest) (r : ModelReservation) (elapsed_ms : ℕ)
    (d : Dict ModelReservation) (l : BudgetLedger)
    → Holds r d l
    → ClosesCall d l (cancel model q r elapsed_ms l)
unfolding cancel validate_model_call
cancel-ClosesCall model q r elapsed_ms d l h =
    close-ClosesCall r d _ l h refl (ground (arith, safe_model_lem model))

pub error_trace_cost :
    (model : String) (q : StructuredModelRequest) (r : ModelReservation) (e : AgentModelError)
    → (error_trace model q r e CallOutcome.failed).estimated_cost_cny ≡ r.reserved_cost_cny
unfolding error_trace
error_trace_cost model q r e = refl
