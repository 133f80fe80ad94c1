-- ===== src/Invoker/Replies.antt =====
-- What an invocation does to the ledger and to the recorder, and what it reports: the whole of it,
-- and its ends after the reply to a call.
use governed_analytics_agent.Common.{
  ℕ, ◌+◌, ◌≤◌, ◌≡◌, refl, String, Bool, true, Option, none, some, List, [], ◌∷◌, length, arith,
}
use governed_analytics_agent.Invoker.{first_result, repair_reply}
use governed_analytics_agent.Budget.{BudgetLedger}
use governed_analytics_agent.Contracts.Enums.{AgentModelErrorCategory}
use governed_analytics_agent.Contracts.Evidence.{RepairRecord, RepairOutcome, validate_record}
use governed_analytics_agent.Contracts.Governance.{ModelReservation}
use governed_analytics_agent.Contracts.Request.{
  StructuredModelRequest, StructuredModelResult, validate_result,
}
use governed_analytics_agent.Contracts.Trace.{ModelCallTrace, CallOutcome}
use governed_analytics_agent.Invoker.Accounting.{
  settle_or_fail, settle_model_error, error_trace, cancel, close, Closed,
}
use governed_analytics_agent.Invoker.Calls.{
  ClosesCall, close-ClosesCall, settle_or_fail-ClosesCall, settle_model_error-ClosesCall,
  cancel-ClosesCall, error_trace_sound, error_trace_cost,
}
use governed_analytics_agent.Invoker.Spending.{Spends, Opens, Spends-append, call_Spends}
use governed_analytics_agent.Invoker.Types.{
  Reply, replied, model_error, other_error, interrupted, Outcome, returned, raised, Invoker, append,
  repair_record, validate_invocation, provider_error, provider_failed,
}

abbrev sound_repair : Option RepairRecord → Bool
sound_repair none = true
sound_repair (some r) = validate_record r

-- What the caller is told agrees with the traces `ts` that were recorded, and with the ledger.
abbrev pub Reports : {T : Type 0} → Outcome T → Invoker → List ModelCallTrace → Type 0
Reports (returned i) s ts =
    (i.traces ≡ ts)
    × (i.governance ≡ s.budget.snapshot)
    × (validate_invocation i ≡ true)
    × (sound_repair i.repair_record ≡ true)
Reports (raised e) s ts =
    (e.traces ≡ ts) × (e.governance ≡ s.budget.snapshot) × (sound_repair e.repair_record ≡ true)
Reports _ s ts = Unit

-- The whole of an invocation that began at `s`.
pub record Accounts {T : Type 0} (s : Invoker) (p : Outcome T × Invoker) : Type 0 where
  pub traces : List ModelCallTrace
  pub repairs : ℕ
  pub spends : Spends s p.1 traces repairs
  pub reports : Reports p.0 p.1 traces
  pub few : length traces ≤ 1 + repairs
  pub once : repairs ≤ 1

-- The result of a reply passed its validator when it was built.
abbrev pub IsSound : {T : Type 0} → Reply T → Type 0
IsSound (replied result) = validate_result result ≡ true
IsSound _ = Unit

pub repair_record_sound :
    (id : String) (q : StructuredModelRequest) (category : AgentModelErrorCategory)
    (outcome : RepairOutcome)
    → sound_repair (some (repair_record id q category outcome)) ≡ true
unfolding repair_record validate_record
repair_record_sound id q category outcome = refl

-- The second call, after `first` and one repair.
second_Spends :
    (s s1 : Invoker) (first : ModelCallTrace) (l : BudgetLedger) (r : ModelReservation) (c : Closed)
    → Spends s s1 (first ∷ []) 1
    → Opens r s1.budget l
    → ClosesCall s1.budget.reservations l c
    → Spends s (append c (record s1 { budget = l })) (first ∷ c.trace ∷ []) 1
second_Spends s s1 first l r c h o k =
    Spends-append s s1 (append c (record s1 { budget = l })) (first ∷ []) (c.trace ∷ []) 1 0 h
      (call_Spends s1 l r c o k)

module _ {T : Type 0} where
  pub first_result-Accounts :
      (q : StructuredModelRequest) (r : ModelReservation) (result : StructuredModelResult T)
      (s : Invoker) (l : BudgetLedger)
      → Opens r s.budget l
      → validate_result result ≡ true
      → Accounts s (first_result q r result (record s { budget = l }))
  unfolding first_result validate_invocation
  first_result-Accounts q r result s l o v =
      let h = settle_or_fail-ClosesCall q r result s.budget.reservations l o.holds v in
      record {
        traces = (settle_or_fail q r result l).trace ∷ [];
        repairs = 0;
        spends = call_Spends s l r (settle_or_fail q r result l) o h;
        reports = ground arith;
        few = omega arith;
        once = omega arith;
      }

  second_Accounts :
      (s s1 : Invoker) (first : ModelCallTrace) (l : BudgetLedger) (r : ModelReservation)
      (c : Closed) (o : Outcome T)
      → Spends s s1 (first ∷ []) 1
      → Opens r s1.budget l
      → ClosesCall s1.budget.reservations l c
      → Reports o (append c (record s1 { budget = l })) (first ∷ c.trace ∷ [])
      → Accounts s (o, append c (record s1 { budget = l }))
  second_Accounts s s1 first l r c o h w k says = record {
    traces = first ∷ c.trace ∷ [];
    repairs = 1;
    spends = second_Spends s s1 first l r c h w k;
    reports = says;
    few = omega arith;
    once = omega arith;
  }

  pub repair_reply-Accounts :
      (q rq : StructuredModelRequest) (category : AgentModelErrorCategory) (first : ModelCallTrace)
      (id : String) (r : ModelReservation) (elapsed_ms : ℕ) (reply : Reply T) (s s1 : Invoker)
      (l : BudgetLedger)
      → Spends s s1 (first ∷ []) 1
      → Opens r s1.budget l
      → IsSound reply
      → provider_failed s1.model ≡ some (provider_error s1.model)
      → Accounts s
          (repair_reply q rq category first id r elapsed_ms reply (record s1 { budget = l }))
  unfolding repair_reply validate_invocation
  repair_reply-Accounts q rq category first id r elapsed_ms (replied result) s s1 l h o v named =
      let k = settle_or_fail-ClosesCall rq r result s1.budget.reservations l o.holds v in
      second_Accounts s s1 first l r (settle_or_fail rq r result l) _ h o k (
        ground (
          arith,
          repair_record_sound id q category RepairOutcome.success,
          repair_record_sound id q category RepairOutcome.failed,
        ))
  repair_reply-Accounts q rq category first id r elapsed_ms (model_error error) s s1 l h o v named =
      let k = settle_model_error-ClosesCall s1.model rq r error s1.budget.reservations l o.holds in
      second_Accounts s s1 first l r (settle_model_error s1.model rq r error l) _ h o k
        (refl, k.current, repair_record_sound id q category RepairOutcome.failed)
  repair_reply-Accounts q rq category first id r elapsed_ms other_error s s1 l h o v named =
      let t = error_trace s1.model rq r (provider_error s1.model) CallOutcome.failed in
      let k =
        close-ClosesCall r s1.budget.reservations t l o.holds (error_trace_cost s1.model rq r _)
          (error_trace_sound s1.model rq r (provider_error s1.model)) in
      rw (repair_reply, named)
        (second_Accounts s s1 first l r (close r t l) _ h o k
          (refl, k.current, repair_record_sound id q category RepairOutcome.failed))
  repair_reply-Accounts q rq category first id r elapsed_ms interrupted s s1 l h o v named =
      second_Accounts s s1 first l r (cancel s1.model rq r elapsed_ms l) _ h o
        (cancel-ClosesCall s1.model rq r elapsed_ms s1.budget.reservations l o.holds) tt
