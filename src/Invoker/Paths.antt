-- ===== src/Invoker/Paths.antt =====
-- `invoke` accounts for what it does on every path.
use governed_analytics_agent.Common.{
  ℕ, ap, ◌⊎◌, ◌≡◌, refl, String, true, none, [], ◌∷◌, ok, err, arith, lookup, Bool-cases,
  Option-cases, inl, inr, Result, str_eq, some,
}
use governed_analytics_agent.Invoker.{
  sizes, repair_call, attempt_repair, handle_first_model_error, first_reply, invoke,
}
use governed_analytics_agent.Budget.{BudgetLedger, Failure, reserve_model_call, consume_repair}
use governed_analytics_agent.Budget.Atomic.{Keeps, reserve_model_call-Keeps, consume_repair-Keeps}
use governed_analytics_agent.Contracts.Enums.{AgentModelErrorCategory}
use governed_analytics_agent.Contracts.Evidence.{RepairOutcome}
use governed_analytics_agent.Contracts.Governance.{ModelReservation, GovernanceSnapshot}
use governed_analytics_agent.Contracts.Request.{StructuredModelRequest, for_repair}
use governed_analytics_agent.Contracts.Trace.{ModelCallTrace}
use governed_analytics_agent.Invoker.Accounting.{AgentModelError, settle_model_error, cancel}
use governed_analytics_agent.Invoker.Calls.{settle_model_error-ClosesCall, cancel-ClosesCall}
use governed_analytics_agent.Invoker.Spending.{
  Spends, Opens, Spends-nil, Spends-append, reserve_Opens, call_Spends, repair_Spends,
}
use governed_analytics_agent.Invoker.Types.{
  Reply, replied, model_error, other_error, interrupted, Script, Outcome, Invoker, append,
  allows_repair, provider_failed, provider_error, blocked_governance,
}
use governed_analytics_agent.Invoker.Replies.{
  Reports, Accounts, IsSound, repair_record_sound, first_result-Accounts, repair_reply-Accounts,
}

-- The two ways in which a method of the ledger ends.
pub ends :
    {A : Type 0} (l : BudgetLedger) (p : Result Failure A × BudgetLedger)
    → Keeps l p
    → ((a : A) × (l' : BudgetLedger) × (p ≡ (ok a, l'))) ⊎ ((e : Failure) × (p ≡ (err e, l)))
ends l (ok a, l') h = inl (a, l', refl)
ends l (err e, l') h = inr (e, ap (λ x. (err e, x)) h)

blocked_current :
    (e : Failure) {g current : GovernanceSnapshot}
    → g ≡ current
    → blocked_governance e g current ≡ current
blocked_current e h = ground arith

-- A call that was never made.
unspent : {T : Type 0} (s : Invoker) (o : Outcome T) → Reports o s [] → Accounts s (o, s)
unspent s o says = record {
  traces = [];
  repairs = 0;
  spends = Spends-nil s;
  reports = says;
  few = omega arith;
  once = omega arith;
}

module _ (prompt_length : StructuredModelRequest → ℕ) {T : Type 0} where
  repair_call-Accounts :
      (q rq : StructuredModelRequest) (category : AgentModelErrorCategory) (first : ModelCallTrace)
      (script : Script T) (g : GovernanceSnapshot) (s s1 : Invoker)
      → Spends s s1 (first ∷ []) 1
      → g ≡ s1.budget.snapshot
      → lookup script.second.reservation_id s1.budget.reservations ≡ none
      → IsSound script.second.reply
      → provider_failed s1.model ≡ some (provider_error s1.model)
      → Accounts s (repair_call prompt_length q rq category first script g s1)
  unfolding repair_call
  repair_call-Accounts q rq category first script g s s1 h current fresh v named =
      let attempt = script.second in
      let sizes_of = sizes prompt_length rq in
      elim (ends s1.budget
        (reserve_model_call attempt.now attempt.reservation_id sizes_of s1.budget)
        (reserve_model_call-Keeps attempt.now attempt.reservation_id sizes_of s1.budget)) [
          | inl (r, l, e) ↦
              rw (repair_call, e, e)
                (repair_reply-Accounts q rq category first script.repair_id r attempt.elapsed_ms
                  attempt.reply s s1 l h
                  (reserve_Opens attempt.now attempt.reservation_id sizes_of s1.budget l fresh e) v
                  named)
          | inr (x, e) ↦
              rw (repair_call, e, e)
                (record {
                  traces = first ∷ [];
                  repairs = 1;
                  spends = h;
                  reports = (
                    refl,
                    blocked_current x current,
                    repair_record_sound script.repair_id q category RepairOutcome.blocked,
                  );
                  few = omega arith;
                  once = omega arith;
                })
        ]

  attempt_repair-Accounts :
      (q : StructuredModelRequest) (category : AgentModelErrorCategory) (first : ModelCallTrace)
      (script : Script T) (s s1 : Invoker)
      → Spends s s1 (first ∷ []) 0
      → lookup script.second.reservation_id s.budget.reservations ≡ none
      → IsSound script.second.reply
      → provider_failed s1.model ≡ some (provider_error s1.model)
      → Accounts s (attempt_repair prompt_length q category first script s1)
  unfolding attempt_repair
  attempt_repair-Accounts q category first script s s1 h fresh v named =
      elim (ends s1.budget (consume_repair script.repair_now true s1.budget)
        (consume_repair-Keeps script.repair_now true s1.budget)) [
          | inr (x, e) ↦
              rw (attempt_repair, e, e)
                (record {
                  traces = first ∷ [];
                  repairs = 0;
                  spends = h;
                  reports = (
                    refl,
                    refl,
                    repair_record_sound script.repair_id q category RepairOutcome.blocked,
                  );
                  few = omega arith;
                  once = omega arith;
                })
          | inl (g, l, e) ↦
              let (granted, current) = repair_Spends script.repair_now s1 l e in
              let both =
                Spends-append s s1 (record s1 { budget = l }) (first ∷ []) [] 0 1 h granted in
              elim (Option-cases (for_repair category q)) [
                | inl refused ↦
                    rw (attempt_repair, e, refused, e)
                      (record {
                        traces = first ∷ [];
                        repairs = 1;
                        spends = both;
                        reports = tt;
                        few = omega arith;
                        once = omega arith;
                      })
                | inr (rq, made) ↦
                    rw (attempt_repair, e, made, e)
                      (repair_call-Accounts q rq category first script g s
                        (record s1 { budget = l }) both current (ground (arith, both.released)) v
                        named)
              ]
        ]

  handle_first_model_error-Accounts :
      (q : StructuredModelRequest) (r : ModelReservation) (error : AgentModelError)
      (script : Script T) (s : Invoker) (l : BudgetLedger)
      → Opens r s.budget l
      → lookup script.second.reservation_id s.budget.reservations ≡ none
      → IsSound script.second.reply
      → provider_failed s.model ≡ some (provider_error s.model)
      → Accounts s
          (handle_first_model_error prompt_length q r error script (record s { budget = l }))
  unfolding handle_first_model_error
  handle_first_model_error-Accounts q r error script s l o fresh v named =
      let c = settle_model_error s.model q r error l in
      let k = settle_model_error-ClosesCall s.model q r error s.budget.reservations l o.holds in
      let h = call_Spends s l r c o k in
      elim (Bool-cases (allows_repair q error.category error)) [
        | inl allowed ↦
            rw (handle_first_model_error, allowed)
              (attempt_repair-Accounts q error.category c.trace script s
                (append c (record s { budget = l })) h fresh v named)
        | inr refused ↦
            rw (handle_first_model_error, refused)
              (record {
                traces = c.trace ∷ [];
                repairs = 0;
                spends = h;
                reports = (refl, k.current, refl);
                few = omega arith;
                once = omega arith;
              })
      ]

  first_reply-Accounts :
      (q : StructuredModelRequest) (r : ModelReservation) (script : Script T) (reply : Reply T)
      (s : Invoker) (l : BudgetLedger)
      → Opens r s.budget l
      → lookup script.second.reservation_id s.budget.reservations ≡ none
      → IsSound reply
      → IsSound script.second.reply
      → provider_failed s.model ≡ some (provider_error s.model)
      → Accounts s (first_reply prompt_length q r script reply (record s { budget = l }))
  unfolding first_reply
  first_reply-Accounts q r script (replied result) s l o fresh v w named =
      first_result-Accounts q r result s l o v
  first_reply-Accounts q r script (model_error error) s l o fresh v w named =
      handle_first_model_error-Accounts q r error script s l o fresh w named
  first_reply-Accounts q r script other_error s l o fresh v w named =
      rw (first_reply, named)
        (handle_first_model_error-Accounts q r (provider_error s.model) script s l o fresh w named)
  first_reply-Accounts q r script interrupted s l o fresh v w named = record {
    traces = (cancel s.model q r script.first.elapsed_ms l).trace ∷ [];
    repairs = 0;
    spends =
        call_Spends s l r (cancel s.model q r script.first.elapsed_ms l) o
          (cancel-ClosesCall s.model q r script.first.elapsed_ms s.budget.reservations l o.holds);
    reports = tt;
    few = omega arith;
    once = omega arith;
  }

  pub invoke-Accounts :
      (q : StructuredModelRequest) (output_type : String) (script : Script T) (s : Invoker)
      → lookup script.first.reservation_id s.budget.reservations ≡ none
      → lookup script.second.reservation_id s.budget.reservations ≡ none
      → IsSound script.first.reply
      → IsSound script.second.reply
      → provider_failed s.model ≡ some (provider_error s.model)
      → Accounts s (invoke prompt_length q output_type script s)
  unfolding invoke
  invoke-Accounts q output_type script s fresh fresh' v w named =
      let attempt = script.first in
      let sizes_of = sizes prompt_length q in
      elim (Bool-cases (str_eq q.output_schema_name output_type)) [
        | inr other ↦ rw (invoke, other) (unspent s _ (refl, refl, refl))
        | inl same ↦
            elim (ends s.budget
              (reserve_model_call attempt.now attempt.reservation_id sizes_of s.budget)
              (reserve_model_call-Keeps attempt.now attempt.reservation_id sizes_of s.budget)) [
                | inr (x, e) ↦ rw (invoke, same, e, e) (unspent s _ (refl, refl, refl))
                | inl (r, l, e) ↦
                    rw (invoke, same, e, e)
                      (first_reply-Accounts q r script attempt.reply s l
                        (reserve_Opens attempt.now attempt.reservation_id sizes_of s.budget l fresh
                          e)
                        fresh' v w named)
              ]
      ]
