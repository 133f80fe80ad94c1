-- ===== src/Budget/Trace.antt =====
-- Every ledger that calls can lead to, in any order, whether they succeed or raise.
use governed_analytics_agent.Common.{
  ℕ, ◌≡◌, refl, ap, ◌∙◌, String, Bool, none, Result, ok, err, lookup,
}
use governed_analytics_agent.Contracts.Enums.{ActionType}
use governed_analytics_agent.Contracts.Governance.{ModelRequest, ModelUsage, ModelReservation}
use governed_analytics_agent.Pricing.{ModelPricing}
use governed_analytics_agent.Budget.{
  BudgetLimits, BudgetLedger, Failure, new_ledger, reserve_model_call, settle_model_call,
  fail_model_call, consume_tool, ensure_action_loop_available, consume_action_loop, consume_repair,
}
use governed_analytics_agent.Budget.Invariant.{
  IsValid, new_ledger-IsValid, reserve_model_call-IsValid, settle_model_call-IsValid,
  fail_model_call-IsValid, consume_tool-IsValid, ensure_action_loop_available-IsValid,
  consume_action_loop-IsValid, consume_repair-IsValid,
}
use governed_analytics_agent.Budget.Atomic.{
  Keeps, reserve_model_call-Keeps, settle_model_call-Keeps, fail_model_call-Keeps,
  consume_tool-Keeps, ensure_action_loop_available-Keeps, consume_action_loop-Keeps,
  consume_repair-Keeps,
}

pub data Call : Type 0 where
  reserve : ℕ → String → ModelRequest → Call
  settle : ModelReservation → ModelUsage → String → Call
  fail : ModelReservation → Call
  use_tool : ℕ → ActionType → Call
  check_loop : ℕ → Call
  use_loop : Call
  use_repair : ℕ → Bool → Call

abbrev pub done :
    {A : Type 0} → Result Failure A × BudgetLedger → Result Failure (Unit {0}) × BudgetLedger
done (ok a, l) = (ok tt, l)
done (err e, l) = (err e, l)

-- The method that a call names, with its value dropped.
unfoldable pub apply : Call → BudgetLedger → Result Failure (Unit {0}) × BudgetLedger
apply (reserve now id q) l = done (reserve_model_call now id q l)
apply (settle r u model) l = done (settle_model_call r u model l)
apply (fail r) l = done (fail_model_call r l)
apply (use_tool now a) l = done (consume_tool now a l)
apply (check_loop now) l = ensure_action_loop_available now l
apply use_loop l = done (consume_action_loop l)
apply (use_repair now structured) l = done (consume_repair now structured l)

-- `uuid4()` gives no id that is in use.
abbrev pub IsFresh : Call → BudgetLedger → Type 0
IsFresh (reserve now id q) l = lookup id l.reservations ≡ none
IsFresh _ l = Unit

pub data Reach (l : BudgetLedger) : BudgetLedger → Type 0 where
  here : Reach l l
  next : {m : BudgetLedger} → Reach l m → (c : Call) → IsFresh c m → Reach l (apply c m).1

done_state : {A : Type 0} (p : Result Failure A × BudgetLedger) → (done p).1 ≡ p.1
done_state (ok a, l) = refl
done_state (err e, l) = refl

apply-IsValid : (c : Call) (l : BudgetLedger) → IsFresh c l → IsValid l → IsValid (apply c l).1
unfolding apply
apply-IsValid (reserve now id q) l f v = rw done_state (reserve_model_call-IsValid now id q l f v)
apply-IsValid (settle r u model) l f v = rw done_state (settle_model_call-IsValid r u model l v)
apply-IsValid (fail r) l f v = rw done_state (fail_model_call-IsValid r l v)
apply-IsValid (use_tool now a) l f v = rw done_state (consume_tool-IsValid now a l v)
apply-IsValid (check_loop now) l f v = ensure_action_loop_available-IsValid now l v
apply-IsValid use_loop l f v = rw done_state (consume_action_loop-IsValid l v)
apply-IsValid (use_repair now structured) l f v =
    rw done_state (consume_repair-IsValid now structured l v)

Reach-IsValid : {l m : BudgetLedger} → IsValid l → Reach l m → IsValid m
Reach-IsValid v here = v
Reach-IsValid v (next {m} r c f) = apply-IsValid c m f (Reach-IsValid v r)

done-Keeps :
    {A : Type 0} (l : BudgetLedger) (p : Result Failure A × BudgetLedger)
    → Keeps l p
    → Keeps l (done p)
done-Keeps l (ok a, l') h = h
done-Keeps l (err e, l') h = h

apply-Keeps : (c : Call) (l : BudgetLedger) → Keeps l (apply c l)
unfolding apply
apply-Keeps (reserve now id q) l = done-Keeps l _ (reserve_model_call-Keeps now id q l)
apply-Keeps (settle r u model) l = done-Keeps l _ (settle_model_call-Keeps r u model l)
apply-Keeps (fail r) l = done-Keeps l _ (fail_model_call-Keeps r l)
apply-Keeps (use_tool now a) l = done-Keeps l _ (consume_tool-Keeps now a l)
apply-Keeps (check_loop now) l = ensure_action_loop_available-Keeps now l
apply-Keeps use_loop l = done-Keeps l _ (consume_action_loop-Keeps l)
apply-Keeps (use_repair now structured) l = done-Keeps l _ (consume_repair-Keeps now structured l)

Keeps-limits :
    {A : Type 0} (l : BudgetLedger) (p : Result Failure A × BudgetLedger)
    → Keeps l p
    → p.1.limits ≡ l.limits
Keeps-limits l (ok a, l') h = h
Keeps-limits l (err e, l') h = ap (λ (m : BudgetLedger). m.limits) h

Keeps-err :
    {A : Type 0} (l : BudgetLedger) (p : Result Failure A × BudgetLedger) {e : Failure}
    → Keeps l p
    → p.0 ≡ err e
    → p.1 ≡ l
Keeps-err l (ok a, l') h raised = cc
Keeps-err l (err e, l') h raised = h

Reach_limits : {l m : BudgetLedger} → Reach l m → m.limits ≡ l.limits
Reach_limits here = refl
Reach_limits (next {m} r c f) = Keeps-limits m (apply c m) (apply-Keeps c m) ∙ Reach_limits r

-- However a new ledger is used, by calls whose new reservation ids are not in use, its books are in
-- order, and its limits are those it was made with: the reserved cost is the sum of what is
-- held, committed and reserved cost together stay under the hard cap of the limits it was made
-- with, no counter passes its limit, and the soft flag tells whether the committed cost reached
-- the soft cap.
pub reachable-IsValid :
    (b : BudgetLimits) (p : ModelPricing) (now : ℕ) {l : BudgetLedger}
    → Reach (new_ledger b p now) l
    → IsValid l × (l.limits ≡ b)
unfolding new_ledger
reachable-IsValid b p now r = (Reach-IsValid (new_ledger-IsValid b p now) r, Reach_limits r)

-- A call that raises leaves the ledger as it was.
pub apply_atomic :
    (c : Call) (l : BudgetLedger) {e : Failure} → (apply c l).0 ≡ err e → (apply c l).1 ≡ l
apply_atomic c l h = Keeps-err l (apply c l) (apply-Keeps c l) h
