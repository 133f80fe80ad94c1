-- ===== src/Budget/Calls.antt =====
-- What the methods of `BudgetLedger` promise a caller: nothing changes when one raises, a usage
-- within its reservation settles, a reservation is spent once, and the deadline stops new work.
use native.Mathlib.Nat.{le_trans, mul-le-mul_right, div-mul-le_self, le-div_iff_mul-le}
use governed_analytics_agent.Common.{
  ℕ, zero, suc, ◌/◌, ◌≤◌, ◌≡◌, ◌⊎◌, String, true, none, some, arith, eq_iff, lookup, Option-cases,
  inl, inr, ok, err, lookup-erase_self,
}
use governed_analytics_agent.Contracts.Governance.{
  ModelRequest, ModelUsage, ModelReservation, GovernanceSnapshot,
}
use governed_analytics_agent.Pricing.{
  ModelPricing, cost, estimate_cost_cny, provider_model_has_pricing,
}
use governed_analytics_agent.Budget.{
  BudgetLedger, unknown_reservation, reserve_model_call, settle_model_call, fail_model_call, commit,
  same_reservation, reservation_for, no_usage,
}
use governed_analytics_agent.Budget.Invariant.{IsValid, lookup-IsKeyed}

div_mono : (k a b : ℕ) → a ≤ b → a / k ≤ b / k
div_mono zero a b h = omega arith
div_mono (suc k) a b h =
    (le-div_iff_mul-le (omega arith)).1 (le_trans (div-mul-le_self a (suc k)) h)

-- The cost of a call grows with its tokens.
pub cost_mono : (i j m n : ℕ) (p : ModelPricing) → i ≤ j → m ≤ n → cost i m p ≤ cost j n p
unfolding cost
cost_mono i j m n p h k = omega (
  arith,
  div_mono p.unit_tokens _ _ (mul-le-mul_right p.input_price h),
  div_mono p.unit_tokens _ _ (mul-le-mul_right p.output_price k),
)

pub same_reservation_refl : (a : ModelReservation) → same_reservation a a ≡ true
unfolding same_reservation
same_reservation_refl a = ground (arith, eq_iff a.reservation_id a.reservation_id)

-- What a reservation that was granted holds.
reserve_granted :
    (now : ℕ) (id : String) (q : ModelRequest) (l : BudgetLedger) {r : ModelReservation}
    → (reserve_model_call now id q l).0 ≡ ok r
    → (r ≡ reservation_for id q (cost q.prompt_length q.max_output_tokens l.pricing))
      × (q.prompt_length ≤ l.pricing.input_token_upper_bound)
unfolding reserve_model_call estimate_cost_cny
reserve_granted now id q l h = ground arith

settle_covered :
    (r : ModelReservation) (u : ModelUsage) (model : String) (m : BudgetLedger)
    → lookup r.reservation_id m.reservations ≡ some r
    → u.input_tokens ≤ m.pricing.input_token_upper_bound
    → cost u.input_tokens u.output_tokens m.pricing ≤ r.reserved_cost_cny
    → provider_model_has_pricing model m.pricing ≡ true
    → settle_model_call r u model m ≡ (
      ok (commit r (cost u.input_tokens u.output_tokens m.pricing) u m).snapshot,
      commit r (cost u.input_tokens u.output_tokens m.pricing) u m,
    )
unfolding settle_model_call estimate_cost_cny
settle_covered r u model m held fits covered known = ground (arith, same_reservation_refl r)

-- A granted reservation that is still held settles, at the cost of the usage, whenever the usage
-- stays within the token bounds that were reserved and the provider's model is priced.
pub settle_within_reservation :
    (now : ℕ) (id : String) (q : ModelRequest) (u : ModelUsage) (model : String)
    (l m : BudgetLedger) {r : ModelReservation}
    → (reserve_model_call now id q l).0 ≡ ok r
    → lookup id m.reservations ≡ some r
    → m.pricing ≡ l.pricing
    → u.input_tokens ≤ q.prompt_length
    → u.output_tokens ≤ q.max_output_tokens
    → provider_model_has_pricing model m.pricing ≡ true
    → settle_model_call r u model m ≡ (
      ok (commit r (cost u.input_tokens u.output_tokens m.pricing) u m).snapshot,
      commit r (cost u.input_tokens u.output_tokens m.pricing) u m,
    )
settle_within_reservation now id q u model l m {r} made held priced hi ho known = ground (
  arith,
  reserve_granted now id q l made,
  cost_mono u.input_tokens q.prompt_length u.output_tokens q.max_output_tokens m.pricing hi ho,
  settle_covered r u model m,
)

-- The reservation is gone from what `commit` writes.
commit_spent :
    (r : ModelReservation) (amount : ℕ) (u : ModelUsage) (l : BudgetLedger)
    → IsValid l
    → lookup r.reservation_id (commit r amount u l).reservations ≡ none
unfolding commit
commit_spent r amount u l v = lookup-erase_self r.reservation_id l.reservations v.distinct

spent_refused :
    (r : ModelReservation) (u : ModelUsage) (model : String) (l : BudgetLedger)
    → lookup r.reservation_id l.reservations ≡ none
    → (settle_model_call r u model l ≡ (err unknown_reservation, l))
      × (fail_model_call r l ≡ (err unknown_reservation, l))
unfolding settle_model_call fail_model_call
spent_refused r u model l h = ground arith

settle_spends :
    (r : ModelReservation) (u : ModelUsage) (model : String) (l : BudgetLedger)
    {s : GovernanceSnapshot}
    → IsValid l
    → (settle_model_call r u model l).0 ≡ ok s
    → lookup r.reservation_id (settle_model_call r u model l).1.reservations ≡ none
unfolding settle_model_call estimate_cost_cny
settle_spends r u model l v h = elim (Option-cases (lookup r.reservation_id l.reservations)) [
  | inl missing ↦ ground arith
  | inr (a, found) ↦
      let amount = cost u.input_tokens u.output_tokens l.pricing in
      ground (
        arith,
        lookup-IsKeyed r.reservation_id a l.reservations v.keyed found,
        commit_spent a amount u l v,
      )
]

fail_spends :
    (r : ModelReservation) (l : BudgetLedger) {s : GovernanceSnapshot}
    → IsValid l
    → (fail_model_call r l).0 ≡ ok s
    → lookup r.reservation_id (fail_model_call r l).1.reservations ≡ none
unfolding fail_model_call
fail_spends r l v h = elim (Option-cases (lookup r.reservation_id l.reservations)) [
  | inl missing ↦ ground arith
  | inr (a, found) ↦ ground (
    arith,
    lookup-IsKeyed r.reservation_id a l.reservations v.keyed found,
    commit_spent a a.reserved_cost_cny no_usage l v,
  )
]

-- From a valid ledger, a reservation is spent once: after it settles or fails, both methods refuse it
-- and change nothing.
pub reservation_spent_once :
    (r : ModelReservation) (u u' : ModelUsage) (model model' : String) (l l' : BudgetLedger)
    {s : GovernanceSnapshot}
    → IsValid l
    → (settle_model_call r u model l ≡ (ok s, l')) ⊎ (fail_model_call r l ≡ (ok s, l'))
    → (settle_model_call r u' model' l' ≡ (err unknown_reservation, l'))
      × (fail_model_call r l' ≡ (err unknown_reservation, l'))
reservation_spent_once r u u' model model' l l' {s} v (inl h) =
    spent_refused r u' model' l' (ground (arith, settle_spends r u model l {s = s} v))
reservation_spent_once r u u' model model' l l' {s} v (inr h) =
    spent_refused r u' model' l' (ground (arith, fail_spends r l {s = s} v))
