-- ===== src/Invoker/Closing.antt =====
-- Whatever becomes of a model call, its reservation is closed: the ledger holds what it held before
-- the call, and the trace's cost is what the call committed.
use governed_analytics_agent.Common.{
  ℕ, ◌+◌, ap, ◌⊎◌, ◌≡◌, refl, String, none, some, arith, Result, ok, err, Dict, lookup, insert,
  erase-insert, lookup-insert_self, inl, inr,
}
use governed_analytics_agent.Budget.{
  BudgetLedger, Failure, settle_model_call, fail_model_call, commit, no_usage,
}
use governed_analytics_agent.Budget.Invariant.{IsValid, fail_model_call-IsValid}
use governed_analytics_agent.Budget.Atomic.{settle_model_call-Keeps}
use governed_analytics_agent.Budget.Calls.{same_reservation_refl}
use governed_analytics_agent.Pricing.{cost, estimate_cost_cny}
use governed_analytics_agent.Contracts.Governance.{ModelUsage, ModelReservation, GovernanceSnapshot}
use governed_analytics_agent.Invoker.Accounting.{fail_closed}

-- The ledger holds the reservation `r`, besides the reservations `d`.
pub record Holds (r : ModelReservation) (d : Dict ModelReservation) (l : BudgetLedger)
    : Type 0 where
  pub held : l.reservations ≡ insert r.reservation_id r d
  pub unused : lookup r.reservation_id d ≡ none

-- The counters that a settlement leaves alone, and what the ledger was made with.
pub record SameCounts (l l' : BudgetLedger) : Type 0 where
  pub limits : l'.limits ≡ l.limits
  pub pricing : l'.pricing ≡ l.pricing
  pub llm_calls : l'.snapshot.llm_calls ≡ l.snapshot.llm_calls
  pub repairs : l'.snapshot.repair_count ≡ l.snapshot.repair_count
  pub structured :
      l'.snapshot.structured_output_repair_count ≡ l.snapshot.structured_output_repair_count

-- The call is closed: only `d` is held, and the committed cost grew by `cost`.
pub record Closes (d : Dict ModelReservation) (cost : ℕ) (l l' : BudgetLedger) : Type 0 where
  pub released : l'.reservations ≡ d
  pub paid : l'.snapshot.committed_cost_cny ≡ l.snapshot.committed_cost_cny + cost
  pub counts : SameCounts l l'

pub commit-Closes :
    (r : ModelReservation) (d : Dict ModelReservation) (amount : ℕ) (u : ModelUsage)
    (l : BudgetLedger)
    → Holds r d l
    → Closes d amount l (commit r amount u l)
unfolding commit
commit-Closes r d amount u l h = ground (arith, erase-insert r.reservation_id r d h.unused)

pub found :
    (r : ModelReservation) (d : Dict ModelReservation) (l : BudgetLedger)
    → Holds r d l
    → lookup r.reservation_id l.reservations ≡ some r
found r d l h = ground (arith, lookup-insert_self r.reservation_id r d)

fail_held :
    (r : ModelReservation) (d : Dict ModelReservation) (l : BudgetLedger)
    → Holds r d l
    → fail_model_call r l ≡ (
      ok (commit r r.reserved_cost_cny no_usage l).snapshot,
      commit r r.reserved_cost_cny no_usage l,
    )
unfolding fail_model_call
fail_held r d l h = ground (arith, found r d l h, same_reservation_refl r)

pub fail_closed-Closes :
    (r : ModelReservation) (d : Dict ModelReservation) (l : BudgetLedger)
    → Holds r d l
    → Closes d r.reserved_cost_cny l (fail_closed r l).1
      × ((fail_closed r l).0 ≡ (fail_closed r l).1.snapshot)
unfolding fail_closed
fail_closed-Closes r d l h =
    rw (fail_closed, fail_held r d l h, fail_held r d l h)
      (commit-Closes r d r.reserved_cost_cny no_usage l h, refl)

pub fail_closed-IsValid :
    (r : ModelReservation) (l : BudgetLedger) → IsValid l → IsValid (fail_closed r l).1
unfolding fail_closed
fail_closed-IsValid r l v = ground (arith, fail_model_call-IsValid r l v)

-- What a settlement that succeeds has done.
settle_held :
    (r : ModelReservation) (d : Dict ModelReservation) (u : ModelUsage) (model : String)
    (l : BudgetLedger) {g : GovernanceSnapshot}
    → Holds r d l
    → (settle_model_call r u model l).0 ≡ ok g
    → settle_model_call r u model l ≡ (
      ok (commit r (cost u.input_tokens u.output_tokens l.pricing) u l).snapshot,
      commit r (cost u.input_tokens u.output_tokens l.pricing) u l,
    )
unfolding settle_model_call estimate_cost_cny
settle_held r d u model l {g} h e = ground (arith, found r d l h, same_reservation_refl r)

-- The two ways in which a settlement ends.
pub settle_ends :
    (r : ModelReservation) (d : Dict ModelReservation) (u : ModelUsage) (model : String)
    (l : BudgetLedger)
    → Holds r d l
    → (settle_model_call r u model l ≡ (
      ok (commit r (cost u.input_tokens u.output_tokens l.pricing) u l).snapshot,
      commit r (cost u.input_tokens u.output_tokens l.pricing) u l,
    ))
      ⊎ ((e : Failure) × (settle_model_call r u model l ≡ (err e, l)))
settle_ends r d u model l h = split (settle_model_call r u model l) refl
  where
    split :
        (p : Result Failure GovernanceSnapshot × BudgetLedger)
        → settle_model_call r u model l ≡ p
        → (settle_model_call r u model l ≡ (
          ok (commit r (cost u.input_tokens u.output_tokens l.pricing) u l).snapshot,
          commit r (cost u.input_tokens u.output_tokens l.pricing) u l,
        ))
          ⊎ ((e : Failure) × (settle_model_call r u model l ≡ (err e, l)))
    split (ok g, l') e = inl (settle_held r d u model l {g = g} h (ap (λ p. p.0) e))
    split (err x, l') e = inr (x, ground (arith, settle_model_call-Keeps r u model l))
