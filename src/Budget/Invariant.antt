-- ===== src/Budget/Invariant.antt =====
-- What holds of a ledger between two calls, and that each method of `BudgetLedger` keeps it.
use mathlib.Core.Path.{subst, sym}
use governed_analytics_agent.Common.{
  ℕ, ◌+◌, ◌≤◌, ◌<◌, ◌≡◌, refl, ◌⊎◌, String, Bool, true, false, none, some, [], ◌∷◌, arith, eq_iff,
  Dict, lookup, insert, erase, IsDistinct, insert-IsDistinct, erase-IsDistinct, Option-cases, inl,
  inr,
}
use governed_analytics_agent.Contracts.Enums.{ActionType}
use governed_analytics_agent.Contracts.Governance.{ModelRequest, ModelUsage, ModelReservation}
use governed_analytics_agent.Pricing.{ModelPricing, cost, estimate_cost_cny}
use governed_analytics_agent.Budget.{
  BudgetLimits, BudgetLedger, new_ledger, reserve_model_call, settle_model_call, fail_model_call,
  consume_tool, ensure_action_loop_available, consume_action_loop, consume_repair, commit, no_usage,
  reservation_for,
}

-- The sum of the reserved costs.
abbrev pub total : Dict ModelReservation → ℕ
total [] = 0
total ((k, r) ∷ d) = r.reserved_cost_cny + total d

-- Each reservation is held under its own id.
abbrev pub IsKeyed : Dict ModelReservation → Type 0
IsKeyed [] = Unit
IsKeyed ((k, r) ∷ d) = (k ≡ r.reservation_id) × IsKeyed d

pub record IsValid (l : BudgetLedger) : Type 0 where
  pub distinct : IsDistinct l.reservations
  pub keyed : IsKeyed l.reservations
  pub reserved : l.snapshot.reserved_cost_cny ≡ total l.reservations
  pub under_hard_cap :
      l.snapshot.committed_cost_cny + l.snapshot.reserved_cost_cny ≤ l.limits.hard_cost_cny
  pub llm_capped : l.snapshot.llm_calls ≤ l.limits.max_llm_calls
  pub tools_capped : l.snapshot.tool_calls ≤ l.limits.max_tool_calls
  pub executes_capped : l.snapshot.execute_calls ≤ l.limits.max_execute_calls
  pub profiles_capped : l.snapshot.profile_calls ≤ l.limits.max_profile_calls
  pub loops_capped : l.snapshot.action_loops ≤ l.limits.max_action_loops
  pub repairs_capped : l.snapshot.repair_count ≤ l.limits.max_repairs
  pub structured_counted : l.snapshot.structured_output_repair_count ≤ l.snapshot.repair_count
  pub tools_counted : l.snapshot.execute_calls + l.snapshot.profile_calls ≤ l.snapshot.tool_calls
  pub soft_flag :
      l.snapshot.soft_cap_reached ≡ true → l.limits.soft_cost_cny ≤ l.snapshot.committed_cost_cny
  pub soft_unflagged :
      l.snapshot.soft_cap_reached ≡ false
      → (l.snapshot.committed_cost_cny < l.limits.soft_cost_cny)
        ⊎ (l.snapshot.committed_cost_cny ≡ 0)

pub new_ledger-IsValid :
    (b : BudgetLimits) (p : ModelPricing) (now : ℕ) → IsValid (new_ledger b p now)
unfolding new_ledger
new_ledger-IsValid b p now = ground arith

total-insert :
    (k : String) (r : ModelReservation) (d : Dict ModelReservation)
    → lookup k d ≡ none
    → total (insert k r d) ≡ total d + r.reserved_cost_cny
total-insert k r [] h = omega arith
total-insert k r ((j, s) ∷ d) h = ground (arith, total-insert k r d)

pub total-erase :
    (k : String) (r : ModelReservation) (d : Dict ModelReservation)
    → lookup k d ≡ some r
    → total (erase k d) + r.reserved_cost_cny ≡ total d
total-erase k r [] h = absurd (ground arith)
total-erase k r ((j, s) ∷ d) h = ground (arith, total-erase k r d)

insert-IsKeyed :
    (r : ModelReservation) (d : Dict ModelReservation)
    → IsKeyed d
    → IsKeyed (insert r.reservation_id r d)
insert-IsKeyed r [] h = (refl, tt)
insert-IsKeyed r ((j, s) ∷ d) h = ground (arith, insert-IsKeyed r d h.1)

erase-IsKeyed : (k : String) (d : Dict ModelReservation) → IsKeyed d → IsKeyed (erase k d)
erase-IsKeyed k [] h = tt
erase-IsKeyed k ((j, s) ∷ d) h = ground (arith, erase-IsKeyed k d h.1)

pub lookup-IsKeyed :
    (k : String) (r : ModelReservation) (d : Dict ModelReservation)
    → IsKeyed d
    → lookup k d ≡ some r
    → r.reservation_id ≡ k
lookup-IsKeyed k r [] h e = absurd (ground arith)
lookup-IsKeyed k r ((j, s) ∷ d) h e = ground (arith, eq_iff j k, lookup-IsKeyed k r d h.1)

-- A reservation keeps the ledger valid, when the id is new.
pub reserve_model_call-IsValid :
    (now : ℕ) (id : String) (q : ModelRequest) (l : BudgetLedger)
    → lookup id l.reservations ≡ none
    → IsValid l
    → IsValid (reserve_model_call now id q l).1
unfolding reserve_model_call estimate_cost_cny
reserve_model_call-IsValid now id q l fresh v =
    let r = reservation_for id q (cost q.prompt_length q.max_output_tokens l.pricing) in
    ground (
      arith,
      total-insert id r l.reservations fresh,
      insert-IsKeyed r l.reservations v.keyed,
      insert-IsDistinct id r l.reservations v.distinct,
    )

-- What `commit` writes is valid, for an active reservation and an amount that it covers.
commit-IsValid :
    (k : String) (r : ModelReservation) (amount : ℕ) (u : ModelUsage) (l : BudgetLedger)
    → lookup k l.reservations ≡ some r
    → amount ≤ r.reserved_cost_cny
    → IsValid l
    → IsValid (commit r amount u l)
unfolding commit
commit-IsValid k r amount u l active covered v =
    let e = lookup-IsKeyed k r l.reservations v.keyed active in
    ground (
      arith,
      total-erase r.reservation_id r l.reservations
          (subst (λ j. lookup j l.reservations ≡ some r) (sym e) active),
      erase-IsKeyed r.reservation_id l.reservations v.keyed,
      erase-IsDistinct r.reservation_id l.reservations v.distinct,
    )

pub settle_model_call-IsValid :
    (r : ModelReservation) (u : ModelUsage) (model : String) (l : BudgetLedger)
    → IsValid l
    → IsValid (settle_model_call r u model l).1
unfolding settle_model_call estimate_cost_cny
settle_model_call-IsValid r u model l v =
    elim (Option-cases (lookup r.reservation_id l.reservations)) [
      | inl missing ↦ ground arith
      | inr (active, found) ↦
          let amount = cost u.input_tokens u.output_tokens l.pricing in
          ground (arith, commit-IsValid r.reservation_id active amount u l found)
    ]

pub fail_model_call-IsValid :
    (r : ModelReservation) (l : BudgetLedger) → IsValid l → IsValid (fail_model_call r l).1
unfolding fail_model_call
fail_model_call-IsValid r l v = elim (Option-cases (lookup r.reservation_id l.reservations)) [
  | inl missing ↦ ground arith
  | inr (active, found) ↦
      ground
        (arith, commit-IsValid r.reservation_id active active.reserved_cost_cny no_usage l found)
]

pub consume_tool-IsValid :
    (now : ℕ) (a : ActionType) (l : BudgetLedger) → IsValid l → IsValid (consume_tool now a l).1
unfolding consume_tool
consume_tool-IsValid now a l v = ground arith

pub ensure_action_loop_available-IsValid :
    (now : ℕ) (l : BudgetLedger) → IsValid l → IsValid (ensure_action_loop_available now l).1
unfolding ensure_action_loop_available
ensure_action_loop_available-IsValid now l v = ground arith

pub consume_action_loop-IsValid : (l : BudgetLedger) → IsValid l → IsValid (consume_action_loop l).1
unfolding consume_action_loop
consume_action_loop-IsValid l v = ground arith

pub consume_repair-IsValid :
    (now : ℕ) (structured : Bool) (l : BudgetLedger)
    → IsValid l
    → IsValid (consume_repair now structured l).1
unfolding consume_repair
consume_repair-IsValid now structured l v = ground arith
