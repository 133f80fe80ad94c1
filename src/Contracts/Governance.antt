-- ===== src/Contracts/Governance.antt =====
-- The budget records of agent/contracts.py. An amount of money is a number of 10^-12 CNY.
use governed_analytics_agent.Common.{ℕ, ◌+◌, String, Bool, false, ltb, if◌then◌else◌, not}

-- What the ledger reads of a structured request: `len(request.prompt_bytes())` and its cap.
pub record ModelRequest : Type 0 where
  pub prompt_length : ℕ
  pub max_output_tokens : ℕ

pub record ModelUsage : Type 0 where
  pub input_tokens : ℕ
  pub output_tokens : ℕ

pub record ModelReservation : Type 0 where
  pub reservation_id : String
  pub input_token_upper_bound : ℕ
  pub output_token_upper_bound : ℕ
  pub reserved_cost_cny : ℕ

-- `deadline_monotonic` is a number of clock ticks.
pub record GovernanceSnapshot : Type 0 where
  pub action_loops : ℕ
  pub llm_calls : ℕ
  pub tool_calls : ℕ
  pub execute_calls : ℕ
  pub profile_calls : ℕ
  pub repair_count : ℕ
  pub structured_output_repair_count : ℕ
  pub input_tokens : ℕ
  pub output_tokens : ℕ
  pub committed_cost_cny : ℕ
  pub reserved_cost_cny : ℕ
  pub soft_cap_reached : Bool
  pub deadline_monotonic : ℕ

-- The defaults of the model's fields.
abbrev pub empty_snapshot : GovernanceSnapshot
empty_snapshot = record {
  action_loops = 0;
  llm_calls = 0;
  tool_calls = 0;
  execute_calls = 0;
  profile_calls = 0;
  repair_count = 0;
  structured_output_repair_count = 0;
  input_tokens = 0;
  output_tokens = 0;
  committed_cost_cny = 0;
  reserved_cost_cny = 0;
  soft_cap_reached = false;
  deadline_monotonic = 0;
}

-- `_validate_counts`: whether the validator accepts.
unfoldable pub validate_counts : GovernanceSnapshot → Bool
validate_counts s =
    if ltb s.repair_count s.structured_output_repair_count
    then false
    else not (ltb s.tool_calls (s.execute_calls + s.profile_calls))
