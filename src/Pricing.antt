-- ===== src/Pricing.antt =====
-- pricing.py: the price record and the cost of a call. An amount of money, a price too, is a number
-- of 10^-12 CNY; the division by `unit_tokens` is exact where that divides the product, as a unit
-- of 10^6 tokens does for prices of at most six decimals.
use governed_analytics_agent.Common.{
  ℕ, ◌+◌, ◌*◌, ◌/◌, String, Bool, ◌||◌, Option, ltb, if◌then◌else◌, str_eq, Result, ok, err,
}

pub record ModelPricing : Type 0 where
  pub provider : String
  pub region : String
  pub requested_model : String
  pub resolved_model : String
  pub effective_date : String
  pub unit_tokens : ℕ
  pub input_token_upper_bound : ℕ
  pub input_price : ℕ
  pub output_price : ℕ
  pub pricing_basis : String
  pub source : String
  pub fx_source : Option String

-- `ValueError("input token count exceeds recorded price bracket")`
pub data PricingError : Type 0 where
  exceeds_price_bracket : PricingError

unfoldable pub provider_model_has_pricing : String → ModelPricing → Bool
provider_model_has_pricing provider_model pricing =
    str_eq provider_model pricing.requested_model || str_eq provider_model pricing.resolved_model

-- The last expression of `estimate_cost_cny`.
unfoldable pub cost : ℕ → ℕ → ModelPricing → ℕ
cost input_tokens output_tokens pricing =
    input_tokens * pricing.input_price / pricing.unit_tokens
    + output_tokens * pricing.output_price / pricing.unit_tokens

-- A count is a natural number, so `_validate_token_count` passes.
unfoldable pub estimate_cost_cny : ℕ → ℕ → ModelPricing → Result PricingError ℕ
estimate_cost_cny input_tokens output_tokens pricing =
    if ltb pricing.input_token_upper_bound input_tokens
    then err exceeds_price_bracket
    else ok (cost input_tokens output_tokens pricing)
