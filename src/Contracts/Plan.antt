-- ===== src/Contracts/Plan.antt =====
-- The plan and column records of agent/contracts.py, and whether the models' validators accept them. A time is a number of microseconds, with whether it has a time zone.
use governed_analytics_agent.Common.{
  ℕ, String, Bool, true, false, not, ◌&&◌, ◌||◌, Option, List, [], ◌∷◌, map, ltb, leb, ◌==◌,
  is_none, all_of, any_of,
}
use governed_analytics_agent.Contracts.Answer.{is_empty}
use governed_analytics_agent.Contracts.Enums.{AnalysisType}
use governed_analytics_agent.Contracts.Evidence.{same_flag}
use governed_analytics_agent.Events.Identifiers.{codes}
use governed_analytics_agent.Events.Values.{distinct}
use governed_analytics_agent.Events.Vocabulary.{member}

abbrev pub is_some {ℓ} : {A : Type ℓ} → Option A → Bool
is_some o = not (is_none o)

-- The code points that `str.strip` takes off.
abbrev is_space : ℕ → Bool
is_space c =
    (leb 9 c && leb c 13)
    || (leb 28 c && leb c 32)
    || (c == 133)
    || (c == 160)
    || (c == 5760)
    || (leb 8192 c && leb c 8202)
    || (c == 8232)
    || (c == 8233)
    || (c == 8239)
    || (c == 8287)
    || (c == 12288)

-- `_require_nonblank`: whether it returns.
unfoldable pub require_nonblank : String → Bool
require_nonblank s = any_of (λ c. not (is_space c)) (codes s)

-- `set(xs).issubset(ys)`
unfoldable pub subset : List String → List String → Bool
unfolding member
subset xs ys = all_of (λ x. member x ys) xs

pub record Datetime : Type 0 where
  pub aware : Bool
  pub microseconds : ℕ

pub record TimeWindow : Type 0 where
  pub label : String
  pub start_at : Datetime
  pub end_at : Datetime

-- `_validate_window`
unfoldable pub validate_window : TimeWindow → Bool
validate_window w =
    w.start_at.aware && w.end_at.aware && ltb w.start_at.microseconds w.end_at.microseconds

pub data HypothesisKind : Type 0 where
  metric_value confirm_decline dimension_contribution : HypothesisKind

pub data HypothesisStatus : Type 0 where
  pending supported refuted : HypothesisStatus

pub record Hypothesis : Type 0 where
  pub hypothesis_id : String
  pub kind : HypothesisKind
  pub dimension : Option String
  pub status : HypothesisStatus

abbrev needs_dimension : HypothesisKind → Bool
needs_dimension dimension_contribution = true
needs_dimension _ = false

-- `_validate_dimension`
unfoldable pub validate_dimension : Hypothesis → Bool
validate_dimension h = same_flag (needs_dimension h.kind) (is_some h.dimension)

pub record SortKey : Type 0 where
  pub column : String
  pub descending : Bool
  pub nulls_first : Bool

pub data DataType : Type 0 where
  string integer decimal boolean date datetime : DataType

pub data ColumnRole : Type 0 where
  dimension metric period identifier : ColumnRole

pub record ColumnContract : Type 0 where
  pub name : String
  pub data_type : DataType
  pub role : ColumnRole
  pub nullable : Bool
  pub unit_name : Option String

abbrev requires_unit : ColumnRole → DataType → Bool
requires_unit metric integer = true
requires_unit metric decimal = true
requires_unit _ _ = false

-- `_validate_unit`
unfoldable pub validate_unit : ColumnContract → Bool
validate_unit c = same_flag (requires_unit c.role c.data_type) (is_some c.unit_name)

pub record TypedMetricPlan : Type 0 where
  pub plan_id : String
  pub revision : ℕ
  pub metric_id : String
  pub metric_version : String
  pub analysis_type : AnalysisType
  pub windows : List TimeWindow
  pub grain : List String
  pub dimensions : List String
  pub filters : List String
  pub numerator : Option String
  pub denominator : Option String
  pub null_policy : String
  pub zero_denominator_policy : String
  pub fill_policy : String
  pub sort_keys : List SortKey
  pub top_k : Option ℕ
  pub tie_break : List String
  pub hypotheses : List Hypothesis

abbrev pub is_attribution : AnalysisType → Bool
is_attribution AnalysisType.attribution = true
is_attribution _ = false

abbrev pub holds_any {ℓ} : {A : Type ℓ} → List A → Bool
holds_any [] = false
holds_any (x ∷ xs) = true

abbrev pub hypothesis_ids : TypedMetricPlan → List String
hypothesis_ids p = map (λ h. h.hypothesis_id) p.hypotheses

-- `_validate_plan`
unfoldable pub validate_plan : TypedMetricPlan → Bool
validate_plan p =
    distinct p.grain
    && distinct p.dimensions
    && distinct p.filters
    && distinct p.tie_break
    && holds_any p.windows
    && distinct (map (λ w. w.label) p.windows)
    && holds_any p.hypotheses
    && distinct (hypothesis_ids p)
    && same_flag (is_none p.numerator) (is_none p.denominator)
    && not (is_attribution p.analysis_type && is_empty p.dimensions)
    && not (is_some p.top_k && not (holds_any p.sort_keys))
