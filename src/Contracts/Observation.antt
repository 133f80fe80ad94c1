-- ===== src/Contracts/Observation.antt =====
-- The contract, action and observation records of agent/contracts.py, and whether the models'
-- validators accept them.
use governed_analytics_agent.Common.{
  ℕ, String, Bool, true, false, not, ◌&&◌, ◌||◌, Option, none, some, List, [], ◌∷◌, map, leb, ◌==◌,
  is_none, if◌then◌else◌, str_eq,
}
use governed_analytics_agent.Contracts.Answer.{is_empty}
use governed_analytics_agent.Contracts.Enums.{ActionType, ResultShape}
use governed_analytics_agent.Contracts.Json.{Json, Members}
use governed_analytics_agent.Events.Identifiers.{safe_query_id}
use governed_analytics_agent.Events.Values.{distinct}
use governed_analytics_agent.Contracts.Plan.{
  ColumnContract, SortKey, is_some, require_nonblank, subset, holds_any,
}

pub record ObservationContract : Type 0 where
  pub contract_id : String
  pub hypothesis_id : String
  pub columns : List ColumnContract
  pub shape : ResultShape
  pub min_rows : ℕ
  pub max_rows : ℕ
  pub key_columns : List String
  pub order_by : List SortKey
  pub limit : Option ℕ
  pub allow_truncation : Bool

abbrev pub column_names : ObservationContract → List String
column_names c = map (λ column. column.name) c.columns

abbrev fits_shape : ResultShape → ℕ → ℕ → Bool
fits_shape ResultShape.scalar low high = (low == 1) && (high == 1)
fits_shape ResultShape.single_row low high = high == 1
fits_shape _ low high = true

abbrev limit_within : Option ℕ → ℕ → Bool
limit_within none high = true
limit_within (some limit) high = leb limit high

-- `_validate_contract`
unfoldable pub validate_contract : ObservationContract → Bool
unfolding subset
validate_contract c =
    let order_columns = map (λ item. item.column) c.order_by in
    holds_any c.columns
    && distinct (column_names c)
    && leb c.min_rows c.max_rows
    && fits_shape c.shape c.min_rows c.max_rows
    && distinct c.key_columns
    && subset c.key_columns (column_names c)
    && distinct order_columns
    && subset order_columns (column_names c)
    && limit_within c.limit c.max_rows

pub record AnswerContract : Type 0 where
  pub answer_contract_id : String
  pub required_hypotheses : List String
  pub observation_contracts : List ObservationContract

-- `_validate_contracts`
unfoldable pub validate_contracts : AnswerContract → Bool
unfolding subset
validate_contracts a =
    let bound = map (λ (c : ObservationContract). c.hypothesis_id) a.observation_contracts in
    not (is_empty a.required_hypotheses)
    && distinct a.required_hypotheses
    && holds_any a.observation_contracts
    && distinct (map (λ (c : ObservationContract). c.contract_id) a.observation_contracts)
    && subset bound a.required_hypotheses
    && subset a.required_hypotheses bound

unfoldable pub matching : String → List ObservationContract → List ObservationContract
matching id [] = []
matching id (c ∷ cs) = if str_eq c.contract_id id then c ∷ matching id cs else matching id cs

-- `contract`; `none` is the `KeyError`.
unfoldable pub contract : AnswerContract → String → Option ObservationContract
unfolding matching
contract a id = elim (matching id a.observation_contracts) [ c ∷ [] ↦ some c | _ ↦ none ]

pub record AgentAction : Type 0 where
  pub action_type : ActionType
  pub purpose : String
  pub arguments : Members
  pub hypothesis_id : Option String
  pub contract_id : Option String
  pub expected_evidence : String

abbrev pub is_execute_sql : ActionType → Bool
is_execute_sql ActionType.execute_sql = true
is_execute_sql _ = false

abbrev pub is_profile : ActionType → Bool
is_profile ActionType.profile = true
is_profile _ = false

-- `_validate_action`
unfoldable pub validate_action : AgentAction → Bool
unfolding require_nonblank
validate_action a =
    require_nonblank a.purpose
    && require_nonblank a.expected_evidence
    && not (is_execute_sql a.action_type && (is_none a.contract_id || is_none a.hypothesis_id))
    && not (is_profile a.action_type && is_some a.contract_id)
    && not (is_profile a.action_type && not (str_eq a.expected_evidence "profile_context"))

pub record Observation : Type 0 where
  pub observation_id : String
  pub tool_name : ActionType
  pub purpose : String
  pub succeeded : Bool
  pub safe_error : Option String
  pub hypothesis_id : Option String
  pub contract_id : Option String
  pub query_id : Option String
  pub columns : List String
  pub row_count : Option ℕ
  pub possibly_truncated : Bool
  pub payload : Option Json

abbrev is_digest : Option String → Bool
is_digest none = false
is_digest (some s) = safe_query_id s

abbrev has_result : Observation → Bool
has_result o =
    is_digest o.query_id && not (is_empty o.columns) && is_some o.row_count && is_some o.payload

-- `_validate_observation`
unfoldable pub validate_observation : Observation → Bool
unfolding require_nonblank
validate_observation o =
    let failed = is_some o.safe_error && is_none o.payload && not o.possibly_truncated in
    let passed =
      is_none o.safe_error
      && not ((is_execute_sql o.tool_name || is_profile o.tool_name) && not (has_result o))
      && not (is_execute_sql o.tool_name && (is_none o.hypothesis_id || is_none o.contract_id))
      && not (is_profile o.tool_name && is_some o.contract_id) in
    require_nonblank o.purpose && distinct o.columns && (if o.succeeded then passed else failed)
