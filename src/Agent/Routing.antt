-- ===== src/Agent/Routing.antt =====
-- The routes of agent/graph.py and the edges of `build_agent_graph`.
pub mod Laws
use governed_analytics_agent.Common.{
  String, Bool, true, false, not, ◌&&◌, ◌||◌, Option, none, some, List, [], ◌∷◌, if◌then◌else◌,
  is_none,
}
use governed_analytics_agent.Agent.Assessment.{repair_decision}
use governed_analytics_agent.Agent.State.{AgentState, last_of}
use governed_analytics_agent.Contracts.Enums.{ActionType, StopReason}
use governed_analytics_agent.Contracts.Evidence.{ObservationValidation}
use governed_analytics_agent.Contracts.Plan.{is_some}
use governed_analytics_agent.Contracts.Observation.{AgentAction, Observation}

-- The nodes; `done` is `END`.
pub data Node : Type 0 where
  intake decide_behavior retrieve_context build_plan compile_contract route_action : Node
  invoke_tool validate_profile validate_observation judge_evidence replan repair : Node
  synthesize finalize done : Node

abbrev pub is_stopped : AgentState → Bool
is_stopped s = is_some s.stop_reason

-- `"finalize" if state["stop_reason"] is not None else target`, the routes after six of the nodes
abbrev unless_stopped : Node → AgentState → Node
unless_stopped target s = if is_stopped s then finalize else target

unfoldable pub route_after_contract : AgentState → Node
route_after_contract s =
    if is_stopped s || is_none s.answer_contract then finalize else route_action

unfoldable pub route_after_action : AgentState → Node
route_after_action s = if not (is_stopped s) && is_some s.next_action then invoke_tool else finalize

abbrev is_unobserved : List Observation → Bool
is_unobserved [] = true
is_unobserved (o ∷ os) = false

abbrev tool_route : ActionType → Node
tool_route ActionType.profile = validate_profile
tool_route ActionType.execute_sql = validate_observation
tool_route _ = finalize

unfoldable pub route_after_tool : AgentState → Node
route_after_tool s =
    if is_stopped s || is_unobserved s.observations
    then finalize
    else elim s.next_action [ none ↦ finalize | some action ↦ tool_route action.action_type ]

unfoldable pub route_after_validation : AgentState → Node
route_after_validation s =
    if is_stopped s then finalize else elim (last_of s.observation_validations) [
      | none ↦ finalize
      | some v ↦
          if v.valid
          then judge_evidence
          else if (repair_decision v s.repair_history s.governance).allowed
          then repair
          else finalize
    ]

abbrev pub is_conclusive : Option StopReason → Bool
is_conclusive (some StopReason.answer_complete) = true
is_conclusive (some StopReason.premise_not_met) = true
is_conclusive _ = false

unfoldable pub route_after_evidence : AgentState → Node
route_after_evidence s =
    if s.governance.soft_cap_reached
    then finalize
    else if is_conclusive s.stop_reason
    then synthesize
    else if is_stopped s
    then finalize
    else replan

unfoldable pub route_after_repair : AgentState → Node
route_after_repair s =
    if is_stopped s || is_unobserved s.observations then finalize else validate_observation

-- The edges of the graph: the node behind `n`, in the state that `n` leaves.
unfoldable pub route : Node → AgentState → Node
route intake s = unless_stopped decide_behavior s
route decide_behavior s = unless_stopped retrieve_context s
route retrieve_context s = unless_stopped build_plan s
route build_plan s = unless_stopped compile_contract s
route compile_contract s = route_after_contract s
route route_action s = route_after_action s
route invoke_tool s = route_after_tool s
route validate_profile s = unless_stopped replan s
route validate_observation s = route_after_validation s
route judge_evidence s = route_after_evidence s
route replan s = unless_stopped route_action s
route repair s = route_after_repair s
route synthesize s = finalize
route finalize s = done
route done s = done

-- The nodes that run from `n` on, if they leave the given states.
unfoldable pub walk : Node → List AgentState → List Node
unfolding route
walk n [] = []
walk n (s ∷ ss) = n ∷ walk (route n s) ss
