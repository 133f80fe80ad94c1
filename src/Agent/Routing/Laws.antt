-- ===== src/Agent/Routing/Laws.antt =====
-- Where the graph can go: a stop ends it, and it repairs once.
use governed_analytics_agent.Common.{
  ℕ, ◌+◌, ◌≡◌, Bool, true, false, not, ◌&&◌, List, [], ◌∷◌, if◌then◌else◌, All, arith,
}
use governed_analytics_agent.Agent.Assessment.{is_first}
use governed_analytics_agent.Agent.State.{AgentState}
use governed_analytics_agent.Agent.Routing.{
  Node, judge_evidence, repair, synthesize, finalize, done, is_stopped, is_conclusive, route,
  route_after_contract, route_after_action, route_after_tool, route_after_validation,
  route_after_evidence, route_after_repair,
}

-- Whether the route after the node runs the synthesis of a concluded analysis.
abbrev pub may_synthesize : Node → AgentState → Bool
may_synthesize judge_evidence s = is_conclusive s.stop_reason && not s.governance.soft_cap_reached
may_synthesize _ s = false

abbrev pub is_ending : Node → Bool
is_ending synthesize = true
is_ending finalize = true
is_ending done = true
is_ending _ = false

abbrev pub is_repair : Node → Bool
is_repair repair = true
is_repair _ = false

-- From every node that is not itself at the end, a set stop reason leads to `finalize` at once, but
-- for the judgement of conclusive evidence under the soft cap, which leads there over `synthesize`.
pub stopped_finalizes :
    (n : Node) (s : AgentState)
    → is_stopped s ≡ true
    → is_ending n ≡ false
    → route n s ≡ (if may_synthesize n s then synthesize else finalize)
unfolding route route_after_contract route_after_action route_after_tool route_after_validation
    route_after_evidence route_after_repair
stopped_finalizes n s h e = ground arith

abbrev pub repairs : List Node → ℕ
repairs [] = 0
repairs (n ∷ ns) = (if is_repair n then 1 else 0) + repairs ns

-- The states that the nodes leave: a repair is recorded, or stops the run, and records stay.
abbrev pub Records : Node → List AgentState → Type 0
Records n [] = Unit
Records n (s ∷ ss) =
    (is_repair n ≡ true → (is_first s.repair_history && not (is_stopped s)) ≡ false)
    × (is_first s.repair_history ≡ false → All (λ t. is_first t.repair_history ≡ false) ss)
    × Records (route n s) ss
