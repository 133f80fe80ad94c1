-- ===== src/Agent.antt =====
-- The agent: its state (agent/state.py), the assessment of evidence and the repair decision
-- (agent/validation.py), the final answer (agent/nodes/synthesis.py), the mapping of failures
-- (agent/nodes/behavior.py) and the routes of the graph (agent/graph.py).
pub mod State
pub mod Sorting
pub mod Assessment
pub mod Summary
pub mod Synthesis
pub mod Failures
pub mod Routing
mod Tests
