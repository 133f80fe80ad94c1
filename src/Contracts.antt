-- ===== src/Contracts.antt =====
-- agent/contracts.py: the public domain contracts. The children hold the enumerations, the budget
-- records, the evidence and repair records, the decision and the final answer, and the safe trace.
pub mod Enums
pub mod Texts
pub mod Governance
pub mod Json
pub mod Answer
pub mod Evidence
pub mod Every
pub mod Plan
pub mod Observation
pub mod Trace
pub mod Request
pub mod Reflexive
