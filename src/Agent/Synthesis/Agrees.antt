-- ===== src/Agent/Synthesis/Agrees.antt =====
-- A synthesized answer that `_valid_synthesis` accepts says what the deterministic answer says.
use governed_analytics_agent.Common.{
  ◌≡◌, refl, String, true, false, none, some, List, [], ◌∷◌, arith, Option-cases, inl, inr,
}
use governed_analytics_agent.Agent.Assessment.{
  keep, verified_of, assess_evidence, attribution_completion, plan_completion,
}
use governed_analytics_agent.Agent.Sorting.{set_of, sorted}
use governed_analytics_agent.Agent.State.{AgentState, last_of}
use governed_analytics_agent.Agent.Synthesis.{
  assessment, deterministic_answer, ordinary_answer, valid_synthesis, fits_outcome, fits_assessment,
  stop_class, ordinary, same_status, same_reason,
}
use governed_analytics_agent.Contracts.Answer.{FinalAnswer}
use governed_analytics_agent.Contracts.Enums.{FinalStatus, StopReason}
use governed_analytics_agent.Contracts.Evidence.{EvidenceItem, EvidenceAssessment}
use governed_analytics_agent.Contracts.Json.{NumericValue}
use governed_analytics_agent.Contracts.Plan.{TypedMetricPlan, hypothesis_ids}
use governed_analytics_agent.Events.Vocabulary.{member}

keep_nowhere : (ss : List String) → keep (λ s. member s []) ss ≡ []
unfolding member
keep_nowhere [] = refl
keep_nowhere (s ∷ ss) = keep_nowhere ss

plan_completion_nothing :
    (hypotheses : List String) → (plan_completion hypotheses []).partial ≡ false
unfolding plan_completion
plan_completion_nothing hypotheses = ground (arith, keep_nowhere (set_of hypotheses))

attribution_completion_nothing : (attribution_completion []).partial ≡ false
unfolding attribution_completion member
attribution_completion_nothing = refl

sorted_nothing : sorted (set_of []) ≡ []
unfolding sorted set_of
sorted_nothing = refl

-- Without verified evidence no assessment is partial.
assess_evidence_nothing :
    (plan : TypedMetricPlan) (es : List EvidenceItem)
    → verified_of es ≡ []
    → same_reason (assess_evidence plan es).stop_reason StopReason.evidence_partial ≡ false
unfolding assess_evidence
assess_evidence_nothing plan es h = ground (
  arith,
  attribution_completion_nothing,
  sorted_nothing,
  plan_completion_nothing (hypothesis_ids plan),
)

same_status→≡ :
    (x : FinalStatus)
    → (same_status x FinalStatus.completed ≡ true → x ≡ FinalStatus.completed)
      × (same_status x FinalStatus.partial ≡ true → x ≡ FinalStatus.partial)
same_status→≡ x = ground arith

same_reason→≡ :
    (x : StopReason)
    → (same_reason (some x) StopReason.answer_complete ≡ true → x ≡ StopReason.answer_complete)
      × (same_reason (some x) StopReason.premise_not_met ≡ true → x ≡ StopReason.premise_not_met)
      × (same_reason (some x) StopReason.evidence_partial ≡ true → x ≡ StopReason.evidence_partial)
same_reason→≡ x = ground arith

-- The status and the reason that the outcome of an assessment asks for.
abbrev Concludes : EvidenceAssessment → FinalStatus → StopReason → Type 0
Concludes a status reason =
    (a.complete ≡ true → (status ≡ FinalStatus.completed) × (reason ≡ StopReason.answer_complete))
    × (a.complete ≡ false
        → a.premise_not_met ≡ true
        → (status ≡ FinalStatus.completed) × (reason ≡ StopReason.premise_not_met))
    × (a.complete ≡ false
        → a.premise_not_met ≡ false
        → (status ≡ FinalStatus.partial)
          × (reason ≡ StopReason.evidence_partial)
          × (same_reason a.stop_reason StopReason.evidence_partial ≡ true))

fits_outcome-Concludes :
    (a : EvidenceAssessment) (status : FinalStatus) (reason : StopReason)
    → fits_outcome a status reason ≡ true
    → Concludes a status reason
unfolding fits_outcome
fits_outcome-Concludes a status reason h =
    let known_status = same_status→≡ status in
    let known_reason = same_reason→≡ reason in ground arith

fits_assessment_outcome :
    (answer : FinalAnswer) (a : EvidenceAssessment)
    → fits_assessment answer a ≡ true
    → fits_outcome a answer.status answer.stop_reason ≡ true
unfolding fits_assessment
fits_assessment_outcome answer a h = ground arith

valid_synthesis_fits :
    (s : AgentState) (answer : FinalAnswer) (a : EvidenceAssessment)
    → assessment s ≡ some a
    → valid_synthesis s answer ≡ true
    → fits_assessment answer a ≡ true
unfolding valid_synthesis
valid_synthesis_fits s answer a e v = ground arith

valid_synthesis_assessed :
    (s : AgentState) (answer : FinalAnswer) → assessment s ≡ none → valid_synthesis s answer ≡ false
unfolding valid_synthesis
valid_synthesis_assessed s answer e = ground arith

partial_verified :
    (s : AgentState) (a : EvidenceAssessment)
    → assessment s ≡ some a
    → verified_of s.evidence ≡ []
    → same_reason a.stop_reason StopReason.evidence_partial ≡ false
unfolding assessment
partial_verified s a e h = elim (Option-cases (last_of s.plan_revisions)) [
  | inl missing ↦ absurd (ground arith)
  | inr (plan, found) ↦ ground (arith, assess_evidence_nothing plan s.evidence h)
]

module _ (decimal_text : NumericValue → String) where
  deterministic-ordinary_answer :
      (s : AgentState)
      → stop_class s.stop_reason ≡ ordinary
      → deterministic_answer decimal_text s ≡ ordinary_answer decimal_text s
  unfolding deterministic_answer
  deterministic-ordinary_answer s o = ground arith

  ordinary_answer-Concludes :
      (s : AgentState) (a : EvidenceAssessment) (status : FinalStatus) (reason : StopReason)
      → assessment s ≡ some a
      → Concludes a status reason
      → (status ≡ (ordinary_answer decimal_text s).status)
        × (reason ≡ (ordinary_answer decimal_text s).stop_reason)
  unfolding ordinary_answer
  ordinary_answer-Concludes s a status reason e c = ground (arith, partial_verified s a e)

  -- In a state whose stop reason is no error, no truncation and no timeout, a synthesized answer that
  -- is accepted has the status and the reason of the deterministic answer, which the node keeps.
  pub valid_synthesis_agrees :
      (s : AgentState) (answer : FinalAnswer)
      → stop_class s.stop_reason ≡ ordinary
      → valid_synthesis s answer ≡ true
      → (answer.status ≡ (deterministic_answer decimal_text s).status)
        × (answer.stop_reason ≡ (deterministic_answer decimal_text s).stop_reason)
  valid_synthesis_agrees s answer o v = elim (Option-cases (assessment s)) [
    | inl missing ↦ absurd (ground (arith, valid_synthesis_assessed s answer missing))
    | inr (a, e) ↦ rw (deterministic-ordinary_answer s o) (
        ordinary_answer-Concludes s a answer.status answer.stop_reason e (
          fits_outcome-Concludes a answer.status answer.stop_reason
            (fits_assessment_outcome answer a (valid_synthesis_fits s answer a e v))))
  ]
