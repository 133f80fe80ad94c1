-- ===== src/Agent/Assessment/Laws.antt =====
-- What `assess_evidence` and `repair_decision` answer.
use governed_analytics_agent.Common.{
  ℕ, ◌≡◌, refl, String, Bool, true, false, not, ◌&&◌, List, [], ◌∷◌, arith, length,
}
use governed_analytics_agent.Agent.Sorting.{set_of, sorted, distinct-sorted, distinct-set_of}
use governed_analytics_agent.Agent.Assessment.{
  keep, verified_of, hypotheses_of, Completion, attribution_completion, plan_completion,
  assessment_of, premise_failed, assess_evidence, repair_decision, attribution_dimensions,
  is_support,
}
use governed_analytics_agent.Contracts.Evidence.{
  EvidenceItem, ObservationValidation, RepairRecord, validate_assessment, validate_repair_decision,
}
use governed_analytics_agent.Contracts.Answer.{is_empty}
use governed_analytics_agent.Contracts.Governance.{GovernanceSnapshot}
use governed_analytics_agent.Contracts.Plan.{TypedMetricPlan, hypothesis_ids}
use governed_analytics_agent.Events.Values.{distinct}
use governed_analytics_agent.Events.Vocabulary.{member}

member-keep-false :
    (test : String → Bool) (s : String) (ss : List String)
    → member s ss ≡ false
    → member s (keep test ss) ≡ false
unfolding member
member-keep-false test s [] h = refl
member-keep-false test s (t ∷ ts) h = ground (arith, member-keep-false test s ts)

distinct-keep :
    (test : String → Bool) (ss : List String) → distinct ss ≡ true → distinct (keep test ss) ≡ true
unfolding distinct
distinct-keep test [] d = refl
distinct-keep test (s ∷ ss) d = ground (arith, distinct-keep test ss, member-keep-false test s ss)

-- What makes an assessment of a completion valid.
abbrev IsCompletion : Completion → Type 0
IsCompletion c =
    (distinct c.gaps ≡ true)
    × ((c.complete && c.partial) ≡ false)
    × ((c.complete && not (is_empty c.gaps)) ≡ false)

is_empty-sorted : (ss : List String) → is_empty ss ≡ true → is_empty (sorted ss) ≡ true
unfolding sorted
is_empty-sorted [] h = refl
is_empty-sorted (s ∷ ss) h = absurd (ground arith)

distinct_dimensions : distinct attribution_dimensions ≡ true
unfolding distinct member
distinct_dimensions = refl

distinct_confirm : distinct ("confirm_decline" ∷ []) ≡ true
unfolding distinct member
distinct_confirm = refl

attribution_completion-IsCompletion :
    (evidence : List EvidenceItem) → IsCompletion (attribution_completion evidence)
unfolding attribution_completion
attribution_completion-IsCompletion evidence =
    let supported =
      hypotheses_of (keep (λ item. item.verified && is_support item.stance) evidence) in
    let missing = keep (λ d. not (member d supported)) attribution_dimensions in
    let once =
      distinct-keep (λ d. not (member d supported)) attribution_dimensions distinct_dimensions in
    let sorted_once = distinct-sorted missing once in
    let dimensions_once = distinct-sorted attribution_dimensions distinct_dimensions in
    let confirm_once = distinct_confirm in ground arith

plan_completion-IsCompletion :
    (hypotheses resolved : List String) → IsCompletion (plan_completion hypotheses resolved)
unfolding plan_completion
plan_completion-IsCompletion hypotheses resolved =
    let required = set_of hypotheses in
    let missing = keep (λ h. not (member h resolved)) required in
    let once : distinct missing ≡ true =
      distinct-keep (λ h. not (member h resolved)) required (distinct-set_of hypotheses) in
    let sorted_once = distinct-sorted missing once in
    let none_left = is_empty-sorted missing in ground arith

assessment_of_validates :
    (c : Completion) (n : ℕ) (resolved : List String)
    → IsCompletion c
    → distinct resolved ≡ true
    → validate_assessment (assessment_of c n resolved) ≡ true
unfolding validate_assessment
assessment_of_validates c n resolved h d = ground arith

premise_failed_validates :
    (n : ℕ) (resolved : List String)
    → distinct resolved ≡ true
    → validate_assessment (premise_failed n resolved) ≡ true
unfolding validate_assessment distinct
premise_failed_validates n resolved d = ground arith

-- Whatever the plan and the evidence are, the assessment passes the validator of `EvidenceAssessment`:
-- at most one outcome flag, no repetition, and the stop reason that belongs to the flag. So
-- `assess_evidence` never raises.
pub assess_evidence_validates :
    (plan : TypedMetricPlan) (evidence : List EvidenceItem)
    → validate_assessment (assess_evidence plan evidence) ≡ true
unfolding assess_evidence
assess_evidence_validates plan evidence =
    let verified = verified_of evidence in
    let resolved = set_of (hypotheses_of verified) in
    let resolved_once = distinct-sorted resolved (distinct-set_of (hypotheses_of verified)) in
    let attribution =
      assessment_of_validates (attribution_completion verified) (length verified) (sorted resolved)
        (attribution_completion-IsCompletion verified) resolved_once in
    let planned =
      assessment_of_validates (plan_completion (hypothesis_ids plan) (sorted resolved))
        (length verified) (sorted resolved)
        (plan_completion-IsCompletion (hypothesis_ids plan) (sorted resolved)) resolved_once in
    let failed = premise_failed_validates (length verified) (sorted resolved) resolved_once in
    ground arith

-- A repair is granted only before any other, and every decision passes its validator.
pub repair_once :
    (v : ObservationValidation) (history : List RepairRecord) (g : GovernanceSnapshot)
    → ((repair_decision v history g).allowed ≡ true → (history ≡ []) × (g.repair_count ≡ 0))
      × (validate_repair_decision (repair_decision v history g) ≡ true)
unfolding repair_decision validate_repair_decision
repair_once v [] g = ground arith
repair_once v (r ∷ history) g = ground arith
