-- ===== src/Agent/Synthesis/Disjoint.antt =====
-- The resolved hypotheses and the gaps of an assessment have no member in common.
use governed_analytics_agent.Common.{
  ◌≡◌, refl, String, Bool, true, false, not, ◌&&◌, ◌||◌, List, [], ◌∷◌, all_of, any_of, str_eq,
  eq_iff, arith,
}
use governed_analytics_agent.Agent.Assessment.{
  keep, verified_of, hypotheses_of, attribution_completion, plan_completion, is_refuted,
  assess_evidence, attribution_dimensions, is_support,
}
use governed_analytics_agent.Agent.Sorting.{set_of, sorted, member-sorted, member-set_of}
use governed_analytics_agent.Contracts.Answer.{is_empty}
use governed_analytics_agent.Contracts.Evidence.{EvidenceItem}
use governed_analytics_agent.Contracts.Plan.{TypedMetricPlan, hypothesis_ids}
use governed_analytics_agent.Events.Vocabulary.{member}

abbrev supported_of : List EvidenceItem → List String
supported_of es = hypotheses_of (keep (λ item. item.verified && is_support item.stance) es)

abbrev comparison_of : List EvidenceItem → List EvidenceItem
comparison_of = keep (λ item. str_eq item.hypothesis_id "confirm_decline")

-- Only evidence of the decline can refute, as `_evidence_stance` makes it.
abbrev pub refutes_decline_only : List EvidenceItem → Bool
refutes_decline_only =
    all_of (λ item. is_support item.stance || str_eq item.hypothesis_id "confirm_decline")

pub disjoint_from :
    (xs gaps : List String)
    → ((d : String) → member d xs ≡ true → member d gaps ≡ false)
    → any_of (λ d. member d gaps) xs ≡ false
unfolding member
disjoint_from [] gaps h = refl
disjoint_from (x ∷ xs) gaps h =
    let head = h x in
    let tail = disjoint_from xs gaps (λ d m. h d (ground (arith, m))) in ground (arith, eq_iff x x)

-- What is verified and does not refute is supported.
member-supported_of :
    (d : String) (es : List EvidenceItem)
    → refutes_decline_only es ≡ true
    → str_eq d "confirm_decline" ≡ false
    → member d (hypotheses_of (verified_of es)) ≡ true
    → member d (supported_of (verified_of es)) ≡ true
unfolding member
member-supported_of d [] h ne m = m
member-supported_of d (e ∷ es) h ne m =
    ground (arith, eq_iff d e.hypothesis_id, member-supported_of d es)

-- A comparison with a support confirms the decline.
confirmed :
    (es : List EvidenceItem)
    → all_of
        (λ (item : EvidenceItem). not (is_support item.stance))
        (comparison_of (verified_of es))
      ≡ false
    → member "confirm_decline" (supported_of (verified_of es)) ≡ true
unfolding member
confirmed [] h = absurd (ground arith)
confirmed (e ∷ es) h = ground (
  arith,
  eq_iff e.hypothesis_id "confirm_decline",
  eq_iff "confirm_decline" e.hypothesis_id,
  confirmed es,
)

compared :
    (es : List EvidenceItem)
    → is_refuted (comparison_of (verified_of es)) ≡ false
    → member "confirm_decline" (hypotheses_of (verified_of es)) ≡ true
    → all_of
        (λ (item : EvidenceItem). not (is_support item.stance))
        (comparison_of (verified_of es))
      ≡ false
unfolding member
compared [] h m = absurd (ground arith)
compared (e ∷ es) h m = ground (
  arith,
  eq_iff e.hypothesis_id "confirm_decline",
  eq_iff "confirm_decline" e.hypothesis_id,
  compared es,
)

member-keep :
    (test : String → Bool) (d : String) (ss : List String)
    → member d (keep test ss) ≡ (member d ss && test d)
unfolding member
member-keep test d [] = refl
member-keep test d (s ∷ ss) = ground (arith, eq_iff d s, member-keep test d ss)

member_empty : (d : String) (ss : List String) → is_empty ss ≡ true → member d ss ≡ false
unfolding member
member_empty d [] h = refl
member_empty d (s ∷ ss) h = absurd (ground arith)

confirm_decline_apart : member "confirm_decline" attribution_dimensions ≡ false
unfolding member
confirm_decline_apart = refl

member_confirm_decline :
    (d : String) → member d ("confirm_decline" ∷ []) ≡ str_eq d "confirm_decline"
unfolding member
member_confirm_decline d = ground arith

member_nothing : (d : String) → member d [] ≡ false
unfolding member
member_nothing d = refl

-- No gap of an attribution is among its resolved hypotheses.
attribution_disjoint :
    (d : String) (es : List EvidenceItem)
    → refutes_decline_only es ≡ true
    → is_refuted (comparison_of (verified_of es)) ≡ false
    → member d (hypotheses_of (verified_of es)) ≡ true
    → member d (attribution_completion (verified_of es)).gaps ≡ false
unfolding attribution_completion
attribution_disjoint d es only unsettled m =
    let supported = supported_of (verified_of es) in
    let inside : String → Bool = λ d. member d supported in
    let outside : String → Bool = λ d. not (member d supported) in
    let missing = keep outside attribution_dimensions in
    let completed = keep inside attribution_dimensions in
    let support = member-supported_of d es only in
    let decline = compared es unsettled in
    let confirm = confirmed es in
    let kept = member-keep inside d attribution_dimensions in
    let left = member-keep outside d attribution_dimensions in
    let sorted_missing = member-sorted d missing in
    let sorted_all = member-sorted d attribution_dimensions in
    let none_kept = member_empty d completed in
    ground (
      arith,
      confirm_decline_apart,
      member_confirm_decline d,
      member_nothing d,
      eq_iff d "confirm_decline",
    )

plan_disjoint :
    (d : String) (hypotheses resolved : List String)
    → member d resolved ≡ true
    → member d (plan_completion hypotheses resolved).gaps ≡ false
unfolding plan_completion
plan_disjoint d hypotheses resolved m =
    let outside : String → Bool = λ h. not (member h resolved) in
    let required = set_of hypotheses in
    let left = member-keep outside d required in
    let sorted_missing = member-sorted d (keep outside required) in ground arith

assessed_disjoint :
    (plan : TypedMetricPlan) (es : List EvidenceItem) (d : String)
    → refutes_decline_only es ≡ true
    → member d (assess_evidence plan es).resolved_hypotheses ≡ true
    → member d (assess_evidence plan es).gaps ≡ false
unfolding assess_evidence
assessed_disjoint plan es d only m =
    let resolved = set_of (hypotheses_of (verified_of es)) in
    let same = member-sorted d resolved in
    let set = member-set_of d (hypotheses_of (verified_of es)) in
    let attribution = attribution_disjoint d es only in
    let planned = plan_disjoint d (hypothesis_ids plan) (sorted resolved) in
    ground (arith, member_nothing d)

pub assess_evidence_disjoint :
    (plan : TypedMetricPlan) (es : List EvidenceItem)
    → refutes_decline_only es ≡ true
    → any_of
        (λ d. member d (assess_evidence plan es).gaps)
        (assess_evidence plan es).resolved_hypotheses
      ≡ false
assess_evidence_disjoint plan es only =
    disjoint_from (assess_evidence plan es).resolved_hypotheses (assess_evidence plan es).gaps
      (λ d m. assessed_disjoint plan es d only m)
