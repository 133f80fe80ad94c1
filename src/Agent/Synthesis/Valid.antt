-- ===== src/Agent/Synthesis/Valid.antt =====
-- The deterministic answer passes the validator of `FinalAnswer`.
use governed_analytics_agent.Common.{
  ◌≡◌, refl, String, Bool, true, false, ◌&&◌, ◌||◌, Option, none, some, List, [], ◌∷◌, any_of,
  arith, Option-cases, inl, inr,
}
use governed_analytics_agent.Agent.Assessment.{verified_of, assess_evidence}
use governed_analytics_agent.Agent.Assessment.Laws.{assess_evidence_validates}
use governed_analytics_agent.Agent.State.{AgentState, last_of}
use governed_analytics_agent.Agent.Summary.Safe.{result_summary_safe}
use governed_analytics_agent.Agent.Synthesis.{
  status_for_reason, assessment, final_answer, ids_of, resolved_of, gaps_of, stop_class, internal,
  truncated, timed_out, ordinary, ordinary_answer, deterministic_answer, or_reason, stopped,
  complete_text, refuted_text, partial_text, late_text, timeout_text, truncated_text, internal_text,
  failure_text,
}
use governed_analytics_agent.Agent.Summary.{result_summary}
use governed_analytics_agent.Agent.Synthesis.Disjoint.{
  refutes_decline_only, assess_evidence_disjoint,
}
use governed_analytics_agent.Contracts.Answer.{
  validate_terminal_state, is_allowed_reason, is_unsafe_summary,
}
use governed_analytics_agent.Contracts.Enums.{FinalStatus, StopReason}
use governed_analytics_agent.Contracts.Every.{all_of_each, each_stop_reason, every_stop_reason}
use governed_analytics_agent.Contracts.Evidence.{
  EvidenceItem, EvidenceAssessment, validate_assessment,
}
use governed_analytics_agent.Contracts.Json.{Members, NumericValue}
use governed_analytics_agent.Events.Values.{distinct}
use governed_analytics_agent.Events.Vocabulary.{member}

-- The reasons that only verified evidence gives.
abbrev pub claims_evidence : Option StopReason → Bool
claims_evidence (some StopReason.answer_complete) = true
claims_evidence (some StopReason.premise_not_met) = true
claims_evidence (some StopReason.evidence_partial) = true
claims_evidence _ = false

abbrev pub is_nothing : List EvidenceItem → Bool
is_nothing [] = true
is_nothing (e ∷ es) = false

-- What the nodes in front of the answer see to: evidence ids and gaps are held once, only evidence
-- of the decline refutes, and a stop reason that claims evidence has some.
pub record IsAnswerable (s : AgentState) : Type 0 where
  pub ids_once : distinct (ids_of (verified_of s.evidence)) ≡ true
  pub gaps_once : distinct s.evidence_gaps ≡ true
  pub refuting : refutes_decline_only s.evidence ≡ true
  pub grounded : (claims_evidence s.stop_reason && is_nothing (verified_of s.evidence)) ≡ false

status_for_reason_allowed :
    (r : StopReason)
    → claims_evidence (some r) ≡ false
    → is_allowed_reason (status_for_reason r) r ≡ true
unfolding status_for_reason is_allowed_reason
status_for_reason_allowed r h =
    let test : StopReason → Bool =
      λ r. claims_evidence (some r) || is_allowed_reason (status_for_reason r) r in
    let known = each_stop_reason (λ r. test r ≡ true) (all_of_each test every_stop_reason refl) r in
    ground arith

answer_validates :
    (status : FinalStatus) (reason : StopReason) (answer : String)
    (ids completed missing limitations : List String) (summary : Option Members)
    → distinct ids ≡ true
    → distinct completed ≡ true
    → distinct missing ≡ true
    → distinct limitations ≡ true
    → any_of (λ d. member d missing) completed ≡ false
    → is_unsafe_summary summary ≡ false
    → is_allowed_reason status reason ≡ true
    → validate_terminal_state
        (final_answer status reason answer ids completed missing limitations summary)
      ≡ true
unfolding validate_terminal_state
answer_validates status reason answer ids completed missing limitations summary i c m l d u a =
    ground arith

distinct_one : (s : String) → distinct (s ∷ []) ≡ true
unfolding distinct member
distinct_one s = refl

distinct_nothing : distinct [] ≡ true
unfolding distinct
distinct_nothing = refl

no_gap : (xs : List String) → any_of (λ d. member d []) xs ≡ false
unfolding member
no_gap [] = refl
no_gap (x ∷ xs) = no_gap xs

-- What the answer takes from the assessment.
abbrev IsUsable : Option EvidenceAssessment → List String → Type 0
IsUsable a gaps =
    (distinct (resolved_of a) ≡ true)
    × (distinct (gaps_of a gaps) ≡ true)
    × (any_of (λ d. member d (gaps_of a gaps)) (resolved_of a) ≡ false)

assessment_once :
    (a : EvidenceAssessment)
    → validate_assessment a ≡ true
    → (distinct a.resolved_hypotheses ≡ true) × (distinct a.gaps ≡ true)
unfolding validate_assessment
assessment_once a h = ground arith

assessment-IsUsable : (s : AgentState) → IsAnswerable s → IsUsable (assessment s) s.evidence_gaps
unfolding assessment
assessment-IsUsable s h = elim (Option-cases (last_of s.plan_revisions)) [
  | inl missing ↦ rw (assessment, missing) (distinct_nothing, h.gaps_once, refl)
  | inr (plan, found) ↦
      let once =
        assessment_once (assess_evidence plan s.evidence)
          (assess_evidence_validates plan s.evidence) in
      rw (assessment, found) (once.0, once.1, assess_evidence_disjoint plan s.evidence h.refuting)
]

-- The answers that cite all verified evidence, and those that cite none.
module _ (decimal_text : NumericValue → String) (s : AgentState) (h : IsAnswerable s) where
  abbrev summary : Option Members
  summary = some (result_summary decimal_text s)

  abbrev ids : List String
  ids = ids_of (verified_of s.evidence)

  whole_validates :
      (status : FinalStatus) (reason : StopReason) (answer : String)
      → is_allowed_reason status reason ≡ true
      → validate_terminal_state
          (final_answer status reason answer ids (resolved_of (assessment s)) [] [] summary)
        ≡ true
  whole_validates status reason answer a =
      answer_validates status reason answer ids (resolved_of (assessment s)) [] [] summary
        h.ids_once (assessment-IsUsable s h).0 distinct_nothing distinct_nothing
        (no_gap (resolved_of (assessment s))) (result_summary_safe decimal_text s) a

  partial_validates :
      (status : FinalStatus) (reason : StopReason) (answer limitation : String)
      → is_allowed_reason status reason ≡ true
      → validate_terminal_state (
          final_answer status reason answer ids
            (resolved_of (assessment s))
            (gaps_of (assessment s) s.evidence_gaps)
            (limitation ∷ [])
            summary)
        ≡ true
  partial_validates status reason answer limitation a =
      let usable = assessment-IsUsable s h in
      answer_validates status reason answer ids (resolved_of (assessment s))
        (gaps_of (assessment s) s.evidence_gaps) (limitation ∷ []) summary h.ids_once usable.0
        usable.1 (distinct_one limitation) usable.2 (result_summary_safe decimal_text s) a

  failure_validates :
      (status : FinalStatus) (reason : StopReason) (answer : String) (limitations : List String)
      → distinct limitations ≡ true
      → is_allowed_reason status reason ≡ true
      → validate_terminal_state (
          final_answer status reason answer [] []
            (gaps_of (assessment s) s.evidence_gaps)
            limitations
            summary)
        ≡ true
  failure_validates status reason answer limitations l a =
      answer_validates status reason answer [] [] (gaps_of (assessment s) s.evidence_gaps)
        limitations summary distinct_nothing distinct_nothing (assessment-IsUsable s h).1 l refl
        (result_summary_safe decimal_text s) a

or_reason_unclaimed :
    (r : Option StopReason)
    → claims_evidence r ≡ false
    → claims_evidence (some (or_reason r StopReason.answer_contract_unmet)) ≡ false
or_reason_unclaimed none h = refl
or_reason_unclaimed (some r) h = h

internal_validates :
    validate_terminal_state (
      final_answer FinalStatus.internal_error StopReason.internal_error internal_text [] [] [] []
        none)
    ≡ true
unfolding is_allowed_reason
internal_validates =
    answer_validates FinalStatus.internal_error StopReason.internal_error internal_text [] [] [] []
      none distinct_nothing distinct_nothing distinct_nothing distinct_nothing refl refl refl

timed_out_allowed :
    (o : Option StopReason) (r : StopReason)
    → stop_class o ≡ timed_out r
    → (is_allowed_reason FinalStatus.execution_failed r ≡ true)
      × (is_allowed_reason FinalStatus.partial r ≡ true)
unfolding stop_class is_allowed_reason
timed_out_allowed o r c = ground arith

module _ (decimal_text : NumericValue → String) (s : AgentState) (h : IsAnswerable s) where
  ordinary_answer_validates : validate_terminal_state (ordinary_answer decimal_text s) ≡ true
  unfolding ordinary_answer is_allowed_reason
  ordinary_answer_validates =
      let reason = or_reason s.stop_reason StopReason.answer_contract_unmet in
      let because = stopped (or_reason s.stop_reason StopReason.evidence_partial) in
      let unclaimed = or_reason_unclaimed s.stop_reason in
      let allowed = status_for_reason_allowed reason in
      let grounded = h.grounded in
      ground (
        arith,
        whole_validates decimal_text s h FinalStatus.completed StopReason.answer_complete
            complete_text refl,
        whole_validates decimal_text s h FinalStatus.completed StopReason.premise_not_met
            refuted_text refl,
        partial_validates decimal_text s h FinalStatus.partial StopReason.evidence_partial
            partial_text because refl,
        failure_validates decimal_text s h (status_for_reason reason) reason
            (failure_text s.behavior reason) [] distinct_nothing,
      )

  truncated_validates :
      validate_terminal_state (
        final_answer FinalStatus.partial StopReason.result_truncated truncated_text
          (ids_of (verified_of s.evidence))
          (resolved_of (assessment s))
          (gaps_of (assessment s) s.evidence_gaps)
          ("result_truncated" ∷ [])
          (some (result_summary decimal_text s)))
      ≡ true
  unfolding is_allowed_reason
  truncated_validates =
      partial_validates decimal_text s h FinalStatus.partial StopReason.result_truncated
        truncated_text "result_truncated" refl

  -- Of a state with the four facts of `IsAnswerable`, whatever its stop reason is, the answer that the
  -- agent falls back on passes the validator of `FinalAnswer`, so building it does not raise: its reason belongs to its status, nothing is cited
  -- twice, no dimension is both completed and missing, and the summary has no forbidden key.
  pub deterministic_answer_validates :
      validate_terminal_state (deterministic_answer decimal_text s) ≡ true
  unfolding deterministic_answer
  deterministic_answer_validates =
      elim (stop_class s.stop_reason)
          as (λ c.
            stop_class s.stop_reason ≡ c
            → validate_terminal_state (deterministic_answer decimal_text s) ≡ true) [
              | internal ↦ λ c. ground (arith, internal_validates)
              | truncated ↦ λ c. ground (arith, truncated_validates)
              | timed_out r ↦ λ c.
                  let allowed = timed_out_allowed s.stop_reason r c in
                  ground (
                    arith,
                    failure_validates decimal_text s h FinalStatus.execution_failed r late_text
                        (stopped r ∷ []) (distinct_one (stopped r)) allowed.0,
                    partial_validates decimal_text s h FinalStatus.partial r timeout_text
                        (stopped r) allowed.1,
                  )
              | ordinary ↦ λ c. ground (arith, ordinary_answer_validates)
            ]
        refl
