-- ===== src/Events/Idempotent/Planning.antt =====
-- Freezing frozen data changes nothing: the events of a run's first steps.
use governed_analytics_agent.Common.{◌≡◌, refl, String, true, false, not, some, [], ◌∷◌, Dict, ◌==◌}
use governed_analytics_agent.Common.Maybe.{◌>>=◌, check}
use governed_analytics_agent.Events.Values.{
  Value, enum, identifier, nonnegative_int, boolean, expect_keys, identifier_tuple, is_text,
  is_nonempty_tuple, number, tuple_within, default_maximum, distinct, keys,
}
use governed_analytics_agent.Events.Freeze.{
  freeze_status, freeze_behavior, freeze_context, freeze_plan, freeze_hypothesis, within, eqb,
}
use governed_analytics_agent.Events.Vocabulary.{
  behavior_actions, behavior_reasons, behavior_reason_by_action, missing_fields, analysis_types,
  hypothesis_statuses,
}
use governed_analytics_agent.Events.Idempotent.Rules.{
  Settles, settles, frozen, enum_kept, identifier_kept, nonnegative_int_kept, boolean_kept,
  identifier_tuple_kept,
}

status_again :
    (a : String) (s : Value)
    → enum s (a ∷ []) ≡ some s
    → (freeze_status a (("status", s) ∷ []) ≡ some (("status", s) ∷ []))
      × (distinct (keys (("status", s) ∷ [])) ≡ true)
unfolding freeze_status expect_keys ◌>>=◌ distinct
status_again a s es = (rw (es), refl)

pub freeze_status-Settles :
    (a : String) (d : Dict Value) → Settles (freeze_status a) (freeze_status a d)
unfolding freeze_status
freeze_status-Settles a d =
    settles _ _ λ _ _. settles _ _ λ s es. frozen _ (status_again a s (enum_kept _ _ es))

behavior_again :
    (f a r : Value)
    → identifier_tuple f 5 true ≡ some f
    → check (tuple_within missing_fields f) ≡ some tt
    → enum a behavior_actions ≡ some a
    → enum r behavior_reasons ≡ some r
    → check (within behavior_reason_by_action a r) ≡ some tt
    → check (eqb (is_text a "clarify") (is_nonempty_tuple f)) ≡ some tt
    → (freeze_behavior (("action", a) ∷ ("reason_code", r) ∷ ("missing_fields", f) ∷ [])
        ≡ some (("action", a) ∷ ("reason_code", r) ∷ ("missing_fields", f) ∷ []))
      × (distinct (keys (("action", a) ∷ ("reason_code", r) ∷ ("missing_fields", f) ∷ [])) ≡ true)
unfolding freeze_behavior expect_keys ◌>>=◌ distinct
behavior_again f a r ef e1 ea er e2 e3 = (rw (ef, e1, ea, er, e2, e3), refl)

pub freeze_behavior-Settles : (d : Dict Value) → Settles freeze_behavior (freeze_behavior d)
unfolding freeze_behavior
freeze_behavior-Settles d = settles _ _ λ _ _. settles _ _ λ f ef. settles _ _ λ _ e1.
    settles _ _ λ a ea. settles _ _ λ r er. settles _ _ λ _ e2. settles _ _ λ _ e3. frozen _ (
      behavior_again f a r (identifier_tuple_kept _ _ _ ef) e1 (enum_kept _ _ ea) (enum_kept _ _ er)
        e2 e3)

context_again :
    (m t s : Value)
    → nonnegative_int m 10000 ≡ some m
    → nonnegative_int t 10000 ≡ some t
    → boolean s ≡ some s
    → (freeze_context (("metric_count", m) ∷ ("table_count", t) ∷ ("success", s) ∷ [])
        ≡ some (("metric_count", m) ∷ ("table_count", t) ∷ ("success", s) ∷ []))
      × (distinct (keys (("metric_count", m) ∷ ("table_count", t) ∷ ("success", s) ∷ [])) ≡ true)
unfolding freeze_context expect_keys ◌>>=◌ distinct
context_again m t s em et es = (rw (em, et, es), refl)

pub freeze_context-Settles : (d : Dict Value) → Settles freeze_context (freeze_context d)
unfolding freeze_context
freeze_context-Settles d = settles _ _ λ _ _. settles _ _ λ m em. settles _ _ λ t et.
    settles _ _ λ s es. frozen _ (
      context_again m t s (nonnegative_int_kept _ _ em) (nonnegative_int_kept _ _ et)
        (boolean_kept _ es))

plan_again :
    (r p a m h : Value)
    → nonnegative_int r default_maximum ≡ some r
    → check (not (number r == 0)) ≡ some tt
    → identifier p ≡ some p
    → enum a analysis_types ≡ some a
    → identifier m ≡ some m
    → identifier_tuple h 16 false ≡ some h
    → (freeze_plan (
          ("plan_id", p)
          ∷ ("revision", r)
          ∷ ("analysis_type", a)
          ∷ ("metric_id", m)
          ∷ ("hypothesis_ids", h)
          ∷ [])
        ≡ some (
            ("plan_id", p)
            ∷ ("revision", r)
            ∷ ("analysis_type", a)
            ∷ ("metric_id", m)
            ∷ ("hypothesis_ids", h)
            ∷ []))
      × (distinct (
            keys (
              ("plan_id", p)
              ∷ ("revision", r)
              ∷ ("analysis_type", a)
              ∷ ("metric_id", m)
              ∷ ("hypothesis_ids", h)
              ∷ []))
          ≡ true)
unfolding freeze_plan expect_keys ◌>>=◌ distinct
plan_again r p a m h er e1 ep ea em eh = (rw (er, e1, ep, ea, em, eh), refl)

pub freeze_plan-Settles : (d : Dict Value) → Settles freeze_plan (freeze_plan d)
unfolding freeze_plan
freeze_plan-Settles d = settles _ _ λ _ _. settles _ _ λ r er. settles _ _ λ _ e1.
    settles _ _ λ p ep. settles _ _ λ a ea. settles _ _ λ m em. settles _ _ λ h eh. frozen _ (
      plan_again r p a m h (nonnegative_int_kept _ _ er) e1 (identifier_kept _ ep)
        (enum_kept _ _ ea) (identifier_kept _ em) (identifier_tuple_kept _ _ _ eh))

hypothesis_again :
    (h s : Value)
    → identifier h ≡ some h
    → enum s hypothesis_statuses ≡ some s
    → (freeze_hypothesis (("hypothesis_id", h) ∷ ("status", s) ∷ [])
        ≡ some (("hypothesis_id", h) ∷ ("status", s) ∷ []))
      × (distinct (keys (("hypothesis_id", h) ∷ ("status", s) ∷ [])) ≡ true)
unfolding freeze_hypothesis expect_keys ◌>>=◌ distinct
hypothesis_again h s eh es = (rw (eh, es), refl)

pub freeze_hypothesis-Settles : (d : Dict Value) → Settles freeze_hypothesis (freeze_hypothesis d)
unfolding freeze_hypothesis
freeze_hypothesis-Settles d = settles _ _ λ _ _. settles _ _ λ h eh.
    settles _ _ λ s es. frozen _ (hypothesis_again h s (identifier_kept _ eh) (enum_kept _ _ es))
