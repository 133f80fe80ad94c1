-- ===== src/Events/Idempotent/Execution.antt =====
-- Freezing frozen data changes nothing: the events of tools, evidence, repairs and the run's end.
use governed_analytics_agent.Common.{
  ◌+◌, ◌≡◌, refl, Bool, true, not, ◌&&◌, ◌||◌, some, [], ◌∷◌, Dict, leb, ◌==◌,
}
use governed_analytics_agent.Common.Maybe.{◌>>=◌, check}
use governed_analytics_agent.Events.Values.{
  Value, enum, identifier, optional_identifier, nonnegative_int, boolean, expect_keys,
  identifier_tuple, columns, query_id, money, is_text, is_null, is_true, number, default_maximum,
  distinct, keys,
}
use governed_analytics_agent.Events.Freeze.{
  freeze_tool_started, freeze_tool_completed, freeze_tool_failed, freeze_observation,
  freeze_evidence, freeze_repair, freeze_budget, freeze_terminal, validate_tool_identity, within,
  eqb, same_text, optional_enum,
}
use governed_analytics_agent.Events.Vocabulary.{
  safe_tool_errors, validation_errors, budget_reasons, terminal_reasons, final_statuses,
  stop_reasons,
}
use governed_analytics_agent.Events.Idempotent.Rules.{
  Settles, settles, frozen, enum_kept, identifier_kept, optional_identifier_kept,
  optional_enum_kept, nonnegative_int_kept, boolean_kept, identifier_tuple_kept, columns_kept,
  query_id_kept, money_kept, tool_identity_kept,
}

tool_started_again :
    (i : Value × Value) (c : Value)
    → validate_tool_identity (("tool_name", i.0) ∷ ("purpose", i.1) ∷ ("contract_id", c) ∷ [])
      ≡ some i
    → optional_identifier c ≡ some c
    → check (eqb (is_text i.0 "profile") (is_null c)) ≡ some tt
    → check (is_null c || same_text i.1 c) ≡ some tt
    → (freeze_tool_started (("tool_name", i.0) ∷ ("purpose", i.1) ∷ ("contract_id", c) ∷ [])
        ≡ some (("tool_name", i.0) ∷ ("purpose", i.1) ∷ ("contract_id", c) ∷ []))
      × (distinct (keys (("tool_name", i.0) ∷ ("purpose", i.1) ∷ ("contract_id", c) ∷ [])) ≡ true)
unfolding freeze_tool_started expect_keys ◌>>=◌ distinct
tool_started_again i c ei ec e1 e2 = (rw (ei, ec, e1, e2), refl)

pub freeze_tool_started-Settles :
    (d : Dict Value) → Settles freeze_tool_started (freeze_tool_started d)
unfolding freeze_tool_started
freeze_tool_started-Settles d = settles _ _ λ _ _. settles _ _ λ i ei. settles _ _ λ c ec.
    settles _ _ λ _ e1. settles _ _ λ _ e2. frozen _ (
      tool_started_again i c (tool_identity_kept d i (("contract_id", c) ∷ []) ei)
        (optional_identifier_kept _ ec) e1 e2)

tool_completed_again :
    (i : Value × Value) (q c r t : Value)
    → validate_tool_identity (
        ("tool_name", i.0)
        ∷ ("purpose", i.1)
        ∷ ("query_id", q)
        ∷ ("columns", c)
        ∷ ("row_count", r)
        ∷ ("possibly_truncated", t)
        ∷ [])
      ≡ some i
    → query_id q ≡ some q
    → check (not (is_null q)) ≡ some tt
    → columns c ≡ some c
    → nonnegative_int r 500 ≡ some r
    → boolean t ≡ some t
    → (freeze_tool_completed (
          ("tool_name", i.0)
          ∷ ("purpose", i.1)
          ∷ ("query_id", q)
          ∷ ("columns", c)
          ∷ ("row_count", r)
          ∷ ("possibly_truncated", t)
          ∷ [])
        ≡ some (
            ("tool_name", i.0)
            ∷ ("purpose", i.1)
            ∷ ("query_id", q)
            ∷ ("columns", c)
            ∷ ("row_count", r)
            ∷ ("possibly_truncated", t)
            ∷ []))
      × (distinct (
            keys (
              ("tool_name", i.0)
              ∷ ("purpose", i.1)
              ∷ ("query_id", q)
              ∷ ("columns", c)
              ∷ ("row_count", r)
              ∷ ("possibly_truncated", t)
              ∷ []))
          ≡ true)
unfolding freeze_tool_completed expect_keys ◌>>=◌ distinct
tool_completed_again i q c r t ei eq e1 ec er et = (rw (ei, eq, e1, ec, er, et), refl)

pub freeze_tool_completed-Settles :
    (d : Dict Value) → Settles freeze_tool_completed (freeze_tool_completed d)
unfolding freeze_tool_completed
freeze_tool_completed-Settles d = settles _ _ λ _ _. settles _ _ λ i ei. settles _ _ λ q eq.
    settles _ _ λ _ e1. settles _ _ λ c ec. settles _ _ λ r er. settles _ _ λ t et. frozen _ (
      tool_completed_again i q c r t
        (tool_identity_kept d i
          (("query_id", q) ∷ ("columns", c) ∷ ("row_count", r) ∷ ("possibly_truncated", t) ∷ []) ei)
        (query_id_kept _ eq) e1 (columns_kept _ ec) (nonnegative_int_kept _ _ er)
        (boolean_kept _ et))

tool_failed_again :
    (i : Value × Value) (s : Value)
    → validate_tool_identity (("tool_name", i.0) ∷ ("purpose", i.1) ∷ ("safe_error", s) ∷ [])
      ≡ some i
    → enum s safe_tool_errors ≡ some s
    → (freeze_tool_failed (("tool_name", i.0) ∷ ("purpose", i.1) ∷ ("safe_error", s) ∷ [])
        ≡ some (("tool_name", i.0) ∷ ("purpose", i.1) ∷ ("safe_error", s) ∷ []))
      × (distinct (keys (("tool_name", i.0) ∷ ("purpose", i.1) ∷ ("safe_error", s) ∷ [])) ≡ true)
unfolding freeze_tool_failed expect_keys ◌>>=◌ distinct
tool_failed_again i s ei es = (rw (ei, es), refl)

pub freeze_tool_failed-Settles :
    (d : Dict Value) → Settles freeze_tool_failed (freeze_tool_failed d)
unfolding freeze_tool_failed
freeze_tool_failed-Settles d = settles _ _ λ _ _. settles _ _ λ i ei. settles _ _ λ s es.
    frozen _ (
      tool_failed_again i s (tool_identity_kept d i (("safe_error", s) ∷ []) ei) (enum_kept _ _ es))

observation_again :
    (v e r c : Value)
    → boolean v ≡ some v
    → optional_enum e validation_errors ≡ some e
    → boolean r ≡ some r
    → check (eqb (is_true v) (is_null e) && not (is_true v && is_true r)) ≡ some tt
    → identifier c ≡ some c
    → (freeze_observation
          (("contract_id", c) ∷ ("valid", v) ∷ ("error_code", e) ∷ ("repairable", r) ∷ [])
        ≡ some (("contract_id", c) ∷ ("valid", v) ∷ ("error_code", e) ∷ ("repairable", r) ∷ []))
      × (distinct
            (keys (("contract_id", c) ∷ ("valid", v) ∷ ("error_code", e) ∷ ("repairable", r) ∷ []))
          ≡ true)
unfolding freeze_observation expect_keys ◌>>=◌ distinct
observation_again v e r c ev ee er e1 ec = (rw (ev, ee, er, e1, ec), refl)

pub freeze_observation-Settles :
    (d : Dict Value) → Settles freeze_observation (freeze_observation d)
unfolding freeze_observation
freeze_observation-Settles d = settles _ _ λ _ _. settles _ _ λ v ev. settles _ _ λ e ee.
    settles _ _ λ r er. settles _ _ λ _ e1. settles _ _ λ c ec. frozen _ (
      observation_again v e r c (boolean_kept _ ev) (optional_enum_kept _ _ ee) (boolean_kept _ er)
        e1 (identifier_kept _ ec))

evidence_again :
    (p c v g : Value)
    → boolean p ≡ some p
    → boolean c ≡ some c
    → check (not (is_true p && is_true c)) ≡ some tt
    → nonnegative_int v default_maximum ≡ some v
    → identifier_tuple g 16 true ≡ some g
    → (freeze_evidence (("verified_count", v) ∷ ("gaps", g) ∷ ("partial", p) ∷ ("complete", c) ∷ [])
        ≡ some (("verified_count", v) ∷ ("gaps", g) ∷ ("partial", p) ∷ ("complete", c) ∷ []))
      × (distinct
            (keys (("verified_count", v) ∷ ("gaps", g) ∷ ("partial", p) ∷ ("complete", c) ∷ []))
          ≡ true)
unfolding freeze_evidence expect_keys ◌>>=◌ distinct
evidence_again p c v g ep ec e1 ev eg = (rw (ep, ec, e1, ev, eg), refl)

pub freeze_evidence-Settles : (d : Dict Value) → Settles freeze_evidence (freeze_evidence d)
unfolding freeze_evidence
freeze_evidence-Settles d = settles _ _ λ _ _. settles _ _ λ p ep. settles _ _ λ c ec.
    settles _ _ λ _ e1. settles _ _ λ v ev. settles _ _ λ g eg. frozen _ (
      evidence_again p c v g (boolean_kept _ ep) (boolean_kept _ ec) e1
        (nonnegative_int_kept _ _ ev) (identifier_tuple_kept _ _ _ eg))

repair_again :
    (b : Bool) (n s c : Value)
    → nonnegative_int n 1 ≡ some n
    → boolean s ≡ some s
    → check (number n == 1 && not (b && is_true s)) ≡ some tt
    → enum c validation_errors ≡ some c
    → (freeze_repair b (("repair_count", n) ∷ ("error_code", c) ∷ ("success", s) ∷ [])
        ≡ some (("repair_count", n) ∷ ("error_code", c) ∷ ("success", s) ∷ []))
      × (distinct (keys (("repair_count", n) ∷ ("error_code", c) ∷ ("success", s) ∷ [])) ≡ true)
unfolding freeze_repair expect_keys ◌>>=◌ distinct
repair_again b n s c en es e1 ec = (rw (en, es, e1, ec), refl)

pub freeze_repair-Settles :
    (b : Bool) (d : Dict Value) → Settles (freeze_repair b) (freeze_repair b d)
unfolding freeze_repair
freeze_repair-Settles b d = settles _ _ λ _ _. settles _ _ λ n en. settles _ _ λ s es.
    settles _ _ λ _ e1. settles _ _ λ c ec.
      frozen _ (
        repair_again b n s c (nonnegative_int_kept _ _ en) (boolean_kept _ es) e1
          (enum_kept _ _ ec))

budget_again :
    (l t x p r n m : Value)
    → nonnegative_int l default_maximum ≡ some l
    → nonnegative_int t default_maximum ≡ some t
    → nonnegative_int x default_maximum ≡ some x
    → nonnegative_int p default_maximum ≡ some p
    → check (leb (number x + number p) (number t)) ≡ some tt
    → enum r budget_reasons ≡ some r
    → nonnegative_int n 1 ≡ some n
    → money m ≡ some m
    → (freeze_budget (
          ("reason", r)
          ∷ ("llm_calls", l)
          ∷ ("tool_calls", t)
          ∷ ("execute_calls", x)
          ∷ ("profile_calls", p)
          ∷ ("repair_count", n)
          ∷ ("committed_cost_cny", m)
          ∷ [])
        ≡ some (
            ("reason", r)
            ∷ ("llm_calls", l)
            ∷ ("tool_calls", t)
            ∷ ("execute_calls", x)
            ∷ ("profile_calls", p)
            ∷ ("repair_count", n)
            ∷ ("committed_cost_cny", m)
            ∷ []))
      × (distinct (
            keys (
              ("reason", r)
              ∷ ("llm_calls", l)
              ∷ ("tool_calls", t)
              ∷ ("execute_calls", x)
              ∷ ("profile_calls", p)
              ∷ ("repair_count", n)
              ∷ ("committed_cost_cny", m)
              ∷ []))
          ≡ true)
unfolding freeze_budget expect_keys ◌>>=◌ distinct
budget_again l t x p r n m el et ex ep e1 er en em = (rw (el, et, ex, ep, e1, er, en, em), refl)

pub freeze_budget-Settles : (d : Dict Value) → Settles freeze_budget (freeze_budget d)
unfolding freeze_budget
freeze_budget-Settles d = settles _ _ λ _ _. settles _ _ λ l el. settles _ _ λ t et.
    settles _ _ λ x ex. settles _ _ λ p ep. settles _ _ λ _ e1. settles _ _ λ r er.
      settles _ _ λ n en. settles _ _ λ m em. frozen _ (
        budget_again l t x p r n m (nonnegative_int_kept _ _ el) (nonnegative_int_kept _ _ et)
          (nonnegative_int_kept _ _ ex) (nonnegative_int_kept _ _ ep) e1 (enum_kept _ _ er)
          (nonnegative_int_kept _ _ en) (money_kept _ em))

terminal_again :
    (s r : Value)
    → enum s final_statuses ≡ some s
    → enum r stop_reasons ≡ some r
    → check (within terminal_reasons s r) ≡ some tt
    → (freeze_terminal (("final_status", s) ∷ ("stop_reason", r) ∷ [])
        ≡ some (("final_status", s) ∷ ("stop_reason", r) ∷ []))
      × (distinct (keys (("final_status", s) ∷ ("stop_reason", r) ∷ [])) ≡ true)
unfolding freeze_terminal expect_keys ◌>>=◌ distinct
terminal_again s r es er e1 = (rw (es, er, e1), refl)

pub freeze_terminal-Settles : (d : Dict Value) → Settles freeze_terminal (freeze_terminal d)
unfolding freeze_terminal
freeze_terminal-Settles d = settles _ _ λ _ _. settles _ _ λ s es. settles _ _ λ r er.
    settles _ _ λ _ e1. frozen _ (terminal_again s r (enum_kept _ _ es) (enum_kept _ _ er) e1)
