-- ===== src/Runner/Told.antt =====
-- What the terminal event that the runner looks for says.
use governed_analytics_agent.Runner.Endings.{Ended}
use governed_analytics_agent.Agreement.{terminal_event_data}
use governed_analytics_agent.Runner.Terminal.{is_expected_terminal_event, same_data}
use governed_analytics_agent.Contracts.Trace.{same_value, same_option}
use governed_analytics_agent.Events.Record.{RunEvent}
use governed_analytics_agent.Contracts.Enums.{
  FinalStatus, StopReason, final_status_value, stop_reason_value,
}
use governed_analytics_agent.Common.{
  ◌≡◌, refl, ap, String, Bool, true, Option, none, some, List, [], ◌∷◌, ◌++◌, arith, lookup, eq_iff,
  Bool-cases, inl, inr, any_of,
}
use governed_analytics_agent.Events.Values.{Value, text, null, num, negative, flag, many, other}
use governed_analytics_agent.Events.Store.{EventStore, RunBuffer}

-- The history of the run has a terminal event with the status and the reason.
abbrev pub IsTold : String → FinalStatus → StopReason → EventStore → Type 0
IsTold run_id status reason runs =
    (b : RunBuffer) × (before : List RunEvent) × (e : RunEvent) × (after : List RunEvent) × (lookup
        run_id runs
      ≡ some b)
    × (b.events ≡ before ++ e ∷ after)
    × (e.type ≡ "run.terminal")
    × (lookup "final_status" e.frozen ≡ some (text (final_status_value status)))
    × (lookup "stop_reason" e.frozen ≡ some (text (stop_reason_value reason)))

found_event :
    (test : RunEvent → Bool) (xs : List RunEvent)
    → any_of test xs ≡ true
    → (before : List RunEvent) × (e : RunEvent) × (after : List RunEvent) × (xs
        ≡ before ++ e ∷ after)
      × (test e ≡ true)
found_event test [] h = absurd (ground arith)
found_event test (x ∷ xs) h = elim (Bool-cases (test x)) [
  | inl good ↦ ([], x, xs, refl, good)
  | inr bad ↦
      let (before, e, after, same, good) = found_event test xs (ground arith) in
      (x ∷ before, e, after, ap (λ ys. x ∷ ys) same, good)
]

same_text_value :
    (found : Option Value) (s : String)
    → same_option same_value found (some (text s)) ≡ true
    → found ≡ some (text s)
unfolding same_value
same_text_value none s h = absurd (ground arith)
same_text_value (some (text t)) s h = ground (arith, eq_iff t s)
same_text_value (some null) s h = absurd (ground arith)
same_text_value (some (num n)) s h = absurd (ground arith)
same_text_value (some (negative n)) s h = absurd (ground arith)
same_text_value (some (flag b)) s h = absurd (ground arith)
same_text_value (some (many items)) s h = absurd (ground arith)
same_text_value (some other) s h = absurd (ground arith)

pub Ended-IsTold :
    (run_id : String) (status : FinalStatus) (reason : StopReason) (runs : EventStore)
    → Ended run_id (terminal_event_data status reason) runs
    → IsTold run_id status reason runs
unfolding is_expected_terminal_event same_data terminal_event_data
Ended-IsTold run_id status reason runs (b, held, ended) =
    let (before, e, after, same, good) =
      found_event (is_expected_terminal_event (terminal_event_data status reason)) b.events ended in
    (
      b,
      before,
      e,
      after,
      held,
      same,
      ground (arith, eq_iff e.type "run.terminal"),
      same_text_value (lookup "final_status" e.frozen) (final_status_value status) (ground arith),
      same_text_value (lookup "stop_reason" e.frozen) (stop_reason_value reason) (ground arith),
    )
