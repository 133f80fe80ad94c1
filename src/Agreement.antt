-- ===== src/Agreement.antt =====
-- What the agent's contracts and the event store agree on: `terminal_event_data` of runtime/runs.py
-- makes the data that runtime/events.py freezes.
mod Tests
use governed_analytics_agent.Common.{
  ◌≡◌, refl, String, Bool, true, none, some, [], ◌∷◌, arith, if◌then◌else◌, all_of, Dict,
  Bool-cases, inl, inr, List,
}
use governed_analytics_agent.Common.Maybe.{◌>>=◌}
use governed_analytics_agent.Contracts.Answer.{is_allowed_reason}
use governed_analytics_agent.Contracts.Enums.{
  FinalStatus, StopReason, final_status_value, stop_reason_value,
}
use governed_analytics_agent.Contracts.Every.{
  all_of_each, each_stop_reason, each_final_status, every_stop_reason, every_final_status,
}
use governed_analytics_agent.Events.Freeze.{
  freeze_event_data, freeze_values, freeze_terminal, within, eqb,
}
use governed_analytics_agent.Events.Values.{
  Value, text, enum, expect_keys, is_text, snapshot_mapping,
}
use governed_analytics_agent.Events.Vocabulary.{
  terminal_reasons, final_statuses, stop_reasons, member, event_type_of, event_nodes,
}

-- `terminal_event_data`, of the answer's status and reason
unfoldable pub terminal_event_data : FinalStatus → StopReason → Dict Value
unfolding final_status_value stop_reason_value
terminal_event_data status reason =
    ("final_status", text (final_status_value status))
    ∷ ("stop_reason", text (stop_reason_value reason))
    ∷ []

within_agrees :
    (status : FinalStatus) (reason : StopReason)
    → eqb
        (within terminal_reasons
          (text (final_status_value status))
          (text (stop_reason_value reason)))
        (is_allowed_reason status reason)
      ≡ true
unfolding final_status_value stop_reason_value is_allowed_reason within eqb enum member is_text
within_agrees status reason =
    let agrees : FinalStatus → StopReason → Bool = λ s r.
      eqb (within terminal_reasons (text (final_status_value s)) (text (stop_reason_value r)))
        (is_allowed_reason s r) in
    let row : FinalStatus → Bool = λ s. all_of (agrees s) every_stop_reason in
    let rows = all_of_each row every_final_status refl in
    each_stop_reason (λ r. agrees status r ≡ true)
      (all_of_each (agrees status) every_stop_reason
        (each_final_status (λ s. row s ≡ true) rows status))
      reason

member-final_status_value :
    (status : FinalStatus) → member (final_status_value status) final_statuses ≡ true
unfolding final_status_value member
member-final_status_value =
    let test : FinalStatus → Bool = λ s. member (final_status_value s) final_statuses in
    each_final_status (λ s. test s ≡ true) (all_of_each test every_final_status refl)

member-stop_reason_value :
    (reason : StopReason) → member (stop_reason_value reason) stop_reasons ≡ true
unfolding stop_reason_value member
member-stop_reason_value =
    let test : StopReason → Bool = λ r. member (stop_reason_value r) stop_reasons in
    each_stop_reason (λ r. test r ≡ true) (all_of_each test every_stop_reason refl)

abbrev terminal_data : String → String → Dict Value
terminal_data s r = ("final_status", text s) ∷ ("stop_reason", text r) ∷ []

freeze_terminal_data :
    (s r : String)
    → freeze_event_data "runtime" "run.terminal" (terminal_data s r)
      ≡ freeze_terminal (terminal_data s r)
unfolding freeze_event_data freeze_values snapshot_mapping ◌>>=◌ event_type_of event_nodes member
freeze_terminal_data s r = refl

enum-member :
    (s : String) (choices : List String)
    → member s choices ≡ true
    → enum (text s) choices ≡ some (text s)
unfolding enum
enum-member s choices h = rw h refl

freeze_terminal_known :
    (s r : String)
    → member s final_statuses ≡ true
    → member r stop_reasons ≡ true
    → freeze_terminal (terminal_data s r)
      ≡ (if within terminal_reasons (text s) (text r) then some (terminal_data s r) else none)
unfolding freeze_terminal expect_keys ◌>>=◌
freeze_terminal_known s r hs hr =
    rw (enum-member s final_statuses hs, enum-member r stop_reasons hr)
      (elim (Bool-cases (within terminal_reasons (text s) (text r))) [
        | inl fits ↦ rw fits refl
        | inr differs ↦ rw differs refl
      ])

-- The event store accepts the terminal event of an answer's status and reason exactly if
-- `FinalAnswer` allows the reason under the status, and then it keeps both.
pub freeze-terminal_event_data :
    (status : FinalStatus) (reason : StopReason)
    → freeze_event_data "runtime" "run.terminal" (terminal_event_data status reason)
      ≡ (if is_allowed_reason status reason then some (terminal_event_data status reason) else none)
unfolding terminal_event_data eqb
freeze-terminal_event_data status reason = ground (
  arith,
  within_agrees status reason,
  freeze_terminal_data (final_status_value status) (stop_reason_value reason),
  freeze_terminal_known (final_status_value status) (stop_reason_value reason)
      (member-final_status_value status) (member-stop_reason_value reason),
)
