-- ===== src/Agreement/Tests.antt =====
-- A refused end of a run.
use governed_analytics_agent.Common.{◌≡◌, none}
use governed_analytics_agent.Agreement.{terminal_event_data, freeze-terminal_event_data}
use governed_analytics_agent.Contracts.Answer.{is_allowed_reason}
use governed_analytics_agent.Contracts.Enums.{FinalStatus, StopReason}
use governed_analytics_agent.Events.Freeze.{freeze_event_data}

freeze-terminal_event_data_example :
    freeze_event_data "runtime" "run.terminal"
      (terminal_event_data FinalStatus.completed StopReason.sql_timeout)
    ≡ none
unfolding is_allowed_reason
freeze-terminal_event_data_example =
    freeze-terminal_event_data FinalStatus.completed StopReason.sql_timeout
