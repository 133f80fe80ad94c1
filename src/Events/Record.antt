-- ===== src/Events/Record.antt =====
-- `RunEvent` of runtime/events.py, and its validation on construction.
use governed_analytics_agent.Common.{ℕ, String, ◌&&◌, Option, some, List, ◌∷◌, ◌++◌, leb, Dict}
use governed_analytics_agent.Common.Decimal.{decimal}
use governed_analytics_agent.Common.Maybe.{◌>>=◌, ◌>>◌, check}
use governed_analytics_agent.Events.Freeze.{freeze_event_data}
use governed_analytics_agent.Events.Identifiers.{codes, safe_run_id}
use governed_analytics_agent.Events.Values.{Value}

-- `_MAX_SEQUENCE`
abbrev pub max_sequence : ℕ
max_sequence = 9223372036854775807

-- f"{run_id}:{sequence}", as code points.
unfoldable pub event_id_of : String → ℕ → List ℕ
event_id_of run_id sequence = codes run_id ++ b':' ∷ decimal sequence

-- `timestamp` is a reading of a clock in UTC.
pub record RunEvent : Type 0 where
  pub event_id : List ℕ
  pub sequence : ℕ
  pub run_id : String
  pub timestamp : ℕ
  pub node : String
  pub type : String
  pub frozen : Dict Value

-- The constructor with the event id of the run and the sequence, so that `_validate_identity` finds
-- it equal; the data is frozen before and after the validation of the fields.
unfoldable pub run_event : String → ℕ → ℕ → String → String → Dict Value → Option RunEvent
run_event run_id sequence timestamp node type values = do
  frozen ← freeze_event_data node type values
  check (leb 1 sequence && leb sequence max_sequence)
  check (safe_run_id run_id)
  owned ← freeze_event_data node type frozen
  some (record {
    event_id = event_id_of run_id sequence;
    sequence = sequence;
    run_id = run_id;
    timestamp = timestamp;
    node = node;
    type = type;
    frozen = owned;
  })
