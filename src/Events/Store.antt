-- ===== src/Events/Store.antt =====
-- `InMemoryEventStore` of runtime/events.py. Each method holds the registry's lock or the buffer's
-- while it reads and writes, so it is one step here; `delete_run` holds both, so a method never
-- meets a deleted buffer in the registry. The clock's reading is an argument, and an owner token
-- is the number of an object.
pub mod Invariant
pub mod Append
pub mod Effects
pub mod Steps
mod Tests
use governed_analytics_agent.Common.{
  ℕ, ◌+◌, ◌-◌, String, Bool, true, false, not, ◌&&◌, ◌||◌, Option, none, some, List, [], ◌∷◌, ◌++◌,
  ltb, ◌==◌, if◌then◌else◌, str_eq, Result, ok, err, Action, get, put, raise, pure, raise_if,
  or_raise, ◌>>=◌, ◌>>◌, Dict, lookup, insert, erase, length, take, is_none,
}
use governed_analytics_agent.Events.Freeze.{freeze_event_data}
use governed_analytics_agent.Events.Identifiers.{safe_run_id}
use governed_analytics_agent.Events.Record.{RunEvent, run_event}
use governed_analytics_agent.Events.Values.{Value}

pub record RunBuffer : Type 0 where
  pub events : List RunEvent
  pub terminal : Bool
  pub started : Bool
  pub active_streams : ℕ
  pub deleted : Bool
  pub owner_token : Option ℕ

-- The registry, `_runs`.
abbrev pub EventStore : Type 0
EventStore = Dict RunBuffer

pub data StoreError : Type 0 where
  run_not_found invalid_event_cursor event_cursor_ahead terminal_event_exists : StoreError
  invalid_run_event event_ownership_mismatch : StoreError

abbrev pub Store : Type 0 → Type 0
Store A = Action EventStore StoreError A

abbrev pub new_buffer : Option ℕ → RunBuffer
new_buffer owner = record {
  events = [];
  terminal = false;
  started = false;
  active_streams = 0;
  deleted = false;
  owner_token = owner;
}

-- `owner_token is not None and buffer.owner_token is not owner_token`
unfoldable pub is_foreign : Option ℕ → Option ℕ → Bool
is_foreign none held = false
is_foreign (some owner) none = true
is_foreign (some owner) (some held) = not (owner == held)

unfoldable pub create_run : String → Option ℕ → Store (Unit {0})
create_run run_id owner = do
  raise_if (not (safe_run_id run_id)) invalid_run_event
  runs ← get
  raise_if (not (is_none (lookup run_id runs))) invalid_run_event
  put (insert run_id (new_buffer owner) runs)

-- `_locked_buffer`
unfoldable pub locked_buffer : String → Option ℕ → Store RunBuffer
unfolding is_foreign
locked_buffer run_id owner = do
  raise_if (not (safe_run_id run_id)) invalid_run_event
  runs ← get
  buffer ← or_raise (lookup run_id runs) run_not_found
  raise_if buffer.deleted run_not_found
  raise_if (is_foreign owner buffer.owner_token) event_ownership_mismatch
  pure buffer

-- The buffer with one more event.
unfoldable pub with_event : RunBuffer → RunEvent → Bool → RunBuffer
with_event buffer event terminal = record buffer {
  events = buffer.events ++ event ∷ [];
  started = str_eq event.type "run.started" || buffer.started;
  terminal = terminal || buffer.terminal;
}

-- `_append`
unfoldable pub append : ℕ → String → String → String → Dict Value → Bool → Option ℕ → Store RunEvent
unfolding locked_buffer with_event
append now run_id node type values terminal owner = do
  raise_if (not (safe_run_id run_id)) invalid_run_event
  owned ← or_raise (freeze_event_data node type values) invalid_run_event
  buffer ← locked_buffer run_id owner
  raise_if buffer.terminal terminal_event_exists
  event ←
      or_raise (run_event run_id (length buffer.events + 1) now node type owned) invalid_run_event
  runs ← get
  put (insert run_id (with_event buffer event terminal) runs)
  pure event

unfoldable pub emit : ℕ → String → String → String → Dict Value → Option ℕ → Store RunEvent
emit now run_id node type values owner = do
  raise_if (str_eq type "run.terminal") invalid_run_event
  append now run_id node type values false owner

unfoldable pub emit_terminal : ℕ → String → Dict Value → Option ℕ → Store RunEvent
emit_terminal now run_id values owner = append now run_id "runtime" "run.terminal" values true owner

unfoldable pub high_water_mark : String → Option ℕ → Store ℕ
unfolding locked_buffer
high_water_mark run_id owner = do buffer ← locked_buffer run_id owner; pure (length buffer.events)

unfoldable pub replay_snapshot : String → ℕ → Option ℕ → Store (List RunEvent)
unfolding locked_buffer
replay_snapshot run_id high_water owner = do
  buffer ← locked_buffer run_id owner
  raise_if (ltb (length buffer.events) high_water) event_cursor_ahead
  pure (take high_water buffer.events)

unfoldable pub has_terminal : String → Option ℕ → Store Bool
unfolding locked_buffer
has_terminal run_id owner = do buffer ← locked_buffer run_id owner; pure buffer.terminal

abbrev pub cursor_of : Option ℕ → ℕ
cursor_of none = 0
cursor_of (some n) = n

-- `open_stream`: the lease is taken; the result is where the stream begins.
unfoldable pub open_stream : String → Option ℕ → Store ℕ
unfolding locked_buffer
open_stream run_id after_sequence = do
  buffer ← locked_buffer run_id none
  raise_if (ltb (length buffer.events) (cursor_of after_sequence)) event_cursor_ahead
  runs ← get
  put (insert run_id (record buffer { active_streams = buffer.active_streams + 1 }) runs)
  pure (cursor_of after_sequence)

-- The end of `_finish_close`: the lease of an open stream is given back, once. An open stream's
-- buffer is in the registry, since `delete_run` leaves it there.
unfoldable pub release_stream : String → Store (Unit {0})
release_stream run_id = do
  runs ← get
  buffer ← or_raise (lookup run_id runs) run_not_found
  put (insert run_id (record buffer { active_streams = buffer.active_streams - 1 }) runs)

-- `buffer.terminal or (allow_unstarted and not buffer.started and not buffer.terminal)`
unfoldable pub may_delete : RunBuffer → Bool → Bool
may_delete buffer allow_unstarted =
    buffer.terminal || (allow_unstarted && not buffer.started && not buffer.terminal)

unfoldable pub delete_run : String → Bool → Option ℕ → Store Bool
unfolding is_foreign may_delete
delete_run run_id allow_unstarted owner = do
  raise_if (not (safe_run_id run_id)) invalid_run_event
  runs ← get
  buffer ← or_raise (lookup run_id runs) run_not_found
  raise_if (is_foreign owner buffer.owner_token) event_ownership_mismatch
  let permitted = may_delete buffer allow_unstarted && buffer.active_streams == 0
  put (if permitted then erase run_id runs else runs)
  pure permitted
