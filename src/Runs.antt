-- ===== src/Runs.antt =====
-- `RunRecord` and `InMemoryRunStore` of runtime/runs.py. Each method holds the store's lock while it
-- reads and writes, so it is one step here. A time is a reading of the clock in UTC, in
-- microseconds, an
-- argument of the method; an owner token is the number of an object. `_copy_model` is the identity on
-- values. `_records` and `_owners` are two dicts, as in the class.
pub mod Record
pub mod Invariant
pub mod Changes
pub mod Trace
mod Tests
use governed_analytics_agent.Common.{
  ℕ, ◌-◌, ◌*◌, String, Bool, true, false, not, ◌&&◌, ◌||◌, Option, none, some, List, [], ◌∷◌,
  length, ltb, leb, ◌==◌, if◌then◌else◌, str_eq, Result, ok, err, Action, get, put, raise, pure,
  raise_if, or_raise, ◌>>=◌, ◌>>◌, Dict, lookup, insert, erase, is_none,
}
use governed_analytics_agent.Events.Identifiers.{codes, matches_run_id}
use governed_analytics_agent.Runs.Record.{
  RunRecord, RunResult, queued_record, running_record, terminal_record, matches_result, is_queued,
  is_running, is_terminal,
}

pub data RunError : Type 0 where
  run_not_found run_already_exists run_capacity_exceeded run_state_conflict : RunError
  run_ownership_mismatch invalid_record : RunError

pub record RunStore : Type 0 where
  pub max_runs : ℕ
  pub retention_seconds : ℕ
  pub records : Dict RunRecord
  pub owners : Dict (Option ℕ)

abbrev pub new_store : ℕ → ℕ → RunStore
new_store max_runs retention_seconds = record {
  max_runs = max_runs;
  retention_seconds = retention_seconds;
  records = [];
  owners = [];
}

abbrev pub Store : Type 0 → Type 0
Store A = Action RunStore RunError A

-- `owner_token is not None and self._owners[run_id] is not owner_token`; a missing owner entry, which
-- would be a `KeyError`, counts as foreign.
unfoldable pub is_foreign : Option ℕ → Option (Option ℕ) → Bool
is_foreign none held = false
is_foreign (some owner) (some (some held)) = not (owner == held)
is_foreign (some owner) _ = true

-- `_require` and `_require_owner`, which every method but `create` starts with
unfoldable pub require : String → Option ℕ → Store RunRecord
require run_id owner = do
  store ← get
  found ← or_raise (lookup run_id store.records) run_not_found
  raise_if (is_foreign owner (lookup run_id store.owners)) run_ownership_mismatch
  pure found

abbrev pub with_record : String → RunRecord → RunStore → RunStore
with_record run_id r store = record store { records = insert run_id r store.records }

abbrev pub without : String → RunStore → RunStore
without run_id store = record store {
  records = erase run_id store.records;
  owners = erase run_id store.owners;
}

unfoldable pub create : ℕ → String → String → Option ℕ → Store RunRecord
create now run_id query owner = do
  raise_if (not (matches_run_id (codes run_id))) invalid_record
  store ← get
  raise_if (not (is_none (lookup run_id store.records))) run_already_exists
  raise_if (leb store.max_runs (length store.records)) run_capacity_exceeded
  put (record store {
    records = insert run_id (queued_record run_id query now) store.records;
    owners = insert run_id owner store.owners;
  })
  pure (queued_record run_id query now)

unfoldable pub get_run : String → Option ℕ → Store RunRecord
unfolding require
get_run run_id owner = require run_id owner

unfoldable pub mark_running : ℕ → String → Option ℕ → Store RunRecord
unfolding require
mark_running now run_id owner = do
  found ← require run_id owner
  raise_if (not (is_queued found)) run_state_conflict
  store ← get
  put (with_record run_id (running_record now found) store)
  pure (running_record now found)

-- The branch of a terminal run: `raise_if` an answer that differs, and else its record.
unfoldable pub complete : ℕ → String → RunResult → Option ℕ → Store RunRecord
unfolding require
complete now run_id result owner = do
  raise_if (not (str_eq result.run_id run_id)) run_state_conflict
  found ← require run_id owner
  raise_if (is_terminal found && not (matches_result found result)) run_state_conflict
  raise_if (is_queued found) run_state_conflict
  store ← get
  put (
      if is_terminal found
      then store
      else with_record run_id (terminal_record now result found) store)
  pure (if is_terminal found then found else terminal_record now result found)

abbrev pub is_past : ℕ → ℕ → Option ℕ → Bool
is_past retention now none = false
is_past retention now (some terminal_at) =
    leb (retention * 1000000) (now - terminal_at) && leb terminal_at now

-- `_is_expired`; the retention is positive, so a clock behind the end finds no run expired.
unfoldable pub is_expired : ℕ → ℕ → RunRecord → Bool
is_expired retention now r = is_terminal r && is_past retention now r.terminal_at

unfoldable pub expired_of : ℕ → ℕ → Dict RunRecord → List String
unfolding is_expired
expired_of retention now [] = []
expired_of retention now ((run_id, r) ∷ records) =
    if is_expired retention now r
    then run_id ∷ expired_of retention now records
    else expired_of retention now records

unfoldable pub expired_terminal_ids : ℕ → RunStore → List String
unfolding expired_of
expired_terminal_ids now store = expired_of store.retention_seconds now store.records

-- `delete_queued` and `delete_terminal`: the value tells whether the run was deleted.
unfoldable pub delete_queued : String → Option ℕ → Store Bool
unfolding require
delete_queued run_id owner = do
  found ← require run_id owner
  store ← get
  put (if is_queued found then without run_id store else store)
  pure (is_queued found)

unfoldable pub delete_terminal : String → Option ℕ → Store Bool
unfolding require
delete_terminal run_id owner = do
  found ← require run_id owner
  store ← get
  put (if is_terminal found then without run_id store else store)
  pure (is_terminal found)
