-- ===== src/Runner/Rollback.antt =====
-- `_rollback_submission` of `AnalysisRunner` and the pruning of expired runs, `_prune_locked`. An exception
-- of `expired_terminal_ids` is no stray `CancelledError`, which would pass through.
use governed_analytics_agent.Common.{
  ℕ, zero, suc, String, Bool, true, false, ◌&&◌, ◌==◌, Option, none, some, List, [], ◌∷◌, ok, pure,
  raise, ◌>>=◌, ◌>>◌, if◌then◌else◌, str_eq, Dict, lookup, erase,
}
use governed_analytics_agent.Events.Record.{RunEvent}
use governed_analytics_agent.Events.Store.{create_run, emit, replay_snapshot}
use governed_analytics_agent.Events.Values.{Value, text}
use governed_analytics_agent.Runner.Coordination.{
  Work, await, raise_if_pending, coordination_failure, delete_owned_queued_run, delete_terminal_run,
  Generation, missing, event_generation_after_failure, event_high_water_after_failure,
  delete_events,
}
use governed_analytics_agent.Runner.Ports.{
  run_consistency, answered, refused, failed, cut, ask_events, ask_runs, Answer,
}
use governed_analytics_agent.Runner.Terminal.{same_data}
use governed_analytics_agent.Runs.{Store, expired_terminal_ids, RunError}

abbrev pub queued_data : Dict Value
queued_data = ("status", text "queued") ∷ []

abbrev is_missing_generation : Generation → Bool
is_missing_generation missing = true
is_missing_generation _ = false

-- The test of `_restored_created_event_matches`.
unfoldable pub is_created_event : String → List RunEvent → Bool
is_created_event run_id (e ∷ []) =
    str_eq e.run_id run_id
    && (e.sequence == 1)
    && str_eq e.type "run.created"
    && same_data e.frozen queued_data
is_created_event run_id _ = false

unfoldable pub restored_created_event_matches : ℕ → String → Option ℕ → Work Bool
restored_created_event_matches zero run_id owner = coordination_failure (some run_id)
restored_created_event_matches (suc n) run_id owner = do
  answer ← await (ask_events (λ now. replay_snapshot run_id 1 owner))
  let next = restored_created_event_matches n run_id owner
  elim answer [
    | answered snapshot ↦ pure (is_created_event run_id snapshot)
    | refused e ↦ next
    | failed ↦ next
    | cut ↦ next
  ]

-- The two loops of `_restore_owned_event_run`.
unfoldable pub recreate_history : ℕ → String → Option ℕ → Option ℕ → Work (Option ℕ)
recreate_history zero run_id owner high_water = pure high_water
recreate_history (suc n) run_id owner (some high_water) = pure (some high_water)
recreate_history (suc n) run_id owner none = do
  ignored ← await (ask_events (λ now. create_run run_id owner))
  high_water ← event_high_water_after_failure 3 run_id owner
  recreate_history n run_id owner high_water

-- `high_water_mark == 1 and await self._restored_created_event_matches(...)`
unfoldable pub is_restored : String → Option ℕ → ℕ → Work Bool
is_restored run_id owner high_water t =
    let looked = restored_created_event_matches 3 run_id owner t in
    if high_water == 1 then looked else (ok false, t)

-- A new event of the creation, and the history's length after it.
unfoldable pub emit_created : String → Option ℕ → Work (Option ℕ)
emit_created run_id owner = do
  ignored ← await (ask_events (λ now. emit now run_id "runtime" "run.created" queued_data owner))
  event_high_water_after_failure 3 run_id owner

unfoldable pub restore_created_event : ℕ → String → Option ℕ → ℕ → Work (Unit {0})
restore_created_event zero run_id owner high_water = coordination_failure (some run_id)
restore_created_event (suc n) run_id owner high_water = do
  matches ← is_restored run_id owner high_water
  let stuck : Work (Unit {0}) = coordination_failure (some run_id)
  let emitted : Work (Unit {0}) = emit_created run_id owner >>= λ held. elim held [
    | none ↦ coordination_failure (some run_id)
    | some h ↦ restore_created_event n run_id owner h
  ]
  if matches then pure tt else if high_water == 0 then emitted else stuck

unfoldable pub restore_owned_event_run : String → Option ℕ → Work (Unit {0})
restore_owned_event_run run_id owner = do
  found ← event_high_water_after_failure 3 run_id owner
  held ← recreate_history 3 run_id owner found
  elim held [
    | none ↦ coordination_failure (some run_id)
    | some high_water ↦ restore_created_event 3 run_id owner high_water
  ]

-- The end of a rollback, at the generation of the history that is left.
unfoldable pub if_missing : Generation → String → Work (Unit {0})
if_missing generation run_id =
    if is_missing_generation generation
    then raise_if_pending
    else coordination_failure (some run_id)

-- `_rollback_submission` after the history was deleted
unfoldable pub rollback_record : String → Option ℕ → Work (Unit {0})
rollback_record run_id owner = do
  gone ← delete_owned_queued_run run_id owner
  let checked : Work (Unit {0}) =
      event_generation_after_failure 3 run_id owner >>= λ generation. if_missing generation run_id
  let restored : Work (Unit {0}) =
      restore_owned_event_run run_id owner >> coordination_failure (some run_id)
  if gone then checked else restored

-- `_rollback_submission`, for an event state that is owned or not
unfoldable pub rollback_submission : Bool → String → Option ℕ → Work (Unit {0})
rollback_submission false run_id owner = do
  gone ← delete_owned_queued_run run_id owner
  if gone then raise_if_pending else coordination_failure (some run_id)
rollback_submission true run_id owner = do
  deleted ← delete_events 3 true run_id owner
  if deleted then rollback_record run_id owner else coordination_failure (some run_id)

-- A run of `_prune_locked` whose history is gone.
unfoldable pub forget_run : String → ℕ → Work (Unit {0})
forget_run run_id owner = do
  gone ← delete_terminal_run run_id (some owner)
  let checked : Work (Unit {0}) =
      event_generation_after_failure 3 run_id (some owner) >>= λ generation t.
      if is_missing_generation generation
      then (
        ok tt,
        record t {
          runner = record t.runner { ownership_tokens = erase run_id t.runner.ownership_tokens };
        },
      )
      else coordination_failure (some run_id) t
  if gone then checked else coordination_failure (some run_id)

unfoldable pub prune_run : String → Work (Unit {0})
prune_run run_id t = elim (lookup run_id t.runner.ownership_tokens) [
  | none ↦ coordination_failure (some run_id) t
  | some owner ↦
      (delete_events 3 false run_id (some owner) >>= λ deleted.
      (if deleted then forget_run run_id owner else pure tt) >>= λ u. raise_if_pending)
        t
]

unfoldable pub prune_all : List String → Work (Unit {0})
prune_all [] = pure tt
prune_all (run_id ∷ expired) = prune_run run_id >> prune_all expired

-- The answer of `expired_terminal_ids`, in `_prune_locked`.
unfoldable pub prune_answered : Answer RunError (List String) → Work (Unit {0})
prune_answered (answered expired) = prune_all expired
prune_answered _ = raise run_consistency

abbrev pub find_expired : ℕ → Store (List String)
find_expired now runs = (ok (expired_terminal_ids now runs), runs)

-- `_prune_locked`
unfoldable pub prune_locked : Work (Unit {0})
prune_locked = do answer ← await (ask_runs find_expired); raise_if_pending; prune_answered answer
