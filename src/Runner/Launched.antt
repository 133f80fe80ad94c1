-- ===== src/Runner/Launched.antt =====
-- What a submission that returns has set up.
use governed_analytics_agent.Events.Store.Append.{event_of, append_lem}
use governed_analytics_agent.Runner.Steps.{IsOpen}
use governed_analytics_agent.Events.Values.{snapshot_mapping, expect_keys, enum}
use governed_analytics_agent.Runner.Rollback.{queued_data}
use governed_analytics_agent.Events.Record.{RunEvent}
use governed_analytics_agent.Events.Vocabulary.{event_type_of, member, event_nodes}
use governed_analytics_agent.Events.Identifiers.{safe_run_id}
use governed_analytics_agent.Events.Freeze.{freeze_event_data, freeze_values, freeze_status}
use governed_analytics_agent.Common.Maybe.{◌>>=◌}
use governed_analytics_agent.Runs.{RunError}
use governed_analytics_agent.Runner.Gone.{await_events_runs}
use governed_analytics_agent.Events.Store.{
  high_water_mark, create_run, emit, with_event, new_buffer,
}
use governed_analytics_agent.Runner.Records.{Result-cases}
use governed_analytics_agent.Runs.Record.{RunRecord, queued_record, is_queued}
use governed_analytics_agent.Runs.{create, RunStore}
use governed_analytics_agent.Common.{
  ℕ, ◌≡◌, ◌≢◌, refl, String, Bool, true, false, Option, none, some, ok, arith, inl, inr, lookup,
  lookup-insert_self,
}
use governed_analytics_agent.Runner.Coordination.{
  Task, Work, await, owned, missing, foreign, event_generation_after_failure, raise_if_pending,
  coordination_failure, run_record_after_delete, Generation,
}
use governed_analytics_agent.Runner.Ports.{ask_runs, ask_events, answered, refused, failed, cut}
use governed_analytics_agent.Runner.Submission.{
  clean_created, withdraw, undo_at, undo, create_record, event_existed, clean_end_of,
  stop_at_foreign, after_create, event_exists_before_submission, keep_created, after_look,
  raise_refused, delete_unless_gone,
}
use governed_analytics_agent.Runs as runs
use governed_analytics_agent.Events.Store as events

-- Work that only raises.
abbrev pub IsBarren : {A : Type 0} → Work A → Type 0
IsBarren {A = A} m = (t : Task) (a : A) → (m t).0 ≢ ok a

clean_created-IsBarren :
    {A : Type 0} (run_id : String) (owner : Option ℕ)
    → IsBarren (clean_created {A = A} run_id owner)
unfolding clean_created clean_end_of raise_if_pending coordination_failure
clean_created-IsBarren {A = A} run_id owner t a h =
    let first = run_record_after_delete 3 run_id owner t in
    elim (Result-cases first.0) [
      | inr (x, raised) ↦ ground arith
      | inl (held, looked) ↦
          let second = delete_unless_gone held run_id owner first.1 in
          elim (Result-cases second.0) [
            | inr (x, raised) ↦ ground arith
            | inl (true, gone) ↦ ground arith
            | inl (false, kept) ↦ ground arith
          ]
    ]

pub withdraw-IsBarren :
    (is_owned : Bool) (run_id : String) (owner : Option ℕ)
    → IsBarren (withdraw is_owned run_id owner)
unfolding withdraw
withdraw-IsBarren is_owned run_id owner t a h = ground arith

undo_at-IsBarren :
    (generation : Generation) (run_id : String) (owner : Option ℕ)
    → IsBarren (undo_at generation run_id owner)
unfolding undo_at stop_at_foreign coordination_failure
undo_at-IsBarren owned run_id owner t a h = withdraw-IsBarren true run_id owner t a h
undo_at-IsBarren missing run_id owner t a h = withdraw-IsBarren false run_id owner t a h
undo_at-IsBarren foreign run_id owner t a h = ground arith

pub undo-IsBarren :
    (existed is_owned : Bool) (run_id : String) (owner : Option ℕ)
    → IsBarren (undo existed is_owned run_id owner)
unfolding undo
undo-IsBarren existed true run_id owner t a h = withdraw-IsBarren true run_id owner t a h
undo-IsBarren true false run_id owner t a h = withdraw-IsBarren false run_id owner t a h
undo-IsBarren false false run_id owner t a h =
    let first = event_generation_after_failure 3 run_id owner t in
    elim (Result-cases first.0) [
      | inr (x, raised) ↦ ground arith
      | inl (generation, found) ↦ ground (arith, undo_at-IsBarren generation run_id owner first.1 a)
    ]

-- The store holds the run as it was created, under its owner.
abbrev pub IsCreated : String → ℕ → RunRecord → RunStore → Type 0
IsCreated run_id owner found s =
    (lookup run_id s.records ≡ some found)
    × (lookup run_id s.owners ≡ some (some owner))
    × (is_queued found ≡ true)

asked_create :
    (run_id query : String) (owner : ℕ) (t : Task) {found : RunRecord}
    → (await (ask_runs (λ now. create now run_id query (some owner))) t).0 ≡ ok (answered found)
    → IsCreated run_id owner found
        (await (ask_runs (λ now. create now run_id query (some owner))) t).1.runner.run_store
unfolding await ask_runs create
asked_create run_id query owner t {found} h =
    let s = t.runner.run_store in
    let now = (t.runner.turns t.runner.calls).now in
    ground (
      arith,
      lookup-insert_self run_id (queued_record run_id query now) s.records,
      lookup-insert_self run_id (some owner) s.owners,
    )

pub create_record_lem :
    (run_id query : String) (owner : ℕ) (t : Task) {found : RunRecord}
    → (create_record run_id query (some owner) t).0 ≡ ok found
    → IsCreated run_id owner found (create_record run_id query (some owner) t).1.runner.run_store
unfolding create_record after_create keep_created raise_refused raise_if_pending
create_record_lem run_id query owner t {found} h =
    let method : ℕ → runs.Store RunRecord = λ now. create now run_id query (some owner) in
    let first = await (ask_runs method) t in
    let barren = clean_created-IsBarren {A = RunRecord} run_id (some owner) first.1 found in
    elim (Result-cases first.0) [
      | inr (x, raised) ↦ absurd (ground arith)
      | inl (answered made, said) ↦
          ground (arith, asked_create run_id query owner t {found = made} said, barren)
      | inl (refused RunError.run_already_exists, said) ↦ absurd (ground (arith, barren))
      | inl (refused RunError.run_capacity_exceeded, said) ↦ absurd (ground (arith, barren))
      | inl (refused RunError.run_not_found, said) ↦ absurd (ground (arith, barren))
      | inl (refused RunError.run_state_conflict, said) ↦ absurd (ground (arith, barren))
      | inl (refused RunError.run_ownership_mismatch, said) ↦ absurd (ground (arith, barren))
      | inl (refused RunError.invalid_record, said) ↦ absurd (ground (arith, barren))
      | inl (failed, said) ↦ absurd (ground (arith, barren))
      | inl (cut, said) ↦ absurd (ground (arith, barren))
    ]

pub event_existed_runs :
    (run_id : String) (owner : Option ℕ) (t : Task) {existed : Bool}
    → (event_existed run_id owner t).0 ≡ ok existed
    → (event_existed run_id owner t).1.runner.run_store ≡ t.runner.run_store
unfolding event_existed event_exists_before_submission after_look raise_if_pending
    coordination_failure
event_existed_runs run_id owner t {existed} h =
    let first = await (ask_events (λ now. high_water_mark run_id none)) t in
    let kept = await_events_runs (λ now. high_water_mark run_id none) t in
    elim (Result-cases (event_exists_before_submission run_id t).0) [
      | inr (x, raised) ↦ absurd (ground arith)
      | inl (there, said) ↦ ground (arith, kept)
    ]

-- The creation of a history, and its first event.
pub asked_history :
    (run_id : String) (owner : Option ℕ) (t : Task)
    → (await (ask_events (λ now. create_run run_id owner)) t).0 ≡ ok (answered tt)
    → (safe_run_id run_id ≡ true)
      × (lookup run_id (await (ask_events (λ now. create_run run_id owner)) t).1.runner.event_store
          ≡ some (new_buffer owner))
unfolding await ask_events create_run
asked_history run_id owner t h =
    ground (arith, lookup-insert_self run_id (new_buffer owner) t.runner.event_store)

queued_frozen : freeze_event_data "runtime" "run.created" queued_data ≡ some queued_data
unfolding freeze_event_data ◌>>=◌ event_type_of member event_nodes snapshot_mapping freeze_values
    freeze_status expect_keys enum
queued_frozen = refl

pub asked_event :
    (run_id : String) (owner : ℕ) (t : Task) {e : RunEvent}
    → safe_run_id run_id ≡ true
    → lookup run_id t.runner.event_store ≡ some (new_buffer (some owner))
    → (await
        (ask_events (λ now. emit now run_id "runtime" "run.created" queued_data (some owner)))
        t).0
      ≡ ok (answered e)
    → IsOpen run_id
        (some owner)
        2
        (await
          (ask_events (λ now. emit now run_id "runtime" "run.created" queued_data (some owner)))
          t).1.runner.event_store
unfolding await ask_events emit with_event events.is_foreign
asked_event run_id owner t {e} safe held h =
    let now = (t.runner.turns t.runner.calls).now in
    let b = new_buffer (some owner) in
    let made = event_of now run_id 1 "runtime" "run.created" queued_data in
    let appended =
      append_lem now run_id "runtime" "run.created" queued_data false (some owner)
        t.runner.event_store {b = b} {f = queued_data} safe held refl (ground arith) refl
        queued_frozen (omega arith) in
    record {
      buffer = with_event b made false;
      safe = safe;
      held = ground (
        arith,
        appended,
        lookup-insert_self run_id (with_event b made false) t.runner.event_store,
      );
      kept = refl;
      mine = ground arith;
      unended = refl;
      roomy = omega arith;
    }
