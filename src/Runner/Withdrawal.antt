-- ===== src/Runner/Withdrawal.antt =====
-- What the rollback of a submission and the pruning may raise.
use governed_analytics_agent.Runner.Records.{Result-cases}
use governed_analytics_agent.Events.Store.{create_run, replay_snapshot, emit}
use governed_analytics_agent.Runner.Careful.{
  IsCareful, coordination_failure-IsCareful, await_events-IsCareful,
  event_high_water_after_failure-IsCareful, raise_if_pending-IsCareful,
  delete_owned_queued_run-IsCareful, event_generation_after_failure-IsCareful,
  delete_events-IsCareful,
}
use governed_analytics_agent.Runner.Rollback.{
  restored_created_event_matches, recreate_history, restore_created_event, queued_data, is_restored,
  emit_created, restore_owned_event_run, if_missing, rollback_record, rollback_submission,
}
use governed_analytics_agent.Common.{
  ℕ, zero, suc, String, Bool, true, false, Option, none, some, arith, inl, inr, Bool-cases, ◌==◌,
}
use governed_analytics_agent.Runner.Coordination.{
  missing, owned, foreign, await, event_high_water_after_failure, Generation,
  delete_owned_queued_run, event_generation_after_failure, delete_events,
}
use governed_analytics_agent.Runner.Ports.{ask_events}

restored_created_event_matches-IsCareful :
    (n : ℕ) (run_id : String) (owner : Option ℕ)
    → IsCareful (restored_created_event_matches n run_id owner)
unfolding restored_created_event_matches
restored_created_event_matches-IsCareful zero run_id owner t e h =
    coordination_failure-IsCareful (some run_id) t e h
restored_created_event_matches-IsCareful (suc n) run_id owner t e h =
    let t1 = (await (ask_events (λ now. replay_snapshot run_id 1 owner)) t).1 in
    ground (
      arith,
      await_events-IsCareful (λ now. replay_snapshot run_id 1 owner) t e,
      restored_created_event_matches-IsCareful n run_id owner t1 e,
    )

recreate_history-IsCareful :
    (n : ℕ) (run_id : String) (owner high_water : Option ℕ)
    → IsCareful (recreate_history n run_id owner high_water)
unfolding recreate_history
recreate_history-IsCareful zero run_id owner high_water t e h = absurd (ground arith)
recreate_history-IsCareful (suc n) run_id owner (some high_water) t e h = absurd (ground arith)
recreate_history-IsCareful (suc n) run_id owner none t e h =
    let t1 = (await (ask_events (λ now. create_run run_id owner)) t).1 in
    let looked = event_high_water_after_failure 3 run_id owner t1 in
    elim (Result-cases looked.0) [
      | inr (x, raised) ↦ ground (
        arith,
        event_high_water_after_failure-IsCareful 3 run_id owner t1 e,
        await_events-IsCareful (λ now. create_run run_id owner) t e,
      )
      | inl (held, found) ↦ ground (
        arith,
        await_events-IsCareful (λ now. create_run run_id owner) t e,
        recreate_history-IsCareful n run_id owner held looked.1 e,
      )
    ]

is_restored-IsCareful :
    (run_id : String) (owner : Option ℕ) (high_water : ℕ)
    → IsCareful (is_restored run_id owner high_water)
unfolding is_restored
is_restored-IsCareful run_id owner high_water t e h = elim (Bool-cases (high_water == 1)) [
  | inl one ↦ ground (arith, restored_created_event_matches-IsCareful 3 run_id owner t e)
  | inr other ↦ absurd (ground arith)
]

emit_created-IsCareful :
    (run_id : String) (owner : Option ℕ) → IsCareful (emit_created run_id owner)
unfolding emit_created
emit_created-IsCareful run_id owner t e h =
    let t1 =
      (await (ask_events (λ now. emit now run_id "runtime" "run.created" queued_data owner)) t).1 in
    ground (
      arith,
      await_events-IsCareful (λ now. emit now run_id "runtime" "run.created" queued_data owner) t e,
      event_high_water_after_failure-IsCareful 3 run_id owner t1 e,
    )

restore_created_event-IsCareful :
    (n : ℕ) (run_id : String) (owner : Option ℕ) (high_water : ℕ)
    → IsCareful (restore_created_event n run_id owner high_water)
unfolding restore_created_event
restore_created_event-IsCareful zero run_id owner high_water t e h =
    coordination_failure-IsCareful (some run_id) t e h
restore_created_event-IsCareful (suc n) run_id owner high_water t e h =
    let t1 = (is_restored run_id owner high_water t).1 in
    let emitted = emit_created run_id owner t1 in
    elim (Result-cases emitted.0) [
      | inl (some held, found) ↦ ground (
        arith,
        is_restored-IsCareful run_id owner high_water t e,
        coordination_failure-IsCareful {A = Unit {0}} (some run_id) t1 e,
        restore_created_event-IsCareful n run_id owner held emitted.1 e,
      )
      | inl (none, found) ↦ ground (
        arith,
        is_restored-IsCareful run_id owner high_water t e,
        coordination_failure-IsCareful {A = Unit {0}} (some run_id) t1 e,
        coordination_failure-IsCareful {A = Unit {0}} (some run_id) emitted.1 e,
      )
      | inr (x, raised) ↦ ground (
        arith,
        is_restored-IsCareful run_id owner high_water t e,
        coordination_failure-IsCareful {A = Unit {0}} (some run_id) t1 e,
        emit_created-IsCareful run_id owner t1 e,
      )
    ]

restore_owned_event_run-IsCareful :
    (run_id : String) (owner : Option ℕ) → IsCareful (restore_owned_event_run run_id owner)
unfolding restore_owned_event_run
restore_owned_event_run-IsCareful run_id owner t e h =
    let looked = event_high_water_after_failure 3 run_id owner t in
    elim (Result-cases looked.0) [
      | inr (x, raised) ↦
          ground (arith, event_high_water_after_failure-IsCareful 3 run_id owner t e)
      | inl (found, seen) ↦
          let again = recreate_history 3 run_id owner found looked.1 in
          elim (Result-cases again.0) [
            | inr (x, raised) ↦
                ground (arith, recreate_history-IsCareful 3 run_id owner found looked.1 e)
            | inl (none, held) ↦
                ground
                  (arith, coordination_failure-IsCareful {A = Unit {0}} (some run_id) again.1 e)
            | inl (some high_water, held) ↦
                ground (arith, restore_created_event-IsCareful 3 run_id owner high_water again.1 e)
          ]
    ]

checked-IsCareful :
    (generation : Generation) (run_id : String) → IsCareful (if_missing generation run_id)
unfolding if_missing
checked-IsCareful missing run_id t e h = raise_if_pending-IsCareful t e h
checked-IsCareful owned run_id t e h = coordination_failure-IsCareful (some run_id) t e h
checked-IsCareful foreign run_id t e h = coordination_failure-IsCareful (some run_id) t e h

rollback_record-IsCareful :
    (run_id : String) (owner : Option ℕ) → IsCareful (rollback_record run_id owner)
unfolding rollback_record
rollback_record-IsCareful run_id owner t e h =
    let first = delete_owned_queued_run run_id owner t in
    let second = event_generation_after_failure 3 run_id owner first.1 in
    let restored = restore_owned_event_run run_id owner first.1 in
    elim (Result-cases first.0) [
      | inr (x, raised) ↦ ground (arith, delete_owned_queued_run-IsCareful run_id owner t e)
      | inl (false, kept) ↦ ground (
        arith,
        restore_owned_event_run-IsCareful run_id owner first.1 e,
        coordination_failure-IsCareful {A = Unit {0}} (some run_id) restored.1 e,
      )
      | inl (true, gone) ↦ elim (Result-cases second.0) [
        | inr (x, raised) ↦
            ground (arith, event_generation_after_failure-IsCareful 3 run_id owner first.1 e)
        | inl (generation, found) ↦ ground (arith, checked-IsCareful generation run_id second.1 e)
      ]
    ]

pub rollback_submission-IsCareful :
    (is_owned : Bool) (run_id : String) (owner : Option ℕ)
    → IsCareful (rollback_submission is_owned run_id owner)
unfolding rollback_submission
rollback_submission-IsCareful false run_id owner t e h =
    let first = delete_owned_queued_run run_id owner t in
    ground (
      arith,
      delete_owned_queued_run-IsCareful run_id owner t e,
      raise_if_pending-IsCareful first.1 e,
      coordination_failure-IsCareful {A = Unit {0}} (some run_id) first.1 e,
    )
rollback_submission-IsCareful true run_id owner t e h =
    let first = delete_events 3 true run_id owner t in
    ground (
      arith,
      delete_events-IsCareful 3 true run_id owner t e,
      rollback_record-IsCareful run_id owner first.1 e,
      coordination_failure-IsCareful {A = Unit {0}} (some run_id) first.1 e,
    )
