-- ===== src/Runner/Untouched.antt =====
-- `_ensure_event_terminal` leaves the run store alone.
use governed_analytics_agent.Common.{
  ℕ, zero, suc, ◌≡◌, refl, String, Bool, true, false, Option, arith, Dict, inl, inr,
}
use governed_analytics_agent.Events.Store as events
use governed_analytics_agent.Events.Store.{
  has_terminal, high_water_mark, replay_snapshot, emit_terminal,
}
use governed_analytics_agent.Events.Values.{Value}
use governed_analytics_agent.Runner.Ports.{Runner, ask_events, answered, refused, failed, cut}
use governed_analytics_agent.Runner.Records.{Result-cases}
use governed_analytics_agent.Runner.Terminal.{
  terminal_event_matches, matches_up_to, emit_expected, round_from, round, last_look, rounds,
}

ask_events_runs :
    {A : Type 0} (method : ℕ → events.Store A) (r : Runner)
    → (ask_events method r).1.run_store ≡ r.run_store
unfolding ask_events
ask_events_runs method r = refl

matches_up_to_runs :
    (run_id : String) (expected : Dict Value) (owner : Option ℕ) (n : ℕ) (r : Runner)
    → (matches_up_to run_id expected owner n r).1.run_store ≡ r.run_store
matches_up_to_runs run_id expected owner zero r = refl
matches_up_to_runs run_id expected owner (suc n) r =
    ground (arith, ask_events_runs (λ now. replay_snapshot run_id (suc n) owner) r)

terminal_event_matches_runs :
    (run_id : String) (expected : Dict Value) (owner : Option ℕ) (r : Runner)
    → (terminal_event_matches run_id expected owner r).1.run_store ≡ r.run_store
unfolding terminal_event_matches
terminal_event_matches_runs run_id expected owner r =
    let r' = (ask_events (λ now. high_water_mark run_id owner) r).1 in
    let first = ask_events_runs (λ now. high_water_mark run_id owner) r in
    elim (Result-cases (ask_events (λ now. high_water_mark run_id owner) r).0) [
      | inl (answered n, e) ↦ ground (arith, matches_up_to_runs run_id expected owner n r')
      | inl (refused x, e) ↦ ground arith
      | inl (failed, e) ↦ ground arith
      | inl (cut, e) ↦ ground arith
      | inr (x, e) ↦ ground arith
    ]

emit_expected_runs :
    (run_id : String) (expected : Dict Value) (owner : Option ℕ) (r : Runner)
    → (emit_expected run_id expected owner r).1.run_store ≡ r.run_store
unfolding emit_expected
emit_expected_runs run_id expected owner r =
    ground (arith, ask_events_runs (λ now. emit_terminal now run_id expected owner) r)

round_from_runs :
    (exists : Bool) (run_id : String) (expected : Dict Value) (owner : Option ℕ) (r : Runner)
    → (round_from exists run_id expected owner r).1.run_store ≡ r.run_store
unfolding round_from
round_from_runs false run_id expected owner r = emit_expected_runs run_id expected owner r
round_from_runs true run_id expected owner r =
    let r' = (terminal_event_matches run_id expected owner r).1 in
    ground (
      arith,
      terminal_event_matches_runs run_id expected owner r,
      emit_expected_runs run_id expected owner r',
    )

round_runs :
    (run_id : String) (expected : Dict Value) (owner : Option ℕ) (r : Runner)
    → (round run_id expected owner r).1.run_store ≡ r.run_store
unfolding round
round_runs run_id expected owner r =
    let method : ℕ → events.Store Bool = λ now. has_terminal run_id owner in
    let r' = (ask_events method r).1 in
    let first = ask_events_runs method r in
    elim (Result-cases (ask_events method r).0) [
      | inl (answered exists, e) ↦ ground (arith, round_from_runs exists run_id expected owner r')
      | inl (refused x, e) ↦ ground (arith, round_from_runs false run_id expected owner r')
      | inl (failed, e) ↦ ground (arith, round_from_runs false run_id expected owner r')
      | inl (cut, e) ↦ ground arith
      | inr (x, e) ↦ ground arith
    ]

last_look_runs :
    (run_id : String) (expected : Dict Value) (owner : Option ℕ) (r : Runner)
    → (last_look run_id expected owner r).1.run_store ≡ r.run_store
unfolding last_look
last_look_runs run_id expected owner r =
    let method : ℕ → events.Store Bool = λ now. has_terminal run_id owner in
    let r' = (ask_events method r).1 in
    let first = ask_events_runs method r in
    elim (Result-cases (ask_events method r).0) [
      | inl (answered true, e) ↦
          ground (arith, terminal_event_matches_runs run_id expected owner r')
      | inl (answered false, e) ↦ ground arith
      | inl (refused x, e) ↦ ground arith
      | inl (failed, e) ↦ ground arith
      | inl (cut, e) ↦ ground arith
      | inr (x, e) ↦ ground arith
    ]

-- `_ensure_event_terminal` leaves the run store alone.
pub rounds_runs :
    (n : ℕ) (run_id : String) (expected : Dict Value) (owner : Option ℕ) (r : Runner)
    → (rounds n run_id expected owner r).1.run_store ≡ r.run_store
unfolding rounds
rounds_runs zero run_id expected owner r = last_look_runs run_id expected owner r
rounds_runs (suc n) run_id expected owner r =
    let r' = (round run_id expected owner r).1 in
    let first = round_runs run_id expected owner r in
    ground (arith, rounds_runs n run_id expected owner r')
