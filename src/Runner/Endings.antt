-- ===== src/Runner/Endings.antt =====
-- What `_ensure_event_terminal` guarantees when it returns, whatever the faults of the store.
use governed_analytics_agent.Runner.Replies.{
  any_of-append, any_of-take, asked_events, replayed, appended, snapshot_lem, answers,
}
use governed_analytics_agent.Common.{
  ℕ, zero, suc, ◌≡◌, String, Bool, true, false, Option, none, some, List, ok, arith, lookup, inl,
  inr, any_of, Dict,
}
use governed_analytics_agent.Events.Record.{RunEvent}
use governed_analytics_agent.Events.Store.{
  EventStore, RunBuffer, Store, with_event, has_terminal, high_water_mark, replay_snapshot,
  emit_terminal,
}
use governed_analytics_agent.Events.Values.{Value}
use governed_analytics_agent.Runner.Ports.{Runner, ask_events, answered, refused, failed, cut}
use governed_analytics_agent.Runner.Records.{Result-cases}
use governed_analytics_agent.Runner.Terminal.{
  is_expected_terminal_event, snapshot_matches, terminal_event_matches, matches_up_to,
  emit_expected, round_from, round, last_look, rounds,
}

-- The history of the run holds the expected terminal event.
abbrev pub Ended : String → Dict Value → EventStore → Type 0
Ended run_id expected runs =
    (b : RunBuffer) × (lookup run_id runs ≡ some b)
    × (any_of (is_expected_terminal_event expected) b.events ≡ true)

matches_up_to-Ended :
    (run_id : String) (expected : Dict Value) (owner : Option ℕ) (n : ℕ) (r : Runner)
    → (matches_up_to run_id expected owner n r).0 ≡ ok (some true)
    → Ended run_id expected (matches_up_to run_id expected owner n r).1.event_store
matches_up_to-Ended run_id expected owner zero r h = absurd (ground arith)
matches_up_to-Ended run_id expected owner (suc n) r h =
    let method : ℕ → Store (List RunEvent) = λ now. replay_snapshot run_id (suc n) owner in
    elim (answers method r) [
      | inr (x, e, other) ↦ absurd (ground arith)
      | inl (es, e) ↦
          let (said, after) = asked_events method r {a = es} e in
          let (b, found, part, same) = replayed run_id (suc n) owner r.event_store {es = es} said in
          let matched : snapshot_matches run_id expected (suc n) es ≡ true = ground arith in
          let holds = snapshot_lem run_id expected (suc n) es matched in
          (
            b,
            ground arith,
            any_of-take (is_expected_terminal_event expected) (suc n) b.events (rw part at holds),
          )
    ]

terminal_event_matches-Ended :
    (run_id : String) (expected : Dict Value) (owner : Option ℕ) (r : Runner)
    → (terminal_event_matches run_id expected owner r).0 ≡ ok (some true)
    → Ended run_id expected (terminal_event_matches run_id expected owner r).1.event_store
unfolding terminal_event_matches
terminal_event_matches-Ended run_id expected owner r h =
    let method : ℕ → Store ℕ = λ now. high_water_mark run_id owner in
    elim (answers method r) [
      | inr (x, e, other) ↦ absurd (ground arith)
      | inl (n, e) ↦
          let next : terminal_event_matches run_id expected owner r
              ≡ matches_up_to run_id expected owner n (ask_events method r).1 =
            ground arith in
          rw next
            (matches_up_to-Ended run_id expected owner n (ask_events method r).1 (rw next at h))
    ]

emit_expected-Ended :
    (run_id : String) (expected : Dict Value) (owner : Option ℕ) (r : Runner)
    → (emit_expected run_id expected owner r).0 ≡ ok true
    → Ended run_id expected (emit_expected run_id expected owner r).1.event_store
unfolding emit_expected with_event
emit_expected-Ended run_id expected owner r h =
    let method : ℕ → Store RunEvent = λ now. emit_terminal now run_id expected owner in
    elim (answers method r) [
      | inr (x, e, other) ↦ absurd (ground arith)
      | inl (event, e) ↦
          let (said, after) = asked_events method r {a = event} e in
          let (b, found) =
            appended (r.turns r.calls).now run_id expected owner r.event_store {e = event} said in
          let good : is_expected_terminal_event expected event ≡ true = ground arith in
          (
            with_event b event true,
            ground arith,
            any_of-append (is_expected_terminal_event expected) b.events event good,
          )
    ]

round_from-Ended :
    (exists : Bool) (run_id : String) (expected : Dict Value) (owner : Option ℕ) (r : Runner)
    → (round_from exists run_id expected owner r).0 ≡ ok true
    → Ended run_id expected (round_from exists run_id expected owner r).1.event_store
unfolding round_from
round_from-Ended false run_id expected owner r h = emit_expected-Ended run_id expected owner r h
round_from-Ended true run_id expected owner r h =
    let r' = (terminal_event_matches run_id expected owner r).1 in
    elim (Result-cases (terminal_event_matches run_id expected owner r).0) [
      | inr (e, raised) ↦ absurd (ground arith)
      | inl (none, e) ↦
          let next : round_from true run_id expected owner r
              ≡ emit_expected run_id expected owner r' =
            ground arith in
          rw next (emit_expected-Ended run_id expected owner r' (rw next at h))
      | inl (some false, e) ↦ absurd (ground arith)
      | inl (some true, e) ↦
          let next : (round_from true run_id expected owner r).1 ≡ r' = ground arith in
          rw next (terminal_event_matches-Ended run_id expected owner r e)
    ]

round-Ended :
    (run_id : String) (expected : Dict Value) (owner : Option ℕ) (r : Runner)
    → (round run_id expected owner r).0 ≡ ok true
    → Ended run_id expected (round run_id expected owner r).1.event_store
unfolding round
round-Ended run_id expected owner r h =
    let method : ℕ → Store Bool = λ now. has_terminal run_id owner in
    let r' = (ask_events method r).1 in
    elim (answers method r) [
      | inl (exists, e) ↦
          let next : round run_id expected owner r ≡ round_from exists run_id expected owner r' =
            ground arith in
          rw next (round_from-Ended exists run_id expected owner r' (rw next at h))
      | inr (cut, e, other) ↦ absurd (ground arith)
      | inr (answered a, e, other) ↦ absurd (ground arith)
      | inr (refused x, e, other) ↦
          let next : round run_id expected owner r ≡ round_from false run_id expected owner r' =
            ground arith in
          rw next (round_from-Ended false run_id expected owner r' (rw next at h))
      | inr (failed, e, other) ↦
          let next : round run_id expected owner r ≡ round_from false run_id expected owner r' =
            ground arith in
          rw next (round_from-Ended false run_id expected owner r' (rw next at h))
    ]

last_look-Ended :
    (run_id : String) (expected : Dict Value) (owner : Option ℕ) (r : Runner)
    → (last_look run_id expected owner r).0 ≡ ok tt
    → Ended run_id expected (last_look run_id expected owner r).1.event_store
unfolding last_look
last_look-Ended run_id expected owner r h =
    let method : ℕ → Store Bool = λ now. has_terminal run_id owner in
    let r' = (ask_events method r).1 in
    elim (answers method r) [
      | inr (x, e, other) ↦ absurd (ground arith)
      | inl (false, e) ↦ absurd (ground arith)
      | inl (true, e) ↦ elim (Result-cases (terminal_event_matches run_id expected owner r').0) [
        | inr (x, raised) ↦ absurd (ground arith)
        | inl (none, e') ↦ absurd (ground arith)
        | inl (some false, e') ↦ absurd (ground arith)
        | inl (some true, e') ↦
            let next : (last_look run_id expected owner r).1
                ≡ (terminal_event_matches run_id expected owner r').1 =
              ground arith in
            rw next (terminal_event_matches-Ended run_id expected owner r' e')
      ]
    ]

pub rounds-Ended :
    (n : ℕ) (run_id : String) (expected : Dict Value) (owner : Option ℕ) (r : Runner)
    → (rounds n run_id expected owner r).0 ≡ ok tt
    → Ended run_id expected (rounds n run_id expected owner r).1.event_store
unfolding rounds
rounds-Ended zero run_id expected owner r h = last_look-Ended run_id expected owner r h
rounds-Ended (suc n) run_id expected owner r h =
    let r' = (round run_id expected owner r).1 in
    elim (Result-cases (round run_id expected owner r).0) [
      | inr (x, raised) ↦ absurd (ground arith)
      | inl (true, e) ↦
          let next : (rounds (suc n) run_id expected owner r).1 ≡ r' = ground arith in
          rw next (round-Ended run_id expected owner r e)
      | inl (false, e) ↦
          let next : rounds (suc n) run_id expected owner r ≡ rounds n run_id expected owner r' =
            ground arith in
          rw next (rounds-Ended n run_id expected owner r' (rw next at h))
    ]
