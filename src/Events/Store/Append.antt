-- ===== src/Events/Store/Append.antt =====
-- `emit` and `emit_terminal`: when they succeed, what they write, and that the registry stays sound.
use governed_analytics_agent.Common.{
  ℕ, suc, ◌+◌, ◌≤◌, ◌<◌, ◌≡◌, ◌≢◌, String, Bool, true, false, Option, some, arith, str_eq, length,
  Dict, lookup, insert, ok, Option-cases, inl, inr,
}
use governed_analytics_agent.Common.Maybe.{◌>>=◌}
use governed_analytics_agent.Events.Freeze.{freeze_event_data}
use governed_analytics_agent.Events.Identifiers.{safe_run_id}
use governed_analytics_agent.Events.Idempotent.{freeze_event_data_idem}
use governed_analytics_agent.Events.Record.{RunEvent, run_event, event_id_of, max_sequence}
use governed_analytics_agent.Events.Values.{Value}
use governed_analytics_agent.Events.Store.{
  RunBuffer, EventStore, append, with_event, is_foreign, emit, emit_terminal,
}
use governed_analytics_agent.Events.Store.Invariant.{
  IsSound, AllSound, is_terminal, lookup-AllSound, insert-AllSound, IsNumbered-snoc, EndsWith-snoc,
  any_started-snoc,
}

abbrev pub event_of : ℕ → String → ℕ → String → String → Dict Value → RunEvent
event_of now run_id sequence node type frozen = record {
  event_id = event_id_of run_id sequence;
  sequence = sequence;
  run_id = run_id;
  timestamp = now;
  node = node;
  type = type;
  frozen = frozen;
}

-- The validation on construction accepts frozen data, up to the highest sequence.
run_event_frozen :
    (now : ℕ) (run_id : String) (n : ℕ) (node type : String) (values : Dict Value) {f : Dict Value}
    → freeze_event_data node type values ≡ some f
    → safe_run_id run_id ≡ true
    → suc n ≤ max_sequence
    → run_event run_id (n + 1) now node type f ≡ some (event_of now run_id (n + 1) node type f)
unfolding run_event ◌>>=◌
run_event_frozen now run_id n node type values {f} h safe bound =
    ground (arith, freeze_event_data_idem node type values {f = f} h)

-- What an accepted event holds.
run_event_fields :
    (run_id : String) (n now : ℕ) (node type : String) (values : Dict Value) {e : RunEvent}
    → run_event run_id n now node type values ≡ some e
    → (e.sequence ≡ n) × (e.run_id ≡ run_id) × (e.event_id ≡ event_id_of run_id n) × (e.type ≡ type)
unfolding run_event ◌>>=◌
run_event_fields run_id n now node type values h = ground arith

with_event-IsSound :
    (run_id : String) (b : RunBuffer) (e : RunEvent) (t : Bool)
    → IsSound run_id b
    → b.terminal ≡ false
    → e.sequence ≡ length b.events + 1
    → e.run_id ≡ run_id
    → e.event_id ≡ event_id_of run_id e.sequence
    → is_terminal e ≡ t
    → IsSound run_id (with_event b e t)
unfolding with_event
with_event-IsSound run_id b e t s open_run n r i last = record {
  numbered = IsNumbered-snoc run_id 0 b.events e s.numbered (omega arith) r i;
  ends = ground (arith, EndsWith-snoc b.events e);
  starts = ground (arith, any_started-snoc b.events e);
  kept = s.kept;
}

-- An append never breaks the registry, whether it succeeds or raises, when its flag says whether
-- the type ends the run.
pub append-AllSound :
    (now : ℕ) (run_id node type : String) (values : Dict Value) (t : Bool) (owner : Option ℕ)
    (runs : EventStore)
    → str_eq type "run.terminal" ≡ t
    → AllSound runs
    → AllSound (append now run_id node type values t owner runs).1
unfolding append
append-AllSound now run_id node type values t owner runs last s =
    elim (Option-cases (freeze_event_data node type values)) [
      | inl refused ↦ ground arith
      | inr (f, ef) ↦ elim (Option-cases (lookup run_id runs)) [
        | inl missing ↦ ground arith
        | inr (b, eb) ↦
            elim (Option-cases (run_event run_id (length b.events + 1) now node type f)) [
              | inl rejected ↦ ground arith
              | inr (e, ee) ↦
                  let sound = lookup-AllSound run_id b runs s eb in
                  let fields = run_event_fields run_id (length b.events + 1) now node type f ee in
                  ground (
                    arith,
                    insert-AllSound run_id (with_event b e t) runs,
                    with_event-IsSound run_id b e t sound,
                    fields,
                  )
            ]
      ]
    ]

-- An append by the owner of an open run, of data that freezes, succeeds while sequences last: the
-- event takes the next sequence, and goes to the end of the run's events.
pub append_lem :
    (now : ℕ) (run_id node type : String) (values : Dict Value) (t : Bool) (owner : Option ℕ)
    (runs : EventStore) {b : RunBuffer} {f : Dict Value}
    → safe_run_id run_id ≡ true
    → lookup run_id runs ≡ some b
    → b.deleted ≡ false
    → is_foreign owner b.owner_token ≡ false
    → b.terminal ≡ false
    → freeze_event_data node type values ≡ some f
    → length b.events < max_sequence
    → append now run_id node type values t owner runs ≡ (
      ok (event_of now run_id (length b.events + 1) node type f),
      insert run_id (with_event b (event_of now run_id (length b.events + 1) node type f) t) runs,
    )
unfolding append
append_lem now run_id node type values t owner runs {b} {f} safe found kept own open_run frozen
      room =
    ground
      (arith, run_event_frozen now run_id (length b.events) node type values {f = f} frozen safe)

-- After the terminal event nothing can be appended: `emit` and `emit_terminal` raise and leave the
-- registry as it was.
pub terminal_is_final :
    (now : ℕ) (run_id node type : String) (values : Dict Value) (owner : Option ℕ)
    (runs : EventStore) {b : RunBuffer}
    → lookup run_id runs ≡ some b
    → b.terminal ≡ true
    → ((e : RunEvent) → (emit now run_id node type values owner runs).0 ≢ ok e)
      × ((emit now run_id node type values owner runs).1 ≡ runs)
      × ((e : RunEvent) → (emit_terminal now run_id values owner runs).0 ≢ ok e)
      × ((emit_terminal now run_id values owner runs).1 ≡ runs)
unfolding emit emit_terminal append
terminal_is_final now run_id node type values owner runs found ended =
    (λ e h. absurd (ground arith), ground arith, λ e h. absurd (ground arith), ground arith)
