-- ===== src/Runner/Replies.antt =====
-- What an answer of the event store says of the store.
use governed_analytics_agent.Common.{
  ℕ, zero, suc, ◌+◌, ◌≡◌, refl, String, Bool, true, false, Option, some, List, [], ◌∷◌, ◌++◌, ok,
  arith, lookup, lookup-insert_self, Option-cases, inl, inr, any_of, take, Dict, length, ◌⊎◌, ap,
}
use governed_analytics_agent.Events.Freeze.{freeze_event_data}
use governed_analytics_agent.Events.Record.{RunEvent, run_event}
use governed_analytics_agent.Events.Store.{
  EventStore, RunBuffer, Store, append, with_event, replay_snapshot, emit_terminal, StoreError,
}
use governed_analytics_agent.Events.Values.{Value}
use governed_analytics_agent.Runner.Ports.{
  Runner, ask_events, Answer, answered, refused, failed, cut, seen, answer_of,
}
use governed_analytics_agent.Runner.Terminal.{
  is_expected_terminal_event, ends_expected, snapshot_matches,
}

pub any_of-append :
    (test : RunEvent → Bool) (xs : List RunEvent) (e : RunEvent)
    → test e ≡ true
    → any_of test (xs ++ e ∷ []) ≡ true
any_of-append test [] e h = ground arith
any_of-append test (x ∷ xs) e h = ground (arith, any_of-append test xs e h)

pub any_of-take :
    (test : RunEvent → Bool) (n : ℕ) (xs : List RunEvent)
    → any_of test (take n xs) ≡ true
    → any_of test xs ≡ true
any_of-take test zero xs h = absurd (ground arith)
any_of-take test (suc n) [] h = h
any_of-take test (suc n) (x ∷ xs) h = ground (arith, any_of-take test n xs)

pub ends_expected_lem :
    (expected : Dict Value) (es : List RunEvent)
    → ends_expected expected es ≡ true
    → any_of (is_expected_terminal_event expected) es ≡ true
ends_expected_lem expected [] h = absurd (ground arith)
ends_expected_lem expected (e ∷ []) h = ground arith
ends_expected_lem expected (e ∷ e' ∷ es) h = ground (arith, ends_expected_lem expected (e' ∷ es))

abbrev pub is_answered : {E A : Type 0} → Answer E A → Bool
is_answered (answered a) = true
is_answered _ = false

-- An answer comes of a call that worked.
pub asked_events :
    {A : Type 0} (method : ℕ → Store A) (r : Runner) {a : A}
    → (ask_events method r).0 ≡ ok (answered a)
    → ((method (r.turns r.calls).now r.event_store).0 ≡ ok a)
      × ((ask_events method r).1.event_store ≡ (method (r.turns r.calls).now r.event_store).1)
unfolding ask_events
asked_events method r {a} h = ground arith

-- A snapshot is a part of the history.
pub replayed :
    (run_id : String) (n : ℕ) (owner : Option ℕ) (s : EventStore) {es : List RunEvent}
    → (replay_snapshot run_id n owner s).0 ≡ ok es
    → (b : RunBuffer) × (lookup run_id s ≡ some b)
      × (es ≡ take n b.events)
      × ((replay_snapshot run_id n owner s).1 ≡ s)
unfolding replay_snapshot
replayed run_id n owner s {es} h = elim (Option-cases (lookup run_id s)) [
  | inl missing ↦ absurd (ground arith)
  | inr (b, found) ↦ (b, found, ground arith, ground arith)
]

-- An event that was emitted is the last of the history.
pub appended :
    (now : ℕ) (run_id : String) (values : Dict Value) (owner : Option ℕ) (s : EventStore)
    {e : RunEvent}
    → (emit_terminal now run_id values owner s).0 ≡ ok e
    → (b : RunBuffer) × (lookup run_id (emit_terminal now run_id values owner s).1
        ≡ some (with_event b e true))
unfolding emit_terminal append
appended now run_id values owner s {e} h =
    elim (Option-cases (freeze_event_data "runtime" "run.terminal" values)) [
      | inl dropped ↦ absurd (ground arith)
      | inr (f, ef) ↦ elim (Option-cases (lookup run_id s)) [
        | inl missing ↦ absurd (ground arith)
        | inr (b, eb) ↦
            elim (Option-cases
              (run_event run_id (length b.events + 1) now "runtime" "run.terminal" f)) [
                | inl rejected ↦ absurd (ground arith)
                | inr (x, ex) ↦
                    (b, ground (arith, lookup-insert_self run_id (with_event b e true) s))
              ]
      ]
    ]

pub snapshot_lem :
    (run_id : String) (expected : Dict Value) (n : ℕ) (es : List RunEvent)
    → snapshot_matches run_id expected n es ≡ true
    → any_of (is_expected_terminal_event expected) es ≡ true
unfolding snapshot_matches
snapshot_lem run_id expected n es h = ground (arith, ends_expected_lem expected es)

-- A call of the event store never raises by itself: its answer tells.
pub answers :
    {A : Type 0} (method : ℕ → Store A) (r : Runner)
    → ((a : A) × ((ask_events method r).0 ≡ ok (answered a)))
      ⊎ ((x : Answer StoreError A) × ((ask_events method r).0 ≡ ok x) × (is_answered x ≡ false))
unfolding ask_events
answers {A = A} method r =
    split (seen (r.turns r.calls).fault (answer_of (method (r.turns r.calls).now r.event_store).0))
      refl
  where
    split :
        (x : Answer StoreError A)
        → seen (r.turns r.calls).fault (answer_of (method (r.turns r.calls).now r.event_store).0)
          ≡ x
        → ((a : A) × ((ask_events method r).0 ≡ ok (answered a)))
          ⊎ ((x : Answer StoreError A) × ((ask_events method r).0 ≡ ok x) × (is_answered x ≡ false))
    split (answered a) e = inl (a, ap ok e)
    split (refused x) e = inr (refused x, ap ok e, refl)
    split failed e = inr (failed, ap ok e, refl)
    split cut e = inr (cut, ap ok e, refl)
