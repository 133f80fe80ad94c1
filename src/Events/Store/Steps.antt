-- ===== src/Events/Store/Steps.antt =====
-- Every registry that calls can lead to, and what a call can do to the history of a run.
use mathlib.Core.List.{append-nil}
use governed_analytics_agent.Common.{
  ℕ, ◌+◌, ◌≡◌, refl, sym, String, Bool, true, false, Option, none, some, List, [], ◌∷◌, ◌++◌, arith,
  str_eq, eq_iff, Dict, lookup, insert, erase, IsDistinct, insert-IsDistinct, erase-IsDistinct,
  lookup-insert, lookup-erase_ne, lookup-erase_self, Option-cases, Bool-cases, inl, inr, ◌-◌,
  lookup-insert_self,
}
use governed_analytics_agent.Events.Record.{RunEvent}
use governed_analytics_agent.Events.Values.{Value}
use governed_analytics_agent.Events.Store.{
  RunBuffer, EventStore, new_buffer, create_run, emit, emit_terminal, append, with_event,
  open_stream, release_stream, delete_run,
}
use governed_analytics_agent.Events.Store.Append.{append-AllSound}
use governed_analytics_agent.Events.Store.Effects.{
  create_cases, append_cases, open_cases, delete_cases,
}
use governed_analytics_agent.Events.Store.Invariant.{
  IsSound, AllSound, lookup-AllSound, insert-AllSound, erase-AllSound,
}

pub data Call : Type 0 where
  create : String → Option ℕ → Call
  emits : ℕ → String → String → String → Dict Value → Option ℕ → Call
  ends : ℕ → String → Dict Value → Option ℕ → Call
  opens : String → Option ℕ → Call
  releases : String → Call
  deletes : String → Bool → Option ℕ → Call

-- The registry after the method that a call names.
unfoldable pub apply : Call → EventStore → EventStore
apply (create run_id owner) runs = (create_run run_id owner runs).1
apply (emits now run_id node type values owner) runs =
    (emit now run_id node type values owner runs).1
apply (ends now run_id values owner) runs = (emit_terminal now run_id values owner runs).1
apply (opens run_id after) runs = (open_stream run_id after runs).1
apply (releases run_id) runs = (release_stream run_id runs).1
apply (deletes run_id unstarted owner) runs = (delete_run run_id unstarted owner runs).1

pub data Reach : EventStore → Type 0 where
  start : Reach []
  next : {runs : EventStore} → Reach runs → (c : Call) → Reach (apply c runs)

pub record IsSoundStore (runs : EventStore) : Type 0 where
  pub distinct : IsDistinct runs
  pub sound : AllSound runs

-- What a buffer becomes: it may be gone if no stream was open, and else its events only grow.
abbrev pub Extends : RunBuffer → Option RunBuffer → Type 0
Extends b none = b.active_streams ≡ 0
Extends b (some b') = (more : List RunEvent) × (b'.events ≡ b.events ++ more)

Extends-refl : (b : RunBuffer) → Extends b (some b)
Extends-refl b = ([], sym (append-nil b.events))

-- The registry `runs` can become `runs'`.
abbrev Follows : EventStore → EventStore → Type 0
Follows runs runs' =
    IsSoundStore runs'
    × ((j : String) (d : RunBuffer) → lookup j runs ≡ some d → Extends d (lookup j runs'))

Follows-same : (runs : EventStore) → IsSoundStore runs → Follows runs runs
Follows-same runs s = (s, λ j d e. rw e (Extends-refl d))

Follows-insert :
    (k : String) (b : Option RunBuffer) (b' : RunBuffer) (runs : EventStore)
    → lookup k runs ≡ b
    → ((d : RunBuffer) → b ≡ some d → Extends d (some b'))
    → IsSound k b'
    → IsSoundStore runs
    → Follows runs (insert k b' runs)
Follows-insert k b b' runs found grown new s = (
  record {
    distinct = insert-IsDistinct k b' runs s.distinct;
    sound = insert-AllSound k b' runs new s.sound;
  },
  λ j d e. elim (Bool-cases (str_eq k j)) [
    | inl same ↦ rw (lookup-insert k j b' runs, same) (grown d (ground (arith, eq_iff k j)))
    | inr other ↦ rw (lookup-insert k j b' runs, other, e) (Extends-refl d)
  ],
)

Follows-erase :
    (k : String) (b : RunBuffer) (runs : EventStore)
    → lookup k runs ≡ some b
    → b.active_streams ≡ 0
    → IsSoundStore runs
    → Follows runs (erase k runs)
Follows-erase k b runs found idle s = (
  record { distinct = erase-IsDistinct k runs s.distinct; sound = erase-AllSound k runs s.sound },
  λ j d e. elim (Bool-cases (str_eq k j)) [
    | inl same ↦ ground (arith, eq_iff k j, lookup-erase_self k runs s.distinct)
    | inr other ↦ rw (lookup-erase_ne k j runs (ground (arith, eq_iff k j)), e) (Extends-refl d)
  ],
)

with_event-Extends :
    (b : RunBuffer) (e : RunEvent) (t : Bool) (d : RunBuffer)
    → some b ≡ some d
    → Extends d (some (with_event b e t))
unfolding with_event
with_event-Extends b e t d h = (e ∷ [], ground arith)

append-Follows :
    (now : ℕ) (run_id node type : String) (values : Dict Value) (t : Bool) (owner : Option ℕ)
    (runs : EventStore)
    → str_eq type "run.terminal" ≡ t
    → IsSoundStore runs
    → Follows runs (append now run_id node type values t owner runs).1
append-Follows now run_id node type values t owner runs last s =
    elim (append_cases now run_id node type values t owner runs) [
      | inl same ↦ rw same (Follows-same runs s)
      | inr (b, e, found, written) ↦
          let sound = append-AllSound now run_id node type values t owner runs last s.sound in
          rw written (
            Follows-insert run_id (some b) (with_event b e t) runs found (with_event-Extends b e t)
              (lookup-AllSound run_id (with_event b e t) _ (rw written at sound)
                (lookup-insert_self run_id (with_event b e t) runs))
              s)
    ]

emit-Follows :
    (now : ℕ) (run_id node type : String) (values : Dict Value) (owner : Option ℕ)
    (runs : EventStore)
    → IsSoundStore runs
    → Follows runs (emit now run_id node type values owner runs).1
unfolding emit
emit-Follows now run_id node type values owner runs s =
    elim (Bool-cases (str_eq type "run.terminal")) [
      | inl last ↦ rw last (Follows-same runs s)
      | inr inner ↦ rw inner (append-Follows now run_id node type values false owner runs inner s)
    ]

-- One more lease, or one less, changes no event.
lease-Follows :
    (k : String) (n : ℕ) (b : RunBuffer) (runs : EventStore)
    → lookup k runs ≡ some b
    → IsSoundStore runs
    → Follows runs (insert k (record b { active_streams = n }) runs)
lease-Follows k n b runs found s =
    let sound = lookup-AllSound k b runs s.sound found in
    Follows-insert k (some b) (record b { active_streams = n }) runs found
      (λ d e. ([], ground (arith, append-nil d.events))) (ground arith) s

create-Follows :
    (k : String) (owner : Option ℕ) (runs : EventStore)
    → IsSoundStore runs
    → Follows runs (create_run k owner runs).1
create-Follows k owner runs s = elim (create_cases k owner runs) [
  | inl same ↦ rw same (Follows-same runs s)
  | inr (free, written) ↦
      rw written (Follows-insert k none (new_buffer owner) runs free (λ d e. cc) (ground arith) s)
]

open-Follows :
    (k : String) (after : Option ℕ) (runs : EventStore)
    → IsSoundStore runs
    → Follows runs (open_stream k after runs).1
open-Follows k after runs s = elim (open_cases k after runs) [
  | inl same ↦ rw same (Follows-same runs s)
  | inr (b, found, written) ↦ rw written (lease-Follows k (b.active_streams + 1) b runs found s)
]

release-Follows :
    (k : String) (runs : EventStore) → IsSoundStore runs → Follows runs (release_stream k runs).1
unfolding release_stream
release-Follows k runs s = elim (Option-cases (lookup k runs)) [
  | inl missing ↦ rw missing (Follows-same runs s)
  | inr (b, found) ↦ rw found (lease-Follows k (b.active_streams - 1) b runs found s)
]

delete-Follows :
    (k : String) (unstarted : Bool) (owner : Option ℕ) (runs : EventStore)
    → IsSoundStore runs
    → Follows runs (delete_run k unstarted owner runs).1
delete-Follows k unstarted owner runs s = elim (delete_cases k unstarted owner runs) [
  | inl same ↦ rw same (Follows-same runs s)
  | inr (b, found, idle, written) ↦ rw written (Follows-erase k b runs found idle s)
]

apply-Follows : (c : Call) (runs : EventStore) → IsSoundStore runs → Follows runs (apply c runs)
unfolding apply emit_terminal
apply-Follows (create k owner) runs s = create-Follows k owner runs s
apply-Follows (emits now k node type values owner) runs s =
    emit-Follows now k node type values owner runs s
apply-Follows (ends now k values owner) runs s =
    append-Follows now k "runtime" "run.terminal" values true owner runs refl s
apply-Follows (opens k after) runs s = open-Follows k after runs s
apply-Follows (releases k) runs s = release-Follows k runs s
apply-Follows (deletes k unstarted owner) runs s = delete-Follows k unstarted owner runs s

-- However the store is used, every run's events are numbered from 1 without a gap, carry the ids of
-- their run, and end the run with the last of them at most; the flags say what the events say.
pub reachable-IsSoundStore : {runs : EventStore} → Reach runs → IsSoundStore runs
reachable-IsSoundStore start = record { distinct = tt; sound = tt }
reachable-IsSoundStore (next {runs} r c) = (apply-Follows c runs (reachable-IsSoundStore r)).0

-- From a sound store, no call rewrites the history of a run: afterwards its events are those from
-- before with others behind them, or the run is gone, and then no stream of it was open.
pub history_grows :
    (c : Call) (runs : EventStore) (run_id : String) {b : RunBuffer}
    → IsSoundStore runs
    → lookup run_id runs ≡ some b
    → Extends b (lookup run_id (apply c runs))
history_grows c runs run_id {b} s found = (apply-Follows c runs s).1 run_id b found
