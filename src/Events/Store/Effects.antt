-- ===== src/Events/Store/Effects.antt =====
-- Each method of the store writes nothing, or writes one entry of the registry.
use governed_analytics_agent.Common.{
  ℕ, ◌+◌, ◌≡◌, String, Bool, not, Option, none, some, arith, length, Dict, lookup, insert, erase,
  Option-cases, Bool-cases, inl, inr, ◌⊎◌, ◌&&◌, is_none, leb, ◌==◌,
}
use governed_analytics_agent.Events.Freeze.{freeze_event_data}
use governed_analytics_agent.Events.Identifiers.{safe_run_id}
use governed_analytics_agent.Events.Record.{RunEvent, run_event}
use governed_analytics_agent.Events.Values.{Value}
use governed_analytics_agent.Events.Store.{
  RunBuffer, EventStore, new_buffer, create_run, append, with_event, open_stream, delete_run,
  is_foreign, may_delete, cursor_of,
}

pub create_cases :
    (k : String) (owner : Option ℕ) (runs : EventStore)
    → ((create_run k owner runs).1 ≡ runs)
      ⊎ ((lookup k runs ≡ none) × ((create_run k owner runs).1 ≡ insert k (new_buffer owner) runs))
unfolding create_run
create_cases k owner runs = elim (Bool-cases (safe_run_id k && is_none (lookup k runs))) [
  | inl passes ↦ inr (ground arith, ground arith)
  | inr stops ↦ inl (ground arith)
]

-- The tests of `append` on the run and its buffer.
abbrev append_passes : String → RunBuffer → Option ℕ → Bool
append_passes run_id b owner =
    safe_run_id run_id && not b.deleted && not (is_foreign owner b.owner_token) && not b.terminal

pub append_cases :
    (now : ℕ) (run_id node type : String) (values : Dict Value) (t : Bool) (owner : Option ℕ)
    (runs : EventStore)
    → ((append now run_id node type values t owner runs).1 ≡ runs)
      ⊎ ((b : RunBuffer) × (e : RunEvent) × (lookup run_id runs ≡ some b)
          × ((append now run_id node type values t owner runs).1
              ≡ insert run_id (with_event b e t) runs))
unfolding append
append_cases now run_id node type values t owner runs =
    elim (Option-cases (freeze_event_data node type values)) [
      | inl refused ↦ inl (ground arith)
      | inr (f, ef) ↦ elim (Option-cases (lookup run_id runs)) [
        | inl missing ↦ inl (ground arith)
        | inr (b, eb) ↦
            elim (Option-cases (run_event run_id (length b.events + 1) now node type f)) [
              | inl rejected ↦ inl (ground arith)
              | inr (e, ee) ↦ elim (Bool-cases (append_passes run_id b owner)) [
                | inl passes ↦ inr (b, e, eb, ground arith)
                | inr stops ↦ inl (ground arith)
              ]
            ]
      ]
    ]

pub open_cases :
    (k : String) (after : Option ℕ) (runs : EventStore)
    → ((open_stream k after runs).1 ≡ runs)
      ⊎ ((b : RunBuffer) × (lookup k runs ≡ some b)
          × ((open_stream k after runs).1
              ≡ insert k (record b { active_streams = b.active_streams + 1 }) runs))
unfolding open_stream
open_cases k after runs = elim (Option-cases (lookup k runs)) [
  | inl missing ↦ inl (ground arith)
  | inr (b, found) ↦
      elim (Bool-cases
        (safe_run_id k && not b.deleted && leb (cursor_of after) (length b.events))) [
          | inl passes ↦ inr (b, found, ground arith)
          | inr stops ↦ inl (ground arith)
        ]
]

pub delete_cases :
    (k : String) (unstarted : Bool) (owner : Option ℕ) (runs : EventStore)
    → ((delete_run k unstarted owner runs).1 ≡ runs)
      ⊎ ((b : RunBuffer) × (lookup k runs ≡ some b)
          × (b.active_streams ≡ 0)
          × ((delete_run k unstarted owner runs).1 ≡ erase k runs))
unfolding delete_run
delete_cases k unstarted owner runs = elim (Option-cases (lookup k runs)) [
  | inl missing ↦ inl (ground arith)
  | inr (b, found) ↦
      elim (Bool-cases (
        safe_run_id k
        && not (is_foreign owner b.owner_token)
        && may_delete b unstarted
        && b.active_streams == 0)) [
          | inl passes ↦ inr (b, found, ground arith, ground arith)
          | inr stops ↦ inl (ground arith)
        ]
]
