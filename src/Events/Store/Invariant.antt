-- ===== src/Events/Store/Invariant.antt =====
-- What holds of every buffer of the registry: its events are numbered from 1 without a gap and carry
-- the ids of their run, the flags say what the events say, and only the last can be terminal.
use governed_analytics_agent.Common.{
  ℕ, suc, ◌+◌, ◌≡◌, refl, String, Bool, false, ◌||◌, some, List, [], ◌∷◌, ◌++◌, arith, str_eq,
  eq_iff, length, lookup, insert, erase,
}
use governed_analytics_agent.Events.Record.{RunEvent, event_id_of}
use governed_analytics_agent.Events.Store.{RunBuffer, EventStore}

abbrev pub is_terminal : RunEvent → Bool
is_terminal e = str_eq e.type "run.terminal"

-- The events that follow `n` others of a run.
abbrev pub IsNumbered : String → ℕ → List RunEvent → Type 0
IsNumbered run_id n [] = Unit
IsNumbered run_id n (e ∷ es) =
    (e.sequence ≡ suc n)
    × (e.run_id ≡ run_id)
    × (e.event_id ≡ event_id_of run_id (suc n))
    × IsNumbered run_id (suc n) es

-- Only the last event may end the run, and `ended` tells whether it does.
abbrev pub EndsWith : Bool → List RunEvent → Type 0
EndsWith ended [] = ended ≡ false
EndsWith ended (e ∷ []) = is_terminal e ≡ ended
EndsWith ended (e ∷ e' ∷ es) = (is_terminal e ≡ false) × EndsWith ended (e' ∷ es)

abbrev pub any_started : List RunEvent → Bool
any_started [] = false
any_started (e ∷ es) = str_eq e.type "run.started" || any_started es

pub record IsSound (run_id : String) (b : RunBuffer) : Type 0 where
  pub numbered : IsNumbered run_id 0 b.events
  pub ends : EndsWith b.terminal b.events
  pub starts : b.started ≡ any_started b.events
  pub kept : b.deleted ≡ false

abbrev pub AllSound : EventStore → Type 0
AllSound [] = Unit
AllSound ((k, b) ∷ runs) = IsSound k b × AllSound runs

pub lookup-AllSound :
    (k : String) (b : RunBuffer) (runs : EventStore)
    → AllSound runs
    → lookup k runs ≡ some b
    → IsSound k b
lookup-AllSound k b [] s e = absurd (ground arith)
lookup-AllSound k b ((j, c) ∷ runs) s e = ground (arith, eq_iff j k, lookup-AllSound k b runs s.1)

pub insert-AllSound :
    (k : String) (b : RunBuffer) (runs : EventStore)
    → IsSound k b
    → AllSound runs
    → AllSound (insert k b runs)
insert-AllSound k b [] h s = (h, tt)
insert-AllSound k b ((j, c) ∷ runs) h s = ground (arith, eq_iff j k, insert-AllSound k b runs h s.1)

pub erase-AllSound : (k : String) (runs : EventStore) → AllSound runs → AllSound (erase k runs)
erase-AllSound k [] s = tt
erase-AllSound k ((j, c) ∷ runs) s = ground (arith, erase-AllSound k runs s.1)

pub IsNumbered-snoc :
    (run_id : String) (n : ℕ) (es : List RunEvent) (e : RunEvent)
    → IsNumbered run_id n es
    → e.sequence ≡ n + length es + 1
    → e.run_id ≡ run_id
    → e.event_id ≡ event_id_of run_id e.sequence
    → IsNumbered run_id n (es ++ e ∷ [])
IsNumbered-snoc run_id n [] e h s r i = ground arith
IsNumbered-snoc run_id n (x ∷ es) e h s r i =
    (h.0, h.1, h.2, IsNumbered-snoc run_id (suc n) es e h.3 (omega arith) r i)

pub EndsWith-snoc :
    (es : List RunEvent) (e : RunEvent)
    → EndsWith false es
    → EndsWith (is_terminal e) (es ++ e ∷ [])
EndsWith-snoc [] e h = refl
EndsWith-snoc (x ∷ []) e h = (h, refl)
EndsWith-snoc (x ∷ y ∷ es) e h = (h.0, EndsWith-snoc (y ∷ es) e h.1)

pub any_started-snoc :
    (es : List RunEvent) (e : RunEvent)
    → any_started (es ++ e ∷ []) ≡ (str_eq e.type "run.started" || any_started es)
any_started-snoc [] e = refl
any_started-snoc (x ∷ es) e = ground (arith, any_started-snoc es e)
