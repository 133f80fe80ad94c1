-- ===== src/Events/Stream/Replay.antt =====
-- A stream yields the history of its run, from its cursor on, without a gap and without a repetition.
use mathlib.Core.List.{append-nil, append_assoc}
use governed_analytics_agent.Common.{
  ℕ, suc, ◌+◌, ◌≤◌, ◌≡◌, refl, ◌∙◌, String, Bool, true, false, List, [], ◌∷◌, ◌++◌, arith,
  if◌then◌else◌, length, length-append, Bool-cases, inl, inr,
}
use governed_analytics_agent.Events.Record.{RunEvent}
use governed_analytics_agent.Events.Store.{RunBuffer}
use governed_analytics_agent.Events.Store.Invariant.{IsSound, IsNumbered, EndsWith}
use governed_analytics_agent.Events.Stream.{
  finished, waiting, delivered, newer, yield_batch, round, stream,
}

newer_all :
    (run_id : String) (n cursor : ℕ) (es : List RunEvent)
    → IsNumbered run_id n es
    → cursor ≤ n
    → newer cursor es ≡ es
unfolding newer
newer_all run_id n cursor [] h le = refl
newer_all run_id n cursor (e ∷ es) h le = ground (arith, newer_all run_id (suc n) cursor es h.3)

-- The events past the seen ones are those behind them.
newer_past :
    (run_id : String) (n cursor : ℕ) (seen more : List RunEvent)
    → IsNumbered run_id n (seen ++ more)
    → cursor ≡ n + length seen
    → newer cursor (seen ++ more) ≡ more
unfolding newer
newer_past run_id n cursor [] more h starts = newer_all run_id n cursor more h (omega arith)
newer_past run_id n cursor (e ∷ seen) more h starts =
    ground (arith, newer_past run_id (suc n) cursor seen more h.3 (omega arith))

IsNumbered-past :
    (run_id : String) (n : ℕ) (seen more : List RunEvent)
    → IsNumbered run_id n (seen ++ more)
    → IsNumbered run_id (n + length seen) more
IsNumbered-past run_id n [] more h = let e : n + 0 ≡ n = omega arith in rw e h
IsNumbered-past run_id n (x ∷ seen) more h =
    let e : n + suc (length seen) ≡ suc n + length seen = omega arith in
    rw e (IsNumbered-past run_id (suc n) seen more h.3)

EndsWith-past :
    (t : Bool) (seen : List RunEvent) (m : RunEvent) (more : List RunEvent)
    → EndsWith t (seen ++ m ∷ more)
    → EndsWith t (m ∷ more)
EndsWith-past t [] m more h = h
EndsWith-past t (x ∷ []) m more h = h.1
EndsWith-past t (x ∷ y ∷ seen) m more h = EndsWith-past t (y ∷ seen) m more h.1

-- Behind a terminal event there is none.
EndsWith-closed :
    (t : Bool) (es more : List RunEvent) → EndsWith true es → EndsWith t (es ++ more) → more ≡ []
EndsWith-closed t [] more h k = cc
EndsWith-closed t (e ∷ []) [] h k = refl
EndsWith-closed t (e ∷ []) (m ∷ more) h k = absurd (ground arith)
EndsWith-closed t (e ∷ e' ∷ es) more h k = EndsWith-closed t (e' ∷ es) more h.1 k.1

yield_batch_numbered :
    (run_id : String) (n : ℕ) (t : Bool) (es : List RunEvent)
    → IsNumbered run_id n es
    → EndsWith t es
    → yield_batch n es ≡ record { yielded = es; cursor = n + length es; ended = t }
unfolding yield_batch
yield_batch_numbered run_id n t [] h ends = ground arith
yield_batch_numbered run_id n t (e ∷ []) h ends = ground arith
yield_batch_numbered run_id n t (e ∷ e' ∷ es) h ends =
    ground (arith, yield_batch_numbered run_id (suc n) t (e' ∷ es) h.3 ends.1)

round_idle :
    (run_id : String) (b : RunBuffer) (seen : List RunEvent)
    → IsSound run_id b
    → b.events ≡ seen ++ []
    → round b (length seen) ≡ (if b.terminal then finished else waiting)
unfolding round
round_idle run_id b seen s e =
    let numbered : IsNumbered run_id 0 (seen ++ []) = rw e at s.numbered in
    let past = newer_past run_id 0 (length seen) seen [] numbered (omega arith) in
    ground (arith, past)

round_delivers :
    (run_id : String) (b : RunBuffer) (seen : List RunEvent) (m : RunEvent) (more : List RunEvent)
    → IsSound run_id b
    → b.events ≡ seen ++ m ∷ more
    → round b (length seen)
      ≡ delivered (record { yielded = m ∷ more; cursor = length b.events; ended = b.terminal })
unfolding round
round_delivers run_id b seen m more s e =
    let numbered : IsNumbered run_id 0 (seen ++ m ∷ more) = rw e at s.numbered in
    let ends : EndsWith b.terminal (seen ++ m ∷ more) = rw e at s.ends in
    ground (
      arith,
      newer_past run_id 0 (length seen) seen (m ∷ more) numbered (omega arith),
      length-append seen (m ∷ more),
      yield_batch_numbered run_id (0 + length seen) b.terminal (m ∷ more)
          (IsNumbered-past run_id 0 seen (m ∷ more) numbered)
          (EndsWith-past b.terminal seen m more ends),
    )

-- Each state of the buffer holds the events of the state before it, and events behind them.
pub data Grows (run_id : String) : List RunEvent → List RunBuffer → Type 0 where
  stopped : {seen : List RunEvent} → Grows run_id seen []
  grown :
      {seen : List RunEvent} {b : RunBuffer} {bs : List RunBuffer} (more : List RunEvent)
      → IsSound run_id b
      → b.events ≡ seen ++ more
      → Grows run_id b.events bs
      → Grows run_id seen (b ∷ bs)

unfoldable pub final : List RunEvent → List RunBuffer → List RunEvent
final seen [] = seen
final seen (b ∷ bs) = final b.events bs

-- A run that has ended keeps its history.
closed_final :
    (run_id : String) (es : List RunEvent) (bs : List RunBuffer)
    → Grows run_id es bs
    → EndsWith true es
    → final es bs ≡ es
unfolding final
closed_final run_id es [] (stopped) h = refl
closed_final run_id es (b ∷ bs) (grown [] s e g) h =
    let same : b.events ≡ es = e ∙ append-nil es in
    let ends : EndsWith true b.events = rw same h in closed_final run_id b.events bs g ends ∙ same
closed_final run_id es (b ∷ bs) (grown (m ∷ more) s e g) h =
    let ends : EndsWith b.terminal (es ++ m ∷ more) = rw e at s.ends in
    let none = EndsWith-closed b.terminal es (m ∷ more) h ends in absurd (ground arith)

stream_idle :
    (run_id : String) (b : RunBuffer) (bs : List RunBuffer) (seen : List RunEvent)
    → IsSound run_id b
    → b.events ≡ seen ++ []
    → stream (length seen) (b ∷ bs) ≡ (if b.terminal then [] else stream (length seen) bs)
unfolding stream
stream_idle run_id b bs seen s e = ground (arith, round_idle run_id b seen s e)

stream_delivers :
    (run_id : String) (b : RunBuffer) (bs : List RunBuffer) (seen : List RunEvent) (m : RunEvent)
    (more : List RunEvent)
    → IsSound run_id b
    → b.events ≡ seen ++ m ∷ more
    → stream (length seen) (b ∷ bs)
      ≡ (m ∷ more) ++ (if b.terminal then [] else stream (length b.events) bs)
unfolding stream
stream_delivers run_id b bs seen m more s e =
    ground (arith, round_delivers run_id b seen m more s e)

replays_idle_ended :
    (run_id : String) (b : RunBuffer) (bs : List RunBuffer) (seen : List RunEvent)
    → IsSound run_id b
    → b.events ≡ seen ++ []
    → b.terminal ≡ true
    → final b.events bs ≡ b.events
    → seen ++ stream (length seen) (b ∷ bs) ≡ final b.events bs
replays_idle_ended run_id b bs seen s e t f =
    let step = stream_idle run_id b bs seen s e in ground arith

replays_idle :
    (run_id : String) (b : RunBuffer) (bs : List RunBuffer) (seen : List RunEvent)
    → IsSound run_id b
    → b.events ≡ seen ++ []
    → b.terminal ≡ false
    → b.events ++ stream (length b.events) bs ≡ final b.events bs
    → seen ++ stream (length seen) (b ∷ bs) ≡ final b.events bs
replays_idle run_id b bs seen s e t f =
    let step = stream_idle run_id b bs seen s e in
    let same : b.events ≡ seen = e ∙ append-nil seen in ground arith

replays_ended :
    (run_id : String) (b : RunBuffer) (bs : List RunBuffer) (seen : List RunEvent) (m : RunEvent)
    (more : List RunEvent)
    → IsSound run_id b
    → b.events ≡ seen ++ m ∷ more
    → b.terminal ≡ true
    → final b.events bs ≡ b.events
    → seen ++ stream (length seen) (b ∷ bs) ≡ final b.events bs
replays_ended run_id b bs seen m more s e t f =
    let step = stream_delivers run_id b bs seen m more s e in
    let nothing = append-nil (m ∷ more) in ground arith

replays_on :
    (run_id : String) (b : RunBuffer) (bs : List RunBuffer) (seen : List RunEvent) (m : RunEvent)
    (more : List RunEvent)
    → IsSound run_id b
    → b.events ≡ seen ++ m ∷ more
    → b.terminal ≡ false
    → b.events ++ stream (length b.events) bs ≡ final b.events bs
    → seen ++ stream (length seen) (b ∷ bs) ≡ final b.events bs
replays_on run_id b bs seen m more s e t f =
    let step = stream_delivers run_id b bs seen m more s e in
    let joined = append_assoc seen (m ∷ more) (stream (length b.events) bs) in ground arith

-- Whatever sound states the buffer goes through while it only grows, a stream that starts behind any part of the
-- history yields what the last of these states holds behind that part: nothing is lost, repeated or
-- out of order, also when the stream returns at the end of the run.
pub stream_replays :
    (run_id : String) (seen : List RunEvent) (bs : List RunBuffer)
    → Grows run_id seen bs
    → seen ++ stream (length seen) bs ≡ final seen bs
unfolding final stream
stream_replays run_id seen [] (stopped) = append-nil seen
stream_replays run_id seen (b ∷ bs) (grown [] s e g) = elim (Bool-cases b.terminal) [
  | inl t ↦
      replays_idle_ended run_id b bs seen s e t (closed_final run_id b.events bs g (rw t at s.ends))
  | inr t ↦ replays_idle run_id b bs seen s e t (stream_replays run_id b.events bs g)
]
stream_replays run_id seen (b ∷ bs) (grown (m ∷ more) s e g) = elim (Bool-cases b.terminal) [
  | inl t ↦
      replays_ended run_id b bs seen m more s e t
        (closed_final run_id b.events bs g (rw t at s.ends))
  | inr t ↦ replays_on run_id b bs seen m more s e t (stream_replays run_id b.events bs g)
]
