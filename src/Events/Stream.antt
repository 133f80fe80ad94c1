-- ===== src/Events/Stream.antt =====
-- `_stream_buffer` of runtime/events.py: each round takes the events past the cursor under the
-- buffer's lock and yields them without it; a round that finds none waits, or ends a closed run.
pub mod Replay
mod Tests
use governed_analytics_agent.Common.{
  ℕ, zero, suc, ◌+◌, ◌-◌, ◌≤◌, ◌<◌, ◌≡◌, refl, sym, ap, ◌∙◌, String, Bool, true, false, List, [],
  ◌∷◌, ◌++◌, arith, leb, ltb, str_eq, if◌then◌else◌, length, drop, Bool-cases, inl, inr,
}
use governed_analytics_agent.Events.Record.{RunEvent}
use governed_analytics_agent.Events.Store.{RunBuffer}
use governed_analytics_agent.Events.Store.Invariant.{IsSound, IsNumbered, EndsWith, is_terminal}

-- `tuple(event for event in buffer.events if event.sequence > cursor)`
unfoldable pub newer : ℕ → List RunEvent → List RunEvent
newer cursor [] = []
newer cursor (e ∷ es) = if ltb cursor e.sequence then e ∷ newer cursor es else newer cursor es

-- What a round yields, the cursor after it, and whether the stream returned.
pub record Yield : Type 0 where
  pub yielded : List RunEvent
  pub cursor : ℕ
  pub ended : Bool

-- The inner loop over a batch.
unfoldable pub yield_batch : ℕ → List RunEvent → Yield
yield_batch cursor [] = record { yielded = []; cursor = cursor; ended = false }
yield_batch cursor (e ∷ es) =
    let rest = yield_batch e.sequence es in
    let skip = yield_batch cursor es in
    let last : Yield = record { yielded = e ∷ []; cursor = e.sequence; ended = true } in
    if leb e.sequence cursor
    then skip
    else if is_terminal e
    then last
    else record rest { yielded = e ∷ rest.yielded }

pub data Round : Type 0 where
  lost finished waiting : Round
  delivered : Yield → Round

unfoldable pub round : RunBuffer → ℕ → Round
unfolding newer yield_batch
round b cursor = if b.deleted then lost else elim (newer cursor b.events) [
  | [] ↦ if b.terminal then finished else waiting
  | e ∷ es ↦ delivered (yield_batch cursor (e ∷ es))
]

-- The events that a stream yields over the states of the buffer that its rounds see.
unfoldable pub stream : ℕ → List RunBuffer → List RunEvent
unfolding round
stream cursor [] = []
stream cursor (b ∷ bs) = elim (round b cursor) [
  | lost ↦ []
  | finished ↦ []
  | waiting ↦ stream cursor bs
  | delivered y ↦ y.yielded ++ (if y.ended then [] else stream y.cursor bs)
]
