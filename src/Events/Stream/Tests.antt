-- ===== src/Events/Stream/Tests.antt =====
-- A stream over a run that grows by two events, opened at its beginning and reconnected behind the
-- first event.
use governed_analytics_agent.Common.{◌≡◌, refl, true, false, none, List, [], ◌∷◌, ◌++◌}
use governed_analytics_agent.Common.Decimal.{decimal, digits_before}
use governed_analytics_agent.Events.Record.{RunEvent, event_id_of}
use governed_analytics_agent.Events.Store.{RunBuffer}
use governed_analytics_agent.Events.Store.Invariant.{IsSound}
use governed_analytics_agent.Events.Stream.{newer, yield_batch, round, stream}
use governed_analytics_agent.Events.Stream.Replay.{Grows, stopped, grown, final, stream_replays}

program : Unit {0}
unfolding newer yield_batch round stream final event_id_of decimal digits_before
program = tt

abbrev first : RunEvent
first = record {
  event_id = event_id_of "run-1" 1;
  sequence = 1;
  run_id = "run-1";
  timestamp = 5;
  node = "runtime";
  type = "run.created";
  frozen = [];
}

abbrev last : RunEvent
last = record first { event_id = event_id_of "run-1" 2; sequence = 2; type = "run.terminal" }

abbrev waiting_buffer : RunBuffer
waiting_buffer = record {
  events = first ∷ [];
  terminal = false;
  started = false;
  active_streams = 1;
  deleted = false;
  owner_token = none;
}

abbrev closed_buffer : RunBuffer
closed_buffer = record waiting_buffer { events = first ∷ last ∷ []; terminal = true }

abbrev states : List RunBuffer
states = waiting_buffer ∷ closed_buffer ∷ []

reconnects : stream 1 states ≡ last ∷ []
unfolding program
reconnects = refl

waiting-IsSound : IsSound "run-1" waiting_buffer
waiting-IsSound = record {
  numbered = (refl, refl, refl, tt);
  ends = refl;
  starts = refl;
  kept = refl;
}

closed-IsSound : IsSound "run-1" closed_buffer
closed-IsSound = record {
  numbered = (refl, refl, refl, (refl, refl, refl, tt));
  ends = (refl, refl);
  starts = refl;
  kept = refl;
}

states-Grows : Grows "run-1" [] states
states-Grows =
    grown (first ∷ []) waiting-IsSound refl (grown (last ∷ []) closed-IsSound refl stopped)

stream_replays_example : [] ++ stream 0 states ≡ first ∷ last ∷ []
unfolding program
stream_replays_example = stream_replays "run-1" [] states states-Grows
