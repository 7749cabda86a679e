-- ===== src/Progress/Tests.antt =====
-- The reader and the tailer at concrete inputs.
use ai_support_agent_cli.Common.{
  ℕ, ◌+◌, true, false, Option, some, List, [], ◌∷◌, ◌++◌, ◌≡◌, ◌≤◌, refl, arith, some-inj, length,
  take,
}
use ai_support_agent_cli.Common.Text.{Text, trim, is_space, split}
use ai_support_agent_cli.Progress.{
  Json, num, str, obj, field, end, Look, last_newline, is_progress_event, line_events, events_of,
  consume, take_in, read, max_read_chunk_bytes,
}
use ai_support_agent_cli.Progress.Chunks.{Shows}
use ai_support_agent_cli.Progress.Tailer.{
  finished, started, Event, ticks, sent_settles, poll_settles, stops, deliver, on_tick, on_sent,
  on_polled, over, drain, stop, step, run,
}
use ai_support_agent_cli.Progress.Tailer.Single.{run-single_flight}
use ai_support_agent_cli.Progress.Tailer.Draining.{stopping_events, stop-delivers}

-- Every text is this event.
abbrev event : Json
event = obj (field "seq" (num "1") (field "phase" (str "start") (field "name" (str "ping") end)))

abbrev parse : Text → Option Json
parse line = some event

-- Two lines and the beginning of a third.
abbrev file : List ℕ
file = 97 ∷ 10 ∷ 98 ∷ 98 ∷ 10 ∷ 99 ∷ []

abbrev early : Look
early = record { size = some 3; content = some (97 ∷ 10 ∷ 98 ∷ []) }

abbrev late : Look
late = record { size = some 6; content = some file }

early-Shows : Shows file early
early-Shows content e = (98 ∷ 10 ∷ 99 ∷ [], rest content (some-inj e))
  where
    rest : (c : List ℕ) → 97 ∷ 10 ∷ 98 ∷ [] ≡ c → file ≡ c ++ (98 ∷ 10 ∷ 99 ∷ [])
    rest c h = rw (← h) refl

abbrev one_tick : List Event
one_tick = ticks early ∷ []

run-single_flight_example :
    let t = run parse true started one_tick in
    (t.calls ≤ 1) × (consume parse (take t.reader.offset file) ≡ (t.sent, t.reader.leftover))
run-single_flight_example = run-single_flight parse true file one_tick (early-Shows, tt)

still_open : (run parse true started one_tick).stopped ≡ false
unfolding run step on_tick deliver read take_in consume last_newline events_of line_events split
    trim is_space is_progress_event
still_open = refl

fits : length file ≤ (run parse true started one_tick).reader.offset + max_read_chunk_bytes
fits = omega arith

stop-delivers_example :
    let t =
      run parse true
        (run parse true started one_tick)
        (stopping_events parse true file late (refl, refl)) in
    (t.final ≡ finished) × (t.calls ≡ 0) × (consume parse file ≡ (t.sent, t.reader.leftover))
stop-delivers_example =
    stop-delivers parse true file late (refl, refl) one_tick (early-Shows, tt) still_open fits

-- Both events are handed over, the second by the last read.
delivered_computed :
    (run parse true started
      (one_tick ++ (sent_settles early ∷ poll_settles early ∷ stops late ∷ []))).sent
    ≡ event ∷ event ∷ []
unfolding run step on_tick deliver on_sent on_polled over drain stop read take_in consume
    last_newline events_of line_events split trim is_space is_progress_event
delivered_computed = refl
