-- ===== src/Progress/Tailer.antt =====
-- server-setup/progress-tailer.ts, `startProgressTailer`: the polling of the file and the delivery of what
-- it gives. A call of `onEvents` or `onPoll` settles some time after it was made, whether it resolves
-- or rejects; what `deliver` does between two waits is one function here.

pub mod Single
pub mod Ranks
pub mod Draining
use ai_support_agent_cli.Common.{
  ℕ, suc, ◌+◌, ◌-◌, Bool, true, false, ◌||◌, Option, none, some, List, [], ◌∷◌, ◌++◌, if◌then◌else◌,
  is_empty,
}
use ai_support_agent_cli.Common.Text.{Text}
use ai_support_agent_cli.Progress.{Json, Look, Reader, fresh, read}

-- Where the delivery that is under way waits.
pub data Flow : Type 0 where
  idle : Flow
  sending : Flow
  polling : Flow

-- How far `stop` has come: not called, waiting for the delivery in flight, waiting for its own, returned.
pub data Final : Type 0 where
  running : Final
  joining : Final
  draining : Final
  finished : Final

-- `sent` are the events given to `onEvents` so far, `calls` the calls of it that have not settled.
pub record Tail : Type 0 where
  pub reader : Reader
  pub in_flight : Bool
  pub stopped : Bool
  pub flow : Flow
  pub final : Final
  pub calls : ℕ
  pub sent : List Json

abbrev pub started : Tail
started = record {
  reader = fresh;
  in_flight = false;
  stopped = false;
  flow = idle;
  final = running;
  calls = 0;
  sent = [];
}

pub data Event : Type 0 where
  ticks : Look → Event
  sent_settles : Look → Event
  poll_settles : Look → Event
  stops : Look → Event

module _ (parse_json : Text → Option Json) (has_poll : Bool) where
  -- `deliver` after its call of `onEvents`; `over` is what happens when it ends.
  abbrev pub poll : (Tail → Tail) → Tail → Tail
  poll over t = if has_poll then record t { flow = polling } else over t

  abbrev pub hand_over : (Tail → Tail) → Reader × List Json → Tail → Tail
  hand_over over (r, events) t =
      if is_empty events
      then poll over (record t { reader = r })
      else record t { reader = r; flow = sending; calls = suc t.calls; sent = t.sent ++ events }

  unfoldable pub deliver : (Tail → Tail) → Look → Tail → Tail
  deliver over look t = hand_over over (read parse_json look t.reader) t

  -- The `finally` of a tick.
  abbrev pub land : Tail → Tail
  land t = record t { in_flight = false; flow = idle }

  abbrev pub return : Tail → Tail
  return t = record t { flow = idle; final = finished }

  unfoldable pub on_tick : Look → Tail → Tail
  unfolding deliver
  on_tick look t =
      if t.in_flight || t.stopped then t else deliver land look (record t { in_flight = true })

  unfoldable pub drain : Look → Tail → Tail
  unfolding deliver
  drain look t = deliver return look (record t { final = draining })

  -- The delivery under way ends.
  unfoldable pub over : Final → Look → Tail → Tail
  unfolding drain
  over running look t = land t
  over joining look t = drain look (land t)
  over draining look t = return t
  over finished look t = t

  unfoldable pub on_sent : Flow → Look → Tail → Tail
  unfolding over
  on_sent sending look t = poll (over t.final look) (record t { calls = t.calls - 1 })
  on_sent idle look t = t
  on_sent polling look t = t

  unfoldable pub on_polled : Flow → Look → Tail → Tail
  unfolding over
  on_polled polling look t = over t.final look t
  on_polled idle look t = t
  on_polled sending look t = t

  unfoldable pub stop : Look → Tail → Tail
  unfolding drain
  stop look t =
      if t.stopped
      then t
      else let t' = record t { stopped = true; final = joining } in
        if t.in_flight then t' else drain look t'

  -- One event, with the file as it is then.
  unfoldable pub step : Tail → Event → Tail
  unfolding on_tick on_sent on_polled stop
  step t (ticks look) = on_tick look t
  step t (sent_settles look) = on_sent t.flow look t
  step t (poll_settles look) = on_polled t.flow look t
  step t (stops look) = stop look t

  unfoldable pub run : Tail → List Event → Tail
  unfolding step
  run t [] = t
  run t (e ∷ es) = run (step t e) es
