-- ===== src/Progress/Tailer/Draining.antt =====
-- server-setup/progress-tailer.ts: `stop` returns, and by then all that was written has been handed over.
use ai_support_agent_cli.Common.{
  ℕ, ◌+◌, ◌-◌, ◌≤◌, Bool, true, false, Option, List, [], ◌∷◌, ◌≡◌, refl, sym, ◌∙◌, some-inj,
  append-nil, arith, if_elim, length, All,
}
use ai_support_agent_cli.Common.Text.{Text}
use ai_support_agent_cli.Progress.{Json, Look, Reader, consume, max_read_chunk_bytes}
use ai_support_agent_cli.Progress.Chunks.{Shows, Whole, read-catches_up}
use ai_support_agent_cli.Progress.Tailer.{
  Flow, idle, sending, polling, Final, running, joining, draining, finished, Tail, started, land,
  return, drain, over, on_sent, on_polled, stop, Event, sent_settles, poll_settles, stops, step,
  run,
}
use ai_support_agent_cli.Progress.Tailer.Ranks.{
  rank, rank_sent, rank_polled, joining_rank, rank_zero, rank_sent-le, rank_polled-le, take_all,
}
use ai_support_agent_cli.Progress.Tailer.Single.{
  Sound, Faithful, Flags, busy, look_of, deliver_elim, Flags-running, flow_idle, keeps-Sound,
  step-Sound, started-Sound,
}

module _ (parse_json : Text → Option Json) (has_poll : Bool) (file : List ℕ) where
  -- One read is enough, or has been made.
  abbrev Caught : Final → Reader → Type 0
  Caught joining r = length file ≤ r.offset + max_read_chunk_bytes
  Caught draining r = r.offset ≡ length file
  Caught finished r = r.offset ≡ length file
  Caught running r = ⊥

  abbrev Good : ℕ → Tail → Type 0
  Good n t = (rank t.final t.flow ≤ n) × Caught t.final t.reader

  Whole-Shows : (look : Look) → Whole file look → Shows file look
  Whole-Shows look (size, there) content e =
      ([], some-inj (sym there ∙ e) ∙ sym (append-nil content))

  drain-Good :
      (look : Look) (t : Tail)
      → Whole file look
      → Faithful parse_json has_poll file t.reader t.sent
      → length file ≤ t.reader.offset + max_read_chunk_bytes
      → Good 2 (drain parse_json has_poll look t)
  unfolding drain
  drain-Good look t whole ok small =
      let begun = record t { final = draining } in
      let caught = read-catches_up parse_json file look t.reader whole ok.1 small in
      deliver_elim parse_json has_poll file (Good 2) (return parse_json has_poll) look begun
        (Whole-Shows look whole) ok
        (λ r same good.
          if_elim (Good 2) has_poll (record begun { reader = r; flow = polling })
            (return parse_json has_poll (record begun { reader = r }))
            (λ e. (omega arith, rw same caught)) (λ e. (omega arith, rw same caught)))
        (λ r events same good. (omega arith, rw same caught))

  abbrev rank_over : Final → ℕ
  rank_over joining = 2
  rank_over draining = 0
  rank_over finished = 0
  rank_over running = 0

  weaken : {n m : ℕ} (t : Tail) → n ≤ m → Good n t → Good m t
  weaken t le (r, c) = (omega arith, c)

  module _ (look : Look) (whole : Whole file look) where
    over-Good :
        (g : Final) (t : Tail)
        → t.final ≡ g
        → Flags g t.stopped t.in_flight true
        → Caught g t.reader
        → Faithful parse_json has_poll file t.reader t.sent
        → Good (rank_over g) (over parse_json has_poll g look t)
    unfolding over
    over-Good joining t at flags caught ok =
        drain-Good look (land parse_json has_poll t) whole ok caught
    over-Good draining t at flags caught ok = (omega arith, caught)
    over-Good finished t at (s, l, no_flow) caught ok = cc
    over-Good running t at flags caught ok = absurd caught

    sent-Good :
        (f : Flow) (t : Tail)
        → t.flow ≡ f
        → Sound parse_json has_poll file t
        → Caught t.final t.reader
        → Good (rank_sent t.final f) (on_sent parse_json has_poll f look t)
    unfolding on_sent
    sent-Good sending t at (calls, flags, ok) caught =
        let settled = record t { calls = t.calls - 1 } in
        if_elim (Good (rank_sent t.final sending)) has_poll (record settled { flow = polling })
          (over parse_json has_poll t.final look settled) (λ e. (after_poll t.final, caught))
          (λ e.
            weaken (over parse_json has_poll t.final look settled) (after_over t.final)
              (over-Good t.final settled refl (rw at at flags) caught ok))
      where
        after_poll : (g : Final) → rank g polling ≤ rank_sent g sending
        after_poll running = omega arith
        after_poll joining = omega arith
        after_poll draining = omega arith
        after_poll finished = omega arith

        after_over : (g : Final) → rank_over g ≤ rank_sent g sending
        after_over running = omega arith
        after_over joining = omega arith
        after_over draining = omega arith
        after_over finished = omega arith
    sent-Good idle t at h caught = (rw at (same t.final), caught)
      where
        same : (g : Final) → rank g idle ≤ rank_sent g idle
        same running = omega arith
        same joining = omega arith
        same draining = omega arith
        same finished = omega arith
    sent-Good polling t at h caught = (rw at (same t.final), caught)
      where
        same : (g : Final) → rank g polling ≤ rank_sent g polling
        same running = omega arith
        same joining = omega arith
        same draining = omega arith
        same finished = omega arith

    polled-Good :
        (f : Flow) (t : Tail)
        → t.flow ≡ f
        → Sound parse_json has_poll file t
        → Caught t.final t.reader
        → Good (rank_polled t.final f) (on_polled parse_json has_poll f look t)
    unfolding on_polled
    polled-Good polling t at (calls, flags, ok) caught =
        weaken (over parse_json has_poll t.final look t) (after_over t.final)
          (over-Good t.final t refl (rw at at flags) caught ok)
      where
        after_over : (g : Final) → rank_over g ≤ rank_polled g polling
        after_over running = omega arith
        after_over joining = omega arith
        after_over draining = omega arith
        after_over finished = omega arith
    polled-Good idle t at h caught = (rw at (same t.final), caught)
      where
        same : (g : Final) → rank g idle ≤ rank_polled g idle
        same running = omega arith
        same joining = omega arith
        same draining = omega arith
        same finished = omega arith
    polled-Good sending t at h caught = (rw at (same t.final), caught)
      where
        same : (g : Final) → rank g sending ≤ rank_polled g sending
        same running = omega arith
        same joining = omega arith
        same draining = omega arith
        same finished = omega arith

    stop-Good :
        (t : Tail)
        → Sound parse_json has_poll file t
        → t.stopped ≡ false
        → length file ≤ t.reader.offset + max_read_chunk_bytes
        → Good 4 (stop parse_json has_poll look t)
    unfolding stop
    stop-Good t (calls, flags, ok) open_now small =
        let run_now = Flags-running t.final t.stopped t.in_flight (busy t.flow) flags open_now in
        let (s, busy_now) = rw run_now at flags in
        let stopping = record t { stopped = true; final = joining } in
        if_elim (Good 4) t.stopped t _ (λ e. cc)
          (λ e.
            if_elim (Good 4) t.in_flight stopping (drain parse_json has_poll look stopping)
              (λ out. (joining_rank t.flow (sym busy_now ∙ out), small))
              (λ none_out.
                weaken (drain parse_json has_poll look stopping) (omega arith)
                  (drain-Good look stopping whole ok small)))

    returned :
        (t : Tail)
        → Sound parse_json has_poll file t
        → Good 0 t
        → (t.final ≡ finished)
          × (t.calls ≡ 0)
          × (consume parse_json file ≡ (t.sent, t.reader.leftover))
    returned t (calls, flags, (up, within)) (none_left, caught) =
        let over_now = rank_zero t.final t.flow none_left in
        let read_all : t.reader.offset ≡ length file = rw over_now at caught in
        let (stopped, landed, no_flow) = rw over_now at flags in
        (over_now, rw (flow_idle t.flow no_flow) at calls, rw (read_all, take_all file) at up)

    abbrev pub stopping_events : List Event
    stopping_events =
        stops look
        ∷ sent_settles look
        ∷ poll_settles look
        ∷ sent_settles look
        ∷ poll_settles look
        ∷ []

    -- Say that `stop` is called for the first time, when nothing is appended to the file any more and what is
    -- left of it fits one read. Then `stop` returns as soon as the calls of `onEvents` and of `onPoll`
    -- that it waits for have ended, two of each at most, and by then `onEvents` has been given every
    -- event of a complete line of the file, once and in order.
    pub stop-delivers :
        (es : List Event)
        → All (λ e. Shows file (look_of e)) es
        → (run parse_json has_poll started es).stopped ≡ false
        → length file ≤ (run parse_json has_poll started es).reader.offset + max_read_chunk_bytes
        → let t = run parse_json has_poll (run parse_json has_poll started es) stopping_events in
          (t.final ≡ finished)
          × (t.calls ≡ 0)
          × (consume parse_json file ≡ (t.sent, t.reader.leftover))
    unfolding run step
    stop-delivers es shows open_now small =
        let t = run parse_json has_poll started es in
        let sound =
          keeps-Sound parse_json has_poll file started es shows
            (started-Sound parse_json has_poll file) in
        let seen = Whole-Shows look whole in
        let t1 = stop parse_json has_poll look t in
        let s1 = step-Sound parse_json has_poll file t (stops look) seen sound in
        let g1 = stop-Good t sound open_now small in
        let t2 = on_sent parse_json has_poll t1.flow look t1 in
        let s2 = step-Sound parse_json has_poll file t1 (sent_settles look) seen s1 in
        let g2 =
          weaken t2 ((rank_sent-le t1.final t1.flow).0 g1.0) (sent-Good t1.flow t1 refl s1 g1.1) in
        let t3 = on_polled parse_json has_poll t2.flow look t2 in
        let s3 = step-Sound parse_json has_poll file t2 (poll_settles look) seen s2 in
        let g3 =
          weaken t3 ((rank_polled-le t2.final t2.flow).0 g2.0)
            (polled-Good t2.flow t2 refl s2 g2.1) in
        let t4 = on_sent parse_json has_poll t3.flow look t3 in
        let s4 = step-Sound parse_json has_poll file t3 (sent_settles look) seen s3 in
        let g4 =
          weaken t4 ((rank_sent-le t3.final t3.flow).1 g3.0) (sent-Good t3.flow t3 refl s3 g3.1) in
        let t5 = on_polled parse_json has_poll t4.flow look t4 in
        let s5 = step-Sound parse_json has_poll file t4 (poll_settles look) seen s4 in
        let g5 =
          weaken t5 ((rank_polled-le t4.final t4.flow).1 g4.0)
            (polled-Good t4.flow t4 refl s4 g4.1) in
        returned t5 s5 g5
