-- ===== src/Progress/Tailer/Single.antt =====
-- server-setup/progress-tailer.ts: deliveries follow each other, and lose and repeat nothing.
use ai_support_agent_cli.Common.{
  ℕ, suc, ◌-◌, ◌≤◌, Bool, true, false, ◌||◌, Option, List, [], ◌∷◌, ◌++◌, ◌≡◌, refl, sym, ◌∙◌,
  arith, inl, inr, Bool-cases, if_elim, length, take, All, append-nil,
}
use ai_support_agent_cli.Common.Text.{Text}
use ai_support_agent_cli.Progress.{Json, Look, Reader, consume, read}
use ai_support_agent_cli.Progress.Chunks.{Shows, UpTo, read-UpTo, read-within, reads_nothing}
use ai_support_agent_cli.Progress.Tailer.{
  Flow, idle, sending, polling, Final, running, joining, draining, finished, Tail, started, poll,
  hand_over, deliver, land, return, on_tick, drain, over, on_sent, on_polled, stop, Event, ticks,
  sent_settles, poll_settles, stops, step, run,
}

abbrev pub busy : Flow → Bool
busy idle = false
busy sending = true
busy polling = true

abbrev pub calls_in : Flow → ℕ
calls_in idle = 0
calls_in sending = 1
calls_in polling = 0

-- The two flags, from what is under way and how far `stop` has come.
abbrev pub Flags : Final → Bool → Bool → Bool → Type 0
Flags running stopped in_flight b = (stopped ≡ false) × (in_flight ≡ b)
Flags joining stopped in_flight b = (stopped ≡ true) × (in_flight ≡ true) × (b ≡ true)
Flags draining stopped in_flight b = (stopped ≡ true) × (in_flight ≡ false) × (b ≡ true)
Flags finished stopped in_flight b = (stopped ≡ true) × (in_flight ≡ false) × (b ≡ false)

abbrev pub FlagsOf : Tail → Type 0
FlagsOf t = Flags t.final t.stopped t.in_flight (busy t.flow)

abbrev pub look_of : Event → Look
look_of (ticks look) = look
look_of (sent_settles look) = look
look_of (poll_settles look) = look
look_of (stops look) = look

pub Flags-running :
    (f : Final) (stopped landed b : Bool) → Flags f stopped landed b → stopped ≡ false → f ≡ running
Flags-running running stopped landed b h e = refl
Flags-running joining stopped landed b (s, r, k) e = cc
Flags-running draining stopped landed b (s, r, k) e = cc
Flags-running finished stopped landed b (s, r, k) e = cc

pub flow_idle : (f : Flow) → busy f ≡ false → f ≡ idle
flow_idle idle h = refl
flow_idle sending h = cc
flow_idle polling h = cc

module _ (parse_json : Text → Option Json) (has_poll : Bool) (file : List ℕ) where
  -- What has been read and handed over agrees with the file.
  abbrev pub Faithful : Reader → List Json → Type 0
  Faithful r events = UpTo parse_json file r events × (r.offset ≤ length file)

  abbrev pub Sound : Tail → Type 0
  Sound t = (t.calls ≡ calls_in t.flow) × FlagsOf t × Faithful t.reader t.sent

  -- A delivery, from what it does in either case.
  pub deliver_elim {ℓ} :
      (P : Tail → Type ℓ) (over : Tail → Tail) (look : Look) (t : Tail)
      → Shows file look
      → Faithful t.reader t.sent
      → ((r : Reader)
          → r ≡ (read parse_json look t.reader).0
          → Faithful r t.sent
          → P (poll parse_json has_poll over (record t { reader = r })))
      → ((r : Reader) (events : List Json)
          → r ≡ (read parse_json look t.reader).0
          → Faithful r events
          → P (record t { reader = r; flow = sending; calls = suc t.calls; sent = events }))
      → P (deliver parse_json has_poll over look t)
  unfolding deliver
  deliver_elim P over look t shows (up, within) none_new some_new =
      cases (read parse_json look t.reader).1 refl
    where
      after :
          Faithful (read parse_json look t.reader).0 (t.sent ++ (read parse_json look t.reader).1)
      after = (
        read-UpTo parse_json file look t.reader t.sent shows up,
        read-within parse_json file look t.reader shows within,
      )

      cases :
          (events : List Json)
          → (read parse_json look t.reader).1 ≡ events
          → P (hand_over parse_json has_poll over ((read parse_json look t.reader).0, events) t)
      cases [] e = none_new _ refl (rw (e, append-nil t.sent) at after)
      cases (x ∷ events) e = some_new _ _ refl (rw e at after)

  poll-Sound :
      (over : Tail → Tail) (t : Tail)
      → Sound (record t { flow = polling })
      → Sound (over t)
      → Sound (poll parse_json has_poll over t)
  poll-Sound over t h k = elim (Bool-cases has_poll) [ inl e ↦ rw e h | inr e ↦ rw e k ]

  tick-Sound :
      (look : Look) (t : Tail)
      → Shows file look
      → Sound t
      → Sound (on_tick parse_json has_poll look t)
  unfolding on_tick
  tick-Sound look t shows (calls, flags, ok) = elim (Bool-cases (t.in_flight || t.stopped)) [
    | inl e ↦ rw e (calls, flags, ok)
    | inr e ↦
        let open_now : t.stopped ≡ false = ground arith in
        let run_now = Flags-running t.final t.stopped t.in_flight (busy t.flow) flags open_now in
        let flags' = rw run_now at flags in
        let flow_now = flow_idle t.flow (ground arith) in
        let none_out : t.calls ≡ 0 = rw flow_now at calls in
        let begun = record t { in_flight = true } in
        rw e (
          deliver_elim Sound (land parse_json has_poll) look begun shows ok
            (λ r same good.
              poll-Sound (land parse_json has_poll) (record begun { reader = r })
                (none_out, rw run_now (open_now, refl), good)
                (none_out, rw run_now (open_now, refl), good))
            (λ r events same good. (rw none_out refl, rw run_now (open_now, refl), good)))
  ]

  drain-Sound :
      (look : Look) (t : Tail)
      → Shows file look
      → t.calls ≡ 0
      → t.stopped ≡ true
      → t.in_flight ≡ false
      → Faithful t.reader t.sent
      → Sound (drain parse_json has_poll look t)
  unfolding drain
  drain-Sound look t shows none_out stopped landed ok =
      let begun = record t { final = draining } in
      deliver_elim Sound (return parse_json has_poll) look begun shows ok
        (λ r same good.
          poll-Sound (return parse_json has_poll) (record begun { reader = r })
            (none_out, (stopped, landed, refl), good) (none_out, (stopped, landed, refl), good))
        (λ r events same good. (rw none_out refl, (stopped, landed, refl), good))

  over-Sound :
      (f : Final) (look : Look) (t : Tail)
      → Shows file look
      → t.final ≡ f
      → Flags f t.stopped t.in_flight (busy t.flow)
      → t.calls ≡ 0
      → busy t.flow ≡ true
      → Faithful t.reader t.sent
      → Sound (over parse_json has_poll f look t)
  unfolding over
  over-Sound running look t shows at (s, r) none_out b ok = (none_out, rw at (s, refl), ok)
  over-Sound joining look t shows at (s, r, b') none_out b ok =
      drain-Sound look (land parse_json has_poll t) shows none_out s refl ok
  over-Sound draining look t shows at (s, r, b') none_out b ok = (none_out, (s, r, refl), ok)
  over-Sound finished look t shows at (s, r, b') none_out b ok = cc

  sent-Sound :
      (f : Flow) (look : Look) (t : Tail)
      → Shows file look
      → t.flow ≡ f
      → Sound t
      → Sound (on_sent parse_json has_poll f look t)
  unfolding on_sent
  sent-Sound sending look t shows at (calls, flags, ok) =
      let settled = record t { calls = t.calls - 1 } in
      let none_out : t.calls - 1 ≡ 0 = rw (calls, at) refl in
      poll-Sound (over parse_json has_poll t.final look) settled (none_out, rw at at flags, ok)
        (over-Sound t.final look settled shows refl flags none_out (rw at refl) ok)
  sent-Sound idle look t shows at h = h
  sent-Sound polling look t shows at h = h

  polled-Sound :
      (f : Flow) (look : Look) (t : Tail)
      → Shows file look
      → t.flow ≡ f
      → Sound t
      → Sound (on_polled parse_json has_poll f look t)
  unfolding on_polled
  polled-Sound polling look t shows at (calls, flags, ok) =
      over-Sound t.final look t shows refl flags (rw at at calls) (rw at refl) ok
  polled-Sound idle look t shows at h = h
  polled-Sound sending look t shows at h = h

  stop-Sound :
      (look : Look) (t : Tail) → Shows file look → Sound t → Sound (stop parse_json has_poll look t)
  unfolding stop
  stop-Sound look t shows (calls, flags, ok) =
      if_elim Sound t.stopped t _ (λ e. (calls, flags, ok))
        (λ e.
          let run_now = Flags-running t.final t.stopped t.in_flight (busy t.flow) flags e in
          let (open_now, busy_now) = rw run_now at flags in
          let stopping = record t { stopped = true; final = joining } in
          if_elim Sound t.in_flight stopping (drain parse_json has_poll look stopping)
            (λ out. (calls, (refl, out, sym busy_now ∙ out), ok))
            (λ none_out.
              drain-Sound look stopping shows
                (rw (flow_idle t.flow (sym busy_now ∙ none_out)) at calls) refl none_out ok))

  pub step-Sound :
      (t : Tail) (e : Event)
      → Shows file (look_of e)
      → Sound t
      → Sound (step parse_json has_poll t e)
  unfolding step
  step-Sound t (ticks look) shows h = tick-Sound look t shows h
  step-Sound t (sent_settles look) shows h = sent-Sound t.flow look t shows refl h
  step-Sound t (poll_settles look) shows h = polled-Sound t.flow look t shows refl h
  step-Sound t (stops look) shows h = stop-Sound look t shows h

  pub keeps-Sound :
      (t : Tail) (es : List Event)
      → All (λ e. Shows file (look_of e)) es
      → Sound t
      → Sound (run parse_json has_poll t es)
  unfolding run
  keeps-Sound t [] shows h = h
  keeps-Sound t (e ∷ es) (s, shows) h =
      keeps-Sound (step parse_json has_poll t e) es shows (step-Sound t e s h)

  pub started-Sound : Sound started
  started-Sound = (refl, (refl, refl), (reads_nothing parse_json file, omega arith))

  -- However ticks, the ends of calls and a call of `stop` follow each other, at most one call of `onEvents` has
  -- not settled, and the events given to these calls, one after the other, are those of the lines that
  -- are complete in what has been read of the file, each once and in order.
  pub run-single_flight :
      (es : List Event)
      → All (λ e. Shows file (look_of e)) es
      → let t = run parse_json has_poll started es in
        (t.calls ≤ 1)
        × (consume parse_json (take t.reader.offset file) ≡ (t.sent, t.reader.leftover))
  run-single_flight es shows =
      let t = run parse_json has_poll started es in
      let (calls, flags, (up, within)) = keeps-Sound started es shows started-Sound in
      (at_most_one t.flow calls, up)
    where
      at_most_one : {n : ℕ} (f : Flow) → n ≡ calls_in f → n ≤ 1
      at_most_one idle e = omega arith
      at_most_one sending e = omega arith
      at_most_one polling e = omega arith
