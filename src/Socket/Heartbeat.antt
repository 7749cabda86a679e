-- ===== src/Socket/Heartbeat.antt =====
-- base-websocket.ts: the heartbeat, `startHeartbeat` and `stopHeartbeat`. A tick of the interval and
-- the arrival of a pong are the events.
use ai_support_agent_cli.Common.{
  ℕ, zero, suc, ◌+◌, ◌≤◌, ◌<◌, Bool, true, false, not, ◌&&◌, List, [], ◌∷◌, arith, ◌≡◌, ◌⊎◌, inl,
  inr, refl, Bool-cases, if◌then◌else◌, leb,
}

-- `first_tick` is the variable of the closure; `pings` counts the pings sent.
pub record Heart : Type 0 where
  pub ticking : Bool
  pub first_tick : Bool
  pub alive : Bool
  pub missed : ℕ
  pub pings : ℕ
  pub terminated : Bool

-- `tick open` is a tick at which the socket is open or not.
pub data Beat : Type 0 where
  tick : Bool → Beat
  pong : Beat

unfoldable pub stop_heartbeat : Heart → Heart
stop_heartbeat h = record h { ticking = false; alive = false; missed = 0 }

-- `interval_positive` says whether the interval is above 0.
unfoldable pub start_heartbeat : Bool → Heart → Heart
unfolding stop_heartbeat
start_heartbeat interval_positive h =
    if interval_positive then record (stop_heartbeat h) { ticking = true; first_tick = true } else h

abbrev ping : Heart → Heart
ping h = record h { alive = false; pings = suc h.pings }

-- The tests of one tick at which the socket is open.
unfoldable open_tick : ℕ → Heart → Heart
open_tick max_missed h =
    if h.first_tick
    then ping (record h { first_tick = false })
    else if not h.alive
    then (if leb max_missed (suc h.missed)
        then record h { missed = suc h.missed; terminated = true }
        else ping (record h { missed = suc h.missed }))
    else ping (record h { missed = 0 })

-- After `terminate` the socket is no longer open, so no tick does anything.
unfoldable pub on_beat : ℕ → Heart → Beat → Heart
unfolding open_tick
on_beat max_missed h pong = record h { alive = true }
on_beat max_missed h (tick is_open) =
    if h.ticking && (is_open && not h.terminated) then open_tick max_missed h else h

unfoldable pub beats : ℕ → Heart → List Beat → Heart
beats max_missed h [] = h
beats max_missed h (b ∷ bs) = beats max_missed (on_beat max_missed h b) bs

abbrev pub resting : Heart
resting = record {
  ticking = false;
  first_tick = true;
  alive = false;
  missed = 0;
  pings = 0;
  terminated = false;
}

-- `n` ticks on an open socket with no pong.
abbrev pub silence : ℕ → List Beat
silence zero = []
silence (suc n) = tick true ∷ silence n

-- `n` ticks on an open socket, each answered by a pong before the next.
abbrev pub answered : ℕ → List Beat
answered zero = []
answered (suc n) = tick true ∷ pong ∷ answered n

terminated_stays :
    (max_missed n : ℕ) (h : Heart)
    → h.terminated ≡ true
    → (beats max_missed h (silence n)).terminated ≡ true
unfolding beats on_beat
terminated_stays max_missed zero h e = e
terminated_stays max_missed (suc n) h e =
    terminated_stays max_missed n (on_beat max_missed h (tick true)) (ground (arith, e))

-- A ticking heart on an open socket.
abbrev Beating : Heart → Type 0
Beating h = (h.ticking ≡ true) × (h.first_tick ≡ false) × (h.terminated ≡ false)

unanswered_kills :
    (max_missed : ℕ) (h : Heart)
    → Beating h
    → h.alive ≡ false
    → max_missed ≤ suc h.missed
    → (on_beat max_missed h (tick true)).terminated ≡ true
unfolding on_beat open_tick
unanswered_kills max_missed h (t, f, e) a le = ground arith

unanswered_pings :
    (max_missed : ℕ) (h : Heart)
    → Beating h
    → h.alive ≡ false
    → suc h.missed < max_missed
    → on_beat max_missed h (tick true) ≡ ping (record h { missed = suc h.missed })
unfolding on_beat open_tick
unanswered_pings max_missed h (t, f, e) a lt = ground arith

silent_ticks :
    (max_missed n : ℕ) (h : Heart)
    → Beating h
    → h.alive ≡ false
    → (h.missed + n < max_missed → (beats max_missed h (silence n)).terminated ≡ false)
      × (h.missed < max_missed
          → max_missed ≤ h.missed + n
          → (beats max_missed h (silence n)).terminated ≡ true)
unfolding beats
silent_ticks max_missed zero h (t, f, e) a = (λ lt. e, λ lt le. absurd (omega arith))
silent_ticks max_missed (suc n) h (t, f, e) a = elim (Bool-cases (leb max_missed (suc h.missed))) [
  | inl dead ↦ (
    λ lt. absurd (ground arith),
    λ lt le.
        terminated_stays max_missed n (on_beat max_missed h (tick true))
          (unanswered_kills max_missed h (t, f, e) a (ground arith)),
  )
  | inr more ↦
      let (kept, ended) =
        silent_ticks max_missed n (ping (record h { missed = suc h.missed })) (t, f, e) refl in
      rw (beats, unanswered_pings max_missed h (t, f, e) a (ground arith))
        (λ lt. kept (omega arith), λ lt le. ended (ground arith) (omega arith))
]

abbrev after_first : Heart → Heart
after_first h = record h {
  ticking = true;
  first_tick = false;
  alive = false;
  missed = 0;
  pings = suc h.pings;
}

first_pings :
    (max_missed : ℕ) (h : Heart)
    → h.terminated ≡ false
    → on_beat max_missed (start_heartbeat true h) (tick true) ≡ after_first h
unfolding on_beat open_tick start_heartbeat stop_heartbeat
first_pings max_missed h e = rw e refl

started_open : (h : Heart) → h.terminated ≡ false → (start_heartbeat true h).terminated ≡ false
unfolding start_heartbeat stop_heartbeat
started_open h e = e

-- Once the heartbeat runs on an open socket, the connection survives `n` ticks without a pong as long
-- as n is at most the number of misses allowed, and is terminated by the tick after that and stays so.
pub beats-silence :
    (max_missed n : ℕ) (h : Heart)
    → 0 < max_missed
    → h.terminated ≡ false
    → (n ≤ max_missed → (beats max_missed (start_heartbeat true h) (silence n)).terminated ≡ false)
      × (max_missed < n → (beats max_missed (start_heartbeat true h) (silence n)).terminated ≡ true)
unfolding beats
beats-silence max_missed zero h pos e = (λ _. started_open h e, λ lt. absurd (omega arith))
beats-silence max_missed (suc n) h pos e =
    let (kept, ended) = silent_ticks max_missed n (after_first h) (refl, refl, e) refl in
    rw (beats, first_pings max_missed h e) (λ le. kept (omega arith), λ lt. ended pos (omega arith))

answered_once :
    (max_missed : ℕ) (h : Heart)
    → h.ticking ≡ true
    → (h.first_tick ≡ true) ⊎ (h.alive ≡ true)
    → h.terminated ≡ false
    → let h' = on_beat max_missed (on_beat max_missed h (tick true)) pong in
      (h'.ticking ≡ true) × (h'.alive ≡ true) × (h'.terminated ≡ false) × (h'.pings ≡ suc h.pings)
unfolding on_beat open_tick
answered_once max_missed h t r e = ground arith

-- A connection whose every ping is answered before the next tick is never terminated, and each tick
-- sends a ping.
pub beats-answered :
    (max_missed n : ℕ) (h : Heart)
    → h.ticking ≡ true
    → (h.first_tick ≡ true) ⊎ (h.alive ≡ true)
    → h.terminated ≡ false
    → ((beats max_missed h (answered n)).terminated ≡ false)
      × ((beats max_missed h (answered n)).pings ≡ h.pings + n)
unfolding beats
beats-answered max_missed zero h t r e = (e, omega arith)
beats-answered max_missed (suc n) h t r e =
    let h' = on_beat max_missed (on_beat max_missed h (tick true)) pong in
    let (t', a', e', p') = answered_once max_missed h t r e in
    let (kept, sent) = beats-answered max_missed n h' t' (inr a') e' in
    (kept, omega (arith, sent, p'))
