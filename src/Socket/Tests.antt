-- ===== src/Socket/Tests.antt =====
-- The reconnection, the heartbeat and the close handler at concrete inputs.
use ai_support_agent_cli.Common.{
  ℕ, ◌+◌, ◌-◌, ◌≤◌, ◌<◌, ◌≡◌, ◌≢◌, refl, Bool, true, false, some, List, [], ◌∷◌, arith, length,
}
use ai_support_agent_cli.Retry.{resolution, calculate_backoff, jittered, base_delay}
use ai_support_agent_cli.Socket.Reconnect.{
  ReconnectOptions, Round, gave_up, reconnected, pending, attempt_reconnect,
  attempt_reconnect_bounded,
}
use ai_support_agent_cli.Socket.Heartbeat.{Heart, resting}
use ai_support_agent_cli.Socket.Close.{Connection, Happening, connects, disconnects, closes}

abbrev options : ReconnectOptions
options = record { max_retries = some 2; base_delay_ms = 1000; max_delay_ms = some 1500 }

abbrev round : Bool → Round
round works = record { closed_before = false; random = 0; Closed-after = false; connects = works }

abbrev down : List Round
down = round false ∷ round false ∷ round false ∷ []

reconnect_computed :
    ((attempt_reconnect options 0 down).outcome ≡ gave_up)
    × ((attempt_reconnect options 0 down).delays ≡ 500 ∷ 750 ∷ [])
    × ((attempt_reconnect options 0 (round false ∷ round true ∷ [])).outcome ≡ reconnected)
unfolding attempt_reconnect calculate_backoff jittered base_delay resolution
reconnect_computed = (refl, refl, refl)

attempt_reconnect_bounded_example :
    ((attempt_reconnect options 0 down).connects + 0 ≤ 2)
    × (2 - 0 < length down → (attempt_reconnect options 0 down).outcome ≢ pending)
attempt_reconnect_bounded_example = attempt_reconnect_bounded options 2 0 down refl (omega arith)

random_in_range : 0 < resolution
unfolding resolution
random_in_range = omega arith

abbrev started : Heart
started = record resting { ticking = true }

abbrev opened : Connection
opened = record {
  closed = false;
  attempts = 0;
  reconnects = 0;
  permanent = 0;
  transient = 0;
  disconnects = 0;
}

abbrev later : List Happening
later = closes 4001 ∷ disconnects ∷ closes 1006 ∷ []

different : (code : ℕ) → closes code ≢ connects
different code h = cc

abbrev auth_rejected : ℕ
auth_rejected = 4001
