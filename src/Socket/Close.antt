-- ===== src/Socket/Close.antt =====
-- base-websocket.ts: `connect`, `disconnect` and the handler of the socket's `close` event.
use ai_support_agent_cli.Common.{
  ℕ, suc, Bool, true, false, not, ◌&&◌, Option, none, some, List, [], ◌∷◌, arith, ◌≡◌, ◌≢◌, refl,
  ◌∙◌, if◌then◌else◌, ◌==◌, All,
}

-- `reconnects` counts the calls of `doReconnect`, `permanent` those of `onPermanentClose`, `transient`
-- those of `onWebSocketClose` and `disconnects` those of `onDisconnect`.
pub record Connection : Type 0 where
  pub closed : Bool
  pub attempts : ℕ
  pub reconnects : ℕ
  pub permanent : ℕ
  pub transient : ℕ
  pub disconnects : ℕ

pub data Happening : Type 0 where
  connects : Happening
  disconnects : Happening
  closes : ℕ → Happening  -- with its code

abbrev pub is_rejection : Option ℕ → ℕ → Bool
is_rejection none code = false
is_rejection (some rejected) code = code == rejected

unfoldable pub connect : Connection → Connection
connect c = record c { closed = false; attempts = 0 }

unfoldable pub disconnect : Connection → Connection
disconnect c = record c { closed = true; disconnects = suc c.disconnects }

-- The handler, where the option `authRejectedCloseCode` is the first argument.
unfoldable pub on_close : Option ℕ → Connection → ℕ → Connection
on_close rejected c code =
    let dropped = record c { transient = suc c.transient } in
    if not c.closed && is_rejection rejected code
    then record c { closed = true; permanent = suc c.permanent }
    else if c.closed
    then dropped
    else record dropped { reconnects = suc c.reconnects }

unfoldable pub happen : Option ℕ → Connection → Happening → Connection
unfolding connect disconnect on_close
happen rejected c connects = connect c
happen rejected c disconnects = disconnect c
happen rejected c (closes code) = on_close rejected c code

unfoldable pub history : Option ℕ → Connection → List Happening → Connection
history rejected c [] = c
history rejected c (h ∷ hs) = history rejected (happen rejected c h) hs

abbrev pub NotConnects : Happening → Type 0
NotConnects h = h ≢ connects

happen_closed :
    (rejected : Option ℕ) (c : Connection) (h : Happening)
    → c.closed ≡ true
    → NotConnects h
    → ((happen rejected c h).closed ≡ true)
      × ((happen rejected c h).reconnects ≡ c.reconnects)
      × ((happen rejected c h).permanent ≡ c.permanent)
unfolding happen on_close disconnect
happen_closed rejected c connects e p = absurd (p refl)
happen_closed rejected c disconnects e p = (refl, refl, refl)
happen_closed rejected c (closes code) e p = rw e (refl, refl, refl)

on_close_rejected :
    (rejected : Option ℕ) (c : Connection) (code : ℕ)
    → c.closed ≡ false
    → is_rejection rejected code ≡ true
    → ((on_close rejected c code).closed ≡ true)
      × ((on_close rejected c code).reconnects ≡ c.reconnects)
      × ((on_close rejected c code).permanent ≡ suc c.permanent)
unfolding on_close
on_close_rejected rejected c code e same = rw (e, same) (refl, refl, refl)

on_close_other :
    (rejected : Option ℕ) (c : Connection) (code : ℕ)
    → c.closed ≡ false
    → is_rejection rejected code ≡ false
    → ((on_close rejected c code).closed ≡ false)
      × ((on_close rejected c code).reconnects ≡ suc c.reconnects)
      × ((on_close rejected c code).permanent ≡ c.permanent)
unfolding on_close
on_close_other rejected c code e other = ground (arith, e, other)

-- While the connection is closed for good, no event but a call of `connect` opens it, starts a
-- reconnection or reports another rejection.
pub history-closed :
    (rejected : Option ℕ) (c : Connection) (events : List Happening)
    → c.closed ≡ true
    → All NotConnects events
    → ((history rejected c events).closed ≡ true)
      × ((history rejected c events).reconnects ≡ c.reconnects)
      × ((history rejected c events).permanent ≡ c.permanent)
unfolding history
history-closed rejected c [] e all = (e, refl, refl)
history-closed rejected c (h ∷ hs) e (p, all) =
    let (e', r, q) = happen_closed rejected c h e p in
    let (e'', r', q') = history-closed rejected (happen rejected c h) hs e' all in
    (e'', r' ∙ r, q' ∙ q)

-- A close event with the code of a rejected authentication, on a connection that was open, ends it for
-- good: however many close events and disconnections follow without a call of `connect`, none starts a
-- reconnection, and the rejection is reported once. With any other code a reconnection starts.
pub on_close-rejection :
    (rejected : Option ℕ) (c : Connection) (code : ℕ) (events : List Happening)
    → c.closed ≡ false
    → All NotConnects events
    → (is_rejection rejected code ≡ true
        → let after = history rejected (on_close rejected c code) events in
          (after.closed ≡ true)
          × (after.reconnects ≡ c.reconnects)
          × (after.permanent ≡ suc c.permanent))
      × (is_rejection rejected code ≡ false
          → ((on_close rejected c code).closed ≡ false)
            × ((on_close rejected c code).reconnects ≡ suc c.reconnects)
            × ((on_close rejected c code).permanent ≡ c.permanent))
on_close-rejection rejected c code events e all = (
  λ same.
      let (e', r, q) = on_close_rejected rejected c code e same in
      let (e'', r', q') = history-closed rejected (on_close rejected c code) events e' all in
      (e'', r' ∙ r, q' ∙ q),
  on_close_other rejected c code e,
)
