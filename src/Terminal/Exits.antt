-- ===== src/Terminal/Exits.antt =====
-- terminal/terminal-session-manager.ts: the exit handler goes by the id, not by the session.
use mathlib.Core.Path.{subst}
use ai_support_agent_cli.Common.{
  ℕ, ◌<◌, true, false, Option, none, some, [], ◌∷◌, String, ◌≡◌, refl, sym, ◌∙◌, ap, arith, lookup,
  lookup-insert_self, lookup-remove_self, ◌==◌,
}
use ai_support_agent_cli.Terminal.{
  Meta, Manager, set, clear_grace_timer, spawn, create_session_with_id, drop, close_session,
  on_exit, creates, closes, exits, step, run,
}

-- The session `i` is managed under `id` and alive.
abbrev pub Managed : String → ℕ → Manager → Type 0
Managed id i m =
    (lookup id m.sessions ≡ some i)
    × ((m.objects i).session_id ≡ id)
    × ((m.objects i).exited ≡ false)
    × (i < m.spawned)

-- The manager after the session was closed, and after another one was made under its id.
abbrev closed : String → ℕ → Manager → Manager
closed id i m = drop id (record (clear_grace_timer id m) {
  objects = set i (record (m.objects i) { killed = true }) m.objects;
})

close_kills :
    (id : String) (i : ℕ) (m : Manager) → Managed id i m → (close_session id m).1 ≡ closed id i m
unfolding close_session clear_grace_timer
close_kills id i m (e, n, x, lt) = rw (close_session, e) (rw x refl)

create_spawns :
    (id : String) (meta : Option Meta) (m : Manager)
    → lookup id m.sessions ≡ none
    → (create_session_with_id id meta m).1 ≡ (spawn id meta (clear_grace_timer id m)).1
unfolding create_session_with_id
create_spawns id meta m e = rw (create_session_with_id, e) refl

self_eq : (n : ℕ) → (n == n) ≡ true
self_eq n = ground arith

abbrev remade : String → ℕ → Option Meta → Manager → Manager
remade id i meta m = (spawn id meta (clear_grace_timer id (closed id i m))).1

abbrev Lost : String → ℕ → ℕ → Manager → Type 0
Lost id i new before =
    (lookup id before.sessions ≡ some new)
    × (lookup id (on_exit i before).sessions ≡ none)
    × (((on_exit i before).objects new).exited ≡ false)
    × (((on_exit i before).objects new).killed ≡ false)

other_object : (i n : ℕ) → i < n → ((n == i) ≡ false) × ((i == n) ≡ false)
other_object i n lt = (ground arith, ground arith)

remade-Lost :
    (id : String) (i : ℕ) (meta : Option Meta) (m : Manager)
    → Managed id i m
    → Lost id i m.spawned (remade id i meta m)
unfolding clear_grace_timer on_exit
remade-Lost id i meta m (e, n, x, lt) =
    let (a, b) = other_object i m.spawned lt in
    (
      lookup-insert_self id m.spawned _,
      rw (a, self_eq i, n) (lookup-remove_self id _),
      rw (b, self_eq m.spawned) refl,
      rw (b, self_eq m.spawned) refl,
    )

-- A session that is closed and made again under the same id while the old process has not exited yet is
-- lost when that exit comes: the handler of the old session removes the new one from the manager, although
-- its process is alive and was not told to end.
pub create_session-lost :
    (id : String) (i : ℕ) (meta : Option Meta) (m : Manager)
    → Managed id i m
    → let before = run m (closes id ∷ creates id meta ∷ []) in
      let after = step before (exits i) in
      (lookup id before.sessions ≡ some m.spawned)
      × (lookup id after.sessions ≡ none)
      × ((after.objects m.spawned).exited ≡ false)
      × ((after.objects m.spawned).killed ≡ false)
unfolding run step
create_session-lost id i meta m managed =
    let same =
      ap (λ (m' : Manager). (create_session_with_id id meta m').1) (close_kills id i m managed)
      ∙ create_spawns id meta (closed id i m)
          (unfold clear_grace_timer in lookup-remove_self id m.sessions) in
    subst (Lost id i m.spawned) (sym same) (remade-Lost id i meta m managed)
