-- ===== src/Supervisor/Quiet.antt =====
-- docker/docker-supervisor.ts: what starts after a shutdown or an update has begun.
use ai_support_agent_cli.Common.{
  ℕ, suc, ◌+◌, ◌≤◌, String, ◌≡◌, refl, inl, inr, true, not, ◌&&◌, List, [], ◌∷◌, arith, ◌==◌,
  str_eq, Bool-cases, if_elim, Option-cases, remove, member, length, is_empty,
}
use ai_support_agent_cli.Supervisor.State.{Supervisor, update_folder, find, leave, built_one}
use ai_support_agent_cli.Supervisor.Starting.{
  apply_registered_agent_id, spawn_project, enough_rounds, copy_hash, on_built,
}
use ai_support_agent_cli.Supervisor.Stopping.{
  docker_update_exit_code, docker_restart_exit_code, after_close, on_close, shut_down, on_flushed,
  on_shutdown_timeout, host_update, on_stopped, Event, closes, builds, signals, flushes, times_out,
  host_updates, stops, writes, registers, react, step, run,
}
use ai_support_agent_cli.Supervisor.Frames.{
  Still, shut_down-Still, on_flushed-Still, on_shutdown_timeout-Still, host_update-Still,
  on_stopped-Still, apply_registered_agent_id-Still,
}
use ai_support_agent_cli.Supervisor.Spawns.{spawn_project_elim}

-- The containers started so far, and the builds that may start one.
abbrev pub to_start : Supervisor → ℕ
to_start s = s.spawned + length s.building

-- A state after which the supervisor still updates or shuts down, and nothing more is to be started.
abbrev Calm : Supervisor → Supervisor → Type 0
Calm s t = (t.updating ≡ true) × (to_start t ≤ to_start s)

Still-Calm : (s t : Supervisor) → s.updating ≡ true → Still s t → Calm s t
Still-Calm s t u (live, building, spawned, keeps) = (keeps u, rw (building, spawned) (omega arith))

built_one-length :
    (key : String) (building : List String)
    → member key building ≡ true
    → length building ≡ suc (length (built_one key building))
unfolding member
built_one-length key [] h = cc
built_one-length key (k ∷ building) h = elim (Bool-cases (str_eq k key)) [
  | inl e ↦ rw e refl
  | inr e ↦ let ih = built_one-length key building (rw e at h) in rw e (omega (arith, ih))
]

spawn_project-to_start :
    (key : String) (rounds : ℕ) (s : Supervisor)
    → s.updating ≡ true
    → ((spawn_project rounds key s).updating ≡ true)
      × (to_start (spawn_project rounds key s) ≤ suc (to_start s))
spawn_project-to_start key rounds s u =
    spawn_project_elim (λ t. (t.updating ≡ true) × (to_start t ≡ to_start s))
      (λ t. (t.updating ≡ true) × (to_start t ≤ suc (to_start s))) key (λ t _ h. h) (λ t _ h. h)
      (λ t (u', h). (u', omega arith)) (λ t (u', h). (u', omega arith))
      (λ t (u', h). (u', omega arith)) rounds s (u, refl)

on_close-Calm :
    (number code : ℕ) (s : Supervisor) → s.updating ≡ true → Calm s (on_close number code s)
unfolding on_close
on_close-Calm number code s u = elim (Option-cases (find number s.live)) [
  | inl e ↦ rw (on_close, e) (u, omega arith)
  | inr (c, e) ↦ rw (on_close, e) (closed c.key)
]
  where
    closed :
        (key : String)
        → Calm s (
            after_close key code
              (record s { live = leave number s.live; handles = remove key s.handles }))
    closed key =
        if_elim (Calm s) (code == docker_update_exit_code && not s.updating) _ _
          (λ h. absurd (ground arith))
          (λ _.
            if_elim (Calm s) (code == docker_restart_exit_code && not s.updating) _ _
              (λ h. absurd (ground arith))
              (λ _.
                if_elim (Calm s) (is_empty (remove key s.handles) && not s.updating) _ _
                  (λ h. absurd (ground arith)) (λ _. (u, omega arith))))

on_built-Calm :
    (key : String) (s : Supervisor)
    → s.updating ≡ true
    → member key s.building ≡ true
    → Calm s (on_built key s)
unfolding on_built
on_built-Calm key s u m =
    let built = record s {
      building = built_one key s.building;
      folders = update_folder key (copy_hash (s.folders key)) s.folders;
    } in
    let (keeps, most) = spawn_project-to_start key enough_rounds built u in
    (keeps, omega (arith, most, built_one-length key s.building m))

react-Calm : (s : Supervisor) (e : Event) → s.updating ≡ true → Calm s (react s e)
react-Calm s (closes number code) u = on_close-Calm number code s u
react-Calm s (builds key) u =
    if_elim (Calm s) (member key s.building) _ _ (λ m. on_built-Calm key s u m)
      (λ _. (u, omega arith))
react-Calm s signals u = Still-Calm s (shut_down s) u (shut_down-Still s)
react-Calm s (flushes number) u = Still-Calm s (on_flushed number s) u (on_flushed-Still number s)
react-Calm s times_out u = Still-Calm s (on_shutdown_timeout s) u (on_shutdown_timeout-Still s)
react-Calm s host_updates u = Still-Calm s (host_update s) u (host_update-Still s)
react-Calm s (stops failed) u = Still-Calm s (on_stopped failed s) u (on_stopped-Still failed s)
react-Calm s (writes key folder) u = (u, omega arith)
react-Calm s (registers key) u =
    Still-Calm s (apply_registered_agent_id key s) u (apply_registered_agent_id-Still key s)

step-Calm : (s : Supervisor) (e : Event) → s.updating ≡ true → Calm s (step s e)
unfolding step
step-Calm s e u = elim (Option-cases s.ended) [
  | inl h ↦ rw (step, h) (react-Calm s e u)
  | inr (ending, h) ↦ rw (step, h) (u, omega arith)
]

-- Once a shutdown or the update that a container asked for has begun, the containers started so far and
-- the builds that wait never become more in sum: only what waits for an image can still start.
pub run-starts_nothing :
    (s : Supervisor) (es : List Event)
    → s.updating ≡ true
    → (run s es).spawned + length (run s es).building ≤ s.spawned + length s.building
unfolding run
run-starts_nothing s [] u = omega arith
run-starts_nothing s (e ∷ es) u =
    let (keeps, most) = step-Calm s e u in omega (arith, run-starts_nothing (step s e) es keeps)
