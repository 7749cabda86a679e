-- ===== src/Supervisor/Stopping.antt =====
-- docker/docker-supervisor.ts: the `close` handler of a container, `stopAll`, the shutdown, and the update
-- (docker/update-handler.ts). An event is what the supervisor waits for.
use ai_support_agent_cli.Common.{
  ℕ, ◌==◌, ◌++◌, Bool, true, not, ◌&&◌, ◌||◌, none, some, List, [], ◌∷◌, String, if◌then◌else◌,
  remove, filter, any, map, member, is_empty,
}
use ai_support_agent_cli.Supervisor.State.{
  Folder, exits_with, re_execs, installs, host_restarts, Supervisor, update_folder, find, leave,
}
use ai_support_agent_cli.Supervisor.Starting.{
  apply_registered_agent_id, rebuild_and_restart, spawn_project, spawn, on_built,
}

abbrev pub docker_update_exit_code : ℕ
docker_update_exit_code = 42

abbrev pub docker_restart_exit_code : ℕ
docker_restart_exit_code = 43

abbrev pub numbers : List (String × ℕ) → List ℕ
numbers handles = map (λ h. h.1) handles

-- `stopAll`, up to its wait.
unfoldable pub stop_all : Supervisor → Supervisor
stop_all s = record s { asked_to_stop = numbers s.handles ++ s.asked_to_stop }

-- The close handler, past its guard.
abbrev pub after_close : String → ℕ → Supervisor → Supervisor
after_close key code s =
    if code == docker_update_exit_code && not s.updating
    then stop_all (record s { updating = true; waiting = installs ∷ s.waiting })
    else if code == docker_restart_exit_code && not s.updating
    then rebuild_and_restart spawn true key s
    else if is_empty s.handles && not s.updating
    then record s { ended = some (exits_with code) }
    else s

unfoldable pub on_close : ℕ → ℕ → Supervisor → Supervisor
unfolding stop_all rebuild_and_restart spawn_project
on_close number code s = elim (find number s.live) [
  | none ↦ s
  | some c ↦
      after_close c.key code
        (record s { live = leave number s.live; handles = remove c.key s.handles })
]

abbrev pub end_if_closed : Supervisor → Supervisor
end_if_closed s = if is_empty s.awaiting then record s { ended = some (exits_with 0) } else s

-- SIGINT or SIGTERM
unfoldable pub shut_down : Supervisor → Supervisor
unfolding stop_all
shut_down s =
    if s.shutting_down
    then s
    else end_if_closed (
        stop_all (record s { shutting_down = true; updating = true; awaiting = numbers s.handles }))

-- The log of a container that has exited is sent: its `closedPromise` is resolved.
unfoldable pub on_flushed : ℕ → Supervisor → Supervisor
on_flushed number s =
    if not s.shutting_down || any (λ c. c.number == number) s.live
    then s
    else end_if_closed (record s { awaiting = filter (λ n. not (n == number)) s.awaiting })

-- The timer of the shutdown
unfoldable pub on_shutdown_timeout : Supervisor → Supervisor
on_shutdown_timeout s = if s.shutting_down then record s { ended = some (exits_with 0) } else s

-- The update of the host stops the containers before it restarts the process.
unfoldable pub host_update : Supervisor → Supervisor
unfolding stop_all
host_update s = stop_all (record s { waiting = host_restarts ∷ s.waiting })

-- The `docker stop` commands of a call of `stopAll` have ended; `failed` is whether the installation throws.
unfoldable pub on_stopped : Bool → Supervisor → Supervisor
on_stopped failed s = elim s.waiting [
  | [] ↦ s
  | next ∷ waiting ↦ record s {
    waiting = waiting;
    ended = some (elim next [
      | installs ↦ if failed then exits_with 1 else re_execs
      | host_restarts ↦ re_execs
    ]);
  }
]

pub data Event : Type 0 where
  closes : ℕ → ℕ → Event
  builds : String → Event
  signals : Event
  flushes : ℕ → Event
  times_out : Event
  host_updates : Event
  stops : Bool → Event
  writes : String → Folder → Event
  registers : String → Event

abbrev pub react : Supervisor → Event → Supervisor
react s (closes number code) = on_close number code s
react s (builds key) = if member key s.building then on_built key s else s
react s signals = shut_down s
react s (flushes number) = on_flushed number s
react s times_out = on_shutdown_timeout s
react s host_updates = host_update s
react s (stops failed) = on_stopped failed s
react s (writes key folder) = record s { folders = update_folder key folder s.folders }
react s (registers key) = apply_registered_agent_id key s

-- Nothing happens once the process has ended.
unfoldable pub step : Supervisor → Event → Supervisor
unfolding on_close on_built shut_down on_flushed on_shutdown_timeout host_update on_stopped
    apply_registered_agent_id member
step s e = elim s.ended [ none ↦ react s e | some ending ↦ s ]

unfoldable pub run : Supervisor → List Event → Supervisor
unfolding step
run s [] = s
run s (e ∷ es) = run (step s e) es
