-- ===== src/Supervisor/Single.antt =====
-- docker/docker-supervisor.ts: a project never has two containers, nor a container and a build.
use ai_support_agent_cli.Common.{
  ℕ, ◌+◌, ◌≤◌, String, ◌≡◌, refl, inl, inr, true, false, not, ◌&&◌, none, some, List, [], ◌∷◌,
  arith, eq_iff, ◌==◌, str_eq, if◌then◌else◌, Bool-cases, if_elim, Option-cases, some-inj, remove,
  member, is_empty,
}
use ai_support_agent_cli.Supervisor.State.{
  Folder, Container, installs, Supervisor, update_folder, find, leave, built_one,
}
use ai_support_agent_cli.Supervisor.Starting.{
  apply_registered_agent_id, rebuild_and_restart, spawn_project, enough_rounds, spawn, copy_hash,
  on_built, start,
}
use ai_support_agent_cli.Supervisor.Stopping.{
  docker_update_exit_code, docker_restart_exit_code, stop_all, after_close, on_close, end_if_closed,
  shut_down, on_flushed, on_shutdown_timeout, host_update, on_stopped, Event, closes, builds,
  signals, flushes, times_out, host_updates, stops, writes, registers, react, step, run,
}
use ai_support_agent_cli.Supervisor.Frames.{
  Still, shut_down-Still, on_flushed-Still, on_shutdown_timeout-Still, host_update-Still,
  on_stopped-Still, apply_registered_agent_id-Still,
}
use ai_support_agent_cli.Supervisor.Spawns.{rebuild_and_restart_elim, spawn_project_elim}

abbrev one : String → String → ℕ
one key other = if str_eq key other then 1 else 0

-- How often a key stands in a list, and how many containers run for it.
abbrev pub count_key : String → List String → ℕ
count_key key [] = 0
count_key key (k ∷ keys) = one k key + count_key key keys

abbrev pub count_live : String → List Container → ℕ
count_live key [] = 0
count_live key (c ∷ live) = one c.key key + count_live key live

-- The containers and the builds of a project.
abbrev pub present : String → Supervisor → ℕ
present key s = count_live key s.live + count_key key s.building

leave-count :
    (number : ℕ) (live : List Container) (c : Container) (key : String)
    → find number live ≡ some c
    → count_live key live ≡ one c.key key + count_live key (leave number live)
leave-count number [] c key h = cc
leave-count number (d ∷ live) c key h = elim (Bool-cases (d.number == number)) [
  | inl e ↦ rw (e, some-inj (rw e at h)) refl
  | inr e ↦ let ih = leave-count number live c key (rw e at h) in rw e (omega (arith, ih))
]

built_one-count :
    (k : String) (building : List String) (key : String)
    → member k building ≡ true
    → count_key key building ≡ one k key + count_key key (built_one k building)
unfolding member
built_one-count k [] key h = cc
built_one-count k (b ∷ building) key h = elim (Bool-cases (str_eq b k)) [
  | inl e ↦ rw (e, (eq_iff b k).0 e) refl
  | inr e ↦ let ih = built_one-count k building key (rw e at h) in rw e (omega (arith, ih))
]

module _ (key : String) (other : String) where
  spawn_project-present :
      (rounds : ℕ) (s : Supervisor)
      → present other (spawn_project rounds key s) ≤ present other s + one key other
  spawn_project-present rounds s =
      spawn_project_elim (λ t. present other t ≡ present other s)
        (λ t. present other t ≤ present other s + one key other) key (λ t _ h. h) (λ t _ h. h)
        (λ t h. omega arith) (λ t h. omega arith) (λ t h. omega arith) rounds s refl

  rebuild-present :
      (s : Supervisor)
      → present other (rebuild_and_restart spawn true key s) ≤ present other s + one key other
  rebuild-present s =
      rebuild_and_restart_elim (λ t. present other t ≡ present other s)
        (λ t. present other t ≤ present other s + one key other) key (λ t _ h. h) (λ t _ h. h)
        (λ t h. omega arith) spawn true
        (λ t h. omega (arith, spawn_project-present enough_rounds t, h)) s refl

stop_all-present : (key : String) (s : Supervisor) → present key (stop_all s) ≡ present key s
unfolding stop_all
stop_all-present key s = refl

end_if_closed-present :
    (key : String) (s : Supervisor) → present key (end_if_closed s) ≡ present key s
end_if_closed-present key s =
    if_elim (λ t. present key t ≡ present key s) (is_empty s.awaiting) _ _ (λ _. refl) (λ _. refl)

after_close-present :
    (key : String) (code : ℕ) (other : String) (s : Supervisor)
    → present other (after_close key code s) ≤ present other s + one key other
after_close-present key code other s =
    if_elim P (code == docker_update_exit_code && not s.updating) _ _
      (λ _. omega (
        arith,
        stop_all-present other (record s { updating = true; waiting = installs ∷ s.waiting }),
      ))
      (λ _.
        if_elim P (code == docker_restart_exit_code && not s.updating) _ _
          (λ _. rebuild-present key other s)
          (λ _.
            if_elim P (is_empty s.handles && not s.updating) _ _ (λ _. omega arith)
              (λ _. omega arith)))
  where
    P : Supervisor → Type 0
    P t = present other t ≤ present other s + one key other

on_close-present :
    (number code : ℕ) (other : String) (s : Supervisor)
    → present other (on_close number code s) ≤ present other s
unfolding on_close
on_close-present number code other s = elim (Option-cases (find number s.live)) [
  | inl e ↦ rw (on_close, e) (omega arith)
  | inr (c, e) ↦
      let left = record s { live = leave number s.live; handles = remove c.key s.handles } in
      let after = after_close-present c.key code other left in
      rw (on_close, e) (omega (arith, after, leave-count number s.live c other e))
]

on_built-present :
    (key other : String) (s : Supervisor)
    → member key s.building ≡ true
    → present other (on_built key s) ≤ present other s
unfolding on_built
on_built-present key other s m =
    let built = record s {
      building = built_one key s.building;
      folders = update_folder key (copy_hash (s.folders key)) s.folders;
    } in
    omega (
      arith,
      spawn_project-present key other enough_rounds built,
      built_one-count key s.building other m,
    )

Still-present : (s t : Supervisor) (other : String) → Still s t → present other t ≤ present other s
Still-present s t other (live, building, spawned, keeps) = rw (live, building) (omega arith)

react-present :
    (s : Supervisor) (e : Event) (other : String) → present other (react s e) ≤ present other s
react-present s (closes number code) other = on_close-present number code other s
react-present s (builds key) other = elim (Bool-cases (member key s.building)) [
  | inl e ↦ rw e (on_built-present key other s e)
  | inr e ↦ rw e (omega arith)
]
react-present s signals other = Still-present s (shut_down s) other (shut_down-Still s)
react-present s (flushes number) other =
    Still-present s (on_flushed number s) other (on_flushed-Still number s)
react-present s times_out other =
    Still-present s (on_shutdown_timeout s) other (on_shutdown_timeout-Still s)
react-present s host_updates other = Still-present s (host_update s) other (host_update-Still s)
react-present s (stops failed) other =
    Still-present s (on_stopped failed s) other (on_stopped-Still failed s)
react-present s (writes key folder) other = omega arith
react-present s (registers key) other =
    Still-present s (apply_registered_agent_id key s) other (apply_registered_agent_id-Still key s)

step-present :
    (s : Supervisor) (e : Event) (other : String) → present other (step s e) ≤ present other s
unfolding step
step-present s e other = elim (Option-cases s.ended) [
  | inl h ↦ rw (step, h) (react-present s e other)
  | inr (ending, h) ↦ rw (step, h) (omega arith)
]

run-present :
    (s : Supervisor) (es : List Event) (other : String) → present other (run s es) ≤ present other s
unfolding run
run-present s [] other = omega arith
run-present s (e ∷ es) other =
    omega (arith, run-present (step s e) es other, step-present s e other)

start-present :
    (projects : List String) (s : Supervisor) (other : String)
    → present other (start projects s) ≤ present other s + count_key other projects
unfolding start
start-present [] s other = omega arith
start-present (key ∷ projects) s other = omega (
  arith,
  start-present projects (spawn key s) other,
  spawn_project-present key other enough_rounds s,
)

-- The supervisor before its start.
abbrev pub fresh : (String → Folder) → Supervisor
fresh folders = record {
  handles = [];
  updating = false;
  shutting_down = false;
  default_agent_id = none;
  agent_ids = [];
  folders = folders;
  live = [];
  spawned = 0;
  building = [];
  asked_to_stop = [];
  waiting = [];
  awaiting = [];
  overflown = false;
  ended = none;
}

-- A project that is registered once has at most one container or image build at any time, whatever the
-- marker files say and in whatever order containers exit, builds end, and stops and signals come.
pub run-Single :
    (folders : String → Folder) (projects : List String) (es : List Event) (key : String)
    → count_key key projects ≤ 1
    → present key (run (start projects (fresh folders)) es) ≤ 1
run-Single folders projects es key h = omega (
  arith,
  run-present (start projects (fresh folders)) es key,
  start-present projects (fresh folders) key,
)
