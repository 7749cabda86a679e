-- ===== src/Supervisor/Ends.antt =====
-- docker/docker-supervisor.ts: how the process ends, and what its end leaves behind.
use ai_support_agent_cli.Common.{
  ℕ, String, ◌≡◌, refl, ap, ◌∙◌, true, false, Option, none, some, List, [], ◌∷◌, ◌++◌, eq_refl,
  ◌==◌, remove, member, is_empty,
}
use ai_support_agent_cli.Supervisor.State.{
  Folder, Container, Ending, exits_with, Supervisor, update_folder, find, leave, built_one,
}
use ai_support_agent_cli.Supervisor.Starting.{hash_mismatch, launch, copy_hash, on_built}
use ai_support_agent_cli.Supervisor.Stopping.{
  docker_update_exit_code, docker_restart_exit_code, numbers, stop_all, after_close, on_close,
  shut_down, host_update, Event, closes, builds, signals, host_updates, react, step, run,
}
use ai_support_agent_cli.Supervisor.Settling.{spawn_project-launches}

step-ended : (s : Supervisor) (e : Event) (ending : Ending) → s.ended ≡ some ending → step s e ≡ s
unfolding step
step-ended s e ending h = simp (step, h)

run-ended :
    (s : Supervisor) (es : List Event) (ending : Ending) → s.ended ≡ some ending → run s es ≡ s
unfolding run
run-ended s [] ending h = refl
run-ended s (e ∷ es) ending h =
    let same = step-ended s e ending h in
    run-ended (step s e) es ending (ap (λ t. t.ended) same ∙ h) ∙ same

step-goes_on : (s : Supervisor) (e : Event) → s.ended ≡ none → step s e ≡ react s e
unfolding step
step-goes_on s e h = simp (step, h)

remove-only :
    (key : String) (number : ℕ) (handles : List (String × ℕ))
    → handles ≡ (key, number) ∷ []
    → is_empty (remove key handles) ≡ true
unfolding remove
remove-only key number handles h = rw (h, eq_refl key) refl

on_close-found :
    (number code : ℕ) (s : Supervisor) {c : Container}
    → find number s.live ≡ some c
    → on_close number code s
      ≡ after_close c.key code
          (record s { live = leave number s.live; handles = remove c.key s.handles })
unfolding on_close
on_close-found number code s h = rw (on_close, h) refl

-- The exit of the last container, where it asks for nothing.
after_close-last :
    (key : String) (code : ℕ) (s : Supervisor)
    → s.updating ≡ false
    → is_empty s.handles ≡ true
    → (code == docker_update_exit_code) ≡ false
    → (code == docker_restart_exit_code) ≡ false
    → after_close key code s ≡ record s { ended = some (exits_with code) }
after_close-last key code s idle none_left u r = rw (u, r, none_left, idle) refl

-- `shutdown` while a container runs, up to its wait.
abbrev told_to_stop : Supervisor → Supervisor
told_to_stop s =
    stop_all (record s { shutting_down = true; updating = true; awaiting = numbers s.handles })

shut_down-waits :
    (s : Supervisor)
    → s.shutting_down ≡ false
    → is_empty (numbers s.handles) ≡ false
    → shut_down s ≡ told_to_stop s
unfolding shut_down stop_all
shut_down-waits s up some_run = rw (up, some_run) refl

copy_hash-agrees : (folder : Folder) → hash_mismatch (copy_hash folder) ≡ false
copy_hash-agrees folder = go folder.customization_hash refl
  where
    agrees : Option String → Folder
    agrees wanted = elim wanted [ none ↦ folder | some h ↦ record folder { built_hash = some h } ]

    go :
        (wanted : Option String)
        → folder.customization_hash ≡ wanted
        → hash_mismatch (agrees wanted) ≡ false
    go none e = rw e refl
    go (some h) e = rw (e, eq_refl h) refl

on_built-launches :
    (key : String) (s : Supervisor)
    → (ids : List (String × String)) × (folders : String → Folder) × (on_built key s
        ≡ launch key
            (record s { agent_ids = ids; folders = folders; building = built_one key s.building }))
unfolding on_built
on_built-launches key s =
    let folders = update_folder key (copy_hash (s.folders key)) s.folders in
    let built = record s { building = built_one key s.building; folders = folders } in
    let (ids, launched) =
      spawn_project-launches 1 key built (rw (eq_refl key) (copy_hash-agrees (s.folders key))) in
    (ids, folders, launched)

module _ (s : Supervisor) (running : s.ended ≡ none) where
  -- The last container that runs exits with a code that asks for neither an update nor a restart, while
  -- the process neither updates nor shuts down: it ends with that code, and the images that are being
  -- built for projects that have asked for a restart are still waited for whatever comes later, so that
  -- these projects are never started again.
  pub last_close-abandons_builds :
      (key : String) (number code : ℕ) (es : List Event)
      → s.updating ≡ false
      → s.handles ≡ (key, number) ∷ []
      → find number s.live ≡ some (record { key = key; number = number })
      → (code == docker_update_exit_code) ≡ false
      → (code == docker_restart_exit_code) ≡ false
      → ((run s (closes number code ∷ es)).ended ≡ some (exits_with code))
        × ((run s (closes number code ∷ es)).building ≡ s.building)
  unfolding run
  last_close-abandons_builds key number code es idle handles live u r =
      let left = record s { live = leave number s.live; handles = remove key s.handles } in
      let last =
        after_close-last key code left idle (remove-only key number s.handles handles) u r in
      let closed =
        step-goes_on s (closes number code) running ∙ on_close-found number code s live ∙ last in
      let rest =
        run-ended (step s (closes number code)) es (exits_with code) (ap (λ t. t.ended) closed)
        ∙ closed in
      (ap (λ t. t.ended) rest, ap (λ t. t.building) rest)

  -- A project whose image is being built when the process is told to shut down, while another container
  -- runs, gets its container all the same once the image is there, and `stopAll` has asked only the
  -- containers to stop that ran before.
  pub shut_down-starts_late :
      (key : String)
      → s.shutting_down ≡ false
      → is_empty (numbers s.handles) ≡ false
      → member key s.building ≡ true
      → ((run s (signals ∷ builds key ∷ [])).live
          ≡ record { key = key; number = s.spawned } ∷ s.live)
        × ((run s (signals ∷ builds key ∷ [])).asked_to_stop ≡ numbers s.handles ++ s.asked_to_stop)
  unfolding run stop_all
  shut_down-starts_late key up some_run waits =
      let told = told_to_stop s in
      let (ids, folders, launched) = on_built-launches key told in
      let begun = step-goes_on s signals running ∙ shut_down-waits s up some_run in
      let late = step-goes_on told (builds key) running in
      rw (begun, late, waits, launched) (refl, refl)

-- The update of the host does not restart the process where the last container exits before its
-- `docker stop` does, with a code that asks for neither an update nor a restart: the process ends with
-- that code, whatever comes later.
pub host_update-exits :
    (s : Supervisor) (key : String) (number code : ℕ) (es : List Event)
    → s.ended ≡ none
    → s.updating ≡ false
    → s.handles ≡ (key, number) ∷ []
    → find number s.live ≡ some (record { key = key; number = number })
    → (code == docker_update_exit_code) ≡ false
    → (code == docker_restart_exit_code) ≡ false
    → (run s (host_updates ∷ closes number code ∷ es)).ended ≡ some (exits_with code)
unfolding run host_update stop_all
host_update-exits s key number code es running idle handles live u r =
    ap (λ t. (run t (closes number code ∷ es)).ended) (step-goes_on s host_updates running)
    ∙ (last_close-abandons_builds (host_update s) running key number code es idle handles live u
        r).0
