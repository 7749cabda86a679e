-- ===== src/Supervisor/Spawns.antt =====
-- docker/docker-supervisor.ts: what `spawnProject` and `rebuildAndRestart` do to the state, whatever the
-- marker files say, and that they come back.
use ai_support_agent_cli.Common.{
  ℕ, zero, suc, Bool, true, false, not, ◌&&◌, ◌||◌, Option, none, some, List, ◌∷◌, String, str_eq,
  insert, if_elim,
}
use ai_support_agent_cli.Supervisor.State.{Folder, Supervisor, update_folder}
use ai_support_agent_cli.Supervisor.Starting.{
  project_agent_id, use_id, same_id, apply_registered_agent_id, hash_mismatch, launch, begin_build,
  rebuild_and_restart, spawn_project,
}

-- What holds after a call of one of the two, where `Q` holds before it and survives what they do first.
module _ (Q P : Supervisor → Type 0) (key : String)
    (ids : (s : Supervisor) (agent_ids : List (String × String))
      → Q s
      → Q (record s { agent_ids = agent_ids }))
    (marks : (s : Supervisor) (folders : String → Folder)
      → Q s
      → Q (record s { folders = folders }))
    (waits : (s : Supervisor) → Q s → P (record s { building = key ∷ s.building })) where
  apply_registered_agent_id-keeps : (s : Supervisor) → Q s → Q (apply_registered_agent_id key s)
  unfolding apply_registered_agent_id
  apply_registered_agent_id-keeps s q = go (s.folders key).registered_agent_id
    where
      go : (id : Option String) → Q (use_id key id s)
      go none = q
      go (some id) =
          if_elim Q (str_eq id "" || same_id (project_agent_id key s) id) s
            (record s { agent_ids = insert key id s.agent_ids }) (λ _. q)
            (λ _. ids s (insert key id s.agent_ids) q)

  begin_build-keeps : (s : Supervisor) → Q s → Q (begin_build key s)
  begin_build-keeps s q =
      apply_registered_agent_id-keeps _ (
        marks s (update_folder key (record (s.folders key) { rebuild_needed = false }) s.folders) q)

  pub rebuild_and_restart_elim :
      (next : String → Supervisor → Supervisor) (force : Bool)
      → ((s : Supervisor) → Q s → P (next key s))
      → (s : Supervisor) → Q s
      → P (rebuild_and_restart next force key s)
  unfolding rebuild_and_restart
  rebuild_and_restart_elim next force goes_on s q =
      if_elim P (not ((s.folders key).rebuild_needed || force && (s.folders key).has_dockerfile)) _
        _ (λ _. goes_on s q)
        (λ _.
          if_elim P (s.folders key).has_dockerfile _ _
            (λ _. waits (begin_build key s) (begin_build-keeps s q))
            (λ _. goes_on (begin_build key s) (begin_build-keeps s q)))

  pub spawn_project_elim :
      ((s : Supervisor) → Q s → P (record s { overflown = true }))
      → ((s : Supervisor) → Q s → P (launch key s))
      → (rounds : ℕ) (s : Supervisor) → Q s
      → P (spawn_project rounds key s)
  unfolding spawn_project
  spawn_project_elim overflows launches zero s q = overflows s q
  spawn_project_elim overflows launches (suc rounds) s q =
      if_elim P (hash_mismatch (s.folders key)) _ _
        (λ _.
          rebuild_and_restart_elim (spawn_project rounds) true
            (spawn_project_elim overflows launches rounds) s q)
        (λ _. launches (apply_registered_agent_id key s) (apply_registered_agent_id-keeps s q))
