-- ===== src/Supervisor/Frames.antt =====
-- docker/docker-supervisor.ts: the events that neither start a container nor a build, nor end one.
use ai_support_agent_cli.Common.{
  ℕ, String, ◌≡◌, refl, Bool, true, not, ◌||◌, Option, none, some, List, [], ◌∷◌, ◌==◌, str_eq,
  if◌then◌else◌, if_elim, insert, is_empty, any,
}
use ai_support_agent_cli.Supervisor.State.{
  exits_with, re_execs, AfterStop, installs, host_restarts, Supervisor,
}
use ai_support_agent_cli.Supervisor.Starting.{
  project_agent_id, same_id, use_id, apply_registered_agent_id,
}
use ai_support_agent_cli.Supervisor.Stopping.{
  stop_all, end_if_closed, shut_down, on_flushed, on_shutdown_timeout, host_update, on_stopped,
}

abbrev pub Still : Supervisor → Supervisor → Type 0
Still s t =
    (t.live ≡ s.live)
    × (t.building ≡ s.building)
    × (t.spawned ≡ s.spawned)
    × (s.updating ≡ true → t.updating ≡ true)

end_if_closed-Still : (s t : Supervisor) → Still s t → Still s (end_if_closed t)
end_if_closed-Still s t h = if_elim (Still s) (is_empty t.awaiting) _ _ (λ _. h) (λ _. h)

pub shut_down-Still : (s : Supervisor) → Still s (shut_down s)
unfolding shut_down
shut_down-Still s =
    if_elim (Still s) s.shutting_down _ _ (λ _. (refl, refl, refl, λ u. u))
      (λ _. end_if_closed-Still s _ (refl, refl, refl, λ _. refl))

pub on_flushed-Still : (number : ℕ) (s : Supervisor) → Still s (on_flushed number s)
unfolding on_flushed
on_flushed-Still number s =
    if_elim (Still s) (not s.shutting_down || any (λ c. c.number == number) s.live) _ _
      (λ _. (refl, refl, refl, λ u. u)) (λ _. end_if_closed-Still s _ (refl, refl, refl, λ u. u))

pub on_shutdown_timeout-Still : (s : Supervisor) → Still s (on_shutdown_timeout s)
unfolding on_shutdown_timeout
on_shutdown_timeout-Still s =
    if_elim (Still s) s.shutting_down _ _ (λ _. (refl, refl, refl, λ u. u))
      (λ _. (refl, refl, refl, λ u. u))

pub host_update-Still : (s : Supervisor) → Still s (host_update s)
unfolding host_update stop_all
host_update-Still s = (refl, refl, refl, λ u. u)

pub on_stopped-Still : (failed : Bool) (s : Supervisor) → Still s (on_stopped failed s)
unfolding on_stopped
on_stopped-Still failed s = go s.waiting
  where
    after : List AfterStop → Supervisor
    after waits = elim waits [
      | [] ↦ s
      | next ∷ waiting ↦ record s {
        waiting = waiting;
        ended = some (elim next [
          | installs ↦ if failed then exits_with 1 else re_execs
          | host_restarts ↦ re_execs
        ]);
      }
    ]

    go : (waits : List AfterStop) → Still s (after waits)
    go [] = (refl, refl, refl, λ u. u)
    go (next ∷ waiting) = (refl, refl, refl, λ u. u)

pub apply_registered_agent_id-Still :
    (key : String) (s : Supervisor) → Still s (apply_registered_agent_id key s)
unfolding apply_registered_agent_id
apply_registered_agent_id-Still key s = go (s.folders key).registered_agent_id
  where
    go : (id : Option String) → Still s (use_id key id s)
    go none = (refl, refl, refl, λ u. u)
    go (some id) =
        if_elim (Still s) (str_eq id "" || same_id (project_agent_id key s) id) s
          (record s { agent_ids = insert key id s.agent_ids }) (λ _. (refl, refl, refl, λ u. u))
          (λ _. (refl, refl, refl, λ u. u))
