-- ===== src/Children/Tests.antt =====
-- The children at concrete inputs.
use ai_support_agent_cli.Common.{
  suc, ◌+◌, ◌-◌, ◌<◌, min, ◌≡◌, ◌++◌, refl, true, false, none, some, List, [], ◌∷◌, String, arith,
  All, lookup, insert, remove, erase, differ-str_eq,
}
use ai_support_agent_cli.Children.{
  child_process_max_restarts, Manager, spawn_child, handle_child_exit, on_exit, on_timer, stop_all,
  send_token_update, on_started, Event, forks_project, exits, fires, stops, updates_token, starts,
  step, run, fresh,
}
use ai_support_agent_cli.Children.Stopping.{Forkless, stop_all-forks}
use ai_support_agent_cli.Children.Respawn.{Restartable, stop_project-respawns}
use ai_support_agent_cli.Children.Crashes.{crashes, Runs, crashes-stop}
use ai_support_agent_cli.Children.Busy.{
  Response, Arrival, responds, times_out, Before, await_busy, is_any_busy,
}

-- One project, whose child is number 0.
abbrev one : Manager
one = record fresh {
  processes = ("acme/web", 0) ∷ [];
  objects = λ i. record { restart_count = 0; token = "t1" };
  forks = 1;
}

abbrev crashing : List Event
crashing =
    forks_project "acme/web" "t1"
    ∷ exits "acme/web" 0
    ∷ fires 0
    ∷ updates_token "acme/web" "t2"
    ∷ starts "acme/web"
    ∷ exits "acme/web" 1
    ∷ fires 1
    ∷ []

crashing_computed :
    (lookup "acme/web" (run fresh crashing).processes ≡ some 2)
    × (((run fresh crashing).objects 2).token ≡ "t2")
    × (((run fresh crashing).objects 2).restart_count ≡ 1)
unfolding run step spawn_child handle_child_exit on_exit on_timer send_token_update on_started
    lookup insert remove
crashing_computed = (refl, refl, refl)

forkless : All Forkless (exits "acme/web" 0 ∷ fires 0 ∷ [])
forkless = ((λ key token h. cc), ((λ key token h. cc), tt))

stop_all-forks_example :
    ((run (stop_all one) (exits "acme/web" 0 ∷ fires 0 ∷ [])).stopping ≡ true)
    × ((run (stop_all one) (exits "acme/web" 0 ∷ fires 0 ∷ [])).forks ≡ 1)
stop_all-forks_example = stop_all-forks one (exits "acme/web" 0 ∷ fires 0 ∷ []) forkless

one-Restartable : Restartable "acme/web" 0 one
unfolding lookup
one-Restartable = (refl, refl, omega arith)

stop_project-respawns_example :
    let stopped = run one (stops "acme/web" ∷ exits "acme/web" 0 ∷ []) in
    (lookup "acme/web" stopped.processes ≡ none)
    × (lookup "acme/web" (step stopped (fires 0)).processes ≡ some 1)
    × ((step stopped (fires 0)).forks ≡ suc 1)
stop_project-respawns_example = stop_project-respawns "acme/web" 0 one one-Restartable

-- One project, whose child has been restarted four times.
abbrev weary : Manager
weary = record fresh {
  processes = ("acme/web", 0) ∷ [];
  objects = λ i. record { restart_count = 4; token = "t1" };
  forks = 1;
}

weary-Runs : Runs "acme/web" 4 weary
unfolding lookup
weary-Runs = record {
  child = 0;
  found = refl;
  counted = refl;
  no_timer = refl;
  no_wait = refl;
  goes = refl;
}

crashes-stop_example :
    ((crashes 3 "acme/web" weary).forks ≡ 1 + min 3 (child_process_max_restarts - 4))
    × (child_process_max_restarts - 4 < 3
        → lookup "acme/web" (crashes 3 "acme/web" weary).processes ≡ none)
crashes-stop_example = crashes-stop 3 "acme/web" 4 weary weary-Runs (omega arith)

crashes_computed :
    ((crashes 3 "acme/web" weary).forks ≡ 2) × ((crashes 3 "acme/web" weary).processes ≡ [])
unfolding crashes run step spawn_child handle_child_exit on_exit on_timer lookup insert remove
crashes_computed = (refl, refl)

abbrev busy_b : Response
busy_b = record { key = "b"; busy = true }

abbrev idle_a : List Arrival
idle_a = responds (record { key = "a"; busy = false }) ∷ []

busy_computed :
    (is_any_busy ("a" ∷ "b" ∷ []) (idle_a ++ (responds busy_b ∷ [])) ≡ some true)
    × (is_any_busy ("a" ∷ "b" ∷ []) (idle_a ++ (times_out ∷ [])) ≡ some false)
unfolding is_any_busy await_busy erase
busy_computed = (refl, refl)

abbrev connected : List String
connected = "a" ∷ "b" ∷ []

only_a : All (Before "b") idle_a
only_a = (differ-str_eq "a" "b" refl, tt)
