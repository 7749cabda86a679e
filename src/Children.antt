-- ===== src/Children.antt =====
-- child-process-manager.ts: one child process per project, started again when it exits. The objects that
-- the maps, the timers and the handlers share stand in a store, numbered by the order of their forks.
pub mod Crashes
pub mod Stopping
pub mod Respawn
pub mod Busy
mod Tests
use ai_support_agent_cli.Common.{
  ℕ, zero, suc, ◌+◌, Bool, true, false, not, ◌&&◌, Option, none, some, List, [], ◌∷◌, String,
  if◌then◌else◌, lookup, insert, remove, leb, ◌==◌, filter, any,
}

abbrev pub child_process_max_restarts : ℕ
child_process_max_restarts = 5

-- A `ManagedProcess`; `token` is that of the project in its start message.
pub record Managed : Type 0 where
  pub restart_count : ℕ
  pub token : String

-- A timer of `handleChildExit`, with what its closure holds: the key and the object.
pub record Timer : Type 0 where
  pub number : ℕ
  pub key : String
  pub object : ℕ

-- `restart_timers` is the map of the class, from a key to the number of the last timer set for it, and
-- `armed` are the timers that are set. `waiting` are the calls of `stopProject` that wait for a child.
pub record Manager : Type 0 where
  pub processes : List (String × ℕ)
  pub objects : ℕ → Managed
  pub forks : ℕ
  pub restart_timers : List (String × ℕ)
  pub armed : List Timer
  pub timers : ℕ
  pub waiting : List (String × ℕ)
  pub stopping : Bool

-- The object `i` is changed.
abbrev pub update : ℕ → Managed → (ℕ → Managed) → ℕ → Managed
update i managed objects j = if i == j then managed else objects j

abbrev pub count_of : (ℕ → Managed) → Option ℕ → ℕ
count_of objects none = 0
count_of objects (some i) = (objects i).restart_count

unfoldable pub spawn_child : String → String → Manager → Manager
spawn_child key token m = record m {
  processes = insert key m.forks m.processes;
  objects =
      update m.forks
        (record { restart_count = count_of m.objects (lookup key m.processes); token = token })
        m.objects;
  forks = suc m.forks;
}

-- `clearTimeout`
abbrev pub clear : ℕ → List Timer → List Timer
clear number armed = filter (λ t. not (t.number == number)) armed

abbrev pub schedule : String → ℕ → Manager → Manager
schedule key i m = record m {
  objects =
      update i
        (record { restart_count = suc (m.objects i).restart_count; token = (m.objects i).token })
        m.objects;
  restart_timers = insert key m.timers m.restart_timers;
  armed = record { number = m.timers; key = key; object = i } ∷ m.armed;
  timers = suc m.timers;
}

unfoldable pub handle_child_exit : String → Manager → Manager
handle_child_exit key m = elim (lookup key m.processes) [
  | none ↦ m
  | some i ↦
      if leb child_process_max_restarts (m.objects i).restart_count
      then record m { processes = remove key m.processes }
      else schedule key i m
]

-- The calls of `stopProject` that wait for this child go on: each deletes its key.
abbrev pub resolve : ℕ → List (String × ℕ) → List (String × ℕ) → List (String × ℕ)
resolve child [] processes = processes
resolve child ((key, c) ∷ waiting) processes =
    if c == child
    then remove key (resolve child waiting processes)
    else resolve child waiting processes

abbrev pub resolved : ℕ → Manager → Manager
resolved child m = record m {
  processes = resolve child m.waiting m.processes;
  waiting = filter (λ w. not (w.1 == child)) m.waiting;
}

-- The child `child` of a project exits: the handlers run in the order in which they were added, and then
-- what waits for the exit goes on.
unfoldable pub on_exit : String → ℕ → Manager → Manager
unfolding handle_child_exit
on_exit key child m = resolved child (if m.stopping then m else handle_child_exit key m)

abbrev pub find_timer : ℕ → List Timer → Option Timer
find_timer number [] = none
find_timer number (t ∷ armed) = if t.number == number then some t else find_timer number armed

abbrev pub fire : Timer → Manager → Manager
fire t m =
    let after = record m {
      armed = clear t.number m.armed;
      restart_timers = remove t.key m.restart_timers;
    } in
    if m.stopping then after else spawn_child t.key (m.objects t.object).token after

-- A restart timer fires.
unfoldable pub on_timer : ℕ → Manager → Manager
unfolding spawn_child
on_timer number m = elim (find_timer number m.armed) [ none ↦ m | some t ↦ fire t m ]

abbrev pub clear_restart : Option ℕ → String → Manager → Manager
clear_restart none key m = m
clear_restart (some number) key m = record m {
  armed = clear number m.armed;
  restart_timers = remove key m.restart_timers;
}

-- `stopProject`, up to its wait.
unfoldable pub stop_project : String → Manager → Manager
stop_project key m =
    let cleared = clear_restart (lookup key m.restart_timers) key m in
    elim (lookup key m.processes) [
      | none ↦ cleared
      | some i ↦ record cleared { waiting = (key, i) ∷ m.waiting }
    ]

-- One of the calls that wait for this child is done.
abbrev pub done_waiting : ℕ → List (String × ℕ) → List (String × ℕ)
done_waiting child [] = []
done_waiting child ((key, c) ∷ waiting) =
    if c == child then waiting else (key, c) ∷ done_waiting child waiting

-- The wait of `stopProject` times out: the child is killed, and its key deleted.
unfoldable pub on_stop_timeout : String → ℕ → Manager → Manager
on_stop_timeout key child m =
    if any (λ w. w.1 == child) m.waiting
    then record m { processes = remove key m.processes; waiting = done_waiting child m.waiting }
    else m

unfoldable pub send_token_update : String → String → Manager → Manager
send_token_update key token m = elim (lookup key m.processes) [
  | none ↦ m
  | some i ↦ record m {
    objects =
        update i (record { restart_count = (m.objects i).restart_count; token = token }) m.objects;
  }
]

-- The message `started` of a child.
unfoldable pub on_started : String → Manager → Manager
on_started key m = elim (lookup key m.processes) [
  | none ↦ m
  | some i ↦ record m {
    objects = update i (record { restart_count = 0; token = (m.objects i).token }) m.objects;
  }
]

abbrev pub clear_all : List (String × ℕ) → List Timer → List Timer
clear_all [] armed = armed
clear_all ((key, number) ∷ timers) armed = clear number (clear_all timers armed)

-- `stopAll`, up to its wait, and after it.
unfoldable pub stop_all : Manager → Manager
stop_all m = record m {
  stopping = true;
  armed = clear_all m.restart_timers m.armed;
  restart_timers = [];
}

unfoldable pub all_stopped : Manager → Manager
all_stopped m = record m { processes = [] }

pub data Event : Type 0 where
  forks_project : String → String → Event
  exits : String → ℕ → Event
  fires : ℕ → Event
  stops : String → Event
  stop_times_out : String → ℕ → Event
  updates_token : String → String → Event
  starts : String → Event
  stops_all : Event
  ends_all : Event

unfoldable pub step : Manager → Event → Manager
unfolding spawn_child on_exit on_timer stop_project on_stop_timeout send_token_update on_started
    stop_all all_stopped
step m (forks_project key token) = spawn_child key token m
step m (exits key child) = on_exit key child m
step m (fires number) = on_timer number m
step m (stops key) = stop_project key m
step m (stop_times_out key child) = on_stop_timeout key child m
step m (updates_token key token) = send_token_update key token m
step m (starts key) = on_started key m
step m stops_all = stop_all m
step m ends_all = all_stopped m

unfoldable pub run : Manager → List Event → Manager
run m [] = m
run m (e ∷ es) = run (step m e) es

abbrev pub fresh : Manager
fresh = record {
  processes = [];
  objects = λ i. record { restart_count = 0; token = "" };
  forks = 0;
  restart_timers = [];
  armed = [];
  timers = 0;
  waiting = [];
  stopping = false;
}
