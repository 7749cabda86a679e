-- ===== src/Terminal.antt =====
-- terminal/terminal-session-manager.ts: the terminal sessions of an agent, with the grace timers that
-- keep them over a lost connection. A timer is set exactly while its key is in the map `graceTimers`, so
-- that map is a set of keys here.
pub mod Sessions
pub mod Grace
pub mod Exits
mod Tests
use ai_support_agent_cli.Common.{
  ℕ, suc, Bool, true, false, not, ◌&&◌, Option, none, some, List, [], ◌∷◌, String, if◌then◌else◌,
  str_eq, lookup, insert, remove, member, add, erase, ◌==◌,
}

pub record Meta : Type 0 where
  pub tenant_code : String
  pub project_code : String
  pub user_id : String

-- A `TerminalSession`: the id and the meta it was made with, whether its process has exited, and whether
-- it was told to.
pub record Session : Type 0 where
  pub session_id : String
  pub meta : Option Meta
  pub exited : Bool
  pub killed : Bool

-- `objects` has the sessions by the order in which they were made, `spawned` counts them.
pub record Manager : Type 0 where
  pub sessions : List (String × ℕ)
  pub grace_timers : List String
  pub objects : ℕ → Session
  pub spawned : ℕ

pub data ResumeResult : Type 0 where
  resumed : ℕ → ResumeResult
  not_found : ResumeResult
  dead : ResumeResult
  meta_mismatch : ResumeResult

abbrev pub same_meta : Meta → Meta → Bool
same_meta a b =
    str_eq a.tenant_code b.tenant_code
    && (str_eq a.project_code b.project_code && str_eq a.user_id b.user_id)

unfoldable pub meta_matches : Option Meta → Option Meta → Bool
meta_matches none presented = false
meta_matches (some a) none = false
meta_matches (some a) (some b) = same_meta a b

abbrev pub set : ℕ → Session → (ℕ → Session) → ℕ → Session
set i s objects j = if i == j then s else objects j

unfoldable pub clear_grace_timer : String → Manager → Manager
clear_grace_timer id m = record m { grace_timers = erase id m.grace_timers }

abbrev pub resume_object : String → Option Meta → ℕ → Manager → ResumeResult × Manager
resume_object id presented i m =
    if (m.objects i).exited
    then (dead, m)
    else if not (meta_matches (m.objects i).meta presented)
    then (meta_mismatch, m)
    else (resumed i, clear_grace_timer id m)

unfoldable pub resume_session : String → Option Meta → Manager → ResumeResult × Manager
unfolding clear_grace_timer meta_matches
resume_session id presented m = elim (lookup id m.sessions) [
  | none ↦ (not_found, m)
  | some i ↦ resume_object id presented i m
]

abbrev pub spawn : String → Option Meta → Manager → ℕ × Manager
spawn id meta m = (
  m.spawned,
  record m {
    sessions = insert id m.spawned m.sessions;
    objects =
        set m.spawned (record { session_id = id; meta = meta; exited = false; killed = false })
          m.objects;
    spawned = suc m.spawned;
  },
)

unfoldable pub create_session_with_id : String → Option Meta → Manager → ℕ × Manager
unfolding clear_grace_timer
create_session_with_id id meta m =
    let cleared = clear_grace_timer id m in
    elim (lookup id m.sessions) [
      | none ↦ spawn id meta cleared
      | some i ↦ if not (m.objects i).exited then (i, cleared) else spawn id meta cleared
    ]

-- `kill` does nothing to a session that has exited.
abbrev pub kill : ℕ → Manager → Manager
kill i m =
    if (m.objects i).exited
    then m
    else record m { objects = set i (record (m.objects i) { killed = true }) m.objects }

abbrev pub drop : String → Manager → Manager
drop id m = record m { sessions = remove id m.sessions }

unfoldable pub close_session : String → Manager → Bool × Manager
unfolding clear_grace_timer
close_session id m = elim (lookup id m.sessions) [
  | none ↦ (false, m)
  | some i ↦ (true, drop id (kill i (clear_grace_timer id m)))
]

abbrev pub clear_each : List (String × ℕ) → List String → List String
clear_each [] timers = timers
clear_each ((id, i) ∷ sessions) timers = clear_each sessions (erase id timers)

abbrev pub kill_each : List (String × ℕ) → Manager → Manager
kill_each [] m = m
kill_each ((id, i) ∷ sessions) m = kill_each sessions (kill i m)

unfoldable pub close_all : Manager → Manager
close_all m =
    record (kill_each m.sessions
      (record m { grace_timers = clear_each m.sessions m.grace_timers })) { sessions = [] }

abbrev pub schedule_each : List (String × ℕ) → List String → List String
schedule_each [] timers = timers
schedule_each ((id, i) ∷ sessions) timers = schedule_each sessions (add id (erase id timers))

unfoldable pub close_all_gracefully : Manager → Manager
close_all_gracefully m = record m { grace_timers = schedule_each m.sessions m.grace_timers }

-- The grace timer of a key fires.
unfoldable pub on_grace_timer : String → Manager → Manager
unfolding clear_grace_timer
on_grace_timer id m =
    if member id m.grace_timers
    then elim (lookup id m.sessions) [
      | none ↦ clear_grace_timer id m
      | some i ↦ drop id (kill i (clear_grace_timer id m))
    ]
    else m

-- The process of the session `i` exits: the handler that the manager gave the session runs.
unfoldable pub on_exit : ℕ → Manager → Manager
unfolding clear_grace_timer
on_exit i m =
    let id = (m.objects i).session_id in
    drop id (
      clear_grace_timer id
        (record m { objects = set i (record (m.objects i) { exited = true }) m.objects }))

pub data Event : Type 0 where
  resumes : String → Option Meta → Event
  creates : String → Option Meta → Event
  closes : String → Event
  closes_all : Event
  disconnects : Event
  expires : String → Event
  exits : ℕ → Event

unfoldable pub step : Manager → Event → Manager
unfolding resume_session create_session_with_id close_session close_all close_all_gracefully
    on_grace_timer on_exit
step m (resumes id meta) = (resume_session id meta m).1
step m (creates id meta) = (create_session_with_id id meta m).1
step m (closes id) = (close_session id m).1
step m closes_all = close_all m
step m disconnects = close_all_gracefully m
step m (expires id) = on_grace_timer id m
step m (exits i) = on_exit i m

unfoldable pub run : Manager → List Event → Manager
run m [] = m
run m (e ∷ es) = run (step m e) es

abbrev pub empty : Manager
empty = record {
  sessions = [];
  grace_timers = [];
  objects = λ i. record { session_id = ""; meta = none; exited = true; killed = false };
  spawned = 0;
}
