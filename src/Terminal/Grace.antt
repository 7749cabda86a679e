-- ===== src/Terminal/Grace.antt =====
-- terminal/terminal-session-manager.ts: the invariant of the grace timers.
use ai_support_agent_cli.Common.{
  ℕ, true, not, ◌&&◌, ◌||◌, Option, List, [], ◌∷◌, String, ◌≡◌, inl, inr, refl, ◌∙◌, Bool-cases,
  Option-cases, arith, lookup, insert, remove, has, member, add, erase, member-add, member-erase,
  lookup-insert, lookup-remove,
}
use ai_support_agent_cli.Terminal.{
  Meta, Manager, meta_matches, clear_grace_timer, resume_object, resume_session,
  create_session_with_id, kill, drop, close_session, clear_each, kill_each, close_all,
  schedule_each, close_all_gracefully, on_grace_timer, on_exit, Event, resumes, creates, closes,
  closes_all, disconnects, expires, exits, step, run, empty,
}

-- The tests that a resume of the session `i` passes.

-- A grace timer is set only for a session that is managed.
abbrev pub Timed : List String → List (String × ℕ) → Type 0
Timed timers sessions = (k : String) → member k timers ≡ true → has k sessions ≡ true

module _ (id : String) (timers : List String) (sessions : List (String × ℕ))
    (h : Timed timers sessions) where
  Timed-erase : Timed (erase id timers) sessions
  Timed-erase k e = h k (ground (arith, member-erase id k timers, e))

  Timed-insert : (n : ℕ) → Timed timers (insert id n sessions)
  Timed-insert n k e = rw (lookup-insert id k n sessions) (ground (arith, h k e))

  Timed-remove : Timed (erase id timers) (remove id sessions)
  Timed-remove k e =
      rw (lookup-remove id k sessions) (ground (arith, h k, member-erase id k timers, e))

member-schedule_each :
    (k : String) (sessions : List (String × ℕ)) (timers : List String)
    → member k (schedule_each sessions timers) ≡ (member k timers || has k sessions)
unfolding lookup
member-schedule_each k [] timers = ground arith
member-schedule_each k ((id, i) ∷ sessions) timers = ground (
  arith,
  member-schedule_each k sessions (add id (erase id timers)),
  member-add id k (erase id timers),
  member-erase id k timers,
)

member-clear_each :
    (k : String) (sessions : List (String × ℕ)) (timers : List String)
    → member k (clear_each sessions timers) ≡ (member k timers && not (has k sessions))
unfolding lookup
member-clear_each k [] timers = ground arith
member-clear_each k ((id, i) ∷ sessions) timers =
    ground (arith, member-clear_each k sessions (erase id timers), member-erase id k timers)

kill-sessions :
    (i : ℕ) (m : Manager)
    → ((kill i m).sessions ≡ m.sessions) × ((kill i m).grace_timers ≡ m.grace_timers)
kill-sessions i m = elim (Bool-cases (m.objects i).exited) [
  | inl x ↦ rw x (refl, refl)
  | inr x ↦ rw x (refl, refl)
]

kill_each-timers :
    (ss : List (String × ℕ)) (m : Manager) → (kill_each ss m).grace_timers ≡ m.grace_timers
kill_each-timers [] m = refl
kill_each-timers ((id, i) ∷ ss) m = kill_each-timers ss (kill i m) ∙ (kill-sessions i m).1

abbrev pub AllTimed : Manager → Type 0
AllTimed m = Timed m.grace_timers m.sessions

killed-Timed :
    (id : String) (i : ℕ) (m : Manager)
    → AllTimed m
    → AllTimed (drop id (kill i (clear_grace_timer id m)))
unfolding clear_grace_timer
killed-Timed id i m h =
    let cleared = clear_grace_timer id m in
    let (s, t) = kill-sessions i cleared in rw (s, t) (Timed-remove id m.grace_timers m.sessions h)

create-Timed :
    (id : String) (meta : Option Meta) (m : Manager)
    → AllTimed m
    → AllTimed (create_session_with_id id meta m).1
unfolding create_session_with_id
create-Timed id meta m h =
    let erased = Timed-erase id m.grace_timers m.sessions h in
    let spawned = Timed-insert id (erase id m.grace_timers) m.sessions erased m.spawned in
    elim (Option-cases (lookup id m.sessions)) [
      | inl e ↦ rw (create_session_with_id, e) (unfold clear_grace_timer in spawned)
      | inr (i, e) ↦
          rw (create_session_with_id, e)
            (elim (Bool-cases (m.objects i).exited) [
              | inl x ↦ rw x (unfold clear_grace_timer in spawned)
              | inr x ↦ rw x (unfold clear_grace_timer in erased)
            ])
    ]

none_left :
    (k : String) (m : Manager)
    → (member k m.grace_timers ≡ true → has k m.sessions ≡ true)
    → member k (clear_each m.sessions m.grace_timers) ≡ true
    → ⊥
none_left k m h e = ground (arith, h, e, member-clear_each k m.sessions m.grace_timers)

resume_object-Timed :
    (id : String) (meta : Option Meta) (i : ℕ) (m : Manager)
    → AllTimed m
    → AllTimed (resume_object id meta i m).1
unfolding clear_grace_timer
resume_object-Timed id meta i m h = elim (Bool-cases (m.objects i).exited) [
  | inl x ↦ rw x h
  | inr x ↦ elim (Bool-cases (meta_matches (m.objects i).meta meta)) [
    | inl y ↦ rw (x, y) (Timed-erase id m.grace_timers m.sessions h)
    | inr y ↦ rw (x, y) h
  ]
]

resume-Timed :
    (id : String) (meta : Option Meta) (m : Manager)
    → AllTimed m
    → AllTimed (resume_session id meta m).1
unfolding resume_session
resume-Timed id meta m h = elim (Option-cases (lookup id m.sessions)) [
  | inl e ↦ rw (resume_session, e) h
  | inr (i, e) ↦ rw (resume_session, e) (resume_object-Timed id meta i m h)
]

close-Timed : (id : String) (m : Manager) → AllTimed m → AllTimed (close_session id m).1
unfolding close_session
close-Timed id m h = elim (Option-cases (lookup id m.sessions)) [
  | inl e ↦ rw (close_session, e) h
  | inr (i, e) ↦ rw (close_session, e) (killed-Timed id i m h)
]

expire-Timed : (id : String) (m : Manager) → AllTimed m → AllTimed (on_grace_timer id m)
unfolding on_grace_timer
expire-Timed id m h = elim (Bool-cases (member id m.grace_timers)) [
  | inl t ↦
      rw (on_grace_timer, t)
        (elim (Option-cases (lookup id m.sessions)) [
          | inl e ↦ rw e (unfold clear_grace_timer in Timed-erase id m.grace_timers m.sessions h)
          | inr (i, e) ↦ rw e (killed-Timed id i m h)
        ])
  | inr t ↦ rw (on_grace_timer, t) h
]

step-Timed : (m : Manager) (e : Event) → AllTimed m → AllTimed (step m e)
unfolding step close_session close_all close_all_gracefully on_grace_timer on_exit clear_grace_timer
step-Timed m (resumes id meta) h = resume-Timed id meta m h
step-Timed m (creates id meta) h = create-Timed id meta m h
step-Timed m (closes id) h = close-Timed id m h
step-Timed m closes_all h = λ k e. absurd (
    none_left k m (h k) (
      rw
        (kill_each-timers m.sessions
          (record m { grace_timers = clear_each m.sessions m.grace_timers }))
        at e))
step-Timed m disconnects h =
    λ k e. ground (arith, h k, e, member-schedule_each k m.sessions m.grace_timers)
step-Timed m (expires id) h = expire-Timed id m h
step-Timed m (exits i) h = Timed-remove (m.objects i).session_id m.grace_timers m.sessions h

run_timed : (m : Manager) (es : List Event) → AllTimed m → AllTimed (run m es)
unfolding run
run_timed m [] h = h
run_timed m (e ∷ es) h = run_timed (step m e) es (step-Timed m e h)

empty-AllTimed : AllTimed empty
unfolding member
empty-AllTimed k e = cc

-- Whatever happens to the sessions, a grace timer is set only for a session that is managed, so none is left
-- over to kill a session that is made later under the same id; and a lost connection sets a timer for every
-- session.
pub run-Timed :
    (events : List Event) (k : String)
    → let m = run empty events in
      (member k m.grace_timers ≡ true → has k m.sessions ≡ true)
      × (member k (close_all_gracefully m).grace_timers ≡ has k m.sessions)
unfolding close_all_gracefully
run-Timed events k =
    let m = run empty events in
    let timed = run_timed empty events empty-AllTimed k in
    (timed, ground (arith, timed, member-schedule_each k m.sessions m.grace_timers))
