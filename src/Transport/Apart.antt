-- ===== src/Transport/Apart.antt =====
-- agent-transport.ts: the run of one command leaves the files and the runs of the other commands alone.
use ai_support_agent_cli.Common.{
  Bool, true, false, Option, none, some, List, [], ◌∷◌, String, ◌≡◌, ◌≢◌, refl, sym, ◌∙◌, ap,
  if◌then◌else◌, All, lookup, str_eq, str_eq-ne, lookup-insert, lookup-remove, member,
}
use ai_support_agent_cli.Pending.{CommandResult, failure}
use ai_support_agent_cli.Pending.Laws.{lookup-save_pending_result, lookup-remove_pending_result}
use ai_support_agent_cli.Transport.{
  CommandError, TransportDeps, Phase, fetching, executing, submitting, reporting, World, Event,
  arrives, fetched, executed, CommandDetail, Answer, gives, throws, submitted, drains, finish,
  discard, save_and_send, run, Disk, pending_of, on_submitted, on_error, on_fetched, on_executed,
  begin_command, step, is_command_claimed_by_another_replica, resume_fetched, resume_executed,
  resume_submitted,
}
use ai_support_agent_cli.Transport.Moves.{remember_only, after_end}

-- Nothing has happened to the command: its run and its file are as before.
pub record Same (id : String) (w w' : World) : Type 0 where
  pub task : lookup id w'.tasks ≡ lookup id w.tasks
  pub file : lookup id w'.store ≡ lookup id w.store

unchanged : {id : String} {w : World} → Same id w w
unchanged = record { task = refl; file = refl }

Same-if :
    {id : String} {w : World} (b : Bool) (x y : World)
    → Same id w x
    → Same id w y
    → Same id w (if b then x else y)
Same-if true x y h k = h
Same-if false x y h k = k

module _ (deps : TransportDeps) (k id : String) (apart : str_eq k id ≡ false) where
  Same-finish : (w : World) → Same id w (finish k w)
  unfolding finish
  Same-finish w = record { task = rw (lookup-remove k id w.tasks, apart) refl; file = refl }

  Same-drop : (w : World) → Same id w (finish k (discard k w))
  unfolding finish discard
  Same-drop w = record {
    task = rw (lookup-remove k id w.tasks, apart) refl;
    file = rw (lookup-remove_pending_result k id w.store, apart) refl;
  }

  saved_apart :
      {A : Type 0} (writable : Bool) (x y : A)
      → (if writable then (if str_eq k id then x else y) else y) ≡ y
  saved_apart true x y = rw apart refl
  saved_apart false x y = refl

  Same-send :
      (disk : Disk) (result : CommandResult) (phase : Bool → Phase) (w : World)
      → Same id w (save_and_send deps disk k result phase w)
  unfolding save_and_send
  Same-send disk result phase w = record {
    task = rw (lookup-insert k id _ w.tasks, apart) refl;
    file =
        lookup-save_pending_result disk.writable (pending_of deps w disk k result) id w.store
        ∙ saved_apart disk.writable _ (lookup id w.store);
  }

  Same-error : (disk : Disk) (e : CommandError) (w : World) → Same id w (on_error deps disk k e w)
  unfolding on_error
  Same-error disk e w =
      Same-if (is_command_claimed_by_another_replica e.kind) _ _ (Same-drop w)
        (Same-send disk (failure e.message) (reporting (failure e.message)) w)

  Same-fetched :
      (disk : Disk) (answer : Answer CommandDetail) (w : World)
      → Same id w (on_fetched deps disk k answer w)
  unfolding on_fetched
  Same-fetched disk (gives d) w =
      let (assignments, e) = remember_only k d w in
      rw e (record { task = rw (lookup-insert k id executing w.tasks, apart) refl; file = refl })
  Same-fetched disk (throws e) w =
      Same-if (is_command_claimed_by_another_replica e.kind) _ _ (Same-finish w)
        (Same-error disk e w)

  Same-executed :
      (disk : Disk) (answer : Answer CommandResult) (w : World)
      → Same id w (on_executed deps disk k answer w)
  unfolding on_executed
  Same-executed disk (gives result) w =
      let s = Same-send disk result (submitting result) (after_end k w) in
      record { task = s.task; file = s.file }
  Same-executed disk (throws e) w =
      let s = Same-error disk e (after_end k w) in record { task = s.task; file = s.file }

  Same-submitted : (answer : Option CommandError) (w : World) → Same id w (on_submitted k answer w)
  unfolding on_submitted
  Same-submitted none w = Same-drop w
  Same-submitted (some e) w =
      Same-if (is_command_claimed_by_another_replica e.kind) _ _ (Same-drop w) (Same-finish w)

  Same-begin : (w : World) → Same id w (begin_command k w)
  unfolding begin_command
  Same-begin w = Same-if w.draining _ _ unchanged (
      Same-if (member k w.in_flight) _ _ unchanged
        (record { task = rw (lookup-insert k id fetching w.tasks, apart) refl; file = refl }))

-- The end of a wait of a command that has no run does nothing.
module _ (deps : TransportDeps) (id : String) (w : World) (idle : lookup id w.tasks ≡ none) where
  other : (k : String) (phase : Phase) → lookup k w.tasks ≡ some phase → str_eq k id ≡ false
  other k phase e =
      str_eq-ne k id (λ same. two_ends (sym e ∙ ap (λ j. lookup j w.tasks) same ∙ idle))
    where
      two_ends : {p : Phase} → some p ≡ none → ⊥
      two_ends h = cc

  fetched-Same :
      (k : String) (disk : Disk) (answer : Answer CommandDetail) (o : Option Phase)
      → lookup k w.tasks ≡ o
      → Same id w (resume_fetched deps disk k answer w o)
  fetched-Same k disk answer (some fetching) e =
      Same-fetched deps k id (other k fetching e) disk answer w
  fetched-Same k disk answer none e = unchanged
  fetched-Same k disk answer (some executing) e = unchanged
  fetched-Same k disk answer (some (submitting r p)) e = unchanged
  fetched-Same k disk answer (some (reporting r p)) e = unchanged

  executed-Same :
      (k : String) (disk : Disk) (answer : Answer CommandResult) (o : Option Phase)
      → lookup k w.tasks ≡ o
      → Same id w (resume_executed deps disk k answer w o)
  executed-Same k disk answer (some executing) e =
      Same-executed deps k id (other k executing e) disk answer w
  executed-Same k disk answer none e = unchanged
  executed-Same k disk answer (some fetching) e = unchanged
  executed-Same k disk answer (some (submitting r p)) e = unchanged
  executed-Same k disk answer (some (reporting r p)) e = unchanged

  submitted-Same :
      (k : String) (answer : Option CommandError) (o : Option Phase)
      → lookup k w.tasks ≡ o
      → Same id w (resume_submitted k answer w o)
  submitted-Same k answer (some (submitting r p)) e =
      Same-submitted deps k id (other k (submitting r p) e) answer w
  submitted-Same k answer (some (reporting r p)) e =
      Same-submitted deps k id (other k (reporting r p) e) answer w
  submitted-Same k answer none e = unchanged
  submitted-Same k answer (some fetching) e = unchanged
  submitted-Same k answer (some executing) e = unchanged

  step-Same : (e : Event) → e ≢ arrives id → Same id w (step deps w e)
  unfolding step
  step-Same (arrives k) new =
      Same-begin deps k id (str_eq-ne k id (λ same. new (ap arrives same))) w
  step-Same (fetched k answer disk) new = fetched-Same k disk answer (lookup k w.tasks) refl
  step-Same (executed k answer disk) new = executed-Same k disk answer (lookup k w.tasks) refl
  step-Same (submitted k answer) new = submitted-Same k answer (lookup k w.tasks) refl
  step-Same drains new = record { task = refl; file = refl }

-- Until a command that has no run arrives again, nothing happens to its file.
pub run-Same :
    (deps : TransportDeps) (id : String) (w : World) (es : List Event)
    → lookup id w.tasks ≡ none
    → All (λ e. e ≢ arrives id) es
    → lookup id (run deps w es).store ≡ lookup id w.store
unfolding run
run-Same deps id w [] idle new = refl
run-Same deps id w (e ∷ es) idle (h, hs) =
    let s = step-Same deps id w idle e h in
    run-Same deps id (step deps w e) es (s.task ∙ idle) hs ∙ s.file
