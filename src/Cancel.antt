-- ===== src/Cancel.antt =====
-- commands/process-manager.ts: the running processes of commands, and cancelling them.
mod Tests
use ai_support_agent_cli.Common.{
  ℕ, Bool, true, false, Option, none, some, List, [], ◌∷◌, ◌++◌, String, ◌≡◌, ◌≢◌, ◌⊎◌, inl, inr,
  refl, sym, ◌∙◌, if◌then◌else◌, Bool-cases, Option-cases, arith, lookup, insert, remove, has,
  member, add, erase, member-add, member-erase, lookup-insert, lookup-remove, lookup-remove_self,
  str_eq, eq_iff, eq_refl, str_eq-ne, All, is_some,
}

-- A handle is a number; `cancelled` has the handles whose `cancel` was called, the last one first.
pub record Manager : Type 0 where
  pub running : List (String × ℕ)
  pub pending_cancellations : List String
  pub cancelled : List ℕ

unfoldable pub register : String → ℕ → Manager → Manager
register id handle m =
    if member id m.pending_cancellations
    then record m {
      pending_cancellations = erase id m.pending_cancellations;
      cancelled = handle ∷ m.cancelled;
    }
    else record m { running = insert id handle m.running }

unfoldable pub cancel : String → Manager → Bool × Manager
cancel id m = elim (lookup id m.running) [
  | some handle ↦
      (true, record m { running = remove id m.running; cancelled = handle ∷ m.cancelled })
  | none ↦ (false, m)
]

unfoldable pub cancel_when_registered : String → Manager → Bool × Manager
unfolding cancel
cancel_when_registered id m =
    let (found, after) = cancel id m in
    if found
    then (true, after)
    else (false, record after { pending_cancellations = add id after.pending_cancellations })

unfoldable pub forget : String → Manager → Manager
forget id m = record m { running = remove id m.running }

pub data Operation : Type 0 where
  registers : String → ℕ → Operation
  cancels : String → Operation
  cancels_when_registered : String → Operation
  forgets : String → Operation

unfoldable pub operate : Manager → Operation → Manager
unfolding register cancel cancel_when_registered forget
operate m (registers id handle) = register id handle m
operate m (cancels id) = (cancel id m).1
operate m (cancels_when_registered id) = (cancel_when_registered id m).1
operate m (forgets id) = forget id m

unfoldable pub operations : Manager → List Operation → Manager
operations m [] = m
operations m (o ∷ os) = operations (operate m o) os

-- The operation registers no process of `id`.
abbrev pub Spares : String → Operation → Type 0
Spares id (registers other handle) = other ≢ id
Spares id (cancels other) = Unit
Spares id (cancels_when_registered other) = Unit
Spares id (forgets other) = Unit

-- A cancellation of `id` is pending, and no process of it runs.
abbrev pub Awaiting : String → Manager → Type 0
Awaiting id m = (member id m.pending_cancellations ≡ true) × (lookup id m.running ≡ none)

register-Awaiting :
    (id other : String) (handle : ℕ) (m : Manager)
    → other ≢ id
    → Awaiting id m
    → Awaiting id (register other handle m)
unfolding register
register-Awaiting id other handle m differs (p, r) =
    elim (Bool-cases (member other m.pending_cancellations)) [
      | inl e ↦
          rw e (rw (member-erase other id m.pending_cancellations, str_eq-ne other id differs) p, r)
      | inr e ↦ rw e (p, rw (lookup-insert other id handle m.running, str_eq-ne other id differs) r)
    ]

removed_still :
    (id other : String) (running : List (String × ℕ))
    → lookup id running ≡ none
    → lookup id (remove other running) ≡ none
removed_still id other running r = rw (lookup-remove other id running) (ground (arith, r))

cancel-Awaiting : (id other : String) (m : Manager) → Awaiting id m → Awaiting id (cancel other m).1
unfolding cancel
cancel-Awaiting id other m (p, r) = elim (Option-cases (lookup other m.running)) [
  | inl e ↦ rw (cancel, e) (p, r)
  | inr (handle, e) ↦ rw (cancel, e) (p, removed_still id other m.running r)
]

cancel_when_registered-Awaiting :
    (id other : String) (m : Manager)
    → Awaiting id m
    → Awaiting id (cancel_when_registered other m).1
unfolding cancel_when_registered
cancel_when_registered-Awaiting id other m h =
    let (p, r) = cancel-Awaiting id other m h in
    elim (Bool-cases (cancel other m).0) [
      | inl e ↦ rw e (p, r)
      | inr e ↦
          rw e (
            rw (member-add other id (cancel other m).1.pending_cancellations) (ground (arith, p)),
            r,
          )
    ]

operations-Awaiting :
    (id : String) (m : Manager) (os : List Operation)
    → All (Spares id) os
    → Awaiting id m
    → Awaiting id (operations m os)
unfolding operations operate
operations-Awaiting id m [] a h = h
operations-Awaiting id m (registers other handle ∷ os) (s, a) h =
    operations-Awaiting id (register other handle m) os a (register-Awaiting id other handle m s h)
operations-Awaiting id m (cancels other ∷ os) (s, a) h =
    operations-Awaiting id (cancel other m).1 os a (cancel-Awaiting id other m h)
operations-Awaiting id m (cancels_when_registered other ∷ os) (s, a) h =
    operations-Awaiting id (cancel_when_registered other m).1 os a
      (cancel_when_registered-Awaiting id other m h)
operations-Awaiting id m (forgets other ∷ os) (s, a) (p, r) =
    operations-Awaiting id (forget other m) os a
      (unfold forget in (p, removed_still id other m.running r))

requested :
    (id : String) (m : Manager)
    → lookup id m.running ≡ none
    → Awaiting id (cancel_when_registered id m).1
unfolding cancel_when_registered cancel
requested id m r =
    rw (cancel, r) (rw (member-add id id m.pending_cancellations, eq_refl id) refl, r)

caught :
    (id : String) (handle : ℕ) (m : Manager)
    → Awaiting id m
    → ((register id handle m).cancelled ≡ handle ∷ m.cancelled)
      × (lookup id (register id handle m).running ≡ none)
      × (member id (register id handle m).pending_cancellations ≡ false)
unfolding register
caught id handle m (p, r) =
    rw p (refl, r, rw (member-erase id id m.pending_cancellations, eq_refl id) refl)

cancelled_now :
    (id : String) (handle : ℕ) (m : Manager)
    → lookup id m.running ≡ some handle
    → ((cancel_when_registered id m).1.cancelled ≡ handle ∷ m.cancelled)
      × (lookup id (cancel_when_registered id m).1.running ≡ none)
unfolding cancel_when_registered cancel
cancelled_now id handle m e = rw (cancel, e) (refl, lookup-remove_self id m.running)

-- A request to cancel a command is never lost. If a process of the command runs, it is cancelled at once
-- and no longer managed. If none runs, then whatever happens to other commands, and however often this
-- one is cancelled or removed meanwhile, the next process registered for it is cancelled, is not managed,
-- and uses the request up.
pub cancel_when_registered_lem :
    (id : String) (handle : ℕ) (m : Manager) (os : List Operation)
    → All (Spares id) os
    → (lookup id m.running ≡ some handle
        → ((cancel_when_registered id m).1.cancelled ≡ handle ∷ m.cancelled)
          × (lookup id (cancel_when_registered id m).1.running ≡ none))
      × (lookup id m.running ≡ none
          → let before = operations (cancel_when_registered id m).1 os in
            ((register id handle before).cancelled ≡ handle ∷ before.cancelled)
            × (lookup id (register id handle before).running ≡ none)
            × (member id (register id handle before).pending_cancellations ≡ false))
cancel_when_registered_lem id handle m os spares = (
  cancelled_now id handle m,
  λ r.
      caught id handle (operations (cancel_when_registered id m).1 os)
        (operations-Awaiting id (cancel_when_registered id m).1 os spares (requested id m r)),
)
