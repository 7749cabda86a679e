-- ===== src/Children/Busy.antt =====
-- child-process-manager.ts: `isAnyBusy`. The answers of the children come as a list, in the order of their
-- arrival, and `none` stands for the timeout.
use ai_support_agent_cli.Common.{
  Bool, true, false, ◌||◌, Option, none, some, List, [], ◌∷◌, String, ◌≡◌, ◌≢◌, inl, inr, refl, sym,
  if◌then◌else◌, arith, is_empty, member, erase, member-erase, any, All, str_eq-ne, some-inj, ◌⊎◌,
  ◌++◌,
}

-- A message `busy_response` of a project.
pub record Response : Type 0 where
  pub key : String
  pub busy : Bool

-- What arrives while the query waits.
pub data Arrival : Type 0 where
  responds : Response → Arrival
  times_out : Arrival

-- The wait of the query, with the projects that have not answered: `none` while it is not resolved.
unfoldable pub await_busy : List String → Bool → List Arrival → Option Bool
await_busy pending any_busy [] = none
await_busy pending any_busy (times_out ∷ rest) = some any_busy
await_busy pending any_busy (responds r ∷ rest) =
    let left = erase r.key pending in
    let continued = await_busy left (any_busy || r.busy) rest in
    if is_empty left then some (any_busy || r.busy) else continued

unfoldable pub is_any_busy : List String → List Arrival → Option Bool
unfolding await_busy
is_any_busy connected arrivals =
    if is_empty connected then some false else await_busy connected false arrivals

abbrev pub is_busy : Arrival → Bool
is_busy (responds r) = r.busy
is_busy times_out = false

-- No timeout, and no response of the project.
abbrev pub Before : String → Arrival → Type 0
Before k (responds r) = r.key ≢ k
Before k times_out = ⊥

if_some :
    (b x : Bool) (o : Option Bool) {y : Bool}
    → (if b then some x else o) ≡ some y
    → (x ≡ y) ⊎ (o ≡ some y)
if_some true x o h = inl (some-inj h)
if_some false x o h = inr h

await_sound :
    (pending : List String) (seen : Bool) (arrivals : List Arrival)
    → await_busy pending seen arrivals ≡ some true
    → (seen || any is_busy arrivals) ≡ true
unfolding await_busy
await_sound pending seen [] h = cc
await_sound pending seen (times_out ∷ rest) h = rw (some-inj h) refl
await_sound pending seen (responds r ∷ rest) h =
    elim (if_some (is_empty (erase r.key pending)) (seen || r.busy)
      (await_busy (erase r.key pending) (seen || r.busy) rest) {y = true} h) [
        | inl e ↦ ground (arith, e)
        | inr e ↦ ground (arith, await_sound (erase r.key pending) (seen || r.busy) rest e)
      ]

await_seen :
    (pending : List String) (seen : Bool) (arrivals : List Arrival)
    → seen ≡ true
    → await_busy pending seen arrivals ≢ some false
unfolding await_busy
await_seen pending seen [] e h = cc
await_seen pending seen (times_out ∷ rest) e h = cc
await_seen pending seen (responds r ∷ rest) e h =
    elim (if_some (is_empty (erase r.key pending)) (seen || r.busy)
      (await_busy (erase r.key pending) (seen || r.busy) rest) {y = false} h) [
        | inl e' ↦ absurd (clash (sym e') (ground arith))
        | inr e' ↦ await_seen (erase r.key pending) (seen || r.busy) rest (ground arith) e'
      ]
  where
    clash : {x : Bool} → false ≡ x → x ≡ true → ⊥
    clash p q = cc

occupied : (k : String) (xs : List String) → member k xs ≡ true → is_empty xs ≡ false
unfolding member
occupied k [] h = cc
occupied k (x ∷ xs) h = refl

await_first :
    (pending : List String) (seen : Bool) (before rest : List Arrival) (r : Response)
    → All (Before r.key) before
    → member r.key pending ≡ true
    → r.busy ≡ true
    → await_busy pending seen (before ++ (responds r ∷ rest)) ≢ some false
unfolding await_busy
await_first pending seen [] rest r a m b h =
    elim (if_some (is_empty (erase r.key pending)) (seen || r.busy)
      (await_busy (erase r.key pending) (seen || r.busy) rest) {y = false} h) [
        | inl e ↦ ground (arith, e, b)
        | inr e ↦ await_seen (erase r.key pending) (seen || r.busy) rest (ground (arith, b)) e
      ]
await_first pending seen (times_out ∷ before) rest r (never, a) m b h = never
await_first pending seen (responds q ∷ before) rest r (other, a) m b h =
    let still : member r.key (erase q.key pending) ≡ true =
      rw (member-erase q.key r.key pending, str_eq-ne q.key r.key other) m in
    await_first (erase q.key pending) (seen || q.busy) before rest r a still b
      (rw (occupied r.key (erase q.key pending) still) at h)

-- The query answers that a child is busy only when one has said so, and it never answers that none is busy
-- when a connected child's first response, before the timeout, says that it is; with no child connected it
-- answers at once that none is.
pub is_any_busy_lem :
    (connected : List String) (before rest : List Arrival) (r : Response)
    → All (Before r.key) before
    → ((arrivals : List Arrival)
        → is_any_busy connected arrivals ≡ some true
        → any is_busy arrivals ≡ true)
      × (member r.key connected ≡ true
          → r.busy ≡ true
          → is_any_busy connected (before ++ (responds r ∷ rest)) ≢ some false)
      × (connected ≡ [] → is_any_busy connected before ≡ some false)
unfolding is_any_busy
is_any_busy_lem connected before rest r a = (
  λ arrivals h.
      elim (if_some (is_empty connected) false (await_busy connected false arrivals) {y = true} h) [
        | inl e ↦ cc
        | inr e ↦ await_sound connected false arrivals e
      ],
  λ m b h. await_first connected false before rest r a m b (rw (occupied r.key connected m) at h),
  λ e. rw e refl,
)
