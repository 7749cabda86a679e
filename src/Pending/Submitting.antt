-- ===== src/Pending/Submitting.antt =====
-- `submitPendingResults`: the fate of every file, and what is sent to the server.
use ai_support_agent_cli.Common.{
  not, ltb, leb, ℕ, Bool, true, false, Option, none, some, List, [], ◌∷◌, String, ◌≡◌, refl,
  if◌then◌else◌, str_eq, ◌&&◌, ◌||◌, ◌==◌, Bool-cases, inl, inr, arith, lookup, All, All-map,
  is_some, ◌∙◌, eq_iff,
}
use ai_support_agent_cli.Pending.{
  PendingResult, Content, saved, corrupted, unreadable, Store, load_pending_results, is_stale, due,
  at_least, Server, Submission, submission_of, has_assignment, settles, is_non_auth_client_error,
  submit_one, submit_each, submit_pending_results,
}
use ai_support_agent_cli.Retry.{RequestError, other, no_response, status}
use ai_support_agent_cli.Pending.Laws.{WellFormed, lookup-remove_pending_result}
use ai_support_agent_cli.Pending.Loading.{
  survives, chosen, some_of, some_of-due, lookup-load_pending_results,
}

module _ (server : Server) where
  abbrev settled : PendingResult → Bool
  settled p = settles (server (submission_of p))

  lookup-submit_one :
      (p : PendingResult) (store : Store) (k : String)
      → lookup k (submit_one server p store)
        ≡ (if str_eq p.command_id k && settled p then none else lookup k store)
  lookup-submit_one p store k = elim (Bool-cases (settled p)) [
    | inl gone ↦ rw gone (lookup-remove_pending_result p.command_id k store ∙ ground arith)
    | inr stays ↦ rw stays (ground arith)
  ]

  lookup-submit_each :
      (ps : List PendingResult) (store : Store) (k : String)
      → lookup k (submit_each server ps store).1
        ≡ (if some_of k settled ps then none else lookup k store)
  unfolding submit_each
  lookup-submit_each [] store k = refl
  lookup-submit_each (p ∷ ps) store k =
      lookup-submit_each ps (submit_one server p store) k
      ∙ rw (lookup-submit_one p store k) (ground arith)

-- After which answers there is no point in sending a result again: the server has it, or refuses it with a
-- status from 400 to 499 that a new login cannot mend.
abbrev pub is_final : Option RequestError → Bool
is_final none = true
is_final (some other) = false
is_final (some no_response) = false
is_final (some (status s)) = not (ltb s 400 || (leb 500 s || (s == 401 || s == 403)))

settles-is_final : (answer : Option RequestError) → settles answer ≡ is_final answer
unfolding settles is_non_auth_client_error
settles-is_final none = refl
settles-is_final (some other) = refl
settles-is_final (some no_response) = refl
settles-is_final (some (status s)) = ground arith

-- What a submission leaves of a file: a result that is fresh and old enough goes when the server has
-- it, or refuses it for good; any other fresh one stays as it is; all other files go.
abbrev pub fate : Server → ℕ → ℕ → Option Content → Option Content
fate server min_age_ms now none = none
fate server min_age_ms now (some corrupted) = none
fate server min_age_ms now (some unreadable) = none
fate server min_age_ms now (some (saved p)) =
    if is_stale now p
    then none
    else if (min_age_ms == 0 || at_least min_age_ms now p.saved_at)
        && is_final (server (submission_of p))
    then none
    else some (saved p)

fate_lem :
    (server : Server) (min_age_ms now : ℕ) (o : Option Content)
    → (if chosen min_age_ms now (λ p. settles (server (submission_of p))) o
        then none
        else survives now o)
      ≡ fate server min_age_ms now o
fate_lem server min_age_ms now none = refl
fate_lem server min_age_ms now (some corrupted) = refl
fate_lem server min_age_ms now (some unreadable) = refl
fate_lem server min_age_ms now (some (saved p)) = elim (Bool-cases (is_stale now p)) [
  | inl old ↦ rw old refl
  | inr fresh ↦ rw (fresh, settles-is_final (server (submission_of p))) refl
]

-- In a folder as the program leaves it, each file fares on its own: an unreadable, corrupted or stale
-- one is removed; a result that is old enough is removed exactly when the server accepts it or answers
-- with a 4xx other than 401 and 403; every other file stays with the same content.
pub lookup-submit_pending_results :
    (server : Server) (min_age_ms now : ℕ) (store : Store) (k : String)
    → WellFormed store
    → lookup k (submit_pending_results server min_age_ms now store).1
      ≡ fate server min_age_ms now (lookup k store)
unfolding submit_pending_results
lookup-submit_pending_results server min_age_ms now store k (d, n) =
    let q = λ (p : PendingResult). settles (server (submission_of p)) in
    lookup-submit_each server (due min_age_ms now (load_pending_results now store).0)
      (load_pending_results now store).1 k
    ∙ rw (some_of-due min_age_ms now k q store (d, n), lookup-load_pending_results now store k d)
        (fate_lem server min_age_ms now (lookup k store))

-- A result that was loaded from the folder and whose time has come.
abbrev pub Fresh : ℕ → Store → PendingResult → Type 0
Fresh now store p = (lookup p.command_id store ≡ some (saved p)) × (is_stale now p ≡ false)

abbrev pub Due : ℕ → ℕ → Store → PendingResult → Type 0
Due min_age_ms now store p =
    Fresh now store p × ((min_age_ms == 0 || at_least min_age_ms now p.saved_at) ≡ true)

Fresh-cons :
    (now : ℕ) (file : String) (c : Content) (store : Store)
    → lookup file store ≡ none
    → (p : PendingResult) → Fresh now store p
    → Fresh now ((file, c) ∷ store) p
unfolding lookup
Fresh-cons now file c store free p (found, fresh) = elim (Bool-cases (str_eq file p.command_id)) [
  | inl same ↦
      absurd
        (absent (lookup p.command_id store) (rw ((eq_iff file p.command_id).0 same) at free) found)
  | inr different ↦ (rw different found, fresh)
]
  where
    absent : (o : Option Content) → o ≡ none → o ≡ some (saved p) → ⊥
    absent o h k = cc

loaded-Fresh :
    (now : ℕ) (store : Store)
    → WellFormed store
    → All (Fresh now store) (load_pending_results now store).0
unfolding load_pending_results lookup
loaded-Fresh now [] h = tt
loaded-Fresh now ((file, corrupted) ∷ store) ((free, d), (named, n)) =
    All-map (Fresh-cons now file corrupted store free) (load_pending_results now store).0
      (loaded-Fresh now store (d, n))
loaded-Fresh now ((file, unreadable) ∷ store) ((free, d), (named, n)) =
    All-map (Fresh-cons now file unreadable store free) (load_pending_results now store).0
      (loaded-Fresh now store (d, n))
loaded-Fresh now ((file, saved p) ∷ store) ((free, d), (named, n)) =
    let later =
      All-map (Fresh-cons now file (saved p) store free) (load_pending_results now store).0
        (loaded-Fresh now store (d, n)) in
    elim (Bool-cases (is_stale now p)) [
      | inl old ↦ rw old later
      | inr fresh ↦ rw fresh ((here file p named, fresh), later)
    ]
  where
    here :
        (file : String) (p : PendingResult)
        → file ≡ p.command_id
        → (if str_eq file p.command_id then some (saved p) else lookup p.command_id store)
          ≡ some (saved p)
    here file p named = rw ((eq_iff file p.command_id).1 named) refl

due-Due :
    (min_age_ms now : ℕ) (store : Store) (ps : List PendingResult)
    → All (Fresh now store) ps
    → All (Due min_age_ms now store) (due min_age_ms now ps)
due-Due min_age_ms now store [] h = tt
due-Due min_age_ms now store (p ∷ ps) (f, h) =
    elim (Bool-cases (min_age_ms == 0 || at_least min_age_ms now p.saved_at)) [
      | inl yet ↦ rw yet ((f, yet), due-Due min_age_ms now store ps h)
      | inr not_yet ↦ rw not_yet (due-Due min_age_ms now store ps h)
    ]

-- A submission that comes from a result of the folder.
abbrev pub Rightful : ℕ → ℕ → Store → Submission → Type 0
Rightful min_age_ms now store s =
    (p : PendingResult) × Due min_age_ms now store p
    × (s ≡ submission_of p)
    × (is_some s.instance_header ≡ is_some s.generation_header)

fenced :
    (p : PendingResult)
    → is_some (submission_of p).instance_header ≡ is_some (submission_of p).generation_header
unfolding submission_of
fenced p = elim (Bool-cases (has_assignment p)) [
  | inl both ↦ rw both (ground arith)
  | inr lacking ↦ rw lacking refl
]

each-Rightful :
    (server : Server) (min_age_ms now : ℕ) (store : Store) (ps : List PendingResult)
    (current : Store)
    → All (Due min_age_ms now store) ps
    → All (Rightful min_age_ms now store) (submit_each server ps current).0
unfolding submit_each
each-Rightful server min_age_ms now store [] current h = tt
each-Rightful server min_age_ms now store (p ∷ ps) current (this, h) = (
  (p, this, refl, fenced p),
  each-Rightful server min_age_ms now store ps (submit_one server p current) h,
)

-- Everything that is sent is the result of a readable file of the folder that is neither stale nor
-- younger than the least age, and it carries the identity
-- of a replica exactly when it carries the generation of an assignment.
pub submit_pending_results-Rightful :
    (server : Server) (min_age_ms now : ℕ) (store : Store)
    → WellFormed store
    → All (Rightful min_age_ms now store) (submit_pending_results server min_age_ms now store).0
unfolding submit_pending_results
submit_pending_results-Rightful server min_age_ms now store h =
    each-Rightful server min_age_ms now store
      (due min_age_ms now (load_pending_results now store).0) (load_pending_results now store).1
      (due-Due min_age_ms now store (load_pending_results now store).0 (loaded-Fresh now store h))
