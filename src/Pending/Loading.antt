-- ===== src/Pending/Loading.antt =====
-- `loadPendingResults`: what is left in the folder, and what is loaded.
use ai_support_agent_cli.Common.{
  ℕ, Bool, true, false, Option, none, some, List, [], ◌∷◌, String, ◌≡◌, refl, if◌then◌else◌, str_eq,
  ◌&&◌, not, Bool-cases, inl, inr, arith, lookup, Distinct, eq_iff, any, sym, ◌∙◌, ◌==◌, ◌||◌,
}
use ai_support_agent_cli.Pending.{
  PendingResult, Content, saved, corrupted, unreadable, Store, load_pending_results, is_stale, due,
  at_least,
}
use ai_support_agent_cli.Pending.Laws.{WellFormed}

-- What loading leaves of a file.
abbrev pub survives : ℕ → Option Content → Option Content
survives now none = none
survives now (some corrupted) = none
survives now (some unreadable) = none
survives now (some (saved p)) = if is_stale now p then none else some (saved p)

survives-none : (now : ℕ) (o : Option Content) → o ≡ none → survives now o ≡ none
survives-none now o h = rw h refl

-- A dropped file: nothing of that name is left.
module _ (now : ℕ) (file k : String) (c : Content) (store : Store) where
  abbrev Rest : Type 0
  Rest = lookup k (load_pending_results now store).1 ≡ survives now (lookup k store)

  dropped :
      lookup file store ≡ none
      → survives now (some c) ≡ none
      → Rest
      → lookup k (load_pending_results now store).1
        ≡ survives now (if str_eq file k then some c else lookup k store)
  dropped free gone rest = elim (Bool-cases (str_eq file k)) [
    | inl same ↦
        rw same (
          rest
          ∙ survives-none now (lookup k store) (rw ((eq_iff file k).0 same) at free)
          ∙ sym gone)
    | inr other ↦ rw other rest
  ]

  kept :
      survives now (some c) ≡ some c
      → Rest
      → lookup k ((file, c) ∷ (load_pending_results now store).1)
        ≡ survives now (if str_eq file k then some c else lookup k store)
  unfolding lookup
  kept stays rest = elim (Bool-cases (str_eq file k)) [
    | inl same ↦ rw same (sym stays)
    | inr other ↦ rw other rest
  ]

pub lookup-load_pending_results :
    (now : ℕ) (store : Store) (k : String)
    → Distinct store
    → lookup k (load_pending_results now store).1 ≡ survives now (lookup k store)
unfolding load_pending_results lookup
lookup-load_pending_results now [] k d = refl
lookup-load_pending_results now ((file, corrupted) ∷ store) k (free, d) =
    dropped now file k corrupted store free refl (lookup-load_pending_results now store k d)
lookup-load_pending_results now ((file, unreadable) ∷ store) k (free, d) =
    dropped now file k unreadable store free refl (lookup-load_pending_results now store k d)
lookup-load_pending_results now ((file, saved p) ∷ store) k (free, d) =
    let rest = lookup-load_pending_results now store k d in
    elim (Bool-cases (is_stale now p)) [
      | inl old ↦ rw old (dropped now file k (saved p) store free (rw old refl) rest)
      | inr fresh ↦ rw fresh (kept now file k (saved p) store (rw fresh refl) rest)
    ]

-- Whether one of these results is of command `k` and passes the test.
abbrev pub some_of : String → (PendingResult → Bool) → List PendingResult → Bool
some_of k q ps = any (λ p. str_eq p.command_id k && q p) ps

-- Whether a file is loaded and due and its result passes the test.
abbrev pub chosen : ℕ → ℕ → (PendingResult → Bool) → Option Content → Bool
chosen min_age_ms now q none = false
chosen min_age_ms now q (some corrupted) = false
chosen min_age_ms now q (some unreadable) = false
chosen min_age_ms now q (some (saved p)) =
    not (is_stale now p) && (min_age_ms == 0 || at_least min_age_ms now p.saved_at) && q p

module _ (min_age_ms now : ℕ) (k : String) (q : PendingResult → Bool) where
  abbrev loaded : Store → Bool
  loaded store = some_of k q (due min_age_ms now (load_pending_results now store).0)

  chosen-none : (o : Option Content) → o ≡ none → chosen min_age_ms now q o ≡ false
  chosen-none o h = rw h refl

  passed_over :
      (file : String) (c : Content) (store : Store)
      → lookup file store ≡ none
      → chosen min_age_ms now q (some c) ≡ false
      → loaded store ≡ chosen min_age_ms now q (lookup k store)
      → loaded store ≡ chosen min_age_ms now q (if str_eq file k then some c else lookup k store)
  passed_over file c store free skipped rest = elim (Bool-cases (str_eq file k)) [
    | inl same ↦
        rw same
          (rest ∙ chosen-none (lookup k store) (rw ((eq_iff file k).0 same) at free) ∙ sym skipped)
    | inr different ↦ rw different rest
  ]

  chosen_head :
      (file : String) (p : PendingResult) (store : Store)
      → file ≡ p.command_id
      → lookup file store ≡ none
      → loaded store ≡ chosen min_age_ms now q (lookup k store)
      → loaded ((file, saved p) ∷ store)
        ≡ chosen min_age_ms now q (if str_eq file k then some (saved p) else lookup k store)
  unfolding load_pending_results
  chosen_head file p store named free rest =
      let due_now : Bool = min_age_ms == 0 || at_least min_age_ms now p.saved_at in
      elim (Bool-cases (str_eq file k)) [
        | inl same ↦
            let none_left =
              rest ∙ chosen-none (lookup k store) (rw ((eq_iff file k).0 same) at free) in
            elim (Bool-cases (is_stale now p)) [
              | inl old ↦ rw (same, old) none_left
              | inr fresh ↦ elim (Bool-cases due_now) [
                | inl yet ↦
                    let same' : str_eq p.command_id k ≡ true = rw named at same in
                    rw (same, fresh, yet) (rw (same', none_left) (ground arith))
                | inr not_yet ↦ rw (same, fresh, not_yet) none_left
              ]
            ]
        | inr different ↦ elim (Bool-cases (is_stale now p)) [
          | inl old ↦ rw (different, old) rest
          | inr fresh ↦ elim (Bool-cases due_now) [
            | inl yet ↦
                let different' : str_eq p.command_id k ≡ false = rw named at different in
                rw (different, fresh, yet) (rw different' rest)
            | inr not_yet ↦ rw (different, fresh, not_yet) rest
          ]
        ]
      ]

  pub some_of-due :
      (store : Store) → WellFormed store → loaded store ≡ chosen min_age_ms now q (lookup k store)
  unfolding load_pending_results lookup
  some_of-due [] h = refl
  some_of-due ((file, saved p) ∷ store) ((free, d), (named, n)) =
      chosen_head file p store named free (some_of-due store (d, n))
  some_of-due ((file, corrupted) ∷ store) ((free, d), (named, n)) =
      passed_over file corrupted store free refl (some_of-due store (d, n))
  some_of-due ((file, unreadable) ∷ store) ((free, d), (named, n)) =
      passed_over file unreadable store free refl (some_of-due store (d, n))
