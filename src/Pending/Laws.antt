-- ===== src/Pending/Laws.antt =====
-- The folder of pending results: which files there are, and what the operations do to them.
use ai_support_agent_cli.Common.{
  Bool, true, false, none, some, [], ◌∷◌, String, ◌≡◌, refl, if◌then◌else◌, str_eq, Bool-cases, inl,
  inr, insert, remove, lookup, lookup-insert, lookup-remove, All, Distinct, insert-Distinct,
  remove-Distinct,
}
use ai_support_agent_cli.Pending.{
  PendingResult, Content, saved, corrupted, unreadable, Store, save_pending_result,
  remove_pending_result,
}

-- The file of a result has the name of its command.
abbrev pub Named : String × Content → Type 0
Named (file, saved p) = file ≡ p.command_id
Named (file, corrupted) = Unit
Named (file, unreadable) = Unit

-- A folder as the program leaves it.
abbrev pub WellFormed : Store → Type 0
WellFormed store = Distinct store × All Named store

insert-Named :
    (p : PendingResult) (store : Store)
    → All Named store
    → All Named (insert p.command_id (saved p) store)
unfolding insert
insert-Named p [] h = (refl, tt)
insert-Named p ((file, c) ∷ store) (n, h) = elim (Bool-cases (str_eq file p.command_id)) [
  | inl same ↦ rw same (refl, h)
  | inr other ↦ rw other (n, insert-Named p store h)
]

remove-Named : (k : String) (store : Store) → All Named store → All Named (remove k store)
unfolding remove
remove-Named k [] h = tt
remove-Named k ((file, c) ∷ store) (n, h) = elim (Bool-cases (str_eq file k)) [
  | inl same ↦ rw same (remove-Named k store h)
  | inr other ↦ rw other (n, remove-Named k store h)
]

pub save_pending_result-WellFormed :
    (writable : Bool) (p : PendingResult) (store : Store)
    → WellFormed store
    → WellFormed (save_pending_result writable p store).1
unfolding save_pending_result
save_pending_result-WellFormed true p store (d, n) =
    (insert-Distinct p.command_id (saved p) store d, insert-Named p store n)
save_pending_result-WellFormed false p store h = h

pub remove_pending_result-WellFormed :
    (k : String) (store : Store) → WellFormed store → WellFormed (remove_pending_result k store)
unfolding remove_pending_result
remove_pending_result-WellFormed k store (d, n) =
    (remove-Distinct k store d, remove-Named k store n)

pub lookup-remove_pending_result :
    (k j : String) (store : Store)
    → lookup j (remove_pending_result k store) ≡ (if str_eq k j then none else lookup j store)
unfolding remove_pending_result
lookup-remove_pending_result k j store = lookup-remove k j store

pub lookup-save_pending_result :
    (writable : Bool) (p : PendingResult) (j : String) (store : Store)
    → lookup j (save_pending_result writable p store).1 ≡ (
        if writable
        then (if str_eq p.command_id j then some (saved p) else lookup j store)
        else lookup j store)
unfolding save_pending_result
lookup-save_pending_result true p j store = lookup-insert p.command_id j (saved p) store
lookup-save_pending_result false p j store = refl

pub save_pending_result-written :
    (writable : Bool) (p : PendingResult) (store : Store)
    → (save_pending_result writable p store).0 ≡ writable
unfolding save_pending_result
save_pending_result-written true p store = refl
save_pending_result-written false p store = refl
