-- ===== src/Pending.antt =====
-- pending-result-store.ts: the results of commands that are kept on disk until the server has them.
-- The folder is an association list from a command's id to the content of its file.
pub mod Laws
pub mod Loading
pub mod Submitting
pub mod Flush
mod Tests
use ai_support_agent_cli.Common.{
  ℕ, zero, suc, ◌+◌, ◌-◌, Bool, true, false, not, ◌&&◌, ◌||◌, Option, none, some, List, [], ◌∷◌,
  String, if◌then◌else◌, ltb, leb, ◌==◌, is_some, insert, remove, lookup,
}
use ai_support_agent_cli.Retry.{RequestError, other, no_response, status}

-- utils.ts: which errors of a request mean what.
unfoldable pub is_authentication_error : RequestError → Bool
is_authentication_error other = false
is_authentication_error no_response = false
is_authentication_error (status s) = s == 401 || s == 403

unfoldable pub is_non_auth_client_error : RequestError → Bool
is_non_auth_client_error other = false
is_non_auth_client_error no_response = false
is_non_auth_client_error (status s) = leb 400 s && ltb s 500 && not (s == 401) && not (s == 403)

-- 3 hours, 1 minute and 90 seconds.
abbrev pub pending_result_stale_threshold_ms : ℕ
pending_result_stale_threshold_ms = 10800000

abbrev pub pending_result_flush_interval_ms : ℕ
pending_result_flush_interval_ms = 60000

abbrev pub pending_result_min_retry_age_ms : ℕ
pending_result_min_retry_age_ms = 90000

-- The data of a success and the error of a failure are their JSON.
pub data CommandResult : Type 0 where
  success : String → CommandResult
  failure : String → CommandResult

-- `saved_at` is in milliseconds, and `none` for a text that is no date.
pub record PendingResult : Type 0 where
  pub command_id : String
  pub agent_id : String
  pub result : CommandResult
  pub api_url : String
  pub token : String
  pub tenant_code : String
  pub saved_at : Option ℕ
  pub instance_id : Option String
  pub assignment_generation : Option ℕ

-- What reading a file gives: `unreadable` when the read throws, `corrupted` when it is no JSON.
pub data Content : Type 0 where
  saved : PendingResult → Content
  corrupted : Content
  unreadable : Content

abbrev pub Store : Type 0
Store = List (String × Content)

-- `now - Date(savedAt) > limit` and `now - Date(savedAt) >= limit`, false for no date.
abbrev pub older_than : ℕ → ℕ → Option ℕ → Bool
older_than limit now none = false
older_than limit now (some at) = ltb (at + limit) now

abbrev pub at_least : ℕ → ℕ → Option ℕ → Bool
at_least limit now none = false
at_least limit now (some at) = leb (at + limit) now

-- `savePendingResult`, with what the disk answers to the write.
unfoldable pub save_pending_result : Bool → PendingResult → Store → Bool × Store
save_pending_result writable p store =
    if writable then (true, insert p.command_id (saved p) store) else (false, store)

unfoldable pub remove_pending_result : String → Store → Store
remove_pending_result command_id store = remove command_id store

abbrev pub is_stale : ℕ → PendingResult → Bool
is_stale now p = older_than pending_result_stale_threshold_ms now p.saved_at

abbrev pub kept_file :
    String → PendingResult → List PendingResult × Store → List PendingResult × Store
kept_file file p (results, store) = (p ∷ results, (file, saved p) ∷ store)

-- `loadPendingResults`: the results that are left, and the files.
unfoldable pub load_pending_results : ℕ → Store → List PendingResult × Store
load_pending_results now [] = ([], [])
load_pending_results now ((file, corrupted) ∷ store) = load_pending_results now store
load_pending_results now ((file, unreadable) ∷ store) = load_pending_results now store
load_pending_results now ((file, saved p) ∷ store) =
    let rest = load_pending_results now store in
    if is_stale now p then rest else kept_file file p rest

-- A request that submits a result: the replica's identity and the generation of its assignment are
-- sent as headers.
pub record Submission : Type 0 where
  pub command_id : String
  pub result : CommandResult
  pub agent_id : String
  pub tenant_code : String
  pub instance_header : Option String
  pub generation_header : Option ℕ

abbrev pub has_assignment : PendingResult → Bool
has_assignment p = is_some p.instance_id && is_some p.assignment_generation

unfoldable pub submission_of : PendingResult → Submission
submission_of p = record {
  command_id = p.command_id;
  result = p.result;
  agent_id = p.agent_id;
  tenant_code = p.tenant_code;
  instance_header = if has_assignment p then p.instance_id else none;
  generation_header = if has_assignment p then p.assignment_generation else none;
}

-- What the server answers to a submission: `none` is a success.
abbrev pub Server : Type 0
Server = Submission → Option RequestError

-- Whether the answer removes the file.
unfoldable pub settles : Option RequestError → Bool
settles none = true
settles (some e) = is_non_auth_client_error e

abbrev pub submit_one : Server → PendingResult → Store → Store
submit_one server p store =
    if settles (server (submission_of p)) then remove_pending_result p.command_id store else store

-- The loop of `submitPendingResults`: the files and what was sent.
unfoldable pub submit_each : Server → List PendingResult → Store → List Submission × Store
unfolding settles submission_of remove_pending_result
submit_each server [] store = ([], store)
submit_each server (p ∷ ps) store =
    let (sent, after) = submit_each server ps (submit_one server p store) in
    (submission_of p ∷ sent, after)

abbrev pub due : ℕ → ℕ → List PendingResult → List PendingResult
due min_age_ms now [] = []
due min_age_ms now (p ∷ ps) =
    let rest = due min_age_ms now ps in
    if min_age_ms == 0 || at_least min_age_ms now p.saved_at then p ∷ rest else rest

unfoldable pub submit_pending_results : Server → ℕ → ℕ → Store → List Submission × Store
unfolding submit_each load_pending_results
submit_pending_results server min_age_ms now store =
    let (results, after) = load_pending_results now store in
    submit_each server (due min_age_ms now results) after
