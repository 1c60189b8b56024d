-- ===== src/Service.antt =====
-- `InMemorySandboxService` of src/mem_sandbox/service/service.py: its state, and what it does each time
-- it holds its lock. Nothing in these parts waits, so the lock is never contended and each is one step.
-- Handles, session identifiers, runtimes and pending operations are numbers.
pub mod Calls
pub mod Totals
pub mod Ownership
pub mod Kept
pub mod Steps
pub mod Waits
pub mod Shut
pub mod Stays
pub mod Closing
pub mod Phases
pub mod Histories
pub mod Lookups
pub mod Answers
use mem_sandbox.Base.{
  ◌==◌, if◌then◌else◌, ℕ, Bool, true, false, ◌||◌, Option, none, some, List, [], ◌∷◌, map,
}

-- `_ServiceState`
pub data ServiceState : Type 0 where
  open_state closing_state closed_state : ServiceState

-- service/errors.py, and any other error of the sandbox.
pub data ServiceError : Type 0 where
  sandbox_not_found sandbox_identifier_conflict sandbox_service_closed : ServiceError
  sandbox_startup_failed sandbox_resume_failed session_factory_failed : ServiceError
  other_sandbox_error : ServiceError

-- `_SessionRecord`, without its owner and its time; it has a deletion task when it is deleting.
pub record SessionRecord : Type 0 where
  pub handle : ℕ
  pub session_id : ℕ
  pub runtime : ℕ
  pub deleting : Bool

-- `_state`, `_records`, `_reserved_handles`, `_reserved_session_ids` and `_pending_operations`
pub record Service : Type 0 where
  pub state : ServiceState
  pub records : List SessionRecord
  pub reserved_handles : List ℕ
  pub reserved_session_ids : List ℕ
  pub pending_operations : List ℕ

abbrev pub new_service : Service
new_service = record {
  state = open_state;
  records = [];
  reserved_handles = [];
  reserved_session_ids = [];
  pending_operations = [];
}

-- Membership, and `discard`, of a set
unfoldable pub has : ℕ → List ℕ → Bool
has x [] = false
has x (y ∷ l) = x == y || has x l

unfoldable pub discard : ℕ → List ℕ → List ℕ
discard x [] = []
discard x (y ∷ l) = let rest = discard x l in if x == y then rest else y ∷ rest

abbrev pub handles : List SessionRecord → List ℕ
handles rs = map (λ r. r.handle) rs

abbrev pub session_ids : List SessionRecord → List ℕ
session_ids rs = map (λ r. r.session_id) rs

-- `get`, item assignment and `del` of the dict of records
unfoldable pub find_record : ℕ → List SessionRecord → Option SessionRecord
find_record h [] = none
find_record h (r ∷ rs) = let rest = find_record h rs in if h == r.handle then some r else rest

unfoldable pub put_record : SessionRecord → List SessionRecord → List SessionRecord
put_record n [] = n ∷ []
put_record n (r ∷ rs) =
    let rest = put_record n rs in if n.handle == r.handle then n ∷ rs else r ∷ rest

unfoldable pub delete_record : ℕ → List SessionRecord → List SessionRecord
delete_record h [] = []
delete_record h (r ∷ rs) = let rest = delete_record h rs in if h == r.handle then rs else r ∷ rest

-- `_require_open`
unfoldable pub require_open : Service → Option ServiceError
require_open s = elim s.state [
  | open_state ↦ none
  | closing_state ↦ some sandbox_service_closed
  | closed_state ↦ some sandbox_service_closed
]

-- `_begin_lifecycle`
unfoldable pub begin_lifecycle : ℕ → Service → Option ServiceError × Service
begin_lifecycle operation s = elim (require_open s) [
  | some e ↦ (some e, s)
  | none ↦ (none, record s { pending_operations = operation ∷ s.pending_operations })
]

-- `_finish_lifecycle`; the two identifiers are set together.
unfoldable pub finish_lifecycle : ℕ → Option (ℕ × ℕ) → Service → Service
finish_lifecycle operation none s = record s {
  pending_operations = discard operation s.pending_operations;
}
finish_lifecycle operation (some (handle, session_id)) s = record s {
  pending_operations = discard operation s.pending_operations;
  reserved_handles = discard handle s.reserved_handles;
  reserved_session_ids = discard session_id s.reserved_session_ids;
}

-- `_reserve_identifiers`, of the identifiers that were generated.
unfoldable pub reserve_identifiers : ℕ → ℕ → Service → Option ServiceError × Service
reserve_identifiers handle session_id s = elim (require_open s) [
  | some e ↦ (some e, s)
  | none ↦
      if has handle s.reserved_handles || has handle (handles s.records)
      then (some sandbox_identifier_conflict, s)
      else if has session_id s.reserved_session_ids || has session_id (session_ids s.records)
      then (some sandbox_identifier_conflict, s)
      else (
        none,
        record s {
          reserved_handles = handle ∷ s.reserved_handles;
          reserved_session_ids = session_id ∷ s.reserved_session_ids;
        },
      )
]

-- `_publish`, behind the reading of the clock.
unfoldable pub publish : ℕ → ℕ → ℕ → Service → Option ServiceError × Service
publish handle session_id runtime s = elim (require_open s) [
  | some e ↦ (some e, s)
  | none ↦ (
    none,
    record s {
      records =
          put_record
            (record {
              handle = handle;
              session_id = session_id;
              runtime = runtime;
              deleting = false;
            })
            s.records;
      reserved_handles = discard handle s.reserved_handles;
      reserved_session_ids = discard session_id s.reserved_session_ids;
    },
  )
]

-- `_start_deletion_locked`, on the record of a handle and on every record.
unfoldable pub start_deletion : ℕ → List SessionRecord → List SessionRecord
start_deletion h [] = []
start_deletion h (r ∷ rs) =
    let rest = start_deletion h rs in
    if h == r.handle then record r { deleting = true } ∷ rs else r ∷ rest

unfoldable pub start_all : List SessionRecord → List SessionRecord
start_all [] = []
start_all (r ∷ rs) = record r { deleting = true } ∷ start_all rs

-- `get_session`: the session of a runtime, an error, or the wait for a deletion, behind which it
-- raises too.
pub data Lookup : Type 0 where
  session_of : ℕ → Lookup
  get_failed : ServiceError → Lookup
  awaits_deletion : Lookup

unfoldable pub get_session : ℕ → Bool → Service → Lookup × Service
get_session handle is_running s = elim (require_open s) [
  | some e ↦ (get_failed e, s)
  | none ↦ elim (find_record handle s.records) [
    | none ↦ (get_failed sandbox_not_found, s)
    | some r ↦
        if r.deleting
        then (get_failed sandbox_not_found, s)
        else if is_running
        then (session_of r.runtime, s)
        else (awaits_deletion, record s { records = start_deletion handle s.records })
  ]
]

-- `delete`, up to its wait
unfoldable pub delete : ℕ → Service → Option ServiceError × Service
delete handle s = elim (require_open s) [
  | some e ↦ (some e, s)
  | none ↦ elim (find_record handle s.records) [
    | none ↦ (some sandbox_not_found, s)
    | some r ↦ (none, record s { records = start_deletion handle s.records })
  ]
]

-- The end of `_delete_record`, of a record that is still in the dict.
unfoldable pub end_deletion : SessionRecord → Service → Service
end_deletion r s = record s {
  records = delete_record r.handle s.records;
  reserved_handles = discard r.handle s.reserved_handles;
  reserved_session_ids = discard r.session_id s.reserved_session_ids;
}

-- The two times that `_close_once` holds the lock
unfoldable pub close_begins : Service → Service
close_begins s = record s { state = closing_state; records = start_all s.records }

unfoldable pub close_ends : Service → Service
close_ends s = record s { state = closed_state; reserved_handles = []; reserved_session_ids = [] }
