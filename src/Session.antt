-- ===== src/Session.antt =====
-- `SandboxSession` of src/mem_sandbox/session/session.py: its state, its errors, and its events.
-- The operation gate serialises `start`, `_run_operation` and `_close_once`, and nothing else makes an
-- event; so a run of the session is a list of these, one after another. What else can happen while one
-- of them waits, with an effect on the state, is a call of `close`, and each wait says if there was
-- one. What a wait comes to is an argument. Identifiers are numbers.
pub mod Acts
pub mod Lifecycle
pub mod Operations
pub mod History
pub mod Protocol
pub mod Returns
pub mod Worked
pub mod Success
use mem_sandbox.Base.{ℕ, Bool, true, false, Option, List, []}

-- `SandboxSessionState`
pub data SessionState : Type 0 where
  created running closing closed failed : SessionState

-- `ErrorCategory`
pub data ErrorCategory : Type 0 where
  invalid_request not_found conflict quota_exceeded policy_denied : ErrorCategory
  timeout cancelled unsupported internal : ErrorCategory

-- The errors of session/errors.py that are raised here, and those of collaborators.
pub data SessionError : Type 0 where
  session_request_invalid session_start_invalid session_not_running : SessionError
  session_closing session_closed session_failed : SessionError
  session_operation_timeout session_operation_cancelled session_close_timeout : SessionError
  session_policy_denied session_event_delivery_failed : SessionError
  session_snapshot_restore_failed session_cleanup_failed : SessionError
  collaborator_error : ErrorCategory → SessionError

-- The classes' categories
unfoldable pub category : SessionError → ErrorCategory
category session_request_invalid = invalid_request
category session_start_invalid = conflict
category session_not_running = conflict
category session_closing = conflict
category session_closed = conflict
category session_failed = internal
category session_operation_timeout = timeout
category session_operation_cancelled = cancelled
category session_close_timeout = timeout
category session_policy_denied = policy_denied
category session_event_delivery_failed = internal
category session_snapshot_restore_failed = internal
category session_cleanup_failed = internal
category (collaborator_error c) = c

-- `OperationKind`
pub data OperationKind : Type 0 where
  execute_kind read_file_kind write_file_kind apply_patch_kind read_bytes_kind : OperationKind
  write_bytes_kind stat_kind list_entries_kind create_directory_kind : OperationKind
  remove_path_kind create_snapshot_kind restore_snapshot_kind : OperationKind
  export_portable_archive_kind restore_portable_archive_kind outbound_http_kind : OperationKind

-- `SandboxEventType`, without the two of the service.
pub data EventType : Type 0 where
  sandbox_started sandbox_closing sandbox_closed sandbox_failed : EventType
  operation_started operation_completed operation_failed operation_cancelled : EventType
  operation_timed_out snapshot_created snapshot_restored : EventType

-- `SandboxEvent`, without its time, its session and its attributes.
pub record SandboxEvent : Type 0 where
  pub event_type : EventType
  pub sequence : ℕ
  pub operation_id : Option ℕ
  pub operation_kind : Option OperationKind

-- What the delivery of an event comes to: the deadline has passed before it, or within it, the task is
-- cancelled, the sink raises, or the event is delivered.
pub data Delivery : Type 0 where
  delivered too_late timed_out interrupted refused : Delivery

-- `self._close_task`
pub data CloseTask : Type 0 where
  no_close pending_close finished_close : CloseTask

-- `self._state`, `self._event_sequence` and `self._close_task`, with the events made so far and what
-- became of each.
pub record Session : Type 0 where
  pub lifecycle : SessionState
  pub sequence : ℕ
  pub close_task : CloseTask
  pub log : List (SandboxEvent × Delivery)

abbrev pub new_session : Session
new_session = record { lifecycle = created; sequence = 0; close_task = no_close; log = [] }

-- `OperationLimits`; times are numbers of microseconds.
pub record OperationLimits : Type 0 where
  pub timeout_seconds : ℕ
  pub terminal_event_reserve_seconds : ℕ

-- `PolicyDecision`
pub record PolicyDecision : Type 0 where
  pub allowed : Bool
  pub effective_limits : OperationLimits

abbrev pub is_created : SessionState → Bool
is_created created = true
is_created s = false

abbrev pub is_running : SessionState → Bool
is_running running = true
is_running s = false
