-- ===== src/Session/Operations.antt =====
-- `_run_operation` of src/mem_sandbox/session/session.py.
use mem_sandbox.Session.Acts.{
  Exception, sandbox_error, native_cancellation, unexpected, Outcome, raised, returned, Act, pure,
  outcome, raise, attempt, raise_when, lifecycle_of, change, ◌>>=◌, ◌>>◌,
}
use mem_sandbox.Base.{
  ltb, leb, ◌==◌, if◌then◌else◌, ℕ, ◌+◌, ◌-◌, Bool, false, not, Option, none, some,
}
use mem_sandbox.Session.{
  SessionState, created, running, closing, closed, failed, ErrorCategory, timeout, cancelled,
  SessionError, session_request_invalid, session_not_running, session_closing, session_closed,
  session_failed, session_operation_timeout, session_operation_cancelled, session_policy_denied,
  session_event_delivery_failed, session_snapshot_restore_failed, category, OperationKind,
  EventType, sandbox_failed, operation_started, operation_completed, operation_failed,
  operation_cancelled, operation_timed_out, snapshot_created, snapshot_restored, Session,
  OperationLimits, PolicyDecision, is_running,
}
use mem_sandbox.Session.Lifecycle.{
  awaited, Emission, emit_new, Admission, admission_outcome, set_lifecycle, caught, raise_some,
}

-- What the action of an operation comes to, with the session state that it leaves:
-- a revision; an exception; one behind a collaborator that did not settle, which fails a running
-- session; a restore whose publication cannot be proved, which fails the session and tells of it, or
-- is interrupted.
pub data ActionEnd : Type 0 where
  completed : ℕ → ActionEnd
  action_raised : Exception → ActionEnd
  unsettled : Exception → ActionEnd
  unproven : Emission → ActionEnd
  unproven_interrupted : ActionEnd

-- The events that the callers build behind a commit, of a saved and of a restored snapshot.
pub data SnapshotEvent : Type 0 where
  save_event restore_event : SnapshotEvent

abbrev pub snapshot_type : SnapshotEvent → EventType
snapshot_type save_event = snapshot_created
snapshot_type restore_event = snapshot_restored

-- `post_commit_event`: the event that it builds, or what it raises, and its emission.
pub record PostCommit : Type 0 where
  pub built : Outcome SnapshotEvent
  pub emission : Emission

-- What an operation meets. The readings of the clock are those of the event loop.
pub record Answers : Type 0 where
  pub gate : Admission
  pub gate_meanwhile : Bool
  pub started_monotonic : ℕ
  pub normalized : Outcome (Unit {0})
  pub cancellation_set : Bool
  pub operation_id : ℕ
  pub start_emission : Emission
  pub policy_time : ℕ
  pub decision : Outcome PolicyDecision
  pub policy_meanwhile : Bool
  pub action_time : ℕ
  pub action : ActionEnd
  pub action_meanwhile : Bool
  pub post_commit : Option PostCommit
  pub terminal : Emission

-- `_reject_non_running`
unfoldable pub rejection : SessionState → Option SessionError
rejection running = none
rejection created = some session_not_running
rejection closing = some session_closing
rejection closed = some session_closed
rejection failed = some session_failed

unfoldable pub reject_non_running : Act (Unit {0})
reject_non_running = do s ← lifecycle_of; raise_some (rejection s)

-- `_remaining`: is there time left at this reading?
unfoldable pub remaining : ℕ → ℕ → Act (Unit {0})
remaining deadline now = raise_when (leb deadline now) session_operation_timeout

-- `_validate_policy_decision`
unfoldable pub validate_policy_decision : PolicyDecision → OperationLimits → Act (Unit {0})
validate_policy_decision d requested = do
  raise_when (ltb requested.timeout_seconds d.effective_limits.timeout_seconds)
      session_request_invalid
  raise_when
      (not (
        d.effective_limits.terminal_event_reserve_seconds
        == requested.terminal_event_reserve_seconds))
      session_request_invalid

-- `_fail_closed_for_unsettled_collaborator`
unfoldable pub fail_closed : Session → Session
fail_closed s = if is_running s.lifecycle then set_lifecycle failed s else s

-- `_emit_failed_lifecycle` raises no error of the sandbox.
unfoldable pub emit_failed : Emission → Act (Unit {0})
emit_failed e = do o ← attempt (emit_new sandbox_failed none none false e); _ ← caught o; pure tt

-- The action, and the ends of `_settle_cancelled_collaborator` and `_publish_restore_action`.
unfoldable pub act : ActionEnd → Bool → Act ℕ
act (completed revision) meanwhile = do awaited meanwhile; pure revision
act (action_raised x) meanwhile = do awaited meanwhile; outcome (raised x)
act (unsettled x) meanwhile = do awaited meanwhile; change fail_closed; outcome (raised x)
act (unproven e) meanwhile = do
  awaited meanwhile
  change (set_lifecycle failed)
  emit_failed e
  raise session_snapshot_restore_failed
act unproven_interrupted meanwhile = do
  awaited meanwhile
  change (set_lifecycle failed)
  outcome (raised native_cancellation)

-- `except asyncio.CancelledError: raise` and `except Exception`, around the post-commit event
unfoldable pub post_commit_outcome : Outcome (Unit {0}) → Outcome (Unit {0})
post_commit_outcome (returned u) = returned u
post_commit_outcome (raised native_cancellation) = raised native_cancellation
post_commit_outcome (raised (sandbox_error e)) =
    raised (sandbox_error session_event_delivery_failed)
post_commit_outcome (raised unexpected) = raised (sandbox_error session_event_delivery_failed)

unfoldable pub emit_built : Outcome SnapshotEvent → ℕ → OperationKind → Emission → Act (Unit {0})
emit_built (raised x) id kind e = outcome (raised x)
emit_built (returned event) id kind e = emit_new (snapshot_type event) (some id) (some kind) false e

unfoldable pub emit_post_commit : Option PostCommit → ℕ → OperationKind → Act (Unit {0})
emit_post_commit none id kind = pure tt
emit_post_commit (some p) id kind = do
  o ← attempt (emit_built p.built id kind p.emission)
  outcome (post_commit_outcome o)

-- The `try` block behind the delivery of the start event: policy, action, post-commit event.
unfoldable pub work : OperationKind → OperationLimits → Answers → Act ℕ
work kind limits a = do
  let deadline = a.started_monotonic + limits.timeout_seconds
  remaining (deadline - limits.terminal_event_reserve_seconds) a.policy_time
  awaited a.policy_meanwhile
  d ← outcome a.decision
  validate_policy_decision d limits
  raise_when (not d.allowed) session_policy_denied
  let effective = a.started_monotonic + d.effective_limits.timeout_seconds
  remaining (effective - limits.terminal_event_reserve_seconds) a.action_time
  revision ← act a.action a.action_meanwhile
  emit_post_commit a.post_commit a.operation_id kind
  pure revision

-- `_terminal_for_error`
unfoldable pub terminal_for_category : ErrorCategory → EventType
terminal_for_category timeout = operation_timed_out
terminal_for_category cancelled = operation_cancelled
terminal_for_category c = operation_failed

unfoldable pub terminal_type : Outcome ℕ → EventType
terminal_type (returned revision) = operation_completed
terminal_type (raised (sandbox_error e)) = terminal_for_category (category e)
terminal_type (raised native_cancellation) = operation_cancelled
terminal_type (raised unexpected) = operation_failed

-- The exception that is left, if the terminal event is delivered and if not. A cancelled task stays
-- cancelled, and one that is cancelled in the delivery ends so, unless the completed result is
-- authoritative: then the delivery is a task of its own, and its end is waited for.
unfoldable pub final_outcome : Outcome ℕ → Outcome (Unit {0}) → Outcome ℕ
final_outcome (raised native_cancellation) sent = raised native_cancellation
final_outcome (raised (sandbox_error e)) (returned u) = raised (sandbox_error e)
final_outcome (raised (sandbox_error e)) (raised x) = raised x
final_outcome (raised unexpected) (returned u) = raised (sandbox_error session_failed)
final_outcome (raised unexpected) (raised x) = raised x
final_outcome (returned revision) (returned u) = returned revision
final_outcome (returned revision) (raised x) = raised x

-- The `except` clauses and the `else` clause, for an operation whose start was delivered.
unfoldable pub settle_operation : OperationKind → Answers → Outcome ℕ → Act ℕ
settle_operation kind a o = do
  sent ← attempt (emit_new (terminal_type o) (some a.operation_id) (some kind) false a.terminal)
  outcome (final_outcome o sent)

-- What is left of an exception of an operation that was not announced.
unfoldable pub unannounced : Exception → Exception
unannounced (sandbox_error e) = sandbox_error e
unannounced native_cancellation = native_cancellation
unannounced unexpected = sandbox_error session_failed

-- The `try` block up to the delivery of the start event.
unfoldable pub announce : OperationKind → Answers → Act (Unit {0})
announce kind a = do
  reject_non_running
  outcome a.normalized
  raise_when a.cancellation_set session_operation_cancelled
  emit_new operation_started (some a.operation_id) (some kind) false a.start_emission

unfoldable pub conclude : OperationKind → OperationLimits → Answers → Outcome (Unit {0}) → Act ℕ
conclude kind limits a (raised x) = outcome (raised (unannounced x))
conclude kind limits a (returned u) = do o ← attempt (work kind limits a); settle_operation kind a o

-- `_run_operation`. The test before the gate is passed again behind it.
unfoldable pub run_operation : OperationKind → OperationLimits → Answers → Act ℕ
run_operation kind limits a = do
  reject_non_running
  awaited a.gate_meanwhile
  outcome (admission_outcome a.gate)
  o ← attempt (announce kind a)
  conclude kind limits a o
