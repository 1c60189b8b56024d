-- ===== src/Session/Lifecycle.antt =====
-- The events of a session, `start` and `close` of src/mem_sandbox/session/session.py.
use mem_sandbox.Session.Acts.{
  sandbox_error, native_cancellation, unexpected, Outcome, raised, returned, Act, pure, outcome,
  raise, attempt, raise_when, lifecycle_of, change, ◌>>=◌, ◌>>◌,
}
use mem_sandbox.Base.{
  if◌then◌else◌, ℕ, ◌+◌, Bool, true, false, not, Option, none, some, [], ◌∷◌, ◌++◌,
}
use mem_sandbox.Session.{
  SessionState, created, running, closing, closed, failed, SessionError, session_start_invalid,
  session_operation_timeout, session_operation_cancelled, session_close_timeout,
  session_event_delivery_failed, OperationKind, EventType, sandbox_started, sandbox_closing,
  sandbox_closed, SandboxEvent, Delivery, delivered, too_late, timed_out, interrupted, refused,
  no_close, pending_close, finished_close, Session, is_created,
}

-- The part of `close` before its wait, on the tasks that call it.
unfoldable pub request_close : Session → Session
request_close s = elim s.close_task [
  | pending_close ↦ s
  | finished_close ↦ s
  | no_close ↦ elim s.lifecycle [
    | closed ↦ s
    | created ↦ record s { lifecycle = closing; close_task = pending_close }
    | running ↦ record s { lifecycle = closing; close_task = pending_close }
    | closing ↦ record s { lifecycle = closing; close_task = pending_close }
    | failed ↦ record s { lifecycle = closing; close_task = pending_close }
  ]
]

-- A wait: was `close` called in it?
unfoldable pub interfere : Bool → Session → Session
interfere true s = request_close s
interfere false s = s

unfoldable pub awaited : Bool → Act (Unit {0})
awaited meanwhile s = (returned tt, interfere meanwhile s)

-- What became of an event, and whether `close` was called before the end of it.
pub record Emission : Type 0 where
  pub delivery : Delivery
  pub meanwhile : Bool

-- `_new_event`
unfoldable pub new_event : EventType → Option ℕ → Option OperationKind → Session → SandboxEvent
new_event type id kind s = record {
  event_type = type;
  sequence = s.sequence + 1;
  operation_id = id;
  operation_kind = kind;
}

-- What `_emit_event` raises.
unfoldable pub delivery_outcome : Bool → Delivery → Outcome (Unit {0})
delivery_outcome close_timeout delivered = returned tt
delivery_outcome close_timeout too_late =
    raised
      (sandbox_error (if close_timeout then session_close_timeout else session_operation_timeout))
delivery_outcome close_timeout timed_out =
    raised
      (sandbox_error (if close_timeout then session_close_timeout else session_operation_timeout))
delivery_outcome close_timeout interrupted = raised native_cancellation
delivery_outcome close_timeout refused = raised (sandbox_error session_event_delivery_failed)

-- `_emit_event` of a new event. Past the deadline it does not wait, so nothing happens meanwhile.
unfoldable pub emit_new :
    EventType → Option ℕ → Option OperationKind → Bool → Emission → Act (Unit {0})
emit_new type id kind close_timeout e s =
    let made = record s {
      sequence = s.sequence + 1;
      log = s.log ++ (new_event type id kind s, e.delivery) ∷ [];
    } in
    (
      delivery_outcome close_timeout e.delivery,
      elim e.delivery [
        | too_late ↦ made
        | delivered ↦ interfere e.meanwhile made
        | timed_out ↦ interfere e.meanwhile made
        | interrupted ↦ interfere e.meanwhile made
        | refused ↦ interfere e.meanwhile made
      ],
    )

-- The end of the wait for the operation gate.
pub data Admission : Type 0 where
  admitted admission_late admission_cancelled admission_interrupted : Admission

unfoldable pub admission_outcome : Admission → Outcome (Unit {0})
admission_outcome admitted = returned tt
admission_outcome admission_late = raised (sandbox_error session_operation_timeout)
admission_outcome admission_cancelled = raised (sandbox_error session_operation_cancelled)
admission_outcome admission_interrupted = raised native_cancellation

unfoldable pub set_lifecycle : SessionState → Session → Session
set_lifecycle l s = record s { lifecycle = l }

abbrev pub start_if_created : Session → Session
start_if_created s = if is_created s.lifecycle then set_lifecycle running s else s

-- The end of `start`, by what became of the event.
unfoldable pub finish_start : Outcome (Unit {0}) → Act (Unit {0})
finish_start (raised x) = do change (set_lifecycle failed); outcome (raised x)
finish_start (returned u) = change start_if_created

-- `if self._state is not SandboxSessionState.CREATED`
unfoldable pub require_created : Act (Unit {0})
require_created = do s ← lifecycle_of; raise_when (not (is_created s)) session_start_invalid

-- `start`; no wait for the gate is cancelled cooperatively.
unfoldable pub start : Admission → Bool → Emission → Act (Unit {0})
start gate meanwhile e = do
  require_created
  awaited meanwhile
  outcome (admission_outcome gate)
  require_created
  o ← attempt (emit_new sandbox_started none none false e)
  finish_start o

-- The first error of two outcomes: `primary`. One that is not of the sandbox's ends the method at
-- once.
unfoldable pub first_error : Option SessionError → Option SessionError → Option SessionError
first_error none second = second
first_error (some e) second = some e

-- `except SandboxError as error`
unfoldable pub caught : Outcome (Unit {0}) → Act (Option SessionError)
caught (returned u) = pure none
caught (raised (sandbox_error e)) = pure (some e)
caught (raised native_cancellation) = outcome (raised native_cancellation)
caught (raised unexpected) = outcome (raised unexpected)

unfoldable pub raise_some : Option SessionError → Act (Unit {0})
raise_some none = pure tt
raise_some (some e) = raise e

-- The body of `_close_once`: the closing event, the resources' close, and the closed event.
unfoldable pub close_body : Emission → Outcome (Unit {0}) → Emission → Act (Unit {0})
close_body closing_event resource closed_event = do
  o ← attempt (emit_new sandbox_closing none none true closing_event)
  first ← caught o
  second ← caught resource
  change (set_lifecycle closed)
  p ← attempt (emit_new sandbox_closed none none true closed_event)
  third ← caught p
  raise_some (first_error first (first_error second third))

unfoldable pub end_close : Session → Session
end_close s = record s { lifecycle = closed; close_task = finished_close }

-- `_close_once`, with its `finally`.
unfoldable pub close_once : Emission → Outcome (Unit {0}) → Emission → Act (Unit {0})
close_once closing_event resource closed_event = do
  o ← attempt (close_body closing_event resource closed_event)
  change end_close
  outcome o
