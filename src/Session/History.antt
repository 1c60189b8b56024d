-- ===== src/Session/History.antt =====
-- The calls of a session, one after another.
use mem_sandbox.Session.Acts.{Outcome}
use mem_sandbox.Base.{Bool, List, [], ◌∷◌}
use mem_sandbox.Session.{
  OperationKind, no_close, pending_close, finished_close, Session, OperationLimits,
}
use mem_sandbox.Session.Lifecycle.{request_close, Emission, Admission, start, close_once}
use mem_sandbox.Session.Operations.{Answers, run_operation}

-- A call of `start`, of an operation or of `close`, or the run of the task that `close` made.
pub data SessionCall : Type 0 where
  starts : Admission → Bool → Emission → SessionCall
  operates : OperationKind → OperationLimits → Answers → SessionCall
  asks_close : SessionCall
  closes_once : Emission → Outcome (Unit {0}) → Emission → SessionCall

unfoldable pub run_call : SessionCall → Session → Session
run_call (starts gate meanwhile e) s = (start gate meanwhile e s).1
run_call (operates kind limits a) s = (run_operation kind limits a s).1
run_call asks_close s = request_close s
run_call (closes_once e resource e') s = elim s.close_task [
  | no_close ↦ s
  | pending_close ↦ (close_once e resource e' s).1
  | finished_close ↦ s
]

unfoldable pub run_calls : List SessionCall → Session → Session
run_calls [] s = s
run_calls (c ∷ cs) s = run_calls cs (run_call c s)
