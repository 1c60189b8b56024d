-- ===== src/Session/Success.antt =====
-- What an operation of a session has met when it returns a result.
use mem_sandbox.Session.Acts.{
  sandbox_error, native_cancellation, unexpected, Outcome, raised, returned, outcome, raise,
  attempt, raise_when, lifecycle_of, ◌>>=◌,
}
use mem_sandbox.Base.{ℕ, ◌≡◌, refl, true, false, some}
use mem_sandbox.Session.{
  SessionState, created, running, closing, closed, failed, session_operation_cancelled,
  OperationKind, operation_started, delivered, Session, OperationLimits, is_running,
}
use mem_sandbox.Session.Lifecycle.{
  awaited, emit_new, Admission, admitted, admission_late, admission_cancelled,
  admission_interrupted, admission_outcome, raise_some,
}
use mem_sandbox.Session.Operations.{
  Answers, rejection, reject_non_running, work, terminal_type, final_outcome, settle_operation,
  unannounced, announce, conclude, run_operation,
}
use mem_sandbox.Session.Returns.{
  Returns, Returns-bind, Returns-outcome, Returns-attempt, Returns-weaken, Returns-then,
  Returns-raised, Returns-raise_when, emit_new-Returns,
}
use mem_sandbox.Session.Worked.{IsWorked, work-Returns}

final_outcome-returned :
    (o : Outcome ℕ) (sent : Outcome (Unit {0})) (r : ℕ)
    → final_outcome o sent ≡ returned r
    → (o ≡ returned r) × (sent ≡ returned tt)
unfolding final_outcome
final_outcome-returned (returned x) (returned u) r e = (e, refl)
final_outcome-returned (returned x) (raised y) r e = absurd (cc e)
final_outcome-returned (raised (sandbox_error x)) (returned u) r e = absurd (cc e)
final_outcome-returned (raised (sandbox_error x)) (raised y) r e = absurd (cc e)
final_outcome-returned (raised native_cancellation) sent r e = absurd (cc e)
final_outcome-returned (raised unexpected) (returned u) r e = absurd (cc e)
final_outcome-returned (raised unexpected) (raised y) r e = absurd (cc e)

-- The request was normalised, was not cancelled, and its start event was delivered.
pub record IsAnnounced (a : Answers) : Type 0 where
  pub normalised : a.normalized ≡ returned tt
  pub not_cancelled : a.cancellation_set ≡ false
  pub start_delivered : a.start_emission.delivery ≡ delivered

announce-Returns :
    (kind : OperationKind) (a : Answers) → Returns (announce kind a) (λ u. IsAnnounced a)
unfolding announce
announce-Returns kind a = Returns-then reject_non_running _ (
    Returns-bind _ (outcome a.normalized) _ (Returns-outcome a.normalized) (λ u normalises.
      Returns-bind _ (raise_when a.cancellation_set session_operation_cancelled) _
        (Returns-raise_when a.cancellation_set session_operation_cancelled)
        (λ v goes_on.
          Returns-weaken _ _
            (emit_new-Returns operation_started (some a.operation_id) (some kind) false
              a.start_emission)
            (λ w starts. record {
              normalised = normalises;
              not_cancelled = goes_on;
              start_delivered = starts;
            }))))

-- What an operation that returns a result has met.
pub record IsSuccess (limits : OperationLimits) (a : Answers) (r : ℕ) : Type 0 where
  pub gate_admitted : a.gate ≡ admitted
  pub announced : IsAnnounced a
  pub worked : IsWorked limits a r
  pub terminal_delivered : a.terminal.delivery ≡ delivered

settle_operation-Returns :
    (kind : OperationKind) (a : Answers) (o : Outcome ℕ)
    → Returns
        (settle_operation kind a o)
        (λ r. (o ≡ returned r) × (a.terminal.delivery ≡ delivered))
unfolding settle_operation
settle_operation-Returns kind a o =
    Returns-bind _
      (attempt (emit_new (terminal_type o) (some a.operation_id) (some kind) false a.terminal)) _
      (Returns-attempt _
        (emit_new (terminal_type o) (some a.operation_id) (some kind) false a.terminal)
        (emit_new-Returns (terminal_type o) (some a.operation_id) (some kind) false a.terminal))
      (λ sent sends.
        Returns-weaken _ (outcome (final_outcome o sent)) (Returns-outcome (final_outcome o sent))
          (λ r e. let both = final_outcome-returned o sent r e in (both.0, sends tt both.1)))

conclude-Returns :
    (kind : OperationKind) (limits : OperationLimits) (a : Answers) (o : Outcome (Unit {0}))
    → ((u : Unit {0}) → o ≡ returned u → IsAnnounced a)
    → a.gate ≡ admitted
    → Returns (conclude kind limits a o) (λ r. IsSuccess limits a r)
unfolding conclude
conclude-Returns kind limits a (raised x) h g = Returns-raised (unannounced x)
conclude-Returns kind limits a (returned u) h g =
    Returns-bind _ (attempt (work kind limits a)) _
      (Returns-attempt _ (work kind limits a) (work-Returns kind limits a))
      (λ o works.
        Returns-weaken _ (settle_operation kind a o) (settle_operation-Returns kind a o) (λ r e.
          record {
            gate_admitted = g;
            announced = h u refl;
            worked = works r e.0;
            terminal_delivered = e.1;
          }))

admission_outcome-returned :
    (gate : Admission) (u : Unit {0}) → admission_outcome gate ≡ returned u → gate ≡ admitted
unfolding admission_outcome
admission_outcome-returned admitted u e = refl
admission_outcome-returned admission_late u e = absurd (cc e)
admission_outcome-returned admission_cancelled u e = absurd (cc e)
admission_outcome-returned admission_interrupted u e = absurd (cc e)

run_operation-is_running :
    (kind : OperationKind) (limits : OperationLimits) (a : Answers) (s : Session) (l : SessionState)
    (r : ℕ)
    → s.lifecycle ≡ l
    → (run_operation kind limits a s).0 ≡ returned r
    → is_running s.lifecycle ≡ true
unfolding run_operation reject_non_running ◌>>=◌ lifecycle_of rejection raise_some raise
run_operation-is_running kind limits a s running r k e = rw (k) refl
run_operation-is_running kind limits a s created r k e = absurd (cc (rw (k) at e))
run_operation-is_running kind limits a s closing r k e = absurd (cc (rw (k) at e))
run_operation-is_running kind limits a s closed r k e = absurd (cc (rw (k) at e))
run_operation-is_running kind limits a s failed r k e = absurd (cc (rw (k) at e))

-- When an operation returns a result, the session ran at its call; it was admitted and announced;
-- the policy was asked before the deadline of the request and allowed it, with no more time than
-- requested; the action began before the deadline that the policy set, and it completed with that
-- result, at whatever time; and all events of the operation, the terminal one included, were
-- delivered.
pub run_operation-IsSuccess :
    (kind : OperationKind) (limits : OperationLimits) (a : Answers) (s : Session) (r : ℕ)
    → (run_operation kind limits a s).0 ≡ returned r
    → (is_running s.lifecycle ≡ true) × IsSuccess limits a r
unfolding run_operation
run_operation-IsSuccess kind limits a s r e =
    (run_operation-is_running kind limits a s s.lifecycle r refl e, whole.facts s r e)
  where
    whole : Returns (run_operation kind limits a) (λ r. IsSuccess limits a r)
    whole = Returns-then reject_non_running _ (
        Returns-then (awaited a.gate_meanwhile) _ (
          Returns-bind _ (outcome (admission_outcome a.gate)) _
            (Returns-outcome (admission_outcome a.gate))
            (λ u admits.
              Returns-bind _ (attempt (announce kind a)) _
                (Returns-attempt _ (announce kind a) (announce-Returns kind a))
                (λ o announces.
                  conclude-Returns kind limits a o announces
                    (admission_outcome-returned a.gate u admits)))))
