-- ===== src/Session/Protocol/Runs.antt =====
-- Runs of a session: every run is orderly, and a session that is closed stays as it is.
use mathlib.Core.Path.{subst}
use mem_sandbox.Session.Acts.{Outcome, raise, raise_when, lifecycle_of, ◌>>=◌}
use mem_sandbox.Base.{ℕ, ◌≡◌, refl, sym, ◌⊎◌, inl, inr, true, false, List, [], ◌∷◌}
use mem_sandbox.Session.{
  SessionState, created, running, closing, closed, failed, SandboxEvent, Delivery, CloseTask,
  no_close, pending_close, finished_close, Session, new_session,
}
use mem_sandbox.Session.Lifecycle.{
  request_close, Emission, require_created, start, raise_some, close_once,
}
use mem_sandbox.Session.Operations.{rejection, reject_non_running, run_operation}
use mem_sandbox.Session.History.{
  SessionCall, starts, operates, asks_close, closes_once, run_call, run_calls,
}
use mem_sandbox.Session.Protocol.{observe}
use mem_sandbox.Session.Protocol.Steps.{request_close-over}
use mem_sandbox.Session.Protocol.Orderly.{
  IsOver, IsOrderly, unbegun, between, behind, request_close-IsOrderly,
}
use mem_sandbox.Session.Protocol.Work.{run_operation-IsOrderly}
use mem_sandbox.Session.Protocol.Closing.{start-IsOrderly, closes_once-IsOver}

closes_pending :
    (e : Emission) (resource : Outcome (Unit {0})) (e2 : Emission) (s : Session)
    → s.close_task ≡ pending_close
    → run_call (closes_once e resource e2) s ≡ (close_once e resource e2 s).1
unfolding run_call
closes_pending e resource e2 s k = rw (k) refl

closes-IsOrderly :
    (e : Emission) (resource : Outcome (Unit {0})) (e2 : Emission) (s : Session) (c : CloseTask)
    → s.close_task ≡ c
    → IsOrderly s
    → IsOrderly (run_call (closes_once e resource e2) s)
unfolding run_call
closes-IsOrderly e resource e2 s no_close k h =
    let same : run_call (closes_once e resource e2) s ≡ s = rw (k) refl in
    subst (λ t. IsOrderly t) (sym same) h
closes-IsOrderly e resource e2 s pending_close k h =
    subst (λ t. IsOrderly t) (sym (closes_pending e resource e2 s k))
      (behind (closes_once-IsOver e resource e2 s (rw (k) refl) h))
closes-IsOrderly e resource e2 s finished_close k h =
    let same : run_call (closes_once e resource e2) s ≡ s = rw (k) refl in
    subst (λ t. IsOrderly t) (sym same) h

pub run_call-IsOrderly : (c : SessionCall) (s : Session) → IsOrderly s → IsOrderly (run_call c s)
unfolding run_call
run_call-IsOrderly (starts gate m e) s h = (start-IsOrderly gate m e).ends s h
run_call-IsOrderly (operates kind limits a) s h = (run_operation-IsOrderly kind limits a).ends s h
run_call-IsOrderly asks_close s h = request_close-IsOrderly s h
run_call-IsOrderly (closes_once e resource e2) s h =
    closes-IsOrderly e resource e2 s s.close_task refl h

runs-IsOrderly : (cs : List SessionCall) (s : Session) → IsOrderly s → IsOrderly (run_calls cs s)
unfolding run_calls
runs-IsOrderly [] s h = h
runs-IsOrderly (c ∷ cs) s h = runs-IsOrderly cs (run_call c s) (run_call-IsOrderly c s h)

pub run_calls-IsOrderly : (cs : List SessionCall) → IsOrderly (run_calls cs new_session)
unfolding observe
run_calls-IsOrderly cs =
    runs-IsOrderly cs new_session
      (unbegun (record { at = refl; counted = refl; unfinished = refl; state = refl }))

run_call-over : (c : SessionCall) (s : Session) → IsOver s → run_call c s ≡ s
unfolding run_call start require_created run_operation reject_non_running lifecycle_of raise_some
    rejection raise raise_when ◌>>=◌
run_call-over (starts gate m e) s h = rw (h.over) refl
run_call-over (operates kind limits a) s h = rw (h.over) refl
run_call-over asks_close s h = request_close-over s h.finished
run_call-over (closes_once e resource e2) s h = rw (h.finished) refl

run_calls-over : (cs : List SessionCall) (s : Session) → IsOver s → run_calls cs s ≡ s
unfolding run_calls
run_calls-over [] s h = refl
run_calls-over (c ∷ cs) s h = rw (run_call-over c s h) (run_calls-over cs s h)

IsOrderly-IsOver : (s : Session) → s.close_task ≡ finished_close → IsOrderly s → IsOver s
IsOrderly-IsOver s f (unbegun h) = absurd (cc (rw (f) at h.unfinished))
IsOrderly-IsOver s f (between h) = absurd (cc (rw (f) at h.unfinished))
IsOrderly-IsOver s f (behind h) = h

-- When the close of a session has ended, no call changes the session or makes an event any more.
pub run_calls-finished :
    (before later : List SessionCall)
    → (run_calls before new_session).close_task ≡ finished_close
    → run_calls later (run_calls before new_session) ≡ run_calls before new_session
run_calls-finished before later f =
    run_calls-over later (run_calls before new_session)
      (IsOrderly-IsOver (run_calls before new_session) f (run_calls-IsOrderly before))

closed_unfinished :
    (n : ℕ) (g : List (SandboxEvent × Delivery))
    → IsOrderly (record { lifecycle = closed; sequence = n; close_task = no_close; log = g })
    → ⊥
closed_unfinished n g (unbegun h) = let e : false ≡ true = h.state in cc e
closed_unfinished n g (between h) = let e : false ≡ true = h.state in cc e
closed_unfinished n g (behind h) = let e : no_close ≡ finished_close = h.finished in cc e

-- An orderly session asked to close is over or has a close task that waits.
request_close-task :
    (c : CloseTask) (l : SessionState) (n : ℕ) (g : List (SandboxEvent × Delivery))
    → let s : Session = record { lifecycle = l; sequence = n; close_task = c; log = g } in
      IsOrderly s → (IsOver (request_close s)) ⊎ ((request_close s).close_task ≡ pending_close)
unfolding request_close
request_close-task pending_close l n g h = inr refl
request_close-task finished_close l n g h = inl (IsOrderly-IsOver _ refl h)
request_close-task no_close closed n g h = absurd (closed_unfinished n g h)
request_close-task no_close created n g h = inr refl
request_close-task no_close running n g h = inr refl
request_close-task no_close closing n g h = inr refl
request_close-task no_close failed n g h = inr refl

-- A call of `close` on a session after any calls, and the run of its task, whatever it meets, leave
-- the session closed and the task finished.
pub close-closed :
    (cs : List SessionCall) (e : Emission) (resource : Outcome (Unit {0})) (e2 : Emission)
    → let s = run_calls (asks_close ∷ closes_once e resource e2 ∷ []) (run_calls cs new_session) in
      (s.lifecycle ≡ closed) × (s.close_task ≡ finished_close)
unfolding run_calls run_call
close-closed cs e resource e2 =
    let s = run_calls cs new_session in
    let h : IsOrderly s = run_calls-IsOrderly cs in
    elim (request_close-task s.close_task s.lifecycle s.sequence s.log h) [
      | inl o ↦
          let same : run_call (closes_once e resource e2) (request_close s) ≡ request_close s =
            run_call-over (closes_once e resource e2) (request_close s) o in
          (rw (same) o.over, rw (same) o.finished)
      | inr w ↦
          let done =
            closes_once-IsOver e resource e2 (request_close s) (rw (w) refl)
              (request_close-IsOrderly s h) in
          let same = closes_pending e resource e2 (request_close s) w in
          (rw (same) done.over, rw (same) done.finished)
    ]
