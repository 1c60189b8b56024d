-- ===== src/Session/Protocol/Closing.antt =====
-- `start`, and the task of `close`, between two orderly sessions.
use mem_sandbox.Session.Acts.{
  Outcome, raised, returned, Act, attempt, lifecycle_of, change, ◌>>=◌, Triple, Triple-bind,
  Triple-raise_when, Triple-attempt, Triple-change, Triple-weaken, Keeps, Keeps-bind, Keeps-outcome,
}
use mem_sandbox.Base.{Bool-cases, ◌≡◌, refl, inl, inr, Bool, true, false, not, none, some}
use mem_sandbox.Session.{
  SessionState, created, running, closing, closed, failed, session_start_invalid, sandbox_started,
  sandbox_closing, sandbox_closed, Session, is_created,
}
use mem_sandbox.Session.Lifecycle.{
  Emission, emit_new, Admission, admission_outcome, set_lifecycle, start_if_created, finish_start,
  require_created, start, first_error, caught, close_body, end_close, close_once,
}
use mem_sandbox.Session.Protocol.{Phase, fresh, idle, ending, ended, next_phase}
use mem_sandbox.Session.Protocol.Steps.{
  is_finished, Stands, set_lifecycle-Stands, Stands-allowed, Ends, emit_new-Stands,
}
use mem_sandbox.Session.Protocol.Orderly.{
  begun, unclosed, any_state, is_last, IsOver, IsOrderly, unbegun, between, behind,
  awaited-IsOrderly, require_created-IsOrderly, caught-Keeps, raise_some-Keeps,
}

pub start_if_created-IsOrderly :
    (s : Session) → Stands unclosed idle s → IsOrderly (start_if_created s)
start_if_created-IsOrderly s h = elim (Bool-cases (is_created s.lifecycle)) [
  | inl e ↦ rw (e) (between (set_lifecycle-Stands running refl s h))
  | inr e ↦ rw (e) (between (Stands-allowed s (not_created s.lifecycle e h.state) h))
]
  where
    not_created : (l : SessionState) → is_created l ≡ false → unclosed l ≡ true → begun l ≡ true
    not_created created e u = cc e
    not_created running e u = refl
    not_created closing e u = refl
    not_created closed e u = cc u
    not_created failed e u = refl

pub finish_start-IsOrderly :
    (o : Outcome (Unit {0})) → Triple (Stands unclosed idle) (finish_start o) (λ r. IsOrderly)
unfolding finish_start
finish_start-IsOrderly (returned u) = Triple-change start_if_created start_if_created-IsOrderly
finish_start-IsOrderly (raised x) =
    Triple-bind (λ o. IsOrderly) (change (set_lifecycle failed)) _
      (Triple-change (set_lifecycle failed) (λ s h. between (set_lifecycle-Stands failed refl s h)))
      (λ u. Keeps-outcome (raised x)) (λ y s h. h)

pub require_created-Keeps : Keeps IsOrderly require_created
unfolding require_created lifecycle_of
require_created-Keeps =
    Keeps-bind lifecycle_of _ (record { ends = λ s h. h })
      (λ l. Triple-raise_when (not (is_created l)) session_start_invalid)

pub start-IsOrderly :
    (gate : Admission) (meanwhile : Bool) (e : Emission) → Keeps IsOrderly (start gate meanwhile e)
unfolding start next_phase
start-IsOrderly gate meanwhile e = Keeps-bind require_created _ require_created-Keeps (λ u.
    Keeps-bind _ _ (awaited-IsOrderly meanwhile) (λ u.
      Keeps-bind _ _ (Keeps-outcome (admission_outcome gate)) (λ u.
        Triple-bind (Ends (λ u. Stands unclosed fresh) IsOrderly) require_created _
          require_created-IsOrderly
          (λ u.
            Triple-bind (Ends (λ o. Stands unclosed idle) IsOrderly)
              (attempt (emit_new sandbox_started none none false e)) _
              (Triple-attempt _ (emit_new sandbox_started none none false e)
                (emit_new-Stands refl sandbox_started none none false e refl) (λ o s h. h.1))
              finish_start-IsOrderly (λ x s h. h))
          (λ x s h. h))))

-- Behind the closing event.
pub record IsEnding (s : Session) : Type 0 where
  pub phase : Phase
  pub stands : Stands any_state phase s
  pub last : is_last phase ≡ true

pub close_body-IsEnding :
    (e : Emission) (resource : Outcome (Unit {0})) (e2 : Emission) (p : Phase)
    → next_phase p sandbox_closing none e.delivery ≡ some ending
    → Triple (Stands any_state p) (close_body e resource e2) (λ o. IsEnding)
unfolding close_body next_phase
close_body-IsEnding e resource e2 p may_close =
    Triple-bind (Ends (λ o. Stands any_state ending) IsEnding)
      (attempt (emit_new sandbox_closing none none true e)) _
      (Triple-attempt _ (emit_new sandbox_closing none none true e)
        (emit_new-Stands refl sandbox_closing none none true e may_close) (λ o s h. h.1))
      (λ o. quietly (caught o) _ (caught-Keeps o) (λ first.
        quietly (caught resource) _ (caught-Keeps resource) (λ second.
          quietly (change (set_lifecycle closed)) _
            (Triple-change (set_lifecycle closed) (set_lifecycle-Stands closed refl))
            (λ u.
              Triple-bind (Ends (λ o. Stands any_state ended) IsEnding)
                (attempt (emit_new sandbox_closed none none true e2)) _
                (Triple-attempt _ (emit_new sandbox_closed none none true e2)
                  (emit_new-Stands refl sandbox_closed none none true e2 refl) (λ o s h. h.1))
                (λ p.
                  Triple-weaken (λ o. Stands any_state ended) _
                    (Keeps-bind (caught p) _ (caught-Keeps p)
                      (λ third. raise_some-Keeps (first_error first (first_error second third))))
                    (λ o s h. record { phase = ended; stands = h; last = refl }))
                (λ x s h. h)))))
      (λ x s h. h)
  where
    quietly :
        {A B : Type 0} (m : Act A) (f : A → Act B)
        → Keeps (Stands any_state ending) m
        → ((a : A) → Triple (Stands any_state ending) (f a) (λ r. IsEnding))
        → Triple (Stands any_state ending) (m >>= f) (λ r. IsEnding)
    quietly m f h k =
        Triple-bind (λ o. Stands any_state ending) m f h k
          (λ x s g. record { phase = ending; stands = g; last = refl })

pub close_once-IsOver :
    (e : Emission) (resource : Outcome (Unit {0})) (e2 : Emission) (p : Phase)
    → next_phase p sandbox_closing none e.delivery ≡ some ending
    → Triple (Stands any_state p) (close_once e resource e2) (λ o. IsOver)
unfolding close_once end_close
close_once-IsOver e resource e2 p may_close =
    Triple-bind (Ends (λ o. IsEnding) IsOver) (attempt (close_body e resource e2)) _
      (Triple-attempt _ (close_body e resource e2) (close_body-IsEnding e resource e2 p may_close)
        (λ o s h. h))
      (λ o.
        Triple-bind (λ r. IsOver) (change end_close) _
          (Triple-change end_close (λ s h. record {
            phase = h.phase;
            at = h.stands.at;
            last = h.last;
            counted = h.stands.counted;
            finished = refl;
            over = refl;
          }))
          (λ u. Keeps-outcome o) (λ x s h. h))
      (λ x s h. h)

-- The task of `close` closes a session for good.
pub closes_once-IsOver :
    (e : Emission) (resource : Outcome (Unit {0})) (e2 : Emission) (s : Session)
    → is_finished s.close_task ≡ false
    → IsOrderly s
    → IsOver (close_once e resource e2 s).1
unfolding next_phase
closes_once-IsOver e resource e2 s p (unbegun h) =
    (close_once-IsOver e resource e2 fresh refl).ends s (Stands-allowed s refl h)
closes_once-IsOver e resource e2 s p (between h) =
    (close_once-IsOver e resource e2 idle refl).ends s (Stands-allowed s refl h)
closes_once-IsOver e resource e2 s p (behind h) = absurd (cc (rw (h.finished) at p))
