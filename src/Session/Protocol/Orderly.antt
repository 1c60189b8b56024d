-- ===== src/Session/Protocol/Orderly.antt =====
-- The sessions between calls, and what each step of a call keeps.
use mathlib.Core.Path.{subst}
use mem_sandbox.Session.Acts.{
  sandbox_error, native_cancellation, unexpected, Outcome, raised, returned, pure, raise,
  raise_when, lifecycle_of, ◌>>=◌, Triple, Keeps, Keeps-pure, Keeps-outcome, Keeps-raise,
}
use mem_sandbox.Base.{length, ◌≡◌, refl, sym, Bool, true, false, not, Option, none, some}
use mem_sandbox.Session.{
  SessionState, created, running, closing, closed, failed, SessionError, session_start_invalid,
  finished_close, Session, is_created, is_running,
}
use mem_sandbox.Session.Lifecycle.{
  request_close, interfere, awaited, require_created, caught, raise_some,
}
use mem_sandbox.Session.Operations.{rejection, reject_non_running}
use mem_sandbox.Session.Protocol.{Phase, fresh, idle, ending, ended, observe}
use mem_sandbox.Session.Protocol.Steps.{
  Stands, request_close-over, Stands-allowed, request_close-Stands, Ends,
}

abbrev pub unopened : SessionState → Bool
unopened created = true
unopened closing = true
unopened failed = true
unopened l = false

abbrev pub begun : SessionState → Bool
begun running = true
begun closing = true
begun failed = true
begun l = false

abbrev pub unclosed : SessionState → Bool
unclosed closed = false
unclosed l = true

abbrev pub any_state : SessionState → Bool
any_state l = true

abbrev pub is_last : Phase → Bool
is_last ending = true
is_last ended = true
is_last p = false

-- A session whose close has ended.
pub record IsOver (s : Session) : Type 0 where
  pub phase : Phase
  pub at : observe fresh 0 s.log ≡ some phase
  pub last : is_last phase ≡ true
  pub counted : s.sequence ≡ length s.log
  pub finished : s.close_task ≡ finished_close
  pub over : s.lifecycle ≡ closed

-- A session between calls: without an event, between operations, or closed. Its events come in the
-- order of the phases, and its number counts them.
pub data IsOrderly (s : Session) : Type 0 where
  unbegun : Stands unopened fresh s → IsOrderly s
  between : Stands begun idle s → IsOrderly s
  behind : IsOver s → IsOrderly s

pub request_close-IsOrderly : (s : Session) → IsOrderly s → IsOrderly (request_close s)
request_close-IsOrderly s (unbegun h) = unbegun (request_close-Stands refl s h)
request_close-IsOrderly s (between h) = between (request_close-Stands refl s h)
request_close-IsOrderly s (behind h) =
    subst (λ t. IsOrderly t) (sym (request_close-over s h.finished)) (behind h)

pub awaited-IsOrderly : (b : Bool) → Keeps IsOrderly (awaited b)
unfolding awaited interfere
awaited-IsOrderly true = record { ends = request_close-IsOrderly }
awaited-IsOrderly false = record { ends = λ s h. h }

-- A session that runs stands between two operations.
running-Stands : (s : Session) → is_running s.lifecycle ≡ true → IsOrderly s → Stands begun idle s
running-Stands s r (between h) = h
running-Stands s r (unbegun h) = absurd (not_both s.lifecycle r h.state)
  where
    not_both : (l : SessionState) → is_running l ≡ true → unopened l ≡ true → ⊥
    not_both created r u = cc r
    not_both running r u = cc u
    not_both closing r u = cc r
    not_both closed r u = cc r
    not_both failed r u = cc r
running-Stands s r (behind h) = absurd (cc (rw (h.over) at r))

pub reject_non_running-IsOrderly :
    Triple IsOrderly reject_non_running (Ends (λ u. Stands begun idle) IsOrderly)
unfolding reject_non_running rejection ◌>>=◌ lifecycle_of raise_some pure raise
reject_non_running-IsOrderly = record { ends = λ s h. go s s.lifecycle refl h }
  where
    go :
        (s : Session) (l : SessionState)
        → s.lifecycle ≡ l
        → IsOrderly s
        → Ends
            (λ (u : Unit {0}). Stands begun idle)
            IsOrderly
            (raise_some (rejection l) s).0
            (raise_some (rejection l) s).1
    go s running e h = running-Stands s (rw (e) refl) h
    go s created e h = h
    go s closing e h = h
    go s closed e h = h
    go s failed e h = h

created-Stands :
    (s : Session) → is_created s.lifecycle ≡ true → IsOrderly s → Stands unclosed fresh s
created-Stands s r (unbegun h) = Stands-allowed s (created_unclosed s.lifecycle r) h
  where
    created_unclosed : (l : SessionState) → is_created l ≡ true → unclosed l ≡ true
    created_unclosed created e = refl
    created_unclosed running e = refl
    created_unclosed closing e = refl
    created_unclosed failed e = refl
    created_unclosed closed e = e
created-Stands s r (between h) = absurd (not_both s.lifecycle r h.state)
  where
    not_both : (l : SessionState) → is_created l ≡ true → begun l ≡ true → ⊥
    not_both created r u = cc u
    not_both running r u = cc r
    not_both closing r u = cc r
    not_both closed r u = cc r
    not_both failed r u = cc r
created-Stands s r (behind h) = absurd (cc (rw (h.over) at r))

pub require_created-IsOrderly :
    Triple IsOrderly require_created (Ends (λ u. Stands unclosed fresh) IsOrderly)
unfolding require_created ◌>>=◌ lifecycle_of raise_when
require_created-IsOrderly = record { ends = λ s h. go s s.lifecycle refl h }
  where
    go :
        (s : Session) (l : SessionState)
        → s.lifecycle ≡ l
        → IsOrderly s
        → Ends
            (λ (u : Unit {0}). Stands unclosed fresh)
            IsOrderly
            (raise_when (not (is_created l)) session_start_invalid s).0
            (raise_when (not (is_created l)) session_start_invalid s).1
    go s created e h = created-Stands s (rw (e) refl) h
    go s running e h = h
    go s closing e h = h
    go s closed e h = h
    go s failed e h = h

pub caught-Keeps : {P : Session → Type 0} (o : Outcome (Unit {0})) → Keeps P (caught o)
unfolding caught
caught-Keeps (returned u) = Keeps-pure none
caught-Keeps (raised (sandbox_error e)) = Keeps-pure (some e)
caught-Keeps (raised native_cancellation) = Keeps-outcome (raised native_cancellation)
caught-Keeps (raised unexpected) = Keeps-outcome (raised unexpected)

pub raise_some-Keeps : {P : Session → Type 0} (o : Option SessionError) → Keeps P (raise_some o)
unfolding raise_some
raise_some-Keeps none = Keeps-pure tt
raise_some-Keeps (some e) = Keeps-raise e
