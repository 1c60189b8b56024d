-- ===== src/Session/Protocol/Operate.antt =====
-- An operation between two orderly sessions.
use mathlib.Core.Path.{subst}
use mem_sandbox.Session.Acts.{
  sandbox_error, native_cancellation, unexpected, Outcome, raised, returned, outcome, attempt,
  raise_when, Triple, Triple-bind, Triple-raise_when, Triple-attempt, Triple-weaken, Keeps-bind,
  Keeps-pure, Keeps-outcome,
}
use mem_sandbox.Base.{
  ◌==◌, if◌then◌else◌, ==_refl, ℕ, ◌≡◌, refl, sym, true, false, ◌&&◌, none, some,
}
use mem_sandbox.Session.{
  ErrorCategory, invalid_request, not_found, conflict, quota_exceeded, policy_denied, timeout,
  cancelled, unsupported, internal, session_operation_cancelled, category, OperationKind,
  sandbox_failed, operation_started, Delivery, delivered, too_late, timed_out, interrupted, refused,
  Session,
}
use mem_sandbox.Session.Lifecycle.{Emission, delivery_outcome, emit_new, caught}
use mem_sandbox.Session.Operations.{
  SnapshotEvent, save_event, restore_event, snapshot_type, Answers, reject_non_running, emit_failed,
  terminal_for_category, terminal_type, announce,
}
use mem_sandbox.Session.Protocol.{
  Phase, idle, busy, marked, is_delivered, is_terminal, guarded, in_operation, next_phase,
}
use mem_sandbox.Session.Protocol.Steps.{Stands, Ends, emit_new-Stands}
use mem_sandbox.Session.Protocol.Orderly.{
  begun, IsOrderly, between, reject_non_running-IsOrderly, caught-Keeps,
}

-- In an operation, that may have told of a snapshot or of a failure.
pub data Working (id : ℕ) (s : Session) : Type 0 where
  announced : Stands begun (busy id) s → Working id s
  told : Stands begun (marked id) s → Working id s

-- The ends of `announce`.
abbrev pub Announced : ℕ → Outcome (Unit {0}) → Session → Type 0
Announced id = Ends (λ u. Stands begun (busy id)) IsOrderly

abbrev after : ℕ → Delivery → Phase
after id d = if is_delivered d then busy id else idle

after-Announced :
    (id : ℕ) (d : Delivery) (s : Session)
    → Stands begun (after id d) s
    → Announced id (delivery_outcome false d) s
unfolding delivery_outcome
after-Announced id delivered s h = h
after-Announced id too_late s h = between h
after-Announced id timed_out s h = between h
after-Announced id interrupted s h = between h
after-Announced id refused s h = between h

terminal_type-is_terminal : (o : Outcome ℕ) → is_terminal (terminal_type o) ≡ true
unfolding terminal_type terminal_for_category
terminal_type-is_terminal (returned r) = refl
terminal_type-is_terminal (raised native_cancellation) = refl
terminal_type-is_terminal (raised unexpected) = refl
terminal_type-is_terminal (raised (sandbox_error e)) = go (category e)
  where
    go : (c : ErrorCategory) → is_terminal (terminal_for_category c) ≡ true
    go invalid_request = refl
    go not_found = refl
    go conflict = refl
    go quota_exceeded = refl
    go policy_denied = refl
    go timeout = refl
    go cancelled = refl
    go unsupported = refl
    go internal = refl

pub emit_failed-told :
    (id : ℕ) (e : Emission)
    → Triple (Stands begun (busy id)) (emit_failed e) (λ o. Stands begun (marked id))
unfolding emit_failed next_phase
emit_failed-told id e =
    Triple-bind (λ o. Stands begun (marked id))
      (attempt (emit_new sandbox_failed none none false e)) _
      (Triple-attempt _ (emit_new sandbox_failed none none false e)
        (emit_new-Stands refl sandbox_failed none none false e refl) (λ o s h. h.1))
      (λ o. Keeps-bind (caught o) _ (caught-Keeps o) (λ z. Keeps-pure tt)) (λ x s h. h)

module _ (id : ℕ) (kind : OperationKind) where
  emit_started :
      (e : Emission)
      → Triple
          (Stands begun idle)
          (emit_new operation_started (some id) (some kind) false e)
          (Announced id)
  unfolding next_phase
  emit_started e =
      Triple-weaken
        (λ o s. (o ≡ delivery_outcome false e.delivery) × Stands begun (after id e.delivery) s)
        (emit_new operation_started (some id) (some kind) false e)
        (emit_new-Stands refl operation_started (some id) (some kind) false e refl)
        (λ o s h. subst (λ z. Announced id z s) (sym h.0) (after-Announced id e.delivery s h.1))

  pub announce-Announced :
      (a : Answers) → a.operation_id ≡ id → Triple IsOrderly (announce kind a) (Announced id)
  unfolding announce
  announce-Announced a same =
      Triple-bind (Ends (λ u. Stands begun idle) IsOrderly) reject_non_running _
        reject_non_running-IsOrderly
        (λ u.
          Triple-bind (λ o. Stands begun idle) (outcome a.normalized) _ (Keeps-outcome a.normalized)
            (λ v.
              Triple-bind (λ o. Stands begun idle)
                (raise_when a.cancellation_set session_operation_cancelled) _
                (Triple-raise_when a.cancellation_set session_operation_cancelled)
                (λ w.
                  subst
                    (λ i.
                      Triple (Stands begun idle)
                        (emit_new operation_started (some i) (some kind) false a.start_emission)
                        (Announced id))
                    (sym same) (emit_started a.start_emission))
                (λ x s h. between h))
            (λ x s h. between h))
        (λ x s h. h)

  pub emit_told :
      (event : SnapshotEvent) (e : Emission)
      → Triple
          (Stands begun (busy id))
          (emit_new (snapshot_type event) (some id) (some kind) false e)
          (λ o. Working id)
  unfolding next_phase
  emit_told event e =
      Triple-weaken _ (emit_new (snapshot_type event) (some id) (some kind) false e)
        (emit_new-Stands refl (snapshot_type event) (some id) (some kind) false e (may_tell event))
        (λ o s h. told h.1)
    where
      may_tell :
          (event : SnapshotEvent)
          → in_operation id (snapshot_type event) (some id) ≡ some (marked id)
      may_tell save_event = rw (==_refl id) refl
      may_tell restore_event = rw (==_refl id) refl

  pub emit_settled :
      (o : Outcome ℕ) (e : Emission)
      → Triple
          (Working id)
          (emit_new (terminal_type o) (some id) (some kind) false e)
          (λ r. Stands begun idle)
  unfolding next_phase
  emit_settled o e = record { ends = λ s h. go s h }
    where
      from_busy : in_operation id (terminal_type o) (some id) ≡ some idle
      from_busy = rw (terminal_type-is_terminal o, ==_refl id) refl

      from_marked : guarded (is_terminal (terminal_type o) && id == id) idle ≡ some idle
      from_marked = rw (terminal_type-is_terminal o, ==_refl id) refl

      go :
          (s : Session)
          → Working id s
          → Stands begun idle (emit_new (terminal_type o) (some id) (some kind) false e s).1
      go s (announced h) =
          ((emit_new-Stands refl (terminal_type o) (some id) (some kind) false e from_busy).ends s
            h).1
      go s (told h) =
          ((emit_new-Stands refl (terminal_type o) (some id) (some kind) false e from_marked).ends s
            h).1
