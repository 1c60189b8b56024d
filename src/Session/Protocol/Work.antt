-- ===== src/Session/Protocol/Work.antt =====
-- The work of an announced operation, and the whole operation.
use mathlib.Core.Path.{subst}
use mem_sandbox.Session.Acts.{
  native_cancellation, Outcome, raised, returned, Act, pure, outcome, attempt, change, ◌>>=◌, ◌>>◌,
  Triple, Triple-bind, Triple-pure, Triple-outcome, Triple-raise, Triple-raise_when, Triple-attempt,
  Triple-change, Triple-weaken, Keeps, Keeps-bind, Keeps-pure, Keeps-outcome,
}
use mem_sandbox.Base.{Bool-cases, ℕ, ◌≡◌, refl, sym, inl, inr, Bool, false, not, Option, none, some}
use mem_sandbox.Session.{
  failed, session_policy_denied, session_snapshot_restore_failed, OperationKind, Session,
  OperationLimits, is_running,
}
use mem_sandbox.Session.Lifecycle.{awaited, Emission, emit_new, admission_outcome, set_lifecycle}
use mem_sandbox.Session.Operations.{
  ActionEnd, completed, action_raised, unsettled, unproven, unproven_interrupted, SnapshotEvent,
  PostCommit, Answers, reject_non_running, remaining, validate_policy_decision, fail_closed,
  emit_failed, act, post_commit_outcome, emit_built, emit_post_commit, work, terminal_type,
  final_outcome, settle_operation, unannounced, announce, conclude, run_operation,
}
use mem_sandbox.Session.Protocol.{Phase, idle, busy, marked}
use mem_sandbox.Session.Protocol.Steps.{Stands, set_lifecycle-Stands, awaited-Stands, Ends}
use mem_sandbox.Session.Protocol.Orderly.{
  begun, IsOrderly, between, awaited-IsOrderly, reject_non_running-IsOrderly,
}
use mem_sandbox.Session.Protocol.Operate.{
  Working, announced, told, Announced, emit_failed-told, announce-Announced, emit_told,
  emit_settled,
}

fail_closed-Stands : {p : Phase} (s : Session) → Stands begun p s → Stands begun p (fail_closed s)
unfolding fail_closed
fail_closed-Stands {p} s h = elim (Bool-cases (is_running s.lifecycle)) [
  | inl e ↦ rw (e) (set_lifecycle-Stands failed refl s h)
  | inr e ↦ rw (e) h
]

module _ (id : ℕ) where
  -- The ends of an action: the operation is still open, and if it returned nothing was told.
  abbrev Acted : {A : Type 0} → Outcome A → Session → Type 0
  Acted = Ends (λ a. Stands begun (busy id)) (Working id)

  fails :
      {A : Type 0} (m : Act A) (meanwhile : Bool)
      → Triple (Stands begun (busy id)) m Acted
      → Triple (Stands begun (busy id)) (awaited meanwhile >> m) Acted
  fails m meanwhile h =
      Triple-bind (λ o. Stands begun (busy id)) (awaited meanwhile) (λ u. m)
        (awaited-Stands refl meanwhile) (λ u. h) (λ x s k. announced k)

  act-Acted :
      (e : ActionEnd) (meanwhile : Bool) → Triple (Stands begun (busy id)) (act e meanwhile) Acted
  unfolding act
  act-Acted (completed r) m = fails (pure r) m (Triple-pure r (λ s h. h))
  act-Acted (action_raised x) m =
      fails (outcome (raised x)) m (Triple-outcome (raised x) (λ s h. announced h))
  act-Acted (unsettled x) m = fails _ m (
      Triple-bind (λ o. Stands begun (busy id)) (change fail_closed) _
        (Triple-change fail_closed fail_closed-Stands)
        (λ u. Triple-outcome (raised x) (λ s h. announced h)) (λ y s h. announced h))
  act-Acted (unproven e) m = fails _ m (
      Triple-bind (λ o. Stands begun (busy id)) (change (set_lifecycle failed)) _
        (Triple-change (set_lifecycle failed) (set_lifecycle-Stands failed refl))
        (λ u.
          Triple-bind (λ o. Stands begun (marked id)) (emit_failed e) _ (emit_failed-told id e)
            (λ v. Triple-raise session_snapshot_restore_failed (λ s h. told h)) (λ y s h. told h))
        (λ y s h. announced h))
  act-Acted unproven_interrupted m = fails _ m (
      Triple-bind (λ o. Stands begun (busy id)) (change (set_lifecycle failed)) _
        (Triple-change (set_lifecycle failed) (set_lifecycle-Stands failed refl))
        (λ u. Triple-outcome (raised native_cancellation) (λ s h. announced h))
        (λ y s h. announced h))

  module _ (kind : OperationKind) where
    emit_built-Working :
        (o : Outcome SnapshotEvent) (e : Emission)
        → Triple (Stands begun (busy id)) (emit_built o id kind e) (λ r. Working id)
    unfolding emit_built
    emit_built-Working (raised x) e = Triple-outcome (raised x) (λ s h. announced h)
    emit_built-Working (returned event) e = emit_told id kind event e

    emit_post_commit-Working :
        (p : Option PostCommit)
        → Triple (Stands begun (busy id)) (emit_post_commit p id kind) (λ r. Working id)
    unfolding emit_post_commit
    emit_post_commit-Working none = Triple-pure tt (λ s h. announced h)
    emit_post_commit-Working (some p) =
        Triple-bind (λ o. Working id) (attempt (emit_built p.built id kind p.emission)) _
          (Triple-attempt _ (emit_built p.built id kind p.emission)
            (emit_built-Working p.built p.emission) (λ o s h. h))
          (λ o. Keeps-outcome (post_commit_outcome o)) (λ x s h. h)

    -- A step of the work that makes no event.
    quietly :
        {A B : Type 0} (m : Act A) (f : A → Act B)
        → Keeps (Stands begun (busy id)) m
        → ((a : A) → Triple (Stands begun (busy id)) (f a) (λ r. Working id))
        → Triple (Stands begun (busy id)) (m >>= f) (λ r. Working id)
    quietly m f h k = Triple-bind (λ o. Stands begun (busy id)) m f h k (λ x s g. announced g)

    work-Working :
        (limits : OperationLimits) (a : Answers)
        → a.operation_id ≡ id
        → Triple (Stands begun (busy id)) (work kind limits a) (λ r. Working id)
    unfolding work remaining validate_policy_decision
    work-Working limits a same = quietly _ _ (Triple-raise_when _ _) (λ u.
        quietly (awaited a.policy_meanwhile) _ (awaited-Stands refl a.policy_meanwhile) (λ u.
          quietly (outcome a.decision) _ (Keeps-outcome a.decision) (λ d.
            quietly _ _ (Keeps-bind _ _ (Triple-raise_when _ _) (λ u. Triple-raise_when _ _)) (λ u.
              quietly _ _ (Triple-raise_when (not d.allowed) session_policy_denied)
                (λ u. quietly _ _ (Triple-raise_when _ _) (λ u. the_action))))))
      where
        the_action :
            Triple
              (Stands begun (busy id))
              (act a.action a.action_meanwhile >>= λ r.
                emit_post_commit a.post_commit a.operation_id kind >> pure r)
              (λ r. Working id)
        the_action =
            Triple-bind Acted (act a.action a.action_meanwhile) _
              (act-Acted a.action a.action_meanwhile)
              (λ r.
                Triple-bind (λ o. Working id) (emit_post_commit a.post_commit a.operation_id kind) _
                  (subst
                    (λ i.
                      Triple (Stands begun (busy id)) (emit_post_commit a.post_commit i kind)
                        (λ r. Working id))
                    (sym same) (emit_post_commit-Working a.post_commit))
                  (λ u. Keeps-pure r) (λ x s h. h))
              (λ x s h. h)

    settle_operation-Stands :
        (a : Answers) (o : Outcome ℕ)
        → a.operation_id ≡ id
        → Triple (Working id) (settle_operation kind a o) (λ r. Stands begun idle)
    unfolding settle_operation
    settle_operation-Stands a o same =
        Triple-bind (λ r. Stands begun idle)
          (attempt (emit_new (terminal_type o) (some a.operation_id) (some kind) false a.terminal))
          _
          (Triple-attempt _
            (emit_new (terminal_type o) (some a.operation_id) (some kind) false a.terminal)
            (subst
              (λ i.
                Triple (Working id)
                  (emit_new (terminal_type o) (some i) (some kind) false a.terminal)
                  (λ r. Stands begun idle))
              (sym same) (emit_settled id kind o a.terminal))
            (λ r s h. h))
          (λ sent. Keeps-outcome (final_outcome o sent)) (λ x s h. h)

conclude-IsOrderly :
    (kind : OperationKind) (limits : OperationLimits) (a : Answers) (o : Outcome (Unit {0}))
    → Triple (Announced a.operation_id o) (conclude kind limits a o) (λ r. IsOrderly)
unfolding conclude
conclude-IsOrderly kind limits a (raised x) = Keeps-outcome (raised (unannounced x))
conclude-IsOrderly kind limits a (returned u) =
    Triple-bind (Ends (λ o. Working a.operation_id) IsOrderly) (attempt (work kind limits a)) _
      (Triple-attempt _ (work kind limits a) (work-Working a.operation_id kind limits a refl)
        (λ o s h. h))
      (λ o.
        Triple-weaken _ _ (settle_operation-Stands a.operation_id kind a o refl)
          (λ r s h. between h))
      (λ x s h. h)

-- An operation keeps a session orderly, whatever it meets.
pub run_operation-IsOrderly :
    (kind : OperationKind) (limits : OperationLimits) (a : Answers)
    → Keeps IsOrderly (run_operation kind limits a)
unfolding run_operation
run_operation-IsOrderly kind limits a =
    Triple-bind (λ o. IsOrderly) reject_non_running _
      (Triple-weaken (Ends (λ u. Stands begun idle) IsOrderly) reject_non_running
        reject_non_running-IsOrderly forget)
      (λ u. Keeps-bind _ _ (awaited-IsOrderly a.gate_meanwhile) (λ u.
        Keeps-bind _ _ (Keeps-outcome (admission_outcome a.gate)) (λ u.
          Triple-bind (Ends (Announced a.operation_id) IsOrderly) (attempt (announce kind a)) _
            (Triple-attempt _ (announce kind a) (announce-Announced a.operation_id kind a refl)
              (λ o s h. h))
            (conclude-IsOrderly kind limits a) (λ x s h. h))))
      (λ x s h. h)
  where
    forget :
        (o : Outcome (Unit {0})) (s : Session)
        → Ends (λ u. Stands begun idle) IsOrderly o s
        → IsOrderly s
    forget (returned u) s h = between h
    forget (raised x) s h = h
