-- ===== src/Session/Worked.antt =====
-- What the work of an operation has met when it comes to a result.
use mem_sandbox.Session.Acts.{
  sandbox_error, native_cancellation, unexpected, Outcome, raised, returned, pure, outcome, raise,
  attempt, change,
}
use mem_sandbox.Base.{
  ltb, leb, ℕ, ◌+◌, ◌-◌, ◌≤◌, ◌≡◌, refl, Bool, true, false, not, Option, none, some, arith,
}
use mem_sandbox.Session.{
  failed, session_request_invalid, session_operation_timeout, session_policy_denied,
  session_snapshot_restore_failed, OperationKind, delivered, OperationLimits, PolicyDecision,
}
use mem_sandbox.Session.Lifecycle.{awaited, emit_new, set_lifecycle}
use mem_sandbox.Session.Operations.{
  ActionEnd, completed, action_raised, unsettled, unproven, unproven_interrupted, SnapshotEvent,
  snapshot_type, PostCommit, Answers, remaining, validate_policy_decision, fail_closed, emit_failed,
  act, post_commit_outcome, emit_built, emit_post_commit, work,
}
use mem_sandbox.Session.Returns.{
  Returns, Returns-bind, Returns-outcome, Returns-attempt, Returns-weaken, Returns-then,
  Returns-raised, Returns-pure, Returns-raise_when, emit_new-Returns,
}

-- The event behind a commit was built and delivered, if there is one.
pub data IsTold : Option PostCommit → Type 0 where
  no_event : IsTold none
  told_event :
      (p : PostCommit) (t : SnapshotEvent)
      → p.built ≡ returned t
      → p.emission.delivery ≡ delivered
      → IsTold (some p)

pub emit_built-Returns :
    (p : PostCommit) (id : ℕ) (kind : OperationKind) (o : Outcome SnapshotEvent)
    → p.built ≡ o
    → Returns (emit_built o id kind p.emission) (λ u. IsTold (some p))
unfolding emit_built
emit_built-Returns p id kind (raised x) k =
    Returns-weaken _ (outcome (raised x)) (Returns-outcome (raised x)) (λ u e. absurd (cc e))
emit_built-Returns p id kind (returned t) k =
    Returns-weaken _ (emit_new (snapshot_type t) (some id) (some kind) false p.emission)
      (emit_new-Returns (snapshot_type t) (some id) (some kind) false p.emission)
      (λ u d. told_event p t k d)

pub post_commit_outcome-returned :
    (o : Outcome (Unit {0})) (u : Unit {0}) → post_commit_outcome o ≡ returned u → o ≡ returned tt
unfolding post_commit_outcome
post_commit_outcome-returned (returned v) u e = refl
post_commit_outcome-returned (raised (sandbox_error x)) u e = absurd (cc e)
post_commit_outcome-returned (raised native_cancellation) u e = absurd (cc e)
post_commit_outcome-returned (raised unexpected) u e = absurd (cc e)

pub emit_post_commit-Returns :
    (p : Option PostCommit) (id : ℕ) (kind : OperationKind)
    → Returns (emit_post_commit p id kind) (λ u. IsTold p)
unfolding emit_post_commit
emit_post_commit-Returns none id kind = record { facts = λ s u e. no_event }
emit_post_commit-Returns (some p) id kind =
    Returns-bind _ (attempt (emit_built p.built id kind p.emission)) _
      (Returns-attempt _ (emit_built p.built id kind p.emission)
        (emit_built-Returns p id kind p.built refl))
      (λ o told.
        Returns-weaken _ (outcome (post_commit_outcome o)) (Returns-outcome (post_commit_outcome o))
          (λ u e. told tt (post_commit_outcome-returned o u e)))

pub act-Returns :
    (e : ActionEnd) (meanwhile : Bool) → Returns (act e meanwhile) (λ r. e ≡ completed r)
unfolding act raise
act-Returns (completed r) m = Returns-then (awaited m) (pure r) (Returns-pure r refl)
act-Returns (action_raised x) m = Returns-then (awaited m) (outcome (raised x)) (Returns-raised x)
act-Returns (unsettled x) m =
    Returns-then (awaited m) _
      (Returns-then (change fail_closed) (outcome (raised x)) (Returns-raised x))
act-Returns (unproven e) m = Returns-then (awaited m) _ (
    Returns-then (change (set_lifecycle failed)) _ (
      Returns-then (emit_failed e) (raise session_snapshot_restore_failed)
        (record { facts = λ s r k. absurd (cc k) })))
act-Returns unproven_interrupted m = Returns-then (awaited m) _ (
    Returns-then (change (set_lifecycle failed)) (outcome (raised native_cancellation))
      (Returns-raised native_cancellation))

-- The policy was asked in time and allowed the operation, with no more time than was requested and
-- the same reserve; the action began within the time of the policy and came to the result; and the
-- event behind the commit was delivered, if there is one.
pub record IsWorked (limits : OperationLimits) (a : Answers) (r : ℕ) : Type 0 where
  pub asked_in_time :
      leb
        (a.started_monotonic + limits.timeout_seconds - limits.terminal_event_reserve_seconds)
        a.policy_time
      ≡ false
  pub decision : PolicyDecision
  pub decided : a.decision ≡ returned decision
  pub allowed : decision.allowed ≡ true
  pub narrowed : decision.effective_limits.timeout_seconds ≤ limits.timeout_seconds
  pub same_reserve :
      decision.effective_limits.terminal_event_reserve_seconds
      ≡ limits.terminal_event_reserve_seconds
  pub begun_in_time :
      leb
        (a.started_monotonic + decision.effective_limits.timeout_seconds
          - limits.terminal_event_reserve_seconds)
        a.action_time
      ≡ false
  pub action_completed : a.action ≡ completed r
  pub told : IsTold a.post_commit

pub validate_policy_decision-Returns :
    (d : PolicyDecision) (requested : OperationLimits)
    → Returns (validate_policy_decision d requested) (λ u.
      (d.effective_limits.timeout_seconds ≤ requested.timeout_seconds)
      × (d.effective_limits.terminal_event_reserve_seconds
          ≡ requested.terminal_event_reserve_seconds))
unfolding validate_policy_decision
validate_policy_decision-Returns d requested =
    Returns-bind (λ u. ltb requested.timeout_seconds d.effective_limits.timeout_seconds ≡ false) _ _
      (Returns-raise_when _ session_request_invalid)
      (λ u narrow.
        Returns-weaken _ _ (Returns-raise_when _ session_request_invalid)
          (λ v same. (ground (arith, narrow), ground (arith, same))))

pub work-Returns :
    (kind : OperationKind) (limits : OperationLimits) (a : Answers)
    → Returns (work kind limits a) (λ r. IsWorked limits a r)
unfolding work remaining
work-Returns kind limits a =
    Returns-bind _ _ _ (Returns-raise_when _ session_operation_timeout) (λ u asked.
      Returns-then (awaited a.policy_meanwhile) _ (
        Returns-bind _ (outcome a.decision) _ (Returns-outcome a.decision) (λ d decided.
          Returns-bind _ (validate_policy_decision d limits) _
            (validate_policy_decision-Returns d limits)
            (λ u valid. Returns-bind _ _ _ (Returns-raise_when _ session_policy_denied) (λ u allows.
              Returns-bind _ _ _ (Returns-raise_when _ session_operation_timeout) (λ u begins.
                Returns-bind _ (act a.action a.action_meanwhile) _
                  (act-Returns a.action a.action_meanwhile)
                  (λ r done.
                    Returns-bind _ (emit_post_commit a.post_commit a.operation_id kind) _
                      (emit_post_commit-Returns a.post_commit a.operation_id kind)
                      (λ u tells. Returns-pure r (record {
                        asked_in_time = asked;
                        decision = d;
                        decided = decided;
                        allowed = not_false d.allowed allows;
                        narrowed = valid.0;
                        same_reserve = valid.1;
                        begun_in_time = begins;
                        action_completed = done;
                        told = tells;
                      })))))))))
  where
    not_false : (b : Bool) → not b ≡ false → b ≡ true
    not_false true e = refl
    not_false false e = absurd (cc e)
