-- ===== src/Session/Protocol.antt =====
-- The order of a session's events, as a machine that reads them.
pub mod Steps
pub mod Orderly
pub mod Operate
pub mod Work
pub mod Closing
pub mod Runs
use mem_sandbox.Base.{
  ◌==◌, if◌then◌else◌, ==_iff, Option-cases, length, ℕ, ◌+◌, ◌≡◌, refl, inl, inr, Bool, true, false,
  ◌&&◌, Option, none, some, List, [], ◌∷◌, ◌++◌, arith,
}
use mem_sandbox.Session.{
  EventType, sandbox_started, sandbox_closing, sandbox_closed, sandbox_failed, operation_started,
  operation_completed, operation_failed, operation_cancelled, operation_timed_out, snapshot_created,
  snapshot_restored, SandboxEvent, Delivery, delivered,
}

-- Before the first event, between operations, in an operation, in one that has told of a snapshot or
-- of a failed session, and behind the closing and the closed event.
pub data Phase : Type 0 where
  fresh idle ending ended : Phase
  busy marked : ℕ → Phase

abbrev pub is_delivered : Delivery → Bool
is_delivered delivered = true
is_delivered d = false

abbrev pub is_terminal : EventType → Bool
is_terminal operation_completed = true
is_terminal operation_failed = true
is_terminal operation_cancelled = true
is_terminal operation_timed_out = true
is_terminal t = false

abbrev is_snapshot : EventType → Bool
is_snapshot snapshot_created = true
is_snapshot snapshot_restored = true
is_snapshot t = false

abbrev is_opening : EventType → Bool
is_opening sandbox_started = true
is_opening t = false

abbrev is_closing : EventType → Bool
is_closing sandbox_closing = true
is_closing t = false

abbrev is_closed_event : EventType → Bool
is_closed_event sandbox_closed = true
is_closed_event t = false

abbrev is_announcement : EventType → Bool
is_announcement operation_started = true
is_announcement t = false

abbrev is_failure : EventType → Bool
is_failure sandbox_failed = true
is_failure t = false

abbrev pub guarded : Bool → Phase → Option Phase
guarded b p = if b then some p else none

abbrev pub in_operation : ℕ → EventType → Option ℕ → Option Phase
in_operation id t none = guarded (is_failure t) (marked id)
in_operation id t (some j) =
    if is_terminal t && j == id then some idle else guarded (is_snapshot t && j == id) (marked id)

-- The phase behind an event, if the event may come.
unfoldable pub next_phase : Phase → EventType → Option ℕ → Delivery → Option Phase
next_phase fresh t none d = if is_opening t then some idle else guarded (is_closing t) ending
next_phase fresh t (some j) d = none
next_phase idle t none d = guarded (is_closing t) ending
next_phase idle t (some j) d = guarded (is_announcement t) (if is_delivered d then busy j else idle)
next_phase (busy id) t o d = in_operation id t o
next_phase (marked id) t none d = none
next_phase (marked id) t (some j) d = guarded (is_terminal t && j == id) idle
next_phase ending t none d = guarded (is_closed_event t) ended
next_phase ending t (some j) d = none
next_phase ended t o d = none

-- The phase behind a list of events, numbered from the first number.
unfoldable pub observe : Phase → ℕ → List (SandboxEvent × Delivery) → Option Phase
observe p n [] = some p
observe p n ((e, d) ∷ l) =
    elim (if e.sequence == n + 1 then next_phase p e.event_type e.operation_id d else none) [
      | none ↦ none
      | some q ↦ observe q (n + 1) l
    ]

pub observe-append :
    (p q r : Phase) (n : ℕ) (l : List (SandboxEvent × Delivery)) (e : SandboxEvent) (d : Delivery)
    → observe p n l ≡ some q
    → e.sequence ≡ n + length l + 1
    → next_phase q e.event_type e.operation_id d ≡ some r
    → observe p n (l ++ (e, d) ∷ []) ≡ some r
unfolding observe
observe-append p q r n [] e d h k m =
    let same : p ≡ q = cc h in
    let number : (e.sequence == n + 1) ≡ true = (==_iff e.sequence (n + 1)).1 (omega (arith, k)) in
    let go : next_phase p e.event_type e.operation_id d ≡ some r = rw (same) m in
    let one : observe p n ((e, d) ∷ []) ≡ some r = rw (observe, number, go) refl in one
observe-append p q r n ((x, y) ∷ l) e d h k m =
    elim (Option-cases
      (if x.sequence == n + 1 then next_phase p x.event_type x.operation_id y else none)) [
        | inl z ↦ absurd (cc (rw (z, observe) at h))
        | inr (s, z) ↦
            rw (z, observe)
              (observe-append s q r (n + 1) l e d (rw (z, observe) at h) (omega (arith, k)) m)
      ]
