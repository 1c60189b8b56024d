-- ===== src/Service/Shut.antt =====
-- A service that is not open gets no call and no record.
use mem_sandbox.Base.{All, ℕ, ◌+◌, ◌≡◌, refl, inl, inr, Bool, true, Option, none, some, List}
use mem_sandbox.Service.{
  ServiceState, ServiceError, sandbox_service_closed, SessionRecord, Service, require_open,
  begin_lifecycle, finish_lifecycle, reserve_identifiers,
}
use mem_sandbox.Service.Calls.{
  CallKind, create_call, Call, World, finish, reserved_ids, reserve, begin, created, create,
  resumed, resume,
}
use mem_sandbox.Service.Steps.{reserve_identifiers-cases, begun, begin-cases}

abbrev pub IsShut : World → Type 0
IsShut w = require_open w.service ≡ some sandbox_service_closed

abbrev pub AllCalls : (ℕ → Bool) → List Call → Type 0
AllCalls P cs = All (λ c. P c.operation ≡ true) cs

abbrev pub AllRecords : (ℕ → Bool) → List SessionRecord → Type 0
AllRecords P rs = All (λ r. P r.handle ≡ true) rs

-- The state and the close task stay, and no call and no record is new if the service is shut.
pub record Follows (w v : World) : Type 0 where
  pub state : v.service.state ≡ w.service.state
  pub task : v.close_task ≡ w.close_task
  pub calls : (P : ℕ → Bool) → IsShut w → AllCalls P w.calls → AllCalls P v.calls
  pub records :
      (P : ℕ → Bool) → IsShut w → AllRecords P w.service.records → AllRecords P v.service.records

pub Follows-refl : (w : World) → Follows w w
Follows-refl w = record { state = refl; task = refl; calls = λ P s h. h; records = λ P s h. h }

abbrev state_of : Option ServiceError × Service → ServiceState
state_of p = p.1.state

reserved_ids-Follows :
    (n : ℕ) (kind : CallKind) (i j : ℕ) (w : World)
    → Follows w (reserved_ids n kind i j w (reserve_identifiers i j w.service))
unfolding reserved_ids finish finish_lifecycle
reserved_ids-Follows n kind i j w = elim (reserve_identifiers-cases i j w.service) [
  | inl (e, k) ↦
      rw (k, reserved_ids)
        (record { state = refl; task = refl; calls = λ P s h. h; records = λ P s h. h })
  | inr (k, free, new) ↦
      rw (k, reserved_ids)
        (record {
          state = refl;
          task = refl;
          calls = λ P s h. absurd (no_ids s k);
          records = λ P s h. h;
        })
]
  where
    no_ids : {t : Service} → IsShut w → reserve_identifiers i j w.service ≡ (none, t) → ⊥
    no_ids s k =
        let z : reserve_identifiers i j w.service ≡ (some sandbox_service_closed, w.service) =
          unfold reserve_identifiers in rw (s, reserve_identifiers) refl in
        cc (z, k)

pub reserve-Follows :
    (n : ℕ) (kind : CallKind) (ids : Option (ℕ × ℕ)) (w : World) → Follows w (reserve n kind ids w)
unfolding reserve finish finish_lifecycle
reserve-Follows n kind none w = record {
  state = refl;
  task = refl;
  calls = λ P s h. h;
  records = λ P s h. h;
}
reserve-Follows n kind (some (i, j)) w = reserved_ids-Follows n kind i j w

begin-shut :
    (w : World)
    → IsShut w
    → begin w ≡ (some sandbox_service_closed, record w { next_operation = w.next_operation + 1 })
unfolding begin
begin-shut w s =
    let same : begin_lifecycle w.next_operation w.service
        ≡ (some sandbox_service_closed, w.service) =
      unfold begin_lifecycle in rw (s, begin_lifecycle) refl in
    rw (same, begin) refl

pub create-Follows : (ids : Option (ℕ × ℕ)) (w : World) → Follows w (create ids w)
unfolding create created
create-Follows ids w = elim (begin-cases w) [
  | inl (e, k) ↦
      rw (k, create, created)
        (record { state = refl; task = refl; calls = λ P s h. h; records = λ P s h. h })
  | inr k ↦
      let rest = reserve-Follows w.next_operation create_call ids (begun w) in
      rw (k, create, created)
        (record {
          state = rest.state;
          task = rest.task;
          calls = λ P s h. (let z = begin-shut w s in absurd (cc (z, k)));
          records = λ P s h. (let z = begin-shut w s in absurd (cc (z, k)));
        })
]

pub resume-Follows : (w : World) → Follows w (resume w)
unfolding resume resumed
resume-Follows w = elim (begin-cases w) [
  | inl (e, k) ↦
      rw (k, resume, resumed)
        (record { state = refl; task = refl; calls = λ P s h. h; records = λ P s h. h })
  | inr k ↦
      rw (k, resume, resumed)
        (record {
          state = refl;
          task = refl;
          calls = λ P s h. (let z = begin-shut w s in absurd (cc (z, k)));
          records = λ P s h. h;
        })
]
