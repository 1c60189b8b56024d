-- ===== src/Service/Steps.antt =====
-- Every event of the service keeps its ownership.
use mem_sandbox.Base.{
  Bool-cases, Option-cases, ℕ, ◌+◌, ◌<◌, ◌≡◌, refl, ◌⊎◌, inl, inr, Bool, true, false, ◌||◌, Option,
  none, some, List, ◌∷◌, arith,
}
use mem_sandbox.Service.{
  ServiceError, sandbox_identifier_conflict, Service, has, handles, session_ids, require_open,
  begin_lifecycle, reserve_identifiers,
}
use mem_sandbox.Service.Calls.{
  CallEnd, CallKind, create_call, resume_call, loading, Call, RuntimeLog, World, finish,
  reserved_ids, reserve, begin, created, create, resumed, resume,
}
use mem_sandbox.Service.Ownership.{pick, reserved, Owned, IsOwned, Owned-finish_none}
use mem_sandbox.Service.Kept.{All-map, keys, Owned-begin, Owned-reserve}

-- Either an error and nothing changed, or the identifiers were not in use and are reserved.
pub reserve_identifiers-cases :
    (i j : ℕ) (s : Service)
    → ((e : ServiceError) × (reserve_identifiers i j s ≡ (some e, s)))
      ⊎ ((reserve_identifiers i j s ≡ (
        none,
        record s {
          reserved_handles = i ∷ s.reserved_handles;
          reserved_session_ids = j ∷ s.reserved_session_ids;
        },
      ))
          × ((b : Bool) → has (pick b i j) (reserved b s) ≡ false)
          × ((b : Bool) → has (pick b i j) (keys b s.records) ≡ false))
unfolding reserve_identifiers
reserve_identifiers-cases i j s = elim (Option-cases (require_open s)) [
  | inr (e, k) ↦ inl (e, rw (k, reserve_identifiers) refl)
  | inl k ↦ elim (Bool-cases (has i s.reserved_handles || has i (handles s.records))) [
    | inl x ↦ inl (sandbox_identifier_conflict, rw (k, x, reserve_identifiers) refl)
    | inr x ↦ elim (Bool-cases (has j s.reserved_session_ids || has j (session_ids s.records))) [
      | inl y ↦ inl (sandbox_identifier_conflict, rw (k, x, y, reserve_identifiers) refl)
      | inr y ↦
          let p = or_false (has i s.reserved_handles) (has i (handles s.records)) x in
          let q = or_false (has j s.reserved_session_ids) (has j (session_ids s.records)) y in
          inr (rw (k, x, y, reserve_identifiers) refl, both_free p q, both_new p q)
    ]
  ]
]
  where
    or_false : (a b : Bool) → (a || b) ≡ false → (a ≡ false) × (b ≡ false)
    or_false true b e = absurd (cc e)
    or_false false b e = (refl, e)

    both_free :
        (has i s.reserved_handles ≡ false) × (has i (handles s.records) ≡ false)
        → (has j s.reserved_session_ids ≡ false) × (has j (session_ids s.records) ≡ false)
        → (b : Bool) → has (pick b i j) (reserved b s) ≡ false
    both_free p q true = p.0
    both_free p q false = q.0

    both_new :
        (has i s.reserved_handles ≡ false) × (has i (handles s.records) ≡ false)
        → (has j s.reserved_session_ids ≡ false) × (has j (session_ids s.records) ≡ false)
        → (b : Bool) → has (pick b i j) (keys b s.records) ≡ false
    both_new p q true = p.1
    both_new p q false = q.1

-- A call that is about to reserve, and is not among the calls.
abbrev pub Reserving : ℕ → CallKind → World → Type 0
Reserving n kind w =
    Owned w.service (record { operation = n; kind = kind; stage = loading } ∷ w.calls) w.log
      w.next_operation

finish-Reserving :
    (n : ℕ) (kind : CallKind) (end : CallEnd) (w : World)
    → Reserving n kind w
    → IsOwned (finish n none end w)
unfolding finish
finish-Reserving n kind end w h = Owned-finish_none h (λ b k. refl) (λ k. refl)

pub reserve-IsOwned :
    (n : ℕ) (kind : CallKind) (ids : Option (ℕ × ℕ)) (w : World)
    → Reserving n kind w
    → IsOwned (reserve n kind ids w)
unfolding reserve reserved_ids
reserve-IsOwned n kind none w h = finish-Reserving n kind _ w h
reserve-IsOwned n kind (some (i, j)) w h = elim (reserve_identifiers-cases i j w.service) [
  | inl (e, k) ↦ rw (k, reserve, reserved_ids) (finish-Reserving n kind _ w h)
  | inr (k, free, new) ↦
      rw (k, reserve, reserved_ids)
        (Owned-reserve w.service w.calls w.log w.next_operation n i j kind free new h)
]

Owned-later :
    (s : Service) (cs : List Call) (o : RuntimeLog) (m : ℕ) → Owned s cs o m → Owned s cs o (m + 1)
Owned-later s cs o m h = record {
  each_runtime = h.each_runtime;
  held = h.held;
  once = h.once;
  operations = h.operations;
  distinct = h.distinct;
  numbered = All-map cs (λ (c : Call) (l : c.operation < m). omega (arith, l)) h.numbered;
}

-- The world in which an operation has begun.
abbrev pub begun : World → World
begun w = record w {
  service = record w.service {
    pending_operations = w.next_operation ∷ w.service.pending_operations;
  };
  next_operation = w.next_operation + 1;
}

pub begin-cases :
    (w : World)
    → ((e : ServiceError) × (begin w
          ≡ (some e, record w { next_operation = w.next_operation + 1 })))
      ⊎ (begin w ≡ (none, begun w))
unfolding begin begin_lifecycle
begin-cases w = elim (Option-cases (require_open w.service)) [
  | inr (e, k) ↦
      let same : begin_lifecycle w.next_operation w.service ≡ (some e, w.service) =
        rw (k, begin_lifecycle) refl in
      inl (e, rw (same, begin) refl)
  | inl k ↦
      let same : begin_lifecycle w.next_operation w.service ≡ (none, (begun w).service) =
        rw (k, begin_lifecycle) refl in
      inr (rw (same, begin) refl)
]

pub create-IsOwned : (ids : Option (ℕ × ℕ)) (w : World) → IsOwned w → IsOwned (create ids w)
unfolding create created
create-IsOwned ids w h = elim (begin-cases w) [
  | inr k ↦
      rw (k, create, created)
        (reserve-IsOwned w.next_operation create_call ids (begun w)
          (Owned-begin w.service w.calls w.log w.next_operation create_call h))
  | inl (e, k) ↦ rw (k, create, created) (Owned-later w.service w.calls w.log w.next_operation h)
]

pub resume-IsOwned : (w : World) → IsOwned w → IsOwned (resume w)
unfolding resume resumed
resume-IsOwned w h = elim (begin-cases w) [
  | inr k ↦
      rw (k, resume, resumed) (Owned-begin w.service w.calls w.log w.next_operation resume_call h)
  | inl (e, k) ↦ rw (k, resume, resumed) (Owned-later w.service w.calls w.log w.next_operation h)
]
