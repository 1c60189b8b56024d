-- ===== src/Service/Waits.antt =====
-- The ends of the waits of a call keep the ownership.
use mem_sandbox.Base.{
  ◌==◌, Option-cases, ℕ, ◌≡◌, refl, ◌⊎◌, inl, inr, Bool, true, false, Option, none, some, ◌∷◌,
  arith,
}
use mem_sandbox.Service.{ServiceError, Service, discard, put_record, require_open, publish}
use mem_sandbox.Service.Calls.{
  Raised, service_error, cancelled_error, CallEnd, loading, building, starting, cleaning, Call,
  World, drop_call, start_error, outer_error, closes_again, finish, goes_on, leaves, loaded, Built,
  built, not_built, log_built, log_closed, made, published, started, cleaned,
}
use mem_sandbox.Service.Totals.{bit, total, count}
use mem_sandbox.Service.Ownership.{
  pick, reserved, holds, runtimes, Owned, IsOwned, Owned-goes_on, Owned-finish, Owned-finish_none,
  Owned-discards, Owned-discards_twice,
}
use mem_sandbox.Service.Kept.{Owned-publish}
use mem_sandbox.Service.Steps.{reserve-IsOwned}

pub publish-cases :
    (i j r : ℕ) (s : Service)
    → ((e : ServiceError) × (publish i j r s ≡ (some e, s)))
      ⊎ (publish i j r s ≡ (
        none,
        record s {
          records =
              put_record
                (record { handle = i; session_id = j; runtime = r; deleting = false })
                s.records;
          reserved_handles = discard i s.reserved_handles;
          reserved_session_ids = discard j s.reserved_session_ids;
        },
      ))
unfolding publish
publish-cases i j r s = elim (Option-cases (require_open s)) [
  | inr (e, k) ↦ inl (e, rw (k, publish) refl)
  | inl k ↦ inr (rw (k, publish) refl)
]

module _ (c : Call) (w : World)
    (h : Owned w.service (c ∷ drop_call c.operation w.calls) w.log w.next_operation) where
  pub loaded-IsOwned :
      (x : Option Raised) (ids : Option (ℕ × ℕ)) → c.stage ≡ loading → IsOwned (loaded c x ids w)
  unfolding loaded leaves finish
  loaded-IsOwned (some x) ids e = Owned-finish_none h (λ b k. rw (e) refl) (λ k. rw (e) refl)
  loaded-IsOwned none ids e =
      reserve-IsOwned c.operation c.kind ids (leaves c w)
        (Owned-goes_on h loading w.log (λ b k. rw (e) refl) (λ k. rw (e) (omega arith)))

  pub made-IsOwned : (i j : ℕ) (x : Built) → c.stage ≡ building i j → IsOwned (made c i j x w)
  unfolding made goes_on leaves finish
  made-IsOwned i j (built r) e =
      Owned-goes_on h (starting i j r) (log_built r w.log) (λ b k. rw (e) refl)
        (λ k. unfold count in let z : runtimes k c ≡ 0 = rw (e) refl in omega (arith, z))
  made-IsOwned i j (not_built x) e =
      Owned-finish h i j w.log (Owned-discards h i j (λ b k. rw (e) refl))
        (λ k. let z : runtimes k c ≡ 0 = rw (e) refl in omega (arith, z))

  to_cleaning :
      (i j r : ℕ) (again : Bool) (x : Raised)
      → c.stage ≡ starting i j r
      → IsOwned (goes_on c (cleaning i j r again x) w)
  unfolding goes_on
  to_cleaning i j r again x e =
      Owned-goes_on h (cleaning i j r again x) w.log (λ b k. rw (e) refl)
        (λ k. let z : runtimes k c ≡ bit (k == r) = rw (e) refl in omega (arith, z))

  published-IsOwned :
      (i j r : ℕ)
      → c.stage ≡ starting i j r
      → IsOwned (published c i j r w (publish i j r w.service))
  unfolding published leaves finish
  published-IsOwned i j r e = elim (publish-cases i j r w.service) [
    | inl (x, k) ↦ rw (k, published) (to_cleaning i j r false (service_error x) e)
    | inr k ↦
        rw (k, published)
          (Owned-finish
            (Owned-publish w.service (drop_call c.operation w.calls) w.log w.next_operation i j r c
              e h)
            i j w.log gone (λ k. omega arith))
  ]
    where
      twice :
          (b : Bool) (k : ℕ)
          → count k (discard (pick b i j) (discard (pick b i j) (reserved b w.service)))
            ≡ total (holds b k) (drop_call c.operation w.calls)
      twice = Owned-discards_twice h i j (λ b k. rw (e) refl)

      gone :
          (b : Bool) (k : ℕ)
          → count k (
              discard (pick b i j) (
                reserved b (record w.service {
                  records =
                      put_record
                        (record { handle = i; session_id = j; runtime = r; deleting = false })
                        w.service.records;
                  reserved_handles = discard i w.service.reserved_handles;
                  reserved_session_ids = discard j w.service.reserved_session_ids;
                })))
            ≡ total (holds b k) (drop_call c.operation w.calls)
      gone true k = twice true k
      gone false k = twice false k

  pub started-IsOwned :
      (i j r : ℕ) (x clock : Option Raised)
      → c.stage ≡ starting i j r
      → IsOwned (started c i j r x clock w)
  unfolding started
  started-IsOwned i j r (some x) clock e =
      to_cleaning i j r (closes_again c.kind x) (start_error c.kind x) e
  started-IsOwned i j r none (some x) e = to_cleaning i j r false (outer_error c.kind x) e
  started-IsOwned i j r none none e = published-IsOwned i j r e

  cleaned_up :
      (i j r : ℕ) (again : Bool) (x : Raised) (end : CallEnd)
      → c.stage ≡ cleaning i j r again x
      → IsOwned
          (finish c.operation (some (i, j)) end (leaves c (record w { log = log_closed r w.log })))
  unfolding leaves finish total
  cleaned_up i j r again x end e =
      Owned-finish h i j (log_closed r w.log) (Owned-discards h i j (λ b k. rw (e) refl))
        (λ k. unfold count in let z : runtimes k c ≡ bit (k == r) = rw (e) refl in omega (arith, z))

  pub cleaned-IsOwned :
      (i j r : ℕ) (again : Bool) (x : Raised) (interrupted : Bool)
      → c.stage ≡ cleaning i j r again x
      → IsOwned (cleaned c i j r again x interrupted w)
  unfolding cleaned goes_on
  cleaned-IsOwned i j r true x true e =
      Owned-goes_on h (cleaning i j r false cancelled_error) w.log (λ b k. rw (e) refl)
        (λ k. let z : runtimes k c ≡ bit (k == r) = rw (e) refl in omega (arith, z))
  cleaned-IsOwned i j r true x false e = cleaned_up i j r true x _ e
  cleaned-IsOwned i j r false x true e = cleaned_up i j r false x _ e
  cleaned-IsOwned i j r false x false e = cleaned_up i j r false x _ e
