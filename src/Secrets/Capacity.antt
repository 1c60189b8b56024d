-- ===== src/Secrets/Capacity.antt =====
-- The capacity of the broker: never exceeded, and never leaked.
use mathlib.Core.Path.{subst}
use mem_sandbox.Base.{
  ltb, leb, Bool-cases, Option-cases, length, get_elem?, length-append, All, All-append, ℕ, ◌+◌,
  ◌≤◌, min, ◌≡◌, refl, sym, inl, inr, true, Option, none, some, List, [], ◌∷◌, arith,
}
use mem_sandbox.Errors.{Result, err, ok}
use mem_sandbox.Strings.{Text}
use mem_sandbox.Secrets.{
  BrokerLimits, purge_expired, admit, Resolution, checked_value, Lease, settle, close, World, Event,
  requests, settles, closes, remove_at, set, add_admitted, add_settled, step, run_events, new_world,
}
use mem_sandbox.Secrets.Records.{
  waits, holds, IsOwned, pop_token-length, purge_expired-length, All-purge_expired, All-pop_token,
  All-weaken, waits-remove_at, holds-set, set_same, close_again, admit-empty, ==_sym, nothing_owned,
}

-- The records keep the limit, and each belongs to somebody.
pub record IsAccounted (limits : BrokerLimits) (w : World) : Type 0 where
  pub few : length w.broker.records ≤ limits.max_active_leases
  pub owned : All (IsOwned w.waiting w.leases) w.broker.records

module _ (limits : BrokerLimits) where
  admit-IsAccounted :
      (requested : ℕ) (now : Option ℕ) (w : World)
      → IsAccounted limits w
      → IsAccounted limits (add_admitted w (admit limits requested now w.broker))
  unfolding admit
  admit-IsAccounted requested none w a = record { few = a.few; owned = a.owned }
  admit-IsAccounted requested (some now) w a =
      elim (Bool-cases (leb limits.max_active_leases (length kept))) [
        | inl full ↦ rw full (record { few = shorter; owned = purged })
        | inr room ↦ elim (Bool-cases (ltb limits.max_datetime expires)) [
          | inl over ↦ rw (room, over) (record { few = shorter; owned = purged })
          | inr fits ↦
              rw (room, fits)
                (record {
                  few =
                      ground
                        (arith, room, length-append kept ((w.broker.next_token, expires) ∷ []));
                  owned =
                      All-append (IsOwned ((w.broker.next_token, expires) ∷ w.waiting) w.leases)
                        kept ((w.broker.next_token, expires) ∷ [])
                        (All-weaken (IsOwned w.waiting w.leases)
                          (IsOwned ((w.broker.next_token, expires) ∷ w.waiting) w.leases) kept
                          (λ (t, e) p. unfold waits in ground arith) purged)
                        (unfold waits in ground arith, tt);
                })
        ]
      ]
    where
      kept : List (ℕ × ℕ)
      kept = purge_expired now w.broker.records

      expires : ℕ
      expires = now + min requested limits.max_lease_time

      shorter : length kept ≤ limits.max_active_leases
      shorter = omega (arith, a.few, purge_expired-length now w.broker.records)

      purged : All (IsOwned w.waiting w.leases) kept
      purged = All-purge_expired _ _ now w.broker.records (λ r p. p) a.owned

  settle-IsAccounted :
      (place t e : ℕ) (r : Resolution) (w : World)
      → get_elem? w.waiting place ≡ some (t, e)
      → IsAccounted limits w
      → IsAccounted limits (
          add_settled
            (record w { waiting = remove_at place w.waiting })
            (settle limits (t, e) r w.broker))
  unfolding settle
  settle-IsAccounted place t e r w at a = go (checked_value limits r) refl
    where
      go :
          (v : Result Text)
          → checked_value limits r ≡ v
          → IsAccounted limits (
              add_settled
                (record w { waiting = remove_at place w.waiting })
                (settle limits (t, e) r w.broker))
      go (err x) k =
          rw (k, settle)
            (record {
              few = omega (arith, a.few, pop_token-length t w.broker.records);
              owned =
                  All-pop_token (IsOwned w.waiting w.leases) _ t w.broker.records
                    (λ u f ne p. ground (arith, waits-remove_at u place t e w.waiting at)) a.owned;
            })
      go (ok v) k =
          rw (k, settle)
            (record {
              few = a.few;
              owned =
                  All-weaken (IsOwned w.waiting w.leases) _ w.broker.records
                    (λ (u, f) p.
                      unfold holds in ground (arith, waits-remove_at u place t e w.waiting at))
                    a.owned;
            })

  close-IsAccounted :
      (place : ℕ) (l : Lease) (w : World)
      → get_elem? w.leases place ≡ some l
      → IsAccounted limits w
      → IsAccounted limits (record w {
        broker = (close l w.broker).1;
        leases = set w.leases place (close l w.broker).0;
      })
  unfolding close
  close-IsAccounted place l w at a = elim (Bool-cases l.closed) [
    | inl k ↦
        subst (λ c. IsAccounted limits (record w { broker = c.1; leases = set w.leases place c.0 }))
          (sym (close_again l w.broker k))
          (record {
            few = a.few;
            owned =
                subst (λ ls. All (IsOwned w.waiting ls) w.broker.records)
                  (sym (set_same w.leases place l at)) a.owned;
          })
    | inr k ↦ rw k (record {
      few = omega (arith, a.few, pop_token-length l.token w.broker.records);
      owned =
          All-pop_token (IsOwned w.waiting w.leases)
            (IsOwned w.waiting (set w.leases place (record l { closed = true }))) l.token
            w.broker.records
            (λ u f ne p. ground (
              arith,
              p,
              holds-set u place l (record l { closed = true }) w.leases at,
              ne,
              ==_sym u l.token,
            ))
            a.owned;
    })
  ]

  step-IsAccounted :
      (e : Event) (w : World) → IsAccounted limits w → IsAccounted limits (step limits e w)
  unfolding step
  step-IsAccounted (requests requested now) w a = admit-IsAccounted requested now w a
  step-IsAccounted (settles place r) w a = elim (Option-cases (get_elem? w.waiting place)) [
    | inl e ↦ rw (e, step) a
    | inr ((t, x), e) ↦ rw (e, step) (settle-IsAccounted place t x r w e a)
  ]
  step-IsAccounted (closes place) w a = elim (Option-cases (get_elem? w.leases place)) [
    | inl e ↦ rw (e, step) a
    | inr (l, e) ↦ rw (e, step) (close-IsAccounted place l w e a)
  ]

  run_steps :
      (es : List Event) (w : World)
      → IsAccounted limits w
      → IsAccounted limits (run_events limits es w)
  unfolding run_events
  run_steps [] w a = a
  run_steps (e ∷ es) w a = run_steps es (step limits e w) (step-IsAccounted e w a)

  -- After any calls of `lease` and `close` and ends of waits, in any order, the accepted leases are at
  -- most the limit, and each belongs to a call that waits or to an open lease.
  pub run_events-IsAccounted :
      (es : List Event) → IsAccounted limits (run_events limits es new_world)
  run_events-IsAccounted es = run_steps es new_world (record { few = omega arith; owned = tt })

  -- Whatever happened before, once no call waits and every lease is closed, a request is admitted, if
  -- the limit is not 0, the clock answers and the expiration is a time that can be held: no capacity
  -- is lost, by errors, cancellations or expirations.
  pub admit-after_close :
      (es : List Event) (requested now : ℕ)
      → (run_events limits es new_world).waiting ≡ []
      → All (λ (l : Lease). l.closed ≡ true) (run_events limits es new_world).leases
      → 1 ≤ limits.max_active_leases
      → now + min requested limits.max_lease_time ≤ limits.max_datetime
      → (call : ℕ × ℕ) × ((admit limits requested
            (some now)
            (run_events limits es new_world).broker).0
          ≡ ok call)
  admit-after_close es requested now h closed positive fits =
      let w = run_events limits es new_world in
      (
        (w.broker.next_token, now + min requested limits.max_lease_time),
        admit-empty limits requested now w.broker
            (nothing_owned w.waiting w.leases w.broker.records h closed
              (run_events-IsAccounted es).owned)
            positive fits,
      )
