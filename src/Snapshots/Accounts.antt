-- ===== src/Snapshots/Accounts.antt =====
-- The store's count of bytes, and its limits.
use mem_sandbox.Base.{
  ltb, Bool-cases, Option-cases, length, length-append, ℕ, ◌+◌, ◌≤◌, ◌≡◌, refl, inl, inr, Bool,
  ◌||◌, some, List, [], ◌∷◌, ◌++◌, arith,
}
use mem_sandbox.Strings.{Text, text_eq}
use mem_sandbox.Named.{Named}
use mem_sandbox.Snapshots.{
  SnapshotDraft, Snapshot, StoreLimits, Store, new_store, lookup, pop, remove_locked, snapshot_of,
  insert_snapshot, sum_payloads, Call, run_calls,
}
use mem_sandbox.Snapshots.Calls.{calls-keep}

-- The count is that of the payloads, and the limits are kept.
pub record IsAccounted (limits : StoreLimits) (store : Store) : Type 0 where
  pub bytes : store.payload_bytes ≡ sum_payloads store.snapshots
  pub few : length store.snapshots ≤ limits.max_snapshots
  pub fits : store.payload_bytes ≤ limits.max_total_payload_bytes

sum_payloads-pop :
    (ref : Text) (l : Named Snapshot) (s : Snapshot)
    → lookup ref l ≡ some s
    → sum_payloads l ≡ length s.payload + sum_payloads (pop ref l)
unfolding lookup pop sum_payloads
sum_payloads-pop ref [] s h = absurd (cc h)
sum_payloads-pop ref ((k, x) ∷ l) s h = elim (Bool-cases (text_eq k ref)) [
  | inl e ↦ let same : x ≡ s = cc (rw e at h) in rw (e, same) refl
  | inr e ↦ rw e (ground (arith, sum_payloads-pop ref l s (rw e at h)))
]

length-pop : (ref : Text) (l : Named Snapshot) → length (pop ref l) ≤ length l
unfolding pop
length-pop ref [] = omega arith
length-pop ref ((k, x) ∷ l) = ground (arith, length-pop ref l)

sum_payloads-append :
    (l : Named Snapshot) (k : Text) (s : Snapshot)
    → sum_payloads (l ++ (k, s) ∷ []) ≡ sum_payloads l + length s.payload
unfolding sum_payloads
sum_payloads-append [] k s = omega arith
sum_payloads-append ((j, x) ∷ l) k s = ground (arith, sum_payloads-append l k s)

module _ (limits : StoreLimits) where
  remove_locked-IsAccounted :
      (ref : Text) (store : Store)
      → IsAccounted limits store
      → IsAccounted limits (remove_locked ref store)
  unfolding remove_locked
  remove_locked-IsAccounted ref store a = elim (Option-cases (lookup ref store.snapshots)) [
    | inl e ↦ rw (e, remove_locked) a
    | inr (s, e) ↦
        rw (e, remove_locked)
          (record {
            bytes = omega (arith, a.bytes, sum_payloads-pop ref store.snapshots s e);
            few = omega (arith, a.few, length-pop ref store.snapshots);
            fits = omega (arith, a.fits);
          })
  ]

  insert_snapshot-IsAccounted :
      (d : SnapshotDraft) (now : ℕ) (store : Store)
      → IsAccounted limits store
      → IsAccounted limits (insert_snapshot limits d now store).1
  unfolding insert_snapshot
  insert_snapshot-IsAccounted d now store a =
      elim (Option-cases (lookup d.snapshot_id store.snapshots)) [
        | inr (s, e) ↦ rw (e, insert_snapshot) a
        | inl e ↦ elim (Bool-cases full) [
          | inl k ↦ rw (e, insert_snapshot, k) a
          | inr k ↦ elim (Bool-cases (ltb limits.max_datetime (now + limits.default_ttl))) [
            | inl o ↦ rw (e, insert_snapshot, k, o) a
            | inr o ↦
                rw (e, insert_snapshot, k, o)
                  (record {
                    bytes = omega (
                      arith,
                      a.bytes,
                      sum_payloads-append store.snapshots d.snapshot_id
                          (snapshot_of d (now + limits.default_ttl)),
                    );
                    few = ground (
                      arith,
                      k,
                      length-append store.snapshots
                          ((d.snapshot_id, snapshot_of d (now + limits.default_ttl)) ∷ []),
                    );
                    fits = ground (arith, k);
                  })
          ]
        ]
      ]
    where
      full : Bool
      full =
          ltb limits.max_snapshots (length store.snapshots + 1)
          || ltb limits.max_total_payload_bytes (store.payload_bytes + length d.payload)

  -- After any calls of a new store's methods, whatever the clock answers and whichever of them raise,
  -- the count of bytes is the sum over the payloads that are held, and both limits are kept.
  pub run_calls-IsAccounted : (cs : List Call) → IsAccounted limits (run_calls limits cs new_store)
  unfolding sum_payloads
  run_calls-IsAccounted cs =
      calls-keep limits (IsAccounted limits) remove_locked-IsAccounted insert_snapshot-IsAccounted
        cs new_store (record { bytes = refl; few = omega arith; fits = omega arith })
