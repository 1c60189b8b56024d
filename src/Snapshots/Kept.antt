-- ===== src/Snapshots/Kept.antt =====
-- A saved snapshot is there until it expires or is deleted.
use mem_sandbox.Base.{
  leb, Bool-cases, Option-cases, All, ℕ, ◌+◌, ◌<◌, ◌≡◌, refl, ◌∙◌, inl, inr, false, some, List, [],
  ◌∷◌, arith,
}
use mem_sandbox.Errors.{ok}
use mem_sandbox.Strings.{Text, text_eq}
use mem_sandbox.Named.{Named}
use mem_sandbox.Snapshots.{
  SnapshotDraft, Snapshot, StoreLimits, Store, new_store, Answer, utc, not_utc, failing, now_or,
  lookup, remove_locked, expired, remove_all, purge_expired_locked, snapshot_of, insert_snapshot,
  save, load, purge_expired, stats, Call, save_call, load_call, delete_call, purge_call, stats_call,
  run_call, run_calls,
}
use mem_sandbox.Snapshots.Calls.{save-keeps, calls-keep}
use mem_sandbox.Snapshots.Keys.{
  IsDistinct, OtherKeys, same_text, lookup-append_new, lookup-append_some, lookup-pop_ne,
  pop-IsDistinct, append-IsDistinct, expired-OtherKeys,
}

-- The keys of the store are distinct.
abbrev Keyed : Store → Type 0
Keyed store = IsDistinct store.snapshots

remove_locked-Keyed : (ref : Text) (store : Store) → Keyed store → Keyed (remove_locked ref store)
unfolding remove_locked
remove_locked-Keyed ref store d = elim (Option-cases (lookup ref store.snapshots)) [
  | inl e ↦ rw (e, remove_locked) d
  | inr (s, e) ↦ rw (e, remove_locked) (pop-IsDistinct ref store.snapshots d)
]

remove_locked-lookup :
    (ref k : Text) (store : Store)
    → text_eq k ref ≡ false
    → lookup ref (remove_locked k store).snapshots ≡ lookup ref store.snapshots
unfolding remove_locked
remove_locked-lookup ref k store ne = elim (Option-cases (lookup k store.snapshots)) [
  | inl e ↦ rw (e, remove_locked) refl
  | inr (s, e) ↦ rw (e, remove_locked) (lookup-pop_ne ref k store.snapshots ne)
]

remove_all-lookup :
    (ref : Text) (l : Named Snapshot) (store : Store)
    → OtherKeys ref l
    → lookup ref (remove_all l store).snapshots ≡ lookup ref store.snapshots
unfolding remove_all
remove_all-lookup ref [] store a = refl
remove_all-lookup ref ((k, s) ∷ l) store (ne, a) =
    remove_all-lookup ref l (remove_locked k store) a ∙ remove_locked-lookup ref k store ne

-- The clock answers with no time, or with an earlier one.
unfoldable pub IsBefore : ℕ → Answer → Type 0
IsBefore expires (utc now) = now < expires
IsBefore expires not_utc = Unit
IsBefore expires (failing e) = Unit

-- The call does not delete the snapshot, and comes before it expires.
unfoldable pub IsHarmless : Text → ℕ → Call → Type 0
unfolding IsBefore
IsHarmless ref expires (save_call d clock) = IsBefore expires clock
IsHarmless ref expires (load_call k clock) = IsBefore expires clock
IsHarmless ref expires (delete_call k) = text_eq k ref ≡ false
IsHarmless ref expires (purge_call clock) = IsBefore expires clock
IsHarmless ref expires (stats_call clock) = IsBefore expires clock

module _ (limits : StoreLimits) where
  insert_snapshot-Keyed :
      (d : SnapshotDraft) (now : ℕ) (store : Store)
      → Keyed store
      → Keyed (insert_snapshot limits d now store).1
  unfolding insert_snapshot
  insert_snapshot-Keyed d now store a = elim (Option-cases (lookup d.snapshot_id store.snapshots)) [
    | inr (s, e) ↦ rw (e, insert_snapshot) a
    | inl e ↦
        rw (e, insert_snapshot)
          (ground (
            arith,
            a,
            append-IsDistinct d.snapshot_id (snapshot_of d (now + limits.default_ttl))
                store.snapshots e a,
          ))
  ]

  -- The insertion of another snapshot, or of one that raises, leaves a snapshot where it is.
  insert_snapshot-lookup :
      (d : SnapshotDraft) (now : ℕ) (store : Store) (ref : Text) (s : Snapshot)
      → lookup ref store.snapshots ≡ some s
      → lookup ref (insert_snapshot limits d now store).1.snapshots ≡ some s
  unfolding insert_snapshot
  insert_snapshot-lookup d now store ref s h =
      elim (Option-cases (lookup d.snapshot_id store.snapshots)) [
        | inr (x, e) ↦ rw (e, insert_snapshot) h
        | inl e ↦
            rw (e, insert_snapshot)
              (ground (
                arith,
                h,
                lookup-append_some ref d.snapshot_id s (snapshot_of d (now + limits.default_ttl))
                    store.snapshots h,
              ))
      ]

  module _ (ref : Text) (s : Snapshot) where
    -- The snapshot is in the store.
    abbrev Holds : Store → Type 0
    Holds store = lookup ref store.snapshots ≡ some s

    purge-Holds :
        (now : ℕ) (store : Store)
        → now < s.expires_at
        → Keyed store
        → Holds store
        → Holds (purge_expired_locked now store).1
    purge-Holds now store before d h =
        remove_all-lookup ref (expired now store.snapshots) store
          (expired-OtherKeys ref now s store.snapshots d h (ground (arith, before)))
        ∙ h

    load-Holds :
        (k : Text) (now : ℕ) (store : Store)
        → now < s.expires_at
        → Holds store
        → Holds (load k (utc now) store).1
    unfolding load now_or
    load-Holds k now store before h = elim (Option-cases (lookup k store.snapshots)) [
      | inl e ↦ rw (e, load, now_or) h
      | inr (x, e) ↦ elim (Bool-cases (leb x.expires_at now)) [
        | inr fresh ↦ rw (e, load, now_or, fresh) h
        | inl old ↦ elim (Bool-cases (text_eq k ref)) [
          | inl same ↦
              let is : x ≡ s = cc (rw (same_text k ref same) at e, h) in
              absurd (ground (arith, rw is at old, before))
          | inr ne ↦ rw (e, load, now_or, old) (remove_locked-lookup ref k store ne ∙ h)
        ]
      ]
    ]

    call-Holds :
        (c : Call) (store : Store)
        → IsHarmless ref s.expires_at c
        → Keyed store
        → Holds store
        → Holds (run_call limits c store)
    unfolding run_call save purge_expired stats now_or IsHarmless IsBefore
    call-Holds (save_call d (utc now)) store b keyed h =
        insert_snapshot-lookup d now (purge_expired_locked now store).1 ref s
          (purge-Holds now store b keyed h)
    call-Holds (save_call d not_utc) store b keyed h = h
    call-Holds (save_call d (failing e)) store b keyed h = h
    call-Holds (load_call k (utc now)) store b keyed h = load-Holds k now store b h
    call-Holds (load_call k not_utc) store b keyed h = unfold load in h
    call-Holds (load_call k (failing e)) store b keyed h = unfold load in h
    call-Holds (delete_call k) store b keyed h = remove_locked-lookup ref k store b ∙ h
    call-Holds (purge_call (utc now)) store b keyed h = purge-Holds now store b keyed h
    call-Holds (purge_call not_utc) store b keyed h = h
    call-Holds (purge_call (failing e)) store b keyed h = h
    call-Holds (stats_call (utc now)) store b keyed h = purge-Holds now store b keyed h
    call-Holds (stats_call not_utc) store b keyed h = h
    call-Holds (stats_call (failing e)) store b keyed h = h

    calls-Holds :
        (cs : List Call) (store : Store)
        → All (IsHarmless ref s.expires_at) cs
        → Keyed store
        → Holds store
        → Holds (run_calls limits cs store)
    unfolding run_calls
    calls-Holds [] store bs keyed h = h
    calls-Holds (c ∷ cs) store (b, bs) keyed h =
        calls-Holds cs (run_call limits c store) bs
          (calls-keep limits Keyed remove_locked-Keyed insert_snapshot-Keyed (c ∷ []) store keyed)
          (call-Holds c store b keyed h)

  -- The store behind a save that returned has the new snapshot.
  insert_snapshot-ok :
      (d : SnapshotDraft) (now : ℕ) (store : Store) (ref : Text)
      → (insert_snapshot limits d now store).0 ≡ ok ref
      → lookup d.snapshot_id (insert_snapshot limits d now store).1.snapshots
        ≡ some (snapshot_of d (now + limits.default_ttl))
  unfolding insert_snapshot
  insert_snapshot-ok d now store ref h =
      elim (Option-cases (lookup d.snapshot_id store.snapshots)) [
        | inr (x, e) ↦ absurd (cc (rw (e, insert_snapshot) at h))
        | inl e ↦
            rw (e, insert_snapshot)
              (ground (
                arith,
                rw (e, insert_snapshot) at h,
                lookup-append_new d.snapshot_id (snapshot_of d (now + limits.default_ttl))
                    store.snapshots e,
              ))
      ]

  load-found :
      (ref : Text) (later : ℕ) (s : Snapshot) (store : Store)
      → lookup ref store.snapshots ≡ some s
      → later < s.expires_at
      → (load ref (utc later) store).0 ≡ ok s
  unfolding load now_or
  load-found ref later s store h early =
      let fresh : leb s.expires_at later ≡ false = ground (arith, early) in
      rw (h, load, now_or, fresh) refl

  -- A snapshot that was saved, after whatever calls of a new store, is what `load` returns until it
  -- expires, behind any calls that do not delete it: the draft's fields, expiring when the time to
  -- live is over.
  pub load-save :
      (before : List Call) (d : SnapshotDraft) (now : ℕ) (ref : Text) (after : List Call)
      (later : ℕ)
      → (save limits d (utc now) (run_calls limits before new_store)).0 ≡ ok ref
      → All (IsHarmless d.snapshot_id (now + limits.default_ttl)) after
      → later < now + limits.default_ttl
      → (load d.snapshot_id (utc later) (
          run_calls limits after (save limits d (utc now) (run_calls limits before new_store)).1)).0
        ≡ ok (snapshot_of d (now + limits.default_ttl))
  unfolding save now_or IsDistinct
  load-save before d now ref after later h harmless earlier =
      let s : Snapshot = snapshot_of d (now + limits.default_ttl) in
      let first : Store = run_calls limits before new_store in
      let keyed : Keyed first =
        calls-keep limits Keyed remove_locked-Keyed insert_snapshot-Keyed before new_store tt in
      let saved : Holds d.snapshot_id s (save limits d (utc now) first).1 =
        insert_snapshot-ok d now (purge_expired_locked now first).1 ref h in
      load-found d.snapshot_id later s _
        (calls-Holds d.snapshot_id s after (save limits d (utc now) first).1 harmless
          (save-keeps limits Keyed remove_locked-Keyed insert_snapshot-Keyed d (utc now) first
            keyed)
          saved)
        earlier
