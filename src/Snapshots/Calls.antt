-- ===== src/Snapshots/Calls.antt =====
-- What every call keeps, if the removal and the insertion of one snapshot keep it.
use mem_sandbox.Base.{leb, Bool-cases, Option-cases, ℕ, inl, inr, List, [], ◌∷◌}
use mem_sandbox.Strings.{Text}
use mem_sandbox.Named.{Named}
use mem_sandbox.Snapshots.{
  SnapshotDraft, Snapshot, StoreLimits, Store, Answer, utc, not_utc, failing, now_or, lookup,
  remove_locked, expired, remove_all, purge_expired_locked, insert_snapshot, save, load,
  purge_expired, stats, Call, save_call, load_call, delete_call, purge_call, stats_call, run_call,
  run_calls,
}

module _ (limits : StoreLimits) (P : Store → Type 0)
    (removes : (ref : Text) (store : Store) → P store → P (remove_locked ref store))
    (inserts : (d : SnapshotDraft) (now : ℕ) (store : Store)
      → P store
      → P (insert_snapshot limits d now store).1) where
  remove_all-keeps : (l : Named Snapshot) (store : Store) → P store → P (remove_all l store)
  unfolding remove_all
  remove_all-keeps [] store p = p
  remove_all-keeps ((ref, s) ∷ l) store p =
      remove_all-keeps l (remove_locked ref store) (removes ref store p)

  purge-keeps : (now : ℕ) (store : Store) → P store → P (purge_expired_locked now store).1
  purge-keeps now store p = remove_all-keeps (expired now store.snapshots) store p

  pub save-keeps :
      (d : SnapshotDraft) (clock : Answer) (store : Store)
      → P store
      → P (save limits d clock store).1
  unfolding save now_or
  save-keeps d (utc now) store p =
      inserts d now (purge_expired_locked now store).1 (purge-keeps now store p)
  save-keeps d not_utc store p = p
  save-keeps d (failing e) store p = p

  load-keeps : (ref : Text) (clock : Answer) (store : Store) → P store → P (load ref clock store).1
  unfolding load now_or
  load-keeps ref (utc now) store p = elim (Option-cases (lookup ref store.snapshots)) [
    | inl e ↦ rw (e, load, now_or) p
    | inr (s, e) ↦ elim (Bool-cases (leb s.expires_at now)) [
      | inl k ↦ rw (e, load, now_or, k) (removes ref store p)
      | inr k ↦ rw (e, load, now_or, k) p
    ]
  ]
  load-keeps ref not_utc store p = p
  load-keeps ref (failing e) store p = p

  call-keeps : (c : Call) (store : Store) → P store → P (run_call limits c store)
  unfolding run_call purge_expired stats now_or
  call-keeps (save_call d clock) store p = save-keeps d clock store p
  call-keeps (load_call ref clock) store p = load-keeps ref clock store p
  call-keeps (delete_call ref) store p = removes ref store p
  call-keeps (purge_call (utc now)) store p = purge-keeps now store p
  call-keeps (purge_call not_utc) store p = p
  call-keeps (purge_call (failing e)) store p = p
  call-keeps (stats_call (utc now)) store p = purge-keeps now store p
  call-keeps (stats_call not_utc) store p = p
  call-keeps (stats_call (failing e)) store p = p

  pub calls-keep : (cs : List Call) (store : Store) → P store → P (run_calls limits cs store)
  unfolding run_calls
  calls-keep [] store p = p
  calls-keep (c ∷ cs) store p = calls-keep cs (run_call limits c store) (call-keeps c store p)
