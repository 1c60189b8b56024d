-- ===== src/Tests/Snapshots.antt =====
-- The theorems on the store of snapshots at concrete calls.
use mem_sandbox.Base.{All, ℕ, ◌≡◌, refl, false, none, List, [], ◌∷◌, arith}
use mem_sandbox.Errors.{ok}
use mem_sandbox.Strings.{Text, codes, text_eq}
use mem_sandbox.Snapshots.{
  SnapshotDraft, StoreLimits, new_store, utc, not_utc, now_or, lookup, pop, remove_locked, expired,
  remove_all, snapshot_of, insert_snapshot, save, load, Call, save_call, load_call, delete_call,
  purge_call, stats_call, run_call, run_calls,
}
use mem_sandbox.Snapshots.Accounts.{IsAccounted, run_calls-IsAccounted}
use mem_sandbox.Snapshots.Kept.{IsBefore, IsHarmless, load-save}

abbrev small_store : StoreLimits
small_store = record {
  max_snapshots = 2;
  max_total_payload_bytes = 10;
  default_ttl = 50;
  max_datetime = 1000;
}

abbrev draft : Text → ℕ → SnapshotDraft
draft id created = record {
  snapshot_id = id;
  schema_version = 1;
  created_at = created;
  source_session_id = codes "session";
  workspace_revision = 3;
  content_hash = record { digest = 1 ∷ 2 ∷ [] };
  payload = 7 ∷ 8 ∷ 9 ∷ [];
  metadata = record { format_name = codes "json"; payload_bytes = 3; process_local = false };
  created_by = none;
}

-- One snapshot is saved twice, expires, and another is deleted.
abbrev earlier_calls : List Call
earlier_calls =
    save_call (draft (codes "a") 10) (utc 10)
    ∷ save_call (draft (codes "a") 11) (utc 11)
    ∷ save_call (draft (codes "b") 12) (utc 12)
    ∷ delete_call (codes "b")
    ∷ load_call (codes "a") (utc 60)
    ∷ []

abbrev later_calls : List Call
later_calls =
    save_call (draft (codes "d") 101) (utc 101)
    ∷ delete_call (codes "d")
    ∷ stats_call not_utc
    ∷ purge_call (utc 120)
    ∷ []

run_calls-IsAccounted_example :
    IsAccounted small_store (run_calls small_store earlier_calls new_store)
run_calls-IsAccounted_example = run_calls-IsAccounted small_store earlier_calls

saved :
    (save small_store
      (draft (codes "c") 100)
      (utc 100)
      (run_calls small_store earlier_calls new_store)).0
    ≡ ok (codes "c")
unfolding run_calls run_call save load now_or insert_snapshot remove_locked remove_all expired
    lookup pop text_eq
saved = refl

harmless : All (IsHarmless (codes "c") 150) later_calls
unfolding IsHarmless IsBefore text_eq
harmless = (omega arith, (refl, (tt, (omega arith, tt))))

load-save_example :
    (load (codes "c") (utc 149) (
      run_calls small_store later_calls
        (save small_store
          (draft (codes "c") 100)
          (utc 100)
          (run_calls small_store earlier_calls new_store)).1)).0
    ≡ ok (snapshot_of (draft (codes "c") 100) 150)
load-save_example =
    load-save small_store earlier_calls (draft (codes "c") 100) 100 (codes "c") later_calls 149
      saved harmless (omega arith)
