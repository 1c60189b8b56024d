-- ===== src/Snapshots.antt =====
-- `InMemorySnapshotStore` of src/mem_sandbox/snapshots/store.py, with the data of snapshots/models.py.
-- An identifier is the text of its UUID. A time is a number of microseconds; what the clock answers is
-- an argument of each call. Each method holds the lock from its first line to its last.
pub mod Calls
pub mod Keys
pub mod Accounts
pub mod Kept
use mem_sandbox.Base.{
  ltb, leb, if◌then◌else◌, length, ℕ, ◌+◌, ◌-◌, Bool, true, ◌||◌, Option, none, some, List, [], ◌∷◌,
  ◌++◌,
}
use mem_sandbox.Errors.{
  Error, snapshot_identifier_conflict, snapshot_not_found, snapshot_store_full,
  snapshot_save_failed, snapshot_load_failed, Result, err, ok,
}
use mem_sandbox.Strings.{Text, text_eq}
use mem_sandbox.Utf8.{Bytes}
use mem_sandbox.Models.{ContentHash}
use mem_sandbox.Named.{Named, sort_named, names}

pub record SnapshotMetadata : Type 0 where
  pub format_name : Text
  pub payload_bytes : ℕ
  pub process_local : Bool

-- `SandboxSnapshotDraft`
pub record SnapshotDraft : Type 0 where
  pub snapshot_id : Text
  pub schema_version : ℕ
  pub created_at : ℕ
  pub source_session_id : Text
  pub workspace_revision : ℕ
  pub content_hash : ContentHash
  pub payload : Bytes
  pub metadata : SnapshotMetadata
  pub created_by : Option Text

-- `SandboxSnapshot`
pub record Snapshot : Type 0 where
  pub snapshot_id : Text
  pub schema_version : ℕ
  pub created_at : ℕ
  pub expires_at : ℕ
  pub source_session_id : Text
  pub workspace_revision : ℕ
  pub content_hash : ContentHash
  pub payload : Bytes
  pub metadata : SnapshotMetadata
  pub created_by : Option Text

-- `SnapshotStoreLimits`, with the store's `default_ttl` and the last time that `datetime` can hold.
pub record StoreLimits : Type 0 where
  pub max_snapshots : ℕ
  pub max_total_payload_bytes : ℕ
  pub default_ttl : ℕ
  pub max_datetime : ℕ

pub record SnapshotStoreStats : Type 0 where
  pub snapshot_count : ℕ
  pub payload_bytes : ℕ

pub record SnapshotPurgeResult : Type 0 where
  pub removed_refs : List Text
  pub removed_payload_bytes : ℕ

-- The dict of snapshots by their references, and the count of payload bytes.
pub record Store : Type 0 where
  pub snapshots : Named Snapshot
  pub payload_bytes : ℕ

abbrev pub new_store : Store
new_store = record { snapshots = []; payload_bytes = 0 }

-- What the clock's `now` comes to: a time in UTC, another time, or an exception of the clock.
pub data Answer : Type 0 where
  utc : ℕ → Answer
  not_utc : Answer
  failing : Error → Answer

-- `_now`
unfoldable pub now_or : Error → Answer → Result ℕ
now_or error (utc n) = ok n
now_or error not_utc = err error
now_or error (failing e) = err e

-- `self._snapshots.get(snapshot_ref)`
unfoldable pub lookup : Text → Named Snapshot → Option Snapshot
lookup ref [] = none
lookup ref ((k, s) ∷ l) = if text_eq k ref then some s else lookup ref l

-- `self._snapshots.pop(snapshot_ref)`; a key stands once in a dict.
unfoldable pub pop : Text → Named Snapshot → Named Snapshot
pop ref [] = []
pop ref ((k, s) ∷ l) = let rest = pop ref l in if text_eq k ref then l else (k, s) ∷ rest

-- `_remove_locked`
unfoldable pub remove_locked : Text → Store → Store
remove_locked ref store = elim (lookup ref store.snapshots) [
  | none ↦ store
  | some s ↦ record {
    snapshots = pop ref store.snapshots;
    payload_bytes = store.payload_bytes - length s.payload;
  }
]

unfoldable pub expired : ℕ → Named Snapshot → Named Snapshot
expired now [] = []
expired now ((k, s) ∷ l) =
    let rest = expired now l in if leb s.expires_at now then (k, s) ∷ rest else rest

unfoldable pub remove_all : Named Snapshot → Store → Store
remove_all [] store = store
remove_all ((ref, s) ∷ l) store = remove_all l (remove_locked ref store)

-- `_purge_expired_locked`: the expired snapshots, and what is left.
abbrev pub purge_expired_locked : ℕ → Store → Named Snapshot × Store
purge_expired_locked now store =
    (expired now store.snapshots, remove_all (expired now store.snapshots) store)

-- The snapshot that `save` makes of a draft.
abbrev pub snapshot_of : SnapshotDraft → ℕ → Snapshot
snapshot_of d expires_at = record {
  snapshot_id = d.snapshot_id;
  schema_version = d.schema_version;
  created_at = d.created_at;
  expires_at = expires_at;
  source_session_id = d.source_session_id;
  workspace_revision = d.workspace_revision;
  content_hash = d.content_hash;
  payload = d.payload;
  metadata = record d.metadata { process_local = true };
  created_by = d.created_by;
}

-- `save` behind the purge.
unfoldable pub insert_snapshot : StoreLimits → SnapshotDraft → ℕ → Store → Result Text × Store
insert_snapshot limits d now store = elim (lookup d.snapshot_id store.snapshots) [
  | some s ↦ (err snapshot_identifier_conflict, store)
  | none ↦
      if ltb limits.max_snapshots (length store.snapshots + 1)
        || ltb limits.max_total_payload_bytes (store.payload_bytes + length d.payload)
      then (err snapshot_store_full, store)
      else if ltb limits.max_datetime (now + limits.default_ttl)
      then (err snapshot_save_failed, store)
      else (
        ok d.snapshot_id,
        record {
          snapshots =
              store.snapshots ++ (d.snapshot_id, snapshot_of d (now + limits.default_ttl)) ∷ [];
          payload_bytes = store.payload_bytes + length d.payload;
        },
      )
]

unfoldable pub save : StoreLimits → SnapshotDraft → Answer → Store → Result Text × Store
save limits d clock store = elim (now_or snapshot_save_failed clock) [
  | err e ↦ (err e, store)
  | ok now ↦ insert_snapshot limits d now (purge_expired_locked now store).1
]

unfoldable pub load : Text → Answer → Store → Result Snapshot × Store
load ref clock store = elim (now_or snapshot_load_failed clock) [
  | err e ↦ (err e, store)
  | ok now ↦ elim (lookup ref store.snapshots) [
    | none ↦ (err snapshot_not_found, store)
    | some s ↦
        if leb s.expires_at now
        then (err snapshot_not_found, remove_locked ref store)
        else (ok s, store)
  ]
]

-- `delete`
abbrev pub delete_snapshot : Text → Store → Store
delete_snapshot ref store = remove_locked ref store

-- `sum(len(snapshot.payload) ...)`
unfoldable pub sum_payloads : Named Snapshot → ℕ
sum_payloads [] = 0
sum_payloads ((k, s) ∷ l) = length s.payload + sum_payloads l

unfoldable pub purge_expired : Answer → Store → Result SnapshotPurgeResult × Store
purge_expired clock store = elim (now_or snapshot_load_failed clock) [
  | err e ↦ (err e, store)
  | ok now ↦
      let (removed, left) = purge_expired_locked now store in
      (
        ok (record {
          removed_refs = names (sort_named removed);
          removed_payload_bytes = sum_payloads removed;
        }),
        left,
      )
]

unfoldable pub stats : Answer → Store → Result SnapshotStoreStats × Store
stats clock store = elim (now_or snapshot_load_failed clock) [
  | err e ↦ (err e, store)
  | ok now ↦
      let left = (purge_expired_locked now store).1 in
      (
        ok (record { snapshot_count = length left.snapshots; payload_bytes = left.payload_bytes }),
        left,
      )
]

-- A call of a method.
pub data Call : Type 0 where
  save_call : SnapshotDraft → Answer → Call
  load_call : Text → Answer → Call
  delete_call : Text → Call
  purge_call stats_call : Answer → Call

unfoldable pub run_call : StoreLimits → Call → Store → Store
run_call limits (save_call d clock) store = (save limits d clock store).1
run_call limits (load_call ref clock) store = (load ref clock store).1
run_call limits (delete_call ref) store = delete_snapshot ref store
run_call limits (purge_call clock) store = (purge_expired clock store).1
run_call limits (stats_call clock) store = (stats clock store).1

unfoldable pub run_calls : StoreLimits → List Call → Store → Store
run_calls limits [] store = store
run_calls limits (c ∷ cs) store = run_calls limits cs (run_call limits c store)
