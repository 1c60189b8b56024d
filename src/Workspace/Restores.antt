-- ===== src/Workspace/Restores.antt =====
-- The restore of prepared states of `MemoryWorkspace`, from the entries of a snapshot or an archive.
-- A token and a capability, which the source compares by identity, are numbers: the next capability
-- is a new one. States are values here, so none changes behind the workspace's back.
pub mod Entries
pub mod Once
use mem_sandbox.Base.{
  ◌==◌, if◌then◌else◌, ℕ, ◌+◌, Bool, not, ◌&&◌, Option, none, some, List, [], ◌∷◌,
}
use mem_sandbox.Errors.{
  snapshot_corrupt, prepared_restore_invalid, restore_candidate_mismatch, assertion_error, Result,
  err, ok, raise_if, ◌>>=◌, ◌>>◌,
}
use mem_sandbox.Strings.{text_eq}
use mem_sandbox.Utf8.{Bytes}
use mem_sandbox.Paths.{SandboxPath, root}
use mem_sandbox.Models.{NodeKind, file_kind, directory_kind, WorkspaceStats}
use mem_sandbox.Tree.{
  Node, file, directory, Children, empty, get_node, require_directory, get_parent, place,
}
use mem_sandbox.Measure.{Env}
use mem_sandbox.Clone.{clone_directory}
use mem_sandbox.State.{State, state_for_root}
use mem_sandbox.Patching.Parse.{is_caught}

-- `WorkspaceSnapshotEntry`
pub record SnapshotEntry : Type 0 where
  pub path : SandboxPath
  pub kind : NodeKind
  pub content : Option Bytes

-- The node of an entry; the source asserts that a file has content.
unfoldable pub entry_node : SnapshotEntry → Result Node
entry_node e = elim e.kind [
  | directory_kind ↦ ok (directory empty)
  | file_kind ↦ elim e.content [ none ↦ err assertion_error | some bytes ↦ ok (file bytes) ]
]

-- The loop of `_root_from_entries`, from a tree.
unfoldable pub add_entries : List SnapshotEntry → Children → Result Children
add_entries [] cs = ok cs
add_entries (e ∷ es) cs = do
  _ ← get_parent cs e.path
  node ← entry_node e
  add_entries es (place e.path node cs)

-- `_root_from_entries`
abbrev pub root_from_entries : List SnapshotEntry → Result Children
root_from_entries es = add_entries es empty

-- `WorkspaceStats` comparison
abbrev pub stats_eq : WorkspaceStats → WorkspaceStats → Bool
stats_eq a b =
    a.total_bytes == b.total_bytes
    && a.node_count == b.node_count
    && a.revision == b.revision
    && text_eq a.root_hash.digest b.root_hash.digest

-- `PreparedWorkspaceRestore`
pub record Candidate : Type 0 where
  pub owner : ℕ
  pub capability : ℕ

-- `self._state`, `self._restore_token` and `self._restore_candidates`, with the next capability.
pub record Restoring : Type 0 where
  pub live : State
  pub token : ℕ
  pub candidates : List (ℕ × State)
  pub next : ℕ

-- `self._restore_candidates.get(capability)`
unfoldable pub candidate_state : ℕ → List (ℕ × State) → Option State
candidate_state c [] = none
candidate_state c ((k, s) ∷ l) = if k == c then some s else candidate_state c l

-- `self._restore_candidates.pop(capability, None)`
unfoldable pub pop_candidate : ℕ → List (ℕ × State) → List (ℕ × State)
pop_candidate c [] = []
pop_candidate c ((k, s) ∷ l) =
    let rest = pop_candidate c l in if k == c then rest else (k, s) ∷ rest

module _ (env : Env) where
  -- The state that entries and statistics describe, with the directory that is required.
  unfoldable pub described_state : List SnapshotEntry → WorkspaceStats → SandboxPath → Result State
  described_state es stats required_directory = do
    cs ← root_from_entries es
    candidate ← state_for_root env cs stats.revision
    raise_if (not (stats_eq candidate.stats stats)) snapshot_corrupt
    node ← get_node candidate.root required_directory
    _ ← require_directory node
    ok candidate

  -- `_prepare_restore_candidate`
  unfoldable pub prepare_candidate :
      List SnapshotEntry → WorkspaceStats → SandboxPath → Restoring → Result Candidate × Restoring
  prepare_candidate es stats required_directory w =
      elim (described_state es stats required_directory) [
        | err e ↦ (err e, w)
        | ok s ↦ (
          ok (record { owner = w.token; capability = w.next }),
          record w { candidates = (w.next, s) ∷ w.candidates; next = w.next + 1 },
        )
      ]

  -- The copy of a prepared state.
  unfoldable pub detach : State → Result State
  detach s = do
    cs ← clone_directory s.root env.limits.max_nodes
    state_for_root env cs s.stats.revision

  -- What `commit_restore` tests behind the removal of the candidate.
  unfoldable pub detached_state : State → Result State
  detached_state s = elim (detach s) [
    | err e ↦ if is_caught e then err prepared_restore_invalid else err e
    | ok t ↦ if stats_eq t.stats s.stats then ok t else err prepared_restore_invalid
  ]

  -- `commit_restore` up to its last wait: the state that it will publish. The candidate is spent.
  unfoldable pub take_candidate : Candidate → Restoring → Result State × Restoring
  take_candidate c w =
      if not (c.owner == w.token)
      then (err restore_candidate_mismatch, w)
      else elim (candidate_state c.capability w.candidates) [
        | none ↦ (err prepared_restore_invalid, w)
        | some s ↦
            (detached_state s, record w { candidates = pop_candidate c.capability w.candidates })
      ]

  -- What happens to the workspace in between: another candidate is prepared or taken, or a state is
  -- published, by a commit or by any other method.
  pub data RestoreStep : Type 0 where
    prepares : List SnapshotEntry → WorkspaceStats → SandboxPath → RestoreStep
    takes : Candidate → RestoreStep
    publishes : State → RestoreStep

  unfoldable pub restore_step : RestoreStep → Restoring → Restoring
  restore_step (prepares es stats required) w = (prepare_candidate es stats required w).1
  restore_step (takes c) w = (take_candidate c w).1
  restore_step (publishes s) w = record w { live = s }

  unfoldable pub restore_steps : List RestoreStep → Restoring → Restoring
  restore_steps [] w = w
  restore_steps (e ∷ es) w = restore_steps es (restore_step e w)

  -- The end of `commit_restore`, behind the steps of others that come in its last wait.
  unfoldable pub publish_taken :
      List RestoreStep → Result State × Restoring → Result (Unit {0}) × Restoring
  publish_taken meanwhile (err e, w) = (err e, w)
  publish_taken meanwhile (ok t, w) = (ok tt, record (restore_steps meanwhile w) { live = t })

  -- `commit_restore`, whole
  unfoldable pub commit_restore :
      Candidate → List RestoreStep → Restoring → Result (Unit {0}) × Restoring
  commit_restore c meanwhile w = publish_taken meanwhile (take_candidate c w)
