-- ===== src/Workspace/Writes.antt =====
-- `mkdir`, `write`, `append` and `remove` of `MemoryWorkspace`.
use mem_sandbox.Workspace.Op.{Op, pure, lift, current, commit, ◌>>=◌, ◌>>◌}
use mem_sandbox.Base.{
  ltb, if◌then◌else◌, length, Bool, true, false, not, ◌&&◌, Option, none, some, [], ◌++◌,
}
use mem_sandbox.Errors.{
  path_not_found, path_already_exists, not_a_file, directory_not_empty, root_modification,
  stale_content, file_size_limit_exceeded, Result, err, ok, raise_if,
}
use mem_sandbox.Strings.{text_eq}
use mem_sandbox.Utf8.{Bytes}
use mem_sandbox.Paths.{SandboxPath, is_root, parts, parent}
use mem_sandbox.Models.{
  ContentHash, WritePrecondition, any_current_state, path_must_not_exist, content_hash_must_equal,
  MakeDirectoryRequest, WorkspaceWriteRequest, RemovePathRequest, WorkspaceMutation,
}
use mem_sandbox.Tree.{
  Node, file, directory, Children, empty, child, try_get_node, get_node, get_parent, ensure_parent,
  place, discard,
}
use mem_sandbox.Hashing.{from_bytes, node_hash}
use mem_sandbox.Measure.{Env}
use mem_sandbox.Clone.{clone_directory}
use mem_sandbox.State.{State, validate_path}

-- The walk of `_try_get_node` from a root.
abbrev pub find : Children → SandboxPath → Result (Option Node)
find cs p = try_get_node (directory cs) (parts p)

abbrev pub is_some {ℓ} : {A : Type ℓ} → Option A → Bool
is_some none = false
is_some (some a) = true

-- `ContentHash` comparison
abbrev pub hash_eq : ContentHash → ContentHash → Bool
hash_eq a b = text_eq a.digest b.digest

abbrev pub is_empty : Children → Bool
is_empty empty = true
is_empty (child k n cs) = false

-- `existing.content if isinstance(existing, _FileNode) else b""`
abbrev pub previous_content : Option Node → Bytes
previous_content none = []
previous_content (some (file content)) = content
previous_content (some (directory cs)) = []

-- `isinstance(existing, _DirectoryNode) and existing.children and not request.recursive`
abbrev pub is_guarded : Node → Bool → Bool
is_guarded (file content) recursive = false
is_guarded (directory cs) recursive = not (is_empty cs) && not recursive

module _ (env : Env) where
  -- `_validate_write_precondition`
  unfoldable pub check_precondition : Option Node → WritePrecondition → Result (Option ContentHash)
  check_precondition (some (directory cs)) condition = err not_a_file
  check_precondition none path_must_not_exist = ok none
  check_precondition (some (file content)) path_must_not_exist = err path_already_exists
  check_precondition none (content_hash_must_equal expected) = err path_not_found
  check_precondition (some (file content)) (content_hash_must_equal expected) =
      if hash_eq (from_bytes env.sha256 content) expected
      then ok (some (from_bytes env.sha256 content))
      else err stale_content
  check_precondition none any_current_state = ok none
  check_precondition (some (file content)) any_current_state =
      ok (some (from_bytes env.sha256 content))

  -- `mkdir` where something is at the path.
  unfoldable pub mkdir_existing : MakeDirectoryRequest → State → Node → Op WorkspaceMutation
  mkdir_existing r s (file content) = lift (err path_already_exists)
  mkdir_existing r s (directory cs) =
      if r.exist_ok
      then (do
        h ← lift (node_hash env.sha256 (directory cs))
        pure (record {
          path = r.path;
          created = false;
          changed = false;
          previous_hash = some h;
          current_hash = some h;
          stats = s.stats;
        }))
      else lift (err path_already_exists)

  -- `mkdir` where nothing is.
  unfoldable pub mkdir_new : MakeDirectoryRequest → State → Op WorkspaceMutation
  mkdir_new r s = do
    cloned ← lift (clone_directory s.root env.limits.max_nodes)
    ensured ← lift (ensure_parent cloned r.path r.create_parents env.limits)
    next ← commit env (place r.path (directory empty) ensured)
    made ← lift (get_node next.root r.path)
    h ← lift (node_hash env.sha256 made)
    pure (record {
      path = r.path;
      created = true;
      changed = true;
      previous_hash = none;
      current_hash = some h;
      stats = next.stats;
    })

  unfoldable pub mkdir : MakeDirectoryRequest → Op WorkspaceMutation
  mkdir r = do
    lift (validate_path env r.path)
    s ← current
    existing ← lift (find s.root r.path)
    elim existing [ none ↦ mkdir_new r s | some node ↦ mkdir_existing r s node ]

  -- The end of `write` and of `append`: clone, place the file, publish.
  unfoldable pub put_file :
      WorkspaceWriteRequest
      → Bytes
      → Option Node
      → Option ContentHash
      → State
      → Op WorkspaceMutation
  put_file r content existing previous_hash s = do
    cloned ← lift (clone_directory s.root env.limits.max_nodes)
    ensured ← lift (ensure_parent cloned r.path r.create_parents env.limits)
    next ← commit env (place r.path (file content) ensured)
    pure (record {
      path = r.path;
      created = not (is_some existing);
      changed = true;
      previous_hash = previous_hash;
      current_hash = some (from_bytes env.sha256 content);
      stats = next.stats;
    })

  unfoldable pub write : WorkspaceWriteRequest → Op WorkspaceMutation
  write r = do
    lift (validate_path env r.path)
    lift (raise_if (is_root r.path) not_a_file)
    lift (raise_if (ltb env.limits.max_file_bytes (length r.content)) file_size_limit_exceeded)
    s ← current
    existing ← lift (find s.root r.path)
    previous_hash ← lift (check_precondition existing r.precondition)
    put_file r r.content existing previous_hash s

  unfoldable pub append : WorkspaceWriteRequest → Op WorkspaceMutation
  append r = do
    lift (validate_path env r.path)
    lift (raise_if (is_root r.path) not_a_file)
    s ← current
    existing ← lift (find s.root r.path)
    previous_hash ← lift (check_precondition existing r.precondition)
    let content = previous_content existing ++ r.content
    lift (raise_if (ltb env.limits.max_file_bytes (length content)) file_size_limit_exceeded)
    put_file r content existing previous_hash s

  -- `remove` where something is at the path.
  unfoldable pub remove_existing : RemovePathRequest → State → Node → Op WorkspaceMutation
  remove_existing r s existing = do
    lift (raise_if (is_guarded existing r.recursive) directory_not_empty)
    previous_hash ← lift (node_hash env.sha256 existing)
    cloned ← lift (clone_directory s.root env.limits.max_nodes)
    parent ← lift (get_parent cloned r.path)
    next ← commit env (discard r.path cloned)
    pure (record {
      path = r.path;
      created = false;
      changed = true;
      previous_hash = some previous_hash;
      current_hash = none;
      stats = next.stats;
    })

  -- `remove` where nothing is.
  unfoldable pub remove_missing : RemovePathRequest → State → Op WorkspaceMutation
  remove_missing r s =
      if r.missing_ok
      then pure (record {
        path = r.path;
        created = false;
        changed = false;
        previous_hash = none;
        current_hash = none;
        stats = s.stats;
      })
      else lift (err path_not_found)

  unfoldable pub remove : RemovePathRequest → Op WorkspaceMutation
  remove r = do
    lift (validate_path env r.path)
    lift (raise_if (is_root r.path) root_modification)
    s ← current
    existing ← lift (find s.root r.path)
    elim existing [ none ↦ remove_missing r s | some node ↦ remove_existing r s node ]
