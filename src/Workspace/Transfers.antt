-- ===== src/Workspace/Transfers.antt =====
-- `copy` and `move` of `MemoryWorkspace`.
use mem_sandbox.Workspace.Op.{Op, pure, lift, current, commit, ◌>>=◌, ◌>>◌}
use mem_sandbox.Base.{if◌then◌else◌, true, not, ◌&&◌, ◌||◌, Option, some}
use mem_sandbox.Errors.{
  path_already_exists, root_modification, same_path, destination_within_source, Result, err, ok,
  raise_if,
}
use mem_sandbox.Strings.{text_eq}
use mem_sandbox.Paths.{SandboxPath, is_root, is_ancestor_of}
use mem_sandbox.Models.{ContentHash, TransferRequest, WorkspaceMutation}
use mem_sandbox.Tree.{Node, get_node, get_parent, ensure_parent, place, discard}
use mem_sandbox.Hashing.{node_hash, hash_of}
use mem_sandbox.Measure.{Env}
use mem_sandbox.Clone.{clone_node, clone_directory}
use mem_sandbox.State.{State, validate_path}
use mem_sandbox.Workspace.Writes.{find, is_some}

-- `_validate_transfer_paths`
unfoldable pub check_transfer : SandboxPath → SandboxPath → Result (Unit {0})
check_transfer source destination =
    if is_root source || is_root destination
    then err root_modification
    else if text_eq source.value destination.value
    then err same_path
    else if is_ancestor_of source destination || is_ancestor_of destination source
    then err destination_within_source
    else ok tt

module _ (env : Env) where
  -- The result of a transfer, read back from the published state.
  unfoldable pub transferred :
      TransferRequest → Option Node → Option ContentHash → State → Op WorkspaceMutation
  transferred r existing previous_hash next = do
    placed ← lift (get_node next.root r.destination)
    h ← lift (node_hash env.sha256 placed)
    pure (record {
      path = r.destination;
      created = not (is_some existing);
      changed = true;
      previous_hash = previous_hash;
      current_hash = some h;
      stats = next.stats;
    })

  unfoldable pub copy : TransferRequest → Op WorkspaceMutation
  copy r = do
    lift (validate_path env r.source)
    lift (validate_path env r.destination)
    lift (check_transfer r.source r.destination)
    s ← current
    source ← lift (get_node s.root r.source)
    existing ← lift (find s.root r.destination)
    lift (raise_if (is_some existing && not r.overwrite) path_already_exists)
    previous_hash ← lift (hash_of env.sha256 existing)
    cloned ← lift (clone_directory s.root env.limits.max_nodes)
    ensured ← lift (ensure_parent cloned r.destination r.create_parents env.limits)
    copied ← lift (clone_node source env.limits.max_nodes)
    next ← commit env (place r.destination copied ensured)
    transferred r existing previous_hash next

  -- The two writes of a move go through references to two directories of the clone. Neither path
  -- contains the other, so each write leaves the other's directory where it was.
  unfoldable pub move : TransferRequest → Op WorkspaceMutation
  move r = do
    lift (validate_path env r.source)
    lift (validate_path env r.destination)
    lift (check_transfer r.source r.destination)
    s ← current
    present ← lift (get_node s.root r.source)
    existing ← lift (find s.root r.destination)
    lift (raise_if (is_some existing && not r.overwrite) path_already_exists)
    previous_hash ← lift (hash_of env.sha256 existing)
    cloned ← lift (clone_directory s.root env.limits.max_nodes)
    source_node ← lift (get_node cloned r.source)
    ensured ← lift (ensure_parent cloned r.destination r.create_parents env.limits)
    source_parent ← lift (get_parent ensured r.source)
    next ← commit env (place r.destination source_node (discard r.source ensured))
    transferred r existing previous_hash next
