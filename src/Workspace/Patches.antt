-- ===== src/Workspace/Patches.antt =====
-- `patch` of `MemoryWorkspace`.
pub mod Updates
pub mod Ended
pub mod Apart
pub mod Computed
pub mod Contents
pub mod Atomic
use mem_sandbox.Workspace.Op.{Op, pure, lift, current, commit, ◌>>=◌, ◌>>◌}
use mem_sandbox.Base.{ℕ, Option, none, some, List, map}
use mem_sandbox.Errors.{invalid_patch, Result, raise_if}
use mem_sandbox.Paths.{root}
use mem_sandbox.Models.{WorkspacePatchRequest, WorkspacePatchResult}
use mem_sandbox.Patching.{FilePatch}
use mem_sandbox.Patching.Files.{parse_unified_diff}
use mem_sandbox.Measure.{Env}
use mem_sandbox.Clone.{clone_directory}
use mem_sandbox.Workspace.Patches.Updates.{
  patched_file, has_unknown, place_updates, resolve_path, check_patch_size, file_updates,
}

module _ (env : Env) where
  -- `patch` behind the parser, whose outcome is an argument: it is read once the size is checked.
  unfoldable pub patch_parsed :
      WorkspacePatchRequest → Result (List FilePatch) → Op WorkspacePatchResult
  patch_parsed r parsed = do
    lift (check_patch_size env r.patch)
    files ← lift parsed
    lift (raise_if (has_unknown r.expected_hashes files) invalid_patch)
    s ← current
    updates ← lift (file_updates env s.root r.expected_hashes files)
    cloned ← lift (clone_directory s.root env.limits.max_nodes)
    updated ← lift (place_updates updates cloned)
    next ← commit env updated
    pure (record { files = map patched_file updates; stats = next.stats })

  module _ (digit_value : ℕ → Option ℕ) where
    -- `patch`; `none` says that the parser ran out of fuel.
    unfoldable pub patch : WorkspacePatchRequest → Option (Op WorkspacePatchResult)
    patch r = elim (parse_unified_diff digit_value (resolve_path env) r.patch) [
      | none ↦ none
      | some parsed ↦ some (patch_parsed r parsed)
    ]
