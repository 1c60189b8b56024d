-- ===== src/Workspace/Patches/Atomic.antt =====
-- A patch is made as a whole or not at all.
use mem_sandbox.Workspace.Op.{Op, Ends-raise_unchanged, Ends-result}
use mem_sandbox.Base.{ℕ, ◌+◌, ◌≡◌, refl, ap, Option, some, List}
use mem_sandbox.Errors.{Error, err, ok}
use mem_sandbox.Models.{WorkspacePatchRequest, WorkspacePatchResult}
use mem_sandbox.Patching.{FilePatch}
use mem_sandbox.Patching.Files.{parse_unified_diff}
use mem_sandbox.Patching.Files.Ends.{parse_unified_diff-total}
use mem_sandbox.Measure.{Env}
use mem_sandbox.State.{State}
use mem_sandbox.Workspace.Published.{IsMeasured}
use mem_sandbox.Workspace.History.{published-IsMeasured}
use mem_sandbox.Workspace.Patches.{patch_parsed, patch}
use mem_sandbox.Workspace.Patches.Updates.{resolve_path}
use mem_sandbox.Workspace.Patches.Ended.{patch_parsed-Ends}
use mem_sandbox.Workspace.Patches.Contents.{PatchEffect, find-patch}

-- What a patch that returned has published.
pub record PatchPublished (env : Env) (digit_value : ℕ → Option ℕ) (r : WorkspacePatchRequest)
    (s : State) (a : WorkspacePatchResult) (t : State) : Type 0 where
  pub files : List FilePatch
  pub parsed : parse_unified_diff digit_value (resolve_path env) r.patch ≡ some (ok files)
  pub effect : PatchEffect env r.expected_hashes s.root t.root files
  pub measured : IsMeasured env t
  pub revision : t.stats.revision ≡ s.stats.revision + 1
  pub stats : a.stats ≡ t.stats

-- A patch ends. If it raises, on whatever file, the state is as it was. If it returns, every file
-- that it names holds its patched text and all else is as it was, under the one next revision;
-- its statistics are those of the new state, and these are measured on the new tree and keep the
-- limits.
pub patch-atomic :
    (env : Env) (r : WorkspacePatchRequest) (s : State) (digit_value : ℕ → Option ℕ)
    → (m : Op WorkspacePatchResult) × (patch env digit_value r ≡ some m)
      × ((e : Error) → (m s).0 ≡ err e → (m s).1 ≡ s)
      × ((a : WorkspacePatchResult) → (m s).0 ≡ ok a → PatchPublished env digit_value r s a (m s).1)
unfolding patch
patch-atomic env r s digit_value =
    let (parsed, e) = parse_unified_diff-total digit_value (resolve_path env) r.patch in
    let made : patch env digit_value r ≡ some (patch_parsed env r parsed) = rw (e, patch) refl in
    (
      patch_parsed env r parsed,
      made,
      λ x h. Ends-raise_unchanged x (patch_parsed-Ends env r s parsed) h,
      λ a h.
          let (_, _, p) = Ends-result a (patch_parsed-Ends env r s parsed) h in
          let (fs, known, effect) = find-patch env digit_value r s _ a made h in
          let (measured, next) = published-IsMeasured env p.updated _ _ p.published in
          record {
            files = fs;
            parsed = known;
            effect = effect;
            measured = measured;
            revision = next;
            stats = ap (λ (w : WorkspacePatchResult). w.stats) p.result;
          },
    )
