-- ===== src/Workspace/Patches/Ended.antt =====
-- What a patch ends in.
use mem_sandbox.Workspace.Op.{Ends, Ends-current, Ends-commit, Ends-lift, pure-eq}
use mem_sandbox.Base.{◌+◌, ◌≡◌, refl, false, List, map}
use mem_sandbox.Errors.{Result, ok, raise_if-eq-ok}
use mem_sandbox.Models.{WorkspacePatchRequest, WorkspacePatchResult}
use mem_sandbox.Tree.{Children}
use mem_sandbox.Patching.{FilePatch}
use mem_sandbox.Measure.{Env}
use mem_sandbox.Clone.Laws.{clone_directory-eq-ok}
use mem_sandbox.State.{State, state_for_root}
use mem_sandbox.Workspace.Patches.{patch_parsed}
use mem_sandbox.Workspace.Patches.Updates.{
  FileUpdate, patched_file, has_unknown, place_updates, file_updates,
}

-- The updates of all files were computed from the old tree, placed, and published together.
pub record Patched (env : Env) (r : WorkspacePatchRequest) (fs : List FilePatch) (s : State)
    (a : WorkspacePatchResult) (t : State) : Type 0 where
  pub known : has_unknown r.expected_hashes fs ≡ false
  pub updates : List FileUpdate
  pub computed : file_updates env s.root r.expected_hashes fs ≡ ok updates
  pub updated : Children
  pub placed : place_updates updates s.root ≡ ok updated
  pub published : state_for_root env updated (s.stats.revision + 1) ≡ ok t
  pub result : a ≡ record { files = map patched_file updates; stats = t.stats }

module _ (env : Env) (r : WorkspacePatchRequest) (s : State) where
  -- What it ends in, whatever the parser answered.
  abbrev pub PatchOutcome : Result (List FilePatch) → WorkspacePatchResult → State → Type 0
  PatchOutcome parsed a t = (fs : List FilePatch) × (parsed ≡ ok fs) × Patched env r fs s a t

  pub patch_parsed-Ends :
      (parsed : Result (List FilePatch)) → Ends (patch_parsed env r parsed) s (PatchOutcome parsed)
  unfolding patch_parsed
  patch_parsed-Ends parsed = Ends-lift _ _ λ _ _. Ends-lift _ _ λ fs read. Ends-lift _ _ λ _ known.
      Ends-current _ (
        Ends-lift _ _ λ updates computed. Ends-lift _ _ λ cloned c. Ends-lift _ _ λ updated placed.
          Ends-commit env _ _ λ t published. (
            _,
            pure-eq _ _,
            (
              fs,
              read,
              record {
                known = raise_if-eq-ok _ _ _ known;
                updates = updates;
                computed = computed;
                updated = updated;
                placed = rw (clone_directory-eq-ok s.root env.limits.max_nodes cloned c) at placed;
                published = published;
                result = refl;
              },
            ),
          ))
