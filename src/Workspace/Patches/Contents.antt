-- ===== src/Workspace/Patches/Contents.antt =====
-- What the workspace holds after a patch.
use mathlib.Core.Path.{subst}
use mem_sandbox.Workspace.Op.{Op, Ends-result}
use mem_sandbox.Base.{All, ℕ, ◌≡◌, refl, ap, ◌∙◌, Option, none, some, List, [], ◌∷◌}
use mem_sandbox.Errors.{Result, ok}
use mem_sandbox.Paths.{SandboxPath, root, parts}
use mem_sandbox.Paths.Resolve.{resolve-IsConfined}
use mem_sandbox.Models.{ExpectedFileHash, WorkspacePatchRequest, WorkspacePatchResult}
use mem_sandbox.Tree.{Children}
use mem_sandbox.Paths.Ancestors.{Diverges}
use mem_sandbox.Patching.{FilePatch}
use mem_sandbox.Patching.Files.{parse_unified_diff}
use mem_sandbox.Patching.Files.Ends.{IsWhole, parse_unified_diff-IsWhole}
use mem_sandbox.Measure.{Env}
use mem_sandbox.State.{State}
use mem_sandbox.Workspace.Writes.{find}
use mem_sandbox.Workspace.Published.{root-state_for_root}
use mem_sandbox.Workspace.Patches.Updates.{resolve_path}
use mem_sandbox.Workspace.Patches.Ended.{Patched, patch_parsed-Ends}
use mem_sandbox.Workspace.Patches.Apart.{IsMade, place_updates-outside, find-place_updates}
use mem_sandbox.Workspace.Patches.{patch_parsed, patch}
use mem_sandbox.Workspace.Patches.Computed.{
  IsPatched, file_updates-AreUpdates, updates-All, updates-not_root, updates-PairwiseApart,
  updates-IsPatched,
}

whole-IsMade :
    (env : Env) (fs : List FilePatch)
    → All (IsWhole (resolve_path env)) fs
    → All (λ (f : FilePatch). IsMade f.path) fs
whole-IsMade env [] a = tt
whole-IsMade env (f ∷ fs) (w, a) =
    let confined = resolve-IsConfined w.raw (some root) _ _ f.path w.resolved in
    ((confined.segments, confined.proper, confined.canonical), whole-IsMade env fs a)

-- What the workspace holds before and after a patch of these files.
pub record PatchEffect (env : Env) (es : List ExpectedFileHash) (before after : Children)
    (fs : List FilePatch) : Type 0 where
  pub patched : All (IsPatched env es before after) fs
  pub elsewhere :
      (q : SandboxPath)
      → All (λ (f : FilePatch). Diverges (parts f.path) (parts q)) fs
      → find after q ≡ find before q

module _ (env : Env) (digit_value : ℕ → Option ℕ) (r : WorkspacePatchRequest) (s : State) where
  Patched-PatchEffect :
      (fs : List FilePatch) (a : WorkspacePatchResult) (t : State)
      → parse_unified_diff digit_value (resolve_path env) r.patch ≡ some (ok fs)
      → Patched env r fs s a t
      → PatchEffect env r.expected_hashes s.root t.root fs
  Patched-PatchEffect fs a t parsed p =
      let (whole, distinct) =
        parse_unified_diff-IsWhole digit_value (resolve_path env) r.patch fs parsed in
      let made = whole-IsMade env fs whole in
      let us = file_updates-AreUpdates env r.expected_hashes s.root fs p.updates p.computed in
      let roots = updates-not_root env r.expected_hashes s.root fs p.updates us in
      rw (root-state_for_root env _ _ t p.published) (record {
        patched = updates-IsPatched env r.expected_hashes s.root p.updated fs p.updates us (
            find-place_updates p.updates s.root p.updated roots
              (updates-All env r.expected_hashes s.root IsMade fs p.updates us made)
              (updates-PairwiseApart env r.expected_hashes s.root fs p.updates us made distinct)
              p.placed);
        elsewhere = λ q apart.
            place_updates-outside q p.updates s.root p.updated roots
              (updates-All env r.expected_hashes s.root (λ p'. Diverges (parts p') (parts q)) fs
                p.updates us apart)
              p.placed;
      })

  -- After a patch that returned, every file that it names holds the text that its hunks make of the
  -- text that it held, with the expected hash where one was given, and every path that neither
  -- contains nor lies below one of them holds what it held.
  pub find-patch :
      (m : Op WorkspacePatchResult) (a : WorkspacePatchResult)
      → patch env digit_value r ≡ some m
      → (m s).0 ≡ ok a
      → (fs : List FilePatch) × (parse_unified_diff digit_value (resolve_path env) r.patch
          ≡ some (ok fs))
        × PatchEffect env r.expected_hashes s.root (m s).1.root fs
  unfolding patch
  find-patch m a h outcome = go (parse_unified_diff digit_value (resolve_path env) r.patch) refl
    where
      go :
          (parsed : Option (Result (List FilePatch)))
          → parse_unified_diff digit_value (resolve_path env) r.patch ≡ parsed
          → (fs : List FilePatch) × (parse_unified_diff digit_value (resolve_path env) r.patch
              ≡ some (ok fs))
            × PatchEffect env r.expected_hashes s.root (m s).1.root fs
      go none e = absurd (cc (rw (e, patch) at h))
      go (some parsed) e =
          let same : patch_parsed env r parsed ≡ m = cc (rw (e, patch) at h) in
          let (fs, read, p) =
            Ends-result a (patch_parsed-Ends env r s parsed) (rw (← same) at outcome) in
          let known = e ∙ ap some read in
          (
            fs,
            known,
            subst (λ n. PatchEffect env r.expected_hashes s.root (n s).1.root fs) same
                (Patched-PatchEffect fs a _ known p),
          )
