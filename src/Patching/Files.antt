-- ===== src/Patching/Files.antt =====
-- The loops of `parse_unified_diff` of src/mem_sandbox/workspace/patching.py, over hunks and files.
-- They take fuel, and `none` says that it ran out. The resolving of paths is a parameter, as in the
-- source.
pub mod Ends
use mem_sandbox.Runs.{Run, pure, fail, ◌>>=◌, ◌>>◌}
use mem_sandbox.Base.{◌==◌, length, ℕ, zero, suc, true, false, Option, none, some, List, [], ◌∷◌}
use mem_sandbox.Errors.{invalid_patch, Result, raise_if}
use mem_sandbox.Strings.{Text, codes, starts_with, split}
use mem_sandbox.Paths.{SandboxPath}
use mem_sandbox.Lines.{newline, normalize_line_endings}
use mem_sandbox.Patching.{PatchHunk, FilePatch}
use mem_sandbox.Patching.Parse.{without_empty_last, check_behind, parse_file_header, parse_hunk}

module _ (digit_value : ℕ → Option ℕ) (resolve_path : Text → Result SandboxPath) where
  -- The loop over the hunks of a file.
  unfoldable pub parse_hunks : ℕ → List Text → Run (List PatchHunk × List Text)
  parse_hunks fuel [] = pure ([], [])
  parse_hunks zero (l ∷ ls) = none
  parse_hunks (suc fuel) (l ∷ ls) = elim (starts_with (codes "@@") l) [
    | false ↦ pure ([], l ∷ ls)
    | true ↦ do
      (hunk, rest) ← some (parse_hunk digit_value l ls)
      (hunks, left) ← parse_hunks fuel rest
      pure (hunk ∷ hunks, left)
  ]

  -- The loop over the files, from the lines and the paths seen.
  unfoldable pub parse_files : ℕ → List Text → List SandboxPath → Run (List FilePatch)
  parse_files fuel [] seen = pure []
  parse_files zero (l ∷ ls) seen = none
  parse_files (suc fuel) (l ∷ ls) seen = do
    (path, rest) ← some (parse_file_header resolve_path l ls seen)
    (hunks, left) ← parse_hunks (length rest) rest
    some (raise_if (length hunks == 0) invalid_patch)
    some (check_behind left)
    files ← parse_files fuel left (path ∷ seen)
    pure (record { path = path; hunks = hunks } ∷ files)

  unfoldable pub parse_unified_diff : Text → Run (List FilePatch)
  parse_unified_diff patch =
      let lines = without_empty_last (split newline (normalize_line_endings patch)) in
      elim lines [ [] ↦ fail invalid_patch | l ∷ ls ↦ parse_files (length (l ∷ ls)) (l ∷ ls) [] ]
