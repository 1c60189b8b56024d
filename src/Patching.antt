-- ===== src/Patching.antt =====
-- `apply_file_patch` of src/mem_sandbox/workspace/patching.py: the hunks of a patch, in the lines of a file.
pub mod Parse
pub mod Files
pub mod Edits
use mem_sandbox.Base.{
  ltb, ◌==◌, if◌then◌else◌, length, take, drop, get_elem?, ℕ, zero, suc, ◌+◌, ◌-◌, Bool, false, not,
  ◌||◌, Option, none, some, List, [], ◌∷◌, ◌++◌,
}
use mem_sandbox.Errors.{
  invalid_patch, patch_context_mismatch, Result, err, ok, raise_if, ◌>>=◌, ◌>>◌,
}
use mem_sandbox.Strings.{Text, text_eq, join}
use mem_sandbox.Paths.{SandboxPath}
use mem_sandbox.Lines.{newline, split_normalized_lines}

pub record PatchLine : Type 0 where
  pub prefix : ℕ
  pub content : Text

pub record PatchHunk : Type 0 where
  pub old_start : ℕ
  pub old_count : ℕ
  pub new_start : ℕ
  pub new_count : ℕ
  pub lines : List PatchLine

pub record FilePatch : Type 0 where
  pub path : SandboxPath
  pub hunks : List PatchHunk

-- `start - 1`, with `none` for -1
abbrev pub line_before : ℕ → Option ℕ
line_before zero = none
line_before (suc n) = some n

-- `start if count == 0 else start - 1`
abbrev pub start_index : ℕ → ℕ → Option ℕ
start_index start count = if count == 0 then some start else line_before start

-- An index of -1 is below every index of the source, and no length of a result.
abbrev pub target_index : Option ℕ → Result ℕ
target_index none = err patch_context_mismatch
target_index (some n) = ok n

abbrev pub is_length : ℕ → Option ℕ → Bool
is_length n none = false
is_length n (some m) = n == m

-- The loop over the lines of a hunk: the index in the source, and the result so far.
unfoldable pub apply_lines : List Text → List PatchLine → ℕ → List Text → Result (ℕ × List Text)
apply_lines source [] index result = ok (index, result)
apply_lines source (l ∷ ls) index result =
    let added = apply_lines source ls index (result ++ l.content ∷ []) in
    let kept = apply_lines source ls (index + 1) (result ++ l.content ∷ []) in
    let removed = apply_lines source ls (index + 1) result in
    if l.prefix == b'+' then added else elim (get_elem? source index) [
      | none ↦ err patch_context_mismatch
      | some actual ↦
          if not (text_eq actual l.content)
          then err patch_context_mismatch
          else if l.prefix == b' '
          then kept
          else removed
    ]

-- The loop over the hunks.
unfoldable pub apply_hunks : List Text → List PatchHunk → ℕ → List Text → Result (ℕ × List Text)
apply_hunks source [] index result = ok (index, result)
apply_hunks source (h ∷ hs) index result = do
  target ← target_index (start_index h.old_start h.old_count)
  raise_if (ltb target index || ltb (length source) target) patch_context_mismatch
  let moved = result ++ take (target - index) (drop index source)
  raise_if (not (is_length (length moved) (start_index h.new_start h.new_count))) invalid_patch
  (next, extended) ← apply_lines source h.lines target moved
  apply_hunks source hs next extended

unfoldable pub apply_file_patch : Text → FilePatch → Result Text
apply_file_patch content patch = do
  let (source, had_trailing_newline) = split_normalized_lines content
  (index, result) ← apply_hunks source patch.hunks 0 []
  ok (
      join newline (result ++ drop index source)
      ++ (if had_trailing_newline then newline ∷ [] else []))
