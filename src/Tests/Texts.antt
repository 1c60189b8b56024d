-- ===== src/Tests/Texts.antt =====
-- The theorem on patches at concrete texts.
use mem_sandbox.Base.{◌≡◌, refl, List, [], ◌∷◌}
use mem_sandbox.Errors.{ok}
use mem_sandbox.Strings.{Text, codes, text_eq, split, join, ends_with}
use mem_sandbox.Paths.{root}
use mem_sandbox.Lines.{
  replace_crlf, replace_cr, normalize_line_endings, split_lines, split_normalized_lines,
}
use mem_sandbox.Lines.Laws.{unlines}
use mem_sandbox.Patching.{FilePatch, apply_lines, apply_hunks, apply_file_patch}
use mem_sandbox.Patching.Edits.{Edits, apply_file_patch-Edits}

abbrev mixed : Text
mixed = codes "a\r\nb\rc\n"

-- The second line of the text is replaced.
abbrev patch : FilePatch
patch = record {
  path = root;
  hunks =
      record {
        old_start = 1;
        old_count = 2;
        new_start = 1;
        new_count = 2;
        lines =
            record { prefix = b' '; content = codes "a" }
            ∷ record { prefix = b'-'; content = codes "b" }
            ∷ record { prefix = b'+'; content = codes "x" }
            ∷ [];
      }
      ∷ [];
}

patch_ok : apply_file_patch mixed patch ≡ ok (codes "a\nx\nc\n")
unfolding apply_file_patch apply_hunks apply_lines split_normalized_lines split_lines
    normalize_line_endings replace_crlf replace_cr split join ends_with text_eq
patch_ok = refl

apply_file_patch-Edits_example :
    (lines : List Text) × Edits 0 0 patch.hunks (split_normalized_lines mixed).0 lines
    × (codes "a\nx\nc\n" ≡ unlines (lines, (split_normalized_lines mixed).1))
apply_file_patch-Edits_example = apply_file_patch-Edits mixed (codes "a\nx\nc\n") patch patch_ok
