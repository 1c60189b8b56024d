-- ===== src/Tests/Patches.antt =====
-- The theorems on patches at a concrete patch.
use mem_sandbox.Workspace.Op.{Op, pure, lift, current, commit, ◌>>=◌}
use mem_sandbox.Base.{
  leb, if◌then◌else◌, All, ℕ, ◌-◌, ◌≡◌, refl, ◌&&◌, Option, none, some, List, [], ◌∷◌,
}
use mem_sandbox.Errors.{Error, Result, err, ok}
use mem_sandbox.Strings.{
  Text, codes, text_eq, has_char, starts_with, split, join, contains, ends_with,
}
use mem_sandbox.Utf8.{encode, decode}
use mem_sandbox.Paths.{
  any_reserved, canonical_absolute, construct, is_root, parts, name, parent_of, parent, utf8_length,
  resolve_segments, start_parts, is_outside, check_segments, confine, resolve, join_path,
}
use mem_sandbox.Models.{WorkspacePatchRequest, WorkspacePatchResult}
use mem_sandbox.Tree.{
  get, put, delete, try_get_node, get_node, get_parent, ensure_directories, ensure_parent, modify,
  place,
}
use mem_sandbox.Lines.{
  replace_crlf, replace_cr, normalize_line_endings, split_lines, split_normalized_lines,
}
use mem_sandbox.Named.{text_le, insert_named, sort_named, names, map_named}
use mem_sandbox.Hashing.{directory_bytes, hash_directory, node_hash, hash_of}
use mem_sandbox.Measure.{join_all, child_names, sequence_named, sum_bytes, sum_nodes, measure_node}
use mem_sandbox.Clone.{clone_counted, clone_node, clone_directory}
use mem_sandbox.State.{state_for_root, validate_path}
use mem_sandbox.Patching.{FilePatch, apply_lines, apply_hunks, apply_file_patch}
use mem_sandbox.Patching.Parse.{
  without_empty_last, as_patch_error, before_tab, strip_side, validate_hunk_range, int_of,
  int_or_one, patch_line, take_line, take_body, hunk_of, check_behind, seen_path, parse_header_path,
  parse_file_header, digits, some_digits, hunk_range, match_header, parse_hunk,
}
use mem_sandbox.Patching.Files.{parse_hunks, parse_files, parse_unified_diff}
use mem_sandbox.Patching.Files.Ends.{
  IsWhole, AreDistinct, parse_unified_diff-total, parse_unified_diff-IsWhole,
}
use mem_sandbox.Workspace.Writes.{check_precondition, put_file, write}
use mem_sandbox.Workspace.Reads.{decode_utf8}
use mem_sandbox.Workspace.History.{initial}
use mem_sandbox.Workspace.Patches.{patch_parsed, patch}
use mem_sandbox.Workspace.Patches.Updates.{
  expected_for, is_patched, has_unknown, place_updates, resolve_path, check_patch_size, file_update,
  file_updates,
}
use mem_sandbox.Workspace.Patches.Atomic.{PatchPublished, patch-atomic}
use mem_sandbox.Workspace.Patches.Contents.{PatchEffect, find-patch}
use mem_sandbox.Tests.{test_env, draft, no_stats, drafted}

abbrev ascii_digit : ℕ → Option ℕ
ascii_digit c = if leb b'0' c && leb c b'9' then some (c - b'0') else none

abbrev diff : Text
diff = codes "--- a/notes/draft\n+++ b/notes/draft\n@@ -2 +2,2 @@\n-two\n+three\n+four\n"

abbrev patch_draft : WorkspacePatchRequest
patch_draft = record {
  patch = diff;
  expected_hashes = record { path = draft; content_hash = record { digest = 8 ∷ [] } } ∷ [];
}

abbrev draft_patch : FilePatch
draft_patch = record {
  path = draft;
  hunks =
      record {
        old_start = 2;
        old_count = 1;
        new_start = 2;
        new_count = 2;
        lines =
            record { prefix = b'-'; content = codes "two" }
            ∷ record { prefix = b'+'; content = codes "three" }
            ∷ record { prefix = b'+'; content = codes "four" }
            ∷ [];
      }
      ∷ [];
}

abbrev result_or : Result WorkspacePatchResult → WorkspacePatchResult
result_or (ok a) = a
result_or (err e) = record { files = []; stats = no_stats }

abbrev method : Op WorkspacePatchResult
method = patch_parsed test_env patch_draft (ok (draft_patch ∷ []))

-- What the parser and the method make of the patch.
record Applied : Type 0 where
  parsed :
      parse_unified_diff ascii_digit (resolve_path test_env) diff ≡ some (ok (draft_patch ∷ []))
  returns : (method drafted).0 ≡ ok (result_or (method drafted).0)

applied : Applied
unfolding text_eq has_char starts_with split join contains ends_with encode decode resolve
    resolve_segments start_parts is_outside check_segments confine utf8_length construct
    canonical_absolute any_reserved is_root parts name parent parent_of state_for_root measure_node
    join_all names sort_named insert_named text_le map_named child_names sequence_named sum_bytes
    sum_nodes hash_directory directory_bytes node_hash hash_of initial validate_path ◌>>=◌ lift pure
    current commit get put delete modify place try_get_node get_node get_parent ensure_directories
    ensure_parent clone_directory clone_node clone_counted check_precondition write put_file
    normalize_line_endings replace_crlf replace_cr split_lines split_normalized_lines apply_lines
    apply_hunks apply_file_patch without_empty_last as_patch_error before_tab strip_side
    validate_hunk_range int_of int_or_one patch_line take_line take_body hunk_of check_behind
    seen_path parse_header_path parse_file_header digits some_digits hunk_range match_header
    parse_hunk parse_hunks parse_files parse_unified_diff expected_for is_patched has_unknown
    place_updates check_patch_size file_update file_updates patch_parsed decode_utf8 join_path
applied = record { parsed = refl; returns = refl }

parse_unified_diff-total_example :
    (r : Result (List FilePatch)) × (parse_unified_diff ascii_digit (resolve_path test_env) diff
      ≡ some r)
parse_unified_diff-total_example = parse_unified_diff-total ascii_digit (resolve_path test_env) diff

parse_unified_diff-IsWhole_example :
    All (IsWhole (resolve_path test_env)) (draft_patch ∷ []) × AreDistinct (draft_patch ∷ [])
parse_unified_diff-IsWhole_example =
    parse_unified_diff-IsWhole ascii_digit (resolve_path test_env) diff (draft_patch ∷ [])
      applied.parsed

patch-atomic_example :
    (m : Op WorkspacePatchResult) × (patch test_env ascii_digit patch_draft ≡ some m)
    × ((e : Error) → (m drafted).0 ≡ err e → (m drafted).1 ≡ drafted)
    × ((a : WorkspacePatchResult)
        → (m drafted).0 ≡ ok a
        → PatchPublished test_env ascii_digit patch_draft drafted a (m drafted).1)
patch-atomic_example = patch-atomic test_env patch_draft drafted ascii_digit

patched_by : patch test_env ascii_digit patch_draft ≡ some method
unfolding patch
patched_by = rw (applied.parsed, patch) refl

find-patch_example :
    (fs : List FilePatch) × (parse_unified_diff ascii_digit (resolve_path test_env) diff
      ≡ some (ok fs))
    × PatchEffect test_env patch_draft.expected_hashes drafted.root (method drafted).1.root fs
find-patch_example =
    find-patch test_env ascii_digit patch_draft drafted method (result_or (method drafted).0)
      patched_by applied.returns
