-- ===== src/Tests/Reads.antt =====
-- The theorems on reads at concrete requests.
use mem_sandbox.Workspace.Op.{pure, lift, current, commit, ◌>>=◌}
use mem_sandbox.Base.{◌≡◌, refl, some, [], ◌∷◌}
use mem_sandbox.Errors.{Result, err, ok}
use mem_sandbox.Strings.{codes, text_eq, has_char, starts_with, split, join, contains, ends_with}
use mem_sandbox.Utf8.{encode, first_byte, decode_step, decode_from, decode}
use mem_sandbox.Paths.{
  any_reserved, canonical_absolute, construct, root, is_root, parts, name, parent_of, parent,
  is_ancestor_of, utf8_length, resolve_segments, start_parts, is_outside, check_segments, confine,
  resolve, join_path,
}
use mem_sandbox.Models.{default_limits, WorkspaceTextResult, WorkspaceRangeResult}
use mem_sandbox.Tree.{
  get, put, delete, try_get_node, get_node, get_parent, ensure_directories, ensure_parent, modify,
  place, discard,
}
use mem_sandbox.Tests.{test_env, draft, write_draft, whole_draft, mutation_or, start, drafted}
use mem_sandbox.Lines.{
  replace_crlf, replace_cr, normalize_line_endings, split_lines, split_normalized_lines,
}
use mem_sandbox.Named.{text_le, insert_named, sort_named, names, map_named}
use mem_sandbox.Hashing.{directory_bytes, hash_directory, node_hash, hash_of}
use mem_sandbox.Measure.{join_all, child_names, sequence_named, sum_bytes, sum_nodes, measure_node}
use mem_sandbox.Clone.{clone_counted, clone_node, clone_directory}
use mem_sandbox.State.{state_for_root, validate_path}
use mem_sandbox.Workspace.Writes.{
  check_precondition, put_file, write, append, remove_existing, remove,
}
use mem_sandbox.Workspace.History.{run, initial}
use mem_sandbox.Workspace.Transfers.{check_transfer, transferred, copy, move}
use mem_sandbox.Workspace.Reads.{
  decode_utf8, check_range, read_bytes, read_text, range_of, read_range,
}
use mem_sandbox.Workspace.ReadBack.{read_text-write}
use mem_sandbox.Workspace.Ranges.{IsRange, IsOf, read_range-IsRange}

abbrev range_or : Result WorkspaceRangeResult → WorkspaceRangeResult
range_or (ok out) = out
range_or (err e) = record {
  path = root;
  content = [];
  start_line = 1;
  end_line = 0;
  total_lines = 0;
  content_hash = record { digest = [] };
  revision = 0;
}

abbrev whole : WorkspaceRangeResult
whole = range_or (read_range test_env whole_draft drafted)

-- What the write and the range return, and how the text is encoded.
record Reads : Type 0 where
  write_ok :
      (write test_env write_draft start).0 ≡ ok (mutation_or (write test_env write_draft start).0)
  encodes : encode (codes "one\ntwo\n") ≡ some write_draft.content
  valid : check_range whole_draft ≡ ok whole_draft
  range_ok : read_range test_env whole_draft drafted ≡ ok whole

reads : Reads
unfolding text_eq has_char starts_with split join contains ends_with encode resolve resolve_segments
    start_parts is_outside check_segments confine utf8_length construct canonical_absolute
    any_reserved is_root parts name parent parent_of is_ancestor_of state_for_root measure_node
    join_all join_path names sort_named insert_named text_le map_named child_names sequence_named
    sum_bytes sum_nodes hash_directory directory_bytes node_hash hash_of initial validate_path ◌>>=◌
    lift pure current commit get put delete modify place discard try_get_node get_node get_parent
    ensure_directories ensure_parent clone_directory clone_node clone_counted check_precondition
    check_transfer transferred write put_file append remove remove_existing move copy run
    check_range read_bytes read_text read_range range_of decode_utf8 decode decode_from decode_step
    first_byte split_normalized_lines split_lines normalize_line_endings replace_crlf replace_cr
reads = record { write_ok = refl; encodes = refl; valid = refl; range_ok = refl }

read_text-write_example :
    read_text test_env draft drafted
    ≡ ok (record {
      path = draft;
      content = codes "one\ntwo\n";
      content_hash = record { digest = 8 ∷ [] };
      revision = (mutation_or (write test_env write_draft start).0).stats.revision;
    })
read_text-write_example =
    read_text-write test_env start (mutation_or (write test_env write_draft start).0) write_draft
      (codes "one\ntwo\n") reads.encodes reads.write_ok

read_range-IsRange_example :
    (text : WorkspaceTextResult) × (read_text test_env draft drafted ≡ ok text)
    × IsRange default_limits whole_draft (split_normalized_lines text.content).0 whole
    × IsOf text whole
read_range-IsRange_example =
    read_range-IsRange test_env whole_draft drafted whole reads.valid reads.range_ok
