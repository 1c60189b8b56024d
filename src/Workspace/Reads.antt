-- ===== src/Workspace/Reads.antt =====
-- `stat`, `list`, `read_bytes`, `read_text` and `read_range` of `MemoryWorkspace`. None assigns the state.
use mem_sandbox.Base.{
  ltb, ◌==◌, if◌then◌else◌, length, take, drop, ℕ, ◌+◌, ◌-◌, min, Option, none, some, List, [], ◌∷◌,
}
use mem_sandbox.Errors.{
  file_encoding_error, invalid_range, read_limit_exceeded, value_error, Result, err, ok, raise_if,
  ◌>>=◌, ◌>>◌,
}
use mem_sandbox.Strings.{Text, join}
use mem_sandbox.Utf8.{Bytes, decode}
use mem_sandbox.Paths.{SandboxPath, join_path}
use mem_sandbox.Models.{
  WorkspaceEntry, WorkspaceBinaryResult, WorkspaceTextResult, WorkspaceRangeRequest,
  WorkspaceRangeResult,
}
use mem_sandbox.Tree.{
  Node, file, directory, Children, empty, child, get_node, require_directory, require_file,
}
use mem_sandbox.Lines.{newline, split_normalized_lines}
use mem_sandbox.Named.{Named, sort_named}
use mem_sandbox.Hashing.{node_kind, encode_name, from_bytes, node_hash}
use mem_sandbox.Measure.{Env}
use mem_sandbox.State.{State, validate_path}

-- `len(node.content) if isinstance(node, _FileNode) else 0`
abbrev pub size_of : Node → ℕ
size_of (file content) = length content
size_of (directory cs) = 0

-- `_decode_utf8`
unfoldable pub decode_utf8 : Bytes → Result Text
decode_utf8 content = elim (decode content) [ none ↦ err file_encoding_error | some t ↦ ok t ]

-- The children of a directory with their names.
unfoldable pub items : Children → Named Node
items empty = []
items (child k n cs) = (k, n) ∷ items cs

-- `end_line or total_lines`; a last line is at least the first, so it is not 0.
abbrev pub line_or : Option ℕ → ℕ → ℕ
line_or none total = total
line_or (some line) total = if line == 0 then total else line

-- `WorkspaceRangeRequest.__post_init__`
unfoldable pub check_range : WorkspaceRangeRequest → Result WorkspaceRangeRequest
check_range r = do
  raise_if (ltb r.start_line 1) value_error
  elim r.end_line [
    | none ↦ ok r
    | some last ↦ do raise_if (ltb last r.start_line) value_error; ok r
  ]

module _ (env : Env) where
  -- `_entry`
  unfoldable pub entry : SandboxPath → Node → ℕ → Result WorkspaceEntry
  entry path node revision = do
    h ← node_hash env.sha256 node
    ok (record {
      path = path;
      kind = node_kind node;
      size_bytes = size_of node;
      content_hash = h;
      revision = revision;
    })

  unfoldable pub stat : SandboxPath → State → Result WorkspaceEntry
  stat path s = do
    validate_path env path
    node ← get_node s.root path
    entry path node s.stats.revision

  -- The entries of `list` for children in order.
  unfoldable pub entries_of : SandboxPath → ℕ → Named Node → Result (List WorkspaceEntry)
  entries_of path revision [] = ok []
  entries_of path revision ((k, node) ∷ l) = do
    child_path ← join_path path (k ∷ []) env.limits.max_path_bytes env.limits.max_segment_bytes
    e ← entry child_path node revision
    rest ← entries_of path revision l
    ok (e ∷ rest)

  unfoldable pub list : SandboxPath → State → Result (List WorkspaceEntry)
  list path s = do
    validate_path env path
    node ← get_node s.root path
    cs ← require_directory node
    entries_of path s.stats.revision (sort_named (items cs))

  unfoldable pub read_bytes : SandboxPath → State → Result WorkspaceBinaryResult
  read_bytes path s = do
    validate_path env path
    node ← get_node s.root path
    content ← require_file node
    ok (record {
      path = path;
      content = content;
      content_hash = from_bytes env.sha256 content;
      revision = s.stats.revision;
    })

  unfoldable pub read_text : SandboxPath → State → Result WorkspaceTextResult
  read_text path s = do
    validate_path env path
    node ← get_node s.root path
    content ← require_file node
    text ← decode_utf8 content
    ok (record {
      path = path;
      content = text;
      content_hash = from_bytes env.sha256 content;
      revision = s.stats.revision;
    })

  -- `read_range` once the lines are known.
  unfoldable pub range_of :
      WorkspaceRangeRequest → State → Bytes → List Text → Result WorkspaceRangeResult
  range_of r s content [] = ok (record {
    path = r.path;
    content = [];
    start_line = 1;
    end_line = 0;
    total_lines = 0;
    content_hash = from_bytes env.sha256 content;
    revision = s.stats.revision;
  })
  range_of r s content (l ∷ ls) = do
    let total = length (l ∷ ls)
    raise_if (ltb total r.start_line) invalid_range
    let last = min (line_or r.end_line total) total
    raise_if (ltb env.limits.max_read_lines (last + 1 - r.start_line)) read_limit_exceeded
    let text = join newline (drop (r.start_line - 1) (take last (l ∷ ls)))
    bytes ← encode_name text
    raise_if (ltb env.limits.max_read_bytes (length bytes)) read_limit_exceeded
    ok (record {
      path = r.path;
      content = text;
      start_line = r.start_line;
      end_line = last;
      total_lines = total;
      content_hash = from_bytes env.sha256 content;
      revision = s.stats.revision;
    })

  unfoldable pub read_range : WorkspaceRangeRequest → State → Result WorkspaceRangeResult
  read_range r s = do
    validate_path env r.path
    node ← get_node s.root r.path
    content ← require_file node
    text ← decode_utf8 content
    range_of r s content (split_normalized_lines text).0
