-- ===== src/Models.antt =====
-- src/mem_sandbox/workspace/models.py: limits, preconditions, requests and results.
-- A content hash is its digest, which the source keeps as lower-case hexadecimal text.
use mem_sandbox.Base.{ltb, ◌==◌, length, ℕ, ◌*◌, Bool, ◌||◌, Option, List}
use mem_sandbox.Errors.{value_error, Result, ok, raise_if, ◌>>◌}
use mem_sandbox.Strings.{Text}
use mem_sandbox.Utf8.{Bytes}
use mem_sandbox.Paths.{root_value, workspace_name, SandboxPath}

pub record ContentHash : Type 0 where
  pub digest : Bytes

pub record WorkspaceLimits : Type 0 where
  pub max_file_bytes : ℕ
  pub max_total_bytes : ℕ
  pub max_nodes : ℕ
  pub max_path_bytes : ℕ
  pub max_segment_bytes : ℕ
  pub max_read_bytes : ℕ
  pub max_read_lines : ℕ
  pub max_patch_bytes : ℕ
  pub max_snapshot_bytes : ℕ

abbrev pub default_limits : WorkspaceLimits
default_limits = record {
  max_file_bytes = 4 * 1024 * 1024;
  max_total_bytes = 16 * 1024 * 1024;
  max_nodes = 10_000;
  max_path_bytes = 4_096;
  max_segment_bytes = 255;
  max_read_bytes = 256 * 1024;
  max_read_lines = 2_000;
  max_patch_bytes = 1024 * 1024;
  max_snapshot_bytes = 32 * 1024 * 1024;
}

-- `WorkspaceLimits.__post_init__`
unfoldable pub check_limits : WorkspaceLimits → Result WorkspaceLimits
check_limits l = do
  raise_if
      (l.max_file_bytes == 0
        || l.max_total_bytes == 0
        || l.max_nodes == 0
        || l.max_path_bytes == 0
        || l.max_segment_bytes == 0
        || l.max_read_bytes == 0
        || l.max_read_lines == 0
        || l.max_patch_bytes == 0
        || l.max_snapshot_bytes == 0)
      value_error
  raise_if (ltb l.max_total_bytes l.max_file_bytes) value_error
  raise_if (ltb l.max_path_bytes l.max_segment_bytes) value_error
  raise_if (ltb l.max_path_bytes (length root_value)) value_error
  raise_if (ltb l.max_segment_bytes (length workspace_name)) value_error
  ok l

pub data WritePrecondition : Type 0 where
  any_current_state path_must_not_exist : WritePrecondition
  content_hash_must_equal : ContentHash → WritePrecondition

pub data NodeKind : Type 0 where
  file_kind directory_kind : NodeKind

pub record WorkspaceStats : Type 0 where
  pub total_bytes : ℕ
  pub node_count : ℕ
  pub revision : ℕ
  pub root_hash : ContentHash

pub record WorkspaceEntry : Type 0 where
  pub path : SandboxPath
  pub kind : NodeKind
  pub size_bytes : ℕ
  pub content_hash : ContentHash
  pub revision : ℕ

pub record WorkspaceBinaryResult : Type 0 where
  pub path : SandboxPath
  pub content : Bytes
  pub content_hash : ContentHash
  pub revision : ℕ

pub record WorkspaceTextResult : Type 0 where
  pub path : SandboxPath
  pub content : Text
  pub content_hash : ContentHash
  pub revision : ℕ

pub record WorkspaceRangeRequest : Type 0 where
  pub path : SandboxPath
  pub start_line : ℕ
  pub end_line : Option ℕ

pub record WorkspaceRangeResult : Type 0 where
  pub path : SandboxPath
  pub content : Text
  pub start_line : ℕ
  pub end_line : ℕ
  pub total_lines : ℕ
  pub content_hash : ContentHash
  pub revision : ℕ

pub record MakeDirectoryRequest : Type 0 where
  pub path : SandboxPath
  pub create_parents : Bool
  pub exist_ok : Bool

-- The fields of a write and of an append.
pub record WorkspaceWriteRequest : Type 0 where
  pub path : SandboxPath
  pub content : Bytes
  pub precondition : WritePrecondition
  pub create_parents : Bool

pub record RemovePathRequest : Type 0 where
  pub path : SandboxPath
  pub recursive : Bool
  pub missing_ok : Bool

-- The fields of a copy and of a move.
pub record TransferRequest : Type 0 where
  pub source : SandboxPath
  pub destination : SandboxPath
  pub overwrite : Bool
  pub create_parents : Bool

pub record WorkspaceMutation : Type 0 where
  pub path : SandboxPath
  pub created : Bool
  pub changed : Bool
  pub previous_hash : Option ContentHash
  pub current_hash : Option ContentHash
  pub stats : WorkspaceStats

-- `ExpectedFileHash`
pub record ExpectedFileHash : Type 0 where
  pub path : SandboxPath
  pub content_hash : ContentHash

pub record WorkspacePatchRequest : Type 0 where
  pub patch : Text
  pub expected_hashes : List ExpectedFileHash

pub record PatchedFile : Type 0 where
  pub path : SandboxPath
  pub previous_hash : ContentHash
  pub current_hash : ContentHash

pub record WorkspacePatchResult : Type 0 where
  pub files : List PatchedFile
  pub stats : WorkspaceStats
