-- ===== src/Tests.antt =====
-- Inputs on which the model is run: an environment, paths, and states of a small tree.
pub mod Paths
pub mod Workspace
pub mod Texts
pub mod Reads
pub mod Commands
pub mod Secrets
pub mod Snapshots
pub mod Patches
pub mod Restores
pub mod Session
pub mod Service
use mem_sandbox.Base.{length, All, ◌%◌, refl, true, false, none, List, [], ◌∷◌}
use mem_sandbox.Errors.{Result, err, ok}
use mem_sandbox.Strings.{Text, codes, text_eq, has_char}
use mem_sandbox.Paths.{SandboxPath, root}
use mem_sandbox.Paths.Render.{IsSegment}
use mem_sandbox.Paths.Canonical.{at}
use mem_sandbox.Models.{
  default_limits, any_current_state, content_hash_must_equal, WorkspaceStats, WorkspaceRangeRequest,
  MakeDirectoryRequest, WorkspaceWriteRequest, RemovePathRequest, TransferRequest,
  WorkspaceMutation,
}
use mem_sandbox.Tree.{empty}
use mem_sandbox.Measure.{Env}
use mem_sandbox.State.{State}
use mem_sandbox.Workspace.Writes.{write}
use mem_sandbox.Workspace.History.{initial}

-- A digest of one byte is enough to run the model.
abbrev pub test_env : Env
test_env = record { sha256 = λ b. length b % 256 ∷ []; limits = default_limits }

abbrev pub draft_segments : List Text
draft_segments = codes "notes" ∷ codes "draft" ∷ []

abbrev pub target_segments : List Text
target_segments = codes "final" ∷ []

pub draft_segments-IsSegment : All IsSegment draft_segments
unfolding text_eq has_char
draft_segments-IsSegment = (
  record { not_empty = refl; not_dot = refl; not_dotdot = refl; no_slash = refl; no_nul = refl },
  (
    record { not_empty = refl; not_dot = refl; not_dotdot = refl; no_slash = refl; no_nul = refl },
    tt,
  ),
)

pub target_segments-IsSegment : All IsSegment target_segments
unfolding text_eq has_char
target_segments-IsSegment = (
  record { not_empty = refl; not_dot = refl; not_dotdot = refl; no_slash = refl; no_nul = refl },
  tt,
)

abbrev pub draft : SandboxPath
draft = at draft_segments

abbrev pub target : SandboxPath
target = at target_segments

abbrev pub make_target : MakeDirectoryRequest
make_target = record { path = target; create_parents = false; exist_ok = true }

abbrev pub write_draft : WorkspaceWriteRequest
write_draft = record {
  path = draft;
  content = codes "one\ntwo\n";
  precondition = any_current_state;
  create_parents = true;
}

abbrev pub append_draft : WorkspaceWriteRequest
append_draft = record {
  path = draft;
  content = codes " two";
  precondition = any_current_state;
  create_parents = false;
}

abbrev pub guarded_draft : WorkspaceWriteRequest
guarded_draft = record {
  path = draft;
  content = codes "three";
  precondition = content_hash_must_equal (record { digest = 8 ∷ [] });
  create_parents = false;
}

abbrev pub stale_draft : WorkspaceWriteRequest
stale_draft = record {
  path = draft;
  content = codes "three";
  precondition = content_hash_must_equal (record { digest = 4 ∷ [] });
  create_parents = false;
}

abbrev pub transfer_draft : TransferRequest
transfer_draft = record {
  source = draft;
  destination = target;
  overwrite = false;
  create_parents = false;
}

abbrev pub remove_draft : RemovePathRequest
remove_draft = record { path = draft; recursive = false; missing_ok = false }

abbrev pub whole_draft : WorkspaceRangeRequest
whole_draft = record { path = draft; start_line = 1; end_line = none }

abbrev pub no_stats : WorkspaceStats
no_stats = record {
  total_bytes = 0;
  node_count = 0;
  revision = 0;
  root_hash = record { digest = [] };
}

abbrev pub state_or : Result State → State
state_or (ok s) = s
state_or (err e) = record { root = empty; stats = no_stats }

abbrev pub mutation_or : Result WorkspaceMutation → WorkspaceMutation
mutation_or (ok a) = a
mutation_or (err e) = record {
  path = root;
  created = false;
  changed = false;
  previous_hash = none;
  current_hash = none;
  stats = no_stats;
}

-- A new workspace, and one with `notes/draft`.
abbrev pub start : State
start = state_or (initial test_env)

abbrev pub drafted : State
drafted = (write test_env write_draft start).1
