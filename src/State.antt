-- ===== src/State.antt =====
-- `_WorkspaceState` and `_state_for_root` of src/mem_sandbox/workspace/memory.py.
use mem_sandbox.Paths
use mem_sandbox.Base.{ltb, ℕ, none}
use mem_sandbox.Errors.{
  workspace_size_limit_exceeded, node_limit_exceeded, Result, ok, raise_if, ◌>>=◌, ◌>>◌,
}
use mem_sandbox.Paths.{SandboxPath, resolve}
use mem_sandbox.Models.{WorkspaceStats}
use mem_sandbox.Tree.{directory, Children}
use mem_sandbox.Measure.{Env, measure_node}

pub record State : Type 0 where
  pub root : Children
  pub stats : WorkspaceStats

module _ (env : Env) where
  unfoldable pub state_for_root : Children → ℕ → Result State
  state_for_root cs revision = do
    m ← measure_node env (directory cs) Paths.root
    raise_if (ltb env.limits.max_total_bytes m.bytes) workspace_size_limit_exceeded
    raise_if (ltb env.limits.max_nodes m.nodes) node_limit_exceeded
    ok (record {
      root = cs;
      stats = record {
        total_bytes = m.bytes;
        node_count = m.nodes;
        revision = revision;
        root_hash = m.hash;
      };
    })

  -- `_validate_path`: the result of resolving is not used.
  unfoldable pub validate_path : SandboxPath → Result (Unit {0})
  validate_path p = do
    _ ← resolve p.value none env.limits.max_path_bytes env.limits.max_segment_bytes
    ok tt
