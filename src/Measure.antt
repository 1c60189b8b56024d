-- ===== src/Measure.antt =====
-- `_measure_node` of src/mem_sandbox/workspace/memory.py: the bytes, the nodes and the hash of a tree.
-- The source walks with a stack in post-order, children in the order of their names. Here a
-- directory measures every child, and looks at the results in that order.

pub mod Hash
pub mod Counts
use mathlib.Core.List.{reverse}
use mem_sandbox.Base.{ltb, length, ℕ, ◌+◌, List, [], ◌∷◌}
use mem_sandbox.Errors.{file_size_limit_exceeded, Result, ok, raise_if, ◌>>=◌, ◌>>◌}
use mem_sandbox.Strings.{Text}
use mem_sandbox.Utf8.{Bytes}
use mem_sandbox.Paths.{SandboxPath, join_path}
use mem_sandbox.Models.{ContentHash, WorkspaceLimits, NodeKind}
use mem_sandbox.Tree.{Node, file, directory, Children, empty, child}
use mem_sandbox.Named.{Named, sort_named, names, map_named}
use mem_sandbox.Hashing.{node_kind, from_bytes, hash_directory}

pub record Measured : Type 0 where
  pub bytes : ℕ
  pub nodes : ℕ
  pub hash : ContentHash

-- The digest of the standard library, and the limits of the workspace.
pub record Env : Type 0 where
  pub sha256 : Bytes → Bytes
  pub limits : WorkspaceLimits

-- The paths of all children are built when a directory is first met, the last name first.
unfoldable pub join_all : WorkspaceLimits → SandboxPath → List Text → Result (Unit {0})
join_all limits path [] = ok tt
join_all limits path (k ∷ ks) = do
  _ ← join_path path (k ∷ []) limits.max_path_bytes limits.max_segment_bytes
  join_all limits path ks

unfoldable pub child_names : Children → Named (Unit {0})
child_names empty = []
child_names (child k n cs) = (k, tt) ∷ child_names cs

-- The results in order, up to the first error.
unfoldable pub sequence_named :
    Named (NodeKind × Result Measured) → Result (Named (NodeKind × Measured))
sequence_named [] = ok []
sequence_named ((k, (kind, r)) ∷ l) = do m ← r; rest ← sequence_named l; ok ((k, (kind, m)) ∷ rest)

unfoldable pub sum_bytes : Named (NodeKind × Measured) → ℕ
sum_bytes [] = 0
sum_bytes ((k, (kind, m)) ∷ l) = m.bytes + sum_bytes l

unfoldable pub sum_nodes : Named (NodeKind × Measured) → ℕ
sum_nodes [] = 0
sum_nodes ((k, (kind, m)) ∷ l) = m.nodes + sum_nodes l

abbrev pub measured_hash : NodeKind × Measured → NodeKind × ContentHash
measured_hash (kind, m) = (kind, m.hash)

module _ (env : Env) where
  unfoldable mutual
    pub measure_node : Node → SandboxPath → Result Measured
    measure_node (file content) path = do
      raise_if (ltb env.limits.max_file_bytes (length content)) file_size_limit_exceeded
      ok (record { bytes = length content; nodes = 1; hash = from_bytes env.sha256 content })
    measure_node (directory cs) path = do
      join_all env.limits path (reverse (names (sort_named (child_names cs))))
      measured ← sequence_named (sort_named (measure_children cs path))
      h ← hash_directory env.sha256 (map_named measured_hash measured)
      ok (record { bytes = sum_bytes measured; nodes = 1 + sum_nodes measured; hash = h })

    pub measure_children : Children → SandboxPath → Named (NodeKind × Result Measured)
    measure_children empty path = []
    measure_children (child k n cs) path =
        (
          k,
          (
            node_kind n,
            do
              p ← join_path path (k ∷ []) env.limits.max_path_bytes env.limits.max_segment_bytes
              measure_node n p,
          ),
        )
        ∷ measure_children cs path
