-- ===== src/Clone.antt =====
-- `_clone_node` and `_clone_directory` of src/mem_sandbox/workspace/memory.py.
-- The source counts a directory's entries before it goes into the directories among them; here
-- each is gone into at once. The count is the same at the end, and it never falls. Values of
-- `Node` share nothing, so the test for cycles and aliases never fires and is left out.
pub mod Laws
use mem_sandbox.Base.{ltb, ℕ, ◌+◌}
use mem_sandbox.Errors.{node_limit_exceeded, Result, ok, raise_if, ◌>>=◌, ◌>>◌}
use mem_sandbox.Tree.{Node, file, directory, Children, empty, child, require_directory}

unfoldable mutual
  -- The copy, and the count of nodes so far.
  pub clone_counted : ℕ → Node → ℕ → Result (Node × ℕ)
  clone_counted limit (file content) count = ok (file content, count)
  clone_counted limit (directory cs) count = do
    (copied, counted) ← clone_children limit cs count
    ok (directory copied, counted)

  pub clone_children : ℕ → Children → ℕ → Result (Children × ℕ)
  clone_children limit empty count = ok (empty, count)
  clone_children limit (child k n cs) count = do
    raise_if (ltb limit (count + 1)) node_limit_exceeded
    (copied, counted) ← clone_counted limit n (count + 1)
    (rest, total) ← clone_children limit cs counted
    ok (child k copied rest, total)

unfoldable pub clone_node : Node → ℕ → Result Node
clone_node n limit = do (copied, counted) ← clone_counted limit n 1; ok copied

unfoldable pub clone_directory : Children → ℕ → Result Children
clone_directory cs limit = do copied ← clone_node (directory cs) limit; require_directory copied
