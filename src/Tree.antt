-- ===== src/Tree.antt =====
-- The nodes of src/mem_sandbox/workspace/memory.py, and the walks along a path.
-- A directory's dict is a list of entries in insertion order; the walks take `path.parts`.
pub mod Dict
pub mod Places
pub mod Parents
use mem_sandbox.Base.{if◌then◌else◌, init, Bool, Option, none, some, List, [], ◌∷◌}
use mem_sandbox.Errors.{path_not_found, not_a_file, not_a_directory, Result, err, ok, ◌>>=◌, ◌>>◌}
use mem_sandbox.Strings.{Text, text_eq}
use mem_sandbox.Utf8.{Bytes}
use mem_sandbox.Paths.{SandboxPath, root, parts, name, parent, join_path}
use mem_sandbox.Models.{WorkspaceLimits}

mutual
  pub data Node : Type 0 where
    file : Bytes → Node
    directory : Children → Node

  pub data Children : Type 0 where
    empty : Children
    child : Text → Node → Children → Children

-- `children.get(name)`
unfoldable pub get : Text → Children → Option Node
get k empty = none
get k (child j n cs) = if text_eq j k then some n else get k cs

-- `children[name] = node`: an entry keeps its place, a new one goes to the end.
unfoldable pub put : Text → Node → Children → Children
put k n empty = child k n empty
put k n (child j m cs) = if text_eq j k then child j n cs else child j m (put k n cs)

-- `del children[name]`. Every entry of the name goes; a dict has at most one.
unfoldable pub delete : Text → Children → Children
delete k empty = empty
delete k (child j m cs) = let rest = delete k cs in if text_eq j k then rest else child j m rest

-- `_try_get_node`
unfoldable pub try_get_node : Node → List Text → Result (Option Node)
try_get_node node [] = ok (some node)
try_get_node (file content) (s ∷ ss) = err not_a_directory
try_get_node (directory cs) (s ∷ ss) = elim (get s cs) [
  | none ↦ ok none
  | some node ↦ try_get_node node ss
]

abbrev pub found_node : Option Node → Result Node
found_node none = err path_not_found
found_node (some node) = ok node

-- `_get_node`
unfoldable pub get_node : Children → SandboxPath → Result Node
get_node root p = do found ← try_get_node (directory root) (parts p); found_node found

abbrev pub require_directory : Node → Result Children
require_directory (file content) = err not_a_directory
require_directory (directory cs) = ok cs

-- `_get_parent`
unfoldable pub get_parent : Children → SandboxPath → Result Children
get_parent root p = do q ← parent p; node ← get_node root q; require_directory node

-- `_require_file`
abbrev pub require_file : Node → Result Bytes
require_file (file content) = ok content
require_file (directory cs) = err not_a_file

-- The directory that `_ensure_parent` steps into.
abbrev pub next_directory : Bool → Option Node → Result Children
next_directory create none = if create then ok empty else err path_not_found
next_directory create (some (file content)) = err not_a_directory
next_directory create (some (directory cs)) = ok cs

-- The loop of `_ensure_parent` from a directory, the path traversed so far and the segments to
-- go. It returns the directory with the missing ones added below it.
unfoldable pub ensure_directories :
    Bool → WorkspaceLimits → Children → SandboxPath → List Text → Result Children
ensure_directories create limits cs traversed [] = ok cs
ensure_directories create limits cs traversed (s ∷ ss) = do
  here ← join_path traversed (s ∷ []) limits.max_path_bytes limits.max_segment_bytes
  next ← next_directory create (get s cs)
  filled ← ensure_directories create limits next here ss
  ok (put s (directory filled) cs)

-- `_ensure_parent`
unfoldable pub ensure_parent : Children → SandboxPath → Bool → WorkspaceLimits → Result Children
ensure_parent cs p create limits = ensure_directories create limits cs root (init (parts p))

-- A write through a reference to the directory at these segments.
unfoldable pub modify : List Text → (Children → Children) → Children → Children
modify [] f cs = f cs
modify (s ∷ ss) f cs = elim (get s cs) [
  | some (directory d) ↦ put s (directory (modify ss f d)) cs
  | some (file content) ↦ cs
  | none ↦ cs
]

-- `parent.children[path.name] = node`
unfoldable pub place : SandboxPath → Node → Children → Children
place p node cs = modify (init (parts p)) (put (name p) node) cs

-- `del parent.children[path.name]`
unfoldable pub discard : SandboxPath → Children → Children
discard p cs = modify (init (parts p)) (delete (name p)) cs
