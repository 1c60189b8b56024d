-- ===== src/Paths.antt =====
-- `SandboxPath` of src/mem_sandbox/workspace/paths.py.
-- A path is its text; `construct` is the constructor with the check of `__post_init__`.
pub mod Render
pub mod Canonical
pub mod Parts
pub mod Ancestors
pub mod Resolve
use mem_sandbox.Base.{
  ltb, ◌==◌, if◌then◌else◌, length, drop, init, last_or, ℕ, ◌/◌, Bool, true, false, not, ◌&&◌, ◌||◌,
  Option, none, some, List, [], ◌∷◌, ◌++◌,
}
use mem_sandbox.Errors.{
  invalid_path, path_outside_workspace, value_error, Result, err, ok, raise_if, ◌>>=◌, ◌>>◌,
}
use mem_sandbox.Strings.{
  Text, codes, text_eq, has_char, starts_with, split, join, contains, ends_with,
}
use mem_sandbox.Utf8.{encode}

abbrev pub slash : ℕ
slash = b'/'

abbrev pub root_value : Text
root_value = codes "/workspace"

abbrev pub root_prefix : Text
root_prefix = codes "/workspace/"

abbrev pub workspace_name : Text
workspace_name = codes "workspace"

pub record SandboxPath : Type 0 where
  pub value : Text

-- `any(segment in ("", ".", "..") for segment in segments)`
unfoldable pub any_reserved : List Text → Bool
any_reserved [] = false
any_reserved (s ∷ ss) =
    text_eq s [] || text_eq s (codes ".") || text_eq s (codes "..") || any_reserved ss

-- `value.split("/")[1:]`
abbrev pub tail_segments : Text → List Text
tail_segments value = drop 1 (split slash value)

unfoldable pub canonical_absolute : Text → Text
canonical_absolute value =
    if not (starts_with (codes "/") value)
    then []
    else if text_eq value root_value
    then value
    else if not (starts_with root_prefix value)
    then []
    else if contains (codes "//") value
        || contains (codes "/./") value
        || ends_with (codes "/.") value
        || ends_with (codes "/") value
    then []
    else if any_reserved (tail_segments value)
    then []
    else if has_char 0 value
    then []
    else value

-- `SandboxPath(value)`
unfoldable pub construct : Text → Result SandboxPath
construct value =
    if text_eq value (canonical_absolute value)
    then ok (record { value = value })
    else err invalid_path

abbrev pub root : SandboxPath
root = record { value = root_value }

unfoldable pub is_root : SandboxPath → Bool
is_root p = text_eq p.value root_value

unfoldable pub parts : SandboxPath → List Text
parts p = if is_root p then [] else split slash (drop 11 p.value)

unfoldable pub name : SandboxPath → Text
name p = if is_root p then workspace_name else last_or (parts p) []

-- The end of `parent`, on `self.parts[:-1]`.
unfoldable pub parent_of : List Text → Result SandboxPath
parent_of [] = ok root
parent_of (s ∷ ss) = construct (root_prefix ++ join slash (s ∷ ss))

unfoldable pub parent : SandboxPath → Result SandboxPath
parent p = if is_root p then ok p else parent_of (init (parts p))

unfoldable pub is_ancestor_of : SandboxPath → SandboxPath → Bool
is_ancestor_of p other = starts_with (p.value ++ codes "/") other.value

-- `_utf8_length`
unfoldable pub utf8_length : Text → Result ℕ
utf8_length t = elim (encode t) [ none ↦ err invalid_path | some b ↦ ok (length b) ]

-- The loop of `resolve` over `value.split("/")`: the parts so far, then the segments.
unfoldable pub resolve_segments : List Text → List Text → Result (List Text)
resolve_segments done [] = ok done
resolve_segments done (s ∷ ss) =
    let skip = resolve_segments done ss in
    let push = resolve_segments (done ++ s ∷ []) ss in
    if text_eq s [] || text_eq s (codes ".")
    then skip
    else if text_eq s (codes "..") || has_char 0 s
    then err invalid_path
    else push

-- The parts that `resolve` starts from.
unfoldable pub start_parts : Text → Option SandboxPath → Result (List Text)
start_parts value cwd =
    if starts_with (codes "/") value
    then ok []
    else elim cwd [ none ↦ err invalid_path | some p ↦ ok (workspace_name ∷ parts p) ]

-- `not parts or parts[0] != "workspace"`
unfoldable pub is_outside : List Text → Bool
is_outside [] = true
is_outside (s ∷ ss) = not (text_eq s workspace_name)

unfoldable pub check_segments : ℕ → List Text → Result (Unit {0})
check_segments limit [] = ok tt
check_segments limit (s ∷ ss) = do
  n ← utf8_length s
  raise_if (ltb limit n) invalid_path
  check_segments limit ss

-- `resolve` from the parts that its loop found: confinement, the two limits, the constructor.
unfoldable pub confine : List Text → ℕ → ℕ → Result SandboxPath
confine found max_path_bytes max_segment_bytes = do
  raise_if (is_outside found) path_outside_workspace
  let normalized = slash ∷ join slash found
  raise_if (not (text_eq normalized root_value) && not (starts_with root_prefix normalized))
      path_outside_workspace
  check_segments max_segment_bytes found
  size ← utf8_length normalized
  raise_if (ltb max_path_bytes size) invalid_path
  construct normalized

unfoldable pub resolve : Text → Option SandboxPath → ℕ → ℕ → Result SandboxPath
resolve value cwd max_path_bytes max_segment_bytes = do
  raise_if (text_eq value []) invalid_path
  raise_if (has_char 0 value) invalid_path
  raise_if (max_path_bytes == 0) value_error
  raise_if (max_segment_bytes == 0) value_error
  start ← start_parts value cwd
  found ← resolve_segments start (split slash value)
  confine found max_path_bytes max_segment_bytes

-- `path.join(*segments)`
unfoldable pub join_path : SandboxPath → List Text → ℕ → ℕ → Result SandboxPath
join_path p [] max_path_bytes max_segment_bytes = ok p
join_path p (s ∷ ss) max_path_bytes max_segment_bytes =
    resolve (join slash (s ∷ ss)) (some p) max_path_bytes max_segment_bytes
