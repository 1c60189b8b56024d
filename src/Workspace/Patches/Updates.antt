-- ===== src/Workspace/Patches/Updates.antt =====
-- What `patch` of `MemoryWorkspace` computes before it publishes: the files' new contents.
use mem_sandbox.Base.{
  ltb, if◌then◌else◌, length, Bool, false, not, ◌||◌, Option, none, some, List, [], ◌∷◌,
}
use mem_sandbox.Errors.{
  stale_content, invalid_patch, file_size_limit_exceeded, value_error, Result, err, ok, raise_if,
  ◌>>=◌, ◌>>◌,
}
use mem_sandbox.Strings.{Text, text_eq}
use mem_sandbox.Utf8.{Bytes, encode}
use mem_sandbox.Paths.{SandboxPath, root, resolve}
use mem_sandbox.Models.{ContentHash, ExpectedFileHash, PatchedFile}
use mem_sandbox.Tree.{file, Children, get_node, get_parent, require_file, place}
use mem_sandbox.Patching.{FilePatch, apply_file_patch}
use mem_sandbox.Hashing.{from_bytes}
use mem_sandbox.Measure.{Env}
use mem_sandbox.Workspace.Reads.{decode_utf8}
use mem_sandbox.Workspace.Writes.{hash_eq}

-- An entry of `updates`
pub record FileUpdate : Type 0 where
  pub path : SandboxPath
  pub content : Bytes
  pub previous_hash : ContentHash
  pub current_hash : ContentHash

abbrev pub patched_file : FileUpdate → PatchedFile
patched_file u = record {
  path = u.path;
  previous_hash = u.previous_hash;
  current_hash = u.current_hash;
}

-- `WorkspacePatchRequest.__post_init__`
unfoldable pub expects : SandboxPath → List ExpectedFileHash → Bool
expects p [] = false
expects p (e ∷ es) = text_eq e.path.value p.value || expects p es

unfoldable pub check_expected : List ExpectedFileHash → Result (Unit {0})
check_expected [] = ok tt
check_expected (e ∷ es) = do raise_if (expects e.path es) value_error; check_expected es

-- `expected_hashes.get(path)`; the paths of a request differ.
unfoldable pub expected_for : SandboxPath → List ExpectedFileHash → Option ContentHash
expected_for p [] = none
expected_for p (e ∷ es) =
    let rest = expected_for p es in
    if text_eq e.path.value p.value then some e.content_hash else rest

-- `path in patched_paths`
unfoldable pub is_patched : SandboxPath → List FilePatch → Bool
is_patched p [] = false
is_patched p (f ∷ fs) = text_eq f.path.value p.value || is_patched p fs

-- `unknown_preconditions`
unfoldable pub has_unknown : List ExpectedFileHash → List FilePatch → Bool
has_unknown [] fs = false
has_unknown (e ∷ es) fs = not (is_patched e.path fs) || has_unknown es fs

abbrev pub is_stale : Option ContentHash → ContentHash → Bool
is_stale none previous = false
is_stale (some expected) previous = not (hash_eq expected previous)

-- `patched_text.encode("utf-8")`
abbrev pub encode_patched : Text → Result Bytes
encode_patched t = elim (encode t) [ none ↦ err value_error | some bytes ↦ ok bytes ]

-- The loop that places the files in the clone.
unfoldable pub place_updates : List FileUpdate → Children → Result Children
place_updates [] cs = ok cs
place_updates (u ∷ us) cs = do
  _ ← get_parent cs u.path
  place_updates us (place u.path (file u.content) cs)

module _ (env : Env) where
  -- `self.resolve_path(value, cwd=SandboxPath.root())`
  abbrev pub resolve_path : Text → Result SandboxPath
  resolve_path value =
      resolve value (some root) env.limits.max_path_bytes env.limits.max_segment_bytes

  unfoldable pub check_patch_size : Text → Result (Unit {0})
  check_patch_size t = elim (encode t) [
    | none ↦ err invalid_patch
    | some bytes ↦ raise_if (ltb env.limits.max_patch_bytes (length bytes)) invalid_patch
  ]

  -- A round of the loop over the file patches.
  unfoldable pub file_update : Children → List ExpectedFileHash → FilePatch → Result FileUpdate
  file_update cs es f = do
    node ← get_node cs f.path
    content ← require_file node
    let previous_hash = from_bytes env.sha256 content
    raise_if (is_stale (expected_for f.path es) previous_hash) stale_content
    text ← decode_utf8 content
    patched_text ← apply_file_patch text f
    patched ← encode_patched patched_text
    raise_if (ltb env.limits.max_file_bytes (length patched)) file_size_limit_exceeded
    ok (record {
      path = f.path;
      content = patched;
      previous_hash = previous_hash;
      current_hash = from_bytes env.sha256 patched;
    })

  unfoldable pub file_updates :
      Children → List ExpectedFileHash → List FilePatch → Result (List FileUpdate)
  file_updates cs es [] = ok []
  file_updates cs es (f ∷ fs) = do u ← file_update cs es f; us ← file_updates cs es fs; ok (u ∷ us)
