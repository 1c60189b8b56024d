-- ===== src/Hashing.antt =====
-- src/mem_sandbox/workspace/hashing.py, and `_node_hash` of memory.py.
-- The digest of `hashlib.sha256` is a parameter: a function from bytes to bytes.
pub mod Below
use mem_sandbox.Base.{ltb, if◌then◌else◌, length, ℕ, ◌/◌, ◌%◌, Option, none, some, [], ◌∷◌, ◌++◌}
use mem_sandbox.Errors.{value_error, overflow_error, Result, err, ok, ◌>>=◌, ◌>>◌}
use mem_sandbox.Strings.{Text, codes}
use mem_sandbox.Utf8.{Bytes, encode}
use mem_sandbox.Models.{ContentHash, NodeKind, file_kind, directory_kind}
use mem_sandbox.Tree.{Node, file, directory, Children, empty, child}
use mem_sandbox.Named.{Named, sort_named}

abbrev pub node_kind : Node → NodeKind
node_kind (file content) = file_kind
node_kind (directory cs) = directory_kind

abbrev pub kind_byte : NodeKind → Bytes
kind_byte file_kind = b'F' ∷ []
kind_byte directory_kind = b'D' ∷ []

-- `n.to_bytes(4, "big")`, which raises `OverflowError` past 2^32.
abbrev pub to_bytes_4 : ℕ → Result Bytes
to_bytes_4 n =
    if ltb n 0x1_0000_0000
    then ok ((n / 0x100_0000) ∷ (n / 0x1_0000 % 256) ∷ (n / 256 % 256) ∷ (n % 256) ∷ [])
    else err overflow_error

-- `name.encode("utf-8")`; `UnicodeEncodeError` is a `ValueError`.
abbrev pub encode_name : Text → Result Bytes
encode_name t = elim (encode t) [ none ↦ err value_error | some b ↦ ok b ]

-- What `hash_directory` feeds the digest for its children, in order.
unfoldable pub directory_bytes : Named (NodeKind × ContentHash) → Result Bytes
directory_bytes [] = ok []
directory_bytes ((k, (kind, h)) ∷ l) = do
  name_bytes ← encode_name k
  size ← to_bytes_4 (length name_bytes)
  rest ← directory_bytes l
  ok (kind_byte kind ++ (size ++ (name_bytes ++ (h.digest ++ rest))))

module _ (sha256 : Bytes → Bytes) where
  -- `ContentHash.from_bytes`
  abbrev pub from_bytes : Bytes → ContentHash
  from_bytes content = record { digest = sha256 content }

  unfoldable pub hash_directory : Named (NodeKind × ContentHash) → Result ContentHash
  hash_directory children = do
    fed ← directory_bytes (sort_named children)
    ok (from_bytes (codes "mem-sandbox-directory-v1" ++ (0 ∷ fed)))

  unfoldable mutual
    -- `_node_hash`. The stack of the source reaches the last child first.
    pub node_hash : Node → Result ContentHash
    node_hash (file content) = ok (from_bytes content)
    node_hash (directory cs) = do hashes ← child_hashes cs; hash_directory hashes

    pub child_hashes : Children → Result (Named (NodeKind × ContentHash))
    child_hashes empty = ok []
    child_hashes (child k n cs) = do
      rest ← child_hashes cs
      h ← node_hash n
      ok ((k, (node_kind n, h)) ∷ rest)

  -- `_node_hash(existing) if existing is not None else None`
  unfoldable pub hash_of : Option Node → Result (Option ContentHash)
  hash_of none = ok none
  hash_of (some node) = do h ← node_hash node; ok (some h)
