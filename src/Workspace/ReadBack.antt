-- ===== src/Workspace/ReadBack.antt =====
-- A read right after a write: the bytes and the text written.
use mem_sandbox.Workspace.Op.{Op, lift, ◌>>=◌, Ends-result}
use mem_sandbox.Base.{◌≡◌, refl, sym, ap, some}
use mem_sandbox.Errors.{Result, err, ok}
use mem_sandbox.Strings.{Text}
use mem_sandbox.Utf8.{Bytes, encode, decode}
use mem_sandbox.Models.{WorkspaceWriteRequest, WorkspaceMutation}
use mem_sandbox.Tree.{Node, file, get_node}
use mem_sandbox.Hashing.{from_bytes}
use mem_sandbox.Measure.{Env}
use mem_sandbox.State.{State, validate_path}
use mem_sandbox.Utf8.Roundtrip.{decode-encode}
use mem_sandbox.Workspace.Contents.{find-write}
use mem_sandbox.Workspace.Reads.{decode_utf8, read_bytes, read_text}
use mem_sandbox.Workspace.WriteEnds.{write-Ends}
use mem_sandbox.Workspace.Writes.{find, write}

-- An action that begins with a call returned only if the call did.
lift-returned :
    {A B : Type 0} (r : Result A) (f : A → Op B) (s : State) (b : B)
    → ((lift r >>= f) s).0 ≡ ok b
    → (a : A) × (r ≡ ok a)
unfolding ◌>>=◌
lift-returned (ok a) f s b h = (a, refl)
lift-returned (err e) f s b h = absurd (cc h)

decode_utf8-of : (b : Bytes) (t : Text) → decode b ≡ some t → decode_utf8 b ≡ ok t
unfolding decode_utf8
decode_utf8-of b t h = rw (h, decode_utf8) refl

module _ (env : Env) (s : State) (a : WorkspaceMutation) (r : WorkspaceWriteRequest) where
  write-validated : (write env r s).0 ≡ ok a → validate_path env r.path ≡ ok tt
  unfolding write
  write-validated h = (lift-returned (validate_path env r.path) _ s a h).1

  found-get_node :
      (t : State) (n : Node) → find t.root r.path ≡ ok (some n) → get_node t.root r.path ≡ ok n
  unfolding get_node
  found-get_node t n h = rw h refl

  write-stats : (write env r s).0 ≡ ok a → (write env r s).1.stats ≡ a.stats
  write-stats h =
      sym
        (ap (λ (m : WorkspaceMutation). m.stats) (Ends-result a (write-Ends env r s) h).put.result)

  -- Reading the bytes of a path right after a write to it that returned gives the bytes written,
  -- their hash, and the revision that the write returned.
  pub read_bytes-write :
      (write env r s).0 ≡ ok a
      → read_bytes env r.path (write env r s).1
        ≡ ok (record {
          path = r.path;
          content = r.content;
          content_hash = from_bytes env.sha256 r.content;
          revision = a.stats.revision;
        })
  unfolding read_bytes
  read_bytes-write h =
      rw
        (
          write-validated h,
          found-get_node (write env r s).1 (file r.content) (find-write env s a r h).0,
          write-stats h,
        )
        refl

  -- Reading the text of a path right after a write of an encoded text that returned gives that text.
  pub read_text-write :
      (t : Text)
      → encode t ≡ some r.content
      → (write env r s).0 ≡ ok a
      → read_text env r.path (write env r s).1
        ≡ ok (record {
          path = r.path;
          content = t;
          content_hash = from_bytes env.sha256 r.content;
          revision = a.stats.revision;
        })
  unfolding read_text
  read_text-write t e h =
      rw
        (
          write-validated h,
          found-get_node (write env r s).1 (file r.content) (find-write env s a r h).0,
          decode_utf8-of r.content t (decode-encode t r.content e),
          write-stats h,
        )
        refl
