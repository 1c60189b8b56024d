-- ===== src/Hashing/Below.antt =====
-- A tree that has a hash has one at every node.
use mathlib.Core.Path.{subst}
use mathlib.Core.Option.{some-injective}
use mem_sandbox.Base.{
  Bool-cases, ◌≡◌, refl, sym, ◌∙◌, inl, inr, Option, none, some, List, [], ◌∷◌, arith,
}
use mem_sandbox.Errors.{Result, err, ok, >>=-eq-ok}
use mem_sandbox.Strings.{Text, text_eq}
use mem_sandbox.Utf8.{Bytes}
use mem_sandbox.Models.{ContentHash, NodeKind}
use mem_sandbox.Tree.{Node, file, directory, Children, empty, child, get, try_get_node}
use mem_sandbox.Tree.Places.{try_get_node-child, try_get_node-missing}
use mem_sandbox.Named.{Named}
use mem_sandbox.Hashing.{hash_directory, node_hash, child_hashes}

module _ (sha256 : Bytes → Bytes) where
  abbrev HasHash : Node → Type 0
  HasHash n = (h : ContentHash) × (node_hash sha256 n ≡ ok h)

  child_hashes-cons :
      (k : Text) (n : Node) (cs : Children) (out : Named (NodeKind × ContentHash))
      → child_hashes sha256 (child k n cs) ≡ ok out
      → HasHash n × ((rest : Named (NodeKind × ContentHash)) × (child_hashes sha256 cs ≡ ok rest))
  unfolding node_hash
  child_hashes-cons k n cs out h = go (child_hashes sha256 cs) (node_hash sha256 n) refl refl
    where
      go :
          (r : Result (Named (NodeKind × ContentHash))) (t : Result ContentHash)
          → child_hashes sha256 cs ≡ r
          → node_hash sha256 n ≡ t
          → HasHash n
            × ((rest : Named (NodeKind × ContentHash)) × (child_hashes sha256 cs ≡ ok rest))
      go (ok l) (ok x) e f = ((x, f), (l, e))
      go (ok l) (err x) e f = absurd (ground arith)
      go (err x) t e f = absurd (ground arith)

  HasHash-get :
      (cs : Children) (out : Named (NodeKind × ContentHash)) (s : Text) (n : Node)
      → child_hashes sha256 cs ≡ ok out
      → get s cs ≡ some n
      → HasHash n
  unfolding get
  HasHash-get empty out s n h e = absurd (cc e)
  HasHash-get (child k m cs) out s n h e =
      let (here, (rest, below)) = child_hashes-cons k m cs out h in
      elim (Bool-cases (text_eq k s)) [
        | inl same ↦ subst HasHash (some-injective m n (rw same at e)) here
        | inr other ↦ HasHash-get cs rest s n below (rw other at e)
      ]

  directory-HasHash :
      (cs : Children)
      → HasHash (directory cs)
      → (l : Named (NodeKind × ContentHash)) × (child_hashes sha256 cs ≡ ok l)
  unfolding node_hash
  directory-HasHash cs (h, e) =
      let (l, f, g) = >>=-eq-ok (child_hashes sha256 cs) (hash_directory sha256) e in (l, f)

  -- Every node that a walk finds has a hash.
  pub HasHash-below :
      (ss : List Text) (root n : Node)
      → HasHash root
      → try_get_node root ss ≡ ok (some n)
      → HasHash n
  HasHash-below [] root n h e = unfold try_get_node in subst HasHash (ground arith) h
  HasHash-below (s ∷ ss) (file content) n h e = unfold try_get_node in absurd (cc e)
  HasHash-below (s ∷ ss) (directory cs) n h e = go (get s cs) refl (HasHash-below ss)
    where
      go :
          (o : Option Node)
          → get s cs ≡ o
          → ((m k : Node) → HasHash m → try_get_node m ss ≡ ok (some k) → HasHash k)
          → HasHash n
      go none f ih = absurd (cc (e, try_get_node-missing s ss cs f))
      go (some m) f ih =
          let (l, hashed) = directory-HasHash cs h in
          ih m n (HasHash-get cs l s m hashed f) (sym (try_get_node-child s ss cs m f) ∙ e)
