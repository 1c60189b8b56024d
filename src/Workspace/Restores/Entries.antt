-- ===== src/Workspace/Restores/Entries.antt =====
-- What the tree holds that `_root_from_entries` makes.
use mem_sandbox.Base.{
  Bool-cases, All, ◌≡◌, refl, sym, ap, ◌∙◌, inl, inr, true, false, some, List, [], ◌∷◌,
}
use mem_sandbox.Errors.{ok, >>=-eq-ok}
use mem_sandbox.Utf8.{Bytes}
use mem_sandbox.Paths.{SandboxPath, is_root, parts}
use mem_sandbox.Models.{file_kind}
use mem_sandbox.Tree.{Node, file, Children, empty, get_parent, place}
use mem_sandbox.Paths.Ancestors.{Diverges}
use mem_sandbox.Workspace.Writes.{find}
use mem_sandbox.Workspace.Published.{find-place}
use mem_sandbox.Workspace.Frames.{find-place_outside, get_parent-DirectoryAt}
use mem_sandbox.Workspace.Patches.Apart.{IsMade}
use mem_sandbox.Workspace.Restores.{SnapshotEntry, entry_node, add_entries, root_from_entries}

-- The paths of all entries lie apart from this one.
abbrev pub EntriesApart : SandboxPath → List SnapshotEntry → Type 0
EntriesApart p es = All (λ (e : SnapshotEntry). Diverges (parts e.path) (parts p)) es

-- A file of these bytes at a canonical path below the root.
pub record IsFile (e : SnapshotEntry) (content : Bytes) : Type 0 where
  pub made : IsMade e.path
  pub not_root : is_root e.path ≡ false
  pub kind : e.kind ≡ file_kind
  pub holds : e.content ≡ some content

-- Every file is at its path with its bytes, if the paths of the entries behind it lie apart from it.
unfoldable pub HoldsFiles : Children → List SnapshotEntry → Type 0
HoldsFiles cs [] = Unit
HoldsFiles cs (e ∷ es) =
    ((content : Bytes)
      → IsFile e content
      → EntriesApart e.path es
      → find cs e.path ≡ ok (some (file content)))
    × HoldsFiles cs es

Diverges-not_root : (p q : SandboxPath) → Diverges (parts p) (parts q) → is_root p ≡ false
Diverges-not_root p q h = elim (Bool-cases (is_root p)) [
  | inr e ↦ e
  | inl e ↦ absurd (root_diverges e)
]
  where
    none_root : is_root p ≡ true → parts p ≡ []
    none_root e = unfold parts in rw (e) refl

    root_diverges : is_root p ≡ true → ⊥
    root_diverges e = rw (none_root e) at h

entry_node-file :
    (e : SnapshotEntry) (content : Bytes) (n : Node)
    → IsFile e content
    → entry_node e ≡ ok n
    → n ≡ file content
unfolding entry_node
entry_node-file e content n f h = cc (rw (f.kind, f.holds) at h)

-- What lies apart from all entries stays.
add_entries-outside :
    (q : SandboxPath) (es : List SnapshotEntry) (cs out : Children)
    → EntriesApart q es
    → add_entries es cs ≡ ok out
    → find out q ≡ find cs q
unfolding add_entries
add_entries-outside q [] cs out a h = ap (λ c. find c q) (sym (cc h))
add_entries-outside q (e ∷ es) cs out (apart, a) h =
    let (_, _, h1) = >>=-eq-ok (get_parent cs e.path) _ h in
    let (node, _, h2) = >>=-eq-ok (entry_node e) _ h1 in
    add_entries-outside q es (place e.path node cs) out a h2
    ∙ find-place_outside e.path q (Diverges-not_root e.path q apart) apart node cs

add_entries-HoldsFiles :
    (es : List SnapshotEntry) (cs out : Children) → add_entries es cs ≡ ok out → HoldsFiles out es
unfolding add_entries HoldsFiles
add_entries-HoldsFiles [] cs out h = tt
add_entries-HoldsFiles (e ∷ es) cs out h =
    let (d, up, h1) = >>=-eq-ok (get_parent cs e.path) _ h in
    let (node, makes, h2) = >>=-eq-ok (entry_node e) _ h1 in
    (
      λ content f apart.
          add_entries-outside e.path es (place e.path node cs) out apart h2
          ∙ find-place e.path node cs d f.not_root (get_parent-DirectoryAt e.path cs d f.made up)
          ∙ ap (λ n. ok (some n)) (entry_node-file e content node f makes),
      add_entries-HoldsFiles es (place e.path node cs) out h2,
    )

-- The tree of entries has their files, and nothing apart from them.
pub record IsTreeOf (es : List SnapshotEntry) (cs : Children) : Type 0 where
  pub files : HoldsFiles cs es
  pub nothing_else : (q : SandboxPath) → EntriesApart q es → find cs q ≡ find empty q

pub root_from_entries-IsTreeOf :
    (es : List SnapshotEntry) (cs : Children) → root_from_entries es ≡ ok cs → IsTreeOf es cs
root_from_entries-IsTreeOf es cs h = record {
  files = add_entries-HoldsFiles es empty cs h;
  nothing_else = λ q a. add_entries-outside q es empty cs a h;
}
