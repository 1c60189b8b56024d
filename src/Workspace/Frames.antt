-- ===== src/Workspace/Frames.antt =====
-- What the writes of a method leave alone, and what stands at their places.
use mem_sandbox.Base.{
  init, All, All-init, ◌≡◌, sym, ap, ◌∙◌, Bool, false, none, some, List, [], ◌∷◌, ◌++◌, arith,
}
use mem_sandbox.Errors.{ok}
use mem_sandbox.Strings.{Text}
use mem_sandbox.Paths.{SandboxPath, root, is_root, parts, name, parent}
use mem_sandbox.Paths.Render.{IsSegment}
use mem_sandbox.Paths.Canonical.{at}
use mem_sandbox.Paths.Parts.{parts-at, parent-at}
use mem_sandbox.Models.{WorkspaceLimits}
use mem_sandbox.Tree.{
  Node, directory, Children, put, delete, try_get_node, get_node, get_parent, ensure_parent, modify,
  place, discard,
}
use mem_sandbox.Paths.Ancestors.{Diverges}
use mem_sandbox.Tree.Dict.{get-delete_self, get-put_ne, get-delete_ne}
use mem_sandbox.Tree.Places.{
  DirectoryAt, try_get_node-missing, try_get_node-modify, try_get_node-modify_outside,
}
use mem_sandbox.Tree.Parents.{ensure_directories-outside}
use mem_sandbox.Measure.{Env}
use mem_sandbox.State.{State}
use mem_sandbox.Workspace.Writes.{find}
use mem_sandbox.Workspace.Published.{root-state_for_root, parts-eq-snoc}
use mem_sandbox.Workspace.WriteEnds.{Placed}

module _ (p q : SandboxPath) (not_root : is_root p ≡ false)
    (apart : Diverges (parts p) (parts q)) where
  from_snoc : Diverges (init (parts p) ++ name p ∷ []) (parts q)
  from_snoc = rw (parts-eq-snoc p not_root) apart

  pub find-place_outside : (n : Node) (cs : Children) → find (place p n cs) q ≡ find cs q
  unfolding place
  find-place_outside n cs =
      try_get_node-modify_outside (put (name p) n) (name p) (λ j c ne. get-put_ne j (name p) n c ne)
        (init (parts p)) (parts q) cs from_snoc

  pub find-discard_outside : (cs : Children) → find (discard p cs) q ≡ find cs q
  unfolding discard
  find-discard_outside cs =
      try_get_node-modify_outside (delete (name p)) (name p)
        (λ j c ne. get-delete_ne j (name p) c ne) (init (parts p)) (parts q) cs from_snoc

  pub find-ensure_parent :
      (create : Bool) (limits : WorkspaceLimits) (cs out : Children)
      → ensure_parent cs p create limits ≡ ok out
      → find out q ≡ find cs q
  unfolding ensure_parent
  find-ensure_parent create limits cs out e =
      ensure_directories-outside create limits cs root (init (parts p)) (name p) out (parts q) e
        from_snoc

  pub Placed-outside :
      (env : Env) (create : Bool) (n : Node) (s t : State)
      → Placed env p create n s t
      → find t.root q ≡ find s.root q
  Placed-outside env create n s t w = rw (root-state_for_root env _ _ t w.published) (
      find-place_outside n w.ensured
      ∙ find-ensure_parent create env.limits s.root w.ensured w.parents)

get_parent_steps :
    (p q : SandboxPath) (cs d : Children)
    → parent p ≡ ok q
    → get_parent cs p ≡ ok d
    → find cs q ≡ ok (some (directory d))
unfolding get_parent get_node
get_parent_steps p q cs d e h = ground arith

-- The walk to a path's parent ends at a directory if `_get_parent` found one.
pub get_parent-DirectoryAt :
    (p : SandboxPath) (cs d : Children)
    → (ss : List Text) × All IsSegment ss × (p ≡ at ss)
    → get_parent cs p ≡ ok d
    → DirectoryAt (init (parts p)) cs d
get_parent-DirectoryAt p cs d (ss, a, e) h =
    rw (e, parts-at ss a)
      (rw (← parts-at (init ss) (All-init IsSegment ss a))
        (get_parent_steps (at ss) (at (init ss)) cs d (parent-at ss a) (rw e at h)))

-- Where an entry was deleted nothing is found.
pub find-discard :
    (p : SandboxPath) (cs d : Children)
    → is_root p ≡ false
    → DirectoryAt (init (parts p)) cs d
    → find (discard p cs) p ≡ ok none
unfolding discard
find-discard p cs d h at =
    ap (try_get_node (directory (modify (init (parts p)) (delete (name p)) cs)))
      (sym (parts-eq-snoc p h))
    ∙ try_get_node-modify (init (parts p)) (name p ∷ []) (delete (name p)) cs d at
    ∙ try_get_node-missing (name p) [] (delete (name p) d) (get-delete_self (name p) d)
