-- ===== src/Workspace/Moves.antt =====
-- What the workspace holds after a removal, a copy or a move.
use mem_sandbox.Workspace.Op.{Ends-result}
use mem_sandbox.Base.{
  All, ◌≡◌, refl, sym, ap, ◌∙◌, ◌⊎◌, inl, inr, Bool, true, false, not, ◌&&◌, Option, none, some,
  List, arith,
}
use mem_sandbox.Errors.{ok}
use mem_sandbox.Strings.{Text}
use mem_sandbox.Paths.{SandboxPath, construct, parts}
use mem_sandbox.Paths.Render.{IsSegment}
use mem_sandbox.Paths.Canonical.{at, construct-render}
use mem_sandbox.Models.{RemovePathRequest, TransferRequest, WorkspaceMutation}
use mem_sandbox.Tree.{Node, directory, Children, empty, child, get_node, discard}
use mem_sandbox.Paths.Ancestors.{Diverges, Diverges-sym}
use mem_sandbox.Measure.{Env}
use mem_sandbox.State.{State}
use mem_sandbox.Workspace.Writes.{find, is_some, is_guarded, remove}
use mem_sandbox.Workspace.Transfers.{copy, move}
use mem_sandbox.Workspace.Published.{root-state_for_root}
use mem_sandbox.Workspace.PathEnds.{Kept, Removed, Placed-find, remove-Ends}
use mem_sandbox.Workspace.TransferEnds.{moved-found, copy-Ends, move-Ends}
use mem_sandbox.Workspace.Frames.{
  find-place_outside, find-discard_outside, find-ensure_parent, Placed-outside,
  get_parent-DirectoryAt, find-discard,
}

-- The source of a transfer that read it is there.
get_node-find :
    (cs : Children) (p : SandboxPath) (n : Node) → get_node cs p ≡ ok n → find cs p ≡ ok (some n)
unfolding get_node
get_node-find cs p n h = ground arith

same_found : (n m : Node) → ok (some n) ≡ ok (some m) → n ≡ m
same_found n m h = cc h

raised_if_guarded : (b c : Bool) → (b && not c) ≡ false → c ≡ false → b ≡ false
raised_if_guarded b c h e = ground arith

unguarded :
    (cs : Children) (recursive : Bool)
    → is_guarded (directory cs) recursive ≡ false
    → (cs ≡ empty) ⊎ (recursive ≡ true)
unguarded empty recursive h = inl refl
unguarded (child k n cs) true h = inr refl
unguarded (child k n cs) false h = absurd (cc h)

is_some-none : (o : Option Node) → is_some o ≡ false → o ≡ none
is_some-none none h = refl
is_some-none (some n) h = absurd (cc h)

module _ (env : Env) (s : State) (a : WorkspaceMutation) where
  -- After a removal of a canonical path that returned, nothing is at the path, and every path
  -- that neither contains it nor lies below it holds what it held. A directory that was there had
  -- no entries unless the request was recursive, and something was there unless the request
  -- allowed that it is missing.
  pub find-remove :
      (r : RemovePathRequest)
      → (ss : List Text) × All IsSegment ss × (r.path ≡ at ss)
      → (remove env r s).0 ≡ ok a
      → (find (remove env r s).1.root r.path ≡ ok none)
        × ((q : SandboxPath)
            → Diverges (parts r.path) (parts q)
            → find (remove env r s).1.root q ≡ find s.root q)
        × ((cs : Children)
            → find s.root r.path ≡ ok (some (directory cs))
            → (cs ≡ empty) ⊎ (r.recursive ≡ true))
        × (find s.root r.path ≡ ok none → r.missing_ok ≡ true)
  find-remove r c h = go (Ends-result a (remove-Ends env r s) h)
    where
      go :
          (Kept s a (remove env r s).1 × (find s.root r.path ≡ ok none) × (r.missing_ok ≡ true))
            ⊎ Removed env r s a (remove env r s).1
          → (find (remove env r s).1.root r.path ≡ ok none)
            × ((q : SandboxPath)
                → Diverges (parts r.path) (parts q)
                → find (remove env r s).1.root q ≡ find s.root q)
            × ((cs : Children)
                → find s.root r.path ≡ ok (some (directory cs))
                → (cs ≡ empty) ⊎ (r.recursive ≡ true))
            × (find s.root r.path ≡ ok none → r.missing_ok ≡ true)
      go (inl (k, absent, missing_ok)) = (
        ap (λ u. find u.root r.path) k.state ∙ absent,
        λ q apart. ap (λ u. find u.root q) k.state,
        λ cs at. absurd (cc (at, absent)),
        λ none_there. missing_ok,
      )
      go (inr w) = (
        rw (root-state_for_root env _ _ _ w.published) (
            find-discard r.path s.root w.parent w.not_root
              (get_parent-DirectoryAt r.path s.root w.parent c w.parents)),
        λ q apart.
            rw (root-state_for_root env _ _ _ w.published)
              (find-discard_outside r.path q w.not_root apart s.root),
        λ cs at. unguarded cs r.recursive (
            ap (λ m. is_guarded m r.recursive)
              (same_found (directory cs) w.existing (sym at ∙ w.looked))
            ∙ w.allowed),
        λ none_there. absurd (cc (none_there, w.looked)),
      )

  -- After a copy between paths built by the constructor, if it returned, source and destination both
  -- hold the node that the source held, and every path that neither contains the destination nor lies below it holds what it held. The
  -- destination was free unless the request allowed to overwrite.
  pub find-copy :
      (r : TransferRequest)
      → construct r.source.value ≡ ok r.source
      → construct r.destination.value ≡ ok r.destination
      → (copy env r s).0 ≡ ok a
      → (n : Node) × (find s.root r.source ≡ ok (some n))
        × (find (copy env r s).1.root r.source ≡ ok (some n))
        × (find (copy env r s).1.root r.destination ≡ ok (some n))
        × ((q : SandboxPath)
            → Diverges (parts r.destination) (parts q)
            → find (copy env r s).1.root q ≡ find s.root q)
        × (r.overwrite ≡ false → find s.root r.destination ≡ ok none)
  find-copy r b c h =
      let w = Ends-result a (copy-Ends env r s b c) h in
      let from : find s.root r.source ≡ ok (some w.node) =
        get_node-find s.root r.source w.node w.looked in
      let frame : (q : SandboxPath)
          → Diverges (parts r.destination) (parts q)
          → find (copy env r s).1.root q ≡ find s.root q =
        λ q apart.
          Placed-outside r.destination q w.apart.destination_not_root apart env r.create_parents
            w.node s _ w.placed in
      (
        w.node,
        from,
        frame r.source (Diverges-sym (parts r.source) (parts r.destination) w.apart.diverges)
            ∙ from,
        Placed-find env r.destination r.create_parents w.node s _ w.apart.destination_not_root
            w.placed,
        frame,
        λ e.
            w.target
            ∙ ap ok (is_some-none w.existing (raised_if_guarded _ r.overwrite w.allowed e)),
      )

  -- After a move from a canonical path to a path built by the constructor, if it returned, the
  -- destination holds the node that the source held and nothing is at the source. Every path that
  -- neither contains one of the two nor lies below one holds what it held. The destination was free
  -- unless the request allowed to overwrite.
  pub find-move :
      (r : TransferRequest)
      → (ss : List Text) × All IsSegment ss × (r.source ≡ at ss)
      → construct r.destination.value ≡ ok r.destination
      → (move env r s).0 ≡ ok a
      → (n : Node) × (find s.root r.source ≡ ok (some n))
        × (find (move env r s).1.root r.destination ≡ ok (some n))
        × (find (move env r s).1.root r.source ≡ ok none)
        × ((q : SandboxPath)
            → Diverges (parts r.source) (parts q)
            → Diverges (parts r.destination) (parts q)
            → find (move env r s).1.root q ≡ find s.root q)
        × (r.overwrite ≡ false → find s.root r.destination ≡ ok none)
  find-move r (ss, all, e) c h =
      let w = Ends-result a (move-Ends env r s (rw e (construct-render ss all)) c) h in
      let apart_source : Diverges (parts r.destination) (parts r.source) =
        Diverges-sym (parts r.source) (parts r.destination) w.apart.diverges in
      (
        w.node,
        get_node-find s.root r.source w.node w.looked,
        rw (root-state_for_root env _ _ _ w.published) (
            moved-found env r.source r.destination r.create_parents w.node s w.ensured w.apart
              w.parents),
        rw (root-state_for_root env _ _ _ w.published) (
            find-place_outside r.destination r.source w.apart.destination_not_root apart_source
              w.node (discard r.source w.ensured)
            ∙ find-discard r.source w.ensured w.parent w.apart.source_not_root
                (get_parent-DirectoryAt r.source w.ensured w.parent (ss, all, e) w.source_parent)),
        λ q p d. rw (root-state_for_root env _ _ _ w.published) (
            find-place_outside r.destination q w.apart.destination_not_root d w.node
              (discard r.source w.ensured)
            ∙ find-discard_outside r.source q w.apart.source_not_root p w.ensured
            ∙ find-ensure_parent r.destination q w.apart.destination_not_root d r.create_parents
                env.limits s.root w.ensured w.parents),
        λ e.
            w.target
            ∙ ap ok (is_some-none w.existing (raised_if_guarded _ r.overwrite w.allowed e)),
      )
