-- ===== src/Workspace/Contents.antt =====
-- What the workspace holds after each method: the node at the path, and the nodes elsewhere.
use mem_sandbox.Workspace.Op.{Ends-result}
use mem_sandbox.Base.{
  length, ◌≤◌, ◌≡◌, refl, ◌⊎◌, inl, inr, true, false, Option, none, some, [], ◌++◌,
}
use mem_sandbox.Errors.{ok}
use mem_sandbox.Utf8.{Bytes}
use mem_sandbox.Paths.{SandboxPath, is_root, parts}
use mem_sandbox.Models.{
  ContentHash, WritePrecondition, MakeDirectoryRequest, WorkspaceWriteRequest, WorkspaceMutation,
}
use mem_sandbox.Tree.{Node, file, directory, empty}
use mem_sandbox.Paths.Ancestors.{Diverges}
use mem_sandbox.Measure.{Env}
use mem_sandbox.State.{State}
use mem_sandbox.Workspace.Writes.{find, previous_content, check_precondition, mkdir, write, append}
use mem_sandbox.Workspace.WriteEnds.{write-Ends, append-Ends}
use mem_sandbox.Workspace.PathEnds.{absent-not_root, Placed-find, mkdir-Ends}
use mem_sandbox.Workspace.Frames.{Placed-outside}

-- The bytes that a file at the path holds, or none if nothing is at the path.
abbrev pub Earlier : State → SandboxPath → Bytes → Type 0
Earlier s p old = (find s.root p ≡ ok (some (file old))) ⊎ ((find s.root p ≡ ok none) × (old ≡ []))

previous-Earlier :
    (env : Env) (s : State) (p : SandboxPath) (existing : Option Node)
    (condition : WritePrecondition) (previous : Option ContentHash)
    → find s.root p ≡ ok existing
    → check_precondition env existing condition ≡ ok previous
    → Earlier s p (previous_content existing)
unfolding check_precondition
previous-Earlier env s p none condition previous looked checked = inr (looked, refl)
previous-Earlier env s p (some (file content)) condition previous looked checked = inl looked
previous-Earlier env s p (some (directory cs)) condition previous looked checked =
    absurd (cc checked)

module _ (env : Env) (s : State) (a : WorkspaceMutation) where
  -- After a write that returned, the path holds a file of exactly the bytes written, and every path
  -- that neither contains it nor lies below it holds what it held.
  pub find-write :
      (r : WorkspaceWriteRequest)
      → (write env r s).0 ≡ ok a
      → (find (write env r s).1.root r.path ≡ ok (some (file r.content)))
        × ((q : SandboxPath)
            → Diverges (parts r.path) (parts q)
            → find (write env r s).1.root q ≡ find s.root q)
  find-write r h =
      let w = Ends-result a (write-Ends env r s) h in
      (
        Placed-find env r.path r.create_parents (file r.content) s _ w.put.not_root w.put.placed,
        λ q apart.
            Placed-outside r.path q w.put.not_root apart env r.create_parents (file r.content) s _
              w.put.placed,
      )

  -- After an append that returned, the path holds the bytes that the file held before, none if
  -- nothing was there, and then the bytes appended; the whole keeps the limit on files, and every
  -- path that neither contains it nor lies below it holds what it held.
  pub find-append :
      (r : WorkspaceWriteRequest)
      → (append env r s).0 ≡ ok a
      → (old : Bytes) × Earlier s r.path old
        × (find (append env r s).1.root r.path ≡ ok (some (file (old ++ r.content))))
        × (length (old ++ r.content) ≤ env.limits.max_file_bytes)
        × ((q : SandboxPath)
            → Diverges (parts r.path) (parts q)
            → find (append env r s).1.root q ≡ find s.root q)
  find-append r h =
      let w = Ends-result a (append-Ends env r s) h in
      (
        previous_content w.existing,
        previous-Earlier env s r.path w.existing r.precondition w.put.previous w.put.looked
            w.put.checked,
        Placed-find env r.path r.create_parents _ s _ w.put.not_root w.put.placed,
        w.fits,
        λ q apart.
            Placed-outside r.path q w.put.not_root apart env r.create_parents _ s _ w.put.placed,
      )

  -- After a mkdir that returned and reported a change, the path holds an empty directory where there
  -- was nothing, and every path that neither contains it nor lies below it holds what it held.
  pub find-mkdir :
      (r : MakeDirectoryRequest)
      → (mkdir env r s).0 ≡ ok a
      → a.changed ≡ true
      → (find s.root r.path ≡ ok none)
        × (find (mkdir env r s).1.root r.path ≡ ok (some (directory empty)))
        × ((q : SandboxPath)
            → Diverges (parts r.path) (parts q)
            → find (mkdir env r s).1.root q ≡ find s.root q)
  find-mkdir r h changed = elim (Ends-result a (mkdir-Ends env r s) h) [
    | inl k ↦ absurd (cc (k.says, changed))
    | inr w ↦
        let not_root : is_root r.path ≡ false = absent-not_root s.root r.path w.absent in
        (
          w.absent,
          Placed-find env r.path r.create_parents (directory empty) s _ not_root w.placed,
          λ q apart.
              Placed-outside r.path q not_root apart env r.create_parents (directory empty) s _
                w.placed,
        )
  ]
