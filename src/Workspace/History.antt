-- ===== src/Workspace/History.antt =====
-- Requests to the workspace one after another: what each leaves, and what all of them keep.
use mathlib.Core.Path.{subst}
use mem_sandbox.Paths
use mem_sandbox.Workspace.Op.{
  Op, Ends, raised, returned, Ends-weaken, Ends-raise_unchanged, Ends-result,
}
use mem_sandbox.Base.{
  if◌then◌else◌, length, All, ℕ, ◌+◌, ◌≤◌, ◌≡◌, sym, ap, ◌∙◌, inl, inr, true, false, List, [], ◌∷◌,
  arith,
}
use mem_sandbox.Errors.{Error, Result, err, ok}
use mem_sandbox.Paths.{construct, root}
use mem_sandbox.Models.{
  MakeDirectoryRequest, WorkspaceWriteRequest, RemovePathRequest, TransferRequest,
  WorkspaceMutation,
}
use mem_sandbox.Tree.{directory, Children, empty}
use mem_sandbox.Hashing.{node_hash}
use mem_sandbox.Measure.{Env}
use mem_sandbox.State.{State, state_for_root}
use mem_sandbox.Workspace.Writes.{mkdir, write, append, remove}
use mem_sandbox.Workspace.Transfers.{copy, move}
use mem_sandbox.Workspace.Published.{IsMeasured, state_for_root-eq-ok}
use mem_sandbox.Workspace.WriteEnds.{write-Ends, append-Ends}
use mem_sandbox.Workspace.PathEnds.{Kept, mkdir-Ends, remove-Ends}
use mem_sandbox.Workspace.TransferEnds.{copy-Ends, move-Ends}
use mem_sandbox.Measure.Counts.{measure-directory}
use mem_sandbox.Measure.Hash.{measure-hash}

-- The mutating methods with their requests.
pub data Request : Type 0 where
  mkdir_request : MakeDirectoryRequest → Request
  write_request append_request : WorkspaceWriteRequest → Request
  remove_request : RemovePathRequest → Request
  copy_request move_request : TransferRequest → Request

unfoldable pub run : Env → Request → Op WorkspaceMutation
run env (mkdir_request r) = mkdir env r
run env (write_request r) = write env r
run env (append_request r) = append env r
run env (remove_request r) = remove env r
run env (copy_request r) = copy env r
run env (move_request r) = move env r

-- The constructor of `SandboxPath` accepts the paths of a transfer.
abbrev pub IsBuilt : Request → Type 0
IsBuilt (copy_request r) =
    (construct r.source.value ≡ ok r.source) × (construct r.destination.value ≡ ok r.destination)
IsBuilt (move_request r) =
    (construct r.source.value ≡ ok r.source) × (construct r.destination.value ≡ ok r.destination)
IsBuilt q = Unit

-- A method that returned kept the state, or it published a tree under the next revision.
pub data Settled (env : Env) (s : State) (a : WorkspaceMutation) (t : State) : Type 0 where
  unmoved : a.changed ≡ false → t ≡ s → a.stats ≡ t.stats → Settled env s a t
  advanced :
      (cs : Children)
      → state_for_root env cs (s.stats.revision + 1) ≡ ok t
      → a.changed ≡ true
      → a.stats ≡ t.stats
      → Settled env s a t

module _ (env : Env) (s : State) where
  Kept-Settled : (a : WorkspaceMutation) (t : State) → Kept s a t → Settled env s a t
  Kept-Settled a t k = unmoved k.says k.state (k.stats ∙ ap (λ (u : State). u.stats) (sym k.state))

  pub run-Ends : (q : Request) → IsBuilt q → Ends (run env q) s (Settled env s)
  unfolding run
  run-Ends (mkdir_request r) b =
      Ends-weaken
        (λ a t w. elim w [
          | inl k ↦ Kept-Settled a t k
          | inr m ↦ advanced _ m.placed.published m.says m.stats
        ])
        (mkdir-Ends env r s)
  run-Ends (write_request r) b =
      Ends-weaken
        (λ a t w.
          advanced _ w.put.placed.published (ap (λ (m : WorkspaceMutation). m.changed) w.put.result)
            (ap (λ (m : WorkspaceMutation). m.stats) w.put.result))
        (write-Ends env r s)
  run-Ends (append_request r) b =
      Ends-weaken
        (λ a t w.
          advanced _ w.put.placed.published (ap (λ (m : WorkspaceMutation). m.changed) w.put.result)
            (ap (λ (m : WorkspaceMutation). m.stats) w.put.result))
        (append-Ends env r s)
  run-Ends (remove_request r) b =
      Ends-weaken
        (λ a t w. elim w [
          | inl k ↦ Kept-Settled a t k.0
          | inr m ↦ advanced _ m.published m.says m.stats
        ])
        (remove-Ends env r s)
  run-Ends (copy_request r) (b, c) =
      Ends-weaken (λ a t w. advanced _ w.placed.published w.says w.stats) (copy-Ends env r s b c)
  run-Ends (move_request r) (b, c) =
      Ends-weaken (λ a t w. advanced _ w.published w.says w.stats) (move-Ends env r s b c)

-- A mutating request that raises, whatever the error, leaves the state as it was. The paths of a copy
-- or a move are built by the constructor.
pub run-raise_unchanged :
    (env : Env) (q : Request) (s : State) (e : Error)
    → IsBuilt q
    → (run env q s).0 ≡ err e
    → (run env q s).1 ≡ s
run-raise_unchanged env q s e b h = Ends-raise_unchanged e (run-Ends env s q b) h

-- A published state is measured, and its revision is the one that it was published under.
pub published-IsMeasured :
    (env : Env) (cs : Children) (revision : ℕ) (t : State)
    → state_for_root env cs revision ≡ ok t
    → IsMeasured env t × (t.stats.revision ≡ revision)
published-IsMeasured env cs revision t h =
    let (m, measures, bytes, nodes, e) = state_for_root-eq-ok env cs revision t h in
    (
      record {
        measured = m;
        measures = rw e measures;
        bytes = rw e;
        nodes = rw e;
        hash = rw e;
        bytes_fit = bytes;
        nodes_fit = nodes;
        all_bytes = rw e (measure-directory env cs Paths.root m measures).0;
        all_nodes = rw e (measure-directory env cs Paths.root m measures).1;
      },
      rw e,
    )

-- A mutating request that returns, the paths of a copy or a move being built by the constructor, moves
-- the revision on by one if it reports a change; if it reports none the state is as it was. The statistics that it returns are those of the state that it leaves.
pub run-revision :
    (env : Env) (q : Request) (s : State) (a : WorkspaceMutation)
    → IsBuilt q
    → (run env q s).0 ≡ ok a
    → ((run env q s).1.stats ≡ a.stats)
      × (a.stats.revision ≡ (if a.changed then s.stats.revision + 1 else s.stats.revision))
      × (a.changed ≡ false → (run env q s).1 ≡ s)
run-revision env q s a b h = elim (Ends-result a (run-Ends env s q b) h) [
  | unmoved says same stats ↦
      (sym stats, rw (says, stats) (ap (λ (u : State). u.stats.revision) same), λ _. same)
  | advanced cs published says stats ↦ (
    sym stats,
    rw (says, stats) (published-IsMeasured env cs _ _ published).1,
    λ none. absurd (cc (says, none)),
  )
]

Settled-IsMeasured :
    (env : Env) (s : State) (a : WorkspaceMutation) (t : State)
    → IsMeasured env s
    → Settled env s a t
    → IsMeasured env t × (t.stats.revision ≤ s.stats.revision + 1)
Settled-IsMeasured env s a t m (unmoved says same stats) =
    (subst (IsMeasured env) (sym same) m, rw same (omega arith))
Settled-IsMeasured env s a t m (advanced cs published says stats) =
    let (new, e) = published-IsMeasured env cs _ t published in (new, omega arith)

-- One request: the state stays measured, and its revision grows by one at most.
run_step :
    (env : Env) (q : Request) (s : State)
    → IsBuilt q
    → IsMeasured env s
    → IsMeasured env (run env q s).1 × ((run env q s).1.stats.revision ≤ s.stats.revision + 1)
run_step env q s b m = go (run-Ends env s q b)
  where
    go :
        Ends (run env q) s (Settled env s)
        → IsMeasured env (run env q s).1 × ((run env q s).1.stats.revision ≤ s.stats.revision + 1)
    go (raised e h) = rw h (m, omega arith)
    go (returned a t h w) = rw h (Settled-IsMeasured env s a t m w)

-- Requests in turn; an error ends only its own request.
unfoldable pub run_all : Env → List Request → State → State
run_all env [] s = s
run_all env (q ∷ qs) s = run_all env qs (run env q s).1

-- The state of a new workspace, from the constructor of `MemoryWorkspace`.
unfoldable pub initial : Env → Result State
initial env = state_for_root env empty 0

run_all_steps :
    (env : Env) (qs : List Request) (s : State)
    → All IsBuilt qs
    → IsMeasured env s
    → IsMeasured env (run_all env qs s)
      × ((run_all env qs s).stats.revision ≤ s.stats.revision + length qs)
unfolding run_all
run_all_steps env [] s b m = (m, omega arith)
run_all_steps env (q ∷ qs) s (b, bs) m =
    let (m', l) = run_step env q s b m in
    let (m'', l') = run_all_steps env qs (run env q s).1 bs m' in (m'', omega arith)

-- From a new workspace, after any mutating requests whose transfers have paths built by the
-- constructor, and whichever of them raise: the count of nodes is the number of all files and
-- directories of the tree, the root included, the count of bytes is the sum over its files, both
-- keep the limits, the root hash is the one measured, and the revision is at most the number of
-- requests.
pub run_all-IsMeasured :
    (env : Env) (qs : List Request) (s : State)
    → All IsBuilt qs
    → initial env ≡ ok s
    → IsMeasured env (run_all env qs s) × ((run_all env qs s).stats.revision ≤ length qs)
unfolding initial
run_all-IsMeasured env qs s b h =
    let (m, e) = published-IsMeasured env empty 0 s h in
    let (m', l) = run_all_steps env qs s b m in (m', omega arith)

-- From a new workspace, after any mutating requests whose transfers have paths built by the
-- constructor, the root hash of the statistics is the one that
-- `_node_hash` computes afresh from the whole tree.
pub run_all-root_hash :
    (env : Env) (qs : List Request) (s : State)
    → All IsBuilt qs
    → initial env ≡ ok s
    → node_hash env.sha256 (directory (run_all env qs s).root)
      ≡ ok (run_all env qs s).stats.root_hash
run_all-root_hash env qs s b h =
    let (m, _) = run_all-IsMeasured env qs s b h in
    measure-hash env (directory (run_all env qs s).root) Paths.root m.measured m.measures
    ∙ ap ok (sym m.hash)
