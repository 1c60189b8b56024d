-- ===== src/Workspace/TransferEnds.antt =====
-- What `copy` and `move` end in.
use mem_sandbox.Workspace.Op.{Ends, Ends-current, Ends-commit, Ends-lift, pure-eq, lift-bind-eq}
use mem_sandbox.Base.{init, ℕ, ◌+◌, ◌≡◌, refl, ◌∙◌, Bool, true, false, not, ◌&&◌, Option, some}
use mem_sandbox.Errors.{ok, raise_if-eq-ok}
use mem_sandbox.Paths.{SandboxPath, construct, root, is_root, parts, name}
use mem_sandbox.Paths.Canonical.{at}
use mem_sandbox.Models.{ContentHash, TransferRequest, WorkspaceMutation}
use mem_sandbox.Tree.{Node, Children, delete, get_node, get_parent, ensure_parent, place, discard}
use mem_sandbox.Paths.Ancestors.{Avoids-init}
use mem_sandbox.Tree.Dict.{get-delete_ne}
use mem_sandbox.Tree.Places.{DirectoryAt, modify-DirectoryAt}
use mem_sandbox.Tree.Parents.{ensure_directories-DirectoryAt}
use mem_sandbox.Measure.{Env}
use mem_sandbox.Clone.Laws.{clone_node-eq-ok, clone_directory-eq-ok}
use mem_sandbox.State.{State, state_for_root}
use mem_sandbox.Workspace.Writes.{find, is_some}
use mem_sandbox.Workspace.Transfers.{transferred, copy, move}
use mem_sandbox.Workspace.Published.{read_back, parts-eq-snoc, find-place}
use mem_sandbox.Workspace.WriteEnds.{Placed}
use mem_sandbox.Workspace.Apart.{Apart, transfer-Apart}

-- The source's node was placed at the destination.
pub record Copied (env : Env) (r : TransferRequest) (s : State) (a : WorkspaceMutation) (t : State)
    : Type 0 where
  pub node : Node
  pub looked : get_node s.root r.source ≡ ok node
  pub existing : Option Node
  pub target : find s.root r.destination ≡ ok existing
  pub allowed : (is_some existing && not r.overwrite) ≡ false
  pub apart : Apart r.source r.destination
  pub placed : Placed env r.destination r.create_parents node s t
  pub says : a.changed ≡ true
  pub creates : a.created ≡ not (is_some existing)
  pub stats : a.stats ≡ t.stats

-- The source's node was placed at the destination, and the source's entry deleted.
pub record Moved (env : Env) (r : TransferRequest) (s : State) (a : WorkspaceMutation) (t : State)
    : Type 0 where
  pub node : Node
  pub looked : get_node s.root r.source ≡ ok node
  pub existing : Option Node
  pub target : find s.root r.destination ≡ ok existing
  pub allowed : (is_some existing && not r.overwrite) ≡ false
  pub apart : Apart r.source r.destination
  pub ensured : Children
  pub parents : ensure_parent s.root r.destination r.create_parents env.limits ≡ ok ensured
  pub parent : Children
  pub source_parent : get_parent ensured r.source ≡ ok parent
  pub published :
      state_for_root env
        (place r.destination node (discard r.source ensured))
        (s.stats.revision + 1)
      ≡ ok t
  pub says : a.changed ≡ true
  pub creates : a.created ≡ not (is_some existing)
  pub stats : a.stats ≡ t.stats

-- The place of a move's destination is still there after the source is gone.
pub discard-DirectoryAt :
    (p q : SandboxPath) (cs d : Children)
    → Apart p q
    → DirectoryAt (init (parts q)) cs d
    → (d' : Children) × DirectoryAt (init (parts q)) (discard p cs) d'
unfolding discard
discard-DirectoryAt p q cs d w at =
    modify-DirectoryAt (delete (name p)) (name p) (λ j c ne. get-delete_ne j (name p) c ne)
      (init (parts p)) (init (parts q)) cs d
      (rw (parts-eq-snoc p w.source_not_root) (Avoids-init (parts p) (parts q) w.diverges)) at

module _ (env : Env) where
  transferred-returns :
      (r : TransferRequest) (existing : Option Node) (previous : Option ContentHash) (cs : Children)
      (revision : ℕ) (t : State) (n : Node)
      → state_for_root env cs revision ≡ ok t
      → find cs r.destination ≡ ok (some n)
      → (a : WorkspaceMutation) × (transferred env r existing previous t t ≡ (ok a, t))
        × (a.changed ≡ true)
        × (a.created ≡ not (is_some existing))
        × (a.stats ≡ t.stats)
  unfolding transferred
  transferred-returns r existing previous cs revision t n h found =
      let (got, (hash, hashed)) = read_back env cs revision t r.destination n h found in
      (_, lift-bind-eq _ _ n t got ∙ lift-bind-eq _ _ hash t hashed ∙ pure-eq _ t, refl, refl, refl)

  placed-found :
      (p : SandboxPath) (create : Bool) (n : Node) (s : State) (ensured : Children)
      → is_root p ≡ false
      → ensure_parent s.root p create env.limits ≡ ok ensured
      → find (place p n ensured) p ≡ ok (some n)
  unfolding ensure_parent
  placed-found p create n s ensured not_root e =
      let (d, at) =
        ensure_directories-DirectoryAt create env.limits s.root root (init (parts p)) ensured e in
      find-place p n ensured d not_root at

  pub moved-found :
      (p q : SandboxPath) (create : Bool) (n : Node) (s : State) (ensured : Children)
      → Apart p q
      → ensure_parent s.root q create env.limits ≡ ok ensured
      → find (place q n (discard p ensured)) q ≡ ok (some n)
  unfolding ensure_parent
  moved-found p q create n s ensured apart e =
      let (d, at) =
        ensure_directories-DirectoryAt create env.limits s.root root (init (parts q)) ensured e in
      let (d', at') = discard-DirectoryAt p q ensured d apart at in
      find-place q n (discard p ensured) d' apart.destination_not_root at'

  pub copy-Ends :
      (r : TransferRequest) (s : State)
      → construct r.source.value ≡ ok r.source
      → construct r.destination.value ≡ ok r.destination
      → Ends (copy env r) s (Copied env r s)
  unfolding copy
  copy-Ends r s built_source built_destination = Ends-lift _ _ λ _ vp. Ends-lift _ _ λ _ vq.
      Ends-lift _ _ λ _ checked. Ends-current _ (
        Ends-lift _ _ λ source looked. Ends-lift _ _ λ existing target. Ends-lift _ _ λ _ allowed.
          Ends-lift _ _ λ previous _. Ends-lift _ _ λ cloned c. Ends-lift _ _ λ ensured e.
            Ends-lift _ _ λ copied k. Ends-commit env _ _ λ t h.
              let apart : Apart r.source r.destination =
                transfer-Apart env r.source r.destination built_source built_destination vp vq
                  checked in
              let placed : Placed env r.destination r.create_parents source s t = record {
                ensured = ensured;
                parents = rw (clone_directory-eq-ok s.root env.limits.max_nodes cloned c) at e;
                published = rw (clone_node-eq-ok source env.limits.max_nodes copied k) at h;
              } in
              let (a, returns, says, creates, stats) =
                transferred-returns r existing previous _ _ t source placed.published (
                  placed-found r.destination r.create_parents source s ensured
                    apart.destination_not_root placed.parents) in
              (
                a,
                returns,
                record {
                  node = source;
                  looked = looked;
                  existing = existing;
                  target = target;
                  allowed = raise_if-eq-ok _ _ _ allowed;
                  apart = apart;
                  placed = placed;
                  says = says;
                  creates = creates;
                  stats = stats;
                },
              ))

  pub move-Ends :
      (r : TransferRequest) (s : State)
      → construct r.source.value ≡ ok r.source
      → construct r.destination.value ≡ ok r.destination
      → Ends (move env r) s (Moved env r s)
  unfolding move
  move-Ends r s built_source built_destination = Ends-lift _ _ λ _ vp. Ends-lift _ _ λ _ vq.
      Ends-lift _ _ λ _ checked. Ends-current _ (
        Ends-lift _ _ λ present looked. Ends-lift _ _ λ existing target. Ends-lift _ _ λ _ allowed.
          Ends-lift _ _ λ previous _. Ends-lift _ _ λ cloned c. Ends-lift _ _ λ node taken.
            Ends-lift _ _ λ ensured e. Ends-lift _ _ λ parent p. Ends-commit env _ _ λ t h.
              let apart : Apart r.source r.destination =
                transfer-Apart env r.source r.destination built_source built_destination vp vq
                  checked in
              let same : cloned ≡ s.root =
                clone_directory-eq-ok s.root env.limits.max_nodes cloned c in
              let (a, returns, says, creates, stats) =
                transferred-returns r existing previous _ _ t node h (
                  moved-found r.source r.destination r.create_parents node s ensured apart
                    (rw same at e)) in
              (
                a,
                returns,
                record {
                  node = node;
                  looked = rw same at taken;
                  existing = existing;
                  target = target;
                  allowed = raise_if-eq-ok _ _ _ allowed;
                  apart = apart;
                  ensured = ensured;
                  parents = rw same at e;
                  parent = parent;
                  source_parent = p;
                  published = h;
                  says = says;
                  creates = creates;
                  stats = stats;
                },
              ))
