-- ===== src/Workspace/PathEnds.antt =====
-- What `mkdir` and `remove` end in.
use mem_sandbox.Workspace.Op.{
  Ends, Ends-current, Ends-pure, Ends-raise, Ends-commit, Ends-lift, Ends-weaken, pure-eq,
  lift-bind-eq,
}
use mem_sandbox.Base.{
  Bool-cases, init, ◌+◌, ◌≡◌, refl, ◌∙◌, ◌⊎◌, inl, inr, Bool, true, false, Option, none, some,
}
use mem_sandbox.Errors.{path_not_found, path_already_exists, ok, raise_if-eq-ok}
use mem_sandbox.Paths.{SandboxPath, root, is_root, parts}
use mem_sandbox.Models.{MakeDirectoryRequest, RemovePathRequest, WorkspaceMutation}
use mem_sandbox.Tree.{
  Node, file, directory, Children, empty, try_get_node, get_parent, ensure_parent, discard,
}
use mem_sandbox.Tree.Parents.{ensure_directories-DirectoryAt}
use mem_sandbox.Measure.{Env}
use mem_sandbox.Clone.Laws.{clone_directory-eq-ok}
use mem_sandbox.State.{State, state_for_root}
use mem_sandbox.Workspace.Writes.{
  find, is_guarded, mkdir_existing, mkdir_new, mkdir, remove_existing, remove_missing, remove,
}
use mem_sandbox.Workspace.Published.{root-state_for_root, read_back, find-place}
use mem_sandbox.Workspace.WriteEnds.{Placed}

-- Nothing changed, and the result says so.
pub record Kept (s : State) (a : WorkspaceMutation) (t : State) : Type 0 where
  pub says : a.changed ≡ false
  pub state : t ≡ s
  pub stats : a.stats ≡ s.stats

-- A directory was made where nothing was.
pub record DirectoryMade (env : Env) (r : MakeDirectoryRequest) (s : State) (a : WorkspaceMutation)
    (t : State) : Type 0 where
  pub absent : find s.root r.path ≡ ok none
  pub placed : Placed env r.path r.create_parents (directory empty) s t
  pub says : a.changed ≡ true
  pub creates : a.created ≡ true
  pub stats : a.stats ≡ t.stats

-- The entry of the path was deleted.
pub record Removed (env : Env) (r : RemovePathRequest) (s : State) (a : WorkspaceMutation)
    (t : State) : Type 0 where
  pub existing : Node
  pub looked : find s.root r.path ≡ ok (some existing)
  pub allowed : is_guarded existing r.recursive ≡ false
  pub not_root : is_root r.path ≡ false
  pub parent : Children
  pub parents : get_parent s.root r.path ≡ ok parent
  pub published : state_for_root env (discard r.path s.root) (s.stats.revision + 1) ≡ ok t
  pub says : a.changed ≡ true
  pub stats : a.stats ≡ t.stats

-- A path at which nothing was found is not the root.
pub find-root :
    (cs : Children) (p : SandboxPath) → is_root p ≡ true → find cs p ≡ ok (some (directory cs))
find-root cs p h = unfold parts try_get_node in rw h

pub absent-not_root : (cs : Children) (p : SandboxPath) → find cs p ≡ ok none → is_root p ≡ false
absent-not_root cs p h = elim (Bool-cases (is_root p)) [
  | inl e ↦ absurd (cc (h, find-root cs p e))
  | inr e ↦ e
]

-- A placed node is found in the state that was published, and has a hash.
pub Placed-find :
    (env : Env) (p : SandboxPath) (create : Bool) (n : Node) (s t : State)
    → is_root p ≡ false
    → Placed env p create n s t
    → find t.root p ≡ ok (some n)
unfolding ensure_parent
Placed-find env p create n s t h w =
    let (d, at) =
      ensure_directories-DirectoryAt create env.limits s.root root (init (parts p)) w.ensured
        w.parents in
    rw (root-state_for_root env _ _ t w.published) (find-place p n w.ensured d h at)

module _ (env : Env) where
  mkdir_new-Ends :
      (r : MakeDirectoryRequest) (s : State)
      → find s.root r.path ≡ ok none
      → Ends (mkdir_new env r s) s (DirectoryMade env r s)
  unfolding mkdir_new ensure_parent
  mkdir_new-Ends r s absent = Ends-lift _ _ λ cloned c. Ends-lift _ _ λ ensured e.
      Ends-commit env _ _ λ t h.
        let same : cloned ≡ s.root = clone_directory-eq-ok s.root env.limits.max_nodes cloned c in
        let placed : Placed env r.path r.create_parents (directory empty) s t = record {
          ensured = ensured;
          parents = rw same at e;
          published = h;
        } in
        let (d, at) =
          ensure_directories-DirectoryAt r.create_parents env.limits cloned root
            (init (parts r.path)) ensured e in
        let (found, (hash, hashed)) = read_back env _ _ t r.path (directory empty) h (
          find-place r.path (directory empty) ensured d (absent-not_root s.root r.path absent)
            at) in
        (
          _,
          lift-bind-eq _ _ _ t found ∙ lift-bind-eq _ _ hash t hashed ∙ pure-eq _ t,
          record { absent = absent; placed = placed; says = refl; creates = refl; stats = refl },
        )

  mkdir_existing-Ends :
      (r : MakeDirectoryRequest) (s : State) (n : Node) → Ends (mkdir_existing env r s n) s (Kept s)
  unfolding mkdir_existing
  mkdir_existing-Ends r s (file content) = Ends-raise path_already_exists
  mkdir_existing-Ends r s (directory cs) = elim (Bool-cases r.exist_ok) [
    | inl e ↦
        rw e (Ends-lift _ _ λ h _. Ends-pure _ (record { says = refl; state = refl; stats = refl }))
    | inr e ↦ rw e (Ends-raise path_already_exists)
  ]

  pub mkdir-Ends :
      (r : MakeDirectoryRequest) (s : State)
      → Ends (mkdir env r) s (λ a t. Kept s a t ⊎ DirectoryMade env r s a t)
  unfolding mkdir
  mkdir-Ends r s =
      Ends-lift _ _
        λ _ _. Ends-current _ (Ends-lift _ _ λ existing looked. by_existing existing looked)
    where
      by_existing :
          (existing : Option Node)
          → find s.root r.path ≡ ok existing
          → Ends
              (elim existing [ none ↦ mkdir_new env r s | some node ↦ mkdir_existing env r s node ])
              s
              (λ a t. Kept s a t ⊎ DirectoryMade env r s a t)
      by_existing none looked = Ends-weaken (λ a t w. inr w) (mkdir_new-Ends r s looked)
      by_existing (some n) looked = Ends-weaken (λ a t w. inl w) (mkdir_existing-Ends r s n)

  remove_existing-Ends :
      (r : RemovePathRequest) (s : State) (n : Node)
      → is_root r.path ≡ false
      → find s.root r.path ≡ ok (some n)
      → Ends (remove_existing env r s n) s (Removed env r s)
  unfolding remove_existing
  remove_existing-Ends r s n not_root looked = Ends-lift _ _ λ _ allowed.
      Ends-lift _ _ λ previous _. Ends-lift _ _ λ cloned c. Ends-lift _ _ λ parent p.
        Ends-commit env _ _ λ t h.
          let same : cloned ≡ s.root = clone_directory-eq-ok s.root env.limits.max_nodes cloned c in
          (
            _,
            pure-eq _ t,
            record {
              existing = n;
              looked = looked;
              allowed = raise_if-eq-ok _ _ _ allowed;
              not_root = not_root;
              parent = parent;
              parents = rw same at p;
              published = rw same at h;
              says = refl;
              stats = refl;
            },
          )

  remove_missing-Ends :
      (r : RemovePathRequest) (s : State)
      → Ends (remove_missing env r s) s (λ a t. Kept s a t × (r.missing_ok ≡ true))
  unfolding remove_missing
  remove_missing-Ends r s = elim (Bool-cases r.missing_ok) [
    | inl e ↦ rw e (Ends-pure _ (record { says = refl; state = refl; stats = refl }, refl))
    | inr e ↦ rw e (Ends-raise path_not_found)
  ]

  pub remove-Ends :
      (r : RemovePathRequest) (s : State)
      → Ends (remove env r) s (λ a t.
        (Kept s a t × (find s.root r.path ≡ ok none) × (r.missing_ok ≡ true)) ⊎ Removed env r s a t)
  unfolding remove
  remove-Ends r s = Ends-lift _ _ λ _ _. Ends-lift _ _ λ _ root.
      Ends-current _
        (Ends-lift _ _ λ existing looked. by_existing (raise_if-eq-ok _ _ _ root) existing looked)
    where
      by_existing :
          is_root r.path ≡ false
          → (existing : Option Node) → find s.root r.path ≡ ok existing
          → Ends
              (elim existing [
                | none ↦ remove_missing env r s
                | some node ↦ remove_existing env r s node
              ])
              s
              (λ a t.
                (Kept s a t × (find s.root r.path ≡ ok none) × (r.missing_ok ≡ true))
                ⊎ Removed env r s a t)
      by_existing not_root none looked =
          Ends-weaken (λ a t w. inl (w.0, looked, w.1)) (remove_missing-Ends r s)
      by_existing not_root (some n) looked =
          Ends-weaken (λ a t w. inr w) (remove_existing-Ends r s n not_root looked)
