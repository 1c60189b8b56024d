-- ===== src/Workspace/WriteEnds.antt =====
-- What `write`, `append` and `mkdir` end in.
use mem_sandbox.Workspace.Op.{Ends, Ends-current, Ends-commit, Ends-lift, Ends-weaken, pure-eq}
use mem_sandbox.Base.{
  ltb, length, ℕ, ◌+◌, ◌≤◌, ◌≡◌, refl, Bool, true, false, not, Option, some, ◌++◌, arith,
}
use mem_sandbox.Errors.{ok, raise_if-eq-ok}
use mem_sandbox.Utf8.{Bytes}
use mem_sandbox.Paths.{SandboxPath, is_root}
use mem_sandbox.Models.{ContentHash, WorkspaceWriteRequest, WorkspaceMutation}
use mem_sandbox.Tree.{Node, file, Children, ensure_parent, place}
use mem_sandbox.Hashing.{from_bytes}
use mem_sandbox.Measure.{Env}
use mem_sandbox.Clone.Laws.{clone_directory-eq-ok}
use mem_sandbox.State.{State, state_for_root, validate_path}
use mem_sandbox.Workspace.Writes.{
  find, is_some, previous_content, check_precondition, put_file, write, append,
}

-- The path's parents stand, the node is placed, and the tree is published.
pub record Placed (env : Env) (p : SandboxPath) (create : Bool) (n : Node) (s t : State)
    : Type 0 where
  pub ensured : Children
  pub parents : ensure_parent s.root p create env.limits ≡ ok ensured
  pub published : state_for_root env (place p n ensured) (s.stats.revision + 1) ≡ ok t

-- A file of these bytes was placed, and the result tells of it.
pub record FilePut (env : Env) (r : WorkspaceWriteRequest) (content : Bytes)
    (existing : Option Node) (s : State) (a : WorkspaceMutation) (t : State) : Type 0 where
  pub looked : find s.root r.path ≡ ok existing
  pub previous : Option ContentHash
  pub checked : check_precondition env existing r.precondition ≡ ok previous
  pub not_root : is_root r.path ≡ false
  pub placed : Placed env r.path r.create_parents (file content) s t
  pub result : a ≡ record {
    path = r.path;
    created = not (is_some existing);
    changed = true;
    previous_hash = previous;
    current_hash = some (from_bytes env.sha256 content);
    stats = t.stats;
  }

module _ (env : Env) where
  put_file-Ends :
      (r : WorkspaceWriteRequest) (content : Bytes) (existing : Option Node)
      (previous : Option ContentHash) (s : State)
      → find s.root r.path ≡ ok existing
      → check_precondition env existing r.precondition ≡ ok previous
      → is_root r.path ≡ false
      → Ends (put_file env r content existing previous s) s (FilePut env r content existing s)
  unfolding put_file
  put_file-Ends r content existing previous s looked checked not_root = Ends-lift _ _ λ cloned c.
      Ends-lift _ _ λ ensured e. Ends-commit env _ _ λ t h. (
        _,
        pure-eq _ _,
        record {
          looked = looked;
          previous = previous;
          checked = checked;
          not_root = not_root;
          placed = record {
            ensured = ensured;
            parents = rw (clone_directory-eq-ok s.root env.limits.max_nodes cloned c) at e;
            published = h;
          };
          result = refl;
        },
      )

-- A file was put over what was there, or where nothing was.
pub record Written (env : Env) (r : WorkspaceWriteRequest) (s : State) (a : WorkspaceMutation)
    (t : State) : Type 0 where
  pub valid : validate_path env r.path ≡ ok tt
  pub existing : Option Node
  pub put : FilePut env r r.content existing s a t
  pub fits : length r.content ≤ env.limits.max_file_bytes

-- The old bytes and then the new ones were put.
pub record Appended (env : Env) (r : WorkspaceWriteRequest) (s : State) (a : WorkspaceMutation)
    (t : State) : Type 0 where
  pub valid : validate_path env r.path ≡ ok tt
  pub existing : Option Node
  pub put : FilePut env r (previous_content existing ++ r.content) existing s a t
  pub fits : length (previous_content existing ++ r.content) ≤ env.limits.max_file_bytes

pub within_limit : (a b : ℕ) → ltb b a ≡ false → a ≤ b
within_limit a b h = ground arith

module _ (env : Env) where
  pub write-Ends : (r : WorkspaceWriteRequest) (s : State) → Ends (write env r) s (Written env r s)
  unfolding write
  write-Ends r s = Ends-lift _ _ λ _ valid. Ends-lift _ _ λ _ root. Ends-lift _ _ λ _ size.
      Ends-current _ (
        Ends-lift _ _ λ existing looked. Ends-lift _ _ λ previous checked.
          Ends-weaken
            (λ a t w. record {
              valid = valid;
              existing = existing;
              put = w;
              fits = within_limit _ _ (raise_if-eq-ok _ _ _ size);
            })
            (put_file-Ends env r r.content existing previous s looked checked
              (raise_if-eq-ok _ _ _ root)))

  pub append-Ends :
      (r : WorkspaceWriteRequest) (s : State) → Ends (append env r) s (Appended env r s)
  unfolding append
  append-Ends r s = Ends-lift _ _ λ _ valid. Ends-lift _ _ λ _ root. Ends-current _ (
      Ends-lift _ _ λ existing looked. Ends-lift _ _ λ previous checked. Ends-lift _ _ λ _ size.
        Ends-weaken
          (λ a t w. record {
            valid = valid;
            existing = existing;
            put = w;
            fits = within_limit _ _ (raise_if-eq-ok _ _ _ size);
          })
          (put_file-Ends env r (previous_content existing ++ r.content) existing previous s looked
            checked (raise_if-eq-ok _ _ _ root)))
