-- ===== src/Workspace/Published.antt =====
-- What `_commit` publishes: a measured state in which a placed node is found and has a hash.
use mem_sandbox.Paths
use mem_sandbox.Base.{
  drop, init, append-init-last_or, ℕ, ◌+◌, ◌≤◌, ◌≡◌, refl, sym, ap, ◌∙◌, ◌≢◌, false, some, List, [],
  ◌∷◌, ◌++◌, arith,
}
use mem_sandbox.Errors.{ok}
use mem_sandbox.Strings.{Text, split-ne-nil}
use mem_sandbox.Paths.{slash, SandboxPath, root, is_root, parts, name}
use mem_sandbox.Models.{ContentHash}
use mem_sandbox.Tree.{Node, directory, Children, put, try_get_node, get_node, modify, place}
use mem_sandbox.Tree.Dict.{get-put_self}
use mem_sandbox.Tree.Places.{DirectoryAt, try_get_node-child, try_get_node-modify}
use mem_sandbox.Hashing.{node_hash}
use mem_sandbox.Hashing.Below.{HasHash-below}
use mem_sandbox.Measure.{Measured, Env, measure_node}
use mem_sandbox.Clone.Laws.{entries}
use mem_sandbox.Measure.Counts.{bytes_in}
use mem_sandbox.Measure.Hash.{measure-hash}
use mem_sandbox.State.{State, state_for_root}
use mem_sandbox.Workspace.Writes.{find}

-- What a published state holds: the measures of its tree, which are the bytes of all files and the
-- number of all nodes, the root with the others.
pub record IsMeasured (env : Env) (t : State) : Type 0 where
  pub measured : Measured
  pub measures : measure_node env (directory t.root) Paths.root ≡ ok measured
  pub bytes : t.stats.total_bytes ≡ measured.bytes
  pub nodes : t.stats.node_count ≡ measured.nodes
  pub hash : t.stats.root_hash ≡ measured.hash
  pub bytes_fit : measured.bytes ≤ env.limits.max_total_bytes
  pub nodes_fit : measured.nodes ≤ env.limits.max_nodes
  pub all_bytes : t.stats.total_bytes ≡ bytes_in t.root
  pub all_nodes : t.stats.node_count ≡ 1 + entries t.root

module _ (env : Env) where
  pub state_for_root-eq-ok :
      (cs : Children) (revision : ℕ) (t : State)
      → state_for_root env cs revision ≡ ok t
      → (m : Measured) × (measure_node env (directory cs) Paths.root ≡ ok m)
        × (m.bytes ≤ env.limits.max_total_bytes)
        × (m.nodes ≤ env.limits.max_nodes)
        × (t ≡ record {
          root = cs;
          stats = record {
            total_bytes = m.bytes;
            node_count = m.nodes;
            revision = revision;
            root_hash = m.hash;
          };
        })
  unfolding state_for_root
  state_for_root-eq-ok cs revision t h = ground arith

  pub root-state_for_root :
      (cs : Children) (revision : ℕ) (t : State)
      → state_for_root env cs revision ≡ ok t
      → t.root ≡ cs
  root-state_for_root cs revision t h =
      let (m, _, _, _, e) = state_for_root-eq-ok cs revision t h in ap (λ (s : State). s.root) e

  -- A node of the new tree is found in the published state, and it has a hash.
  pub read_back :
      (cs : Children) (revision : ℕ) (t : State) (p : SandboxPath) (n : Node)
      → state_for_root env cs revision ≡ ok t
      → find cs p ≡ ok (some n)
      → (get_node t.root p ≡ ok n) × ((h : ContentHash) × (node_hash env.sha256 n ≡ ok h))
  unfolding get_node
  read_back cs revision t p n published found =
      let (m, measures, _, _, e) = state_for_root-eq-ok cs revision t published in
      (
        rw (root-state_for_root cs revision t published, found) refl,
        HasHash-below env.sha256 (parts p) (directory cs) n
            (m.hash, measure-hash env (directory cs) Paths.root m measures) found,
      )

parts-ne-nil : (p : SandboxPath) → is_root p ≡ false → parts p ≢ []
unfolding parts
parts-ne-nil p h e = split-ne-nil slash (drop 11 p.value) (rw h at e)

-- The segments of a path that is not the root are those of its parent and its name.
pub parts-eq-snoc : (p : SandboxPath) → is_root p ≡ false → init (parts p) ++ name p ∷ [] ≡ parts p
parts-eq-snoc p h = go (parts p) refl
  where
    go : (ss : List Text) → parts p ≡ ss → init (parts p) ++ name p ∷ [] ≡ parts p
    go [] e = absurd (parts-ne-nil p h e)
    go (s ∷ ss) e = unfold name in rw (h, e) (append-init-last_or s ss [])

-- What was placed is found at its path.
pub find-place :
    (p : SandboxPath) (n : Node) (cs d : Children)
    → is_root p ≡ false
    → DirectoryAt (init (parts p)) cs d
    → find (place p n cs) p ≡ ok (some n)
unfolding place
find-place p n cs d h at =
    ap (try_get_node (directory (modify (init (parts p)) (put (name p) n) cs)))
      (sym (parts-eq-snoc p h))
    ∙ try_get_node-modify (init (parts p)) (name p ∷ []) (put (name p) n) cs d at
    ∙ try_get_node-child (name p) [] (put (name p) n d) n (get-put_self (name p) n d)
    ∙ (unfold try_get_node in refl)
