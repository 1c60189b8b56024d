-- ===== src/Measure/Counts.antt =====
-- What the counters of `_measure_node` count: every node of a tree, and the bytes of every file.
use mem_sandbox.Base.{Bool-cases, length, ℕ, ◌+◌, ◌≡◌, refl, sym, ap, ◌∙◌, inl, inr, [], ◌∷◌, arith}
use mem_sandbox.Errors.{ok, >>=-eq-ok}
use mem_sandbox.Strings.{Text}
use mem_sandbox.Utf8.{Bytes}
use mem_sandbox.Paths.{SandboxPath}
use mem_sandbox.Models.{NodeKind}
use mem_sandbox.Tree.{Node, file, directory, Children, empty, child}
use mem_sandbox.Named.{Named, text_le, insert_named, sort_named}
use mem_sandbox.Hashing.{node_kind}
use mem_sandbox.Clone.Laws.{below, entries}
use mem_sandbox.Measure.{
  Measured, Env, sequence_named, sum_bytes, sum_nodes, measure_node, measure_children,
}
use mem_sandbox.Measure.Hash.{sequence_named-cons, sequence_named-sort_named}

unfoldable mutual
  -- The bytes of the files of a tree.
  pub bytes_of : Node → ℕ
  bytes_of (file content) = length content
  bytes_of (directory cs) = bytes_in cs

  pub bytes_in : Children → ℕ
  bytes_in empty = 0
  bytes_in (child k n cs) = bytes_of n + bytes_in cs

-- Sorting keeps the sums.
sums-insert_named :
    (k : Text) (a : NodeKind × Measured) (l : Named (NodeKind × Measured))
    → (sum_bytes (insert_named k a l) ≡ a.1.bytes + sum_bytes l)
      × (sum_nodes (insert_named k a l) ≡ a.1.nodes + sum_nodes l)
unfolding insert_named sum_bytes sum_nodes
sums-insert_named k a [] = (refl, refl)
sums-insert_named k a ((j, b) ∷ l) = elim (Bool-cases (text_le k j)) [
  | inl le ↦ rw (le, insert_named) (refl, refl)
  | inr gt ↦
      let (x, y) = sums-insert_named k a l in
      rw (gt, insert_named) (omega (arith, x), omega (arith, y))
]

sums-sort_named :
    (l : Named (NodeKind × Measured))
    → (sum_bytes (sort_named l) ≡ sum_bytes l) × (sum_nodes (sort_named l) ≡ sum_nodes l)
unfolding sort_named sum_bytes sum_nodes
sums-sort_named [] = (refl, refl)
sums-sort_named ((k, a) ∷ l) =
    let (x, y) = sums-sort_named l in
    let (u, v) = sums-insert_named k a (sort_named l) in (omega (arith, x, u), omega (arith, y, v))

module _ (env : Env) where
  -- The counters of a measured node.
  abbrev Counted : Node → Measured → Type 0
  Counted n m = (m.bytes ≡ bytes_of n) × (m.nodes ≡ 1 + below n)

  measure-Counted_file :
      (content : Bytes) (p : SandboxPath) (m : Measured)
      → measure_node env (file content) p ≡ ok m
      → Counted (file content) m
  unfolding measure_node bytes_of below
  measure-Counted_file content p m h = ground arith

  measure_sums :
      (cs : Children) (p : SandboxPath) (m : Measured)
      → measure_node env (directory cs) p ≡ ok m
      → (ms : Named (NodeKind × Measured)) × (sequence_named
            (sort_named (measure_children env cs p))
          ≡ ok ms)
        × (m.bytes ≡ sum_bytes ms)
        × (m.nodes ≡ 1 + sum_nodes ms)
  unfolding measure_node
  measure_sums cs p m h = ground arith

  children-Counted_empty :
      (p : SandboxPath) (vs : Named (NodeKind × Measured))
      → sequence_named (measure_children env empty p) ≡ ok vs
      → (sum_bytes vs ≡ 0) × (sum_nodes vs ≡ 0)
  unfolding measure_node sequence_named sum_bytes sum_nodes
  children-Counted_empty p vs h = ground arith

  children_sums :
      (k : Text) (n : Node) (cs : Children) (p : SandboxPath) (vs : Named (NodeKind × Measured))
      → sequence_named (measure_children env (child k n cs) p) ≡ ok vs
      → (q : SandboxPath) × (m : Measured) × (measure_node env n q ≡ ok m)
        × (ws : Named (NodeKind × Measured)) × (sequence_named (measure_children env cs p) ≡ ok ws)
        × (sum_bytes vs ≡ m.bytes + sum_bytes ws)
        × (sum_nodes vs ≡ m.nodes + sum_nodes ws)
  unfolding measure_node sum_bytes sum_nodes
  children_sums k n cs p vs h =
      let (m, e, ws, f, g) =
        sequence_named-cons k (node_kind n) _ (measure_children env cs p) vs h in
      let (q, _, measured) = >>=-eq-ok _ (measure_node env n) e in
      (q, m, measured, ws, f, rw (← g) refl, rw (← g) refl)

  mutual
    unfolding bytes_of below

    measured-Counted :
        (n : Node) (p : SandboxPath) (m : Measured) → measure_node env n p ≡ ok m → Counted n m
    measured-Counted (file content) p m h = measure-Counted_file content p m h
    measured-Counted (directory cs) p m h =
        let (ms, s, b, c) = measure_sums cs p m h in
        let (vs, f, g) = sequence_named-sort_named (measure_children env cs p) ms s in
        let (x, y) = sums-sort_named vs in
        let (u, v) = children-Counted cs p vs f in
        (
          b ∙ ap sum_bytes (sym g) ∙ x ∙ u,
          c ∙ ap (λ l. 1 + sum_nodes l) (sym g) ∙ ap (λ n. 1 + n) (y ∙ v),
        )

    children-Counted :
        (cs : Children) (p : SandboxPath) (vs : Named (NodeKind × Measured))
        → sequence_named (measure_children env cs p) ≡ ok vs
        → (sum_bytes vs ≡ bytes_in cs) × (sum_nodes vs ≡ entries cs)
    children-Counted empty p vs h = children-Counted_empty p vs h
    children-Counted (child k n cs) p vs h =
        let (q, m, measured, ws, f, b, c) = children_sums k n cs p vs h in
        let (x, y) = measured-Counted n q m measured in
        let (u, v) = children-Counted cs p ws f in (omega (arith, x, u, b), omega (arith, y, v, c))

  -- The counters of a measured directory are those of its tree.
  pub measure-directory :
      (cs : Children) (p : SandboxPath) (m : Measured)
      → measure_node env (directory cs) p ≡ ok m
      → (m.bytes ≡ bytes_in cs) × (m.nodes ≡ 1 + entries cs)
  unfolding bytes_of below
  measure-directory cs p m h = measured-Counted (directory cs) p m h
