-- ===== src/Measure/Hash.antt =====
-- The hash that measuring a tree computes is the one that `_node_hash` computes.
use mem_sandbox.Base.{Bool-cases, ◌≡◌, refl, sym, ap, ◌∙◌, inl, inr, [], ◌∷◌, arith}
use mem_sandbox.Errors.{Result, err, ok, >>=-eq-ok}
use mem_sandbox.Strings.{Text}
use mem_sandbox.Utf8.{Bytes}
use mem_sandbox.Paths.{SandboxPath}
use mem_sandbox.Models.{ContentHash, NodeKind}
use mem_sandbox.Tree.{Node, file, directory, Children, empty, child}
use mem_sandbox.Named.{text_le, Named, insert_named, sort_named, map_named}
use mem_sandbox.Named.Laws.{
  insert_named-le, insert_named-gt, sort_named-sort_named, map_named-sort_named,
}
use mem_sandbox.Hashing.{node_kind, hash_directory, node_hash, child_hashes}
use mem_sandbox.Measure.{
  Measured, Env, sequence_named, measured_hash, measure_node, measure_children,
}

pub sequence_named-cons :
    (k : Text) (kind : NodeKind) (r : Result Measured) (l : Named (NodeKind × Result Measured))
    (out : Named (NodeKind × Measured))
    → sequence_named ((k, (kind, r)) ∷ l) ≡ ok out
    → (m : Measured) × (r ≡ ok m)
      × (rest : Named (NodeKind × Measured)) × (sequence_named l ≡ ok rest)
      × ((k, (kind, m)) ∷ rest ≡ out)
unfolding sequence_named
sequence_named-cons k kind (err e) l out h = absurd (cc h)
sequence_named-cons k kind (ok m) l out h = ground arith

sequence_named-of :
    (k : Text) (kind : NodeKind) (m : Measured) (l : Named (NodeKind × Result Measured))
    (rest : Named (NodeKind × Measured))
    → sequence_named l ≡ ok rest
    → sequence_named ((k, (kind, ok m)) ∷ l) ≡ ok ((k, (kind, m)) ∷ rest)
unfolding sequence_named
sequence_named-of k kind m l rest h = rw (h, sequence_named)

-- Results that are all there in sorted order are all there in the order of the dict.
sequence_named-insert_named :
    (k : Text) (kind : NodeKind) (r : Result Measured) (l : Named (NodeKind × Result Measured))
    (out : Named (NodeKind × Measured))
    → sequence_named (insert_named k (kind, r) l) ≡ ok out
    → (m : Measured) × (r ≡ ok m)
      × (rest : Named (NodeKind × Measured)) × (sequence_named l ≡ ok rest)
      × (insert_named k (kind, m) rest ≡ out)
unfolding insert_named
sequence_named-insert_named k kind r [] out h =
    let (m, e, rest, f, g) = sequence_named-cons k kind r [] out h in
    (m, e, [], unfold sequence_named in refl, no_rest m rest f g)
  where
    no_rest :
        (m : Measured) (rest : Named (NodeKind × Measured))
        → sequence_named [] ≡ ok rest
        → (k, (kind, m)) ∷ rest ≡ out
        → (k, (kind, m)) ∷ [] ≡ out
    no_rest m rest f g = unfold sequence_named in ground arith
sequence_named-insert_named k kind r ((j, (kind', r')) ∷ l) out h =
    elim (Bool-cases (text_le k j)) [
      | inl le ↦
          let (m, e, rest, f, g) =
            sequence_named-cons k kind r ((j, (kind', r')) ∷ l) out
              (rw (insert_named-le k j (kind, r) (kind', r') l le) at h) in
          let (m', e', rest', f', g') = sequence_named-cons j kind' r' l rest f in
          (
            m,
            e,
            rest,
            f,
            ap (insert_named k (kind, m)) (sym g')
                ∙ insert_named-le k j (kind, m) (kind', m') rest' le
                ∙ ap (λ t. (k, (kind, m)) ∷ t) g'
                ∙ g,
          )
      | inr gt ↦
          let (m', e', rest', f', g') =
            sequence_named-cons j kind' r' (insert_named k (kind, r) l) out
              (rw (insert_named-gt k j (kind, r) (kind', r') l gt) at h) in
          let (m, e, rest, f, g) = sequence_named-insert_named k kind r l rest' f' in
          (
            m,
            e,
            (j, (kind', m')) ∷ rest,
            rw e' (sequence_named-of j kind' m' l rest f),
            insert_named-gt k j (kind, m) (kind', m') rest gt
                ∙ ap (λ t. (j, (kind', m')) ∷ t) g
                ∙ g',
          )
    ]

pub sequence_named-sort_named :
    (l : Named (NodeKind × Result Measured)) (out : Named (NodeKind × Measured))
    → sequence_named (sort_named l) ≡ ok out
    → (vs : Named (NodeKind × Measured)) × (sequence_named l ≡ ok vs) × (sort_named vs ≡ out)
unfolding sort_named
sequence_named-sort_named [] out h =
    ([], unfold sequence_named in refl, unfold sequence_named in ground arith)
sequence_named-sort_named ((k, (kind, r)) ∷ l) out h =
    let (m, e, rest, f, g) = sequence_named-insert_named k kind r (sort_named l) out h in
    let (vs, f', g') = sequence_named-sort_named l rest f in
    (
      (k, (kind, m)) ∷ vs,
      rw e (sequence_named-of k kind m l vs f'),
      ap (insert_named k (kind, m)) g' ∙ g,
    )

module _ (env : Env) where
  measure_steps :
      (cs : Children) (p : SandboxPath) (m : Measured)
      → measure_node env (directory cs) p ≡ ok m
      → (ms : Named (NodeKind × Measured)) × (sequence_named
            (sort_named (measure_children env cs p))
          ≡ ok ms)
        × (hash_directory env.sha256 (map_named measured_hash ms) ≡ ok m.hash)
  unfolding measure_node
  measure_steps cs p m h = ground arith

  hash_directory-sort_named :
      (l : Named (NodeKind × ContentHash))
      → hash_directory env.sha256 (sort_named l) ≡ hash_directory env.sha256 l
  unfolding hash_directory
  hash_directory-sort_named l = rw (sort_named-sort_named l)

  measure-hash_file :
      (content : Bytes) (p : SandboxPath) (m : Measured)
      → measure_node env (file content) p ≡ ok m
      → node_hash env.sha256 (file content) ≡ ok m.hash
  unfolding measure_node node_hash
  measure-hash_file content p m h = ground arith

  measure-hash_directory :
      (cs : Children) (p : SandboxPath) (m : Measured)
      → measure_node env (directory cs) p ≡ ok m
      → ((vs : Named (NodeKind × Measured))
          → sequence_named (measure_children env cs p) ≡ ok vs
          → child_hashes env.sha256 cs ≡ ok (map_named measured_hash vs))
      → node_hash env.sha256 (directory cs) ≡ ok m.hash
  unfolding node_hash
  measure-hash_directory cs p m h children =
      let (ms, s, e) = measure_steps cs p m h in
      let (vs, f, g) = sequence_named-sort_named (measure_children env cs p) ms s in
      rw (children vs f) (
        sym (hash_directory-sort_named (map_named measured_hash vs))
        ∙ ap (hash_directory env.sha256)
            (sym (map_named-sort_named measured_hash vs) ∙ ap (map_named measured_hash) g)
        ∙ e)

  children-hash_cons :
      (k : Text) (n : Node) (cs : Children) (p : SandboxPath) (vs : Named (NodeKind × Measured))
      → sequence_named (measure_children env (child k n cs) p) ≡ ok vs
      → ((q : SandboxPath) (m : Measured)
          → measure_node env n q ≡ ok m
          → node_hash env.sha256 n ≡ ok m.hash)
      → ((ws : Named (NodeKind × Measured))
          → sequence_named (measure_children env cs p) ≡ ok ws
          → child_hashes env.sha256 cs ≡ ok (map_named measured_hash ws))
      → child_hashes env.sha256 (child k n cs) ≡ ok (map_named measured_hash vs)
  unfolding node_hash measure_node map_named
  children-hash_cons k n cs p vs h here rest =
      let (m, e, ws, f, g) =
        sequence_named-cons k (node_kind n) _ (measure_children env cs p) vs h in
      let (q, _, measured) = >>=-eq-ok _ (measure_node env n) e in
      rw (rest ws f, here q m measured, ← g) refl

  children-hash_empty :
      (p : SandboxPath) (vs : Named (NodeKind × Measured))
      → sequence_named (measure_children env empty p) ≡ ok vs
      → child_hashes env.sha256 empty ≡ ok (map_named measured_hash vs)
  unfolding node_hash measure_node sequence_named map_named
  children-hash_empty p vs h = ground arith

  mutual
    pub measure-hash :
        (n : Node) (p : SandboxPath) (m : Measured)
        → measure_node env n p ≡ ok m
        → node_hash env.sha256 n ≡ ok m.hash
    measure-hash (file content) p m h = measure-hash_file content p m h
    measure-hash (directory cs) p m h = measure-hash_directory cs p m h (children-hash cs p)

    children-hash :
        (cs : Children) (p : SandboxPath) (vs : Named (NodeKind × Measured))
        → sequence_named (measure_children env cs p) ≡ ok vs
        → child_hashes env.sha256 cs ≡ ok (map_named measured_hash vs)
    children-hash empty p vs h = children-hash_empty p vs h
    children-hash (child k n cs) p vs h =
        children-hash_cons k n cs p vs h (measure-hash n) (children-hash cs p)
