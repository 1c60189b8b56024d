-- ===== src/Clone/Laws.antt =====
-- A clone is the tree itself, as long as its nodes keep the limit.
use mem_sandbox.Base.{ltb, leb, if◌then◌else◌, ℕ, ◌+◌, ◌≤◌, ◌≡◌, sym, ap, ◌∙◌, Bool, arith}
use mem_sandbox.Errors.{node_limit_exceeded, Result, err, ok, raise_if, ◌>>=◌, >>=-eq-ok}
use mem_sandbox.Strings.{Text}
use mem_sandbox.Utf8.{Bytes}
use mem_sandbox.Tree.{Node, file, directory, Children, empty, child, require_directory}
use mem_sandbox.Clone.{clone_counted, clone_children, clone_node, clone_directory}

unfoldable mutual
  -- The entries below a node, itself left out.
  pub below : Node → ℕ
  below (file content) = 0
  below (directory cs) = entries cs

  pub entries : Children → ℕ
  entries empty = 0
  entries (child k n cs) = 1 + below n + entries cs

abbrev limited {ℓ} : {A : Type ℓ} → Bool → A → Result A
limited fits a = if fits then ok a else err node_limit_exceeded

mutual
  unfolding clone_counted below

  clone_counted_lem :
      (limit : ℕ) (n : Node) (count : ℕ)
      → count ≤ limit
      → clone_counted limit n count ≡ limited (leb (count + below n) limit) (n, count + below n)
  clone_counted_lem limit (file content) count h = ground arith
  clone_counted_lem limit (directory cs) count h =
      ground (arith, clone_children_lem limit cs count h)

  clone_children_lem :
      (limit : ℕ) (cs : Children) (count : ℕ)
      → count ≤ limit
      → clone_children limit cs count
        ≡ limited (leb (count + entries cs) limit) (cs, count + entries cs)
  clone_children_lem limit empty count h = ground arith
  clone_children_lem limit (child k n cs) count h = ground (
    arith,
    clone_counted_lem limit n (count + 1),
    clone_children_lem limit cs (count + 1 + below n),
  )

-- Under a limit of one node at least, `_clone_directory` returns the tree unchanged if the root and its entries keep the limit, and it
-- fails with the node limit's error if not.
pub clone_directory_lem :
    (cs : Children) (limit : ℕ)
    → 1 ≤ limit
    → clone_directory cs limit
      ≡ (if leb (1 + entries cs) limit then ok cs else err node_limit_exceeded)
unfolding clone_directory clone_node clone_counted
clone_directory_lem cs limit h = ground (arith, clone_children_lem limit cs 1 h)

-- `_clone_node` of any node.
pub clone_node_lem :
    (n : Node) (limit : ℕ)
    → 1 ≤ limit
    → clone_node n limit ≡ (if leb (1 + below n) limit then ok n else err node_limit_exceeded)
unfolding clone_node
clone_node_lem n limit h = ground (arith, clone_counted_lem limit n 1 h)

clone_counted-directory :
    (limit : ℕ) (cs : Children) (count : ℕ) (out : Node) (total : ℕ)
    → clone_counted limit (directory cs) count ≡ ok (out, total)
    → (copied : Children) × (t : ℕ) × (clone_children limit cs count ≡ ok (copied, t))
      × (directory copied ≡ out)
unfolding clone_counted
clone_counted-directory limit cs count out total h =
    let ((copied, t), e, g) =
      >>=-eq-ok (clone_children limit cs count) (λ (c, t). ok (directory c, t)) h in
    (copied, t, e, ground arith)

clone_children-child :
    (limit : ℕ) (k : Text) (n : Node) (cs : Children) (count : ℕ) (out : Children) (total : ℕ)
    → clone_children limit (child k n cs) count ≡ ok (out, total)
    → (copied : Node) × (t : ℕ) × (clone_counted limit n (count + 1) ≡ ok (copied, t))
      × (rest : Children) × (u : ℕ) × (clone_children limit cs t ≡ ok (rest, u))
      × (child k copied rest ≡ out)
unfolding clone_counted
clone_children-child limit k n cs count out total h =
    let (_, _, h₁) =
      >>=-eq-ok (raise_if (ltb limit (count + 1)) node_limit_exceeded)
        (λ _. clone_counted limit n (count + 1) >>= λ (c, t). rest c t) h in
    let ((copied, t), e, h₂) =
      >>=-eq-ok (clone_counted limit n (count + 1)) (λ (c, t). rest c t) h₁ in
    let ((others, u), f, g) =
      >>=-eq-ok (clone_children limit cs t) (λ (r, u). ok (child k copied r, u)) h₂ in
    (copied, t, e, others, u, f, ground arith)
  where
    rest : Node → ℕ → Result (Children × ℕ)
    rest c t = clone_children limit cs t >>= λ (r, u). ok (child k c r, u)

clone_counted-file :
    (limit : ℕ) (content : Bytes) (count : ℕ) (out : Node) (total : ℕ)
    → clone_counted limit (file content) count ≡ ok (out, total)
    → out ≡ file content
unfolding clone_counted
clone_counted-file limit content count out total h = ground arith

clone_children-empty :
    (limit : ℕ) (count : ℕ) (out : Children) (total : ℕ)
    → clone_children limit empty count ≡ ok (out, total)
    → out ≡ empty
unfolding clone_counted
clone_children-empty limit count out total h = ground arith

mutual
  clone_counted-eq-ok :
      (limit : ℕ) (n : Node) (count : ℕ) (out : Node) (total : ℕ)
      → clone_counted limit n count ≡ ok (out, total)
      → out ≡ n
  clone_counted-eq-ok limit (file content) count out total h =
      clone_counted-file limit content count out total h
  clone_counted-eq-ok limit (directory cs) count out total h =
      let (copied, t, e, g) = clone_counted-directory limit cs count out total h in
      sym g ∙ ap directory (clone_children-eq-ok limit cs count copied t e)

  clone_children-eq-ok :
      (limit : ℕ) (cs : Children) (count : ℕ) (out : Children) (total : ℕ)
      → clone_children limit cs count ≡ ok (out, total)
      → out ≡ cs
  clone_children-eq-ok limit empty count out total h = clone_children-empty limit count out total h
  clone_children-eq-ok limit (child k n cs) count out total h =
      let (copied, t, e, rest, u, f, g) = clone_children-child limit k n cs count out total h in
      cc (
        g,
        clone_counted-eq-ok limit n (count + 1) copied t e,
        clone_children-eq-ok limit cs t rest u f,
      )

-- A clone that succeeds is the tree itself.
pub clone_node-eq-ok : (n : Node) (limit : ℕ) (out : Node) → clone_node n limit ≡ ok out → out ≡ n
unfolding clone_node
clone_node-eq-ok n limit out h =
    let ((copied, t), e, g) = >>=-eq-ok (clone_counted limit n 1) (λ (c, t). ok c) h in
    ground (arith, clone_counted-eq-ok limit n 1 copied t e)

pub clone_directory-eq-ok :
    (cs : Children) (limit : ℕ) (out : Children) → clone_directory cs limit ≡ ok out → out ≡ cs
unfolding clone_directory
clone_directory-eq-ok cs limit out h =
    let (copied, e, g) = >>=-eq-ok (clone_node (directory cs) limit) require_directory h in
    ground (arith, clone_node-eq-ok (directory cs) limit copied e)
