-- ===== src/Tree/Places.antt =====
-- What a walk finds after a write at a place, and what the write leaves alone.
use mathlib.Core.Path.{subst}
use mem_sandbox.Base.{
  ◌≡◌, refl, sym, ◌∙◌, ◌≢◌, inl, inr, Option, none, some, List, [], ◌∷◌, ◌++◌, arith,
}
use mem_sandbox.Errors.{ok}
use mem_sandbox.Strings.{Text}
use mem_sandbox.Utf8.{Bytes}
use mem_sandbox.Tree.{Node, file, directory, Children, get, put, try_get_node, modify}
use mem_sandbox.Tree.Dict.{get-put_self, get-put_ne}
use mem_sandbox.Paths.Ancestors.{Diverges, Avoids}

-- The walk along these segments ends at this directory.
abbrev pub DirectoryAt : List Text → Children → Children → Type 0
DirectoryAt ss cs d = try_get_node (directory cs) ss ≡ ok (some (directory d))

pub try_get_node-child :
    (s : Text) (ss : List Text) (cs : Children) (n : Node)
    → get s cs ≡ some n
    → try_get_node (directory cs) (s ∷ ss) ≡ try_get_node n ss
unfolding try_get_node
try_get_node-child s ss cs n h = rw (h, try_get_node)

pub try_get_node-missing :
    (s : Text) (ss : List Text) (cs : Children)
    → get s cs ≡ none
    → try_get_node (directory cs) (s ∷ ss) ≡ ok none
unfolding try_get_node
try_get_node-missing s ss cs h = rw (h, try_get_node)

-- Walks in two directories agree below a name that both hold alike.
pub try_get_node-same :
    (s : Text) (ss : List Text) (cs ds : Children)
    → get s cs ≡ get s ds
    → try_get_node (directory cs) (s ∷ ss) ≡ try_get_node (directory ds) (s ∷ ss)
unfolding try_get_node
try_get_node-same s ss cs ds h = rw (h, try_get_node)

pub modify-child :
    (s : Text) (ss : List Text) (f : Children → Children) (cs d : Children)
    → get s cs ≡ some (directory d)
    → modify (s ∷ ss) f cs ≡ put s (directory (modify ss f d)) cs
unfolding modify
modify-child s ss f cs d h = rw (h, modify)

file-not-DirectoryAt :
    (ss : List Text) (b : Bytes) (d : Children) → try_get_node (file b) ss ≢ ok (some (directory d))
unfolding try_get_node
file-not-DirectoryAt [] b d h = cc
file-not-DirectoryAt (s ∷ ss) b d h = cc

-- A walk along a path through its first segment.
pub DirectoryAt-cons :
    (s : Text) (ss : List Text) (cs d : Children)
    → DirectoryAt (s ∷ ss) cs d
    → (next : Children) × (get s cs ≡ some (directory next)) × DirectoryAt ss next d
DirectoryAt-cons s ss cs d h = go (get s cs) refl
  where
    go :
        (o : Option Node)
        → get s cs ≡ o
        → (next : Children) × (get s cs ≡ some (directory next)) × DirectoryAt ss next d
    go none e = absurd (cc (h, try_get_node-missing s ss cs e))
    go (some (file b)) e =
        absurd (file-not-DirectoryAt ss b d (sym (try_get_node-child s ss cs (file b) e) ∙ h))
    go (some (directory next)) e =
        (next, e, sym (try_get_node-child s ss cs (directory next) e) ∙ h)

-- Behind the place of a write stands what was written.
pub try_get_node-modify :
    (ss rest : List Text) (f : Children → Children) (cs d : Children)
    → DirectoryAt ss cs d
    → try_get_node (directory (modify ss f cs)) (ss ++ rest) ≡ try_get_node (directory (f d)) rest
try_get_node-modify [] rest f cs d h = unfold modify try_get_node in ground arith
try_get_node-modify (s ∷ ss) rest f cs d h =
    let (next, e, below) = DirectoryAt-cons s ss cs d h in
    rw (modify-child s ss f cs next e) (
      try_get_node-child s (ss ++ rest) _ _ (get-put_self s (directory (modify ss f next)) cs)
      ∙ try_get_node-modify ss rest f next d below)

-- A write to one name of a directory leaves every walk alone that diverges from its place.
module _ (f : Children → Children) (k : Text)
    (keeps : (j : Text) (cs : Children) → k ≢ j → get j (f cs) ≡ get j cs) where
  below_modify :
      (s : Text) (ss : List Text) (x : Text) (q : List Text) (cs : Children) (o : Option Node)
      → get s cs ≡ o
      → Diverges (s ∷ (ss ++ k ∷ [])) (x ∷ q)
      → ((d : Children)
          → Diverges (ss ++ k ∷ []) q
          → try_get_node (directory (modify ss f d)) q ≡ try_get_node (directory d) q)
      → try_get_node (directory (modify (s ∷ ss) f cs)) (x ∷ q)
        ≡ try_get_node (directory cs) (x ∷ q)
  below_modify s ss x q cs none e _ ih = unfold modify in rw (e, modify)
  below_modify s ss x q cs (some (file b)) e _ ih = unfold modify in rw (e, modify)
  below_modify s ss x q cs (some (directory d)) e (inl ne) ih =
      rw (modify-child s ss f cs d e) (try_get_node-same x q _ cs (get-put_ne x s _ cs ne))
  below_modify s ss x q cs (some (directory d)) e (inr (same, below)) ih =
      rw (modify-child s ss f cs d e) (
        try_get_node-child x q _ (directory (modify ss f d)) (
          subst
            (λ y. get y (put s (directory (modify ss f d)) cs) ≡ some (directory (modify ss f d)))
            same (get-put_self s (directory (modify ss f d)) cs))
        ∙ ih d below
        ∙ sym (
            try_get_node-child x q cs (directory d)
              (subst (λ y. get y cs ≡ some (directory d)) same e)))

  pub try_get_node-modify_outside :
      (ss q : List Text) (cs : Children)
      → Diverges (ss ++ k ∷ []) q
      → try_get_node (directory (modify ss f cs)) q ≡ try_get_node (directory cs) q
  try_get_node-modify_outside [] [] cs h = elim h [ ]
  try_get_node-modify_outside [] (x ∷ q) cs (inl ne) =
      unfold modify in try_get_node-same x q (f cs) cs (keeps x cs ne)
  try_get_node-modify_outside [] (x ∷ q) cs (inr (e, h)) = elim h [ ]
  try_get_node-modify_outside (s ∷ ss) [] cs h = elim h [ ]
  try_get_node-modify_outside (s ∷ ss) (x ∷ q) cs h =
      below_modify s ss x q cs (get s cs) refl h (λ d. try_get_node-modify_outside ss q d)

  below_modify-DirectoryAt :
      (s : Text) (ss : List Text) (x : Text) (q : List Text) (cs d : Children) (o : Option Node)
      → get s cs ≡ o
      → Avoids (s ∷ (ss ++ k ∷ [])) (x ∷ q)
      → DirectoryAt (x ∷ q) cs d
      → ((c : Children)
          → Avoids (ss ++ k ∷ []) q
          → DirectoryAt q c d
          → (d' : Children) × DirectoryAt q (modify ss f c) d')
      → (d' : Children) × DirectoryAt (x ∷ q) (modify (s ∷ ss) f cs) d'
  below_modify-DirectoryAt s ss x q cs d none e _ h ih = (d, unfold modify in rw (e, modify) h)
  below_modify-DirectoryAt s ss x q cs d (some (file b)) e _ h ih =
      (d, unfold modify in rw (e, modify) h)
  below_modify-DirectoryAt s ss x q cs d (some (directory c)) e (inl ne) h ih = (
    d,
    rw (modify-child s ss f cs c e)
        (try_get_node-same x q _ cs (get-put_ne x s (directory (modify ss f c)) cs ne) ∙ h),
  )
  below_modify-DirectoryAt s ss x q cs d (some (directory c)) e (inr (same, below)) h ih =
      let h' : DirectoryAt (s ∷ q) cs d = subst (λ y. DirectoryAt (y ∷ q) cs d) (sym same) h in
      let (d', g) = ih c below (sym (try_get_node-child s q cs (directory c) e) ∙ h') in
      (
        d',
        rw (modify-child s ss f cs c e) (
            subst (λ y. DirectoryAt (y ∷ q) (put s (directory (modify ss f c)) cs) d') same
              (try_get_node-child s q _ _ (get-put_self s (directory (modify ss f c)) cs) ∙ g)),
      )

  -- A directory that does not lie below the place of the write is still a directory.
  pub modify-DirectoryAt :
      (ss q : List Text) (cs d : Children)
      → Avoids (ss ++ k ∷ []) q
      → DirectoryAt q cs d
      → (d' : Children) × DirectoryAt q (modify ss f cs) d'
  modify-DirectoryAt ss [] cs d v h = (modify ss f cs, unfold try_get_node in refl)
  modify-DirectoryAt [] (x ∷ q) cs d (inl ne) h =
      (d, unfold modify in try_get_node-same x q (f cs) cs (keeps x cs ne) ∙ h)
  modify-DirectoryAt [] (x ∷ q) cs d (inr (e, v)) h = absurd v
  modify-DirectoryAt (s ∷ ss) (x ∷ q) cs d v h =
      below_modify-DirectoryAt s ss x q cs d (get s cs) refl v h (λ c. modify-DirectoryAt ss q c d)
