-- ===== src/Workspace/Patches/Apart.antt =====
-- Different paths of files lie apart, so the files of a patch are placed independently.
use mathlib.Core.Path.{subst}
use mem_sandbox.Base.{
  Bool-cases, All, ◌≡◌, refl, sym, ap, ◌∙◌, ◌≢◌, inl, inr, false, Option, none, some, List, [], ◌∷◌,
}
use mem_sandbox.Errors.{ok, >>=-eq-ok}
use mem_sandbox.Strings.{Text, text_eq, text_eq_iff, text_eq_refl}
use mem_sandbox.Utf8.{Bytes}
use mem_sandbox.Paths.{SandboxPath, is_root, parts}
use mem_sandbox.Paths.Render.{IsSegment}
use mem_sandbox.Paths.Canonical.{at}
use mem_sandbox.Paths.Parts.{parts-at}
use mem_sandbox.Tree.{Node, file, directory, Children, get, try_get_node, get_parent, place}
use mem_sandbox.Paths.Ancestors.{Diverges}
use mem_sandbox.Tree.Places.{try_get_node-child, try_get_node-missing}
use mem_sandbox.Workspace.Writes.{find}
use mem_sandbox.Workspace.Published.{find-place}
use mem_sandbox.Workspace.PathEnds.{find-root}
use mem_sandbox.Workspace.Frames.{find-place_outside, get_parent-DirectoryAt}
use mem_sandbox.Workspace.Patches.Updates.{FileUpdate, place_updates}

file_end : (b c : Bytes) (ss : List Text) → try_get_node (file b) ss ≡ ok (some (file c)) → ss ≡ []
unfolding try_get_node
file_end b c [] h = refl
file_end b c (s ∷ ss) h = absurd (cc h)

files_diverge :
    (xs ys : List Text) (cs : Children) (b c : Bytes)
    → try_get_node (directory cs) xs ≡ ok (some (file b))
    → try_get_node (directory cs) ys ≡ ok (some (file c))
    → xs ≢ ys
    → Diverges xs ys
unfolding try_get_node
files_diverge [] ys cs b c h k ne = absurd (cc h)
files_diverge (x ∷ xs) [] cs b c h k ne = absurd (cc k)
files_diverge (x ∷ xs) (y ∷ ys) cs b c h k ne = elim (Bool-cases (text_eq x y)) [
  | inr e ↦ inl (λ s. cc (rw (s, text_eq_refl y) at e))
  | inl e ↦
      let same : x ≡ y = (text_eq_iff x y).0 e in
      inr (same, below (λ d h' k' ne'. files_diverge xs ys d b c h' k' ne') (get x cs) refl same)
]
  where
    below :
        ((d : Children)
          → try_get_node (directory d) xs ≡ ok (some (file b))
          → try_get_node (directory d) ys ≡ ok (some (file c))
          → xs ≢ ys
          → Diverges xs ys)
        → (o : Option Node) → get x cs ≡ o
        → x ≡ y
        → Diverges xs ys
    below rec none g same = absurd (cc (sym (try_get_node-missing x xs cs g) ∙ h))
    below rec (some (directory d)) g same =
        rec d (sym (try_get_node-child x xs cs (directory d) g) ∙ h)
          (sym (
              try_get_node-child y ys cs (directory d)
                (subst (λ z. get z cs ≡ some (directory d)) same g))
            ∙ k)
          (λ t. ne (ap (λ z. z ∷ xs) same ∙ ap (λ z. y ∷ z) t))
    below rec (some (file d)) g same = absurd (
        ne (
          cc (
            same,
            file_end d b xs (sym (try_get_node-child x xs cs (file d) g) ∙ h),
            file_end d c ys (
                sym (
                  try_get_node-child y ys cs (file d)
                    (subst (λ z. get z cs ≡ some (file d)) same g))
                ∙ k),
          )))

-- A path made of proper segments.
abbrev pub IsMade : SandboxPath → Type 0
IsMade p = (ss : List Text) × All IsSegment ss × (p ≡ at ss)

-- Paths of files that are different texts lie apart.
pub files-Diverges :
    (p q : SandboxPath) (cs : Children) (b c : Bytes)
    → IsMade p
    → IsMade q
    → find cs p ≡ ok (some (file b))
    → find cs q ≡ ok (some (file c))
    → text_eq p.value q.value ≡ false
    → Diverges (parts p) (parts q)
files-Diverges p q cs b c (xs, a, e) (ys, a', e') h k ne =
    files_diverge (parts p) (parts q) cs b c h k λ same.
      let segments : xs ≡ ys =
        sym (parts-at xs a) ∙ ap parts (sym e) ∙ same ∙ ap parts e' ∙ parts-at ys a' in
      let equal : p.value ≡ q.value =
        ap (λ (r : SandboxPath). r.value) (e ∙ ap at segments ∙ sym e') in
      cc (rw (equal, text_eq_refl q.value) at ne)

pub file-not_root :
    (cs : Children) (p : SandboxPath) (b : Bytes)
    → find cs p ≡ ok (some (file b))
    → is_root p ≡ false
file-not_root cs p b h = elim (Bool-cases (is_root p)) [
  | inl e ↦ absurd (cc (h, find-root cs p e))
  | inr e ↦ e
]

-- The paths of updates lie apart from a path.
abbrev pub AllApart : SandboxPath → List FileUpdate → Type 0
AllApart q us = All (λ (u : FileUpdate). Diverges (parts u.path) (parts q)) us

unfoldable pub PairwiseApart : List FileUpdate → Type 0
PairwiseApart [] = Unit
PairwiseApart (u ∷ us) = AllApart u.path us × PairwiseApart us

pub place_updates-outside :
    (q : SandboxPath) (us : List FileUpdate) (cs out : Children)
    → All (λ (u : FileUpdate). is_root u.path ≡ false) us
    → AllApart q us
    → place_updates us cs ≡ ok out
    → find out q ≡ find cs q
unfolding place_updates
place_updates-outside q [] cs out n a h = let same : cs ≡ out = cc h in rw same refl
place_updates-outside q (u ∷ us) cs out (n, ns) (a, rest) h =
    let (d, _, h1) = >>=-eq-ok (get_parent cs u.path) _ h in
    place_updates-outside q us (place u.path (file u.content) cs) out ns rest h1
    ∙ find-place_outside u.path q n a (file u.content) cs

-- Updates that lie apart are all there once they are placed.
pub find-place_updates :
    (us : List FileUpdate) (cs out : Children)
    → All (λ (u : FileUpdate). is_root u.path ≡ false) us
    → All (λ (u : FileUpdate). IsMade u.path) us
    → PairwiseApart us
    → place_updates us cs ≡ ok out
    → All (λ (u : FileUpdate). find out u.path ≡ ok (some (file u.content))) us
unfolding place_updates PairwiseApart
find-place_updates [] cs out n m a h = tt
find-place_updates (u ∷ us) cs out (n, ns) (m, ms) (a, rest) h =
    let (d, up, h1) = >>=-eq-ok (get_parent cs u.path) _ h in
    (
      place_updates-outside u.path us (place u.path (file u.content) cs) out ns a h1
          ∙ find-place u.path (file u.content) cs d n (get_parent-DirectoryAt u.path cs d m up),
      find-place_updates us (place u.path (file u.content) cs) out ns ms rest h1,
    )
