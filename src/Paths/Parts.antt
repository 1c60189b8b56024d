-- ===== src/Paths/Parts.antt =====
-- Segments, name, parent and ancestors of a canonical path.
use mem_sandbox.Base.{
  drop, init, last_or-snoc, All, All-init, ◌≡◌, refl, ap, true, false, List, [], ◌∷◌, ◌++◌,
}
use mem_sandbox.Errors.{ok}
use mem_sandbox.Strings.{Text, text_eq, has_char, split-join}
use mem_sandbox.Paths.{slash, root, is_root, parts, name, parent_of, parent}
use mem_sandbox.Paths.Render.{IsSegment, trail-eq-join}
use mem_sandbox.Paths.Canonical.{at, construct-render}

pub is_root-at_cons : (s : Text) (ss : List Text) → is_root (at (s ∷ ss)) ≡ false
unfolding is_root text_eq
is_root-at_cons s ss = refl

pub is_root-root : is_root root ≡ true
unfolding is_root text_eq
is_root-root = refl

All-no_slash : (ss : List Text) → All IsSegment ss → All (λ s. has_char slash s ≡ false) ss
All-no_slash [] a = tt
All-no_slash (s ∷ ss) (h, a) = (h.no_slash, All-no_slash ss a)

-- The `parts` of a canonical path are those that it was made of.
pub parts-at : (ss : List Text) → All IsSegment ss → parts (at ss) ≡ ss
unfolding parts
parts-at [] a = rw is_root-root
parts-at (s ∷ ss) a =
    rw (is_root-at_cons s ss, ap (drop 1) (trail-eq-join s ss))
      (split-join slash s ss (All-no_slash (s ∷ ss) a))

pub name-at :
    (ss : List Text) (s : Text) → All IsSegment (ss ++ s ∷ []) → name (at (ss ++ s ∷ [])) ≡ s
unfolding name
name-at [] s a = rw (is_root-at_cons s [], parts-at (s ∷ []) a)
name-at (r ∷ rs) s a =
    rw (is_root-at_cons r (rs ++ s ∷ []), parts-at (r ∷ (rs ++ s ∷ [])) a)
      (last_or-snoc (r ∷ rs) s [])

parent_of-at : (ss : List Text) → All IsSegment ss → parent_of ss ≡ ok (at ss)
unfolding parent_of
parent_of-at [] a = refl
parent_of-at (s ∷ ss) a = rw (← trail-eq-join s ss) (construct-render (s ∷ ss) a)

-- The parent of a canonical path drops the last segment, and the root is its own parent.
pub parent-at : (ss : List Text) → All IsSegment ss → parent (at ss) ≡ ok (at (init ss))
unfolding parent
parent-at [] a = rw is_root-root
parent-at (s ∷ ss) a =
    rw (is_root-at_cons s ss, parts-at (s ∷ ss) a)
      (parent_of-at (init (s ∷ ss)) (All-init IsSegment (s ∷ ss) a))
