-- ===== src/Paths/Render.antt =====
-- The text of a path with given segments, and what the tests of `_canonical_absolute` say of it.
use mem_sandbox.Base.{All, ◌≡◌, refl, ap, false, ◌||◌, List, [], ◌∷◌, ◌++◌, append-nil, arith}
use mem_sandbox.Strings.{
  Text, codes, text_eq, has_char, starts_with, has_char-append, split, join, split-join, contains,
  ends_with, contains-append, ends_with-append,
}
use mem_sandbox.Paths.{slash, root_value, workspace_name, any_reserved}

-- A name that can stand between two slashes of a canonical path.
pub record IsSegment (s : Text) : Type 0 where
  pub not_empty : text_eq s [] ≡ false
  pub not_dot : text_eq s (codes ".") ≡ false
  pub not_dotdot : text_eq s (codes "..") ≡ false
  pub no_slash : has_char slash s ≡ false
  pub no_nul : has_char 0 s ≡ false

-- Each segment behind a slash.
abbrev pub trail : List Text → Text
trail [] = []
trail (s ∷ ss) = slash ∷ (s ++ trail ss)

-- The canonical text of the path with these segments under the root.
abbrev pub render : List Text → Text
render ss = root_value ++ trail ss

pub workspace_name-IsSegment : IsSegment workspace_name
unfolding text_eq has_char
workspace_name-IsSegment = record {
  not_empty = refl;
  not_dot = refl;
  not_dotdot = refl;
  no_slash = refl;
  no_nul = refl;
}

pub trail-eq-join : (s : Text) (ss : List Text) → trail (s ∷ ss) ≡ slash ∷ join slash (s ∷ ss)
unfolding join
trail-eq-join s [] = rw append-nil
trail-eq-join s (t ∷ ss) = ap (λ r. slash ∷ (s ++ r)) (trail-eq-join t ss)

All-no_slash : (ss : List Text) → All IsSegment ss → All (λ s. has_char slash s ≡ false) ss
All-no_slash [] a = tt
All-no_slash (s ∷ ss) (h, a) = (h.no_slash, All-no_slash ss a)

pub split-trail :
    (s : Text) (ss : List Text)
    → All IsSegment (s ∷ ss)
    → split slash (trail (s ∷ ss)) ≡ [] ∷ s ∷ ss
split-trail s ss a =
    rw (trail-eq-join s ss) (unfold split in rw (split-join slash s ss (All-no_slash (s ∷ ss) a)))

-- What may follow a slash in a pattern that no canonical path holds.
no_slash_next : (s r : Text) → IsSegment s → starts_with (codes "/") (s ++ r) ≡ false
unfolding starts_with text_eq has_char
no_slash_next [] r h = cc (h.not_empty)
no_slash_next (x ∷ xs) r h = ground (arith, h.no_slash)

no_dot_next : (s r : Text) → IsSegment s → starts_with (codes "./") (s ++ r) ≡ false
unfolding starts_with text_eq has_char
no_dot_next [] r h = cc (h.not_empty)
no_dot_next (x ∷ []) r h = ground (arith, h.not_dot)
no_dot_next (x ∷ y ∷ ys) r h = ground (arith, h.no_slash)

ends_next : (s r : Text) → IsSegment s → text_eq [] (s ++ r) ≡ false
unfolding text_eq
ends_next [] r h = cc (h.not_empty)
ends_next (x ∷ xs) r h = refl

ends_dot_next : (s r : Text) → IsSegment s → text_eq (codes ".") (s ++ r) ≡ false
unfolding text_eq
ends_dot_next [] r h = cc (h.not_empty)
ends_dot_next (x ∷ []) r h = ground (arith, h.not_dot)
ends_dot_next (x ∷ y ∷ ys) r h = ground arith

module _ (p : Text) (next : (s r : Text) → IsSegment s → starts_with p (s ++ r) ≡ false) where
  pub contains-trail : (ss : List Text) → All IsSegment ss → contains (slash ∷ p) (trail ss) ≡ false
  unfolding contains
  contains-trail [] a = refl
  contains-trail (s ∷ ss) (h, a) = ground (
    arith,
    next s (trail ss) h,
    contains-append slash p s (trail ss) h.no_slash,
    contains-trail ss a,
  )

module _ (p : Text) (next : (s r : Text) → IsSegment s → text_eq p (s ++ r) ≡ false) where
  pub ends_with-trail :
      (ss : List Text) → All IsSegment ss → ends_with (slash ∷ p) (trail ss) ≡ false
  unfolding ends_with text_eq
  ends_with-trail [] a = refl
  ends_with-trail (s ∷ ss) (h, a) = ground (
    arith,
    next s (trail ss) h,
    ends_with-append slash p s (trail ss) h.no_slash,
    ends_with-trail ss a,
  )

pub has_no_nul-trail : (ss : List Text) → All IsSegment ss → has_char 0 (trail ss) ≡ false
unfolding has_char
has_no_nul-trail [] a = refl
has_no_nul-trail (s ∷ ss) (h, a) =
    ground (arith, has_char-append 0 s (trail ss), h.no_nul, has_no_nul-trail ss a)

pub any_reserved-segments : (ss : List Text) → All IsSegment ss → any_reserved ss ≡ false
unfolding any_reserved
any_reserved-segments [] a = refl
any_reserved-segments (s ∷ ss) (h, a) =
    ground (arith, h.not_empty, h.not_dot, h.not_dotdot, any_reserved-segments ss a)

-- The four tests on slashes and dots, at a canonical text.
pub no_odd_slashes :
    (ss : List Text)
    → All IsSegment ss
    → (contains (codes "//") (trail ss)
        || contains (codes "/./") (trail ss)
        || ends_with (codes "/.") (trail ss)
        || ends_with (codes "/") (trail ss))
      ≡ false
no_odd_slashes ss a = rw (
  contains-trail (codes "/") no_slash_next ss a,
  contains-trail (codes "./") no_dot_next ss a,
  ends_with-trail (codes ".") ends_dot_next ss a,
  ends_with-trail [] ends_next ss a,
)
