-- ===== src/Paths/Canonical.antt =====
-- Which texts the constructor of `SandboxPath` accepts.
use mathlib.Core.Path.{subst}
use mem_sandbox.Base.{
  drop, All, ◌≡◌, refl, sym, ap, ◌∙◌, ◌≢◌, ◌↔◌, ◌⊎◌, inl, inr, true, false, ◌||◌, List, [], ◌∷◌,
  ◌++◌, arith,
}
use mem_sandbox.Errors.{ok}
use mem_sandbox.Strings.{
  Text, codes, text_eq, has_char, starts_with, text_eq_iff, text_eq_refl, has_char-append, split,
  join, join-split, split-HasNo, split-ne-nil, split-piece, starts_with-inv,
}
use mem_sandbox.Paths.{
  slash, root_value, root_prefix, workspace_name, SandboxPath, any_reserved, tail_segments,
  canonical_absolute, construct,
}
use mem_sandbox.Paths.Render.{
  IsSegment, trail, render, workspace_name-IsSegment, trail-eq-join, split-trail, has_no_nul-trail,
  any_reserved-segments, no_odd_slashes,
}

-- A path with these segments under the root.
abbrev pub at : List Text → SandboxPath
at ss = record { value = render ss }

tail_segments-render :
    (ss : List Text) → All IsSegment ss → tail_segments (render ss) ≡ workspace_name ∷ ss
tail_segments-render ss a =
    ap (drop 1) (split-trail workspace_name ss (workspace_name-IsSegment, a))

pub begins_with_slash : (ss : List Text) → starts_with (codes "/") (render ss) ≡ true
unfolding starts_with
begins_with_slash ss = refl

-- A canonical text is the root's, or it begins with the root and a slash.
pub below_root :
    (ss : List Text)
    → (text_eq (render ss) root_value || starts_with root_prefix (render ss)) ≡ true
unfolding text_eq starts_with
below_root [] = refl
below_root (s ∷ ss) = refl

canonical-render : (ss : List Text) → All IsSegment ss → canonical_absolute (render ss) ≡ render ss
unfolding canonical_absolute
canonical-render ss a = ground (
  arith,
  begins_with_slash ss,
  below_root ss,
  no_odd_slashes (workspace_name ∷ ss) (workspace_name-IsSegment, a),
  no_reserved,
  has_no_nul-trail (workspace_name ∷ ss) (workspace_name-IsSegment, a),
)
  where
    no_reserved : any_reserved (tail_segments (render ss)) ≡ false
    no_reserved =
        rw (tail_segments-render ss a)
          (any_reserved-segments (workspace_name ∷ ss) (workspace_name-IsSegment, a))

-- The constructor accepts the text of every path made of proper segments, and returns that path.
pub construct-render : (ss : List Text) → All IsSegment ss → construct (render ss) ≡ ok (at ss)
unfolding construct
construct-render ss a = rw (canonical-render ss a, text_eq_refl (render ss))

-- The segments of a text that passes the tests, each with what the tests say of it.
segments-IsSegment :
    (ss : List Text)
    → any_reserved ss ≡ false
    → All (λ s. has_char slash s ≡ false) ss
    → has_char 0 (trail ss) ≡ false
    → All IsSegment ss
unfolding any_reserved has_char
segments-IsSegment [] r n z = tt
segments-IsSegment (s ∷ ss) r (n, ns) z = (
  record {
    not_empty = ground arith;
    not_dot = ground arith;
    not_dotdot = ground arith;
    no_slash = n;
    no_nul = ground (arith, has_char-append 0 s (trail ss));
  },
  segments-IsSegment ss (ground arith) ns (ground (arith, has_char-append 0 s (trail ss))),
)

-- What the tests leave of an accepted text that is not empty.
accepted_cases :
    (v : Text)
    → canonical_absolute v ≡ v
    → v ≢ []
    → (v ≡ root_value)
      ⊎ ((starts_with root_prefix v ≡ true)
          × (any_reserved (tail_segments v) ≡ false)
          × (has_char 0 v ≡ false))
unfolding canonical_absolute
accepted_cases v h n = ground (arith, text_eq_iff v root_value)

tail_segments-root_prefix :
    (r : Text) → tail_segments (root_prefix ++ r) ≡ workspace_name ∷ split slash r
tail_segments-root_prefix r =
    rw (split-piece slash [] (workspace_name ++ (slash ∷ r)) (unfold has_char in refl))
      (split-piece slash workspace_name r (unfold has_char in refl))

render-split :
    (r s : Text) (ss : List Text) → split slash r ≡ s ∷ ss → root_prefix ++ r ≡ render (s ∷ ss)
render-split r s ss h =
    ap (λ t. root_value ++ t)
      (ap (λ t. slash ∷ t) (sym (join-split slash r) ∙ ap (join slash) h)
        ∙ sym (trail-eq-join s ss))

any_reserved-tail :
    (ss : List Text) → any_reserved (workspace_name ∷ ss) ≡ false → any_reserved ss ≡ false
unfolding any_reserved text_eq
any_reserved-tail ss h = h

below_root-render :
    (r : Text)
    → any_reserved (tail_segments (root_prefix ++ r)) ≡ false
    → has_char 0 (root_prefix ++ r) ≡ false
    → (ss : List Text) × All IsSegment ss × (root_prefix ++ r ≡ render ss)
below_root-render r res z = go (split slash r) refl
  where
    go :
        (ss : List Text)
        → split slash r ≡ ss
        → (ss : List Text) × All IsSegment ss × (root_prefix ++ r ≡ render ss)
    go [] h = absurd (split-ne-nil slash r h)
    go (s ∷ ss) h =
        let e : root_prefix ++ r ≡ render (s ∷ ss) = render-split r s ss h in
        (
          s ∷ ss,
          segments-IsSegment (s ∷ ss)
              (any_reserved-tail (s ∷ ss) (rw (← h) (rw (tail_segments-root_prefix r) at res)))
              (subst (All (λ t. has_char slash t ≡ false)) h (split-HasNo slash r))
              (ground (arith, has_char-append 0 root_value (trail (s ∷ ss)), rw e at z)),
          e,
        )

-- A text that the constructor accepts becomes the value of the path, and it is empty or the text of a
-- path made of proper segments: segments that are not empty, `.` or `..`, without slash and NUL.
pub construct-eq-ok :
    (v : Text) (p : SandboxPath)
    → construct v ≡ ok p
    → (p.value ≡ v) × ((v ≡ []) ⊎ ((ss : List Text) × All IsSegment ss × (v ≡ render ss)))
unfolding construct
construct-eq-ok [] p h = (ground arith, inl refl)
construct-eq-ok (c ∷ cs) p h = (ground arith, inr (go cases))
  where
    v : Text
    v = c ∷ cs

    cases :
        (v ≡ root_value)
        ⊎ ((starts_with root_prefix v ≡ true)
            × (any_reserved (tail_segments v) ≡ false)
            × (has_char 0 v ≡ false))
    cases = accepted_cases (c ∷ cs) (ground (arith, text_eq_iff v (canonical_absolute v))) (λ e. cc)

    go :
        (v ≡ root_value)
          ⊎ ((starts_with root_prefix v ≡ true)
              × (any_reserved (tail_segments v) ≡ false)
              × (has_char 0 v ≡ false))
        → (ss : List Text) × All IsSegment ss × (v ≡ render ss)
    go (inl e) = ([], tt, e)
    go (inr (b, res, z)) =
        let (r, e) = starts_with-inv root_prefix v b in
        let (ss, a, f) = below_root-render r (rw e at res) (rw e at z) in (ss, a, e ∙ f)

-- The constructor accepts exactly the texts of paths made of proper segments, and the empty text:
-- a proper segment is not empty, `.` or `..`, and holds no slash and no NUL.
pub construct_iff :
    (v : Text)
    → (construct v ≡ ok (record { value = v }))
      ↔ ((v ≡ []) ⊎ ((ss : List Text) × All IsSegment ss × (v ≡ render ss)))
construct_iff v = (λ h. (construct-eq-ok v (record { value = v }) h).1, back)
  where
    back :
        (v ≡ []) ⊎ ((ss : List Text) × All IsSegment ss × (v ≡ render ss))
        → construct v ≡ ok (record { value = v })
    back (inl e) = rw e (unfold construct canonical_absolute text_eq starts_with in refl)
    back (inr (ss, a, e)) = rw e (construct-render ss a)
