-- ===== src/Paths/Ancestors.antt =====
-- `is_ancestor_of` on canonical paths, and paths of which neither contains the other.
use mem_sandbox.Base.{
  Bool-cases, init, All, ◌≡◌, refl, sym, ap, ◌∙◌, ◌≢◌, ◌⊎◌, inl, inr, Bool, true, false, ◌&&◌, List,
  [], ◌∷◌, ◌++◌, append_assoc, arith,
}
use mem_sandbox.Strings.{Text, text_eq, has_char, starts_with, text_eq_iff}
use mem_sandbox.Paths.{slash, is_ancestor_of}
use mem_sandbox.Paths.Render.{IsSegment, trail}
use mem_sandbox.Paths.Canonical.{at}

-- The first list is a proper beginning of the second.
unfoldable pub strict_prefix : List Text → List Text → Bool
strict_prefix [] [] = false
strict_prefix [] (y ∷ ys) = true
strict_prefix (x ∷ xs) [] = false
strict_prefix (x ∷ xs) (y ∷ ys) = text_eq x y && strict_prefix xs ys

-- Neither list of segments begins with the other.
abbrev pub Diverges : List Text → List Text → Type 0
Diverges [] ys = ⊥
Diverges (x ∷ xs) [] = ⊥
Diverges (x ∷ xs) (y ∷ ys) = (x ≢ y) ⊎ ((x ≡ y) × Diverges xs ys)

-- The second list does not begin with the first.
abbrev pub Avoids : List Text → List Text → Type 0
Avoids [] ys = ⊥
Avoids (x ∷ xs) [] = Unit
Avoids (x ∷ xs) (y ∷ ys) = (x ≢ y) ⊎ ((x ≡ y) × Avoids xs ys)

pub Diverges-not_nil : (xs : List Text) → Diverges xs [] → ⊥
Diverges-not_nil [] h = h
Diverges-not_nil (x ∷ xs) h = h

pub Diverges-sym : (xs ys : List Text) → Diverges xs ys → Diverges ys xs
Diverges-sym [] ys h = absurd h
Diverges-sym (x ∷ xs) [] h = absurd h
Diverges-sym (x ∷ xs) (y ∷ ys) (inl ne) = inl (λ e. ne (sym e))
Diverges-sym (x ∷ xs) (y ∷ ys) (inr (e, h)) = inr (sym e, Diverges-sym xs ys h)

pub Avoids-init : (xs ys : List Text) → Diverges xs ys → Avoids xs (init ys)
Avoids-init [] ys h = absurd h
Avoids-init (x ∷ xs) [] h = absurd h
Avoids-init (x ∷ xs) (y ∷ []) h = tt
Avoids-init (x ∷ xs) (y ∷ z ∷ zs) (inl ne) = inl ne
Avoids-init (x ∷ xs) (y ∷ z ∷ zs) (inr (e, h)) = inr (e, Avoids-init xs (z ∷ zs) h)

-- Two pieces without slashes, each before the end or a slash, are compared as a whole.
starts_with-piece :
    (x y p q : Text)
    → has_char slash x ≡ false
    → has_char slash y ≡ false
    → (q ≡ []) ⊎ ((r : Text) × (q ≡ slash ∷ r))
    → starts_with (x ++ (slash ∷ p)) (y ++ q) ≡ (text_eq x y && starts_with (slash ∷ p) q)
unfolding starts_with text_eq has_char
starts_with-piece [] [] p q hx hy e = ground arith
starts_with-piece [] (y ∷ ys) p q hx hy e = ground arith
starts_with-piece (x ∷ xs) [] p [] hx hy e = refl
starts_with-piece (x ∷ xs) [] p (c ∷ r) hx hy (inl e) = absurd (cc e)
starts_with-piece (x ∷ xs) [] p (c ∷ r) hx hy (inr (t, e)) = ground arith
starts_with-piece (x ∷ xs) (y ∷ ys) p q hx hy e = ground (arith, starts_with-piece xs ys p q)

trail-head : (ss : List Text) → (trail ss ≡ []) ⊎ ((r : Text) × (trail ss ≡ slash ∷ r))
trail-head [] = inl refl
trail-head (s ∷ ss) = inr (s ++ trail ss, refl)

slash_head : (ss : List Text) → (r : Text) × (trail ss ++ slash ∷ [] ≡ slash ∷ r)
slash_head [] = ([], refl)
slash_head (s ∷ ss) = ((s ++ trail ss) ++ slash ∷ [], refl)

starts_with-slash : (a b : Text) → starts_with (slash ∷ a) (slash ∷ b) ≡ starts_with a b
unfolding starts_with
starts_with-slash a b = refl

starts_with-trail :
    (xs ys : List Text)
    → All IsSegment xs
    → All IsSegment ys
    → starts_with (trail xs ++ slash ∷ []) (trail ys) ≡ strict_prefix xs ys
unfolding strict_prefix
starts_with-trail [] [] a b = unfold starts_with in refl
starts_with-trail [] (y ∷ ys) a b = unfold starts_with in refl
starts_with-trail (x ∷ xs) [] a b = unfold starts_with in refl
starts_with-trail (x ∷ xs) (y ∷ ys) (hx, a) (hy, b) =
    let (r, e) = slash_head xs in
    starts_with-slash ((x ++ trail xs) ++ slash ∷ []) (y ++ trail ys)
    ∙ ap (λ t. starts_with t (y ++ trail ys))
        (append_assoc x (trail xs) (slash ∷ []) ∙ ap (λ t. x ++ t) e)
    ∙ starts_with-piece x y r (trail ys) hx.no_slash hy.no_slash (trail-head ys)
    ∙ ap (λ t. text_eq x y && starts_with t (trail ys)) (sym e)
    ∙ ap (λ b. text_eq x y && b) (starts_with-trail xs ys a b)

-- On canonical paths `is_ancestor_of` holds if and only if the segments of the first path are a proper
-- beginning of the segments of the second.
pub is_ancestor_of-at :
    (xs ys : List Text)
    → All IsSegment xs
    → All IsSegment ys
    → is_ancestor_of (at xs) (at ys) ≡ strict_prefix xs ys
unfolding is_ancestor_of
is_ancestor_of-at xs ys a b = unfold starts_with in starts_with-trail xs ys a b

pub Diverges-of_neither :
    (xs ys : List Text)
    → strict_prefix xs ys ≡ false
    → strict_prefix ys xs ≡ false
    → xs ≢ ys
    → Diverges xs ys
unfolding strict_prefix
Diverges-of_neither [] [] h g n = n refl
Diverges-of_neither [] (y ∷ ys) h g n = absurd (cc h)
Diverges-of_neither (x ∷ xs) [] h g n = absurd (cc g)
Diverges-of_neither (x ∷ xs) (y ∷ ys) h g n = elim (Bool-cases (text_eq x y)) [
  | inl e ↦
      let same : x ≡ y = (text_eq_iff x y).0 e in
      inr (
        same,
        Diverges-of_neither xs ys (ground arith) (ground (arith, text_eq_iff y x))
            (λ t. n (cc (same, t))),
      )
  | inr ne ↦ inl (λ e. ground (arith, text_eq_iff x y))
]
