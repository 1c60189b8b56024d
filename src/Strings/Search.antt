-- ===== src/Strings/Search.antt =====
-- `pattern in t` and `t.endswith(suffix)`, with the laws for a pattern that starts with a
-- character which a piece of the text does not hold.
use mem_sandbox.Base.{ℕ, ◌≡◌, refl, Bool, true, false, ◌||◌, [], ◌∷◌, ◌++◌, arith}
use mem_sandbox.Strings.Basic.{Text, text_eq, has_char, starts_with}

unfoldable pub contains : Text → Text → Bool
unfolding starts_with
contains p [] = starts_with p []
contains p (x ∷ xs) = starts_with p (x ∷ xs) || contains p xs

unfoldable pub ends_with : Text → Text → Bool
unfolding text_eq
ends_with p [] = text_eq p []
ends_with p (x ∷ xs) = text_eq p (x ∷ xs) || ends_with p xs

module _ (c : ℕ) (p : Text) where
  pub contains-append :
      (s t : Text) → has_char c s ≡ false → contains (c ∷ p) (s ++ t) ≡ contains (c ∷ p) t
  unfolding contains has_char
  contains-append [] t h = refl
  contains-append (x ∷ xs) t h = ground (arith, contains-append xs t)

  pub ends_with-append :
      (s t : Text) → has_char c s ≡ false → ends_with (c ∷ p) (s ++ t) ≡ ends_with (c ∷ p) t
  unfolding ends_with has_char
  ends_with-append [] t h = refl
  ends_with-append (x ∷ xs) t h = ground (arith, ends_with-append xs t)

pub starts_with-append : (p t : Text) → starts_with p (p ++ t) ≡ true
unfolding starts_with
starts_with-append [] t = refl
starts_with-append (x ∷ xs) t = ground (arith, starts_with-append xs t)

-- A text that begins with `p` is `p` and a rest.
pub starts_with-inv : (p t : Text) → starts_with p t ≡ true → (r : Text) × (t ≡ p ++ r)
unfolding starts_with
starts_with-inv [] t h = (t, refl)
starts_with-inv (x ∷ xs) [] h = absurd (cc h)
starts_with-inv (x ∷ xs) (y ∷ ys) h =
    let (r, e) = starts_with-inv xs ys (ground arith) in (r, ground arith)
