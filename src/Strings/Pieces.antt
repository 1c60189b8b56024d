-- ===== src/Strings/Pieces.antt =====
-- `t.split(c)` and `c.join(pieces)`, for a separator of one character.
use mem_sandbox.Base.{
  ◌==◌, if◌then◌else◌, ==_refl, Bool-cases, All, ℕ, ◌≡◌, refl, ap, ◌≢◌, inl, inr, false, List, [],
  ◌∷◌, ◌++◌, arith,
}
use mem_sandbox.Strings.Basic.{Text, has_char}

-- One more character in front of the first piece.
abbrev pub grow : ℕ → List Text → List Text
grow x [] = (x ∷ []) ∷ []
grow x (s ∷ ss) = (x ∷ s) ∷ ss

unfoldable pub split : ℕ → Text → List Text
split c [] = [] ∷ []
split c (x ∷ xs) = let rest = split c xs in if x == c then [] ∷ rest else grow x rest

unfoldable pub join : ℕ → List Text → Text
join c [] = []
join c (s ∷ []) = s
join c (s ∷ t ∷ ss) = s ++ (c ∷ join c (t ∷ ss))

abbrev pub HasNo : ℕ → Text → Type 0
HasNo c s = has_char c s ≡ false

pub split-ne-nil : (c : ℕ) (t : Text) → split c t ≢ []
unfolding split
split-ne-nil c [] h = cc
split-ne-nil c (x ∷ xs) h = ground (arith, split-ne-nil c xs)

join-grow : (c x : ℕ) (ss : List Text) → ss ≢ [] → join c (grow x ss) ≡ x ∷ join c ss
unfolding join
join-grow c x [] h = absurd (h refl)
join-grow c x (s ∷ []) h = refl
join-grow c x (s ∷ t ∷ ss) h = refl

join-nil : (c : ℕ) (ss : List Text) → ss ≢ [] → join c ([] ∷ ss) ≡ c ∷ join c ss
unfolding join
join-nil c [] h = absurd (h refl)
join-nil c (s ∷ ss) h = refl

-- Joining the pieces gives the text back.
pub join-split : (c : ℕ) (t : Text) → join c (split c t) ≡ t
unfolding split
join-split c [] = unfold join in refl
join-split c (x ∷ xs) = ground (
  arith,
  join-split c xs,
  split-ne-nil c xs,
  join-nil c (split c xs) (split-ne-nil c xs),
  join-grow c x (split c xs) (split-ne-nil c xs),
)

grow-HasNo :
    (c x : ℕ) (ss : List Text) → (x == c) ≡ false → All (HasNo c) ss → All (HasNo c) (grow x ss)
unfolding has_char
grow-HasNo c x [] h a = (ground arith, tt)
grow-HasNo c x (s ∷ ss) h (hs, a) = (ground arith, a)

-- No piece holds the separator.
pub split-HasNo : (c : ℕ) (t : Text) → All (HasNo c) (split c t)
unfolding split has_char
split-HasNo c [] = (refl, tt)
split-HasNo c (x ∷ xs) = elim (Bool-cases (x == c)) [
  | inl e ↦ rw e (refl, split-HasNo c xs)
  | inr e ↦ rw e (grow-HasNo c x (split c xs) e (split-HasNo c xs))
]

pub split-piece :
    (c : ℕ) (s : Text) (rest : Text) → HasNo c s → split c (s ++ (c ∷ rest)) ≡ s ∷ split c rest
unfolding split has_char
split-piece c [] rest h = ground (arith, ==_refl c)
split-piece c (x ∷ xs) rest h = ground (arith, split-piece c xs rest)

split-last : (c : ℕ) (s : Text) → HasNo c s → split c s ≡ s ∷ []
unfolding split has_char
split-last c [] h = refl
split-last c (x ∷ xs) h = ground (arith, split-last c xs)

-- Pieces without the separator come back from their join.
pub split-join :
    (c : ℕ) (s : Text) (ss : List Text)
    → All (HasNo c) (s ∷ ss)
    → split c (join c (s ∷ ss)) ≡ s ∷ ss
unfolding join
split-join c s [] (h, _) = split-last c s h
split-join c s (t ∷ ss) (h, a) =
    rw (split-piece c s (join c (t ∷ ss)) h) (ap (λ l. s ∷ l) (split-join c t ss a))
