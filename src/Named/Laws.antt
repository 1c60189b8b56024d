-- ===== src/Named/Laws.antt =====
-- Sorting by name is idempotent, and it commutes with a change of what stands beside the names.
use mem_sandbox.Base.{Bool-cases, ◌≡◌, refl, inl, inr, true, false, [], ◌∷◌, arith}
use mem_sandbox.Strings.{Text}
use mem_sandbox.Named.{text_le, Named, insert_named, sort_named, map_named}

text_le_total : (s t : Text) → text_le s t ≡ false → text_le t s ≡ true
unfolding text_le
text_le_total [] t h = absurd (cc h)
text_le_total (x ∷ xs) [] h = refl
text_le_total (x ∷ xs) (y ∷ ys) h = ground (arith, text_le_total xs ys)

module _ {ℓ} {A : Type ℓ} where
  -- The first item may stand in front of the list.
  abbrev LeHead : Text → Named A → Type 0
  LeHead k [] = Unit
  LeHead k ((j, b) ∷ l) = text_le k j ≡ true

  abbrev IsSorted : Named A → Type 0
  IsSorted [] = Unit
  IsSorted ((k, a) ∷ l) = LeHead k l × IsSorted l

  pub insert_named-le :
      (k j : Text) (a b : A) (l : Named A)
      → text_le k j ≡ true
      → insert_named k a ((j, b) ∷ l) ≡ (k, a) ∷ (j, b) ∷ l
  unfolding insert_named
  insert_named-le k j a b l h = rw h

  pub insert_named-gt :
      (k j : Text) (a b : A) (l : Named A)
      → text_le k j ≡ false
      → insert_named k a ((j, b) ∷ l) ≡ (j, b) ∷ insert_named k a l
  unfolding insert_named
  insert_named-gt k j a b l h = rw h

  LeHead-insert_named :
      (j k : Text) (a : A) (l : Named A)
      → text_le j k ≡ true
      → LeHead j l
      → LeHead j (insert_named k a l)
  unfolding insert_named
  LeHead-insert_named j k a [] h g = h
  LeHead-insert_named j k a ((i, b) ∷ l) h g = ground arith

  insert_named-IsSorted :
      (k : Text) (a : A) (l : Named A) → IsSorted l → IsSorted (insert_named k a l)
  unfolding insert_named
  insert_named-IsSorted k a [] s = (tt, tt)
  insert_named-IsSorted k a ((j, b) ∷ l) (g, s) = elim (Bool-cases (text_le k j)) [
    | inl le ↦ rw le (le, (g, s))
    | inr gt ↦
        rw gt (LeHead-insert_named j k a l (text_le_total k j gt) g, insert_named-IsSorted k a l s)
  ]

  sort_named-IsSorted : (l : Named A) → IsSorted (sort_named l)
  unfolding sort_named
  sort_named-IsSorted [] = tt
  sort_named-IsSorted ((k, a) ∷ l) =
      insert_named-IsSorted k a (sort_named l) (sort_named-IsSorted l)

  insert_named-head :
      (k : Text) (a : A) (l : Named A) → LeHead k l → insert_named k a l ≡ (k, a) ∷ l
  unfolding insert_named
  insert_named-head k a [] h = refl
  insert_named-head k a ((j, b) ∷ l) h = rw h

  sort_named-of_IsSorted : (l : Named A) → IsSorted l → sort_named l ≡ l
  unfolding sort_named
  sort_named-of_IsSorted [] s = refl
  sort_named-of_IsSorted ((k, a) ∷ l) (h, s) =
      rw (sort_named-of_IsSorted l s) (insert_named-head k a l h)

  pub sort_named-sort_named : (l : Named A) → sort_named (sort_named l) ≡ sort_named l
  sort_named-sort_named l = sort_named-of_IsSorted (sort_named l) (sort_named-IsSorted l)

module _ {ℓ κ} {A : Type ℓ} {B : Type κ} (f : A → B) where
  map_named-insert_named :
      (k : Text) (a : A) (l : Named A)
      → map_named f (insert_named k a l) ≡ insert_named k (f a) (map_named f l)
  unfolding insert_named map_named
  map_named-insert_named k a [] = refl
  map_named-insert_named k a ((j, b) ∷ l) = ground (arith, map_named-insert_named k a l)

  pub map_named-sort_named : (l : Named A) → map_named f (sort_named l) ≡ sort_named (map_named f l)
  unfolding sort_named map_named
  map_named-sort_named [] = refl
  map_named-sort_named ((k, a) ∷ l) =
      rw (map_named-insert_named k a (sort_named l), map_named-sort_named l)
