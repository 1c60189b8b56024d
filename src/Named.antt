-- ===== src/Named.antt =====
-- `sorted(children.items())` and the like: items sorted by name, in code point order.
-- Names in a directory differ, so the comparison never reaches what stands beside the name.
pub mod Laws
use mem_sandbox.Base.{ltb, ◌==◌, if◌then◌else◌, Bool, true, false, ◌&&◌, ◌||◌, List, [], ◌∷◌}
use mem_sandbox.Strings.{Text}

-- `a <= b` on strings
unfoldable pub text_le : Text → Text → Bool
text_le [] t = true
text_le (x ∷ xs) [] = false
text_le (x ∷ xs) (y ∷ ys) = ltb x y || (x == y && text_le xs ys)

abbrev pub Named {ℓ} : Type ℓ → Type ℓ
Named A = List (Text × A)

module _ {ℓ} {A : Type ℓ} where
  unfoldable pub insert_named : Text → A → Named A → Named A
  insert_named k a [] = (k, a) ∷ []
  insert_named k a ((j, b) ∷ l) =
      let rest = insert_named k a l in if text_le k j then (k, a) ∷ (j, b) ∷ l else (j, b) ∷ rest

  unfoldable pub sort_named : Named A → Named A
  sort_named [] = []
  sort_named ((k, a) ∷ l) = insert_named k a (sort_named l)

  unfoldable pub names : Named A → List Text
  names [] = []
  names ((k, a) ∷ l) = k ∷ names l

  unfoldable pub map_named {κ} : {B : Type κ} → (A → B) → Named A → Named B
  map_named f [] = []
  map_named f ((k, a) ∷ l) = (k, f a) ∷ map_named f l
