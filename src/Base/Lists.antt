-- ===== src/Base/Lists.antt =====
-- Lists measured and cut by native numbers, under the library's names.
use Prim.Native.Nat.{ℕ, zero, suc, ◌+◌}
use mathlib.Core.Path.{◌≡◌, refl, ap}
use mathlib.Core.Option.{Option, none, some}
use mathlib.Core.List.{List, [], ◌∷◌, ◌++◌}
use native.Mathlib.Omega.{arith}

module _ {ℓ} {A : Type ℓ} where
  abbrev pub length : List A → ℕ
  length [] = 0
  length (x ∷ xs) = suc (length xs)

  abbrev pub take : ℕ → List A → List A
  take zero xs = []
  take (suc n) [] = []
  take (suc n) (x ∷ xs) = x ∷ take n xs

  abbrev pub drop : ℕ → List A → List A
  drop zero xs = xs
  drop (suc n) [] = []
  drop (suc n) (x ∷ xs) = drop n xs

  abbrev pub get_elem? : List A → ℕ → Option A
  get_elem? [] n = none
  get_elem? (x ∷ xs) zero = some x
  get_elem? (x ∷ xs) (suc n) = get_elem? xs n

  -- `l[:-1]`
  abbrev pub init : List A → List A
  init [] = []
  init (x ∷ []) = []
  init (x ∷ y ∷ ys) = x ∷ init (y ∷ ys)

  -- `l[-1]` of a list that is not empty; `d` on the empty list.
  abbrev pub last_or : List A → A → A
  last_or [] d = d
  last_or (x ∷ []) d = x
  last_or (x ∷ y ∷ ys) d = last_or (y ∷ ys) d

  pub length-append : (xs ys : List A) → length (xs ++ ys) ≡ length xs + length ys
  length-append [] ys = omega arith
  length-append (x ∷ xs) ys = omega (arith, length-append xs ys)

  pub drop-append : (xs ys : List A) → drop (length xs) (xs ++ ys) ≡ ys
  drop-append [] ys = refl
  drop-append (x ∷ xs) ys = drop-append xs ys

  pub init-snoc : (xs : List A) (x : A) → init (xs ++ x ∷ []) ≡ xs
  init-snoc [] x = refl
  init-snoc (y ∷ []) x = refl
  init-snoc (y ∷ z ∷ zs) x = ap (λ l. y ∷ l) (init-snoc (z ∷ zs) x)

  pub last_or-snoc : (xs : List A) (x d : A) → last_or (xs ++ x ∷ []) d ≡ x
  last_or-snoc [] x d = refl
  last_or-snoc (y ∷ []) x d = refl
  last_or-snoc (y ∷ z ∷ zs) x d = last_or-snoc (z ∷ zs) x d

  pub append-init-last_or :
      (x : A) (xs : List A) (d : A) → init (x ∷ xs) ++ last_or (x ∷ xs) d ∷ [] ≡ x ∷ xs
  append-init-last_or x [] d = refl
  append-init-last_or x (y ∷ ys) d = ap (λ l. x ∷ l) (append-init-last_or y ys d)

  -- A predicate that holds of every item.
  abbrev pub All {κ} : (A → Type κ) → List A → Type κ
  All P [] = Unit
  All P (x ∷ xs) = P x × All P xs

  pub All-append {κ} : (P : A → Type κ) (xs ys : List A) → All P xs → All P ys → All P (xs ++ ys)
  All-append P [] ys hx hy = hy
  All-append P (x ∷ xs) ys (px, hx) hy = (px, All-append P xs ys hx hy)

  pub All-init {κ} : (P : A → Type κ) (xs : List A) → All P xs → All P (init xs)
  All-init P [] h = tt
  All-init P (x ∷ []) h = tt
  All-init P (x ∷ y ∷ ys) (px, h) = (px, All-init P (y ∷ ys) h)

  pub drop-get_elem? :
      (xs : List A) (n : ℕ) (x : A) → get_elem? xs n ≡ some x → drop n xs ≡ x ∷ drop (suc n) xs
  drop-get_elem? [] n x h = absurd (cc h)
  drop-get_elem? (y ∷ ys) zero x h = cc h
  drop-get_elem? (y ∷ ys) (suc n) x h = drop-get_elem? ys n x h

  -- What is cut out between two places, and what follows it.
  pub drop-take :
      (xs : List A) (n k m : ℕ) → n + k ≡ m → drop n xs ≡ take k (drop n xs) ++ drop m xs
  drop-take xs zero k m h = rw (← same k m h) (go xs k)
    where
      same : (k m : ℕ) → 0 + k ≡ m → k ≡ m
      same k m h = omega arith

      go : (ys : List A) (k : ℕ) → ys ≡ take k ys ++ drop k ys
      go ys zero = refl
      go [] (suc k) = refl
      go (y ∷ ys) (suc k) = ap (λ l. y ∷ l) (go ys k)
  drop-take [] (suc n) k zero h = absurd (omega arith)
  drop-take [] (suc n) zero (suc m) h = refl
  drop-take [] (suc n) (suc k) (suc m) h = refl
  drop-take (x ∷ xs) (suc n) k zero h = absurd (omega arith)
  drop-take (x ∷ xs) (suc n) k (suc m) h = drop-take xs n k m (omega arith)
