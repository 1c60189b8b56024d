-- ===== src/Runs.antt =====
-- Loops on fuel that may raise: the helpers of the parsers.
use mem_sandbox.Base.{◌≡◌, refl, Option, none, some}
use mem_sandbox.Errors.{Error, Result, err, ok}

-- A loop on fuel: no result, an exception, or a value.
abbrev pub Run {ℓ} : Type ℓ → Type ℓ
Run A = Option (Result A)

abbrev pub pure {ℓ} : {A : Type ℓ} → A → Run A
pure a = some (ok a)

abbrev pub fail {ℓ} : {A : Type ℓ} → Error → Run A
fail e = some (err e)

infixl 5 ◌>>=◌ ◌>>◌
abbrev pub ◌>>=◌ {ℓ κ} : {A : Type ℓ} {B : Type κ} → Run A → (A → Run B) → Run B
none >>= rest = none
some (err e) >>= rest = some (err e)
some (ok a) >>= rest = rest a

abbrev pub ◌>>◌ {ℓ κ} : {A : Type ℓ} {B : Type κ} → Run A → Run B → Run B
call >> rest = call >>= λ _. rest

-- A run that returned returned at its first call.
pub bind-eq-pure {ℓ κ} :
    {A : Type ℓ} {B : Type κ} (m : Run A) (f : A → Run B) {b : B}
    → (m >>= f) ≡ pure b
    → (a : A) × (m ≡ pure a) × (f a ≡ pure b)
bind-eq-pure none f h = absurd (cc h)
bind-eq-pure (some (err e)) f h = absurd (cc h)
bind-eq-pure (some (ok a)) f h = (a, refl, h)

-- The fuel was enough.
abbrev pub IsDone : {A : Type 0} → Run A → Type 0
IsDone {A} m = (r : Result A) × (m ≡ some r)

pub bind-IsDone :
    {A B : Type 0} (m : Run A) (f : A → Run B)
    → IsDone m
    → ((a : A) → m ≡ pure a → IsDone (f a))
    → IsDone (m >>= f)
bind-IsDone m f (err e, h) k = (err e, rw h refl)
bind-IsDone m f (ok a, h) k = let (r, q) = k a h in (r, rw h q)
