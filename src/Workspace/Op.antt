-- ===== src/Workspace/Op.antt =====
-- Actions on the workspace's state that may raise, and what they can end in.
use mathlib.Core.Path.{subst}
use mem_sandbox.Base.{◌+◌, ◌≡◌, refl, sym, ap, ◌∙◌}
use mem_sandbox.Errors.{Error, Result, err, ok}
use mem_sandbox.Tree.{Children}
use mem_sandbox.Measure.{Env}
use mem_sandbox.State.{State, state_for_root}

-- The state comes back beside an error too: what was published before a raise stays.
abbrev pub Op : Type 0 → Type 0
Op A = State → Result A × State

module _ {A : Type 0} where
  unfoldable pub pure : A → Op A
  pure a s = (ok a, s)

  unfoldable pub lift : Result A → Op A
  lift r s = (r, s)

-- `self._state`
unfoldable pub current : Op State
current s = (ok s, s)

-- `_commit`: the state is published once the tree has passed every limit.
unfoldable pub commit : Env → Children → Op State
commit env cs s = elim (state_for_root env cs (s.stats.revision + 1)) [
  | ok t ↦ (ok t, t)
  | err e ↦ (err e, s)
]

module _ {A B : Type 0} where
  -- The rest of a method after a call that returned or raised.
  abbrev pub continue : Result A → (A → Op B) → Op B
  continue (ok a) f s = f a s
  continue (err e) f s = (err e, s)

  infixl 10 ◌>>=◌ ◌>>◌
  unfoldable pub ◌>>=◌ : Op A → (A → Op B) → Op B
  unfolding pure lift current
  ◌>>=◌ m f s = let (r, t) = m s in continue r f t

  abbrev pub ◌>>◌ : Op A → Op B → Op B
  m >> n = m >>= λ _. n

-- How an action ends from `s`: by an error that leaves the state alone, or with a result and a
-- state of which `Post` holds.
pub data Ends {A : Type 0} (m : Op A) (s : State) (Post : A → State → Type 0) : Type 0 where
  raised : (e : Error) → m s ≡ (err e, s) → Ends m s Post
  returned : (a : A) (t : State) → m s ≡ (ok a, t) → Post a t → Ends m s Post

module _ (env : Env) (cs : Children) (s : State) where
  commit-ok :
      (t : State)
      → state_for_root env cs (s.stats.revision + 1) ≡ ok t
      → commit env cs s ≡ (ok t, t)
  unfolding commit
  commit-ok t h = rw (h, commit)

  commit-err :
      (e : Error)
      → state_for_root env cs (s.stats.revision + 1) ≡ err e
      → commit env cs s ≡ (err e, s)
  unfolding commit
  commit-err e h = rw (h, commit)

module _ {A B : Type 0} (m : Op A) (f : A → Op B) (s t : State) where
  bind-eq : (r : Result A) → m s ≡ (r, t) → (m >>= f) s ≡ continue r f t
  unfolding ◌>>=◌
  bind-eq r h = ap (λ (p : Result A × State). continue p.0 f p.1) h

module _ {B : Type 0} {s : State} {Post : B → State → Type 0} where
  -- An action with the same outcome ends the same way.
  pub Ends-eq : (m n : Op B) → m s ≡ n s → Ends n s Post → Ends m s Post
  Ends-eq m n e (raised x h) = raised x (e ∙ h)
  Ends-eq m n e (returned b t h p) = returned b t (e ∙ h) p

  pub Ends-current : (f : State → Op B) → Ends (f s) s Post → Ends (current >>= f) s Post
  unfolding ◌>>=◌
  Ends-current f k = Ends-eq (current >>= f) (f s) refl k

  pub Ends-pure : (b : B) → Post b s → Ends (pure b) s Post
  unfolding pure
  Ends-pure b p = returned b s refl p

  pub Ends-raise : (e : Error) → Ends (lift (err e)) s Post
  unfolding lift
  Ends-raise e = raised e refl

  -- After a commit that passed, the rest runs in the new state. It has to return.
  pub Ends-commit :
      (env : Env) (cs : Children) (f : State → Op B)
      → ((t : State)
          → state_for_root env cs (s.stats.revision + 1) ≡ ok t
          → (b : B) × (f t t ≡ (ok b, t)) × Post b t)
      → Ends (commit env cs >>= f) s Post
  Ends-commit env cs f k = go (state_for_root env cs (s.stats.revision + 1)) refl
    where
      go :
          (r : Result State)
          → state_for_root env cs (s.stats.revision + 1) ≡ r
          → Ends (commit env cs >>= f) s Post
      go (err e) h = raised e (bind-eq (commit env cs) f s s (err e) (commit-err env cs s e h))
      go (ok t) h =
          let (b, g, p) = k t h in
          returned b t (bind-eq (commit env cs) f s t (ok t) (commit-ok env cs s t h) ∙ g) p

module _ {A B : Type 0} {s : State} {Post : B → State → Type 0} where
  pub Ends-lift :
      (r : Result A) (f : A → Op B)
      → ((a : A) → r ≡ ok a → Ends (f a) s Post)
      → Ends (lift r >>= f) s Post
  unfolding ◌>>=◌
  Ends-lift (ok a) f k = Ends-eq (lift (ok a) >>= f) (f a) refl (k a refl)
  Ends-lift (err e) f k = raised e refl

pub Ends-weaken :
    {A : Type 0} {m : Op A} {s : State} {P Q : A → State → Type 0}
    → ((a : A) (t : State) → P a t → Q a t)
    → Ends m s P
    → Ends m s Q
Ends-weaken f (raised e h) = raised e h
Ends-weaken f (returned a t h p) = returned a t h (f a t p)

-- An action that ends as described leaves the state alone when it raises.
pub Ends-raise_unchanged :
    {A : Type 0} {m : Op A} {s : State} {P : A → State → Type 0} (e : Error)
    → Ends m s P
    → (m s).0 ≡ err e
    → (m s).1 ≡ s
Ends-raise_unchanged e (raised x h) g = ap (λ p. p.1) h
Ends-raise_unchanged e (returned a t h p) g = absurd (cc (ap (λ p. p.0) h, g))

pub Ends-result :
    {A : Type 0} {m : Op A} {s : State} {P : A → State → Type 0} (a : A)
    → Ends m s P
    → (m s).0 ≡ ok a
    → P a (m s).1
Ends-result a (raised x h) g = absurd (cc (ap (λ p. p.0) h, g))
Ends-result {m} {s} {P} a (returned b t h p) g =
    let e : ok b ≡ ok a = sym (ap (λ q. q.0) h) ∙ g in
    let same : b ≡ a = cc e in
    subst (λ x. P x (m s).1) same (subst (λ u. P b u) (sym (ap (λ q. q.1) h)) p)

pub pure-eq : {A : Type 0} (a : A) (s : State) → pure a s ≡ (ok a, s)
unfolding pure
pure-eq a s = refl

pub lift-bind-eq :
    {A B : Type 0} (r : Result A) (f : A → Op B) (a : A) (s : State)
    → r ≡ ok a
    → (lift r >>= f) s ≡ f a s
unfolding ◌>>=◌
lift-bind-eq r f a s h = ap (λ q. continue q f s) h
