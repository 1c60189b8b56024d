-- ===== src/Session/Acts.antt =====
-- Actions on a session that may raise an exception, and what holds before and after them.
use mem_sandbox.Base.{Bool, true, false}
use mem_sandbox.Session.{SessionState, SessionError, Session}

-- What leaves a method: an error of the sandbox, the cancellation of the task, or any other.
pub data Exception : Type 0 where
  sandbox_error : SessionError → Exception
  native_cancellation unexpected : Exception

pub data Outcome (A : Type 0) : Type 0 where
  raised : Exception → Outcome A
  returned : A → Outcome A

abbrev pub Act : Type 0 → Type 0
Act A = Session → Outcome A × Session

module _ {A : Type 0} where
  unfoldable pub pure : A → Act A
  pure a s = (returned a, s)

  unfoldable pub outcome : Outcome A → Act A
  outcome o s = (o, s)

  unfoldable pub raise : SessionError → Act A
  raise e s = (raised (sandbox_error e), s)

  -- `try`: the outcome as a value.
  unfoldable pub attempt : Act A → Act (Outcome A)
  attempt m s = let (o, t) = m s in (returned o, t)

unfoldable pub raise_when : Bool → SessionError → Act (Unit {0})
raise_when true e s = (raised (sandbox_error e), s)
raise_when false e s = (returned tt, s)

unfoldable pub lifecycle_of : Act SessionState
lifecycle_of s = (returned s.lifecycle, s)

unfoldable pub change : (Session → Session) → Act (Unit {0})
change f s = (returned tt, f s)

module _ {A B : Type 0} where
  abbrev pub continue : Outcome A → (A → Act B) → Act B
  continue (returned a) f s = f a s
  continue (raised x) f s = (raised x, s)

  infixl 10 ◌>>=◌ ◌>>◌
  unfoldable pub ◌>>=◌ : Act A → (A → Act B) → Act B
  ◌>>=◌ m f s = let (o, t) = m s in continue o f t

  abbrev pub ◌>>◌ : Act A → Act B → Act B
  m >> n = m >>= λ _. n

-- From a session with the first property the action ends with the second one.
pub record Triple {A : Type 0} (P : Session → Type 0) (m : Act A) (Q : Outcome A → Session → Type 0)
    : Type 0 where
  pub ends : (s : Session) → P s → Q (m s).0 (m s).1

module _ {A B : Type 0} {P : Session → Type 0} where
  pub Triple-bind :
      (Q : Outcome A → Session → Type 0) {R : Outcome B → Session → Type 0} (m : Act A)
      (f : A → Act B)
      → Triple P m Q
      → ((a : A) → Triple (Q (returned a)) (f a) R)
      → ((x : Exception) (s : Session) → Q (raised x) s → R (raised x) s)
      → Triple P (m >>= f) R
  unfolding ◌>>=◌
  Triple-bind Q {R} m f first rest lifts = record {
    ends = λ s p. go (m s).0 (m s).1 (first.ends s p);
  }
    where
      go : (o : Outcome A) (t : Session) → Q o t → R (continue o f t).0 (continue o f t).1
      go (returned a) t q = (rest a).ends t q
      go (raised x) t q = lifts x t q

module _ {A : Type 0} {P : Session → Type 0} {R : Outcome A → Session → Type 0} where
  pub Triple-pure : (a : A) → ((s : Session) → P s → R (returned a) s) → Triple P (pure a) R
  unfolding pure
  Triple-pure a k = record { ends = k }

  pub Triple-outcome : (o : Outcome A) → ((s : Session) → P s → R o s) → Triple P (outcome o) R
  unfolding outcome
  Triple-outcome o k = record { ends = k }

  pub Triple-raise :
      (e : SessionError)
      → ((s : Session) → P s → R (raised (sandbox_error e)) s)
      → Triple P (raise e) R
  unfolding raise
  Triple-raise e k = record { ends = k }

module _ {P : Session → Type 0} where
  -- A test leaves the session alone.
  pub Triple-raise_when : (b : Bool) (e : SessionError) → Triple P (raise_when b e) (λ o s. P s)
  unfolding raise_when
  Triple-raise_when true e = record { ends = λ s p. p }
  Triple-raise_when false e = record { ends = λ s p. p }

  pub Triple-attempt :
      {A : Type 0} (Q : Outcome A → Session → Type 0) {R : Outcome (Outcome A) → Session → Type 0}
      (m : Act A)
      → Triple P m Q
      → ((o : Outcome A) (s : Session) → Q o s → R (returned o) s)
      → Triple P (attempt m) R
  unfolding attempt
  Triple-attempt Q m h k = record { ends = λ s p. k (m s).0 (m s).1 (h.ends s p) }

  pub Triple-change :
      {R : Outcome (Unit {0}) → Session → Type 0} (f : Session → Session)
      → ((s : Session) → P s → R (returned tt) (f s))
      → Triple P (change f) R
  unfolding change
  Triple-change f k = record { ends = k }

  pub Triple-weaken :
      {A : Type 0} (Q : Outcome A → Session → Type 0) {R : Outcome A → Session → Type 0} (m : Act A)
      → Triple P m Q
      → ((o : Outcome A) (s : Session) → Q o s → R o s)
      → Triple P m R
  Triple-weaken Q m h k = record { ends = λ s p. k (m s).0 (m s).1 (h.ends s p) }

-- An action that leaves a property of the session alone.
abbrev pub Keeps : {A : Type 0} → (Session → Type 0) → Act A → Type 0
Keeps P m = Triple P m (λ o. P)

module _ {P : Session → Type 0} where
  pub Keeps-bind :
      {A B : Type 0} (m : Act A) (f : A → Act B)
      → Keeps P m
      → ((a : A) → Keeps P (f a))
      → Keeps P (m >>= f)
  Keeps-bind m f h k = Triple-bind (λ o. P) m f h k (λ x s p. p)

  pub Keeps-pure : {A : Type 0} (a : A) → Keeps P (pure a)
  Keeps-pure a = Triple-pure a (λ s p. p)

  pub Keeps-outcome : {A : Type 0} (o : Outcome A) → Keeps P (outcome o)
  Keeps-outcome o = Triple-outcome o (λ s p. p)

  pub Keeps-raise : {A : Type 0} (e : SessionError) → Keeps P (raise {A = A} e)
  Keeps-raise e = Triple-raise e (λ s p. p)
