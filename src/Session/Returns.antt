-- ===== src/Session/Returns.antt =====
-- What is known of the results of actions on a session.
use mathlib.Core.Path.{subst}
use mem_sandbox.Session.Acts.{
  Exception, Outcome, raised, returned, Act, pure, outcome, attempt, raise_when, continue, ◌>>=◌,
  ◌>>◌,
}
use mem_sandbox.Base.{ℕ, ◌≡◌, refl, Bool, true, false, Option}
use mem_sandbox.Session.{
  SessionError, OperationKind, EventType, Delivery, delivered, too_late, timed_out, interrupted,
  refused, Session,
}
use mem_sandbox.Session.Lifecycle.{Emission, delivery_outcome, emit_new}

-- What is known of the results that an action returns.
pub record Returns {A : Type 0} (m : Act A) (F : A → Type 0) : Type 0 where
  pub facts : (s : Session) (a : A) → (m s).0 ≡ returned a → F a

module _ {A B : Type 0} where
  pub Returns-bind :
      (F : A → Type 0) {G : B → Type 0} (m : Act A) (f : A → Act B)
      → Returns m F
      → ((a : A) → F a → Returns (f a) G)
      → Returns (m >>= f) G
  unfolding ◌>>=◌
  Returns-bind F {G} m f h k = record { facts = λ s b e. go s (m s).0 (m s).1 refl b e }
    where
      go :
          (s : Session) (o : Outcome A) (t : Session)
          → (m s).0 ≡ o
          → (b : B) → (continue o f t).0 ≡ returned b
          → G b
      go s (returned a) t p b e = (k a (h.facts s a p)).facts t b e
      go s (raised x) t p b e = absurd (cc e)

module _ {A : Type 0} where
  pub Returns-outcome : (o : Outcome A) → Returns (outcome o) (λ a. o ≡ returned a)
  unfolding outcome
  Returns-outcome o = record { facts = λ s a e. e }

  pub Returns-attempt :
      (F : A → Type 0) (m : Act A)
      → Returns m F
      → Returns (attempt m) (λ o. (a : A) → o ≡ returned a → F a)
  unfolding attempt
  Returns-attempt F m h = record {
    facts = λ s o p a q. h.facts s a (let e : (m s).0 ≡ o = cc p in cc (e, q));
  }

  pub Returns-any : (m : Act A) → Returns m (λ a. Unit {0})
  Returns-any m = record { facts = λ s a e. tt }

  pub Returns-weaken :
      (F : A → Type 0) {G : A → Type 0} (m : Act A)
      → Returns m F
      → ((a : A) → F a → G a)
      → Returns m G
  Returns-weaken F m h k = record { facts = λ s a e. k a (h.facts s a e) }

module _ {A : Type 0} {F : A → Type 0} where
  pub Returns-then : {B : Type 0} (m : Act B) (n : Act A) → Returns n F → Returns (m >> n) F
  Returns-then m n h = Returns-bind (λ b. Unit {0}) m (λ b. n) (Returns-any m) (λ b u. h)

  pub Returns-raised : (x : Exception) → Returns (outcome {A = A} (raised x)) F
  unfolding outcome
  Returns-raised x = record { facts = λ s a e. absurd (cc e) }

  pub Returns-pure : (a : A) → F a → Returns (pure a) F
  unfolding pure
  Returns-pure a f = record { facts = λ s b e. let same : a ≡ b = cc e in subst (λ x. F x) same f }

pub Returns-raise_when : (b : Bool) (x : SessionError) → Returns (raise_when b x) (λ u. b ≡ false)
unfolding raise_when
Returns-raise_when true x = record { facts = λ s u e. absurd (cc e) }
Returns-raise_when false x = record { facts = λ s u e. refl }

pub delivery_outcome-returned :
    (b : Bool) (d : Delivery) (u : Unit {0}) → delivery_outcome b d ≡ returned u → d ≡ delivered
unfolding delivery_outcome
delivery_outcome-returned b delivered u e = refl
delivery_outcome-returned b too_late u e = absurd (cc e)
delivery_outcome-returned b timed_out u e = absurd (cc e)
delivery_outcome-returned b interrupted u e = absurd (cc e)
delivery_outcome-returned b refused u e = absurd (cc e)

pub emit_new-Returns :
    (type : EventType) (id : Option ℕ) (kind : Option OperationKind) (b : Bool) (e : Emission)
    → Returns (emit_new type id kind b e) (λ u. e.delivery ≡ delivered)
unfolding emit_new
emit_new-Returns type id kind b e = record {
  facts = λ s u p. delivery_outcome-returned b e.delivery u p;
}
