-- ===== src/Session/Protocol/Steps.antt =====
-- Where the events of a session stand between the steps of a call.
use mathlib.Core.Path.{subst}
use mem_sandbox.Session.Acts.{Outcome, raised, returned, Triple}
use mem_sandbox.Base.{
  length, length-append, ℕ, ◌+◌, ◌≡◌, refl, sym, ◌⊎◌, inl, inr, Bool, true, false, Option, some,
  List, [], ◌∷◌, ◌++◌, arith,
}
use mem_sandbox.Session.{
  SessionState, created, running, closing, closed, failed, OperationKind, EventType, SandboxEvent,
  Delivery, delivered, too_late, timed_out, interrupted, refused, CloseTask, no_close,
  pending_close, finished_close, Session,
}
use mem_sandbox.Session.Lifecycle.{
  request_close, interfere, awaited, Emission, new_event, delivery_outcome, emit_new, set_lifecycle,
}
use mem_sandbox.Session.Protocol.{Phase, fresh, next_phase, observe, observe-append}

abbrev pub is_finished : CloseTask → Bool
is_finished finished_close = true
is_finished c = false

-- The events made so far end in the phase, the numbers are those of the events, no close has ended,
-- and the state is one of those that are allowed.
pub record Stands (allowed : SessionState → Bool) (p : Phase) (s : Session) : Type 0 where
  pub at : observe fresh 0 s.log ≡ some p
  pub counted : s.sequence ≡ length s.log
  pub unfinished : is_finished s.close_task ≡ false
  pub state : allowed s.lifecycle ≡ true

counted_append :
    {A : Type 0} (n : ℕ) (l : List A) (x : A) → n ≡ length l → n + 1 ≡ length (l ++ x ∷ [])
counted_append n l x e = rw (length-append l (x ∷ []), e) refl

abbrev pub RequestCases : Session → Session → Type 0
RequestCases s t =
    (t ≡ s)
    ⊎ ((s.close_task ≡ no_close)
        × (t ≡ record s { lifecycle = closing; close_task = pending_close }))

request_close-at :
    (c : CloseTask) (l : SessionState) (n : ℕ) (g : List (SandboxEvent × Delivery))
    → let s : Session = record { lifecycle = l; sequence = n; close_task = c; log = g } in
      RequestCases s (request_close s)
unfolding request_close
request_close-at pending_close l n g = inl refl
request_close-at finished_close l n g = inl refl
request_close-at no_close closed n g = inl refl
request_close-at no_close created n g = inr (refl, refl)
request_close-at no_close running n g = inr (refl, refl)
request_close-at no_close closing n g = inr (refl, refl)
request_close-at no_close failed n g = inr (refl, refl)

pub request_close-cases : (s : Session) → RequestCases s (request_close s)
request_close-cases s = request_close-at s.close_task s.lifecycle s.sequence s.log

pub request_close-over : (s : Session) → s.close_task ≡ finished_close → request_close s ≡ s
unfolding request_close
request_close-over s e = rw (e) refl

module _ {allowed : SessionState → Bool} {p : Phase} where
  pub set_lifecycle-Stands :
      {wider : SessionState → Bool} (l : SessionState)
      → wider l ≡ true
      → (s : Session) → Stands allowed p s
      → Stands wider p (set_lifecycle l s)
  unfolding set_lifecycle
  set_lifecycle-Stands l w s h = record {
    at = h.at;
    counted = h.counted;
    unfinished = h.unfinished;
    state = w;
  }

  pub Stands-allowed :
      {wider : SessionState → Bool} (s : Session)
      → wider s.lifecycle ≡ true
      → Stands allowed p s
      → Stands wider p s
  Stands-allowed s w h = record {
    at = h.at;
    counted = h.counted;
    unfinished = h.unfinished;
    state = w;
  }

  module _ (may_close : allowed closing ≡ true) where
    pub request_close-Stands :
        (s : Session) → Stands allowed p s → Stands allowed p (request_close s)
    request_close-Stands s h = elim (request_close-cases s) [
      | inl e ↦ subst (λ t. Stands allowed p t) (sym e) h
      | inr (e, f) ↦
          subst (λ t. Stands allowed p t) (sym f)
            (record { at = h.at; counted = h.counted; unfinished = refl; state = may_close })
    ]

    pub interfere-Stands :
        (b : Bool) (s : Session) → Stands allowed p s → Stands allowed p (interfere b s)
    unfolding interfere
    interfere-Stands true s h = request_close-Stands s h
    interfere-Stands false s h = h

    pub awaited-Stands : (b : Bool) → Triple (Stands allowed p) (awaited b) (λ o. Stands allowed p)
    unfolding awaited
    awaited-Stands b = record { ends = interfere-Stands b }

    module _ {q : Phase} (type : EventType) (id : Option ℕ) (kind : Option OperationKind) where
      made-Stands :
          (d : Delivery) (s : Session)
          → next_phase p type id d ≡ some q
          → Stands allowed p s
          → Stands allowed q (record s {
            sequence = s.sequence + 1;
            log = s.log ++ (new_event type id kind s, d) ∷ [];
          })
      unfolding new_event
      made-Stands d s n h = record {
        at =
            observe-append fresh p q 0 s.log (new_event type id kind s) d h.at
              (let e = h.counted in omega (arith, e)) n;
        counted = counted_append s.sequence s.log (new_event type id kind s, d) h.counted;
        unfinished = h.unfinished;
        state = h.state;
      }

-- What holds behind an action that returns, and behind one that raises.
abbrev pub Ends :
    {A : Type 0} → (A → Session → Type 0) → (Session → Type 0) → Outcome A → Session → Type 0
Ends Q E (returned a) s = Q a s
Ends Q E (raised x) s = E s

module _ {allowed : SessionState → Bool} (may_close : allowed closing ≡ true) {p q : Phase} where
  pub emit_new-Stands :
      (type : EventType) (id : Option ℕ) (kind : Option OperationKind) (b : Bool) (e : Emission)
      → next_phase p type id e.delivery ≡ some q
      → Triple
          (Stands allowed p)
          (emit_new type id kind b e)
          (λ o s. (o ≡ delivery_outcome b e.delivery) × Stands allowed q s)
  unfolding emit_new
  emit_new-Stands type id kind b e n = record { ends = λ s h. go s e.delivery e.meanwhile n h }
    where
      go :
          (s : Session) (d : Delivery) (m : Bool)
          → next_phase p type id d ≡ some q
          → Stands allowed p s
          → let t = emit_new type id kind b (record { delivery = d; meanwhile = m }) s in
            (t.0 ≡ delivery_outcome b d) × Stands allowed q t.1
      go s too_late m n h = (refl, made-Stands may_close type id kind too_late s n h)
      go s delivered m n h = (
        refl,
        interfere-Stands may_close m _ (made-Stands may_close type id kind delivered s n h),
      )
      go s timed_out m n h = (
        refl,
        interfere-Stands may_close m _ (made-Stands may_close type id kind timed_out s n h),
      )
      go s interrupted m n h = (
        refl,
        interfere-Stands may_close m _ (made-Stands may_close type id kind interrupted s n h),
      )
      go s refused m n h =
          (refl, interfere-Stands may_close m _ (made-Stands may_close type id kind refused s n h))
