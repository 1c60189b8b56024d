-- ===== src/Command/Grammar/Validated.antt =====
-- Every word of a plan was validated before the plan was returned.
use mathlib.Core.Path.{subst}
use mem_sandbox.Runs.{pure, bind-eq-pure}
use mem_sandbox.Base.{
  Option-cases, length, All, ℕ, zero, suc, ◌+◌, ◌≡◌, refl, sym, inl, inr, Bool, Option, none, some,
  List, [], ◌∷◌,
}
use mem_sandbox.Errors.{ok}
use mem_sandbox.Strings.{Text}
use mem_sandbox.Command.Grammar.{
  redirection_mode, check_trailing, behind_pipe, take_separator, validate_word, take_words,
  take_stages, take_destination, take_redirection, take_units, parse_tokens, parse_execution_plan,
}
use mem_sandbox.Command.{
  CommandWord, Connector, always, RedirectionMode, StdoutRedirection, CommandStage, PlanUnit,
  ExecutionPlan,
}
use mem_sandbox.Command.Tokens.{Token, word_token, operator_token, tokenize}
use mem_sandbox.Command.Expansion.{Scope, expand_word}
use mem_sandbox.Command.Expansion.Safe.{expand_word-validated}
use mem_sandbox.Command.Grammar.Printed.{
  print_units, behind_pipe-eq, take_separator-printed, parse_tokens-printed,
}

module _ (is_alpha : ℕ → Bool) where
  -- A word is expanded to a text in every scope.
  abbrev pub IsExpandable : Token → Type 0
  IsExpandable (operator_token o) = Unit
  IsExpandable (word_token w) =
      (scope : Scope) → (out : Text) × (expand_word is_alpha w scope ≡ some (ok out))

  validated :
      (w : CommandWord) (u : Unit {0})
      → validate_word is_alpha w ≡ pure u
      → IsExpandable (word_token w)
  validated w u h scope = expand_word-validated is_alpha w scope h

  take_words-IsExpandable :
      (ts : List Token) (ws : List CommandWord) (rest : List Token)
      → take_words is_alpha ts ≡ pure (ws, rest)
      → All IsExpandable rest
      → All IsExpandable ts
  unfolding take_words
  take_words-IsExpandable [] ws rest h a = tt
  take_words-IsExpandable (operator_token o ∷ ts) ws rest h a =
      let same : rest ≡ operator_token o ∷ ts = cc h in subst (All IsExpandable) same a
  take_words-IsExpandable (word_token w ∷ ts) ws rest h a =
      let (u, v, h1) = bind-eq-pure (validate_word is_alpha w) _ h in
      let ((vs, left), t, h2) = bind-eq-pure (take_words is_alpha ts) _ h1 in
      let same : rest ≡ left = cc h2 in
      (validated w u v, take_words-IsExpandable ts vs left t (subst (All IsExpandable) same a))

  take_stages-IsExpandable :
      (fuel : ℕ) (ts : List Token) (ss : List CommandStage) (rest : List Token)
      → take_stages is_alpha fuel ts ≡ pure (ss, rest)
      → All IsExpandable rest
      → All IsExpandable ts
  unfolding take_stages
  take_stages-IsExpandable zero ts ss rest h a = absurd (cc h)
  take_stages-IsExpandable (suc fuel) [] ss rest h a = absurd (cc h)
  take_stages-IsExpandable (suc fuel) (operator_token o ∷ ts) ss rest h a = absurd (cc h)
  take_stages-IsExpandable (suc fuel) (word_token w ∷ ts) ss rest h a =
      let ((ws, left), t, h1) = bind-eq-pure (take_words is_alpha (word_token w ∷ ts)) _ h in
      take_words-IsExpandable (word_token w ∷ ts) ws left t
        (elim (Option-cases (behind_pipe left)) [
          | inl e ↦
              let k : pure (record { words = ws } ∷ [], left) ≡ pure (ss, rest) = rw e at h1 in
              let same : rest ≡ left = cc k in subst (All IsExpandable) same a
          | inr (more, e) ↦
              let ((stages, behind), k, h2) =
                bind-eq-pure (take_stages is_alpha fuel more) _ (rw e at h1) in
              let same : rest ≡ behind = cc h2 in
              subst (All IsExpandable) (sym (behind_pipe-eq is_alpha left more e)) (
                tt,
                take_stages-IsExpandable fuel more stages behind k
                    (subst (All IsExpandable) same a),
              )
        ])

  take_destination-IsExpandable :
      (mode : RedirectionMode) (ts : List Token) (r : Option StdoutRedirection) (rest : List Token)
      → take_destination is_alpha mode ts ≡ pure (r, rest)
      → All IsExpandable rest
      → All IsExpandable ts
  unfolding take_destination
  take_destination-IsExpandable mode [] r rest h a = absurd (cc h)
  take_destination-IsExpandable mode (operator_token o ∷ ts) r rest h a = absurd (cc h)
  take_destination-IsExpandable mode (word_token w ∷ ts) r rest h a =
      let (u, v, h1) = bind-eq-pure (validate_word is_alpha w) _ h in
      let (u', c, h2) = bind-eq-pure (check_trailing ts) _ h1 in
      let same : rest ≡ ts = cc h2 in (validated w u v, subst (All IsExpandable) same a)

  take_redirection-IsExpandable :
      (ts : List Token) (r : Option StdoutRedirection) (rest : List Token)
      → take_redirection is_alpha ts ≡ pure (r, rest)
      → All IsExpandable rest
      → All IsExpandable ts
  unfolding take_redirection
  take_redirection-IsExpandable [] r rest h a = tt
  take_redirection-IsExpandable (word_token w ∷ ts) r rest h a = absurd (cc h)
  take_redirection-IsExpandable (operator_token o ∷ ts) r rest h a =
      elim (Option-cases (redirection_mode o)) [
        | inl e ↦
            let k : pure (none, operator_token o ∷ ts) ≡ pure (r, rest) =
              rw (e, take_redirection) at h in
            let same : rest ≡ operator_token o ∷ ts = cc k in subst (All IsExpandable) same a
        | inr (mode, e) ↦
            (tt, take_destination-IsExpandable mode ts r rest (rw (e, take_redirection) at h) a)
      ]

  take_separator-IsExpandable :
      (ts : List Token) (next : Option (Connector × List Token))
      → take_separator ts ≡ pure next
      → ((c : Connector) (more : List Token) → next ≡ some (c, more) → All IsExpandable more)
      → All IsExpandable ts
  take_separator-IsExpandable ts none h a =
      subst (All IsExpandable) (sym (take_separator-printed ts none h)) tt
  take_separator-IsExpandable ts (some (c, more)) h a =
      subst (All IsExpandable) (sym (take_separator-printed ts (some (c, more)) h))
        (tt, a c more refl)

  take_units-IsExpandable :
      (fuel : ℕ) (connector : Connector) (ts : List Token) (us : List PlanUnit)
      → take_units is_alpha fuel connector ts ≡ pure us
      → All IsExpandable ts
  unfolding take_units
  take_units-IsExpandable zero connector ts us h = absurd (cc h)
  take_units-IsExpandable (suc fuel) connector ts us h =
      let ((stages, behind), s, h1) = bind-eq-pure (take_stages is_alpha fuel ts) _ h in
      let ((redirection, left), r, h2) = bind-eq-pure (take_redirection is_alpha behind) _ h1 in
      let (next, n, h3) = bind-eq-pure (take_separator left) _ h2 in
      take_stages-IsExpandable fuel ts stages behind s (
        take_redirection-IsExpandable behind redirection left r (
          take_separator-IsExpandable left next n λ c more e.
            let (vs, k, h4) = bind-eq-pure (take_units is_alpha fuel c more) _ (rw e at h3) in
            take_units-IsExpandable fuel c more vs k))

  parse_tokens-IsExpandable :
      (ts : List Token) (plan : ExecutionPlan)
      → parse_tokens is_alpha ts ≡ pure plan
      → All IsExpandable ts
  unfolding parse_tokens
  parse_tokens-IsExpandable [] plan h = tt
  parse_tokens-IsExpandable (t ∷ ts) plan h =
      let (us, k, h1) =
        bind-eq-pure (take_units is_alpha (length (t ∷ ts) + 2) always (t ∷ ts)) _ h in
      take_units-IsExpandable (length (t ∷ ts) + 2) always (t ∷ ts) us k

  -- Every word of a plan that the parser returns, the destinations of redirections included, is
  -- expanded to a text in every environment and working directory: a command that is dispatched
  -- meets no error of expansion.
  pub parse_execution_plan-IsExpandable :
      (command : Text) (plan : ExecutionPlan)
      → parse_execution_plan is_alpha command ≡ pure plan
      → All IsExpandable (print_units plan.units)
  unfolding parse_execution_plan
  parse_execution_plan-IsExpandable command plan h =
      let (ts, t, h1) = bind-eq-pure (tokenize command) _ h in
      subst (All IsExpandable) (parse_tokens-printed is_alpha ts plan h1).0
        (parse_tokens-IsExpandable ts plan h1)
